-- ===== src/Pipeline/ModelRouter.antt =====
-- crates/hygress-gateway/src/pipeline/model_router.rs: which model a request asks for.
use hygress.Common.{
  ◌≡◌, refl, Str, codes, text_eq, ℕ, List, [], ◌∷◌, Option, none, some, if◌then◌else◌, any, ltb,
  is_empty, unwrap_or, split, strip_prefix, ends_with, arith,
}
use hygress.Common.Dict.{lookup}
use hygress.Common.Results.{Result, ok, err}

pub record ModelRouterConfig : Type 0 where
  pub prefix : Str
  pub target_header : Str
  pub model_key : Str
  pub enable_on_path_suffix : List Str
  pub alias_name_mapping : List (Str × Str)
  pub max_body_bytes : ℕ

-- `ModelRouterSettings` of the snapshot.
pub record ModelRouterSettings : Type 0 where
  pub prefix : Str
  pub target_header : Str
  pub enable_on_path_suffix : List Str
  pub alias_name_mapping : List (Str × Str)
  pub max_body_bytes : Option ℕ

abbrev pub default_max_body_bytes : ℕ
default_max_body_bytes = 8388608

abbrev or_default : Str → Str → Str
or_default s default = if is_empty s then default else s

abbrev pub from_settings : ModelRouterSettings → ModelRouterConfig
from_settings s = record {
  prefix = or_default s.prefix (codes "/model/proxy/");
  target_header = or_default s.target_header (codes "x-higress-llm-model");
  model_key = codes "model";
  enable_on_path_suffix = s.enable_on_path_suffix;
  alias_name_mapping = s.alias_name_mapping;
  max_body_bytes = unwrap_or s.max_body_bytes default_max_body_bytes;
}

pub data ModelResolution : Type 0 where
  path_alias body : Str → ModelResolution
  passthrough : ModelResolution

pub record ModelResolve : Type 0 where
  pub resolution : ModelResolution
  pub model : Option Str

pub data PathMode : Type 0 where
  alias_hit : Str → PathMode
  body_driven pass : PathMode

abbrev first_or_empty : List Str → Str
first_or_empty [] = []
first_or_empty (s ∷ _) = s

abbrev alias_mode : Option Str → PathMode
alias_mode none = body_driven
alias_mode (some model) = alias_hit model

-- The mode after the prefix; the first segment is the alias. `/` is 47.
abbrev prefix_mode : ModelRouterConfig → Str → PathMode
prefix_mode cfg rest =
    let id = first_or_empty (split 47 rest) in
    if is_empty id then body_driven else alias_mode (lookup id cfg.alias_name_mapping)

abbrev mode_of : Str → ModelRouterConfig → Option Str → PathMode
mode_of path cfg (some rest) = prefix_mode cfg rest
mode_of path cfg none =
    if any (λ s. ends_with s path) cfg.enable_on_path_suffix then body_driven else pass

unfoldable pub path_mode : Str → ModelRouterConfig → PathMode
path_mode path cfg = mode_of path cfg (strip_prefix cfg.prefix path)

abbrev pub from_body : Option Str → ModelResolve
from_body none = record { resolution = passthrough; model = none }
from_body (some m) = record { resolution = body m; model = some m }

abbrev pub from_mode : PathMode → Option Str → ModelResolve
from_mode (alias_hit m) body_model = record { resolution = path_alias m; model = some m }
from_mode body_driven body_model = from_body body_model
from_mode pass body_model = record { resolution = passthrough; model = none }

-- `GatewayError::BodyTooLarge(len, max)`.
pub data GatewayError : Type 0 where
  body_too_large : ℕ → ℕ → GatewayError

abbrev scanned : PathMode → Option Str → Option Str
scanned body_driven model = model
scanned (alias_hit _) model = none
scanned pass model = none

-- `extracted` is what `extract_model` returns for the body, which is scanned only where the body
-- decides.
unfoldable pub resolve_model :
    Str → ℕ → Option Str → ModelRouterConfig → Result GatewayError ModelResolve
resolve_model path body_len extracted cfg =
    if ltb cfg.max_body_bytes body_len
    then err (body_too_large body_len cfg.max_body_bytes)
    else let mode = path_mode path cfg in ok (from_mode mode (scanned mode extracted))

unfoldable pub resolve_fused :
    Str → ℕ → ModelRouterConfig → Option Str → Result GatewayError ModelResolve
resolve_fused path body_len cfg body_model =
    if ltb cfg.max_body_bytes body_len
    then err (body_too_large body_len cfg.max_body_bytes)
    else ok (from_mode (path_mode path cfg) body_model)

from_mode-scanned :
    (mode : PathMode) (model : Option Str)
    → from_mode mode (scanned mode model) ≡ from_mode mode model
from_mode-scanned (alias_hit m) model = refl
from_mode-scanned body_driven model = refl
from_mode-scanned pass model = refl

-- The fused entry, which is handed the model of the body in every mode, gives what the entry does
-- that scans the body only where the path asks for it.
pub resolve_fused-resolve_model :
    (path : Str) (body_len : ℕ) (cfg : ModelRouterConfig) (model : Option Str)
    → resolve_fused path body_len cfg model ≡ resolve_model path body_len model cfg
unfolding resolve_fused resolve_model
resolve_fused-resolve_model path body_len cfg model =
    ground (arith, from_mode-scanned (path_mode path cfg) model)
