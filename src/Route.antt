-- ===== src/Route.antt =====
-- crates/hygress-core/src/route.rs: route rules, path rewriting and the authentication scope.
pub mod Rewrite
use hygress.Common.{
  Str, codes, str_eq, ℕ, zero, suc, ◌-◌, List, [], ◌∷◌, ◌++◌, Option, none, some, Bool, true, false,
  not, ◌&&◌, ◌||◌, ◌==◌, leb, ltb, if◌then◌else◌, is_empty, unwrap_or, get_elem?, rsplit_once,
  starts_with,
}
use hygress.Common.Results.{Result, ok, err, Error, ◌>>=◌, ◌>>◌, fail_if}
use hygress.Destination.{Destination, service_ref}
use hygress.ModelMapping.{ModelMapping, empty_mapping}
use hygress.Retry.{RetryPolicy, default_retry}

pub data RouteKind : Type 0 where
  main fallback mirror : RouteKind

-- The derived `PartialEq`.
abbrev pub kind_eq : RouteKind → RouteKind → Bool
kind_eq main main = true
kind_eq fallback fallback = true
kind_eq mirror mirror = true
kind_eq main fallback = false
kind_eq main mirror = false
kind_eq fallback main = false
kind_eq fallback mirror = false
kind_eq mirror main = false
kind_eq mirror fallback = false

pub record PathPred : Type 0 where
  pub regex : Str
  pub ignore_case : Bool

pub record PathRewriter : Type 0 where
  pub target : Str

-- A numbered group, or nothing where there is no such group.
abbrev pub group_text : List Str → ℕ → Str
group_text groups i = unwrap_or (get_elem? groups i) []

-- `$` is 36, and the digits `1` to `9` are 49 to 57.
unfoldable pub rewrite_chars : List Str → Str → Str
rewrite_chars groups [] = []
rewrite_chars groups (c ∷ []) = c ∷ []
rewrite_chars groups (c ∷ d ∷ s) =
    let after_pair = rewrite_chars groups s in
    let after_one = rewrite_chars groups (d ∷ s) in
    if c == 36 && d == 36
    then 36 ∷ after_pair
    else if c == 36 && leb 49 d && leb d 57
    then group_text groups (d - 49) ++ after_pair
    else c ∷ after_one

unfoldable pub rewrite : PathRewriter → List Str → Str
unfolding rewrite_chars
rewrite r groups = rewrite_chars groups r.target

pub record FallbackLink : Type 0 where
  pub target_key : Str
  pub main_ingress_name : Str
  pub max_redirects : ℕ  -- u32
  pub use_original_request : Bool

abbrev pub default_max_redirects : ℕ
default_max_redirects = 10

abbrev pub new_link : Str → FallbackLink
new_link target_key = record {
  main_ingress_name = target_key;
  target_key = target_key;
  max_redirects = default_max_redirects;
  use_original_request = true;
}

abbrev pub with_main_ingress_name : FallbackLink → Str → FallbackLink
with_main_ingress_name l name = record l { main_ingress_name = name }

pub record AuthScope : Type 0 where
  pub enabled : Bool
  pub scope_root : Str

abbrev pub default_scope_root : Str
default_scope_root = codes "ai-route-route-"

abbrev pub scope_for_kind : RouteKind → AuthScope
scope_for_kind mirror = record { enabled = false; scope_root = [] }
scope_for_kind main = record { enabled = true; scope_root = default_scope_root }
scope_for_kind fallback = record { enabled = true; scope_root = default_scope_root }

abbrev after_cut : Str → Option (Str × Str) → Str
after_cut s none = s
after_cut s (some (before, after)) = after

-- `s.rsplit('/').next().unwrap_or(s)`; `/` is 47.
unfoldable pub last_segment : Str → Str
last_segment s = after_cut s (rsplit_once 47 s)

unfoldable pub should_auth : AuthScope → Str → Bool
unfolding last_segment
should_auth scope origin_ingress =
    if not scope.enabled || is_empty scope.scope_root
    then false
    else starts_with scope.scope_root (last_segment origin_ingress)

pub record RuleSource : Type 0 where
  pub uid : Str
  pub resource_version : ℕ  -- u64
  pub ingress_name : Str

pub record RouteRule : Type 0 where
  pub key : Str
  pub ingress_name : Str
  pub kind : RouteKind
  pub path_predicates : List PathPred
  pub rewrite_target : Option PathRewriter
  pub destinations : List Destination
  pub retry : RetryPolicy
  pub fallback : Option FallbackLink
  pub auth_scope : AuthScope
  pub model_mapping : ModelMapping
  pub sources : List RuleSource

abbrev pub as_invalid {ℓ} : {A : Type ℓ} → Result Error A → Result Error (Unit {0})
as_invalid (ok _) = ok tt
as_invalid (err _) = err Error.invalid

unfoldable pub validate_destinations : List Destination → Result Error (Unit {0})
validate_destinations [] = ok tt
validate_destinations (d ∷ ds) = do as_invalid (service_ref d); validate_destinations ds

unfoldable pub validate : RouteRule → Result Error (Unit {0})
validate r = do
  fail_if (is_empty r.key) Error.invalid
  fail_if (kind_eq r.kind mirror && r.auth_scope.enabled) Error.invalid
  fail_if (is_empty r.destinations) Error.invalid
  validate_destinations r.destinations

abbrev pub draft_rule : Str → RouteKind → List PathPred → List Destination → RouteRule
draft_rule key kind path_predicates destinations = record {
  ingress_name = key;
  key = key;
  kind = kind;
  path_predicates = path_predicates;
  rewrite_target = none;
  destinations = destinations;
  retry = default_retry;
  fallback = none;
  auth_scope = scope_for_kind kind;
  model_mapping = empty_mapping;
  sources = [];
}

unfoldable pub new_rule :
    Str → RouteKind → List PathPred → List Destination → Result Error RouteRule
new_rule key kind path_predicates destinations =
    let rule = draft_rule key kind path_predicates destinations in do validate rule; ok rule

abbrev pub rewrite_path : RouteRule → List Str → Option Str
rewrite_path r groups = elim r.rewrite_target [ none ↦ none | some t ↦ some (rewrite t groups) ]

abbrev pub auth_required : RouteRule → Str → Bool
auth_required r origin_ingress = should_auth r.auth_scope origin_ingress

abbrev pub requires_auth : RouteRule → Bool
requires_auth r = should_auth r.auth_scope r.ingress_name
