-- ===== src/Pipeline/Fallback.antt =====
-- crates/hygress-gateway/src/pipeline/fallback.rs: the internal redirect to a Fallback route.
use hygress.Common.{
  ◌≡◌, refl, ap, ◌∙◌, Str, codes, str_eq, str_eq_refl, to_ascii_lowercase, ℕ, ◌<◌, Option, none,
  some, Bool, false, if◌then◌else◌, leb, arith,
}
use hygress.Config.{FallbackSpec, ConfigData}
use hygress.Common.Results.{ok}
use hygress.Regex.{RegexEngine}
use hygress.Route.{fallback}
use hygress.RouteTable.{RouteTable, RouteMatch, find_match_fallback, rebuild, fallback_exact}
use hygress.RouteTable.Scan.{scan, find_match_fallback-scan}
use hygress.Transform.{HeaderMap, insert_header, get_header, header_key}
use hygress.Transform.HeaderLaws.{get_header-insert_header}

abbrev pub fallback_from_name : Str
fallback_from_name = codes "x-higress-fallback-from"

abbrev pub original_path_name : Str
original_path_name = codes "x-gpustack-original-path"

abbrev pub fallback_path_name : Str
fallback_path_name = codes "x-gpustack-fallback-path"

pub record FallbackPlan : Type 0 where
  pub target_key : Str
  pub restored_path : Str
  pub max_redirects : ℕ  -- u32
  pub fallback_path_header : Str

abbrev pub budget_exhausted : ℕ → FallbackSpec → Bool
budget_exhausted redirect_count spec = leb spec.max_redirects redirect_count

unfoldable pub plan : FallbackSpec → Str → ℕ → Option FallbackPlan
plan spec original_path redirect_count =
    if budget_exhausted redirect_count spec
    then none
    else some (record {
      target_key = spec.target_key;
      restored_path = original_path;
      max_redirects = spec.max_redirects;
      fallback_path_header = original_path;
    })

unfoldable pub match_fallback :
    (R : RegexEngine) → RouteTable R → HeaderMap → Str → Option RouteMatch
match_fallback R t headers path =
    find_match_fallback R t (get_header headers fallback_from_name) path

unfoldable pub original_path : HeaderMap → Option Str
original_path headers = get_header headers original_path_name

unfoldable pub arm : HeaderMap → FallbackPlan → HeaderMap
arm headers p =
    insert_header (insert_header headers fallback_from_name p.target_key) fallback_path_name
      p.fallback_path_header

names_differ : str_eq (header_key fallback_path_name) (header_key fallback_from_name) ≡ false
unfolding str_eq to_ascii_lowercase
names_differ = refl

armed_key :
    (headers : HeaderMap) (p : FallbackPlan)
    → get_header (arm headers p) fallback_from_name ≡ some p.target_key
unfolding arm
armed_key headers p =
    get_header-insert_header (insert_header headers fallback_from_name p.target_key)
      fallback_path_name fallback_from_name p.fallback_path_header
    ∙ ap
        (λ b.
          if b
          then some p.fallback_path_header
          else get_header (insert_header headers fallback_from_name p.target_key)
              fallback_from_name)
        names_differ
    ∙ get_header-insert_header headers fallback_from_name fallback_from_name p.target_key
    ∙ ap (λ b. if b then some p.target_key else get_header headers fallback_from_name)
        (str_eq_refl (header_key fallback_from_name))

plan-inversion :
    (spec : FallbackSpec) (p : FallbackPlan) (original : Str) (redirect_count : ℕ)
    → plan spec original redirect_count ≡ some p
    → (redirect_count < spec.max_redirects) × (p.target_key ≡ spec.target_key)
unfolding plan
plan-inversion spec p original redirect_count h = ground arith

-- Where the plan exists, hops are left, and in the table built from a snapshot the headers that it
-- arms lead to the first Fallback route of the snapshot with the link's target key, not empty, that
-- has a predicate which matches the path, and otherwise to the snapshot's first mirror, whatever
-- headers the request came with.
pub match_fallback-arm :
    {Rest : Type 0} (R : RegexEngine) (snapshot : ConfigData Rest) (t : RouteTable R)
    (headers : HeaderMap) (spec : FallbackSpec) (p : FallbackPlan) (original path : Str)
    (redirect_count : ℕ)
    → rebuild R snapshot ≡ ok t
    → plan spec original redirect_count ≡ some p
    → (redirect_count < spec.max_redirects)
      × (match_fallback R t (arm headers p) path
          ≡ scan R fallback fallback_exact spec.target_key path snapshot.routes)
unfolding match_fallback
match_fallback-arm R snapshot t headers spec p original path redirect_count built planned =
    let inverted = plan-inversion spec p original redirect_count planned in
    (
      inverted.0,
      ap (λ k. find_match_fallback R t k path) (armed_key headers p ∙ ap (λ k. some k) inverted.1)
          ∙ find_match_fallback-scan R snapshot t spec.target_key path built,
    )
