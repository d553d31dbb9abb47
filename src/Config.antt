-- ===== src/Config.antt =====
-- crates/hygress-core/src/config.rs, lines 1 to 750: the snapshot of the control plane, its
-- validation, and the choice of a provider's token. A finding of the validation is modelled by
-- what it is about in place of its text, in the order in which the findings are made: the source
-- sorts them by their texts at the end.
pub mod Accepted
pub mod Bearer
pub mod Findings
pub mod Passes
use hygress.Common.{
  Str, str_eq, ℕ, zero, suc, ◌+◌, List, [], ◌∷◌, ◌++◌, Option, none, some, Bool, true, false, not,
  ◌&&◌, ◌||◌, ◌==◌, ltb, leb, if◌then◌else◌, is_empty, is_some, any, all, length, unwrap_or, retain,
}
use hygress.Common.Results.{Result, ok, err, Error}
use hygress.Destination.{Destination, weight, service_ref, ServiceType, static, dns, proxy, tunnel}
use hygress.Registry.{Registry, OutboundProxy}
use hygress.Route.{
  RouteRule, RouteKind, main, fallback, mirror, kind_eq, FallbackLink, last_segment,
}

pub record ProviderToken : Type 0 where
  pub service : Str
  pub ingress_scope : Option Str
  pub api_tokens : List Str

-- The features, the TLS certificates, the timing and the model router's settings are handed on
-- by the validation as they are.
pub record ConfigData (Rest : Type 0) : Type 0 where
  pub routes : List RouteRule
  pub registries : List Registry
  pub proxies : List OutboundProxy
  pub rest : Rest
  pub provider_tokens : List ProviderToken

-- `ValidationError`, by the finding.
pub data Issue : Type 0 where
  empty_key duplicate_key mirror_auth no_destinations empty_scope_root : Str → Issue
  bad_endpoint out_of_range : Str → Str → Issue
  weight_sum : Str → ℕ → Issue
  fallback_not_found extra_mirror fallback_not_accepted : Str → Issue
  registry_field registry_port registry_proxy_ref registry_proxy : Str → Issue
  token_service token_empty : Str → Issue

-- `if cond { issues.push(issue) }`.
abbrev pub issue_if : Bool → Issue → List Issue
issue_if true i = i ∷ []
issue_if false i = []

abbrev pub is_err {ℓ} : {A : Type ℓ} → Result Error A → Bool
is_err (ok _) = false
is_err (err _) = true

abbrev pub out_of_range_percent : Option ℕ → Bool
out_of_range_percent none = false
out_of_range_percent (some p) = ltb 100 p

unfoldable pub destination_issues : Str → List Destination → List Issue
destination_issues key [] = []
destination_issues key (d ∷ ds) =
    issue_if (is_err (service_ref d)) (bad_endpoint key d.service)
    ++ issue_if (out_of_range_percent d.percent) (out_of_range key d.service)
    ++ destination_issues key ds

-- The accumulation in `u64`: a list of 2^32 destinations would be needed to overflow it.
unfoldable pub weight_total : List Destination → ℕ
weight_total [] = 0
weight_total (d ∷ ds) = weight d + weight_total ds

unfoldable pub weight_issues : Str → List Destination → List Issue
unfolding weight_total
weight_issues key ds =
    issue_if (any (λ d. is_some d.percent) ds && not (weight_total ds == 100))
      (weight_sum key (weight_total ds))

-- `routes.iter().any(|r| r.kind == RouteKind::Fallback && r.key == target)`.
unfoldable pub has_fallback : Str → List RouteRule → Bool
has_fallback target routes = any (λ r. kind_eq r.kind fallback && str_eq r.key target) routes

-- A fallback link of the route whose target is no key among the routes' Fallback keys.
abbrev pub dangling_link : List RouteRule → Option FallbackLink → Bool
dangling_link routes none = false
dangling_link routes (some link) = not (has_fallback link.target_key routes)

abbrev pub dangling : List RouteRule → RouteRule → Bool
dangling routes r = dangling_link routes r.fallback

-- The pairs of `seen_keys`.
abbrev pub seen : RouteKind → Str → List (RouteKind × Str) → Bool
seen kind key keys = any (λ k. kind_eq k.0 kind && str_eq k.1 key) keys

unfoldable pub key_issues : List (RouteKind × Str) → RouteRule → List Issue
key_issues keys r =
    if is_empty r.key
    then empty_key r.key ∷ []
    else issue_if (seen r.kind r.key keys) (duplicate_key r.key)

-- The findings of one route, given the keys seen before it and all the routes.
unfoldable pub route_issues : List (RouteKind × Str) → List RouteRule → RouteRule → List Issue
route_issues keys all_routes r =
    key_issues keys r
    ++ issue_if (kind_eq r.kind mirror && r.auth_scope.enabled) (mirror_auth r.key)
    ++ issue_if (is_empty r.destinations) (no_destinations r.key)
    ++ destination_issues r.key r.destinations
    ++ weight_issues r.key r.destinations
    ++ issue_if (dangling all_routes r) (fallback_not_found r.key)
    ++ issue_if
        (not (kind_eq r.kind mirror) && r.auth_scope.enabled && is_empty r.auth_scope.scope_root)
        (empty_scope_root r.key)

abbrev pub seen_after : RouteRule → List (RouteKind × Str) → List (RouteKind × Str)
seen_after r keys = if is_empty r.key then keys else (r.kind, r.key) ∷ keys

-- The per-object pass: the accepted routes and the findings.
unfoldable pub check_routes :
    List (RouteKind × Str) → List RouteRule → List RouteRule → List RouteRule × List Issue
check_routes keys all_routes [] = ([], [])
check_routes keys all_routes (r ∷ rs) =
    let found = route_issues keys all_routes r in
    let rest = check_routes (seen_after r keys) all_routes rs in
    if is_empty found then (r ∷ rest.0, rest.1) else (rest.0, found ++ rest.1)

-- Only the first mirror is kept.
unfoldable pub first_mirror_only : Bool → List RouteRule → List RouteRule × List Issue
first_mirror_only mirror_seen [] = ([], [])
first_mirror_only mirror_seen (r ∷ rs) =
    let rest = first_mirror_only (mirror_seen || kind_eq r.kind mirror) rs in
    if kind_eq r.kind mirror && mirror_seen
    then (rest.0, extra_mirror r.key ∷ rest.1)
    else (r ∷ rest.0, rest.1)

-- One pass of the cascade, against the accepted set at its begin.
unfoldable pub cascade_pass : List RouteRule → List RouteRule → List RouteRule × List Issue
cascade_pass accepted [] = ([], [])
cascade_pass accepted (r ∷ rs) =
    let rest = cascade_pass accepted rs in
    if dangling accepted r
    then (rest.0, fallback_not_accepted r.key ∷ rest.1)
    else (r ∷ rest.0, rest.1)

-- The bounded loop: `fuel` passes are left.
unfoldable pub cascade : ℕ → List RouteRule → List RouteRule × List Issue
unfolding cascade_pass
cascade zero routes = (routes, [])
cascade (suc fuel) routes =
    let kept = cascade_pass routes routes in
    let rest = cascade fuel kept.0 in
    if length kept.0 == length routes then kept else (rest.0, kept.1 ++ rest.1)

abbrev proxy_ref_issues : List OutboundProxy → Str → Option Str → List Issue
proxy_ref_issues proxies id none = registry_proxy_ref id ∷ []
proxy_ref_issues proxies id (some p) =
    issue_if (not (any (λ x. str_eq x.name p) proxies)) (registry_proxy id)

abbrev registry_kind_issues : List OutboundProxy → Registry → ServiceType → List Issue
registry_kind_issues proxies r dns = issue_if (not (is_some r.port)) (registry_port r.id)
registry_kind_issues proxies r proxy = proxy_ref_issues proxies r.id r.proxy_ref
registry_kind_issues proxies r static = []
registry_kind_issues proxies r tunnel = []

unfoldable pub registry_issues : List OutboundProxy → Registry → List Issue
registry_issues proxies r =
    issue_if (is_empty r.id || is_empty r.domain) (registry_field r.id)
    ++ registry_kind_issues proxies r r.kind

unfoldable pub check_registries : List OutboundProxy → List Registry → List Registry × List Issue
check_registries proxies [] = ([], [])
check_registries proxies (r ∷ rs) =
    let found = registry_issues proxies r in
    let rest = check_registries proxies rs in
    if is_empty found then (r ∷ rest.0, rest.1) else (rest.0, found ++ rest.1)

-- An ASCII letter or digit, `-`, `_` or `.`.
unfoldable pub is_service_char : ℕ → Bool
is_service_char c =
    leb 48 c && leb c 57
    || leb 65 c && leb c 90
    || leb 97 c && leb c 122
    || c == 45
    || c == 95
    || c == 46

unfoldable pub is_valid_service_id : Str → Bool
is_valid_service_id service = not (is_empty service) && all is_service_char service

unfoldable pub token_issues : ProviderToken → List Issue
token_issues t =
    issue_if (not (is_valid_service_id t.service)) (token_service t.service)
    ++ issue_if (is_empty t.api_tokens) (token_empty t.service)

unfoldable pub check_tokens : List ProviderToken → List ProviderToken × List Issue
check_tokens [] = ([], [])
check_tokens (t ∷ ts) =
    let found = token_issues t in
    let rest = check_tokens ts in
    if is_empty found then (t ∷ rest.0, rest.1) else (rest.0, found ++ rest.1)

pub record SanitizeResult (Rest : Type 0) : Type 0 where
  pub accepted : ConfigData Rest
  pub issues : List Issue

-- The three passes over the routes.
unfoldable pub sanitize_routes : List RouteRule → List RouteRule × List Issue
sanitize_routes routes =
    let checked = check_routes [] routes routes in
    let one_mirror = first_mirror_only false checked.0 in
    let settled = cascade (suc (length one_mirror.0)) one_mirror.0 in
    (settled.0, checked.1 ++ one_mirror.1 ++ settled.1)

unfoldable pub sanitize : {Rest : Type 0} → ConfigData Rest → SanitizeResult Rest
sanitize snapshot =
    let routes = sanitize_routes snapshot.routes in
    let registries = check_registries snapshot.proxies snapshot.registries in
    let tokens = check_tokens snapshot.provider_tokens in
    record {
      accepted = record snapshot {
        routes = routes.0;
        registries = registries.0;
        provider_tokens = tokens.0;
      };
      issues = routes.1 ++ registries.1 ++ tokens.1;
    }

-- The bearer of a token: its first API token.
abbrev pub first_token : List Str → Option Str
first_token [] = none
first_token (t ∷ _) = some t

abbrev pub scope_matches : Str → Str → Bool
scope_matches ingress_bare scope =
    not (is_empty (last_segment scope)) && str_eq (last_segment scope) ingress_bare

abbrev pub global_token : Option ProviderToken → Option Str
global_token none = none
global_token (some t) = first_token t.api_tokens

abbrev keep_first : Option ProviderToken → ProviderToken → Option ProviderToken
keep_first none t = some t
keep_first (some g) t = some g

-- A token for the service: a scope that matches ends the search, another scope is skipped, and no
-- scope makes it the candidate.
abbrev by_scope : Option Str → Str → ProviderToken → Option Str → Option Str → Option Str
by_scope (some scope) ingress_bare t skip keep =
    if scope_matches ingress_bare scope then first_token t.api_tokens else skip
by_scope none ingress_bare t skip keep = keep

-- The loop over the tokens; `global` is the first unscoped token so far.
unfoldable pub bearer_from : Str → Str → Option ProviderToken → List ProviderToken → Option Str
bearer_from service ingress_bare global [] = global_token global
bearer_from service ingress_bare global (t ∷ ts) =
    let skip = bearer_from service ingress_bare global ts in
    let keep = bearer_from service ingress_bare (keep_first global t) ts in
    if not (str_eq t.service service) || is_empty t.api_tokens
    then skip
    else by_scope t.ingress_scope ingress_bare t skip keep

unfoldable pub provider_bearer : List ProviderToken → Str → Str → Option Str
provider_bearer tokens service ingress_name =
    bearer_from service (last_segment ingress_name) none tokens

-- `FallbackSpec`, which is derived from a route's fallback link.
pub record FallbackSpec : Type 0 where
  pub route_key : Str
  pub main_ingress_name : Str
  pub target_key : Str
  pub max_redirects : ℕ  -- u32
  pub use_original_body : Bool
  pub use_original_uri : Bool

abbrev spec_of_link : RouteRule → Option FallbackLink → Option FallbackSpec
spec_of_link r none = none
spec_of_link r (some link) = some (record {
  route_key = r.key;
  main_ingress_name =
      if is_empty link.main_ingress_name then r.ingress_name else link.main_ingress_name;
  target_key = link.target_key;
  max_redirects = link.max_redirects;
  use_original_body = link.use_original_request;
  use_original_uri = link.use_original_request;
})

abbrev pub from_route : RouteRule → Option FallbackSpec
from_route r = spec_of_link r r.fallback

abbrev prepend_some : Option FallbackSpec → List FallbackSpec → List FallbackSpec
prepend_some none specs = specs
prepend_some (some spec) specs = spec ∷ specs

-- `filter_map(FallbackSpec::from_route)`.
unfoldable pub fallbacks : List RouteRule → List FallbackSpec
fallbacks [] = []
fallbacks (r ∷ rs) = prepend_some (from_route r) (fallbacks rs)
