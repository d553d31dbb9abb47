-- ===== src/Pipeline/RegistryResolve.antt =====
-- crates/hygress-gateway/src/pipeline/registry_resolve.rs, with `Scheme` of
-- crates/hygress-gateway/src/context.rs: the address of a destination. Of a configuration only the
-- registries and the proxies are read, and all errors are one variant with a text that is logged.
use hygress.Common.{
  ◌≡◌, refl, sym, ap, ◌∙◌, str_eq_iff, Str, codes, str_eq, text_eq, to_ascii_lowercase,
  split_once_str, List, Option, none, some, Bool, true, false, if◌then◌else◌, unwrap_or, find,
  arith, Bool-cases, inl, inr,
}
use hygress.Common.Dict.{lookup}
use hygress.Common.Results.{Error, Result, ok, err}
use hygress.Destination.{Destination, ServiceRef, service_ref, service_name}
use hygress.Registry.{
  Registry, OutboundProxy, ResolvedTarget, direct, proxied, tunnelled, PreResolvedRegistry, address,
  resolve, resolve_entry, pre_resolved, scheme_is_https, split_scheme_is_https,
  precompute_registries,
}
use hygress.Registry.Index.{precompute_registries-find}
use mathlib.Core.Option
use hygress.Pipeline.RoutingPolicy.{CandidateTarget}

pub data Scheme : Type 0 where
  http https : Scheme

unfoldable pub parse_scheme : Str → Option Scheme
parse_scheme s =
    let lower = to_ascii_lowercase s in
    if str_eq lower (codes "http")
    then some http
    else if str_eq lower (codes "https")
    then some https
    else none

-- The fields of `CandidateTarget` beside the names.
pub record Dial : Type 0 where
  pub address : Str
  pub proxied : Bool
  pub scheme : Scheme
  pub proxy : Option Str

pub data GatewayError : Type 0 where
  registry_resolve : GatewayError

abbrev candidate : Destination → ServiceRef → Dial → CandidateTarget Dial
candidate dest r dial = record {
  service = dest.service;
  service_name = service_name r;
  rest = dial;
}

abbrev dial_of : PreResolvedRegistry → Dial
dial_of info = record {
  address = info.address;
  proxied = info.proxied;
  scheme = if info.https then https else http;
  proxy = info.proxy;
}

abbrev from_entry :
    Option (Result Error PreResolvedRegistry)
    → Destination
    → ServiceRef
    → Result GatewayError (CandidateTarget Dial)
from_entry none dest r = err registry_resolve
from_entry (some (err e)) dest r = err registry_resolve
from_entry (some (ok info)) dest r = ok (candidate dest r (dial_of info))

abbrev index_of_ref :
    List (Str × Result Error PreResolvedRegistry)
    → Destination
    → Result Error ServiceRef
    → Result GatewayError (CandidateTarget Dial)
index_of_ref index dest (err e) = err registry_resolve
index_of_ref index dest (ok r) = from_entry (lookup (service_name r) index) dest r

unfoldable pub resolve_index :
    List (Str × Result Error PreResolvedRegistry)
    → Destination
    → Result GatewayError (CandidateTarget Dial)
resolve_index index dest = index_of_ref index dest (service_ref dest)

abbrev schemed : Str → Option (Str × Str) → Scheme × Str
schemed domain none = (http, domain)
schemed domain (some (scheme, rest)) = (unwrap_or (parse_scheme scheme) http, rest)

unfoldable pub split_scheme : Str → Scheme × Str
split_scheme domain = schemed domain (split_once_str (codes "://") domain)

abbrev dialed : Scheme → Result Error ResolvedTarget → Result GatewayError Dial
dialed scheme (err e) = err registry_resolve
dialed scheme (ok (direct a)) =
    ok (record { address = a; proxied = false; scheme = scheme; proxy = none })
dialed scheme (ok (proxied a name p)) =
    ok (record { address = a; proxied = true; scheme = scheme; proxy = some (address p) })
dialed scheme (ok (tunnelled a)) =
    ok (record { address = a; proxied = false; scheme = scheme; proxy = none })

abbrev with_dial :
    Destination → ServiceRef → Result GatewayError Dial → Result GatewayError (CandidateTarget Dial)
with_dial dest r (err e) = err e
with_dial dest r (ok dial) = ok (candidate dest r dial)

abbrev from_registry :
    List OutboundProxy
    → Destination
    → ServiceRef
    → Option Registry
    → Result GatewayError (CandidateTarget Dial)
from_registry proxies dest r none = err registry_resolve
from_registry proxies dest r (some registry) =
    let scheme = split_scheme registry.domain in
    with_dial dest r (dialed scheme.0 (resolve (record registry { domain = scheme.1 }) proxies))

abbrev scan_for_ref :
    List Registry
    → List OutboundProxy
    → Destination
    → Result Error ServiceRef
    → Result GatewayError (CandidateTarget Dial)
scan_for_ref registries proxies dest (err e) = err registry_resolve
scan_for_ref registries proxies dest (ok r) =
    from_registry proxies dest r (find (λ g. str_eq g.id (service_name r)) registries)

unfoldable pub resolve_destination :
    List Registry → List OutboundProxy → Destination → Result GatewayError (CandidateTarget Dial)
resolve_destination registries proxies dest =
    scan_for_ref registries proxies dest (service_ref dest)

abbrev scheme_if : Bool → Scheme
scheme_if b = if b then https else http

http_is_not_https : (s : Str) → s ≡ codes "http" → str_eq s (codes "https") ≡ false
unfolding str_eq
http_is_not_https s e = rw e refl

parse_scheme-is_https :
    (s : Str)
    → unwrap_or (parse_scheme s) http ≡ scheme_if (str_eq (to_ascii_lowercase s) (codes "https"))
unfolding parse_scheme
parse_scheme-is_https s =
    let lower = to_ascii_lowercase s in
    elim (Bool-cases (str_eq lower (codes "http"))) [
      | inl e ↦
          let other : str_eq lower (codes "https") ≡ false =
            http_is_not_https lower ((str_eq_iff lower (codes "http")).0 e) in
          rw e (rw other refl)
      | inr e ↦ ground (arith, e)
    ]

schemed-is_https :
    (domain : Str) (cut : Option (Str × Str))
    → schemed domain cut
      ≡ (scheme_if (scheme_is_https domain cut).0, (scheme_is_https domain cut).1)
schemed-is_https domain none = refl
schemed-is_https domain (some (scheme, rest)) = ap (λ s. (s, rest)) (parse_scheme-is_https scheme)

split_scheme-is_https :
    (domain : Str)
    → split_scheme domain
      ≡ (scheme_if (split_scheme_is_https domain).0, (split_scheme_is_https domain).1)
unfolding split_scheme split_scheme_is_https
split_scheme-is_https domain = schemed-is_https domain (split_once_str (codes "://") domain)

from_entry-pre_resolved :
    (https_ : Bool) (t : Result Error ResolvedTarget) (dest : Destination) (r : ServiceRef)
    → from_entry (some (pre_resolved https_ t)) dest r
      ≡ with_dial dest r (dialed (scheme_if https_) t)
from_entry-pre_resolved https_ (err e) dest r = refl
from_entry-pre_resolved https_ (ok (direct a)) dest r = refl
from_entry-pre_resolved https_ (ok (proxied a name p)) dest r = refl
from_entry-pre_resolved https_ (ok (tunnelled a)) dest r = refl

from_entry-from_registry :
    (proxies : List OutboundProxy) (dest : Destination) (r : ServiceRef) (o : Option Registry)
    → from_entry (Option.map (λ g. resolve_entry g proxies) o) dest r
      ≡ from_registry proxies dest r o
unfolding resolve_entry
from_entry-from_registry proxies dest r none = refl
from_entry-from_registry proxies dest r (some g) =
    let split = split_scheme_is_https g.domain in
    from_entry-pre_resolved split.0 (resolve (record g { domain = split.1 }) proxies) dest r
    ∙ ap (λ s. with_dial dest r (dialed s.0 (resolve (record g { domain = s.1 }) proxies)))
        (sym (split_scheme-is_https g.domain))

by_ref :
    (registries : List Registry) (proxies : List OutboundProxy) (dest : Destination)
    (r : Result Error ServiceRef)
    → index_of_ref (precompute_registries registries proxies) dest r
      ≡ scan_for_ref registries proxies dest r
by_ref registries proxies dest (err e) = refl
by_ref registries proxies dest (ok r) =
    rw (precompute_registries-find registries proxies (service_name r)) (
      from_entry-from_registry proxies dest r (find (λ g. str_eq g.id (service_name r)) registries))

-- A candidate that is resolved by the precomputed index is the one that a scan of the registries
-- gives, its scheme, its proxy and its errors included.
pub resolve_index-resolve_destination :
    (registries : List Registry) (proxies : List OutboundProxy) (dest : Destination)
    → resolve_index (precompute_registries registries proxies) dest
      ≡ resolve_destination registries proxies dest
unfolding resolve_index resolve_destination
resolve_index-resolve_destination registries proxies dest =
    by_ref registries proxies dest (service_ref dest)
