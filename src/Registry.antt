-- ===== src/Registry.antt =====
-- crates/hygress-core/src/registry.rs: service registries and the targets they resolve to. The
-- text of an error is not modelled: an entry of the index keeps the error's variant.
pub mod Index
use hygress.Common.{
  Str, codes, str_eq, text_eq, ℕ, List, [], ◌∷◌, ◌++◌, Option, none, some, Bool, true, false, not,
  ◌&&◌, if◌then◌else◌, is_empty, is_some, unwrap_or, find, trim, split_once, rsplit_once,
  split_once_str, to_ascii_lowercase, parse_uint, show_uint, u16_max, starts_with, ◌==◌,
}
use hygress.Common.Results.{Result, ok, err, Error, ◌>>=◌, ◌>>◌, fail_if, ok_or}
use hygress.Common.Dict.{or_insert}
use hygress.Destination.{
  ServiceType, static, dns, proxy, tunnel, service_name, parse_service_with_port,
}

pub record Registry : Type 0 where
  pub id : Str
  pub kind : ServiceType
  pub domain : Str
  pub port : Option ℕ  -- u16
  pub proxy_ref : Option Str

unfoldable pub new_registry : Str → Str → Result Error Registry
new_registry service domain = do
  ref ← parse_service_with_port service
  ok (record {
    id = service_name ref;
    kind = ref.kind;
    domain = domain;
    port = ref.port;
    proxy_ref = none;
  })

pub record OutboundProxy : Type 0 where
  pub name : Str
  pub server_address : Str
  pub server_port : ℕ  -- u16
  pub connect_timeout_secs : Option ℕ  -- u32
  pub listener_port : Option ℕ  -- u16
  pub kind : Option Str

abbrev pub find_proxy : List OutboundProxy → Str → Option OutboundProxy
find_proxy proxies name = find (λ p. str_eq p.name name) proxies

-- `format!("{}:{}", host, port)`; `:` is 58.
abbrev pub host_port : Str → ℕ → Str
host_port host port = host ++ 58 ∷ show_uint port

abbrev pub address : OutboundProxy → Str
address p = host_port p.server_address p.server_port

pub data ResolvedTarget : Type 0 where
  direct : Str → ResolvedTarget
  proxied : Str → Str → OutboundProxy → ResolvedTarget
  tunnelled : Str → ResolvedTarget

abbrev is_port : Str → Bool
is_port s = is_some (parse_uint u16_max s)

-- What stands after the `]` of a bracketed address is `:` and a port.
abbrev port_after_bracket : Option (Str × Str) → Bool
port_after_bracket none = false
port_after_bracket (some (_, [])) = false
port_after_bracket (some (_, c ∷ rest)) = not (is_empty rest) && c == 58 && is_port rest

abbrev port_after_colon : Option (Str × Str) → Bool
port_after_colon none = false
port_after_colon (some (_, rest)) = not (is_empty rest) && is_port rest

-- `[` is 91 and `]` is 93.
unfoldable pub has_explicit_port : Str → Bool
has_explicit_port s =
    if starts_with (91 ∷ []) s
    then port_after_bracket (split_once 93 s)
    else port_after_colon (rsplit_once 58 s)

abbrev pub after_scheme : Str → Option (Str × Str) → Str
after_scheme s none = s
after_scheme s (some (_, rest)) = rest

abbrev pub before_cut : Str → Option (Str × Str) → Str
before_cut s none = s
before_cut s (some (before, _)) = before

-- The host and port of a URL: what stands after `://`, up to the next `/` (47).
unfoldable pub authority_of : Str → Str
authority_of trimmed =
    let without_scheme = after_scheme trimmed (split_once_str (codes "://") trimmed) in
    before_cut without_scheme (split_once 47 without_scheme)

unfoldable pub normalize_static_domain : Str → Option ℕ → Result Error Str
normalize_static_domain domain port =
    let trimmed = trim domain in
    let authority = authority_of trimmed in
    do
      fail_if (is_empty trimmed) Error.invalid
      fail_if (is_empty authority) Error.invalid
      ok (
          if has_explicit_port authority
          then authority
          else host_port authority (unwrap_or port 80))

abbrev optional_port : Str → Option ℕ → Str
optional_port domain none = domain
optional_port domain (some p) = host_port domain p

unfoldable pub resolve_kind :
    ServiceType → Registry → List OutboundProxy → Result Error ResolvedTarget
resolve_kind static r proxies = do
  address ← normalize_static_domain r.domain r.port
  ok (direct address)
resolve_kind dns r proxies = do
  port ← ok_or r.port Error.invalid
  ok (direct (host_port r.domain port))
resolve_kind proxy r proxies = do
  proxy_name ← ok_or r.proxy_ref Error.invalid
  found ← ok_or (find_proxy proxies proxy_name) Error.unknown
  ok (proxied (optional_port r.domain r.port) proxy_name found)
resolve_kind tunnel r proxies = ok (tunnelled (optional_port r.domain r.port))

unfoldable pub resolve : Registry → List OutboundProxy → Result Error ResolvedTarget
resolve r proxies = do fail_if (is_empty r.domain) Error.invalid; resolve_kind r.kind r proxies

pub record PreResolvedRegistry : Type 0 where
  pub https : Bool
  pub address : Str
  pub proxied : Bool
  pub proxy : Option Str

abbrev pub scheme_is_https : Str → Option (Str × Str) → Bool × Str
scheme_is_https domain none = (false, domain)
scheme_is_https domain (some (scheme, rest)) =
    (str_eq (to_ascii_lowercase scheme) (codes "https"), rest)

unfoldable pub split_scheme_is_https : Str → Bool × Str
split_scheme_is_https domain = scheme_is_https domain (split_once_str (codes "://") domain)

abbrev pub pre_resolved : Bool → Result Error ResolvedTarget → Result Error PreResolvedRegistry
pre_resolved https (ok (direct a)) =
    ok (record { https = https; address = a; proxied = false; proxy = none })
pre_resolved https (ok (proxied a _ p)) =
    ok (record { https = https; address = a; proxied = true; proxy = some (address p) })
pre_resolved https (ok (tunnelled a)) =
    ok (record { https = https; address = a; proxied = false; proxy = none })
pre_resolved https (err e) = err e

unfoldable pub resolve_entry : Registry → List OutboundProxy → Result Error PreResolvedRegistry
resolve_entry r proxies =
    let (https, bare) = split_scheme_is_https r.domain in
    pre_resolved https (resolve (record r { domain = bare }) proxies)

-- The entries so far, and the registries that are left.
unfoldable pub precompute_from :
    List OutboundProxy
    → List (Str × Result Error PreResolvedRegistry)
    → List Registry
    → List (Str × Result Error PreResolvedRegistry)
precompute_from proxies out [] = out
precompute_from proxies out (r ∷ rs) =
    precompute_from proxies (or_insert r.id (resolve_entry r proxies) out) rs

unfoldable pub precompute_registries :
    List Registry → List OutboundProxy → List (Str × Result Error PreResolvedRegistry)
unfolding precompute_from
precompute_registries registries proxies = precompute_from proxies [] registries
