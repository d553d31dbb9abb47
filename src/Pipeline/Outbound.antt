-- ===== src/Pipeline/Outbound.antt =====
-- `build_outbound` of crates/hygress-gateway/src/pipeline/mod.rs without the request body, with
-- crates/hygress-gateway/src/pipeline/set_pre_route_headers.rs: what one candidate is sent.
pub mod Sent
use hygress.Common.{
  Str, codes, ℕ, List, [], ◌∷◌, ◌++◌, Option, none, some, Bool, true, false, if◌then◌else◌,
  is_empty, starts_with, split_once, rsplit_once, ◌==◌,
}
use hygress.Config.{ProviderToken, provider_bearer}
use hygress.Transform.{HeaderMap, get_all}
use hygress.Transform.Rules.{apply, outbound}
use hygress.Transform.Outbound.{
  OutboundHeaders, over, insert_over, contains_over, remove_over, overlay_ops,
}

abbrev pub model_instance_out : Str
model_instance_out = codes "X-GPUStack-Model-Instance"

abbrev pub route_name_out : Str
route_name_out = codes "X-GPUStack-Route-Name"

abbrev pub authorization : Str
authorization = codes "Authorization"

abbrev pub hop_by_hop : List Str
hop_by_hop =
    codes "connection"
    ∷ codes "keep-alive"
    ∷ codes "proxy-authenticate"
    ∷ codes "proxy-authorization"
    ∷ codes "te"
    ∷ codes "trailer"
    ∷ codes "transfer-encoding"
    ∷ codes "upgrade"
    ∷ codes "host"
    ∷ codes "content-length"
    ∷ []

-- The fields of the prepared request and of the candidate that the headers depend on.
pub record Prepared : Type 0 where
  pub base_headers : HeaderMap
  pub is_model_route : Bool
  pub ingress_name : Str
  pub upstream_path : Str
  pub query : Str

pub record Candidate : Type 0 where
  pub service_name : Str
  pub address : Str

-- `HeaderMap::names`.
abbrev pub header_names : List (Str × List Str) → List Str
header_names [] = []
header_names ((name, values) ∷ rest) = name ∷ header_names rest

abbrev pub insert_values : OutboundHeaders → Str → List Str → OutboundHeaders
insert_values o name [] = o
insert_values o name (v ∷ vs) = insert_values (insert_over o name v) name vs

abbrev pub write_back : OutboundHeaders → HeaderMap → List Str → OutboundHeaders
write_back o auth [] = o
write_back o auth (n ∷ ns) = write_back (insert_values o n (get_all auth n)) auth ns

-- `set_pre_route_headers::apply`.
unfoldable pub set_pre_route : OutboundHeaders → Str → Str → OutboundHeaders
set_pre_route o service_name route_name =
    insert_over (insert_over o model_instance_out service_name) route_name_out route_name

unfoldable pub strip_hops : OutboundHeaders → List Str → OutboundHeaders
strip_hops o [] = o
strip_hops o (h ∷ hs) = strip_hops (if contains_over o h then remove_over o h else o) hs

abbrev pub with_bearer : OutboundHeaders → Option Str → OutboundHeaders
with_bearer o none = o
with_bearer o (some token) = insert_over o authorization (codes "Bearer " ++ token)

unfoldable pub bearer_for : List ProviderToken → Candidate → Prepared → Option Str
bearer_for tokens c p =
    if starts_with (codes "provider-") c.service_name
    then provider_bearer tokens c.service_name p.ingress_name
    else none

unfoldable pub outbound_headers :
    Prepared → Candidate → HeaderMap → List ProviderToken → OutboundHeaders
outbound_headers p c auth tokens =
    let written = write_back (over p.base_headers) auth (header_names auth.map) in
    let routed =
      if p.is_model_route then set_pre_route written c.service_name p.ingress_name else written in
    with_bearer (strip_hops (apply outbound routed) hop_by_hop) (bearer_for tokens c p)

unfoldable pub outbound_path : Prepared → Str
outbound_path p =
    if is_empty p.query then p.upstream_path else p.upstream_path ++ codes "?" ++ p.query

abbrev trim_brackets : Str → Str
trim_brackets [] = []
trim_brackets (c ∷ s) = if c == 91 then trim_brackets s else c ∷ s

abbrev unbracketed : Str → Option (Str × Str) → Option (Str × Str) → Str
unbracketed address (some (inner, _)) colon = trim_brackets inner
unbracketed address none (some (host, _)) = host
unbracketed address none none = address

-- `]` is 93 and `:` is 58.
unfoldable pub host_from_address : Str → Str
host_from_address address = unbracketed address (split_once 93 address) (rsplit_once 58 address)
