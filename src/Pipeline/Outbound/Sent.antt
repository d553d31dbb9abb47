-- ===== src/Pipeline/Outbound/Sent.antt =====
-- The headers that a candidate is sent.
use hygress.Common.{
  ◌≡◌, refl, sym, ap, ◌∙◌, Str, codes, str_eq, to_ascii_lowercase, List, [], ◌∷◌, ◌++◌, Option,
  none, some, Bool, true, false, if◌then◌else◌, any, All, arith, Bool-cases, inl, inr,
}
use hygress.Config.{ProviderToken}
use hygress.Transform.{HeaderMap, get_all, contains_header, insert_header, remove_header}
use hygress.Transform.Rules.{header_map_ops, apply, outbound, kept_value, retain_first}
use hygress.Transform.RuleLaws.{
  same_name, get_all-insert_header, get_all-remove_header, get_all-apply, values_after, only,
}
use hygress.Transform.Outbound.{
  OutboundHeaders, over, insert_over, remove_over, contains_over, get_all_over, overlay_ops,
}
use hygress.Transform.Outbound.Refinement.{
  Tracks, over-Tracks, insert_over-Tracks, remove_over-Tracks,
}
use hygress.Transform.Outbound.Writes.{Tracks-reads, apply-Tracks}
use hygress.Pipeline.Outbound.{
  Prepared, Candidate, hop_by_hop, model_instance_out, route_name_out, authorization, insert_values,
  write_back, set_pre_route, strip_hops, with_bearer, bearer_for, outbound_headers, header_names,
}

-- The same on a copy of the base.
abbrev insert_all : HeaderMap → Str → List Str → HeaderMap
insert_all h name [] = h
insert_all h name (v ∷ vs) = insert_all (insert_header h name v) name vs

abbrev pub write_all_back : HeaderMap → HeaderMap → List Str → HeaderMap
write_all_back h auth [] = h
write_all_back h auth (n ∷ ns) = write_all_back (insert_all h n (get_all auth n)) auth ns

abbrev remove_all : HeaderMap → List Str → HeaderMap
remove_all h [] = h
remove_all h (n ∷ ns) = remove_all (remove_header h n) ns

insert_values-Tracks :
    (vs : List Str) (o : OutboundHeaders) (h : HeaderMap) (name : Str)
    → Tracks o h
    → Tracks (insert_values o name vs) (insert_all h name vs)
insert_values-Tracks [] o h name t = t
insert_values-Tracks (v ∷ vs) o h name t =
    insert_values-Tracks vs (insert_over o name v) (insert_header h name v) name
      (insert_over-Tracks o h name v t)

write_back-Tracks :
    (ns : List Str) (o : OutboundHeaders) (h auth : HeaderMap)
    → Tracks o h
    → Tracks (write_back o auth ns) (write_all_back h auth ns)
write_back-Tracks [] o h auth t = t
write_back-Tracks (n ∷ ns) o h auth t =
    write_back-Tracks ns (insert_values o n (get_all auth n)) (insert_all h n (get_all auth n)) auth
      (insert_values-Tracks (get_all auth n) o h n t)

remove_header-absent :
    (h : HeaderMap) (n : Str) → contains_header h n ≡ false → remove_header h n ≡ h
unfolding contains_header remove_header
remove_header-absent h n e = rw e refl

strip_hops-Tracks :
    (ns : List Str) (o : OutboundHeaders) (h : HeaderMap)
    → Tracks o h
    → Tracks (strip_hops o ns) (remove_all h ns)
unfolding strip_hops
strip_hops-Tracks [] o h t = t
strip_hops-Tracks (n ∷ ns) o h t = elim (Bool-cases (contains_over o n)) [
  | inl e ↦
      rw e (strip_hops-Tracks ns (remove_over o n) (remove_header h n) (remove_over-Tracks o h n t))
  | inr e ↦
      let absent : contains_header h n ≡ false = sym (Tracks-reads o h n t).2 ∙ e in
      rw e (rw (remove_header-absent h n absent) (strip_hops-Tracks ns o h t))
]

abbrev routed_map : Prepared → Candidate → HeaderMap → HeaderMap
routed_map p c h =
    if p.is_model_route
    then insert_header (insert_header h model_instance_out c.service_name) route_name_out
        p.ingress_name
    else h

abbrev with_bearer_map : HeaderMap → Option Str → HeaderMap
with_bearer_map h none = h
with_bearer_map h (some token) = insert_header h authorization (codes "Bearer " ++ token)

abbrev outbound_map : Prepared → Candidate → HeaderMap → List ProviderToken → HeaderMap
outbound_map p c auth tokens =
    let written = write_all_back p.base_headers auth (header_names auth.map) in
    with_bearer_map (remove_all (apply outbound (routed_map p c written)) hop_by_hop)
      (bearer_for tokens c p)

routed-Tracks :
    (b : Bool) (o : OutboundHeaders) (h : HeaderMap) (service ingress : Str)
    → Tracks o h
    → Tracks (if b then set_pre_route o service ingress else o) (
        if b
        then insert_header (insert_header h model_instance_out service) route_name_out ingress
        else h)
unfolding set_pre_route
routed-Tracks true o h service ingress t =
    insert_over-Tracks (insert_over o model_instance_out service)
      (insert_header h model_instance_out service) route_name_out ingress
      (insert_over-Tracks o h model_instance_out service t)
routed-Tracks false o h service ingress t = t

with_bearer-Tracks :
    (o : OutboundHeaders) (h : HeaderMap) (token : Option Str)
    → Tracks o h
    → Tracks (with_bearer o token) (with_bearer_map h token)
with_bearer-Tracks o h none t = t
with_bearer-Tracks o h (some token) t =
    insert_over-Tracks o h authorization (codes "Bearer " ++ token) t

pub outbound_headers-Tracks :
    (p : Prepared) (c : Candidate) (auth : HeaderMap) (tokens : List ProviderToken)
    → Tracks (outbound_headers p c auth tokens) (outbound_map p c auth tokens)
unfolding outbound_headers
outbound_headers-Tracks p c auth tokens =
    let names = header_names auth.map in
    let base = p.base_headers in
    let written = write_back-Tracks names (over base) base auth (over-Tracks base) in
    let routed =
      routed-Tracks p.is_model_route (write_back (over base) auth names)
        (write_all_back base auth names) c.service_name p.ingress_name written in
    with_bearer-Tracks _ _ (bearer_for tokens c p)
      (strip_hops-Tracks hop_by_hop _ _ (apply-Tracks outbound _ _ routed))

get_all-remove_all :
    (ns : List Str) (h : HeaderMap) (o : Str)
    → get_all (remove_all h ns) o ≡ (if any (λ n. same_name n o) ns then [] else get_all h o)
get_all-remove_all [] h o = refl
get_all-remove_all (n ∷ ns) h o =
    ground (arith, get_all-remove_all ns (remove_header h n) o, get_all-remove_header h n o)

get_all-with_bearer_map :
    (h : HeaderMap) (token : Option Str) (o : Str)
    → same_name authorization o ≡ false
    → get_all (with_bearer_map h token) o ≡ get_all h o
get_all-with_bearer_map h none o other = refl
get_all-with_bearer_map h (some token) o other =
    get_all-insert_header h authorization o (codes "Bearer " ++ token) ∙ rw other refl

-- What stands after the removal, for a name that is not `Authorization`.
sent-stripped :
    (p : Prepared) (c : Candidate) (auth : HeaderMap) (tokens : List ProviderToken) (o : Str)
    → same_name authorization o ≡ false
    → let written = write_all_back p.base_headers auth (header_names auth.map) in
      get_all_over (outbound_headers p c auth tokens) o ≡ (
        if any (λ n. same_name n o) hop_by_hop
        then []
        else values_after outbound (get_all (routed_map p c written)) o)
sent-stripped p c auth tokens o other =
    let written = write_all_back p.base_headers auth (header_names auth.map) in
    let routed = routed_map p c written in
    (Tracks-reads (outbound_headers p c auth tokens) (outbound_map p c auth tokens) o
      (outbound_headers-Tracks p c auth tokens)).0
    ∙ get_all-with_bearer_map (remove_all (apply outbound routed) hop_by_hop)
        (bearer_for tokens c p) o other
    ∙ get_all-remove_all hop_by_hop (apply outbound routed) o
    ∙ ap (λ vs. if any (λ n. same_name n o) hop_by_hop then [] else vs)
        (get_all-apply outbound routed o)

-- Whatever the client, the route and the auth service put there, no hop-by-hop header is sent to
-- the upstream.
pub outbound_headers-strips :
    (p : Prepared) (c : Candidate) (auth : HeaderMap) (tokens : List ProviderToken)
    → All (λ name. get_all_over (outbound_headers p c auth tokens) name ≡ []) hop_by_hop
unfolding str_eq to_ascii_lowercase
outbound_headers-strips p c auth tokens =
    let at : (o : Str) → same_name authorization o ≡ false → _ = sent-stripped p c auth tokens in
    (
      at (codes "connection") refl,
      (
        at (codes "keep-alive") refl,
        (
          at (codes "proxy-authenticate") refl,
          (
            at (codes "proxy-authorization") refl,
            (
              at (codes "te") refl,
              (
                at (codes "trailer") refl,
                (
                  at (codes "transfer-encoding") refl,
                  (
                    at (codes "upgrade") refl,
                    (at (codes "host") refl, (at (codes "content-length") refl, tt)),
                  ),
                ),
              ),
            ),
          ),
        ),
      ),
    )

routed_map-names :
    (p : Prepared) (c : Candidate) (h : HeaderMap)
    → p.is_model_route ≡ true
    → (get_all (routed_map p c h) (codes "x-gpustack-model-instance") ≡ c.service_name ∷ [])
      × (get_all (routed_map p c h) (codes "x-gpustack-route-name") ≡ p.ingress_name ∷ [])
unfolding str_eq to_ascii_lowercase
routed_map-names p c h on =
    let first = insert_header h model_instance_out c.service_name in
    rw on (
      get_all-insert_header first route_name_out (codes "x-gpustack-model-instance") p.ingress_name
          ∙ get_all-insert_header h model_instance_out (codes "x-gpustack-model-instance")
              c.service_name,
      get_all-insert_header first route_name_out (codes "x-gpustack-route-name") p.ingress_name,
    )

routed_map-authorization :
    (p : Prepared) (c : Candidate) (h : HeaderMap)
    → get_all (routed_map p c h) authorization ≡ get_all h authorization
unfolding str_eq to_ascii_lowercase
routed_map-authorization p c h =
    let first = insert_header h model_instance_out c.service_name in
    elim (Bool-cases p.is_model_route) [
      | inl on ↦ rw on (
          get_all-insert_header first route_name_out authorization p.ingress_name
          ∙ get_all-insert_header h model_instance_out authorization c.service_name)
      | inr off ↦ rw off refl
    ]

-- The chosen token as the only authorization, or what is there without one.
abbrev pub bearer_or : Option Str → List Str → List Str
bearer_or none vs = vs
bearer_or (some token) vs = (codes "Bearer " ++ token) ∷ []

authorization-with_bearer_map :
    (h : HeaderMap) (b : Option Str)
    → get_all (with_bearer_map h b) authorization ≡ bearer_or b (get_all h authorization)
unfolding str_eq to_ascii_lowercase
authorization-with_bearer_map h none = refl
authorization-with_bearer_map h (some token) =
    get_all-insert_header h authorization authorization (codes "Bearer " ++ token)

-- On a model route the upstream gets the service of the candidate as the instance and the ingress
-- as the route name, once each whatever came in. The authorization is exactly the token where one is
-- chosen for a provider, and otherwise the values that stand after the auth service's headers were
-- written over the prepared ones.
pub outbound_headers-carries :
    (p : Prepared) (c : Candidate) (auth : HeaderMap) (tokens : List ProviderToken)
    → p.is_model_route ≡ true
    → let o = outbound_headers p c auth tokens in
      (get_all_over o model_instance_out ≡ c.service_name ∷ [])
      × (get_all_over o route_name_out ≡ p.ingress_name ∷ [])
      × (get_all_over o authorization
          ≡ bearer_or
              (bearer_for tokens c p)
              (get_all (write_all_back p.base_headers auth (header_names auth.map)) authorization))
unfolding str_eq to_ascii_lowercase
outbound_headers-carries p c auth tokens on =
    let written = write_all_back p.base_headers auth (header_names auth.map) in
    let names = routed_map-names p c written on in
    let routed = routed_map p c written in
    let stripped = remove_all (apply outbound routed) hop_by_hop in
    (
      sent-stripped p c auth tokens model_instance_out refl
          ∙ ap (λ vs. only (kept_value retain_first vs)) names.0,
      sent-stripped p c auth tokens route_name_out refl
          ∙ ap (λ vs. only (kept_value retain_first vs)) names.1,
      (Tracks-reads (outbound_headers p c auth tokens) (outbound_map p c auth tokens) authorization
            (outbound_headers-Tracks p c auth tokens)).0
          ∙ authorization-with_bearer_map stripped (bearer_for tokens c p)
          ∙ ap (bearer_or (bearer_for tokens c p)) (
              get_all-remove_all hop_by_hop (apply outbound routed) authorization
              ∙ get_all-apply outbound routed authorization
              ∙ routed_map-authorization p c written),
    )
