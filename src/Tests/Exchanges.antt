-- ===== src/Tests/Exchanges.antt =====
-- Requests, their headers and their candidates at concrete inputs.
use hygress.Common.{
  ◌≡◌, refl, ap, ◌∙◌, Str, codes, text_eq, to_ascii_lowercase, ℕ, ◌+◌, ◌≤◌, List, [], ◌∷◌, ◌++◌,
  Option, none, some, true, false, leb, ◌==◌, length, All, arith, ◌-◌, ◌*◌, ◌/◌, zero, suc, min,
}
use hygress.Common.Dict.{HasDistinctKeys}
use hygress.Common.Results.{Result, ok, err}
use hygress.Attribution.{parse_consumer}
use hygress.Attribution.Texts.{consumer_text, parse_consumer-consumer_text}
use hygress.Config.{FallbackSpec, ProviderToken}
use hygress.Destination.{Destination}
use hygress.Dispatch.{
  Reply, response, failure, streamed, try_from, Answer, Hop, Inbound, Stages, dispatch,
}
use hygress.Dispatch.Chain.{IsBounded, dispatch-ends}
use hygress.Dispatch.Failover.{try_from-attempts, try_from-streamed}
use hygress.External.{Bytes}
use hygress.FormData.{scan_parts, first_form_value_span}
use hygress.FormData.Span.{IsWithin, first_form_value_span-IsWithin}
use hygress.Pipeline.Outbound.{
  header_names, Prepared, Candidate, outbound_headers, hop_by_hop, model_instance_out,
  route_name_out, authorization, bearer_for,
}
use hygress.Pipeline.Outbound.Sent.{
  write_all_back, bearer_or, outbound_headers-strips, outbound_headers-carries,
}
use hygress.Pipeline.RegistryResolve.{
  resolve_index, resolve_destination, resolve_index-resolve_destination,
}
use hygress.Policy.{LimitsSpec}
use hygress.RateLimit.{Float, new_limiter, from_spec}
use hygress.RateLimit.Keys.{
  Check, by_ip, by_consumer, ip_answers, ip_times, expected, ip_answers-own_bucket,
}
use hygress.RateLimit.Shared.{rate_limit_pre, rate_limit_post, rate_limit_pre-rate_limit_post}
use hygress.Registry.{precompute_registries}
use hygress.Retry.{default_retry, should_retry}
use hygress.Tests.Usages.{scanner, scanner-IsFirst}
use hygress.Tls.{Crypto, TlsConfig, resolve, store_config}
use hygress.Tls.Served.{is_named, last_cert, covering_cert, or_cert, resolve-store_config}
use hygress.Transform.{HeaderMap, new_headers, get_all, get_header, contains_header}
use hygress.Transform.Outbound.{
  over, overlay_ops, materialize, get_all_over, get_over, contains_over, into_pairs,
}
use hygress.Transform.Outbound.Pairs.{values_of, into_pairs-write_all}
use hygress.Transform.Outbound.Writes.{
  Write, insertion, addition, removal, rules, write_all, materialize-write_all,
}
use hygress.Transform.RuleLaws.{only, apply_inbound-strips}
use hygress.Transform.Rules.{
  header_map_ops, apply_inbound, outbound, kept_value, retain_first, retain_last,
}

-- A client that sends internal headers and two paths.
abbrev forged : HeaderMap
forged = record {
  map =
      (codes ":path", codes "/v1" ∷ [])
      ∷ (codes "x-gpustack-original-path", codes "/evil" ∷ [])
      ∷ (codes "x-gpustack-model", codes "m" ∷ codes "n" ∷ [])
      ∷ [];
}

apply_inbound-strips_example :
    let h' = apply_inbound forged in
    let path = only (
      kept_value retain_last
        (get_all forged (codes ":path") ++ get_all forged (codes "x-gpustack-fallback-path"))) in
    (get_all h' (codes "x-gpustack-auth-token") ≡ [])
    × (get_all h' (codes "x-gpustack-model-instance") ≡ [])
    × (get_all h' (codes "x-gpustack-fallback-path") ≡ [])
    × (get_all h' (codes "x-gpustack-model") ≡ [])
    × (get_all h' (codes ":path") ≡ path)
    × (get_all h' (codes "x-gpustack-original-path") ≡ path)
    × (get_all h' (codes "x-higress-llm-model")
        ≡ only (
            kept_value retain_first (
              get_all forged (codes "x-higress-llm-model")
              ++ get_all forged (codes "x-gpustack-model"))))
apply_inbound-strips_example = apply_inbound-strips forged

abbrev writes : List Write
writes =
    addition (codes "X-GPUStack-Model") (codes "o")
    ∷ removal (codes ":path")
    ∷ insertion (codes "a") (codes "1")
    ∷ rules outbound
    ∷ []

materialize-write_all_example :
    let o = write_all writes (over forged) in
    let h = write_all writes forged in
    (get_all (materialize o) (codes "x-gpustack-model") ≡ get_all h (codes "x-gpustack-model"))
    × (get_all_over o (codes "x-gpustack-model") ≡ get_all h (codes "x-gpustack-model"))
    × (get_over o (codes "x-gpustack-model") ≡ get_header h (codes "x-gpustack-model"))
    × (contains_over o (codes "x-gpustack-model") ≡ contains_header h (codes "x-gpustack-model"))
materialize-write_all_example = materialize-write_all writes forged (codes "x-gpustack-model")

forged-HasDistinctKeys : HasDistinctKeys forged.map
forged-HasDistinctKeys = ((λ e. cc, (λ e. cc, tt)), ((λ e. cc, tt), (tt, tt)))

into_pairs-write_all_example :
    values_of (codes "x-gpustack-model") (into_pairs (write_all writes (over forged)))
    ≡ get_all (write_all writes forged) (codes "x-gpustack-model")
unfolding to_ascii_lowercase
into_pairs-write_all_example =
    into_pairs-write_all writes forged (codes "x-gpustack-model") forged-HasDistinctKeys refl

abbrev prepared : Prepared
prepared = record {
  base_headers = forged;
  is_model_route = true;
  ingress_name = codes "ns/ai-route-route-1.internal";
  upstream_path = codes "/v1";
  query = [];
}

abbrev provider : Candidate
provider = record { service_name = codes "provider-1.dns"; address = codes "api.example:443" }

abbrev token : ProviderToken
token = record {
  service = codes "provider-1.dns";
  api_tokens = codes "secret" ∷ [];
  ingress_scope = none;
}

outbound_headers-strips_example :
    All
      (λ name. get_all_over (outbound_headers prepared provider new_headers (token ∷ [])) name ≡ [])
      hop_by_hop
outbound_headers-strips_example = outbound_headers-strips prepared provider new_headers (token ∷ [])

outbound_headers-carries_example :
    let o = outbound_headers prepared provider new_headers (token ∷ []) in
    (get_all_over o model_instance_out ≡ codes "provider-1.dns" ∷ [])
    × (get_all_over o route_name_out ≡ codes "ns/ai-route-route-1.internal" ∷ [])
    × (get_all_over o authorization
        ≡ bearer_or (bearer_for (token ∷ []) provider prepared) (
            get_all
              (write_all_back prepared.base_headers new_headers (header_names new_headers.map))
              authorization))
outbound_headers-carries_example =
    outbound_headers-carries prepared provider new_headers (token ∷ []) refl

abbrev service_of_instance : Destination
service_of_instance = record { percent = none; service = codes "model-1-2.static:80" }

resolve_index-resolve_destination_example :
    resolve_index (precompute_registries [] []) service_of_instance
    ≡ resolve_destination [] [] service_of_instance
resolve_index-resolve_destination_example =
    resolve_index-resolve_destination [] [] service_of_instance

parse_consumer-consumer_text_example :
    parse_consumer (consumer_text (codes "k.gpustack-1") 42)
    ≡ (some 42, some (codes "k.gpustack-1"))
parse_consumer-consumer_text_example =
    parse_consumer-consumer_text (codes "k.gpustack-1") 42 (omega arith)

abbrev form : Bytes
form = codes "--B\r\nname=\"model\"\r\n\r\nm\r\n--B--"

first_form_value_span-IsWithin_example :
    (scan_parts scanner (suc (length form)) form (codes "--" ++ codes "B") (codes "model") 0
      ≡ some (first_form_value_span scanner form (codes "B") (codes "model")))
    × IsWithin scanner scanner-IsFirst form
        (first_form_value_span scanner form (codes "B") (codes "model"))
first_form_value_span-IsWithin_example =
    first_form_value_span-IsWithin scanner scanner-IsFirst form (codes "B") (codes "model")

-- Whole numbers for the floating-point ones.
abbrev whole : Float
whole = record {
  F = ℕ;
  of_u64 = λ n. n;
  add = λ a b. a + b;
  sub = λ a b. a - b;
  mul = λ a b. a * b;
  div = λ a b. a / b;
  minimum = λ a b. min a b;
  at_least = λ a b. leb b a;
  equal = λ a b. a == b;
}

abbrev limits : LimitsSpec ℕ
limits = record { ip = some (record { rps = 1000; burst = 1 }); consumer = none }

abbrev checks : List Check
checks =
    by_ip (codes "a") 0 ∷ by_ip (codes "b") 0 ∷ by_consumer (codes "a") 0 ∷ by_ip (codes "a") 0 ∷ []

ip_answers-own_bucket_example :
    ip_answers whole (new_limiter whole limits) checks (codes "a")
    ≡ expected whole
        (from_spec whole limits).ip
        none
        (codes "a")
        (ip_times whole checks (codes "a"))
ip_answers-own_bucket_example = ip_answers-own_bucket whole limits checks (codes "a")

-- Every text is a certificate and a key, and the pair is the certified key.
abbrev trusting : Crypto
trusting = record {
  CertificateDer = Str;
  PrivateKeyDer = Str;
  CertifiedKey = Str;
  pem_certs = λ s. ok s ∷ [];
  pem_private_key = λ s. ok (some s);
  from_der = λ cs k. ok k;
}

abbrev tls : TlsConfig
tls = record {
  hosts =
      record { host = codes "*.B.c"; is_default = false; cert_pem = codes "x"; key_pem = codes "k" }
      ∷ [];
}

resolve-store_config_example :
    resolve (store_config trusting tls).0 (some (codes "A.b.C"))
    ≡ or_cert
        (last_cert trusting (is_named trusting (to_ascii_lowercase (codes "A.b.C"))) tls.hosts)
        (or_cert
          (covering_cert trusting (to_ascii_lowercase (codes "A.b.C")) tls.hosts)
          (last_cert trusting (λ h. h.is_default) tls.hosts))
resolve-store_config_example = resolve-store_config trusting tls (codes "A.b.C")

-- The first of two candidates is unavailable.
abbrev flaky : ℕ → Str → Reply Str
flaky zero c = response 503 (codes "busy")
flaky (suc i) c = response 200 (codes "ok")

try_from-attempts_example :
    (1 ≤ (try_from flaky default_retry true 0 (codes "a" ∷ codes "b" ∷ [])).1)
    × ((try_from flaky default_retry true 0 (codes "a" ∷ codes "b" ∷ [])).1 ≤ 2)
    × ((try_from flaky default_retry true 0 (codes "a" ∷ codes "b" ∷ [])).1 ≤ 3)
try_from-attempts_example = try_from-attempts flaky default_retry true (codes "a") (codes "b" ∷ [])

try_from-streamed_example :
    try_from flaky default_retry true 0 ((codes "a" ∷ []) ++ codes "b" ∷ []) ≡ (streamed 200, 2)
unfolding should_retry
try_from-streamed_example =
    try_from-streamed flaky default_retry true (codes "a" ∷ []) (codes "b") [] 200 (codes "ok")
      (refl, tt) (omega arith) refl refl

-- Every hop has one candidate, which fails, and a fallback.
abbrev endless : Stages Str Str
endless = record {
  prepare = λ redirects current. ok (record {
    candidates = codes "a" ∷ [];
    retry = default_retry;
    override_retries = none;
    fallback = some (record {
      route_key = [];
      main_ingress_name = [];
      target_key = codes "f";
      max_redirects = 2;
      use_original_body = true;
      use_original_uri = true;
    });
    base_headers = new_headers;
  });
  check = λ redirects hop. none;
  send = λ redirects i c. failure true;
}

abbrev fallback_of : Result ℕ (Hop Str) → Option FallbackSpec
fallback_of (err status) = none
fallback_of (ok hop) = hop.fallback

abbrev redirects_of : Option FallbackSpec → ℕ
redirects_of none = 0
redirects_of (some spec) = spec.max_redirects

endless-IsBounded : IsBounded endless 2
endless-IsBounded redirects current hop spec e f =
    omega (arith, ap redirects_of (ap fallback_of e ∙ f))

abbrev post : Inbound
post = record { headers = new_headers; path = codes "/v1"; non_idempotent = true }

dispatch-ends_example :
    (answer : Answer Str) × (hops : ℕ) × (dispatch endless 3 0 post ≡ some (answer, hops))
    × (1 ≤ hops)
    × (hops ≤ 3)
dispatch-ends_example = dispatch-ends endless 2 endless-IsBounded post

rate_limit_pre-rate_limit_post_example :
    (rate_limit_post whole limits.ip
      (rate_limit_pre whole limits.ip [] (codes "a") 5).0
      (codes "a")
      5).1
    ≡ (rate_limit_post whole limits.ip [] (codes "a") 5).1
rate_limit_pre-rate_limit_post_example =
    rate_limit_pre-rate_limit_post whole limits.ip limits.ip [] (codes "a") (codes "a") 5 5
