-- ===== src/Tests/Routes.antt =====
-- The snapshot, the route table, the destinations and the weighted selection at concrete inputs.
use hygress.Common.{
  Str, codes, str_eq, ℕ, List, [], ◌∷◌, ◌++◌, Option, none, some, Bool, true, false, ◌≡◌, ◌≢◌, refl,
  arith, ◌<◌, ◌≤◌, All, find, is_whitespace,
}
use hygress.Common.Int.{ℤ, pos, negsuc, ◌<ℤ◌}
use hygress.Common.Results.{ok}
use hygress.Config.{ConfigData, ProviderToken, FallbackSpec, sanitize, sanitize_routes}
use hygress.Config.Accepted.{IsAccepted, sanitize-idempotent, sanitize_routes-IsAccepted}
use hygress.Destination.{
  Destination, ServiceRef, static, service_name_with_port, parse_service_with_port,
}
use hygress.Destination.RoundTrip.{IsServiceName, parse_service_with_port-service_name_with_port}
use hygress.Pipeline.Fallback.{FallbackPlan, plan, arm, match_fallback, match_fallback-arm}
use hygress.Route.{RouteRule, main, fallback, mirror, PathPred, rewrite, draft_rule, new_link}
use hygress.Route.Rewrite.{
  Piece, literal, dollar, group, print_template, fill, rewrite-print_template,
}
use hygress.RouteTable.{
  RouteTable, header_exact, fallback_exact, rebuild, find_match, empty_table, add_route,
  compile_predicates, add_routes,
}
use hygress.RouteTable.Scan.{scan, find_match-scan}
use hygress.Swrr.{SwrrCandidate, new_state, order, advance, subtract, total_weight}
use hygress.Swrr.Balance.{Balance}
use hygress.Swrr.Fairness.{rounds, rounds-Balance, rounds-IsFair}
use hygress.Swrr.Sums.{times, weight_ℕ}
use hygress.Swrr.Pick.{IsPick, order-IsPick}
use hygress.Tests.Engine.{literal_engine}
use hygress.Transform.{new_headers}

abbrev backend : Destination
backend = record { percent = some 100; service = codes "m.static:80" }

abbrev chat : PathPred
chat = record { regex = codes "/chat"; ignore_case = false }

abbrev main_route : RouteRule
main_route = record (draft_rule (codes "gpt") main (chat ∷ []) (backend ∷ [])) {
  fallback = some (new_link (codes "fb"));
}

abbrev fallback_route : RouteRule
fallback_route = draft_rule (codes "fb") fallback (chat ∷ []) (backend ∷ [])

abbrev mirror_route : RouteRule
mirror_route =
    draft_rule (codes "all") mirror (record { regex = codes "/"; ignore_case = false } ∷ [])
      (backend ∷ [])

abbrev snapshot : ConfigData ℕ
snapshot = record {
  routes = main_route ∷ fallback_route ∷ mirror_route ∷ main_route ∷ [];
  registries = [];
  proxies = [];
  rest = 0;
  provider_tokens =
      record { service = codes "p.proxy"; ingress_scope = none; api_tokens = [] } ∷ [];
}

sanitize-idempotent_example :
    sanitize (sanitize snapshot).accepted
    ≡ record { accepted = (sanitize snapshot).accepted; issues = [] }
sanitize-idempotent_example = sanitize-idempotent snapshot

sanitize_routes-IsAccepted_example : IsAccepted (sanitize_routes snapshot.routes).0
sanitize_routes-IsAccepted_example = sanitize_routes-IsAccepted snapshot.routes

abbrev tokens : List ProviderToken
tokens =
    record { service = codes "p.proxy"; ingress_scope = none; api_tokens = codes "global" ∷ [] }
    ∷ record {
      service = codes "p.proxy";
      ingress_scope = some (codes "ns/a");
      api_tokens = codes "scoped" ∷ [];
    }
    ∷ []

abbrev small : ConfigData ℕ
small = record snapshot {
  routes = main_route ∷ fallback_route ∷ mirror_route ∷ [];
  provider_tokens = [];
}

abbrev table : RouteTable literal_engine
table =
    let e = literal_engine in
    add_route e 2 mirror_route (codes "^(?:/)$" ∷ []) (
      add_route e 1 fallback_route (codes "^(?:/chat)$" ∷ [])
        (add_route e 0 main_route (codes "^(?:/chat)$" ∷ []) (empty_table e small.routes [])))

built : rebuild literal_engine small ≡ ok table
unfolding rebuild add_routes compile_predicates hygress.Registry.precompute_registries
built = refl

find_match-scan_example :
    find_match literal_engine table (some (codes "gpt")) (codes "/chat")
    ≡ scan literal_engine main header_exact (codes "gpt") (codes "/chat") small.routes
find_match-scan_example =
    find_match-scan literal_engine small table (codes "gpt") (codes "/chat") built

abbrev link : FallbackSpec
link = record {
  route_key = codes "gpt";
  main_ingress_name = codes "gpt";
  target_key = codes "fb";
  max_redirects = 10;
  use_original_body = true;
  use_original_uri = true;
}

abbrev third_hop : FallbackPlan
third_hop = record {
  target_key = codes "fb";
  restored_path = codes "/chat";
  max_redirects = 10;
  fallback_path_header = codes "/chat";
}

planned : plan link (codes "/chat") 2 ≡ some third_hop
unfolding plan
planned = refl

match_fallback-arm_example :
    (2 < 10)
    × (match_fallback literal_engine table (arm new_headers third_hop) (codes "/chat")
        ≡ scan literal_engine fallback fallback_exact (codes "fb") (codes "/chat") small.routes)
match_fallback-arm_example =
    match_fallback-arm literal_engine small table new_headers link third_hop (codes "/chat")
      (codes "/chat") 2 built planned

abbrev service : ServiceRef
service = record { name = codes "model-1"; kind = static; port = none }

service-IsServiceName : IsServiceName service.name
unfolding is_whitespace
service-IsServiceName = record { ne = λ e. cc; no_space = ground arith }

parse_service_with_port-service_name_with_port_example :
    parse_service_with_port (service_name_with_port service)
    ≡ ok (record service { port = some 80 })
parse_service_with_port-service_name_with_port_example =
    parse_service_with_port-service_name_with_port service service-IsServiceName (omega arith)

no_colon : All (λ d. d ≢ 58) service.name
no_colon = ground arith

abbrev template : List Piece
template = literal 47 ∷ group 0 ∷ dollar ∷ group 8 ∷ []

rewrite-print_template_example :
    rewrite (record { target = print_template template }) (codes "v1" ∷ [])
    ≡ fill (codes "v1" ∷ []) template
rewrite-print_template_example =
    rewrite-print_template (codes "v1" ∷ []) template
      ((λ e. ground arith), (omega arith, (tt, (omega arith, tt))))

abbrev light : SwrrCandidate
light = record { id = codes "a"; weight = pos 1 }

abbrev heavy : SwrrCandidate
heavy = record { id = codes "b"; weight = pos 2 }

positive : pos 0 <ℤ total_weight (light ∷ heavy ∷ [])
unfolding total_weight hygress.Common.Int.◌+ℤ◌ hygress.Swrr.sum_weights hygress.Common.Int.add_i32
    hygress.Common.Int.wrap_i32
positive = omega arith

-- With the weights 2147483647 and 1 the total wraps around, and no round is made; an accepted
-- snapshot has no such weights.
abbrev largest : SwrrCandidate
largest = record { id = codes "c"; weight = pos 2147483647 }

overflowing_order : order (largest ∷ light ∷ []) new_state ≡ (largest ∷ light ∷ [], new_state)
unfolding order total_weight hygress.Common.Int.◌+ℤ◌ hygress.Swrr.sum_weights
    hygress.Common.Int.add_i32 hygress.Common.Int.wrap_i32
overflowing_order = refl

order-IsPick_example :
    (picked : ℕ) × (best : SwrrCandidate) × (p : IsPick
      (advance (light ∷ heavy ∷ []) new_state)
      (light ∷ heavy ∷ [])
      picked
      best)
    × (order (light ∷ heavy ∷ []) new_state ≡ (
      best ∷ (p.before ++ p.after),
      subtract best.id (total_weight (light ∷ heavy ∷ [])) (advance (light ∷ heavy ∷ []) new_state),
    ))
order-IsPick_example = order-IsPick light (heavy ∷ []) new_state positive

ids_differ : (heavy.id ≢ light.id) × Unit {0}
ids_differ = (λ e. ground arith, tt)

rounds-IsFair_example :
    All (λ d. times d.id (rounds 3 (light ∷ heavy ∷ [])).1 ≡ weight_ℕ d) (light ∷ heavy ∷ [])
rounds-IsFair_example =
    rounds-IsFair light (heavy ∷ []) (refl, (refl, tt)) (ids_differ, (tt, tt)) (omega arith)
      (omega arith)

rounds-Balance_example :
    Balance
      (light ∷ heavy ∷ [])
      3
      2
      (rounds 2 (light ∷ heavy ∷ [])).1
      (rounds 2 (light ∷ heavy ∷ [])).0
rounds-Balance_example =
    rounds-Balance light (heavy ∷ []) (refl, (refl, tt)) (ids_differ, (tt, tt)) (omega arith)
      (omega arith) 2
