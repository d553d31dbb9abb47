-- ===== src/Tests/Policies.antt =====
-- The policies, the guardrails and the retries at concrete inputs.
use hygress.Common.{
  text_eq, Str, codes, ℕ, List, [], ◌∷◌, ◌++◌, none, some, true, false, ◌≡◌, ◌↔◌, ◌⊎◌, refl, arith,
  ◌≤◌, concat, All, split,
}
use hygress.Common.Results.{ok}
use hygress.Policy.{
  PolicyConfig, RoutePolicySpec, RoutePolicyActions, GuardrailSpec, StaticRuleSpec, block, closed,
  open_, default_policy,
}
use hygress.Policy.Glob.{glob_loop, glob_fuel, glob_match, pin_matches}
use hygress.Policy.Matches.{glob_match-Matches}
use hygress.Policy.Pattern.{Matches}
use hygress.Policy.Select.{for_ingress, IsLastMatch, for_ingress-IsLastMatch}
use hygress.Policy.Merge.{
  or_else, merge_policy, merge_guardrail, compile_entry, build_table, table_for_ingress,
}
use hygress.Policy.MergeLaws.{table-merge_policy, merge_guardrail-evaluate}
use hygress.Guardrail.{StaticRuleSet, compile_rules, evaluate, new_scanner, feed}
use hygress.Guardrail.Response.{IsClean, written, from_compiled, written-IsClean}
use hygress.Guardrail.Scanner.{feed_all, last, feed_all-decision, feed-long_chunk}
use hygress.Retry.{
  timeout, http_5xx, status, non_idempotent, should_retry, parse_conditions, parse_retry,
  default_retry,
}
use hygress.Retry.Decision.{Triggered, Listed, should_retry_iff}
use hygress.Retry.Annotation.{IsStatusOk, words, known, missed, parse_retry_accounts}
use hygress.Retry.RoundTrip.{print_conds, parse_conditions-print_conds}
use hygress.Pipeline.RoutingPolicy.{CandidateTarget, PreparedRequest, apply_policy}
use hygress.Pipeline.RoutingPolicy.Narrowing.{HasOnly, apply_policy-HasOnly}
use hygress.Pipeline.ModelRouter.{ModelRouterConfig}
use hygress.Destination.{static}
use hygress.Registry.{Registry}
use hygress.Transform.{new_headers}
use hygress.Tests.Engine.{literal_engine}

glob_match-Matches_example :
    (glob_loop (glob_fuel (codes "a*c") (codes "abbc")) (codes "a*c") (codes "abbc") none
      ≡ some (glob_match (codes "a*c") (codes "abbc")))
    × ((glob_match (codes "a*c") (codes "abbc") ≡ true) ↔ Matches (codes "a*c") (codes "abbc"))
glob_match-Matches_example = glob_match-Matches (codes "a*c") (codes "abbc")

abbrev pin : RoutePolicyActions
pin = record {
  override_route = none;
  pin_provider_svc_pattern = some (codes "provider-8.*");
  header_add = [];
  header_del = [];
  timeout_ms = none;
  retries = none;
}

abbrev route : Str → RoutePolicySpec ℕ
route glob = record {
  name_glob = glob;
  limits = none;
  quota = none;
  policy = some pin;
  guardrail = none;
}

abbrev two_routes : PolicyConfig ℕ
two_routes = record (default_policy ℕ) { routes = route (codes "a*") ∷ route (codes "*") ∷ [] }

for_ingress-IsLastMatch_example :
    ((for_ingress two_routes (codes "ab") ≡ none)
      × All (λ q. ¬ Matches q.name_glob (codes "ab")) two_routes.routes)
    ⊎ ((r : RoutePolicySpec ℕ) × (for_ingress two_routes (codes "ab") ≡ some r)
        × IsLastMatch (codes "ab") r two_routes.routes)
for_ingress-IsLastMatch_example = for_ingress-IsLastMatch two_routes (codes "ab")

table-merge_policy_example :
    table_for_ingress literal_engine (build_table literal_engine two_routes) two_routes (codes "ab")
    ≡ compile_entry literal_engine (merge_policy two_routes (codes "ab"))
table-merge_policy_example = table-merge_policy literal_engine two_routes (codes "ab")

abbrev secret : StaticRuleSpec
secret = record { name = codes "s"; regex = codes "secret"; action = block }

abbrev global_guard : GuardrailSpec
global_guard = record { fail_mode = closed; static_rules = secret ∷ []; llm = none }

abbrev route_guard : GuardrailSpec
route_guard = record {
  fail_mode = open_;
  static_rules = record { name = codes "t"; regex = codes "token"; action = block } ∷ [];
  llm = none;
}

abbrev both_guards : GuardrailSpec
both_guards = record {
  fail_mode = open_;
  static_rules = global_guard.static_rules ++ route_guard.static_rules;
  llm = none;
}

abbrev both_sets : StaticRuleSet literal_engine
both_sets = record {
  rules = (codes "s", codes "secret", block) ∷ (codes "t", codes "token", block) ∷ [];
}

merged : merge_guardrail (some global_guard) (some route_guard) ≡ some both_guards
unfolding merge_guardrail
merged = refl

compiled : compile_rules literal_engine both_guards.static_rules ≡ ok both_sets
unfolding compile_rules
compiled = refl

merge_guardrail-evaluate_example :
    (sg : StaticRuleSet literal_engine) × (sr : StaticRuleSet literal_engine) × (compile_rules
        literal_engine global_guard.static_rules
      ≡ ok sg)
    × (compile_rules literal_engine route_guard.static_rules ≡ ok sr)
    × ((text : Str)
        → evaluate literal_engine both_sets text
          ≡ or_else (evaluate literal_engine sg text) (evaluate literal_engine sr text))
merge_guardrail-evaluate_example =
    merge_guardrail-evaluate literal_engine global_guard route_guard both_guards both_sets merged
      compiled

-- Each byte is decoded as the character with its number.
abbrev decode : List ℕ → Str
decode bytes = bytes

feed_all-decision_example :
    (feed literal_engine decode
      (feed_all literal_engine decode
        (new_scanner literal_engine both_sets 8)
        (codes "a se" ∷ codes "cr" ∷ []))
      (codes "et")).1
    ≡ evaluate literal_engine both_sets
        (decode (last 8 (concat (codes "a se" ∷ codes "cr" ∷ []) ++ codes "et")))
feed_all-decision_example =
    feed_all-decision literal_engine decode both_sets 8 (codes "a se" ∷ codes "cr" ∷ [])
      (codes "et")

written-IsClean_example : IsClean literal_engine decode both_sets [] (
    written literal_engine decode
      (from_compiled literal_engine (some both_sets))
      (codes "a se" ∷ codes "cret" ∷ []))
written-IsClean_example =
    written-IsClean literal_engine decode both_sets (codes "a se" ∷ codes "cret" ∷ [])

feed-long_chunk_example :
    (feed literal_engine decode
      (new_scanner literal_engine both_sets 4)
      (codes "secret" ++ codes "abcd")).1
    ≡ evaluate literal_engine both_sets (codes "abcd")
unfolding new_scanner
feed-long_chunk_example =
    feed-long_chunk literal_engine decode (new_scanner literal_engine both_sets 4) (codes "secret")
      (codes "abcd") refl

should_retry_iff_example : (should_retry default_retry (some 503) false false true ≡ true) ↔ (
    Triggered (some 503) false false default_retry.conditions
    × (true ≡ true → Listed non_idempotent default_retry.conditions))
should_retry_iff_example = should_retry_iff default_retry (some 503) false false true

parse_retry_accounts_example :
    let r = parse_retry (some (codes "error,,what,200,503")) (some (codes "99")) in
    (r.policy.tries ≤ 32)
    × All IsStatusOk r.policy.conditions
    × (r.policy.conditions ≡ known (words (split 44 (codes "error,,what,200,503"))))
    × (r.unknown ≡ missed (words (split 44 (codes "error,,what,200,503"))))
parse_retry_accounts_example =
    parse_retry_accounts (codes "error,,what,200,503") (some (codes "99"))

parse_conditions-print_conds_example :
    parse_conditions (some (print_conds http_5xx (status 429 ∷ timeout ∷ [])))
    ≡ (http_5xx ∷ status 429 ∷ timeout ∷ [], [])
parse_conditions-print_conds_example =
    parse_conditions-print_conds http_5xx (status 429 ∷ timeout ∷ []) tt
      ((omega arith, omega arith), (tt, tt))

abbrev candidate : Str → CandidateTarget ℕ
candidate name = record { service = name ++ codes ":80"; service_name = name; rest = 0 }

abbrev prepared : PreparedRequest ℕ ℕ
prepared = record {
  candidates = candidate (codes "provider-7.dns") ∷ candidate (codes "provider-8.dns") ∷ [];
  base_headers = new_headers;
  selected_service = codes "provider-7.dns";
  override_timeout_ms = none;
  override_retries = none;
  other = 0;
}

apply_policy-HasOnly_example : HasOnly (λ c. c.rest ≡ 0) (apply_policy prepared pin).0.candidates
apply_policy-HasOnly_example =
    apply_policy-HasOnly (λ c. c.rest ≡ 0) prepared pin (refl, (refl, (refl, tt)))

pinned : (apply_policy prepared pin).1.pin_applied ≡ true
unfolding apply_policy glob_match pin_matches
pinned = refl

abbrev router : ModelRouterConfig
router = record {
  prefix = codes "/model/proxy/";
  target_header = codes "x-higress-llm-model";
  model_key = codes "model";
  enable_on_path_suffix = codes "/completions" ∷ [];
  alias_name_mapping = (codes "7", codes "gpt") ∷ [];
  max_body_bytes = 100;
}

abbrev plain : Registry
plain = record {
  id = codes "m.static";
  kind = static;
  domain = codes "10.0.0.1:80";
  port = none;
  proxy_ref = none;
}
