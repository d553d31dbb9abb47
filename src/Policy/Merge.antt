-- ===== src/Policy/Merge.antt =====
-- The merge of crates/hygress-gateway/src/policy_loader.rs: a matched route over the global
-- section, and the table of merges that is computed once for a configuration.
use hygress.Common.{
  Str, List, [], ◌∷◌, ◌++◌, Option, none, some, is_empty, if◌then◌else◌, unwrap_or, split, text_eq,
}
use hygress.Common.Dict.{lookup, insert}
use hygress.Common.Results.{ok, err}
use hygress.Policy.{
  LimitsSpec, QuotaSpec, GuardrailSpec, RoutePolicyActions, RoutePolicySpec, GlobalPolicy,
  PolicyConfig,
}
use hygress.Policy.Select.{for_ingress}
use hygress.Guardrail.{StaticRuleSet, compile_rules}
use hygress.Regex.{RegexEngine}

-- `Option::or_else`, and `Option::and_then`.
abbrev pub or_else {ℓ} : {A : Type ℓ} → Option A → Option A → Option A
or_else none b = b
or_else (some a) b = some a

abbrev pub and_then {ℓ κ} : {A : Type ℓ} {B : Type κ} → Option A → (A → Option B) → Option B
and_then none f = none
and_then (some a) f = f a

abbrev last_or : Str → List Str → Str
last_or d [] = d
last_or d (x ∷ xs) = last_or x xs

-- `rsplit('/').next()`: the part after the last slash.
unfoldable pub bare_ingress_name : Str → Str
unfolding split
bare_ingress_name ingress = last_or ingress (split b'/' ingress)

unfoldable pub merge_quota : Option QuotaSpec → Option QuotaSpec → Option QuotaSpec
merge_quota global route =
    let by =
      or_else (and_then route (λ q. q.by_model_tokens))
        (and_then global (λ q. q.by_model_tokens)) in
    and_then by (λ w. some (record { by_model_tokens = some w }))

unfoldable pub merge_guardrail : Option GuardrailSpec → Option GuardrailSpec → Option GuardrailSpec
merge_guardrail none none = none
merge_guardrail (some g) none = some g
merge_guardrail none (some r) = some r
merge_guardrail (some g) (some r) = some (record {
  fail_mode = r.fail_mode;
  static_rules = g.static_rules ++ r.static_rules;
  llm = or_else r.llm g.llm;
})

module _ {F : Type 0} where
  unfoldable pub merge_limits :
      Option (LimitsSpec F) → Option (LimitsSpec F) → Option (LimitsSpec F)
  merge_limits none none = none
  merge_limits (some g) none = some g
  merge_limits none (some r) = some r
  merge_limits (some g) (some r) =
      some (record { ip = or_else r.ip g.ip; consumer = or_else r.consumer g.consumer })

pub record MergedPolicy (F : Type 0) : Type 0 where
  pub limits : Option (LimitsSpec F)
  pub quota : Option QuotaSpec
  pub guardrail : Option GuardrailSpec
  pub actions : Option RoutePolicyActions

module _ {F : Type 0} where
  unfoldable pub merge_spec : GlobalPolicy F → Option (RoutePolicySpec F) → MergedPolicy F
  unfolding merge_limits merge_quota merge_guardrail
  merge_spec global (some route) = record {
    limits = merge_limits global.limits route.limits;
    quota = merge_quota global.quota route.quota;
    guardrail = merge_guardrail global.guardrail route.guardrail;
    actions = route.policy;
  }
  merge_spec global none = record {
    limits = global.limits;
    quota = global.quota;
    guardrail = global.guardrail;
    actions = none;
  }

  unfoldable pub merge_policy : PolicyConfig F → Str → MergedPolicy F
  merge_policy cfg name = merge_spec cfg.global (for_ingress cfg name)

module _ (rx : RegexEngine) where
  pub record MergedEntry (F : Type 0) : Type 0 where
    pub policy : MergedPolicy F
    pub static_set : Option (StaticRuleSet rx)

  -- The compiled static rules; a rule that does not compile disables the static scan.
  unfoldable pub compile_static : Option GuardrailSpec → Option (StaticRuleSet rx)
  unfolding compile_rules
  compile_static none = none
  compile_static (some g) =
      if is_empty g.static_rules
      then none
      else elim (compile_rules rx g.static_rules) [ ok set ↦ some set | err e ↦ none ]

  module _ {F : Type 0} where
    -- `MergedEntry::compile`.
    unfoldable pub compile_entry : MergedPolicy F → MergedEntry F
    unfolding compile_static
    compile_entry policy = record { policy = policy; static_set = compile_static policy.guardrail }

  pub record MergedTable (F : Type 0) : Type 0 where
    pub global : MergedEntry F
    pub by_glob : List (Str × MergedEntry F)

  module _ {F : Type 0} where
    -- The loop of `MergedTable::build`.
    unfoldable pub index_globs :
        GlobalPolicy F
        → List (Str × MergedEntry F)
        → List (RoutePolicySpec F)
        → List (Str × MergedEntry F)
    index_globs global m [] = m
    index_globs global m (spec ∷ specs) =
        index_globs global (insert spec.name_glob (compile_entry (merge_spec global (some spec))) m)
          specs

    unfoldable pub build_table : PolicyConfig F → MergedTable F
    unfolding index_globs
    build_table cfg = record {
      global = compile_entry (merge_spec cfg.global none);
      by_glob = index_globs cfg.global [] cfg.routes;
    }

    -- The entry of the table for the route that was chosen.
    unfoldable pub entry_for : MergedTable F → Option (RoutePolicySpec F) → MergedEntry F
    entry_for table none = table.global
    entry_for table (some spec) = unwrap_or (lookup spec.name_glob table.by_glob) table.global

    -- `MergedTable::for_ingress`.
    unfoldable pub table_for_ingress : MergedTable F → PolicyConfig F → Str → MergedEntry F
    table_for_ingress table cfg name = entry_for table (for_ingress cfg name)
