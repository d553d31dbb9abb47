-- ===== src/Policy/MergeLaws.antt =====
-- The table of merges against the direct merge, and what a merged guardrail keeps.
use hygress.Common.{
  ap, sym, ◌∙◌, Str, str_eq_iff, text_eq, List, [], ◌∷◌, ◌++◌, some, ◌≡◌, ◌≢◌, refl, arith, inl,
  inr, All, unwrap_or, subst,
}
use hygress.Common.Dict.{lookup, insert, lookup-insert, lookup-insert_self}
use hygress.Common.Results.{Result, Error, ok, collect, ◌>>=◌, >>=-ok}
use hygress.Policy.{StaticRuleSpec, GuardrailSpec, RoutePolicySpec, GlobalPolicy, PolicyConfig}
use hygress.Policy.Pattern.{Matches}
use hygress.Policy.Select.{IsLastMatch, for_ingress-IsLastMatch}
use hygress.Policy.Merge.{
  merge_guardrail, or_else, merge_spec, merge_policy, MergedEntry, compile_entry, index_globs,
  build_table, entry_for, table_for_ingress,
}
use hygress.Guardrail.{Rule, StaticRuleSet, compile_rule, compile_rules, first_hit, evaluate}
use hygress.Regex.{RegexEngine}

module _ (rx : RegexEngine) {F : Type 0} where
  index_globs-append :
      (global : GlobalPolicy F) (m : List (Str × MergedEntry rx F))
      (xs ys : List (RoutePolicySpec F))
      → index_globs rx global m (xs ++ ys) ≡ index_globs rx global (index_globs rx global m xs) ys
  unfolding index_globs
  index_globs-append global m [] ys = refl
  index_globs-append global m (x ∷ xs) ys =
      index_globs-append global
        (insert x.name_glob (compile_entry rx (merge_spec global (some x))) m) xs ys

  -- Specs of other globs leave an entry alone.
  lookup-index_globs :
      (global : GlobalPolicy F) (m : List (Str × MergedEntry rx F)) (g : Str)
      (xs : List (RoutePolicySpec F))
      → All (λ q. q.name_glob ≢ g) xs
      → lookup g (index_globs rx global m xs) ≡ lookup g m
  unfolding index_globs
  lookup-index_globs global m g [] h = refl
  lookup-index_globs global m g (x ∷ xs) (ne, h) =
      let m' = insert x.name_glob (compile_entry rx (merge_spec global (some x))) m in
      lookup-index_globs global m' g xs h
      ∙ ground (
        arith,
        lookup-insert x.name_glob g (compile_entry rx (merge_spec global (some x))) m,
        str_eq_iff x.name_glob g,
      )

  other_globs :
      (name g : Str) (xs : List (RoutePolicySpec F))
      → Matches g name
      → All (λ q. ¬ Matches q.name_glob name) xs
      → All (λ q. q.name_glob ≢ g) xs
  other_globs name g [] m h = tt
  other_globs name g (x ∷ xs) m (unlike, h) =
      (λ e. unlike (subst (λ k. Matches k name) (sym e) m), other_globs name g xs m h)

  found_entry :
      (cfg : PolicyConfig F) (name : Str) (r : RoutePolicySpec F)
      → IsLastMatch name r cfg.routes
      → lookup r.name_glob (build_table rx cfg).by_glob
        ≡ some (compile_entry rx (merge_spec cfg.global (some r)))
  unfolding build_table index_globs
  found_entry cfg name r last =
      let start = index_globs rx cfg.global [] last.before in
      let entry = compile_entry rx (merge_spec cfg.global (some r)) in
      ap (λ rs. lookup r.name_glob (index_globs rx cfg.global [] rs)) last.split_eq
      ∙ ap (lookup r.name_glob) (index_globs-append cfg.global [] last.before (r ∷ last.after))
      ∙ lookup-index_globs cfg.global (insert r.name_glob entry start) r.name_glob last.after
          (other_globs name r.name_glob last.after last.fits last.none_later)
      ∙ lookup-insert_self r.name_glob entry start

  -- The table computed once for a configuration answers, for every ingress name, what the direct
  -- merge would give, also where several routes have the same glob.
  pub table-merge_policy :
      (cfg : PolicyConfig F) (name : Str)
      → table_for_ingress rx (build_table rx cfg) cfg name
        ≡ compile_entry rx (merge_policy cfg name)
  unfolding table_for_ingress merge_policy entry_for build_table
  table-merge_policy cfg name = elim (for_ingress-IsLastMatch cfg name) [
    | inl (missed, _) ↦
        ap (entry_for rx (build_table rx cfg)) missed
        ∙ sym (ap (λ o. compile_entry rx (merge_spec cfg.global o)) missed)
    | inr (r, hit, last) ↦
        ap (entry_for rx (build_table rx cfg)) hit
        ∙ ap (λ o. unwrap_or o (build_table rx cfg).global) (found_entry cfg name r last)
        ∙ sym (ap (λ o. compile_entry rx (merge_spec cfg.global o)) hit)
  ]

module _ (rx : RegexEngine) where
  first_hit-append :
      (xs ys : List (Rule rx)) (text : Str)
      → first_hit rx (xs ++ ys) text ≡ or_else (first_hit rx xs text) (first_hit rx ys text)
  unfolding first_hit
  first_hit-append [] ys text = refl
  first_hit-append ((name, re, action) ∷ xs) ys text = ground (arith, first_hit-append xs ys text)

  -- Compiling a concatenation compiles both parts.
  collect-append :
      (xs ys : List StaticRuleSpec) (zs : List (Rule rx))
      → collect (compile_rule rx) (xs ++ ys) ≡ ok zs
      → (us : List (Rule rx)) × (vs : List (Rule rx)) × (collect (compile_rule rx) xs ≡ ok us)
        × (collect (compile_rule rx) ys ≡ ok vs)
        × (zs ≡ us ++ vs)
  unfolding collect
  collect-append [] ys zs e = ([], zs, refl, e, refl)
  collect-append (x ∷ xs) ys zs e =
      let (y, x_eq, e') = >>=-ok (compile_rule rx x) _ e in
      let (zs', rest_eq, cons_eq) = >>=-ok (collect (compile_rule rx) (xs ++ ys)) _ e' in
      let (l, r, l_eq, r_eq, cat) = collect-append xs ys zs' rest_eq in
      (
        y ∷ l,
        r,
        ap (λ m. m >>= λ w. collect (compile_rule rx) xs >>= λ ws. ok (w ∷ ws)) x_eq
            ∙ ap (λ m. m >>= λ ws. ok (y ∷ ws)) l_eq,
        r_eq,
        cc,
      )

  rules_of :
      (set : StaticRuleSet rx) (zs : List (Rule rx))
      → ◌≡◌ {A = Result Error (StaticRuleSet rx)} (ok (record { rules = zs })) (ok set)
      → set.rules ≡ zs
  rules_of set zs e = ground arith

  -- Where the static rules of a merged guardrail compile, so do the global ones and the route's,
  -- and a text is judged by the global rules first: a route can add rules and cannot take a global
  -- one away.
  pub merge_guardrail-evaluate :
      (g r m : GuardrailSpec) (set : StaticRuleSet rx)
      → merge_guardrail (some g) (some r) ≡ some m
      → compile_rules rx m.static_rules ≡ ok set
      → (sg : StaticRuleSet rx) × (sr : StaticRuleSet rx) × (compile_rules rx g.static_rules
          ≡ ok sg)
        × (compile_rules rx r.static_rules ≡ ok sr)
        × ((text : Str)
            → evaluate rx set text ≡ or_else (evaluate rx sg text) (evaluate rx sr text))
  unfolding merge_guardrail compile_rules evaluate
  merge_guardrail-evaluate g r m set merged compiled =
      let rules_eq : g.static_rules ++ r.static_rules ≡ m.static_rules = ground arith in
      let (zs, all_eq, set_eq) = >>=-ok (collect (compile_rule rx) m.static_rules) _ compiled in
      let (us, vs, g_eq, r_eq, cat) =
        collect-append g.static_rules r.static_rules zs
          (ap (collect (compile_rule rx)) rules_eq ∙ all_eq) in
      (
        record { rules = us },
        record { rules = vs },
        ap (λ c. c >>= λ compiled. ok (record { rules = compiled })) g_eq,
        ap (λ c. c >>= λ compiled. ok (record { rules = compiled })) r_eq,
        λ text.
            ap (λ rs. first_hit rx rs text) (rules_of set zs set_eq ∙ cat)
            ∙ first_hit-append us vs text,
      )
