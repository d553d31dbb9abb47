-- ===== src/Transform/Outbound/Pairs.antt =====
-- The header pairs that are dialed, name by name.
use hygress.Common.{
  ◌≡◌, refl, sym, ap, ◌∙◌, subst, length, ltb, Str, str_eq, str_eq_iff, text_eq, List, [], ◌∷◌,
  ◌++◌, append-nil, Option, none, some, Bool, true, false, if◌then◌else◌, unwrap_or, arith,
  Bool-cases, Option-cases, inl, inr,
}
use hygress.Common.Dict.{lookup, HasDistinctKeys, lookup_of_Lacks}
use hygress.Common.Entries.{remove_first, lookup-remove_first, remove_first-HasDistinctKeys}
use hygress.Transform.{HeaderMap, header_key, get_all}
use hygress.Transform.Outbound.{
  OutboundHeaders, over, has_name, overlaid, overlay_ops, insert_over, append_over, remove_over,
  get_all_over, push_name_value_pairs, pairs_of, drain, into_pairs,
}
use hygress.Transform.Outbound.Refinement.{over-Tracks}
use hygress.Transform.Outbound.Writes.{
  Write, insertion, addition, removal, rules, write_all, write_all-Tracks,
}
use hygress.Transform.Rules.{
  header_map_ops, TransformOp, remove, rename, dedupe, backup, skip, RetainMode, retain_first,
  TransformRule, kept_value, keep_one, append_values, apply_op, apply_rule, apply,
}

-- The values that the pairs give for a name, in their order.
unfoldable pub values_of : Str → List (Str × Str) → List Str
values_of k [] = []
values_of k ((n, v) ∷ ps) = if str_eq n k then v ∷ values_of k ps else values_of k ps

values_of-append :
    (k : Str) (ps qs : List (Str × Str)) → values_of k (ps ++ qs) ≡ values_of k ps ++ values_of k qs
unfolding values_of
values_of-append k [] qs = refl
values_of-append k ((n, v) ∷ ps) qs = ground (arith, values_of-append k ps qs)

values_of-push_name_value_pairs :
    (k n : Str) (vs : List Str)
    → values_of k (push_name_value_pairs n vs) ≡ (if str_eq n k then vs else [])
unfolding values_of push_name_value_pairs
values_of-push_name_value_pairs k n [] = ground arith
values_of-push_name_value_pairs k n (v ∷ vs) =
    ground (arith, values_of-push_name_value_pairs k n vs)

abbrev listed : Option (List Str) → List Str
listed o = unwrap_or o []

values_of-pairs_of :
    (k : Str) (ovs : List (Str × List Str))
    → HasDistinctKeys ovs
    → values_of k (pairs_of ovs) ≡ listed (lookup k ovs)
unfolding pairs_of values_of lookup
values_of-pairs_of k [] h = refl
values_of-pairs_of k ((n, vs) ∷ rest) (lacks, h) = ground (
  arith,
  str_eq_iff n k,
  values_of-append k (push_name_value_pairs n vs) (pairs_of rest),
  values_of-push_name_value_pairs k n vs,
  values_of-pairs_of k rest h,
  lookup_of_Lacks n rest lacks,
  append-nil vs,
)

abbrev dialed : Str → List Str → List (Str × List Str) → List (Str × List Str) → List Str
dialed k removed ovs m =
    listed (overlaid (lookup k ovs) (has_name k removed) (λ values. some values) none (lookup k m))

values_of-drain :
    (k : Str) (removed : List Str) (ovs m : List (Str × List Str))
    → HasDistinctKeys ovs
    → HasDistinctKeys m
    → values_of k (drain removed ovs m) ≡ dialed k removed ovs m
unfolding drain lookup
values_of-drain k removed ovs [] d h = ground (arith, values_of-pairs_of k ovs d)
values_of-drain k removed ovs ((n, vs) ∷ m) d (lacks, h) =
    let left = remove_first n ovs in
    let later = lookup_of_Lacks n m lacks in
    elim (Bool-cases (has_name n removed)) [
      | inl gone ↦
          rw gone (ground (arith, gone, str_eq_iff n k, values_of-drain k removed ovs m d h))
      | inr stays ↦ rw stays (elim (Option-cases (lookup n ovs)) [
        | inl none_own ↦ rw none_own (
            ground (
              arith,
              stays,
              none_own,
              later,
              str_eq_iff n k,
              append-nil vs,
              values_of-append k (push_name_value_pairs n vs) (drain removed ovs m),
              values_of-push_name_value_pairs k n vs,
              values_of-drain k removed ovs m d h,
            ))
        | inr (ws, some_own) ↦ rw some_own (
            ground (
              arith,
              stays,
              some_own,
              later,
              str_eq_iff n k,
              append-nil ws,
              lookup-remove_first n k ovs d,
              values_of-append k (push_name_value_pairs n ws) (drain removed left m),
              values_of-push_name_value_pairs k n ws,
              values_of-drain k removed left m (remove_first-HasDistinctKeys n ovs d) h,
            ))
      ])
    ]

-- The shared map is never changed.
append_values-base :
    (o : OutboundHeaders) (dest : Str) (vs : List Str) → (append_values o dest vs).base ≡ o.base
unfolding append_values append_over
append_values-base o dest [] = refl
append_values-base o dest (v ∷ vs) = append_values-base (append_over o dest v) dest vs

dedupe-base :
    (b : Bool) (o : OutboundHeaders) (s : Str) (kept : Option Str)
    → (if b then keep_one o s kept else o).base ≡ o.base
unfolding insert_over remove_over
dedupe-base true o s none = refl
dedupe-base true o s (some v) = refl
dedupe-base false o s kept = refl

apply_op-base :
    (op : TransformOp) (s : Str) (d : Option Str) (m : Option RetainMode) (o : OutboundHeaders)
    → (apply_op op s d m o).base ≡ o.base
unfolding remove_over
apply_op-base remove s d m o = refl
apply_op-base rename s none m o = refl
apply_op-base rename s (some d) m o = append_values-base o d (get_all_over o s)
apply_op-base dedupe s d m o =
    dedupe-base (ltb 1 (length (get_all_over o s))) o s
      (kept_value (unwrap_or m retain_first) (get_all_over o s))
apply_op-base backup s none m o = refl
apply_op-base backup s (some d) m o = append_values-base o d (get_all_over o s)
apply_op-base skip s d m o = refl

apply-base : (rs : List TransformRule) (o : OutboundHeaders) → (apply rs o).base ≡ o.base
unfolding apply apply_rule
apply-base [] o = refl
apply-base (r ∷ rs) o = apply-base rs (apply_rule r o) ∙ apply_op-base r.op r.source r.dest r.mode o

write_all-base : (ws : List Write) (o : OutboundHeaders) → (write_all ws o).base ≡ o.base
unfolding insert_over append_over remove_over
write_all-base [] o = refl
write_all-base (insertion name value ∷ ws) o = write_all-base ws (insert_over o name value)
write_all-base (addition name value ∷ ws) o = write_all-base ws (append_over o name value)
write_all-base (removal name ∷ ws) o = write_all-base ws (remove_over o name)
write_all-base (rules rs ∷ ws) o = write_all-base ws (apply rs o) ∙ apply-base rs o

-- What is dialed for a header name that is written in lower case is what the candidate's own copy
-- of the shared map would have, value by value and in order, if no name stands twice in the map.
pub into_pairs-write_all :
    (ws : List Write) (base : HeaderMap) (name : Str)
    → HasDistinctKeys base.map
    → header_key name ≡ name
    → values_of name (into_pairs (write_all ws (over base))) ≡ get_all (write_all ws base) name
unfolding into_pairs get_all
into_pairs-write_all ws base name distinct low =
    let o = write_all ws (over base) in
    let h = write_all ws base in
    let t = write_all-Tracks ws (over base) base (over-Tracks base) in
    let plain : HasDistinctKeys o.base.map =
      subst (λ m. HasDistinctKeys m.map) (sym (write_all-base ws (over base))) distinct in
    values_of-drain name o.removed o.overrides o.base.map t.overlay.distinct plain
    ∙ ap listed (t.agree name)
    ∙ ap (λ k. listed (lookup k h.map)) (sym low)
