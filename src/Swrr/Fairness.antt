-- ===== src/Swrr/Fairness.antt =====
-- The rounds of a full cycle.
use hygress.Common.{
  ◌⊎◌, ◌≡◌, ◌≢◌, refl, sym, ap, ◌∙◌, subst, Str, str_eq, str_eq_iff, str_eq_refl, ℕ, zero, suc, ◌+◌,
  ◌*◌, ◌≤◌, ◌<◌, List, [], ◌∷◌, ◌++◌, Bool, true, false, if◌then◌else◌, All, arith, Bool-cases, inl,
  inr, length,
}
use hygress.Common.Int.{pos, pos_part, ◌≤ℤ◌, ◌+ℤ◌, ◌-ℤ◌, IsI32}
use native.Mathlib.Nat.{lt_of_mul-lt-mul_left}
use hygress.Swrr.{SwrrCandidate, SwrrState, weight_of, advance, subtract, order, new_state}
use hygress.Swrr.Fits.{Fits, Balance-Fits}
use hygress.Swrr.Pick.{order-IsPick, All-map}
use hygress.Swrr.Round.{HasDistinctIds, has_weight, advance-has_weight, weight_of-advance_exact}
use hygress.Swrr.Sums.{
  sum_over, times, weight_ℕ, IsWeight, total_weight-sum_over, times-select, sum_over-eq,
}
use hygress.Swrr.Balance.{
  sum_balanced, sum_not_positive, Moved-All, IsBalanced-All, IsBounded-All, All-middle,
  heaviest-All, not_positive-All, IsBalanced, IsBounded, Balance,
}

abbrev first_id : List SwrrCandidate → Str
first_id [] = []
first_id (c ∷ _) = c.id

-- The state after some rounds from the empty state, and the ids selected, the last one first.
unfoldable pub rounds : ℕ → List SwrrCandidate → SwrrState × List Str
rounds zero cs = (new_state, [])
rounds (suc n) cs =
    let before = rounds n cs in
    let after = order cs before.0 in (after.1, first_id after.0 ∷ before.1)

zero_or_positive : (n : ℕ) → (n ≡ 0) ⊎ (0 < n)
zero_or_positive zero = inl refl
zero_or_positive (suc n) = inr (omega arith)

module _ (cs : List SwrrCandidate) (weights : All IsWeight cs) (distinct : HasDistinctIds cs) where
  abbrev cycle_total : ℕ
  cycle_total = sum_over weight_ℕ cs

  heaviest_positive :
      (n : ℕ) (picks : List Str) (st : SwrrState) (b : Str)
      → Balance cs cycle_total n picks st
      → 0 < cycle_total
      → All (λ d. weight_of (advance cs st) d.id ≡ weight_of st d.id +ℤ d.weight) cs
      → All (λ d. weight_of (advance cs st) d.id ≤ℤ weight_of (advance cs st) b) cs
      → 0 < pos_part (weight_of (advance cs st) b)
  heaviest_positive n picks st b h some_weight added at_most =
      let st1 = advance cs st in
      elim (zero_or_positive (pos_part (weight_of st1 b))) [
        | inl z ↦
            let low =
              sum_not_positive cs st st1 weights added (not_positive-All st1 cs b at_most z) in
            let balanced = sum_balanced cs cycle_total n picks st h.balanced in
            let counted : cycle_total * sum_over (λ d. times d.id picks) cs ≡ cycle_total * n =
              ap (λ k. cycle_total * k) h.counted in
            absurd (omega (arith, low, balanced, counted, some_weight))
        | inr positive ↦ positive
      ]

start-Balance : (ds : List SwrrCandidate) (total : ℕ) → 0 < total → Balance ds total 0 [] new_state
unfolding weight_of hygress.Common.Dict.lookup
start-Balance ds total h = record {
  balanced = start_balanced ds;
  bounded = start_bounded ds;
  counted = start_counted ds;
}
  where
    start_balanced : (es : List SwrrCandidate) → All (IsBalanced total 0 [] new_state) es
    start_balanced [] = tt
    start_balanced (e ∷ es) = (omega arith, start_balanced es)

    start_bounded : (es : List SwrrCandidate) → All (IsBounded total 0 [] new_state) es
    start_bounded [] = tt
    start_bounded (e ∷ es) = (h, start_bounded es)

    start_counted : (es : List SwrrCandidate) → sum_over (λ d. 0) es ≡ 0
    start_counted [] = refl
    start_counted (e ∷ es) = omega (arith, start_counted es)

module _ (c : SwrrCandidate) (cs : List SwrrCandidate) (weights : All IsWeight (c ∷ cs))
    (distinct : HasDistinctIds (c ∷ cs)) (some_weight : 0 < sum_over weight_ℕ (c ∷ cs))
    (room : suc (length (c ∷ cs)) * sum_over weight_ℕ (c ∷ cs) < 2147483648) where
  twice : sum_over weight_ℕ (c ∷ cs) + sum_over weight_ℕ (c ∷ cs) < 2147483648
  twice = grind (arith, room)

  order-Balance :
      (n : ℕ) (picks : List Str) (st : SwrrState)
      → Balance (c ∷ cs) (cycle_total (c ∷ cs) weights distinct) n picks st
      → let o = order (c ∷ cs) st in
        Balance (c ∷ cs) (cycle_total (c ∷ cs) weights distinct) (suc n) (first_id o.0 ∷ picks) o.1
  order-Balance n picks st h =
      let w = cycle_total (c ∷ cs) weights distinct in
      let st1 = advance (c ∷ cs) st in
      let is_total = total_weight-sum_over (c ∷ cs) weights (omega (arith, twice)) in
      let fits = Balance-Fits (c ∷ cs) n picks st room twice weights h in
      let (picked, best, p, eq) = order-IsPick c cs st (rw is_total (omega (arith, some_weight))) in
      let st' = subtract best.id (pos w) st1 in
      let there : has_weight best.id st1 ≡ true =
        All-middle (λ d. has_weight d.id st1 ≡ true) p.before p.after best
          (subst (All (λ d. has_weight d.id st1 ≡ true)) p.split_eq
            (advance-has_weight (c ∷ cs) st)) in
      let added = weight_of-advance_exact (c ∷ cs) st distinct (
        All-map (Fits st w) (λ d. IsI32 (weight_of st d.id +ℤ d.weight)) (c ∷ cs) (λ d f. f.0)
          fits) in
      let moved = Moved-All (c ∷ cs) st st1 best.id w there added (
        All-map (Fits st w) (λ d. IsI32 (weight_of st d.id +ℤ d.weight -ℤ pos w)) (c ∷ cs)
          (λ d f. f.1) fits) in
      let positive =
        heaviest_positive (c ∷ cs) weights distinct n picks st best.id h some_weight added
          (heaviest-All st1 (c ∷ cs) picked best p) in
      let next : Balance (c ∷ cs) w (suc n) (best.id ∷ picks) st' = record {
        balanced = IsBalanced-All (c ∷ cs) w n picks st st' best.id weights moved h.balanced;
        bounded =
            IsBounded-All (c ∷ cs) w n picks st st' st1 best.id weights moved added positive
              h.bounded;
        counted =
            times-select p.before p.after (c ∷ cs) best picks p.split_eq distinct
            ∙ ap (λ k. suc k) h.counted;
      } in
      subst (λ o. Balance (c ∷ cs) w (suc n) (first_id o.0 ∷ picks) o.1)
        (sym (eq ∙ ap (λ t. (best ∷ (p.before ++ p.after), subtract best.id t st1)) is_total)) next

  -- After any number of rounds from the empty state, over candidates with distinct ids and weights
  -- that are not negative and not all 0, and of which the sum, times one more than their number, is
  -- an `i32`: nothing overflows, each weight is what was added less what was subtracted, and
  -- is above the negated total; and as many selections were made of the candidates as rounds.
  pub rounds-Balance :
      (n : ℕ)
      → Balance (c ∷ cs) (sum_over weight_ℕ (c ∷ cs)) n (rounds n (c ∷ cs)).1 (rounds n (c ∷ cs)).0
  unfolding rounds
  rounds-Balance zero = start-Balance (c ∷ cs) (sum_over weight_ℕ (c ∷ cs)) some_weight
  rounds-Balance (suc n) =
      order-Balance n (rounds n (c ∷ cs)).1 (rounds n (c ∷ cs)).0 (rounds-Balance n)

at_most_weight :
    (ds : List SwrrCandidate) (total : ℕ) (picks : List Str) (st : SwrrState)
    → All (IsBalanced total total picks st) ds
    → All (IsBounded total total picks st) ds
    → All (λ d. times d.id picks ≤ weight_ℕ d) ds
at_most_weight [] total picks st h k = tt
at_most_weight (d ∷ ds) total picks st (p, h) (b, k) = (
  omega (
    arith,
    lt_of_mul-lt-mul_left total {m = times d.id picks} {n = suc (weight_ℕ d)} (omega (arith, p, b)),
  ),
  at_most_weight ds total picks st h k,
)

-- Over a full cycle, which has as many rounds as the weights sum to, from the empty state, each
-- candidate is selected exactly as often as its weight says. The ids are distinct, the weights are
-- not negative and not all 0, and their sum, times one more than their number, is an `i32`.
pub rounds-IsFair :
    (c : SwrrCandidate) (cs : List SwrrCandidate)
    → All IsWeight (c ∷ cs)
    → HasDistinctIds (c ∷ cs)
    → 0 < sum_over weight_ℕ (c ∷ cs)
    → suc (length (c ∷ cs)) * sum_over weight_ℕ (c ∷ cs) < 2147483648
    → let cycle = sum_over weight_ℕ (c ∷ cs) in
      All (λ d. times d.id (rounds cycle (c ∷ cs)).1 ≡ weight_ℕ d) (c ∷ cs)
rounds-IsFair c cs weights distinct some_weight room =
    let cycle = sum_over weight_ℕ (c ∷ cs) in
    let picks = (rounds cycle (c ∷ cs)).1 in
    let h = rounds-Balance c cs weights distinct some_weight room cycle in
    sum_over-eq (λ d. times d.id picks) weight_ℕ (c ∷ cs)
      (at_most_weight (c ∷ cs) cycle picks (rounds cycle (c ∷ cs)).0 h.balanced h.bounded) h.counted
