-- ===== src/Swrr/Sums.antt =====
-- Sums over the candidates, and how often an id was selected.
use hygress.Common.{
  ◌≡◌, refl, sym, ap, ◌∙◌, subst, Str, str_eq, str_eq_iff, str_eq_refl, ℕ, suc, ◌+◌, ◌≤◌, ◌<◌, List,
  [], ◌∷◌, ◌++◌, if◌then◌else◌, All, arith, Bool-cases, inl, inr,
}
use hygress.Common.Int.{ℤ, pos, pos_part, neg_part, ◌+ℤ◌, add_i32-IsI32, +ℤ-IsI32}
use hygress.Swrr.{SwrrCandidate, sum_weights, total_weight}
use hygress.Swrr.Round.{Fresh, HasDistinctIds}

abbrev pub sum_over : (SwrrCandidate → ℕ) → List SwrrCandidate → ℕ
sum_over f [] = 0
sum_over f (c ∷ cs) = f c + sum_over f cs

-- How often the id stands in a list of selections.
abbrev pub times : Str → List Str → ℕ
times id [] = 0
times id (p ∷ ps) = if str_eq p id then suc (times id ps) else times id ps

abbrev pub weight_ℕ : SwrrCandidate → ℕ
weight_ℕ c = pos_part c.weight

abbrev pub IsWeight : SwrrCandidate → Type 0
IsWeight c = neg_part c.weight ≡ 0

add_weights : (a : ℕ) (w : ℤ) → neg_part w ≡ 0 → pos a +ℤ w ≡ pos (a + pos_part w)
unfolding ◌+ℤ◌
add_weights a w h = ground arith

sum_weights-sum_over :
    (a : ℕ) (cs : List SwrrCandidate)
    → All IsWeight cs
    → a + sum_over weight_ℕ cs < 2147483648
    → sum_weights (pos a) cs ≡ pos (a + sum_over weight_ℕ cs)
unfolding sum_weights
sum_weights-sum_over a [] h fits = ap pos (omega arith)
sum_weights-sum_over a (c ∷ cs) (p, h) fits =
    ap (λ s. sum_weights s cs)
      (add_i32-IsI32 (pos a) c.weight (+ℤ-IsI32 (pos a) c.weight (omega arith) (omega (arith, p)))
        ∙ add_weights a c.weight p)
    ∙ sum_weights-sum_over (a + weight_ℕ c) cs h (omega arith)
    ∙ ap pos (omega arith)

-- Where the sum of the weights fits, it is the total.
pub total_weight-sum_over :
    (cs : List SwrrCandidate)
    → All IsWeight cs
    → sum_over weight_ℕ cs < 2147483648
    → total_weight cs ≡ pos (sum_over weight_ℕ cs)
unfolding total_weight
total_weight-sum_over cs h fits =
    sum_weights-sum_over 0 cs h (omega (arith, fits)) ∙ ap pos (omega arith)

-- Each summand is at most what bounds the sum.
pub summands-le :
    (f : SwrrCandidate → ℕ) (bound : ℕ) (cs : List SwrrCandidate)
    → sum_over f cs ≤ bound
    → All (λ d. f d ≤ bound) cs
summands-le f bound [] h = tt
summands-le f bound (c ∷ cs) h = (omega arith, summands-le f bound cs (omega arith))

abbrev occurs : Str → SwrrCandidate → ℕ
occurs id c = if str_eq id c.id then 1 else 0

occurs-Fresh : (id : Str) (cs : List SwrrCandidate) → Fresh id cs → sum_over (occurs id) cs ≡ 0
occurs-Fresh id [] h = refl
occurs-Fresh id (c ∷ cs) (ne, h) = ground (arith, occurs-Fresh id cs h, str_eq_iff id c.id)

occurs_distinct :
    (id : Str) (cs : List SwrrCandidate) → HasDistinctIds cs → sum_over (occurs id) cs ≤ 1
occurs_distinct id [] h = omega arith
occurs_distinct id (c ∷ cs) (fresh, h) = elim (Bool-cases (str_eq id c.id)) [
  | inl e ↦
      let same : id ≡ c.id = (str_eq_iff id c.id).0 e in
      let none_left = occurs-Fresh id cs (subst (λ i. Fresh i cs) (sym same) fresh) in
      rw e (omega (arith, none_left))
  | inr e ↦ rw e (omega (arith, occurs_distinct id cs h))
]

occurs_split :
    (before after : List SwrrCandidate) (best : SwrrCandidate)
    → 1 ≤ sum_over (occurs best.id) (before ++ best ∷ after)
occurs_split [] after best = ground (arith, str_eq_refl best.id)
occurs_split (c ∷ before) after best = omega (arith, occurs_split before after best)

times-cons :
    (id : Str) (picks : List Str) (cs : List SwrrCandidate)
    → sum_over (λ d. times d.id (id ∷ picks)) cs
      ≡ sum_over (λ d. times d.id picks) cs + sum_over (occurs id) cs
times-cons id picks [] = refl
times-cons id picks (c ∷ cs) = ground (arith, times-cons id picks cs)

-- One more selection of a candidate, where the ids are distinct, is one more in the sum.
pub times-select :
    (before after cs : List SwrrCandidate) (best : SwrrCandidate) (picks : List Str)
    → cs ≡ before ++ best ∷ after
    → HasDistinctIds cs
    → sum_over (λ d. times d.id (best.id ∷ picks)) cs ≡ suc (sum_over (λ d. times d.id picks) cs)
times-select before after cs best picks e h =
    let low : 1 ≤ sum_over (occurs best.id) cs = rw e (occurs_split before after best) in
    omega (arith, times-cons best.id picks cs, occurs_distinct best.id cs h, low)

-- If each is at most its bound, and the sums agree, each is its bound.
sum_over-le :
    (f g : SwrrCandidate → ℕ) (cs : List SwrrCandidate)
    → All (λ c. f c ≤ g c) cs
    → sum_over f cs ≤ sum_over g cs
sum_over-le f g [] h = omega arith
sum_over-le f g (c ∷ cs) (p, h) = omega (arith, sum_over-le f g cs h)

pub sum_over-eq :
    (f g : SwrrCandidate → ℕ) (cs : List SwrrCandidate)
    → All (λ c. f c ≤ g c) cs
    → sum_over f cs ≡ sum_over g cs
    → All (λ c. f c ≡ g c) cs
sum_over-eq f g [] h e = tt
sum_over-eq f g (c ∷ cs) (p, h) e = (
  omega (arith, sum_over-le f g cs h),
  sum_over-eq f g cs h (omega (arith, sum_over-le f g cs h)),
)
