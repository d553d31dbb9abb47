-- ===== src/Swrr/Balance.antt =====
-- The balance of the running weights, and what one round does to it.
use hygress.Common.{
  ◌≡◌, refl, sym, ap, ◌∙◌, subst, Str, str_eq, str_eq_iff, ℕ, suc, ◌+◌, ◌*◌, ◌≤◌, ◌<◌, List, [],
  ◌∷◌, ◌++◌, true, if◌then◌else◌, All, arith, Bool-cases, inl, inr,
}
use hygress.Common.Int.{
  IsI32, ℤ, pos, negsuc, pos_part, neg_part, ◌+ℤ◌, ◌-ℤ◌, ◌≤ℤ◌, ◌<ℤ◌, +ℤ_parts, -ℤ_parts,
}
use hygress.Swrr.{SwrrCandidate, SwrrState, weight_of, subtract}
use hygress.Swrr.Pick.{IsPick, All-append, All-map}
use hygress.Swrr.Round.{has_weight, weight_of-subtract_exact}
use hygress.Swrr.Sums.{sum_over, times, weight_ℕ, IsWeight}

module _ (total n : ℕ) (picks : List Str) (st : SwrrState) where
  -- The weight is what was added less what was subtracted.
  abbrev pub IsBalanced : SwrrCandidate → Type 0
  IsBalanced d =
      pos_part (weight_of st d.id) + total * times d.id picks
      ≡ neg_part (weight_of st d.id) + n * weight_ℕ d

  abbrev pub IsBounded : SwrrCandidate → Type 0
  IsBounded d = neg_part (weight_of st d.id) < total

pub record Balance (cs : List SwrrCandidate) (total n : ℕ) (picks : List Str) (st : SwrrState)
    : Type 0 where
  pub balanced : All (IsBalanced total n picks st) cs
  pub bounded : All (IsBounded total n picks st) cs
  pub counted : sum_over (λ d. times d.id picks) cs ≡ n

-- The weights of the state sum to 0.
abbrev pub plus : SwrrState → SwrrCandidate → ℕ
plus st d = pos_part (weight_of st d.id)

abbrev pub minus : SwrrState → SwrrCandidate → ℕ
minus st d = neg_part (weight_of st d.id)

pub sum_balanced :
    (cs : List SwrrCandidate) (total n : ℕ) (picks : List Str) (st : SwrrState)
    → All (IsBalanced total n picks st) cs
    → sum_over (plus st) cs + total * sum_over (λ d. times d.id picks) cs
      ≡ sum_over (minus st) cs + n * sum_over weight_ℕ cs
sum_balanced [] total n picks st h = omega arith
sum_balanced (c ∷ cs) total n picks st (p, h) = omega (arith, sum_balanced cs total n picks st h)

-- If no advanced weight were positive, the weights would sum to less than 0.
pub sum_not_positive :
    (cs : List SwrrCandidate) (st st1 : SwrrState)
    → All IsWeight cs
    → All (λ d. weight_of st1 d.id ≡ weight_of st d.id +ℤ d.weight) cs
    → All (λ d. pos_part (weight_of st1 d.id) ≡ 0) cs
    → sum_over (plus st) cs + sum_over weight_ℕ cs ≤ sum_over (minus st) cs
sum_not_positive [] st st1 w e h = omega arith
sum_not_positive (c ∷ cs) st st1 (w, ws) (e, es) (p, h) =
    let none_left : pos_part (weight_of st c.id +ℤ c.weight) ≡ 0 = ap pos_part (sym e) ∙ p in
    omega
      (arith, none_left, sum_not_positive cs st st1 ws es h, +ℤ_parts (weight_of st c.id) c.weight)

-- The weight of a candidate after a round that selected the id `b`.
abbrev pub Moved : SwrrState → SwrrState → ℕ → Str → SwrrCandidate → Type 0
Moved st st' total b d = weight_of st' d.id ≡ (
    if str_eq b d.id
    then weight_of st d.id +ℤ d.weight -ℤ pos total
    else weight_of st d.id +ℤ d.weight)

pub sub_bounded :
    (a : ℤ) (total : ℕ) → 0 < pos_part a → 0 < total → neg_part (a -ℤ pos total) < total
unfolding ◌-ℤ◌
sub_bounded (pos a) total h k = ground arith
sub_bounded (negsuc a) total h k = ground arith

pub add_bounded : (a w : ℤ) → neg_part w ≡ 0 → neg_part (a +ℤ w) ≤ neg_part a
unfolding ◌+ℤ◌
add_bounded a w h = ground arith

pub IsBalanced-step :
    (d : SwrrCandidate) (total n : ℕ) (picks : List Str) (st st' : SwrrState) (b : Str)
    → IsWeight d
    → Moved st st' total b d
    → IsBalanced total n picks st d
    → IsBalanced total (suc n) (b ∷ picks) st' d
IsBalanced-step d total n picks st st' b w e h = elim (Bool-cases (str_eq b d.id)) [
  | inl hit ↦
      let a = weight_of st d.id in
      let e' : weight_of st' d.id ≡ a +ℤ d.weight -ℤ pos total = e ∙ (rw hit refl) in
      rw e' (rw hit (omega (arith, +ℤ_parts a d.weight, -ℤ_parts (a +ℤ d.weight) (pos total))))
  | inr other ↦
      let a = weight_of st d.id in
      let e' : weight_of st' d.id ≡ a +ℤ d.weight = e ∙ (rw other refl) in
      rw e' (rw other (omega (arith, +ℤ_parts a d.weight)))
]

pub IsBounded-step :
    (d : SwrrCandidate) (total n : ℕ) (picks : List Str) (st st' : SwrrState) (b : Str)
    → IsWeight d
    → Moved st st' total b d
    → (str_eq b d.id ≡ true → 0 < pos_part (weight_of st d.id +ℤ d.weight))
    → IsBounded total n picks st d
    → IsBounded total (suc n) (b ∷ picks) st' d
IsBounded-step d total n picks st st' b w e positive h = elim (Bool-cases (str_eq b d.id)) [
  | inl hit ↦
      let a = weight_of st d.id in
      let e' : weight_of st' d.id ≡ a +ℤ d.weight -ℤ pos total = e ∙ (rw hit refl) in
      rw e' (ground (arith, positive hit, sub_bounded (a +ℤ d.weight) total))
  | inr other ↦
      let a = weight_of st d.id in
      let e' : weight_of st' d.id ≡ a +ℤ d.weight = e ∙ (rw other refl) in
      rw e' (ground (arith, add_bounded a d.weight))
]

pub Moved-All :
    (ds : List SwrrCandidate) (st st1 : SwrrState) (b : Str) (total : ℕ)
    → has_weight b st1 ≡ true
    → All (λ d. weight_of st1 d.id ≡ weight_of st d.id +ℤ d.weight) ds
    → All (λ d. IsI32 (weight_of st d.id +ℤ d.weight -ℤ pos total)) ds
    → All (Moved st (subtract b (pos total) st1) total b) ds
Moved-All [] st st1 b total h e f = tt
Moved-All (d ∷ ds) st st1 b total h (e, es) (f, fs) = (
  weight_of-subtract_exact b d.id (pos total) st1 h (subst (λ w. IsI32 (w -ℤ pos total)) (sym e) f)
      ∙ ap (λ w. if str_eq b d.id then w -ℤ pos total else w) e,
  Moved-All ds st st1 b total h es fs,
)

pub IsBalanced-All :
    (ds : List SwrrCandidate) (total n : ℕ) (picks : List Str) (st st' : SwrrState) (b : Str)
    → All IsWeight ds
    → All (Moved st st' total b) ds
    → All (IsBalanced total n picks st) ds
    → All (IsBalanced total (suc n) (b ∷ picks) st') ds
IsBalanced-All [] total n picks st st' b w e h = tt
IsBalanced-All (d ∷ ds) total n picks st st' b (w, ws) (e, es) (h, hs) = (
  IsBalanced-step d total n picks st st' b w e h,
  IsBalanced-All ds total n picks st st' b ws es hs,
)

pub IsBounded-All :
    (ds : List SwrrCandidate) (total n : ℕ) (picks : List Str) (st st' st1 : SwrrState) (b : Str)
    → All IsWeight ds
    → All (Moved st st' total b) ds
    → All (λ d. weight_of st1 d.id ≡ weight_of st d.id +ℤ d.weight) ds
    → 0 < pos_part (weight_of st1 b)
    → All (IsBounded total n picks st) ds
    → All (IsBounded total (suc n) (b ∷ picks) st') ds
IsBounded-All [] total n picks st st' st1 b w e a p h = tt
IsBounded-All (d ∷ ds) total n picks st st' st1 b (w, ws) (e, es) (a, as') p (h, hs) = (
  IsBounded-step d total n picks st st' b w e
      (λ hit. subst (λ x. 0 < pos_part x) (ap (weight_of st1) ((str_eq_iff b d.id).0 hit) ∙ a) p) h,
  IsBounded-All ds total n picks st st' st1 b ws es as' p hs,
)

pub All-middle :
    (P : SwrrCandidate → Type 0) (before after : List SwrrCandidate) (best : SwrrCandidate)
    → All P (before ++ best ∷ after)
    → P best
All-middle P [] after best (p, h) = p
All-middle P (c ∷ before) after best (p, h) = All-middle P before after best h

pub heaviest-All :
    (st : SwrrState) (cs : List SwrrCandidate) (picked : ℕ) (best : SwrrCandidate)
    → IsPick st cs picked best
    → All (λ d. weight_of st d.id ≤ℤ weight_of st best.id) cs
heaviest-All st cs picked best p =
    let AtMost : SwrrCandidate → Type 0 = λ d. weight_of st d.id ≤ℤ weight_of st best.id in
    subst (All AtMost) (sym p.split_eq) (
      All-append AtMost p.before (best ∷ p.after)
        (All-map (λ d. weight_of st d.id <ℤ weight_of st best.id) AtMost p.before
          (λ d h. omega (arith, h)) p.lighter)
        (omega arith, p.no_heavier))

pub not_positive-All :
    (st : SwrrState) (ds : List SwrrCandidate) (b : Str)
    → All (λ d. weight_of st d.id ≤ℤ weight_of st b) ds
    → pos_part (weight_of st b) ≡ 0
    → All (λ d. pos_part (weight_of st d.id) ≡ 0) ds
not_positive-All st [] b h z = tt
not_positive-All st (d ∷ ds) b (p, h) z = (ground arith, not_positive-All st ds b h z)
