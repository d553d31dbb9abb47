-- ===== src/Swrr/Pick.antt =====
-- One round: which candidate is selected, and what becomes of the slice.
use hygress.Common.{
  subst, ap, sym, ◌∙◌, ℕ, suc, ◌+◌, List, [], ◌∷◌, ◌++◌, ◌≡◌, refl, arith, All, length, drop,
  append_assoc, append-nil, length-append, false, Bool-cases, inl, inr, take-length,
  drop-suc-length,
}
use hygress.Common.Int.{leb_ℤ, pos, ◌<ℤ◌, ◌≤ℤ◌, ltb_ℤ}
use hygress.Swrr.{
  order, subtract, total_weight, SwrrCandidate, SwrrState, weight_of, pick_from, rotate_front,
  order_round, advance,
}

-- The candidate before which all are lighter, and after which none is heavier: the first of the
-- heaviest.
pub record IsPick (st : SwrrState) (cs : List SwrrCandidate) (picked : ℕ) (best : SwrrCandidate)
    : Type 0 where
  pub before : List SwrrCandidate
  pub after : List SwrrCandidate
  pub split_eq : cs ≡ before ++ best ∷ after
  pub index_eq : length before ≡ picked
  pub lighter : All (λ c. weight_of st c.id <ℤ weight_of st best.id) before
  pub no_heavier : All (λ c. weight_of st c.id ≤ℤ weight_of st best.id) after

pub All-append :
    (P : SwrrCandidate → Type 0) (xs ys : List SwrrCandidate)
    → All P xs
    → All P ys
    → All P (xs ++ ys)
All-append P [] ys h k = k
All-append P (x ∷ xs) ys (p, h) k = (p, All-append P xs ys h k)

pub All-map :
    (P Q : SwrrCandidate → Type 0) (xs : List SwrrCandidate)
    → ((c : SwrrCandidate) → P c → Q c)
    → All P xs
    → All Q xs
All-map P Q [] f h = tt
All-map P Q (x ∷ xs) f (p, h) = (f x p, All-map P Q xs f h)

module _ (st : SwrrState) where
  abbrev Lighter : SwrrCandidate → SwrrCandidate → Type 0
  Lighter best c = weight_of st c.id <ℤ weight_of st best.id

  abbrev NoHeavier : SwrrCandidate → SwrrCandidate → Type 0
  NoHeavier best c = weight_of st c.id ≤ℤ weight_of st best.id

  pick_from-IsPick :
      (before mid cs : List SwrrCandidate) (best : SwrrCandidate) (i picked : ℕ)
      → picked ≡ length before
      → i ≡ suc (length before + length mid)
      → All (Lighter best) before
      → All (NoHeavier best) mid
      → let r = pick_from st i picked best cs in IsPick st (before ++ best ∷ (mid ++ cs)) r.0 r.1
  unfolding pick_from
  pick_from-IsPick before mid [] best i picked at e lighter no_heavier = record {
    before = before;
    after = mid;
    split_eq = ap (λ m. before ++ best ∷ m) (append-nil mid);
    index_eq = sym at;
    lighter = lighter;
    no_heavier = no_heavier;
  }
  pick_from-IsPick before mid (c ∷ cs) best i picked at e lighter no_heavier =
      elim (Bool-cases (ltb_ℤ (weight_of st best.id) (weight_of st c.id))) [
        | inl heavier ↦
            let before_all =
              All-append (Lighter c) before (best ∷ mid)
                (All-map (Lighter best) (Lighter c) before (λ x h. ground arith) lighter)
                (
                  ground arith,
                  All-map (NoHeavier best) (Lighter c) mid (λ x h. ground arith) no_heavier,
                ) in
            let found =
              pick_from-IsPick (before ++ best ∷ mid) [] cs c (suc i) i
                (omega (arith, length-append before (best ∷ mid)))
                (omega (arith, length-append before (best ∷ mid))) before_all tt in
            rw heavier (
              subst
                (λ l. IsPick st l (pick_from st (suc i) i c cs).0 (pick_from st (suc i) i c cs).1)
                (append_assoc before (best ∷ mid) (c ∷ cs)) found)
        | inr not_heavier ↦
            let found =
              pick_from-IsPick before (mid ++ c ∷ []) cs best (suc i) picked at
                (omega (arith, length-append mid (c ∷ []))) lighter
                (All-append (NoHeavier best) mid (c ∷ []) no_heavier (ground arith, tt)) in
            let r = pick_from st (suc i) picked best cs in
            rw not_heavier (
              subst (λ l. IsPick st (before ++ best ∷ l) r.0 r.1) (append_assoc mid (c ∷ []) cs)
                found)
      ]

-- What the search in `order` finds.
pub search-IsPick :
    (st : SwrrState) (c : SwrrCandidate) (cs : List SwrrCandidate)
    → let r = pick_from st 1 0 c cs in IsPick st (c ∷ cs) r.0 r.1
search-IsPick st c cs = pick_from-IsPick st [] [] cs c 1 0 refl (omega arith) tt tt

rotate_front-split :
    (before after : List SwrrCandidate) (best : SwrrCandidate)
    → rotate_front (length before) best (before ++ best ∷ after) ≡ best ∷ (before ++ after)
unfolding rotate_front
rotate_front-split before after best =
    ap (λ l. best ∷ (l ++ drop (suc (length before)) (before ++ best ∷ after)))
      (take-length before (best ∷ after))
    ∙ ap (λ l. best ∷ (before ++ l)) (drop-suc-length before after best)

rotate_front-IsPick :
    (st : SwrrState) (cs : List SwrrCandidate) (picked : ℕ) (best : SwrrCandidate)
    (p : IsPick st cs picked best)
    → rotate_front picked best cs ≡ best ∷ (p.before ++ p.after)
rotate_front-IsPick st cs picked best p =
    ap (λ n. rotate_front n best cs) (sym p.index_eq)
    ∙ ap (λ l. rotate_front (length p.before) best l) p.split_eq
    ∙ rotate_front-split p.before p.after best

-- A round with a positive total, in `i32` arithmetic that wraps around: with the weights after each candidate's own was added, there is
-- a first heaviest candidate, all earlier ones strictly lighter and no later one heavier; the
-- slice comes back with it in front and the others in their order, and the state is the advanced
-- one less the total at that candidate.
pub order-IsPick :
    (c : SwrrCandidate) (cs : List SwrrCandidate) (st : SwrrState)
    → pos 0 <ℤ total_weight (c ∷ cs)
    → (picked : ℕ) × (best : SwrrCandidate) × (p : IsPick
        (advance (c ∷ cs) st)
        (c ∷ cs)
        picked
        best)
      × order (c ∷ cs) st ≡ (
        best ∷ (p.before ++ p.after),
        subtract best.id (total_weight (c ∷ cs)) (advance (c ∷ cs) st),
      )
unfolding order order_round
order-IsPick c cs st h =
    let st1 = advance (c ∷ cs) st in
    let r = pick_from st1 1 0 c cs in
    let p = search-IsPick st1 c cs in
    let positive : leb_ℤ (total_weight (c ∷ cs)) (pos 0) ≡ false = ground arith in
    (
      r.0,
      r.1,
      p,
      rw positive (
          ap (λ l. (l, subtract r.1.id (total_weight (c ∷ cs)) st1))
            (rotate_front-IsPick st1 (c ∷ cs) r.0 r.1 p)),
    )
