-- ===== src/Policy/Matches.antt =====
-- `glob_match` (policy.rs) ends, and decides what the pattern matches.
use hygress.Common.{
  ap, subst, sym, ℕ, zero, suc, ◌+◌, ◌*◌, ◌≤◌, ◌<◌, Str, Bool, true, Option, none, some, [], ◌∷◌,
  ◌≡◌, ◌≢◌, ◌↔◌, inl, inr, refl, arith, ◌==◌, ==_iff, is_empty, length, Bool-cases, length-append,
}
use hygress.Policy.Glob.{
  star, Backtrack, skip_stars, Round, answer, goto, backtrack, glob_round, glob_loop, glob_fuel,
  glob_match,
}
use hygress.Policy.Pattern.{
  ↔_trans, ↔_sym, CanMatch, Decides, IsTied, Matches, Matches-literal, Matches-skip_stars,
  Tied-literal, Tied-refl, at_backtrack, at_end, at_literal, at_star, not-Matches-nil,
  skip_stars-Matches,
}

-- A measure in three digits of base `k`: what is left of the pattern after the latest `*`, of the
-- input at the backtracking point, and of the input.
abbrev digits3 : ℕ → ℕ → ℕ → ℕ → ℕ
digits3 k a b c = a * (k * k) + b * k + c

abbrev measure : ℕ → Str → Str → Backtrack → ℕ
measure k p s none = digits3 k (length p + 1) 0 (length s)
measure k p s (some (star_p, star_s)) = digits3 k (length star_p) (length star_s) (length s)

abbrev Bounded : ℕ → Str → Backtrack → Type 0
Bounded k s none = length s < k
Bounded k s (some (star_p, star_s)) = (length s < k) × (length star_s < k)

scale : (m a b : ℕ) → a ≤ b → a * m ≤ b * m
scale m a b h = grind arith

digits3_first :
    (k a b c a' b' c' : ℕ) → a' < a → b' < k → c' < k → digits3 k a' b' c' < digits3 k a b c
digits3_first k a b c a' b' c' h hb hc =
    omega (arith, scale (k * k) (suc a') a h, scale k (suc b') k hb)

digits3_second : (k a b c b' c' : ℕ) → b' < b → c' < k → digits3 k a b' c' < digits3 k a b c
digits3_second k a b c b' c' hb hc = omega (arith, scale k (suc b') b hb)

abbrev RoundOk : ℕ → Str → Str → Backtrack → Round → Type 0
RoundOk k p s b (answer r) = Decides r p s b
RoundOk k p s b (goto p' s' b') =
    IsTied p' s' b'
    × Bounded k s' b'
    × (CanMatch p s b ↔ CanMatch p' s' b')
    × (measure k p' s' b' < measure k p s b)

backtrack-ok :
    (k : ℕ) (p : Str) (c : ℕ) (s : Str) (b : Backtrack)
    → ¬ Matches p (c ∷ s)
    → IsTied p (c ∷ s) b
    → Bounded k (c ∷ s) b
    → RoundOk k p (c ∷ s) b (backtrack b)
backtrack-ok k p c s none stuck tied bound =
    (λ e. cc, elim [ inl m ↦ absurd (stuck m) | inr l ↦ absurd l ])
backtrack-ok k p c s (some (star_p, [])) stuck tied bound =
    absurd (omega (arith, ap length tied.input_eq, length-append tied.lits (c ∷ s)))
backtrack-ok k p c s (some (star_p, d ∷ star_s)) stuck tied bound = (
  Tied-refl star_p star_s,
  (omega arith, omega arith),
  at_backtrack p c s star_p (d ∷ star_s) stuck tied,
  digits3_second k (length star_p) (length (d ∷ star_s)) (length (c ∷ s)) (length star_s)
      (length star_s) (omega arith) (omega arith),
)

star_shrinks :
    (k x : ℕ) (p s : Str) (b : Backtrack) (c : ℕ)
    → IsTied (x ∷ p) (c ∷ s) b
    → Bounded k (c ∷ s) b
    → measure k p (c ∷ s) (some (p, c ∷ s)) < measure k (x ∷ p) (c ∷ s) b
star_shrinks k x p s none c tied bound =
    digits3_first k (length (x ∷ p) + 1) 0 (length (c ∷ s)) (length p) (length (c ∷ s))
      (length (c ∷ s)) (omega arith) bound bound
star_shrinks k x p s (some (star_p, star_s)) c tied bound =
    digits3_first k (length star_p) (length star_s) (length (c ∷ s)) (length p) (length (c ∷ s))
      (length (c ∷ s)) (omega (arith, ap length tied.pattern_eq, length-append tied.lits (x ∷ p)))
      bound.0 bound.0

literal_shrinks :
    (k x : ℕ) (p s : Str) (b : Backtrack) (c : ℕ) → measure k p s b < measure k (x ∷ p) (c ∷ s) b
literal_shrinks k x p s none c = omega arith
literal_shrinks k x p s (some (star_p, star_s)) c = omega arith

Bounded-tail : (k : ℕ) (c : ℕ) (s : Str) (b : Backtrack) → Bounded k (c ∷ s) b → Bounded k s b
Bounded-tail k c s none h = omega arith
Bounded-tail k c s (some q) h = (omega arith, h.1)

Bounded-here : (k : ℕ) (s : Str) (b : Backtrack) → Bounded k s b → length s < k
Bounded-here k s none h = h
Bounded-here k s (some q) h = h.0

glob_round-ok :
    (k : ℕ) (p : Str) (c : ℕ) (s : Str) (b : Backtrack)
    → IsTied p (c ∷ s) b
    → Bounded k (c ∷ s) b
    → RoundOk k p (c ∷ s) b (glob_round p c s b)
unfolding glob_round
glob_round-ok k [] c s b tied bound = backtrack-ok k [] c s b not-Matches-nil tied bound
glob_round-ok k (x ∷ p) c s b tied bound = elim (Bool-cases (x == star)) [
  | inl e ↦
      let q = (==_iff x star).0 e in
      let here = Bounded-here k (c ∷ s) b bound in
      rw e (
        Tied-refl p (c ∷ s),
        (here, here),
        at_star x p (c ∷ s) b q tied,
        star_shrinks k x p s b c tied bound,
      )
  | inr e ↦
      let ne : x ≢ star = λ (q : x ≡ star). ground (arith, ==_iff x star) in
      elim (Bool-cases (x == c)) [
        | inl e' ↦
            let q = (==_iff x c).0 e' in
            rw (e, e')
              (
                Tied-literal x p s b ne (subst (λ d. IsTied (x ∷ p) (d ∷ s) b) (sym q) tied),
                Bounded-tail k c s b bound,
                subst (λ d. CanMatch (x ∷ p) (d ∷ s) b ↔ CanMatch p s b) q (at_literal x p s b ne),
                literal_shrinks k x p s b c,
              )
        | inr e' ↦
            rw (e, e')
              (backtrack-ok k (x ∷ p) c s b (λ m. ground (arith, (Matches-literal ne m).0)) tied
                bound)
      ]
]

abbrev Answers : Str → Str → Backtrack → Option Bool → Type 0
Answers p s b o = (r : Bool) × (o ≡ some r) × Decides r p s b

-- With more fuel than the measure the loop answers, and rightly.
glob_loop-Answers :
    (k f : ℕ) (p s : Str) (b : Backtrack)
    → IsTied p s b
    → Bounded k s b
    → measure k p s b < f
    → Answers p s b (glob_loop f p s b)
unfolding glob_loop
glob_loop-Answers k zero p s b tied bound enough = absurd (omega arith)
glob_loop-Answers k (suc f) p [] b tied bound enough = (
  is_empty (skip_stars p),
  refl,
  (
    λ e. inl (Matches-skip_stars p e),
    elim [ inl m ↦ skip_stars-Matches p m | inr l ↦ absurd (at_end p b tied l) ],
  ),
)
glob_loop-Answers k (suc f) p (c ∷ s) b tied bound enough =
    go (glob_round p c s b) (glob_round-ok k p c s b tied bound) (glob_loop-Answers k f)
  where
    go :
        (o : Round)
        → RoundOk k p (c ∷ s) b o
        → ((p' s' : Str) (b' : Backtrack)
            → IsTied p' s' b'
            → Bounded k s' b'
            → measure k p' s' b' < f
            → Answers p' s' b' (glob_loop f p' s' b'))
        → Answers p (c ∷ s) b (elim o [ answer r ↦ some r | goto p' s' b' ↦ glob_loop f p' s' b' ])
    go (answer r) good ih = (r, refl, good)
    go (goto p' s' b') (tied', bound', same, less) ih =
        let (r, eq, decides) = ih p' s' b' tied' bound' (omega arith) in
        (r, eq, ↔_trans decides (↔_sym same))

-- The loop of `glob_match` answers within the fuel given, its answer is the result, and the pattern
-- is matched exactly by the texts in which each `*` is replaced by some text.
pub glob_match-Matches :
    (pattern input : Str)
    → (glob_loop (glob_fuel pattern input) pattern input none ≡ some (glob_match pattern input))
      × ((glob_match pattern input ≡ true) ↔ Matches pattern input)
unfolding glob_match
glob_match-Matches pattern input =
    let k = length input + 2 in
    let (r, eq, decides) =
      glob_loop-Answers k (glob_fuel pattern input) pattern input none tt (omega arith)
        (omega (arith, scale k 1 k (omega arith))) in
    rw eq (refl, (λ e. elim (decides.0 e) [ inl m ↦ m | inr l ↦ absurd l ], λ m. decides.1 (inl m)))
