-- ===== src/Policy/Pattern.antt =====
-- What a pattern matches, and what the backtracking of `glob_match` may rely on.
use hygress.Common.{
  ap, subst, sym, ◌∙◌, ℕ, ◌≤◌, Str, Bool, true, none, some, [], ◌∷◌, ◌++◌, ◌≡◌, ◌≢◌, ◌⊎◌, ◌↔◌, inl,
  inr, refl, arith, ◌==◌, ==_iff, is_empty, length, drop, Bool-cases, All, append_assoc,
  length-append,
}
use hygress.Policy.Glob.{star, Backtrack, skip_stars}

-- `*` stands for any text, and every other character for itself.
pub data Matches : Str → Str → Type 0 where
  done : Matches [] []
  literal : {c : ℕ} {p s : Str} → c ≢ star → Matches p s → Matches (c ∷ p) (c ∷ s)
  skip : {x : ℕ} {p s : Str} → x ≡ star → Matches p s → Matches (x ∷ p) s
  extend : {x c : ℕ} {p s : Str} → x ≡ star → Matches (x ∷ p) s → Matches (x ∷ p) (c ∷ s)

-- The pattern matches what is left of the text after one character or more.
abbrev Later : Str → Str → Type 0
Later p [] = ⊥
Later p (c ∷ s) = Matches p s ⊎ Later p s

abbrev Resumes : Backtrack → Type 0
Resumes none = ⊥
Resumes (some (p, s)) = Later p s

-- How the loop may still succeed: from where it stands, or from the backtracking point.
abbrev pub CanMatch : Str → Str → Backtrack → Type 0
CanMatch p s b = Matches p s ⊎ Resumes b

All-concat : (P : ℕ → Type 0) (xs : Str) {x : ℕ} → All P xs → P x → All P (xs ++ x ∷ [])
All-concat P [] h p = (p, tt)
All-concat P (y ∷ xs) (q, h) p = (q, All-concat P xs h p)

-- Inversions.
Matches-star : {x : ℕ} {p s : Str} → x ≡ star → Matches (x ∷ p) s → Matches p s ⊎ Later p s
Matches-star e (literal ne m) = absurd (ne e)
Matches-star e (skip _ m) = inl m
Matches-star e (extend e' m) = inr (Matches-star e m)

star-Matches : {x : ℕ} (p s : Str) → x ≡ star → Later p s → Matches (x ∷ p) s
star-Matches p [] e h = elim h [ ]
star-Matches p (c ∷ s) e (inl m) = extend e (skip e m)
star-Matches p (c ∷ s) e (inr l) = extend e (star-Matches p s e l)

pub Matches-literal :
    {x c : ℕ} {p s : Str} → x ≢ star → Matches (x ∷ p) (c ∷ s) → (x ≡ c) × Matches p s
Matches-literal ne (literal _ m) = (refl, m)
Matches-literal ne (skip e m) = absurd (ne e)
Matches-literal ne (extend e m) = absurd (ne e)

pub not-Matches-nil : {c : ℕ} {s : Str} → ¬ Matches [] (c ∷ s)
not-Matches-nil m = elim m [ ]

star-append :
    {x : ℕ} {p : Str} (v : Str) {t : Str} → x ≡ star → Matches (x ∷ p) t → Matches (x ∷ p) (v ++ t)
star-append [] e m = m
star-append (c ∷ v) e m = extend e (star-append v e m)

pub Matches-skip_stars : (p : Str) → is_empty (skip_stars p) ≡ true → Matches p []
unfolding skip_stars
Matches-skip_stars [] h = done
Matches-skip_stars (c ∷ p) h = elim (Bool-cases (c == star)) [
  | inl e ↦ skip ((==_iff c star).0 e) (Matches-skip_stars p (ground arith))
  | inr e ↦ ground arith
]

pub skip_stars-Matches : (p : Str) → Matches p [] → is_empty (skip_stars p) ≡ true
unfolding skip_stars
skip_stars-Matches [] m = refl
skip_stars-Matches (c ∷ p) (skip e m) = rw ((==_iff c star).1 e) (skip_stars-Matches p m)

-- A match of a pattern that begins with literal characters begins with them too.
Matches-append :
    (lits : Str) {p t : Str}
    → All (λ c. c ≢ star) lits
    → Matches (lits ++ p) t
    → (t' : Str) × (t ≡ lits ++ t') × Matches p t'
Matches-append [] {t} h m = (t, refl, m)
Matches-append (c ∷ lits) {t = []} (ne, h) (skip e m) = absurd (ne e)
Matches-append (c ∷ lits) {t = d ∷ t} (ne, h) m =
    let (same, rest) = Matches-literal ne m in
    let (t', eq, m') = Matches-append lits h rest in (t', ground arith, m')

Later-suffix :
    {p : Str} (s : Str)
    → Later p s
    → (u : Str) × (t : Str) × (s ≡ u ++ t) × (1 ≤ length u) × Matches p t
Later-suffix [] l = elim l [ ]
Later-suffix (c ∷ s) (inl m) = (c ∷ [], s, refl, omega arith, m)
Later-suffix (c ∷ s) (inr l) =
    let (u, t, eq, pos, m) = Later-suffix s l in (c ∷ u, t, ap (λ k. c ∷ k) eq, omega arith, m)

append_cut : (a s w t : Str) → a ++ s ≡ w ++ t → length a ≤ length w → (v : Str) × (s ≡ v ++ t)
append_cut [] s w t e h = (w, e)
append_cut (c ∷ a) s [] t e h = absurd (omega arith)
append_cut (c ∷ a) s (d ∷ w) t e h = append_cut a s w t (ap (drop 1) e) (omega arith)

-- How the backtracking point is tied to the place of the loop: only literal characters lie
-- between them.
pub record Tied (p s : Str) (star_p star_s : Str) : Type 0 where
  pub lits : Str
  pub plain : All (λ c. c ≢ star) lits
  pub pattern_eq : star_p ≡ lits ++ p
  pub input_eq : star_s ≡ lits ++ s

abbrev pub IsTied : Str → Str → Backtrack → Type 0
IsTied p s none = Unit
IsTied p s (some (star_p, star_s)) = Tied p s star_p star_s

-- What the backtracking point could still match, seen from the place of the loop.
Tied-Later :
    {p s star_p star_s : Str}
    → Tied p s star_p star_s
    → Later star_p star_s
    → (t : Str) × (v : Str) × (s ≡ v ++ t) × (1 ≤ length v) × Matches p t
Tied-Later {p} {s} {star_p} {star_s} tied l =
    let (u, t, eq, positive, m) = Later-suffix star_s l in
    let (t', begins, m') =
      Matches-append tied.lits tied.plain (subst (λ k. Matches k t) tied.pattern_eq m) in
    let whole : tied.lits ++ s ≡ (u ++ tied.lits) ++ t' =
      sym tied.input_eq ∙ eq ∙ ap (λ k. u ++ k) begins ∙ sym (append_assoc u tied.lits t') in
    let (v, rest) =
      append_cut tied.lits s (u ++ tied.lits) t' whole (omega (arith, length-append u tied.lits)) in
    (
      t',
      v,
      rest,
      omega (
        arith,
        ap length whole,
        ap length rest,
        length-append tied.lits s,
        length-append (u ++ tied.lits) t',
        length-append u tied.lits,
        length-append v t',
      ),
      m',
    )

-- At the end of the input the backtracking point is of no more use.
pub at_end : (p : Str) (b : Backtrack) → IsTied p [] b → ¬ Resumes b
at_end p none tied l = l
at_end p (some (star_p, star_s)) tied l =
    let (t, v, eq, positive, m) = Tied-Later tied l in
    absurd (omega (arith, ap length eq, length-append v t))

-- A `*` in the pattern makes the older backtracking point superfluous.
pub at_star :
    (x : ℕ) (p s : Str) (b : Backtrack)
    → x ≡ star
    → IsTied (x ∷ p) s b
    → CanMatch (x ∷ p) s b ↔ CanMatch p s (some (p, s))
at_star x p s none e tied = (
  elim [ inl m ↦ Matches-star e m | inr l ↦ absurd l ],
  elim [ inl m ↦ inl (skip e m) | inr l ↦ inl (star-Matches p s e l) ],
)
at_star x p s (some (star_p, star_s)) e tied = (
  elim [
    | inl m ↦ Matches-star e m
    | inr l ↦
        let (t, v, eq, positive, m) = Tied-Later tied l in
        Matches-star e (rw eq (star-append v e m))
  ],
  elim [ inl m ↦ inl (skip e m) | inr l ↦ inl (star-Matches p s e l) ],
)

-- A literal character is matched without a choice.
pub at_literal :
    (x : ℕ) (p s : Str) (b : Backtrack) → x ≢ star → CanMatch (x ∷ p) (x ∷ s) b ↔ CanMatch p s b
at_literal x p s b ne = (
  elim [ inl m ↦ inl (Matches-literal ne m).1 | inr l ↦ inr l ],
  elim [ inl m ↦ inl (literal ne m) | inr l ↦ inr l ],
)

pub Tied-literal :
    (x : ℕ) (p s : Str) (b : Backtrack) → x ≢ star → IsTied (x ∷ p) (x ∷ s) b → IsTied p s b
Tied-literal x p s none ne tied = tt
Tied-literal x p s (some (star_p, star_s)) ne tied = record {
  lits = tied.lits ++ x ∷ [];
  plain = All-concat (λ c. c ≢ star) tied.lits tied.plain ne;
  pattern_eq = tied.pattern_eq ∙ sym (append_assoc tied.lits (x ∷ []) p);
  input_eq = tied.input_eq ∙ sym (append_assoc tied.lits (x ∷ []) s);
}

-- Where the loop cannot go on it is the backtracking point that decides.
pub at_backtrack :
    (p : Str) (c : ℕ) (s star_p star_s : Str)
    → ¬ Matches p (c ∷ s)
    → Tied p (c ∷ s) star_p star_s
    → CanMatch p (c ∷ s) (some (star_p, star_s))
      ↔ CanMatch star_p (drop 1 star_s) (some (star_p, drop 1 star_s))
at_backtrack p c s star_p [] stuck tied =
    absurd (omega (arith, ap length tied.input_eq, length-append tied.lits (c ∷ s)))
at_backtrack p c s star_p (d ∷ star_s) stuck tied =
    (elim [ inl m ↦ absurd (stuck m) | inr l ↦ l ], λ l. inr l)

pub Tied-refl : (p s : Str) → Tied p s p s
Tied-refl p s = record { lits = []; plain = tt; pattern_eq = refl; input_eq = refl }

-- What the loop answers is whether the state can match.
abbrev pub Decides : Bool → Str → Str → Backtrack → Type 0
Decides r p s b = (r ≡ true) ↔ CanMatch p s b

pub ↔_trans : {A B C : Type 0} → A ↔ B → B ↔ C → A ↔ C
↔_trans f g = (λ a. g.0 (f.0 a), λ c. f.1 (g.1 c))

pub ↔_sym : {A B : Type 0} → A ↔ B → B ↔ A
↔_sym f = (f.1, f.0)
