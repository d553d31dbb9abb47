-- ===== src/Usage/Stream/Lines.antt =====
-- The lines of a stream, however it is cut.
use hygress.Common.{
  ◌≡◌, ◌≢◌, refl, ap, subst, ◌∙◌, ℕ, zero, suc, ◌≤◌, ◌<◌, List, [], ◌∷◌, ◌++◌, Option, none, some,
  Bool, false, ◌==◌, ◌||◌, if◌then◌else◌, length, take, drop, All, arith, Bool-cases, Option-cases,
  inl, inr,
}
use hygress.External.{Bytes, JsonEngine, Memchr, IsFirst, index_of, next_index}
use hygress.Usage.{UsageCounts, process_sse_line}
use hygress.Usage.Stream.{lines_loop, lines_of, max_tail_bytes}

abbrev onto : ℕ → List Bytes × Bytes → List Bytes × Bytes
onto b ([], rest) = ([], b ∷ rest)
onto b (l ∷ ls, rest) = ((b ∷ l) ∷ ls, rest)

-- The lines that a newline ends, and what follows the last newline.
unfoldable pub split_lines : Bytes → List Bytes × Bytes
split_lines [] = ([], [])
split_lines (b ∷ s) =
    let later = split_lines s in if b == 10 then ([] ∷ later.0, later.1) else onto b later

next_index-none : (o : Option ℕ) → next_index o ≡ none → o ≡ none
next_index-none none h = refl
next_index-none (some i) h = cc

next_index-some :
    (o : Option ℕ) (i : ℕ) → next_index o ≡ some i → (j : ℕ) × (o ≡ some j) × (i ≡ suc j)
next_index-some none i h = cc
next_index-some (some j) i h = (j, refl, cc)

some-ne-none : {i : ℕ} → some i ≢ none
some-ne-none h = cc

some-injective : {i j : ℕ} → some i ≡ some j → i ≡ j
some-injective h = cc

pub split_lines-none : (s : Bytes) → index_of 10 s ≡ none → split_lines s ≡ ([], s)
unfolding split_lines
split_lines-none [] h = refl
split_lines-none (b ∷ s) h = elim (Bool-cases (b == 10)) [
  | inl e ↦ absurd (some-ne-none (rw e at h))
  | inr e ↦
      let later : index_of 10 s ≡ none = next_index-none (index_of 10 s) (rw e at h) in
      rw e (rw (split_lines-none s later) refl)
]

pub split_lines-some :
    (s : Bytes) (i : ℕ)
    → index_of 10 s ≡ some i
    → (split_lines s
        ≡ (take i s ∷ (split_lines (drop (suc i) s)).0, (split_lines (drop (suc i) s)).1))
      × (length (drop (suc i) s) < length s)
unfolding split_lines
split_lines-some [] i h = cc
split_lines-some (b ∷ s) i h = elim (Bool-cases (b == 10)) [
  | inl e ↦ let at : 0 ≡ i = some-injective (rw e at h) in rw (← at) (rw e (refl, omega arith))
  | inr e ↦
      let (j, here, up) = next_index-some (index_of 10 s) i (rw e at h) in
      let later = split_lines-some s j here in
      rw up (rw e (rw later.0 refl, omega (arith, later.1)))
]

pub length-take_found : (c : Bytes) (i : ℕ) → index_of 10 c ≡ some i → length (take i c) ≡ i
length-take_found [] i h = cc
length-take_found (b ∷ c) i h = elim (Bool-cases (b == 10)) [
  | inl e ↦ let at : 0 ≡ i = some-injective (rw e at h) in rw (← at) refl
  | inr e ↦
      let (j, here, up) = next_index-some (index_of 10 c) i (rw e at h) in
      rw up (ap suc (length-take_found c j here))
]

-- A line that is pending, and a newline in what arrives.
pub split_lines-splice :
    (t c : Bytes) (i : ℕ)
    → index_of 10 t ≡ none
    → index_of 10 c ≡ some i
    → split_lines (t ++ c)
      ≡ ((t ++ take i c) ∷ (split_lines (drop (suc i) c)).0, (split_lines (drop (suc i) c)).1)
unfolding split_lines
split_lines-splice [] c i h e = (split_lines-some c i e).0
split_lines-splice (x ∷ t) c i h e = elim (Bool-cases (x == 10)) [
  | inl at ↦ absurd (some-ne-none (rw at at h))
  | inr at ↦
      rw at (rw (split_lines-splice t c i (next_index-none (index_of 10 t) (rw at at h)) e) refl)
]

pub split_lines-whole :
    (t c : Bytes)
    → index_of 10 t ≡ none
    → index_of 10 c ≡ none
    → split_lines (t ++ c) ≡ ([], t ++ c)
unfolding split_lines
split_lines-whole [] c h e = split_lines-none c e
split_lines-whole (x ∷ t) c h e = elim (Bool-cases (x == 10)) [
  | inl at ↦ absurd (some-ne-none (rw at at h))
  | inr at ↦
      rw at (rw (split_lines-whole t c (next_index-none (index_of 10 t) (rw at at h)) e) refl)
]

module _ (js : JsonEngine) (mem : Memchr) where
  abbrev pub judge : Bytes → UsageCounts × Bool → UsageCounts × Bool
  judge line r = let judged = process_sse_line js mem line r.0 in (judged.0, r.1 || judged.1)

  -- The lines one after the other.
  unfoldable pub judge_all : List Bytes → UsageCounts × Bool → UsageCounts × Bool
  judge_all [] r = r
  judge_all (l ∷ ls) r = judge_all ls (judge l r)

  pub judge_all-append :
      (ls ms : List Bytes) (r : UsageCounts × Bool)
      → judge_all (ls ++ ms) r ≡ judge_all ms (judge_all ls r)
  unfolding judge_all
  judge_all-append [] ms r = refl
  judge_all-append (l ∷ ls) ms r = judge_all-append ls ms (judge l r)

  -- The counts do not depend on the flag.
  pub judge_all-counts :
      (ls : List Bytes) (c : UsageCounts) (f g : Bool)
      → (judge_all ls (c, f)).0 ≡ (judge_all ls (c, g)).0
  unfolding judge_all
  judge_all-counts [] c f g = refl
  judge_all-counts (l ∷ ls) c f g =
      let judged = process_sse_line js mem l c in
      judge_all-counts ls judged.0 (f || judged.1) (g || judged.1)

  lines_loop-split_lines :
      IsFirst mem
      → (fuel : ℕ) (s : Bytes) (r : UsageCounts × Bool) → length s < fuel
      → lines_loop js mem fuel s r ≡ (judge_all (split_lines s).0 r, (split_lines s).1)
  unfolding lines_loop judge_all
  lines_loop-split_lines first zero s r h = absurd (omega arith)
  lines_loop-split_lines first (suc fuel) s r h = elim (Option-cases (index_of 10 s)) [
    | inl e ↦ rw (first.memchr_first 10 s) (rw e (rw (split_lines-none s e) refl))
    | inr (i, e) ↦
        let (cut, shorter) = split_lines-some s i e in
        rw (first.memchr_first 10 s) (
          rw e (
            rw cut (
              lines_loop-split_lines first fuel (drop (suc i) s) (judge (take i s) r)
                (omega (arith, shorter)))))
  ]

  pub lines_of-split_lines :
      IsFirst mem
      → (s : Bytes) (r : UsageCounts × Bool)
      → lines_of js mem s r ≡ (judge_all (split_lines s).0 r, (split_lines s).1)
  lines_of-split_lines first s r = lines_loop-split_lines first (suc (length s)) s r (omega arith)

onto-append :
    (x : ℕ) (r : List Bytes × Bytes) (b : Bytes)
    → (x == 10) ≡ false
    → onto x (r.0 ++ (split_lines (r.1 ++ b)).0, (split_lines (r.1 ++ b)).1)
      ≡ ((onto x r).0 ++ (split_lines ((onto x r).1 ++ b)).0, (split_lines ((onto x r).1 ++ b)).1)
unfolding split_lines
onto-append x ([], rest) b e = rw e refl
onto-append x (l ∷ ls, rest) b e = refl

-- What follows the last newline of one part stands before the next part.
pub split_lines-append :
    (a b : Bytes)
    → split_lines (a ++ b) ≡ (
      (split_lines a).0 ++ (split_lines ((split_lines a).1 ++ b)).0,
      (split_lines ((split_lines a).1 ++ b)).1,
    )
unfolding split_lines
split_lines-append [] b = refl
split_lines-append (x ∷ a) b = elim (Bool-cases (x == 10)) [
  | inl e ↦ rw e (rw (split_lines-append a b) refl)
  | inr e ↦ rw e (ap (onto x) (split_lines-append a b) ∙ onto-append x (split_lines a) b e)
]

-- No line is longer than the cap, nor is what follows the last newline.
abbrev pub IsShort : Bytes → Type 0
IsShort s =
    All (λ l. length l ≤ max_tail_bytes) (split_lines s).0
    × (length (split_lines s).1 ≤ max_tail_bytes)

All-of_append : (P : Bytes → Type 0) (ls ms : List Bytes) → All P (ls ++ ms) → All P ls × All P ms
All-of_append P [] ms h = (tt, h)
All-of_append P (l ∷ ls) ms (p, h) = let later = All-of_append P ls ms h in ((p, later.0), later.1)

abbrev head_part : List Bytes × Bytes → Bytes
head_part ([], rest) = rest
head_part (l ∷ ls, rest) = l

head_part-onto : (x : ℕ) (r : List Bytes × Bytes) → head_part (onto x r) ≡ x ∷ head_part r
head_part-onto x ([], rest) = refl
head_part-onto x (l ∷ ls, rest) = refl

onto-no_newline :
    (x : ℕ) (r : List Bytes × Bytes)
    → (x == 10) ≡ false
    → index_of 10 r.1 ≡ none
    → index_of 10 (onto x r).1 ≡ none
onto-no_newline x ([], rest) e h = rw e (rw h refl)
onto-no_newline x (l ∷ ls, rest) e h = h

pub no_newline_left : (s : Bytes) → index_of 10 (split_lines s).1 ≡ none
unfolding split_lines
no_newline_left [] = refl
no_newline_left (b ∷ s) = elim (Bool-cases (b == 10)) [
  | inl e ↦ rw e (no_newline_left s)
  | inr e ↦ rw e (onto-no_newline b (split_lines s) e (no_newline_left s))
]

length-head_part :
    (t s : Bytes) → index_of 10 t ≡ none → length t ≤ length (head_part (split_lines (t ++ s)))
unfolding split_lines
length-head_part [] s h = omega arith
length-head_part (x ∷ t) s h = elim (Bool-cases (x == 10)) [
  | inl e ↦ absurd (some-ne-none (rw e at h))
  | inr e ↦
      let later = length-head_part t s (next_index-none (index_of 10 t) (rw e at h)) in
      rw e (rw (head_part-onto x (split_lines (t ++ s))) (omega (arith, later)))
]

head_part-short :
    (r : List Bytes × Bytes)
    → All (λ l. length l ≤ max_tail_bytes) r.0
    → length r.1 ≤ max_tail_bytes
    → length (head_part r) ≤ max_tail_bytes
head_part-short ([], rest) h k = k
head_part-short (l ∷ ls, rest) (p, h) k = p

pub first-IsShort :
    (t s : Bytes) → index_of 10 t ≡ none → IsShort (t ++ s) → length t ≤ max_tail_bytes
first-IsShort t s h short =
    omega (arith, length-head_part t s h, head_part-short (split_lines (t ++ s)) short.0 short.1)

pub IsShort-append : (a b : Bytes) → IsShort (a ++ b) → IsShort a × IsShort ((split_lines a).1 ++ b)
IsShort-append a b h =
    let cut = split_lines-append a b in
    let lines : All (λ l. length l ≤ max_tail_bytes)
        ((split_lines a).0 ++ (split_lines ((split_lines a).1 ++ b)).0) =
      subst (λ r. All (λ l. length l ≤ max_tail_bytes) r.0) cut h.0 in
    let parts =
      All-of_append (λ l. length l ≤ max_tail_bytes) (split_lines a).0
        (split_lines ((split_lines a).1 ++ b)).0 lines in
    let rest : length (split_lines ((split_lines a).1 ++ b)).1 ≤ max_tail_bytes =
      subst (λ r. length r.1 ≤ max_tail_bytes) cut h.1 in
    let later : IsShort ((split_lines a).1 ++ b) = (parts.1, rest) in
    ((parts.0, first-IsShort (split_lines a).1 b (no_newline_left a) later), later)
