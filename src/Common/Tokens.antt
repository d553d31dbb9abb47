-- ===== src/Common/Tokens.antt =====
-- Cutting a text at a character, trimming it and lowering its case, where nothing is to be
-- removed or changed.
use Prim.Native.Nat.{ℕ}
use mathlib.Core.Path.{◌≡◌, refl}
use mathlib.Core.Logic.{◌≢◌, ◌⊎◌}
use mathlib.Core.Bool.{false}
use mathlib.Core.Option.{none, some}
use mathlib.Core.List.{[], ◌∷◌, ◌++◌}
use native.Mathlib.Omega.{arith}
use hygress.Common.Tests.{leb}
use hygress.Common.Lists.{All, is_empty}
use hygress.Common.Text.{
  Str, split, split_once, rsplit_once, trim, trim_start, trim_end, is_whitespace,
  to_ascii_lowercase,
}

-- The character does not occur.
abbrev pub Without : ℕ → Str → Type 0
Without c s = All (λ d. d ≢ c) s

abbrev pub NoSpace : Str → Type 0
NoSpace s = All (λ d. is_whitespace d ≡ false) s

abbrev pub NoUpper : Str → Type 0
NoUpper s = All (λ d. (leb 65 d ≡ false) ⊎ (leb d 90 ≡ false)) s

pub split-single : (c : ℕ) (s : Str) → Without c s → split c s ≡ s ∷ []
unfolding split
split-single c [] h = refl
split-single c (d ∷ s) (ne, h) = ground (arith, split-single c s h)

pub split-append : (c : ℕ) (a b : Str) → Without c a → split c (a ++ c ∷ b) ≡ a ∷ split c b
unfolding split
split-append c [] b h = ground arith
split-append c (d ∷ a) b (ne, h) = ground (arith, split-append c a b h)

pub split_once-append : (c : ℕ) (a b : Str) → Without c a → split_once c (a ++ c ∷ b) ≡ some (a, b)
unfolding split_once
split_once-append c [] b h = ground arith
split_once-append c (d ∷ a) b (ne, h) = ground (arith, split_once-append c a b h)

pub split_once-none : (c : ℕ) (s : Str) → Without c s → split_once c s ≡ none
unfolding split_once
split_once-none c [] h = refl
split_once-none c (d ∷ s) (ne, h) = ground (arith, split_once-none c s h)

pub rsplit_once-none : (c : ℕ) (s : Str) → Without c s → rsplit_once c s ≡ none
unfolding rsplit_once
rsplit_once-none c [] h = refl
rsplit_once-none c (d ∷ s) (ne, h) = ground (arith, rsplit_once-none c s h)

pub rsplit_once-append :
    (c : ℕ) (a b : Str) → Without c b → rsplit_once c (a ++ c ∷ b) ≡ some (a, b)
unfolding rsplit_once
rsplit_once-append c [] b h = ground (arith, rsplit_once-none c b h)
rsplit_once-append c (d ∷ a) b h = ground (arith, rsplit_once-append c a b h)

trim_end-NoSpace : (s : Str) → NoSpace s → trim_end s ≡ s
unfolding trim_end
trim_end-NoSpace [] h = refl
trim_end-NoSpace (d ∷ s) (ne, h) = ground (arith, trim_end-NoSpace s h)

append-ne-nil : (a b : Str) → b ≢ [] → is_empty (a ++ b) ≡ false
append-ne-nil [] [] h = absurd (h refl)
append-ne-nil [] (x ∷ b) h = refl
append-ne-nil (y ∷ a) b h = refl

trim_end-append : (a b : Str) → NoSpace b → b ≢ [] → trim_end (a ++ b) ≡ a ++ b
unfolding trim_end
trim_end-append [] b h ne = trim_end-NoSpace b h
trim_end-append (d ∷ a) b h ne = ground (arith, trim_end-append a b h ne, append-ne-nil a b ne)

pub trim-NoSpace : (s : Str) → NoSpace s → trim s ≡ s
unfolding trim trim_start
trim-NoSpace [] h = trim_end-NoSpace [] tt
trim-NoSpace (d ∷ s) (ne, h) = rw (ne) (trim_end-NoSpace (d ∷ s) (ne, h))

-- A text that begins and ends with characters that are no spaces.
pub trim-append :
    (d : ℕ) (a b : Str)
    → is_whitespace d ≡ false
    → NoSpace b
    → b ≢ []
    → trim (d ∷ (a ++ b)) ≡ d ∷ (a ++ b)
unfolding trim trim_start
trim-append d a b first h ne = rw first (trim_end-append (d ∷ a) b h ne)

pub to_ascii_lowercase-NoUpper : (s : Str) → NoUpper s → to_ascii_lowercase s ≡ s
unfolding to_ascii_lowercase
to_ascii_lowercase-NoUpper [] h = refl
to_ascii_lowercase-NoUpper (d ∷ s) (ne, h) = ground (arith, to_ascii_lowercase-NoUpper s h)
