-- ===== src/Common/Decimal.antt =====
-- Decimal numbers are read back as they were printed.
use Prim.Native.Nat.{ℕ, zero, suc, ◌+◌, ◌/◌, ◌%◌, ◌≤◌}
use mathlib.Core.Path.{◌≡◌, refl, ◌∙◌}
use mathlib.Core.Logic.{◌≢◌}
use mathlib.Core.Bool.{true}
use mathlib.Core.Option.{some}
use mathlib.Core.List.{[], ◌∷◌}
use native.Mathlib.Omega.{arith}
use hygress.Common.Lists.{All}
use hygress.Common.Text.{Str, is_digit, digits_value, parse_uint, show_digits, show_uint}

digits_value-show_digits :
    (f n : ℕ) (rest : Str) → n ≤ f → digits_value 0 (show_digits f n rest) ≡ digits_value n rest
unfolding show_digits digits_value
digits_value-show_digits zero n rest h = ground arith
digits_value-show_digits (suc f) n rest h =
    ground (arith, digits_value-show_digits f (n / 10) ((48 + n % 10) ∷ rest))

-- What is printed is made of digits.
abbrev pub AllDigits : Str → Type 0
AllDigits s = All (λ c. is_digit c ≡ true) s

show_digits-AllDigits : (f n : ℕ) (rest : Str) → AllDigits rest → AllDigits (show_digits f n rest)
unfolding show_digits is_digit
show_digits-AllDigits zero n rest h = ground arith
show_digits-AllDigits (suc f) n rest h =
    ground (arith, show_digits-AllDigits f (n / 10) ((48 + n % 10) ∷ rest))

pub show_uint-AllDigits : (n : ℕ) → AllDigits (show_uint n)
unfolding show_uint
show_uint-AllDigits n = show_digits-AllDigits n n [] tt

show_digits-ne-nil : (f n : ℕ) (rest : Str) → show_digits f n rest ≢ []
unfolding show_digits
show_digits-ne-nil zero n rest = λ e. cc
show_digits-ne-nil (suc f) n rest =
    ground (arith, show_digits-ne-nil f (n / 10) ((48 + n % 10) ∷ rest))

pub show_uint-ne-nil : (n : ℕ) → show_uint n ≢ []
unfolding show_uint
show_uint-ne-nil n = show_digits-ne-nil n n []

digits_value-nil : (n : ℕ) → digits_value n [] ≡ some n
unfolding digits_value
digits_value-nil n = refl

parse_uint_of_digits :
    (bound n : ℕ) (s : Str)
    → AllDigits s
    → s ≢ []
    → digits_value 0 s ≡ some n
    → n ≤ bound
    → parse_uint bound s ≡ some n
unfolding parse_uint is_digit digits_value
parse_uint_of_digits bound n [] all ne v h = absurd (ne refl)
parse_uint_of_digits bound n (c ∷ s) all ne v h = ground arith

pub parse_uint-show_uint : (bound n : ℕ) → n ≤ bound → parse_uint bound (show_uint n) ≡ some n
unfolding show_uint
parse_uint-show_uint bound n h =
    parse_uint_of_digits bound n (show_uint n) (show_uint-AllDigits n) (show_uint-ne-nil n)
      (digits_value-show_digits n n [] (omega arith) ∙ digits_value-nil n) h
