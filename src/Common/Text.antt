-- ===== src/Common/Text.antt =====
-- Text as the list of its Unicode scalar values, with the operations of Rust's `str` that the
-- source uses: positions found by `find` and `rfind` are used only to cut the text there, so
-- the searches return the two parts.
use Prim.Native.Nat.{ℕ, zero, suc, ◌+◌, ◌-◌, ◌*◌, ◌/◌, ◌%◌}
use Prim.Native.Char.{code}
use Prim.Native.String.{String}
use mathlib.Core.Path.{◌≡◌, refl}
use mathlib.Core.Logic.{◌↔◌}
use mathlib.Core.Bool.{Bool, true, false, ◌&&◌, ◌||◌}
use mathlib.Core.Option.{Option, none, some}
use mathlib.Core.List.{List, [], ◌∷◌}
use native.Mathlib.Omega.{arith}
use hygress.Common.Tests.{ltb, leb, ◌==◌, if◌then◌else◌, Eq}
use hygress.Common.Lists.{is_empty}

abbrev pub Str : Type 0
Str = List ℕ

-- The scalar values of a literal.
abbrev pub codes : String → Str
codes String.[] = []
codes (String.◌∷◌ c s) = code c ∷ codes s

unfoldable pub str_eq : Str → Str → Bool
str_eq [] [] = true
str_eq (a ∷ s) (b ∷ t) = a == b && str_eq s t
str_eq [] (_ ∷ _) = false
str_eq (_ ∷ _) [] = false

pub str_eq_iff : (s t : Str) → (str_eq s t ≡ true) ↔ (s ≡ t)
unfolding str_eq
str_eq_iff [] [] = ground arith
str_eq_iff [] (b ∷ t) = ground arith
str_eq_iff (a ∷ s) [] = ground arith
str_eq_iff (a ∷ s) (b ∷ t) = ground (arith, str_eq_iff s t)

instance abbrev pub text_eq : Eq Str
text_eq = record { beq = str_eq; beq_iff = str_eq_iff }

pub str_eq_refl : (s : Str) → str_eq s s ≡ true
str_eq_refl s = (str_eq_iff s s).1 refl

unfoldable pub starts_with : Str → Str → Bool
starts_with [] s = true
starts_with (_ ∷ _) [] = false
starts_with (p ∷ ps) (c ∷ s) = p == c && starts_with ps s

-- `strip_prefix`, with the prefix first.
unfoldable pub strip_prefix : Str → Str → Option Str
strip_prefix [] s = some s
strip_prefix (_ ∷ _) [] = none
strip_prefix (p ∷ ps) (c ∷ s) = if p == c then strip_prefix ps s else none

abbrev prepend : ℕ → Option (Str × Str) → Option (Str × Str)
prepend c none = none
prepend c (some (a, b)) = some (c ∷ a, b)

-- `s.find(c)`: the text before the first `c` and the text after it.
unfoldable pub split_once : ℕ → Str → Option (Str × Str)
split_once c [] = none
split_once c (x ∷ s) = if x == c then some ([], s) else prepend x (split_once c s)

-- `s.rfind(c)`: the text before the last `c` and the text after it.
abbrev or_here : ℕ → ℕ → Str → Option (Str × Str) → Option (Str × Str)
or_here c x s none = if x == c then some ([], s) else none
or_here c x s (some (a, b)) = some (x ∷ a, b)

unfoldable pub rsplit_once : ℕ → Str → Option (Str × Str)
rsplit_once c [] = none
rsplit_once c (x ∷ s) = or_here c x s (rsplit_once c s)

abbrev found_at : Str → ℕ → Option Str → Option (Str × Str) → Option (Str × Str)
found_at p x (some rest) later = some ([], rest)
found_at p x none later = prepend x later

-- `s.find(p)` for a text `p`: the text before its first occurrence and the text after it.
unfoldable pub split_once_str : Str → Str → Option (Str × Str)
unfolding strip_prefix
split_once_str p [] = found_at p 0 (strip_prefix p []) none
split_once_str p (x ∷ s) = found_at p x (strip_prefix p (x ∷ s)) (split_once_str p s)

abbrev cons_head : ℕ → List Str → List Str
cons_head x [] = (x ∷ []) ∷ []
cons_head x (p ∷ ps) = (x ∷ p) ∷ ps

-- `s.split(c)`.
unfoldable pub split : ℕ → Str → List Str
split c [] = [] ∷ []
split c (x ∷ s) = let rest = split c s in if x == c then [] ∷ rest else cons_head x rest

-- `char::is_whitespace`: the code points with the property White_Space.
unfoldable pub is_whitespace : ℕ → Bool
is_whitespace c =
    leb 9 c && leb c 13
    || c == 32
    || c == 0x85
    || c == 0xa0
    || c == 0x1680
    || leb 0x2000 c && leb c 0x200a
    || c == 0x2028
    || c == 0x2029
    || c == 0x202f
    || c == 0x205f
    || c == 0x3000

unfoldable pub trim_start : Str → Str
trim_start [] = []
trim_start (c ∷ s) = if is_whitespace c then trim_start s else c ∷ s

abbrev pub keep_end : Bool → ℕ → Str → Str
keep_end blank c r = if blank && is_empty r then [] else c ∷ r

unfoldable pub trim_end : Str → Str
trim_end [] = []
trim_end (c ∷ s) = keep_end (is_whitespace c) c (trim_end s)

unfoldable pub trim : Str → Str
unfolding trim_start trim_end
trim s = trim_end (trim_start s)

abbrev pub ascii_lower : ℕ → ℕ
ascii_lower c = if leb 65 c && leb c 90 then c + 32 else c

unfoldable pub to_ascii_lowercase : Str → Str
to_ascii_lowercase [] = []
to_ascii_lowercase (c ∷ s) = ascii_lower c ∷ to_ascii_lowercase s

unfoldable pub is_digit : ℕ → Bool
is_digit c = leb 48 c && leb c 57

unfoldable pub digits_value : ℕ → Str → Option ℕ
unfolding is_digit
digits_value acc [] = some acc
digits_value acc (c ∷ s) = if is_digit c then digits_value (acc * 10 + (c - 48)) s else none

abbrev pub at_most : ℕ → Option ℕ → Option ℕ
at_most bound none = none
at_most bound (some n) = if leb n bound then some n else none

abbrev pub without_plus : Str → Str
without_plus [] = []
without_plus (c ∷ s) = if c == 43 then s else c ∷ s

-- `parse::<uN>()` for an unsigned type whose largest value is `bound`: one leading `+` may stand,
-- then at least one decimal digit, and the value fits.
unfoldable pub parse_uint : ℕ → Str → Option ℕ
unfolding digits_value
parse_uint bound s =
    let body = without_plus s in if is_empty body then none else at_most bound (digits_value 0 body)

-- The text of `format!("{n}")`; the fuel `n` is enough, since a quotient by ten is smaller.
unfoldable pub show_digits : ℕ → ℕ → Str → Str
show_digits zero n rest = (48 + n % 10) ∷ rest
show_digits (suc f) n rest =
    let longer = show_digits f (n / 10) ((48 + n % 10) ∷ rest) in
    if ltb n 10 then (48 + n) ∷ rest else longer

unfoldable pub show_uint : ℕ → Str
unfolding show_digits
show_uint n = show_digits n n []

abbrev strip_cr : Str → Str
strip_cr [] = []
strip_cr (c ∷ s) = if c == 13 && is_empty s then [] else c ∷ strip_cr s

-- What follows the last line feed is a line only where it is not empty, and keeps a `\r`.
abbrev line_ends : List Str → List Str
line_ends [] = []
line_ends (l ∷ []) = if is_empty l then [] else l ∷ []
line_ends (l ∷ m ∷ ls) = strip_cr l ∷ line_ends (m ∷ ls)

-- `s.lines()`.
unfoldable pub lines : Str → List Str
unfolding split
lines s = line_ends (split 10 s)

abbrev remove_or : ℕ → Option Str → (Str → Str) → Str → Str
remove_or x (some rest) remove s = remove rest
remove_or x none remove s = x ∷ remove s

-- `s.replace(p, "")` for a text `p` that is not empty; the fuel `length s` is enough.
unfoldable pub remove_text : ℕ → Str → Str → Str
unfolding strip_prefix
remove_text zero p s = s
remove_text (suc f) p [] = []
remove_text (suc f) p (x ∷ s) = remove_or x (strip_prefix p (x ∷ s)) (λ r. remove_text f p r) s

-- `s.ends_with(p)`, with the suffix first.
unfoldable pub ends_with : Str → Str → Bool
unfolding str_eq
ends_with p [] = str_eq p []
ends_with p (c ∷ s) = str_eq p (c ∷ s) || ends_with p s
