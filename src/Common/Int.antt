-- ===== src/Common/Int.antt =====
-- Signed integers over the native numbers.
use Prim.Native.Nat.{ℕ, suc, ◌+◌, ◌-◌, ◌%◌, ◌≤◌, ◌<◌}
use mathlib.Core.Path.{◌≡◌}
use mathlib.Core.Bool.{Bool}
use native.Mathlib.Omega.{arith}
use hygress.Common.Tests.{leb, ltb, if◌then◌else◌}

-- `negsuc n` is -(n + 1).
pub data ℤ : Type 0 where
  pos : ℕ → ℤ
  negsuc : ℕ → ℤ

abbrev pub pos_part : ℤ → ℕ
pos_part (pos n) = n
pos_part (negsuc n) = 0

abbrev pub neg_part : ℤ → ℕ
neg_part (pos n) = 0
neg_part (negsuc n) = suc n

-- a - b, as an integer.
abbrev pub sub_ℕ : ℕ → ℕ → ℤ
sub_ℕ a b = if leb b a then pos (a - b) else negsuc (b - a - 1)

infixl 65 ◌+ℤ◌ ◌-ℤ◌
infix 50 ◌≤ℤ◌ ◌<ℤ◌
unfoldable pub ◌+ℤ◌ : ℤ → ℤ → ℤ
a +ℤ b = sub_ℕ (pos_part a + pos_part b) (neg_part a + neg_part b)

unfoldable pub ◌-ℤ◌ : ℤ → ℤ → ℤ
a -ℤ b = sub_ℕ (pos_part a + neg_part b) (neg_part a + pos_part b)

abbrev pub ◌≤ℤ◌ : ℤ → ℤ → Type 0
a ≤ℤ b = pos_part a + neg_part b ≤ pos_part b + neg_part a

abbrev pub ◌<ℤ◌ : ℤ → ℤ → Type 0
a <ℤ b = suc (pos_part a + neg_part b) ≤ pos_part b + neg_part a

abbrev pub ltb_ℤ : ℤ → ℤ → Bool
ltb_ℤ a b = ltb (pos_part a + neg_part b) (pos_part b + neg_part a)

abbrev pub leb_ℤ : ℤ → ℤ → Bool
leb_ℤ a b = leb (pos_part a + neg_part b) (pos_part b + neg_part a)

-- `w as i32` for a `u32`.
abbrev pub as_i32 : ℕ → ℤ
as_i32 w = if ltb w 2147483648 then pos w else negsuc (4294967295 - w)

-- The `i32` that stands for an integer modulo 2 ^ 32.
unfoldable pub wrap_i32 : ℤ → ℤ
wrap_i32 (pos n) = as_i32 (n % 4294967296)
wrap_i32 (negsuc n) = as_i32 (4294967295 - n % 4294967296)

-- `+` and `-` on `i32`, which wrap around where the build has no overflow checks.
unfoldable pub add_i32 : ℤ → ℤ → ℤ
add_i32 a b = wrap_i32 (a +ℤ b)

unfoldable pub sub_i32 : ℤ → ℤ → ℤ
sub_i32 a b = wrap_i32 (a -ℤ b)

abbrev pub IsI32 : ℤ → Type 0
IsI32 a = (pos_part a < 2147483648) × (neg_part a ≤ 2147483648)

wrap_i32-IsI32 : (a : ℤ) → IsI32 a → wrap_i32 a ≡ a
unfolding wrap_i32
wrap_i32-IsI32 (pos n) h = ground arith
wrap_i32-IsI32 (negsuc n) h = ground arith

pub add_i32-IsI32 : (a b : ℤ) → IsI32 (a +ℤ b) → add_i32 a b ≡ a +ℤ b
unfolding add_i32
add_i32-IsI32 a b h = wrap_i32-IsI32 (a +ℤ b) h

pub sub_i32-IsI32 : (a b : ℤ) → IsI32 (a -ℤ b) → sub_i32 a b ≡ a -ℤ b
unfolding sub_i32
sub_i32-IsI32 a b h = wrap_i32-IsI32 (a -ℤ b) h

pub +ℤ-IsI32 :
    (a b : ℤ)
    → pos_part a + pos_part b < 2147483648
    → neg_part a + neg_part b ≤ 2147483648
    → IsI32 (a +ℤ b)
unfolding ◌+ℤ◌
+ℤ-IsI32 a b h k = (ground arith, ground arith)

pub -ℤ-IsI32 :
    (a b : ℤ)
    → pos_part a + neg_part b < 2147483648
    → neg_part a + pos_part b ≤ 2147483648
    → IsI32 (a -ℤ b)
unfolding ◌-ℤ◌
-ℤ-IsI32 a b h k = (ground arith, ground arith)

-- One lemma for each operation lets `omega` work with the operations shut, at any depth.
pub +ℤ_parts :
    (a b : ℤ)
    → pos_part (a +ℤ b) + neg_part a + neg_part b ≡ neg_part (a +ℤ b) + pos_part a + pos_part b
unfolding ◌+ℤ◌
+ℤ_parts a b = ground arith

pub -ℤ_parts :
    (a b : ℤ)
    → pos_part (a -ℤ b) + neg_part a + pos_part b ≡ neg_part (a -ℤ b) + pos_part a + neg_part b
unfolding ◌-ℤ◌
-ℤ_parts a b = ground arith

pub eq_of_parts : (a b : ℤ) → pos_part a + neg_part b ≡ pos_part b + neg_part a → a ≡ b
eq_of_parts a b h = ground arith

pub ruleset int_laws = (arith, +ℤ_parts, -ℤ_parts, eq_of_parts)
