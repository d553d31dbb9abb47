-- ===== src/Common/Words.antt =====
-- Unsigned machine words: their largest values, and the saturating operations of Rust.
use Prim.Native.Nat.{ℕ, ◌+◌, ◌*◌, min}

abbrev pub u16_max : ℕ
u16_max = 65535

abbrev pub u32_max : ℕ
u32_max = 4294967295

abbrev pub u64_max : ℕ
u64_max = 18446744073709551615

-- `u64::saturating_add`, `u64::saturating_mul`; `u64::saturating_sub` is `-` on ℕ.
abbrev pub saturating_add : ℕ → ℕ → ℕ
saturating_add a b = min (a + b) u64_max

abbrev pub saturating_mul : ℕ → ℕ → ℕ
saturating_mul a b = min (a * b) u64_max
