-- ===== src/External.antt =====
-- Crates that are not part of the repository, beside the regex crate: what the program calls of
-- them, as parameters of the models, with the behaviour that their documentation promises.
use hygress.Common.{
  Str, ℕ, suc, ◌≡◌, List, [], ◌∷◌, Option, none, some, Bool, ◌==◌, if◌then◌else◌, starts_with,
}

abbrev pub Bytes : Type 0
Bytes = List ℕ

-- `serde_json`: parsing, and the accessors of `Value` that are called. `get` answers only for an
-- object with the key.
pub record JsonEngine : Type 1 where
  pub Value : Type 0
  pub from_slice : Bytes → Option Value
  pub is_object : Value → Bool
  pub get : Value → Str → Option Value
  pub as_u64 : Value → Option ℕ

-- The `memchr` crate: `memchr::memchr` and `memchr::memmem::find`.
pub record Memchr : Type 0 where
  pub memchr : ℕ → Bytes → Option ℕ
  pub memmem : Bytes → Bytes → Option ℕ

abbrev pub next_index : Option ℕ → Option ℕ
next_index none = none
next_index (some i) = some (suc i)

-- The first index of a byte, and the first at which a text occurs.
abbrev pub index_of : ℕ → Bytes → Option ℕ
index_of b [] = none
index_of b (c ∷ s) = if c == b then some 0 else next_index (index_of b s)

abbrev pub index_of_text : Bytes → Bytes → Option ℕ
index_of_text p [] = if starts_with p [] then some 0 else none
index_of_text p (c ∷ s) = if starts_with p (c ∷ s) then some 0 else next_index (index_of_text p s)

-- Both searches give the first place.
pub record IsFirst (mem : Memchr) : Type 0 where
  pub memchr_first : (b : ℕ) (s : Bytes) → mem.memchr b s ≡ index_of b s
  pub memmem_first : (p s : Bytes) → mem.memmem p s ≡ index_of_text p s
