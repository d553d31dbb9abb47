-- ===== src/Common/Results.antt =====
-- Rust's `Result` and `Option` with the `?` operator as `do` blocks.
use mathlib.Core.Path.{◌≡◌, refl}
use mathlib.Core.Option.{Option, none, some}
use mathlib.Core.List.{List, [], ◌∷◌}
use mathlib.Core.Bool.{Bool, true, false}

-- `hygress_core::error::Error`, by its variant. The message text is read by no code and left out.
pub data Error : Type 0 where
  parse_error invalid unknown : Error

pub data Result {ℓ κ} (E : Type ℓ) (A : Type κ) : Type (ℓ ⊔ κ) where
  ok : A → Result E A
  err : E → Result E A

infixl 5 ◌>>=◌ ◌>>◌
abbrev pub ◌>>=◌ {ℓ κ λ'} :
    {E : Type ℓ} {A : Type κ} {B : Type λ'} → Result E A → (A → Result E B) → Result E B
err e >>= next = err e
ok x >>= next = next x

abbrev pub ◌>>◌ {ℓ κ} : {E : Type ℓ} {B : Type κ} → Result E (Unit {0}) → Result E B → Result E B
r >> next = r >>= λ _. next

-- `if cond { return Err(e) }`.
abbrev pub fail_if {ℓ} : {E : Type ℓ} → Bool → E → Result E (Unit {0})
fail_if true e = err e
fail_if false e = ok tt

abbrev pub ok_or {ℓ κ} : {E : Type ℓ} {A : Type κ} → Option A → E → Result E A
ok_or none e = err e
ok_or (some a) e = ok a

-- `iter.map(f).collect::<Result<Vec<_>, _>>()`: the first error wins.
unfoldable pub collect {ℓ κ ι} :
    {E : Type ℓ} {A : Type κ} {B : Type ι} → (A → Result E B) → List A → Result E (List B)
collect f [] = ok []
collect f (x ∷ xs) = do y ← f x; ys ← collect f xs; ok (y ∷ ys)

-- What a chain that succeeds has gone through.
pub >>=-ok {ℓ κ ι} :
    {E : Type ℓ} {A : Type κ} {B : Type ι} (first : Result E A) (next : A → Result E B) {out : B}
    → first >>= next ≡ ok out
    → (mid : A) × (first ≡ ok mid) × (next mid ≡ ok out)
>>=-ok (err e) next failed = cc
>>=-ok (ok mid) next done = (mid, refl, done)
