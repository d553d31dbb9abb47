-- ===== src/Common/Entries.antt =====
-- A vector of entries that is searched from its front, and changed in place.
use hygress.Common.Dict.{
  lookup, modify, Lacks, HasDistinctKeys, modify-HasDistinctKeys, lookup-modify, lookup_of_Lacks,
}
use hygress.Common.Tests.{Eq, if◌then◌else◌, Bool-cases, is_some}
use hygress.Common.Lists.{All}
use mathlib.Core.Path.{◌≡◌, refl}
use mathlib.Core.Logic.{◌≢◌, inl, inr}
use mathlib.Core.Bool.{true}
use mathlib.Core.Option.{Option, none, some}
use mathlib.Core.List.{List, [], ◌∷◌, ◌++◌}
use native.Mathlib.Omega.{arith}

-- What a write makes of the value that was there.
abbrev pub changed {ℓ} : {V : Type ℓ} → (V → V) → V → Option V → V
changed f new none = new
changed f new (some w) = f w

module _ {K V : Type 0} ⦃e : Eq K⦄ where
  -- `position` of the key, and `Vec::remove` there.
  unfoldable pub remove_first : K → List (K × V) → List (K × V)
  remove_first k [] = []
  remove_first k ((j, w) ∷ m) = if e.beq j k then m else (j, w) ∷ remove_first k m

  -- A write through `iter_mut().find(..)`, or a `push`.
  unfoldable pub upsert : K → (V → V) → V → List (K × V) → List (K × V)
  upsert k f new m = if is_some (lookup k m) then modify k f m else m ++ (k, new) ∷ []

  lookup-push :
      (k j : K) (v : V) (m : List (K × V))
      → lookup j (m ++ (k, v) ∷ [])
        ≡ elim (lookup j m) [ some w ↦ some w | none ↦ if e.beq k j then some v else none ]
  unfolding lookup
  lookup-push k j v [] = refl
  lookup-push k j v ((i, w) ∷ m) = ground (arith, lookup-push k j v m)

  lookup_same : (k j : K) (m : List (K × V)) → e.beq k j ≡ true → lookup k m ≡ lookup j m
  lookup_same k j m h = rw ((e.beq_iff k j).0 h) refl

  pub lookup-upsert :
      (k j : K) (f : V → V) (new : V) (m : List (K × V))
      → lookup j (upsert k f new m)
        ≡ (if e.beq k j then some (changed f new (lookup k m)) else lookup j m)
  unfolding upsert
  lookup-upsert k j f new m =
      ground (arith, lookup-push k j new m, lookup-modify k j f m, lookup_same k j m)

  Lacks-remove_first : (j k : K) (m : List (K × V)) → Lacks j m → Lacks j (remove_first k m)
  unfolding remove_first
  Lacks-remove_first j k [] h = tt
  Lacks-remove_first j k ((i, w) ∷ m) (a, h) = ground (arith, Lacks-remove_first j k m h)

  pub remove_first-HasDistinctKeys :
      (k : K) (m : List (K × V)) → HasDistinctKeys m → HasDistinctKeys (remove_first k m)
  unfolding remove_first
  remove_first-HasDistinctKeys k [] h = tt
  remove_first-HasDistinctKeys k ((i, w) ∷ m) (a, h) =
      ground (arith, Lacks-remove_first i k m a, remove_first-HasDistinctKeys k m h)

  pub lookup-remove_first :
      (k j : K) (m : List (K × V))
      → HasDistinctKeys m
      → lookup j (remove_first k m) ≡ (if e.beq k j then none else lookup j m)
  unfolding lookup remove_first
  lookup-remove_first k j [] h = ground arith
  lookup-remove_first k j ((i, w) ∷ m) (a, h) = ground (
    arith,
    e.beq_iff k j,
    e.beq_iff i k,
    e.beq_iff i j,
    lookup_of_Lacks i m a,
    lookup-remove_first k j m h,
  )

  lookup-Lacks : (k : K) (m : List (K × V)) → lookup k m ≡ none → Lacks k m
  unfolding lookup
  lookup-Lacks k [] h = tt
  lookup-Lacks k ((i, w) ∷ m) h = elim (Bool-cases (e.beq i k)) [
    | inl same ↦ absurd (ground arith)
    | inr other ↦ (λ q. ground (arith, e.beq_iff i k), lookup-Lacks k m (rw other at h))
  ]

  Lacks-push : (j k : K) (v : V) (m : List (K × V)) → Lacks j m → k ≢ j → Lacks j (m ++ (k, v) ∷ [])
  Lacks-push j k v [] h ne = (ne, tt)
  Lacks-push j k v ((i, w) ∷ m) (a, h) ne = (a, Lacks-push j k v m h ne)

  push-HasDistinctKeys :
      (k : K) (v : V) (m : List (K × V))
      → HasDistinctKeys m
      → Lacks k m
      → HasDistinctKeys (m ++ (k, v) ∷ [])
  push-HasDistinctKeys k v [] h l = (tt, tt)
  push-HasDistinctKeys k v ((i, w) ∷ m) (a, h) (ne, l) =
      (Lacks-push i k v m a (λ q. ne (ground arith)), push-HasDistinctKeys k v m h l)

  pub upsert-HasDistinctKeys :
      (k : K) (f : V → V) (new : V) (m : List (K × V))
      → HasDistinctKeys m
      → HasDistinctKeys (upsert k f new m)
  unfolding upsert
  upsert-HasDistinctKeys k f new m h =
      ground
        (arith, modify-HasDistinctKeys k f m h, push-HasDistinctKeys k new m h, lookup-Lacks k m)

  -- A property of every entry.
  module _ (P : K × V → Type 0) where
    pub All-remove_first : (k : K) (m : List (K × V)) → All P m → All P (remove_first k m)
    unfolding remove_first
    All-remove_first k [] h = tt
    All-remove_first k ((i, w) ∷ m) (a, h) = ground (arith, All-remove_first k m h)

    All-modify :
        (k : K) (f : V → V) (m : List (K × V))
        → ((j : K) (v : V) → P (j, v) → P (j, f v))
        → All P m
        → All P (modify k f m)
    unfolding modify
    All-modify k f [] keeps h = tt
    All-modify k f ((i, w) ∷ m) keeps (a, h) = ground (arith, keeps i w a, All-modify k f m keeps h)

    All-push : (k : K) (v : V) (m : List (K × V)) → P (k, v) → All P m → All P (m ++ (k, v) ∷ [])
    All-push k v [] p h = (p, tt)
    All-push k v ((i, w) ∷ m) p (a, h) = (a, All-push k v m p h)

    pub All-upsert :
        (k : K) (f : V → V) (new : V) (m : List (K × V))
        → ((j : K) (v : V) → P (j, v) → P (j, f v))
        → P (k, new)
        → All P m
        → All P (upsert k f new m)
    unfolding upsert
    All-upsert k f new m keeps p h = ground (arith, All-modify k f m keeps h, All-push k new m p h)
