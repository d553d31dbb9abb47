-- ===== src/Common/Dict.antt =====
-- A hash map as a list of its entries, each key at most once.
use hygress.Common.Tests.{Eq, beq_refl, if◌then◌else◌, Bool-cases}
use hygress.Common.Lists.{All, retain}
use mathlib.Core.Path.{◌≡◌, refl}
use mathlib.Core.Logic.{◌≢◌, inl, inr}
use mathlib.Core.Bool.{Bool}
use mathlib.Core.Option
use mathlib.Core.Option.{Option, none, some}
use mathlib.Core.List.{List, [], ◌∷◌}
use native.Mathlib.Omega.{arith}

-- What `retain` keeps of the entry at a key.
abbrev pub kept {ℓ} : {V : Type ℓ} → (V → Bool) → Option V → Option V
kept p none = none
kept p (some v) = if p v then some v else none

module _ {K V : Type 0} ⦃e : Eq K⦄ where
  unfoldable pub lookup : K → List (K × V) → Option V
  lookup key ((j, w) ∷ rest) = if e.beq j key then some w else lookup key rest
  lookup key [] = none

  unfoldable pub insert : K → V → List (K × V) → List (K × V)
  insert key new ((j, w) ∷ rest) =
      if e.beq j key then (key, new) ∷ rest else (j, w) ∷ insert key new rest
  insert key new [] = (key, new) ∷ []

  -- `entry(k).or_insert(v)` where the entry is not changed.
  unfoldable pub or_insert : K → V → List (K × V) → List (K × V)
  or_insert k v [] = (k, v) ∷ []
  or_insert k v ((j, w) ∷ m) = if e.beq j k then (j, w) ∷ m else (j, w) ∷ or_insert k v m

  -- A write through `get_mut(k)`.
  unfoldable pub modify : K → (V → V) → List (K × V) → List (K × V)
  modify k f [] = []
  modify k f ((j, w) ∷ m) = if e.beq j k then (j, f w) ∷ m else (j, w) ∷ modify k f m

  unfoldable pub remove : K → List (K × V) → List (K × V)
  remove k [] = []
  remove k ((j, w) ∷ m) = if e.beq j k then remove k m else (j, w) ∷ remove k m

  abbrev pub Lacks : K → List (K × V) → Type 0
  Lacks k m = All (λ p. p.0 ≢ k) m

  -- No key stands twice.
  abbrev pub HasDistinctKeys : List (K × V) → Type 0
  HasDistinctKeys [] = Unit
  HasDistinctKeys ((k, v) ∷ m) = Lacks k m × HasDistinctKeys m

  pub lookup-insert :
      (key asked : K) (new : V) (entries : List (K × V))
      → lookup asked (insert key new entries)
        ≡ (if e.beq key asked then some new else lookup asked entries)
  unfolding lookup insert
  lookup-insert key asked new ((i, w) ∷ rest) = ground (
    arith,
    e.beq_iff i asked,
    e.beq_iff i key,
    e.beq_iff key asked,
    lookup-insert key asked new rest,
  )
  lookup-insert key asked new [] = refl

  pub lookup-insert_self : (k : K) (v : V) (m : List (K × V)) → lookup k (insert k v m) ≡ some v
  lookup-insert_self k v m = ground (arith, lookup-insert k k v m, beq_refl e k)

  pub lookup-or_insert :
      (k j : K) (v : V) (m : List (K × V))
      → lookup j (or_insert k v m)
        ≡ elim (lookup j m) [ some w ↦ some w | none ↦ if e.beq k j then some v else none ]
  unfolding lookup or_insert
  lookup-or_insert k j v [] = refl
  lookup-or_insert k j v ((i, w) ∷ m) =
      ground (arith, e.beq_iff k j, e.beq_iff i k, e.beq_iff i j, lookup-or_insert k j v m)

  pub lookup-modify :
      (k j : K) (f : V → V) (m : List (K × V))
      → lookup j (modify k f m) ≡ (if e.beq k j then Option.map f (lookup j m) else lookup j m)
  unfolding lookup modify
  lookup-modify k j f [] = ground arith
  lookup-modify k j f ((i, w) ∷ m) =
      ground (arith, e.beq_iff k j, e.beq_iff i k, e.beq_iff i j, lookup-modify k j f m)

  pub lookup-remove :
      (k j : K) (m : List (K × V))
      → lookup j (remove k m) ≡ (if e.beq k j then none else lookup j m)
  unfolding lookup remove
  lookup-remove k j [] = ground arith
  lookup-remove k j ((i, w) ∷ m) =
      ground (arith, e.beq_iff k j, e.beq_iff i k, e.beq_iff i j, lookup-remove k j m)

  pub lookup_of_Lacks : (k : K) (m : List (K × V)) → Lacks k m → lookup k m ≡ none
  unfolding lookup
  lookup_of_Lacks k [] h = refl
  lookup_of_Lacks k ((j, w) ∷ m) (ne, h) = ground (arith, e.beq_iff j k, lookup_of_Lacks k m h)

  pub Lacks-insert :
      (j k : K) (v : V) (m : List (K × V)) → Lacks j m → k ≢ j → Lacks j (insert k v m)
  unfolding insert
  Lacks-insert j k v [] h ne = (ne, tt)
  Lacks-insert j k v ((i, w) ∷ m) (a, h) ne =
      ground (arith, e.beq_iff i k, Lacks-insert j k v m h ne)

  pub insert-HasDistinctKeys :
      (k : K) (v : V) (m : List (K × V)) → HasDistinctKeys m → HasDistinctKeys (insert k v m)
  unfolding insert
  insert-HasDistinctKeys k v [] h = (tt, tt)
  insert-HasDistinctKeys k v ((i, w) ∷ m) (a, h) = elim (Bool-cases (e.beq i k)) [
    | inl same ↦ rw same (rw (← (e.beq_iff i k).0 same) a, h)
    | inr other ↦ rw other (
      Lacks-insert i k v m a (λ q. ground (arith, e.beq_iff i k)),
      insert-HasDistinctKeys k v m h,
    )
  ]

  Lacks-modify : (j k : K) (f : V → V) (m : List (K × V)) → Lacks j m → Lacks j (modify k f m)
  unfolding modify
  Lacks-modify j k f [] h = tt
  Lacks-modify j k f ((i, w) ∷ m) (a, h) = ground (arith, Lacks-modify j k f m h)

  pub modify-HasDistinctKeys :
      (k : K) (f : V → V) (m : List (K × V)) → HasDistinctKeys m → HasDistinctKeys (modify k f m)
  unfolding modify
  modify-HasDistinctKeys k f [] h = tt
  modify-HasDistinctKeys k f ((i, w) ∷ m) (a, h) =
      ground (arith, Lacks-modify i k f m a, modify-HasDistinctKeys k f m h)

  Lacks-retain : (k : K) (p : (K × V) → Bool) (m : List (K × V)) → Lacks k m → Lacks k (retain p m)
  Lacks-retain k p [] h = tt
  Lacks-retain k p ((i, w) ∷ m) (a, h) = ground (arith, Lacks-retain k p m h)

  pub retain-HasDistinctKeys :
      (p : (K × V) → Bool) (m : List (K × V)) → HasDistinctKeys m → HasDistinctKeys (retain p m)
  retain-HasDistinctKeys p [] h = tt
  retain-HasDistinctKeys p ((i, w) ∷ m) (a, h) =
      ground (arith, Lacks-retain i p m a, retain-HasDistinctKeys p m h)

  pub lookup-retain :
      (k : K) (p : V → Bool) (m : List (K × V))
      → HasDistinctKeys m
      → lookup k (retain (λ q. p q.1) m) ≡ kept p (lookup k m)
  unfolding lookup
  lookup-retain k p [] h = refl
  lookup-retain k p ((i, w) ∷ m) (a, h) = elim (Bool-cases (e.beq i k)) [
    | inl same ↦
        let gone =
          lookup_of_Lacks k (retain (λ q. p q.1) m)
            (Lacks-retain k (λ q. p q.1) m (rw ((e.beq_iff i k).0 same) at a)) in
        ground arith
    | inr other ↦ ground (arith, lookup-retain k p m h)
  ]
