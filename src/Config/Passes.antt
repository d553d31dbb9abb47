-- ===== src/Config/Passes.antt =====
-- The passes of the validation that only drop routes.
use hygress.Common.{
  ◌≡◌, refl, ℕ, zero, suc, ◌≤◌, ◌<◌, List, [], ◌∷◌, Bool, true, false, ◌&&◌, ◌||◌, ◌==◌, length,
  All, arith, Bool-cases, inl, inr,
}
use hygress.Route.{RouteRule, mirror, kind_eq}
use hygress.Config.{dangling, first_mirror_only, cascade_pass, cascade}

-- No earlier route of the list passes the test with a later one.
abbrev pub HasNoPair : (RouteRule → RouteRule → Bool) → List RouteRule → Type 0
HasNoPair test [] = Unit
HasNoPair test (r ∷ rs) = All (λ q. test r q ≡ false) rs × HasNoPair test rs

-- What some passes have left of a list.
pub data Sublist : List RouteRule → List RouteRule → Type 0 where
  done : Sublist [] []
  keep : (r : RouteRule) {xs ys : List RouteRule} → Sublist xs ys → Sublist (r ∷ xs) (r ∷ ys)
  skip : (r : RouteRule) {xs ys : List RouteRule} → Sublist xs ys → Sublist xs (r ∷ ys)

pub All-Sublist :
    (P : RouteRule → Type 0) {xs ys : List RouteRule} → Sublist xs ys → All P ys → All P xs
All-Sublist P done h = tt
All-Sublist P (keep r s) (p, h) = (p, All-Sublist P s h)
All-Sublist P (skip r s) (p, h) = All-Sublist P s h

pub HasNoPair-Sublist :
    (test : RouteRule → RouteRule → Bool) {xs ys : List RouteRule}
    → Sublist xs ys
    → HasNoPair test ys
    → HasNoPair test xs
HasNoPair-Sublist test done h = tt
HasNoPair-Sublist test (keep r s) (p, h) =
    (All-Sublist (λ q. test r q ≡ false) s p, HasNoPair-Sublist test s h)
HasNoPair-Sublist test (skip r s) (p, h) = HasNoPair-Sublist test s h

Sublist-refl : (xs : List RouteRule) → Sublist xs xs
Sublist-refl [] = done
Sublist-refl (x ∷ xs) = keep x (Sublist-refl xs)

pub Sublist-trans : {xs ys zs : List RouteRule} → Sublist xs ys → Sublist ys zs → Sublist xs zs
Sublist-trans s done = s
Sublist-trans (keep r s) (keep _ t) = keep r (Sublist-trans s t)
Sublist-trans (skip _ s) (keep r t) = skip r (Sublist-trans s t)
Sublist-trans s (skip r t) = skip r (Sublist-trans s t)

pub length-Sublist : {xs ys : List RouteRule} → Sublist xs ys → length xs ≤ length ys
length-Sublist done = omega arith
length-Sublist (keep r s) = omega (arith, length-Sublist s)
length-Sublist (skip r s) = omega (arith, length-Sublist s)

-- The passes only drop routes.
pub first_mirror_only-Sublist :
    (b : Bool) (rs : List RouteRule) → Sublist (first_mirror_only b rs).0 rs
unfolding first_mirror_only
first_mirror_only-Sublist b [] = done
first_mirror_only-Sublist b (r ∷ rs) =
    let rest = first_mirror_only-Sublist (b || kind_eq r.kind mirror) rs in
    elim (Bool-cases (kind_eq r.kind mirror && b)) [
      | inl drop ↦ rw drop (skip r rest)
      | inr stay ↦ rw stay (keep r rest)
    ]

pub cascade_pass-Sublist : (accepted rs : List RouteRule) → Sublist (cascade_pass accepted rs).0 rs
unfolding cascade_pass
cascade_pass-Sublist accepted [] = done
cascade_pass-Sublist accepted (r ∷ rs) =
    let rest = cascade_pass-Sublist accepted rs in
    elim (Bool-cases (dangling accepted r)) [
      | inl drop ↦ rw drop (skip r rest)
      | inr stay ↦ rw stay (keep r rest)
    ]

pub cascade-Sublist : (fuel : ℕ) (rs : List RouteRule) → Sublist (cascade fuel rs).0 rs
unfolding cascade
cascade-Sublist zero rs = Sublist-refl rs
cascade-Sublist (suc fuel) rs =
    let kept = cascade_pass rs rs in
    let passed = cascade_pass-Sublist rs rs in
    elim (Bool-cases (length kept.0 == length rs)) [
      | inl same ↦ rw same passed
      | inr less ↦ rw less (Sublist-trans (cascade-Sublist fuel kept.0) passed)
    ]

-- A pass that drops nothing found every route settled.
abbrev pub IsSettled : List RouteRule → RouteRule → Type 0
IsSettled routes r = dangling routes r ≡ false

cascade_pass-length :
    (accepted rs : List RouteRule)
    → length (cascade_pass accepted rs).0 ≡ length rs
    → All (IsSettled accepted) rs
unfolding cascade_pass
cascade_pass-length accepted [] h = tt
cascade_pass-length accepted (r ∷ rs) h =
    ground
      (arith, cascade_pass-length accepted rs, length-Sublist (cascade_pass-Sublist accepted rs))

pub cascade_pass_settled :
    (accepted rs : List RouteRule)
    → All (IsSettled accepted) rs
    → cascade_pass accepted rs ≡ (rs, [])
unfolding cascade_pass
cascade_pass_settled accepted [] h = refl
cascade_pass_settled accepted (r ∷ rs) (p, h) = rw p (rw (cascade_pass_settled accepted rs h) refl)

-- The bound of the loop is enough for its fixpoint.
pub cascade-IsSettled :
    (fuel : ℕ) (rs : List RouteRule)
    → length rs < fuel
    → All (IsSettled (cascade fuel rs).0) (cascade fuel rs).0
unfolding cascade
cascade-IsSettled zero rs h = absurd (omega arith)
cascade-IsSettled (suc fuel) rs h =
    let kept = cascade_pass rs rs in
    elim (Bool-cases (length kept.0 == length rs)) [
      | inl same ↦
          let settled = cascade_pass-length rs rs (ground arith) in
          rw same (rw (cascade_pass_settled rs rs settled) settled)
      | inr less ↦
          let shorter = length-Sublist (cascade_pass-Sublist rs rs) in
          rw less (cascade-IsSettled fuel kept.0 (ground arith))
    ]

abbrev pub both_mirrors : RouteRule → RouteRule → Bool
both_mirrors r q = kind_eq r.kind mirror && kind_eq q.kind mirror

abbrev MirrorFree : List RouteRule → Type 0
MirrorFree rs = All (λ q. kind_eq q.kind mirror ≡ false) rs

first_mirror_only-MirrorFree : (rs : List RouteRule) → MirrorFree (first_mirror_only true rs).0
unfolding first_mirror_only
first_mirror_only-MirrorFree [] = tt
first_mirror_only-MirrorFree (r ∷ rs) = ground (arith, first_mirror_only-MirrorFree rs)

unpaired :
    (r : RouteRule) (qs : List RouteRule)
    → kind_eq r.kind mirror ≡ false
    → All (λ q. both_mirrors r q ≡ false) qs
unpaired r [] h = tt
unpaired r (q ∷ qs) h = (ground arith, unpaired r qs h)

MirrorFree-unpaired :
    (r : RouteRule) (qs : List RouteRule) → MirrorFree qs → All (λ q. both_mirrors r q ≡ false) qs
MirrorFree-unpaired r [] h = tt
MirrorFree-unpaired r (q ∷ qs) (p, h) = (ground arith, MirrorFree-unpaired r qs h)

unpaired-MirrorFree :
    (r : RouteRule) (qs : List RouteRule)
    → kind_eq r.kind mirror ≡ true
    → All (λ q. both_mirrors r q ≡ false) qs
    → MirrorFree qs
unpaired-MirrorFree r [] m h = tt
unpaired-MirrorFree r (q ∷ qs) m (p, h) = (ground arith, unpaired-MirrorFree r qs m h)

pub first_mirror_only-HasNoPair :
    (b : Bool) (rs : List RouteRule) → HasNoPair both_mirrors (first_mirror_only b rs).0
unfolding first_mirror_only
first_mirror_only-HasNoPair b [] = tt
first_mirror_only-HasNoPair true (r ∷ rs) = elim (Bool-cases (kind_eq r.kind mirror)) [
  | inl m ↦ rw m (first_mirror_only-HasNoPair true rs)
  | inr o ↦ rw o (unpaired r (first_mirror_only true rs).0 o, first_mirror_only-HasNoPair true rs)
]
first_mirror_only-HasNoPair false (r ∷ rs) = elim (Bool-cases (kind_eq r.kind mirror)) [
  | inl m ↦ rw m (
    MirrorFree-unpaired r (first_mirror_only true rs).0 (first_mirror_only-MirrorFree rs),
    first_mirror_only-HasNoPair true rs,
  )
  | inr o ↦ rw o (unpaired r (first_mirror_only false rs).0 o, first_mirror_only-HasNoPair false rs)
]

first_mirror_only_free :
    (b : Bool) (rs : List RouteRule) → MirrorFree rs → first_mirror_only b rs ≡ (rs, [])
unfolding first_mirror_only
first_mirror_only_free b [] h = refl
first_mirror_only_free false (r ∷ rs) (p, h) = rw p (rw (first_mirror_only_free false rs h) refl)
first_mirror_only_free true (r ∷ rs) (p, h) = rw p (rw (first_mirror_only_free true rs h) refl)

pub first_mirror_only_settled :
    (rs : List RouteRule) → HasNoPair both_mirrors rs → first_mirror_only false rs ≡ (rs, [])
unfolding first_mirror_only
first_mirror_only_settled [] h = refl
first_mirror_only_settled (r ∷ rs) (p, h) = elim (Bool-cases (kind_eq r.kind mirror)) [
  | inl m ↦ rw m (rw (first_mirror_only_free true rs (unpaired-MirrorFree r rs m p)) refl)
  | inr o ↦ rw o (rw (first_mirror_only_settled rs h) refl)
]
