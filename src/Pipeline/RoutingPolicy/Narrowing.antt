-- ===== src/Pipeline/RoutingPolicy/Narrowing.antt =====
-- A routing policy narrows the candidates.
use hygress.Common.{
  ◌≡◌, refl, subst, Str, str_eq, List, [], ◌∷◌, Option, none, some, Bool, true, false, is_empty,
  find, retain, All, arith, Bool-cases, inl, inr,
}
use hygress.Policy.{RoutePolicyActions}
use hygress.Policy.Glob.{pin_matches}
use hygress.Policy.Select.{pick_override}
use hygress.Pipeline.RoutingPolicy.{
  CandidateTarget, PreparedRequest, PolicyApply, no_apply, services, candidate_of, override_with,
  override_step, pin_with, pin_step, apply_policy,
}

some-injective : {A : Type 0} {a b : A} → some a ≡ some b → a ≡ b
some-injective h = cc

find-All :
    {Rest : Type 0} (P : CandidateTarget Rest → Type 0) (test : CandidateTarget Rest → Bool)
    (cs : List (CandidateTarget Rest)) (c : CandidateTarget Rest)
    → All P cs
    → find test cs ≡ some c
    → P c × (test c ≡ true)
find-All P test [] c h e = cc
find-All P test (d ∷ ds) c (p, h) e = elim (Bool-cases (test d)) [
  | inl hit ↦
      let same : d ≡ c = some-injective (rw hit at e) in
      subst (λ x. P x × (test x ≡ true)) same (p, hit)
  | inr miss ↦ find-All P test ds c h (rw miss at e)
]

retain-All :
    {Rest : Type 0} (P : CandidateTarget Rest → Type 0) (test : CandidateTarget Rest → Bool)
    (cs : List (CandidateTarget Rest))
    → All P cs
    → All P (retain test cs) × All (λ c. test c ≡ true) (retain test cs)
retain-All P test [] h = (tt, tt)
retain-All P test (c ∷ cs) (p, h) =
    let later = retain-All P test cs h in
    elim (Bool-cases (test c)) [ inl e ↦ rw e ((p, later.0), (e, later.1)) | inr e ↦ rw e later ]

-- Some candidates, all of them with the property.
abbrev pub HasOnly :
    {Rest : Type 0} → (CandidateTarget Rest → Type 0) → List (CandidateTarget Rest) → Type 0
HasOnly P cs = (is_empty cs ≡ false) × All P cs

-- The service names fit the pattern, where there is one.
abbrev pub Pinned : {Rest : Type 0} → Option Str → CandidateTarget Rest → Type 0
Pinned none c = ⊥
Pinned (some pattern) c = pin_matches pattern c.service_name ≡ true

candidate_of-P :
    {Rest : Type 0} (P : CandidateTarget Rest → Type 0) (cs : List (CandidateTarget Rest))
    (hit : Option Str) (c : CandidateTarget Rest)
    → All P cs
    → candidate_of cs hit ≡ some c
    → P c
candidate_of-P P cs none c h e = cc
candidate_of-P P cs (some hit) c h e = (find-All P (λ d. str_eq d.service hit) cs c h e).0

module _ {Rest Other : Type 0} (P : CandidateTarget Rest → Type 0) where
  override_with-HasOnly :
      (found : Option (CandidateTarget Rest)) (r : PreparedRequest Rest Other) (out : PolicyApply)
      → HasOnly P r.candidates
      → ((c : CandidateTarget Rest) → found ≡ some c → P c)
      → HasOnly P (override_with found r out).0.candidates
  override_with-HasOnly none r out h k = h
  override_with-HasOnly (some c) r out h k = (refl, (k c refl, tt))

  override_step-HasOnly :
      (actions : RoutePolicyActions) (target : Option Str) (r : PreparedRequest Rest Other)
      (out : PolicyApply)
      → HasOnly P r.candidates
      → HasOnly P (override_step actions target r out).0.candidates
  override_step-HasOnly actions none r out h = h
  override_step-HasOnly actions (some _) r out h =
      let hit = pick_override actions (services r.candidates) in
      override_with-HasOnly (candidate_of r.candidates hit) r out h
        (λ c e. candidate_of-P P r.candidates hit c h.1 e)

  pin_with-HasOnly :
      (kept : List (CandidateTarget Rest)) (r : PreparedRequest Rest Other) (out : PolicyApply)
      → HasOnly P r.candidates
      → All P kept
      → HasOnly P (pin_with kept r out).0.candidates
  pin_with-HasOnly [] r out h k = h
  pin_with-HasOnly (c ∷ cs) r out h k = (refl, k)

  pin_step-HasOnly :
      (pattern : Option Str) (r : PreparedRequest Rest Other) (out : PolicyApply)
      → HasOnly P r.candidates
      → HasOnly P (pin_step pattern r out).0.candidates
  pin_step-HasOnly none r out h = h
  pin_step-HasOnly (some pattern) r out h =
      pin_with-HasOnly (retain (λ c. pin_matches pattern c.service_name) r.candidates) r out h
        (retain-All P (λ c. pin_matches pattern c.service_name) r.candidates h.1).0

  pin_with-Pinned :
      (pattern : Option Str) (kept : List (CandidateTarget Rest)) (r : PreparedRequest Rest Other)
      (out : PolicyApply)
      → out.pin_applied ≡ false
      → All (Pinned pattern) kept
      → (pin_with kept r out).1.pin_applied ≡ true
      → All (Pinned pattern) (pin_with kept r out).0.candidates
  pin_with-Pinned pattern [] r out h k e = ground arith
  pin_with-Pinned pattern (c ∷ cs) r out h k e = k

  pin_step-Pinned :
      (pattern : Option Str) (r : PreparedRequest Rest Other) (out : PolicyApply)
      → All P r.candidates
      → out.pin_applied ≡ false
      → (pin_step pattern r out).1.pin_applied ≡ true
      → All (Pinned pattern) (pin_step pattern r out).0.candidates
  pin_step-Pinned none r out h f e = ground arith
  pin_step-Pinned (some pattern) r out h f e =
      pin_with-Pinned (some pattern) (retain (λ c. pin_matches pattern c.service_name) r.candidates)
        r out f (retain-All P (λ c. pin_matches pattern c.service_name) r.candidates h).1 e

  override_step-no_pin :
      (actions : RoutePolicyActions) (target : Option Str) (r : PreparedRequest Rest Other)
      → (override_step actions target r no_apply).1.pin_applied ≡ false
  override_step-no_pin actions none r = refl
  override_step-no_pin actions (some _) r =
      go (candidate_of r.candidates (pick_override actions (services r.candidates)))
    where
      go :
          (found : Option (CandidateTarget Rest))
          → (override_with found r no_apply).1.pin_applied ≡ false
      go none = refl
      go (some c) = refl

  -- A request that has a candidate keeps one, and gets none that it did not have: whatever holds of
  -- all its candidates holds of those that are left.
  pub apply_policy-HasOnly :
      (r : PreparedRequest Rest Other) (actions : RoutePolicyActions)
      → HasOnly P r.candidates
      → HasOnly P (apply_policy r actions).0.candidates
  unfolding apply_policy
  apply_policy-HasOnly r actions h =
      let first = override_step actions actions.override_route r no_apply in
      pin_step-HasOnly actions.pin_provider_svc_pattern first.0 first.1
        (override_step-HasOnly actions actions.override_route r no_apply h)

All-Unit : {Rest : Type 0} (cs : List (CandidateTarget Rest)) → All (λ c. Unit {0}) cs
All-Unit [] = tt
All-Unit (c ∷ cs) = (tt, All-Unit cs)

-- Where the result says that the pin was applied, the service name of each candidate left is one
-- that the pattern matches.
pub apply_policy-Pinned :
    {Rest Other : Type 0} (r : PreparedRequest Rest Other) (actions : RoutePolicyActions)
    → (apply_policy r actions).1.pin_applied ≡ true
    → All (Pinned actions.pin_provider_svc_pattern) (apply_policy r actions).0.candidates
unfolding apply_policy
apply_policy-Pinned r actions e =
    let first = override_step actions actions.override_route r no_apply in
    pin_step-Pinned (λ c. Unit {0}) actions.pin_provider_svc_pattern first.0 first.1
      (All-Unit first.0.candidates)
      (override_step-no_pin (λ c. Unit {0}) actions actions.override_route r) e
