-- ===== src/Dispatch/Chain.antt =====
-- The fallback chain ends.
use hygress.Common.{
  ◌≡◌, ◌≢◌, refl, ap, Str, ℕ, zero, suc, ◌+◌, ◌≤◌, ◌<◌, Option, none, some, unwrap_or, arith,
  Bool-cases, inl, inr,
}
use hygress.Common.Results.{Result, ok, err}
use hygress.Config.{FallbackSpec}
use hygress.Pipeline.Fallback.{FallbackPlan, plan, arm, original_path}
use hygress.Dispatch.{
  Final, Outcome, streamed, ended, Answer, delivered, refused, Hop, Inbound, Stages, redirect,
  is_error, follow, one_more, after_hop, checked, dispatch_hop, dispatch, run_hop, link_of,
  final_answer,
}

none-ne-some : (p : FallbackPlan) → none ≢ some p
none-ne-some p h = cc

module _ {C B : Type 0} (stages : Stages C B) (bound : ℕ) where
  -- No route that a hop is prepared for grants more redirects.
  abbrev pub IsBounded : Type 0
  IsBounded =
      (redirects : ℕ) (current : Inbound) (hop : Hop C) (spec : FallbackSpec)
      → stages.prepare redirects current ≡ ok hop
      → hop.fallback ≡ some spec
      → spec.max_redirects ≤ bound

  -- An answer after so many hops at most.
  abbrev pub EndsIn : ℕ → Option (Answer B × ℕ) → Type 0
  EndsIn most o =
      (answer : Answer B) × (hops : ℕ) × (o ≡ some (answer, hops)) × (1 ≤ hops) × (hops ≤ most)

  one_more-EndsIn :
      (most : ℕ) (o : Option (Answer B × ℕ)) → EndsIn most o → EndsIn (suc most) (one_more o)
  one_more-EndsIn most o (answer, hops, e, low, high) =
      (answer, suc hops, ap one_more e, omega arith, omega (arith, high))

  link-below :
      (f : Option FallbackSpec) (path : Str) (redirects : ℕ) (p : FallbackPlan)
      → ((spec : FallbackSpec) → f ≡ some spec → spec.max_redirects ≤ bound)
      → link_of f path redirects ≡ some p
      → redirects < bound
  unfolding plan
  link-below none path redirects p h e = cc
  link-below (some spec) path redirects p h e = ground (arith, h spec refl)

  redirect-below :
      (hop : Hop C) (current : Inbound) (last : Option (Final B)) (redirects : ℕ) (p : FallbackPlan)
      → ((spec : FallbackSpec) → hop.fallback ≡ some spec → spec.max_redirects ≤ bound)
      → redirect hop current last redirects ≡ some p
      → redirects < bound
  unfolding redirect
  redirect-below hop current last redirects p h e = elim (Bool-cases (is_error last)) [
    | inl error ↦
        link-below hop.fallback (unwrap_or (original_path hop.base_headers) current.path) redirects
          p h (rw error at e)
    | inr fine ↦ absurd (none-ne-some p (rw fine at e))
  ]

  follow-EndsIn :
      (most : ℕ) (o : Option FallbackPlan) (last : Option (Final B))
      (next : FallbackPlan → Option (Answer B × ℕ))
      → ((p : FallbackPlan) → o ≡ some p → EndsIn (suc most) (next p))
      → EndsIn (suc most) (follow o last next)
  follow-EndsIn most none last next h = (final_answer last, 1, refl, omega arith, omega arith)
  follow-EndsIn most (some p) last next h = h p refl

  after_hop-EndsIn :
      (most : ℕ) (hop : Hop C) (current : Inbound) (redirects : ℕ) (r : Outcome B × ℕ)
      (next : FallbackPlan → Option (Answer B × ℕ))
      → ((spec : FallbackSpec) → hop.fallback ≡ some spec → spec.max_redirects ≤ bound)
      → ((p : FallbackPlan) → redirects < bound → EndsIn (suc most) (next p))
      → EndsIn (suc most) (after_hop hop current redirects r next)
  after_hop-EndsIn most hop current redirects (streamed status, attempts) next h k =
      (delivered status, 1, refl, omega arith, omega arith)
  after_hop-EndsIn most hop current redirects (ended last, attempts) next h k =
      follow-EndsIn most (redirect hop current last redirects) last next
        (λ p e. k p (redirect-below hop current last redirects p h e))

  checked-EndsIn :
      (most : ℕ) (refusal : Option ℕ) (hop : Hop C) (current : Inbound) (redirects : ℕ)
      (next : FallbackPlan → Option (Answer B × ℕ))
      → ((spec : FallbackSpec) → hop.fallback ≡ some spec → spec.max_redirects ≤ bound)
      → ((p : FallbackPlan) → redirects < bound → EndsIn (suc most) (next p))
      → EndsIn (suc most) (checked stages refusal hop current redirects next)
  checked-EndsIn most (some status) hop current redirects next h k =
      (refused status, 1, refl, omega arith, omega arith)
  checked-EndsIn most none hop current redirects next h k =
      after_hop-EndsIn most hop current redirects (run_hop stages hop current redirects) next h k

  dispatch_hop-EndsIn :
      (most : ℕ) (prepared : Result ℕ (Hop C)) (current : Inbound) (redirects : ℕ)
      (next : FallbackPlan → Option (Answer B × ℕ))
      → ((hop : Hop C) (spec : FallbackSpec)
          → prepared ≡ ok hop
          → hop.fallback ≡ some spec
          → spec.max_redirects ≤ bound)
      → ((p : FallbackPlan) → redirects < bound → EndsIn (suc most) (next p))
      → EndsIn (suc most) (dispatch_hop stages prepared current redirects next)
  dispatch_hop-EndsIn most (err status) current redirects next h k =
      (refused status, 1, refl, omega arith, omega arith)
  dispatch_hop-EndsIn most (ok hop) current redirects next h k =
      checked-EndsIn most (stages.check redirects hop) hop current redirects next
        (λ spec e. h hop spec refl e) k

  dispatch-EndsIn :
      IsBounded
      → (most redirects : ℕ) (current : Inbound) → redirects + most ≡ bound
      → EndsIn (suc most) (dispatch stages (suc most) redirects current)
  unfolding dispatch
  dispatch-EndsIn ok_bound zero redirects current at =
      dispatch_hop-EndsIn zero (stages.prepare redirects current) current redirects _
        (λ hop spec e f. ok_bound redirects current hop spec e f)
        (λ p below. absurd (omega (arith, below, at)))
  dispatch-EndsIn ok_bound (suc most) redirects current at =
      dispatch_hop-EndsIn (suc most) (stages.prepare redirects current) current redirects _
        (λ hop spec e f. ok_bound redirects current hop spec e f)
        (λ p below. one_more-EndsIn (suc most) _ (
          dispatch-EndsIn ok_bound most (suc redirects)
            (record current { headers = arm current.headers p }) (omega (arith, at))))

  -- Whatever the upstreams do, a request is answered, after one hop more than the largest number of
  -- redirects that a route grants at most.
  pub dispatch-ends :
      IsBounded
      → (current : Inbound)
      → (answer : Answer B) × (hops : ℕ) × (dispatch stages (suc bound) 0 current
          ≡ some (answer, hops))
        × (1 ≤ hops)
        × (hops ≤ suc bound)
  dispatch-ends ok_bound current = dispatch-EndsIn ok_bound bound 0 current (omega arith)
