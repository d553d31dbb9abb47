-- ===== src/Dispatch.antt =====
-- The loop of `request_filter` of crates/hygress-gateway/src/pipe.rs: the candidates of a hop, and
-- the hops of the fallback chain. Preparing a hop, the checks before its candidates (auth, rate
-- limit, quota, guardrail) and sending are an interface; metrics and logs are left out.
pub mod Failover
pub mod Chain
use hygress.Common.{
  Str, ℕ, zero, suc, List, [], ◌∷◌, Option, none, some, Bool, true, false, not, ◌&&◌, ltb, leb,
  if◌then◌else◌, is_empty, unwrap_or,
}
use hygress.Common.Results.{Result, ok, err}
use hygress.Config.{FallbackSpec}
use hygress.Pipeline.Fallback.{FallbackPlan, plan, arm, original_path}
use hygress.Retry.{RetryPolicy, should_retry}
use hygress.Transform.{HeaderMap}

-- What the upstream does with an attempt: a status and a body, or a failure of the transport, that
-- may be a timeout.
pub data Reply (B : Type 0) : Type 0 where
  response : ℕ → B → Reply B
  failure : Bool → Reply B

pub data Final (B : Type 0) : Type 0 where
  http : ℕ → B → Final B
  transport : Final B

-- How the loop over the candidates ends.
pub data Outcome (B : Type 0) : Type 0 where
  streamed : ℕ → Outcome B
  ended : Option (Final B) → Outcome B

-- What the downstream is answered.
pub data Answer (B : Type 0) : Type 0 where
  delivered refused : ℕ → Answer B
  forwarded : ℕ → B → Answer B
  all_candidates_failed : Answer B

-- What the loop reads of a `PreparedRequest`.
pub record Hop (C : Type 0) : Type 0 where
  pub candidates : List C
  pub retry : RetryPolicy
  pub override_retries : Option ℕ
  pub fallback : Option FallbackSpec
  pub base_headers : HeaderMap

-- The headers are what a redirect changes of the request.
pub record Inbound : Type 0 where
  pub headers : HeaderMap
  pub path : Str
  pub non_idempotent : Bool

-- The stages around the loops, by the number of redirects so far: `prepare` or `prepare_fallback`,
-- whose error has a status; the checks, with the status of a refusal; and one attempt at the
-- candidate of an index.
pub record Stages (C B : Type 0) : Type 0 where
  pub prepare : ℕ → Inbound → Result ℕ (Hop C)
  pub check : ℕ → Hop C → Option ℕ
  pub send : ℕ → ℕ → C → Reply B

abbrev pub is_success : ℕ → Bool
is_success status = leb 200 status && leb status 299

abbrev pub overridden : Option ℕ → RetryPolicy → RetryPolicy
overridden none p = p
overridden (some tries) p = record p { tries = tries }

abbrev pub link_of : Option FallbackSpec → Str → ℕ → Option FallbackPlan
link_of none path redirects = none
link_of (some spec) path redirects = plan spec path redirects

module _ {B : Type 0} where
  -- An attempt, whether another one may follow, and what that comes to; with the attempts made.
  abbrev pub on_reply : RetryPolicy → Bool → Bool → Reply B → Outcome B × ℕ → Outcome B × ℕ
  on_reply p non_idempotent again (response status body) rest =
      if is_success status
      then (streamed status, 1)
      else if again && should_retry p (some status) false false non_idempotent
      then (rest.0, suc rest.1)
      else (ended (some (http status body)), 1)
  on_reply p non_idempotent again (failure timed_out) rest =
      if again && should_retry p none true timed_out non_idempotent
      then (rest.0, suc rest.1)
      else (ended (some transport), 1)

  abbrev pub is_error : Option (Final B) → Bool
  is_error none = false
  is_error (some transport) = true
  is_error (some (http status body)) = leb 400 status && leb status 599

  abbrev pub final_answer : Option (Final B) → Answer B
  final_answer none = all_candidates_failed
  final_answer (some transport) = all_candidates_failed
  final_answer (some (http status body)) = forwarded status body

  abbrev pub follow :
      Option FallbackPlan
      → Option (Final B)
      → (FallbackPlan → Option (Answer B × ℕ))
      → Option (Answer B × ℕ)
  follow none last next = some (final_answer last, 1)
  follow (some p) last next = next p

  abbrev pub one_more : Option (Answer B × ℕ) → Option (Answer B × ℕ)
  one_more none = none
  one_more (some (answer, hops)) = some (answer, suc hops)

module _ {C B : Type 0} where
  -- The loop over the candidates from index `i` on.
  unfoldable pub try_from : (ℕ → C → Reply B) → RetryPolicy → Bool → ℕ → List C → Outcome B × ℕ
  try_from send p non_idempotent i [] = (ended none, 0)
  try_from send p non_idempotent i (c ∷ cs) =
      let rest = try_from send p non_idempotent (suc i) cs in
      on_reply p non_idempotent (not (is_empty cs) && ltb i p.tries) (send i c) rest

  unfoldable pub redirect : Hop C → Inbound → Option (Final B) → ℕ → Option FallbackPlan
  redirect hop current last redirects =
      if is_error last
      then link_of hop.fallback (unwrap_or (original_path hop.base_headers) current.path) redirects
      else none

  abbrev pub after_hop :
      Hop C
      → Inbound
      → ℕ
      → Outcome B × ℕ
      → (FallbackPlan → Option (Answer B × ℕ))
      → Option (Answer B × ℕ)
  after_hop hop current redirects (streamed status, attempts) next = some (delivered status, 1)
  after_hop hop current redirects (ended last, attempts) next =
      follow (redirect hop current last redirects) last next

  module _ (stages : Stages C B) where
    abbrev pub run_hop : Hop C → Inbound → ℕ → Outcome B × ℕ
    run_hop hop current redirects =
        try_from (stages.send redirects) (overridden hop.override_retries hop.retry)
          current.non_idempotent 0 hop.candidates

    abbrev pub checked :
        Option ℕ
        → Hop C
        → Inbound
        → ℕ
        → (FallbackPlan → Option (Answer B × ℕ))
        → Option (Answer B × ℕ)
    checked (some status) hop current redirects next = some (refused status, 1)
    checked none hop current redirects next =
        after_hop hop current redirects (run_hop hop current redirects) next

    abbrev pub dispatch_hop :
        Result ℕ (Hop C)
        → Inbound
        → ℕ
        → (FallbackPlan → Option (Answer B × ℕ))
        → Option (Answer B × ℕ)
    dispatch_hop (err status) current redirects next = some (refused status, 1)
    dispatch_hop (ok hop) current redirects next =
        checked (stages.check redirects hop) hop current redirects next

    -- The answer and the number of hops; `none` is a loop that did not end within the fuel.
    unfoldable pub dispatch : ℕ → ℕ → Inbound → Option (Answer B × ℕ)
    dispatch zero redirects current = none
    dispatch (suc fuel) redirects current =
        dispatch_hop (stages.prepare redirects current) current redirects (λ p.
          one_more
            (dispatch fuel (suc redirects) (record current { headers = arm current.headers p })))
