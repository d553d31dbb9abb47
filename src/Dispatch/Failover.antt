-- ===== src/Dispatch/Failover.antt =====
-- Which candidates of a hop are tried.
use hygress.Common.{
  ◌≡◌, refl, ℕ, suc, ◌+◌, ◌≤◌, ◌⊎◌, ltb→lt, lt→ltb, ◌∙◌, ap, List, [], ◌∷◌, ◌++◌, none, some, Bool,
  true, false, not, ◌&&◌, ltb, is_empty, length, arith, inl, inr,
}
use hygress.Retry.{RetryPolicy, should_retry}
use hygress.Dispatch.{
  Reply, response, failure, Outcome, streamed, ended, try_from, on_reply, is_success,
}

module _ {C B : Type 0} (send : ℕ → C → Reply B) (p : RetryPolicy) (non_idempotent : Bool) where
  on_reply-cases :
      (again : Bool) (r : Reply B) (rest : Outcome B × ℕ)
      → ((on_reply p non_idempotent again r rest).1 ≡ 1)
        ⊎ ((again ≡ true) × ((on_reply p non_idempotent again r rest).1 ≡ suc rest.1))
  on_reply-cases again (response status body) rest = ground arith
  on_reply-cases again (failure timed_out) rest = ground arith

  attempts-from :
      (cs : List C) (c : C) (i : ℕ)
      → let n = (try_from send p non_idempotent i (c ∷ cs)).1 in
        (1 ≤ n) × (n ≤ length (c ∷ cs)) × (i ≤ p.tries → n + i ≤ suc p.tries)
  unfolding try_from
  attempts-from [] c i = elim (on_reply-cases false (send i c) (ended none, 0)) [
    | inl one ↦ rw one (omega arith, omega arith, λ h. omega arith)
    | inr (no_more, n) ↦ cc
  ]
  attempts-from (d ∷ ds) c i =
      let rest = try_from send p non_idempotent (suc i) (d ∷ ds) in
      let later = attempts-from ds d (suc i) in
      elim (on_reply-cases (ltb i p.tries) (send i c) rest) [
        | inl one ↦ rw one (omega arith, omega arith, λ h. omega arith)
        | inr (more, n) ↦
            let below = ltb→lt i p.tries more in
            rw n (
              omega arith,
              omega (arith, later.1),
              λ h. omega (arith, later.2 (omega (arith, below))),
            )
      ]

  -- A hop with candidates makes at least one attempt, at most one at each candidate, and at most
  -- one more than the retries that the policy grants.
  pub try_from-attempts :
      (c : C) (cs : List C)
      → let n = (try_from send p non_idempotent 0 (c ∷ cs)).1 in
        (1 ≤ n) × (n ≤ length (c ∷ cs)) × (n ≤ suc p.tries)
  try_from-attempts c cs =
      let h = attempts-from cs c 0 in (h.0, h.1, omega (arith, h.2 (omega arith)))

  -- A reply after which the next candidate is tried, where there is one and retries are left.
  abbrev pub may_retry : Reply B → Bool
  may_retry (response status body) =
      not (is_success status) && should_retry p (some status) false false non_idempotent
  may_retry (failure timed_out) = should_retry p none true timed_out non_idempotent

  abbrev pub AllRetried : ℕ → List C → Type 0
  AllRetried i [] = Unit
  AllRetried i (c ∷ cs) = (may_retry (send i c) ≡ true) × AllRetried (suc i) cs

  on_reply-retried :
      (r : Reply B) (rest : Outcome B × ℕ)
      → may_retry r ≡ true
      → on_reply p non_idempotent true r rest ≡ (rest.0, suc rest.1)
  on_reply-retried (response status body) rest h = ground arith
  on_reply-retried (failure timed_out) rest h = ground arith

  append-nonempty : (xs : List C) (c : C) (ys : List C) → is_empty (xs ++ c ∷ ys) ≡ false
  append-nonempty [] c ys = refl
  append-nonempty (x ∷ xs) c ys = refl

  reaches :
      (before : List C) (c : C) (after : List C) (i j status : ℕ) (body : B)
      → AllRetried i before
      → j ≡ length before + i
      → j ≤ p.tries
      → send j c ≡ response status body
      → is_success status ≡ true
      → try_from send p non_idempotent i (before ++ c ∷ after)
        ≡ (streamed status, suc (length before))
  unfolding try_from
  reaches [] c after i j status body h at k sent good =
      let here : j ≡ i = omega (arith, at) in
      let sent_here : send i c ≡ response status body = rw here at sent in
      rw sent_here (rw good refl)
  reaches (b ∷ before) c after i j status body (q, h) at k sent good =
      let more : ltb i p.tries ≡ true = lt→ltb i p.tries (omega (arith, at, k)) in
      let later = reaches before c after (suc i) j status body h (omega (arith, at)) k sent good in
      rw (append-nonempty before c after) (
        rw more (
          on_reply-retried (send i b) (try_from send p non_idempotent (suc i) (before ++ c ∷ after))
            q
          ∙ ap (λ r. (r.0, suc r.1)) later))

  -- A candidate that succeeds is reached, and its reply is streamed, if it stands within the retries
  -- and every candidate before it gives a reply that is retried.
  pub try_from-streamed :
      (before : List C) (c : C) (after : List C) (status : ℕ) (body : B)
      → AllRetried 0 before
      → length before ≤ p.tries
      → send (length before) c ≡ response status body
      → is_success status ≡ true
      → try_from send p non_idempotent 0 (before ++ c ∷ after)
        ≡ (streamed status, suc (length before))
  try_from-streamed before c after status body h k sent good =
      reaches before c after 0 (length before) status body h (omega arith) k sent good
