-- ===== src/Retry/Decision.antt =====
-- When an attempt is retried.
use hygress.Common.{
  ℕ, ◌≤◌, List, [], ◌∷◌, Option, none, some, Bool, true, false, ◌≡◌, ◌↔◌, ◌⊎◌, inl, inr, refl,
  arith, any, Bool-cases, is_empty,
}
use hygress.Retry.{
  RetryCond, error, timeout, http_5xx, status, non_idempotent, RetryPolicy, cond_eq, hit,
  should_retry,
}

-- The condition stands in the list.
abbrev pub Listed : RetryCond → List RetryCond → Type 0
Listed c [] = ⊥
Listed c (d ∷ ds) = (d ≡ c) ⊎ Listed c ds

-- What an attempt must show for a condition to be met; `non_idempotent` is met by nothing.
abbrev pub Triggers : Option ℕ → Bool → Bool → RetryCond → Type 0
Triggers st transport_error timed_out error = transport_error ≡ true
Triggers st transport_error timed_out timeout = timed_out ≡ true
Triggers st transport_error timed_out http_5xx = (s : ℕ) × (st ≡ some s) × (500 ≤ s) × (s ≤ 599)
Triggers st transport_error timed_out (status code) = st ≡ some code
Triggers st transport_error timed_out non_idempotent = ⊥

cond_eq_iff : (c d : RetryCond) → (cond_eq c d ≡ true) ↔ (c ≡ d)
cond_eq_iff c d = ground arith

hit-Triggers :
    (st : Option ℕ) (tr to : Bool) (c : RetryCond) → (hit st tr to c ≡ true) ↔ Triggers st tr to c
hit-Triggers st tr to error = (λ e. e, λ e. e)
hit-Triggers st tr to timeout = (λ e. e, λ e. e)
hit-Triggers none tr to http_5xx = (λ e. cc, λ t. cc (t.1))
hit-Triggers (some s) tr to http_5xx =
    (λ e. (s, refl, ground arith, ground arith), λ t. ground (arith, t.1, t.2, t.3))
hit-Triggers st tr to (status s) = ground arith
hit-Triggers st tr to non_idempotent = (λ e. cc, λ t. absurd t)

any-Listed :
    (c : RetryCond) (ds : List RetryCond) → (any (λ d. cond_eq d c) ds ≡ true) ↔ Listed c ds
any-Listed c [] = (λ e. cc, λ l. absurd l)
any-Listed c (d ∷ ds) = ground (arith, cond_eq_iff d c, any-Listed c ds)

-- Some listed condition is met.
abbrev pub Triggered : Option ℕ → Bool → Bool → List RetryCond → Type 0
Triggered st tr to [] = ⊥
Triggered st tr to (c ∷ cs) = Triggers st tr to c ⊎ Triggered st tr to cs

any-Triggered :
    (st : Option ℕ) (tr to : Bool) (cs : List RetryCond)
    → (any (hit st tr to) cs ≡ true) ↔ Triggered st tr to cs
any-Triggered st tr to [] = (λ e. cc, λ l. absurd l)
any-Triggered st tr to (c ∷ cs) =
    let (to_t, from_t) = hit-Triggers st tr to c in
    let (to_ts, from_ts) = any-Triggered st tr to cs in
    (
      λ e. elim (Bool-cases (hit st tr to c)) [
        | inl h ↦ inl (to_t h)
        | inr h ↦ inr (to_ts (ground arith))
      ],
      elim [ inl t ↦ rw (from_t t) refl | inr t ↦ ground (arith, from_ts t) ],
    )

any_nonempty : (f : RetryCond → Bool) (cs : List RetryCond) → any f cs ≡ true → is_empty cs ≡ false
any_nonempty f [] h = cc
any_nonempty f (c ∷ cs) h = refl

-- An attempt is retried exactly when some listed condition is met by it, and, if the request is
-- not idempotent, `non_idempotent` is listed too.
pub should_retry_iff :
    (p : RetryPolicy) (st : Option ℕ) (tr to ni : Bool)
    → (should_retry p st tr to ni ≡ true)
      ↔ (Triggered st tr to p.conditions × (ni ≡ true → Listed non_idempotent p.conditions))
unfolding should_retry
should_retry_iff p st tr to ni =
    let (to_t, from_t) = any-Triggered st tr to p.conditions in
    let (to_l, from_l) = any-Listed non_idempotent p.conditions in
    (
      λ e. (to_t (ground arith), λ q. to_l (ground arith)),
      λ (t, gate). ground (
        arith,
        from_t t,
        any_nonempty (hit st tr to) p.conditions (from_t t),
        λ (q : ni ≡ true). from_l (gate q),
      ),
    )
