-- ===== src/Retry.antt =====
-- crates/hygress-core/src/retry.rs: the retry policy of a route.
pub mod Decision
pub mod Annotation
pub mod RoundTrip
use hygress.Common.{
  Str, codes, str_eq, ℕ, min, List, [], ◌∷◌, ◌++◌, Option, none, some, Bool, true, false, not, ◌&&◌,
  ◌||◌, ◌==◌, leb, if◌then◌else◌, any, is_empty, is_some_and, unwrap_or, trim, to_ascii_lowercase,
  split, strip_prefix, parse_uint, u16_max, u32_max,
}

pub data RetryCond : Type 0 where
  error timeout http_5xx non_idempotent : RetryCond
  status : ℕ → RetryCond  -- u16

pub record RetryPolicy : Type 0 where
  pub conditions : List RetryCond
  pub tries : ℕ  -- u32

pub record ParsedRetry : Type 0 where
  pub policy : RetryPolicy
  pub unknown : List Str

abbrev pub default_retry : RetryPolicy
default_retry = record {
  conditions = error ∷ timeout ∷ status 503 ∷ status 502 ∷ non_idempotent ∷ [];
  tries = 2;
}

-- The derived `PartialEq`.
abbrev pub cond_eq : RetryCond → RetryCond → Bool
cond_eq error error = true
cond_eq timeout timeout = true
cond_eq http_5xx http_5xx = true
cond_eq non_idempotent non_idempotent = true
cond_eq (status a) (status b) = a == b
cond_eq _ _ = false

-- `contains`.
abbrev pub has : RetryPolicy → RetryCond → Bool
has p c = any (λ d. cond_eq d c) p.conditions

abbrev in_range : ℕ → ℕ → ℕ → Bool
in_range lo hi n = leb lo n && leb n hi

abbrev status_of : Option ℕ → Option RetryCond
status_of none = none
status_of (some n) = if in_range 400 599 n then some (status n) else none

unfoldable pub parse_cond_token : Str → Option RetryCond
parse_cond_token t =
    if str_eq t (codes "error")
    then some error
    else if str_eq t (codes "timeout")
    then some timeout
    else if str_eq t (codes "5xx")
    then some http_5xx
    else if str_eq t (codes "non_idempotent")
    then some non_idempotent
    else status_of (parse_uint u16_max (unwrap_or (strip_prefix (codes "http_") t) t))

-- One token of the loop of `parse`, over the conditions and the unknown tokens collected so far.
unfoldable pub add_token : Str → List RetryCond × List Str → List RetryCond × List Str
unfolding parse_cond_token
add_token token (out, unknown) =
    let t = to_ascii_lowercase (trim token) in
    if is_empty t then (out, unknown) else elim (parse_cond_token t) [
      | some c ↦ (out ++ c ∷ [], unknown)
      | none ↦ (out, unknown ++ t ∷ [])
    ]

unfoldable pub add_tokens : List Str → List RetryCond × List Str → List RetryCond × List Str
add_tokens [] acc = acc
add_tokens (t ∷ ts) acc = add_tokens ts (add_token t acc)

unfoldable pub parse_conditions : Option Str → List RetryCond × List Str
unfolding add_tokens
parse_conditions none = (default_retry.conditions, [])
parse_conditions (some raw) = add_tokens (split b',' raw) ([], [])

unfoldable pub parse_tries : Option Str → ℕ
parse_tries none = 2
parse_tries (some raw) = min (unwrap_or (parse_uint u32_max (trim raw)) 2) 32

-- `RetryPolicy::parse`.
unfoldable pub parse_retry : Option Str → Option Str → ParsedRetry
unfolding parse_conditions parse_tries
parse_retry conditions tries =
    let (conds, unknown) = parse_conditions conditions in
    record { policy = record { conditions = conds; tries = parse_tries tries }; unknown = unknown }

-- Whether one condition is hit by an attempt.
abbrev pub hit : Option ℕ → Bool → Bool → RetryCond → Bool
hit st transport_error timed_out error = transport_error
hit st transport_error timed_out timeout = timed_out
hit st transport_error timed_out http_5xx = is_some_and st (λ s. in_range 500 599 s)
hit st transport_error timed_out (status c) = is_some_and st (λ s. s == c)
hit st transport_error timed_out non_idempotent = false

unfoldable pub should_retry : RetryPolicy → Option ℕ → Bool → Bool → Bool → Bool
should_retry p st transport_error timed_out is_non_idempotent =
    if is_empty p.conditions
    then false
    else if not (any (hit st transport_error timed_out) p.conditions)
    then false
    else if is_non_idempotent && not (has p non_idempotent)
    then false
    else true
