-- ===== src/Quota.antt =====
-- crates/hygress-core/src/quota.rs: the fixed-window token quota. A method of `QuotaEngine`
-- that writes through its `DashMap` returns the new engine; each call is one step. In the
-- source a `reserve` holds the lock of its entry throughout, but a `commit` that finds no entry takes
-- the lock again to insert one: that another call comes between the two is not modelled.
pub mod Budget
pub mod Crossing
pub mod Eviction
pub mod Guard
pub mod Ledger
pub mod Lifecycle
use hygress.Common.{
  ℕ, ◌+◌, ◌-◌, ◌*◌, ◌/◌, min, Str, str_eq, str_eq_iff, Eq, List, [], ◌∷◌, Option, none, some, Bool,
  true, false, ◌&&◌, ◌≡◌, ◌↔◌, arith, ltb, leb, ◌==◌, if◌then◌else◌, unwrap_or, is_some_and, retain,
  length, saturating_add, saturating_mul, u64_max,
}
use hygress.Common.Dict.{lookup, insert, modify}
use hygress.Policy.{LimitWindowSpec}
use mathlib.Core.Option

pub data QuotaDecision : Type 0 where
  allowed soft_exceed hard_deny : QuotaDecision

-- All four are u64.
pub record WindowCounter : Type 0 where
  pub window_idx : ℕ
  pub used : ℕ
  pub est : ℕ
  pub last_used_ms : ℕ

-- `(consumer, model)`.
abbrev pub QuotaKey : Type 0
QuotaKey = Str × Str

abbrev key_beq : QuotaKey → QuotaKey → Bool
key_beq a b = str_eq a.0 b.0 && str_eq a.1 b.1

pub key_beq_iff : (a b : QuotaKey) → (key_beq a b ≡ true) ↔ (a ≡ b)
key_beq_iff a b = ground (arith, str_eq_iff a.0 b.0, str_eq_iff a.1 b.1)

instance abbrev pub key_eq : Eq QuotaKey
key_eq = record { beq = key_beq; beq_iff = key_beq_iff }

pub record QuotaEngine : Type 0 where
  pub counters : List (QuotaKey × WindowCounter)

abbrev pub empty_engine : QuotaEngine
empty_engine = record { counters = [] }

-- A zero-length window is a single infinite one, of index 0.
unfoldable pub window_idx : ℕ → LimitWindowSpec → ℕ
window_idx now_ms spec =
    let window_ms = saturating_mul spec.window_secs 1000 in
    if window_ms == 0 then 0 else now_ms / window_ms

abbrev pub fresh_counter : ℕ → ℕ → WindowCounter
fresh_counter widx now_ms = record { window_idx = widx; used = 0; est = 0; last_used_ms = now_ms }

-- The entry that `reserve` works on: created if absent, reset on a window crossing, touched.
unfoldable pub current : ℕ → ℕ → Option WindowCounter → WindowCounter
current widx now_ms entry =
    let c = unwrap_or entry (fresh_counter widx now_ms) in
    record (if c.window_idx == widx then c else fresh_counter widx now_ms) { last_used_ms = now_ms }

abbrev pub is_hard_deny : LimitWindowSpec → ℕ → Bool
is_hard_deny spec projected = is_some_and spec.hard (λ h. ltb h projected)

abbrev pub decide_quota : LimitWindowSpec → ℕ → QuotaDecision
decide_quota spec projected =
    if is_hard_deny spec projected
    then hard_deny
    else if is_some_and spec.soft (λ s. leb s projected)
    then soft_exceed
    else allowed

unfoldable pub charge : ℕ → WindowCounter → WindowCounter
charge est_tokens c = record c {
  used = saturating_add c.used est_tokens;
  est = saturating_add c.est est_tokens;
}

unfoldable pub reserve :
    QuotaEngine → ℕ → Str → Str → LimitWindowSpec → ℕ → QuotaEngine × QuotaDecision
unfolding window_idx
reserve e now_ms consumer model spec est_tokens =
    let c = current (window_idx now_ms spec) now_ms (lookup (consumer, model) e.counters) in
    let projected = saturating_add c.used est_tokens in
    let c' = if is_hard_deny spec projected then c else charge est_tokens c in
    (record e { counters = insert (consumer, model) c' e.counters }, decide_quota spec projected)

-- The entry after a `commit`.
unfoldable pub settled : ℕ → ℕ → ℕ → ℕ → Option WindowCounter → WindowCounter
settled widx now_ms est_tokens actual_tokens none = record {
  window_idx = widx;
  used = actual_tokens;
  est = 0;
  last_used_ms = now_ms;
}
settled widx now_ms est_tokens actual_tokens (some c) =
    let subtract = min est_tokens c.est in
    if c.window_idx == widx
    then record c {
      used = saturating_add (c.used - subtract) actual_tokens;
      est = c.est - subtract;
      last_used_ms = now_ms;
    }
    else record { window_idx = widx; used = actual_tokens; est = 0; last_used_ms = now_ms }

unfoldable pub commit : QuotaEngine → ℕ → Str → Str → LimitWindowSpec → ℕ → ℕ → QuotaEngine
unfolding window_idx
commit e now_ms consumer model spec est_tokens actual_tokens =
    let key : QuotaKey = (consumer, model) in
    let c =
      settled (window_idx now_ms spec) now_ms est_tokens actual_tokens (lookup key e.counters) in
    record e { counters = insert key c e.counters }

unfoldable pub released : ℕ → ℕ → ℕ → WindowCounter → WindowCounter
released now_ms widx est_tokens c =
    if c.window_idx == widx
    then record c { used = c.used - est_tokens; est = c.est - est_tokens; last_used_ms = now_ms }
    else record c { last_used_ms = now_ms }

unfoldable pub release : QuotaEngine → ℕ → ℕ → QuotaKey → ℕ → ℕ → QuotaEngine × ℕ
release e now_ms widx key est_tokens actual_tokens = (
  record e { counters = modify key (released now_ms widx est_tokens) e.counters },
  est_tokens - actual_tokens,
)

-- `retain` with a test, and the number of entries that it removed.
abbrev sweep : (WindowCounter → Bool) → QuotaEngine → QuotaEngine × ℕ
sweep keep e =
    let left = retain (λ p. keep p.1) e.counters in
    (record e { counters = left }, length e.counters - length left)

unfoldable pub gc_stale : QuotaEngine → ℕ → QuotaEngine × ℕ
gc_stale e current_window_idx = sweep (λ c. leb current_window_idx c.window_idx) e

unfoldable pub evict_idle : QuotaEngine → ℕ → ℕ → QuotaEngine × ℕ
evict_idle e now_ms idle_ms =
    let cutoff = now_ms - idle_ms in sweep (λ c. leb cutoff c.last_used_ms) e

unfoldable pub usage : QuotaEngine → Str → Str → Option ℕ
usage e consumer model = Option.map (λ c. c.used) (lookup (consumer, model) e.counters)
