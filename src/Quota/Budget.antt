-- ===== src/Quota/Budget.antt =====
-- The budget that `QuotaEngine` keeps for one window, as each operation changes it.
use hygress.Common.{
  beq_refl, ap, ℕ, ◌-◌, ◌≤◌, min, Str, Option, none, some, ◌≡◌, arith, ◌==◌, if◌then◌else◌,
  saturating_add, u64_max,
}
use hygress.Common.Dict.{lookup, lookup-insert, lookup-modify}
use mathlib.Core.Option
use hygress.Policy.{LimitWindowSpec}
use hygress.Quota.{
  WindowCounter, QuotaKey, key_eq, QuotaEngine, window_idx, current, decide_quota, charge,
  is_hard_deny, settled, released, reserve, commit, release,
}

-- The tokens counted for a key in a window: none where the counter is of another window.
abbrev pub counted : ℕ → Option WindowCounter → ℕ
counted widx none = 0
counted widx (some c) = if c.window_idx == widx then c.used else 0

-- Of those, the ones reserved and not yet settled.
abbrev pub held : ℕ → Option WindowCounter → ℕ
held widx none = 0
held widx (some c) = if c.window_idx == widx then c.est else 0

abbrev pub entry : QuotaEngine → QuotaKey → Option WindowCounter
entry e k = lookup k e.counters

-- The entry at any key after each operation.
pub entry-reserve :
    (e : QuotaEngine) (now : ℕ) (consumer model : Str) (spec : LimitWindowSpec) (n : ℕ)
    (j : QuotaKey)
    → let w = window_idx now spec in
      let k : QuotaKey = (consumer, model) in
      let c = current w now (entry e k) in
      entry (reserve e now consumer model spec n).0 j ≡ (
        if key_eq.beq k j
        then some (if is_hard_deny spec (saturating_add c.used n) then c else charge n c)
        else entry e j)
unfolding reserve
entry-reserve e now consumer model spec n j = lookup-insert _ _ _ _

pub entry-commit :
    (e : QuotaEngine) (now : ℕ) (consumer model : Str) (spec : LimitWindowSpec) (n x : ℕ)
    (j : QuotaKey)
    → let k : QuotaKey = (consumer, model) in
      entry (commit e now consumer model spec n x) j ≡ (
        if key_eq.beq k j
        then some (settled (window_idx now spec) now n x (entry e k))
        else entry e j)
unfolding commit
entry-commit e now consumer model spec n x j = lookup-insert _ _ _ _

pub entry-release :
    (e : QuotaEngine) (now w : ℕ) (k : QuotaKey) (n x : ℕ) (j : QuotaKey)
    → entry (release e now w k n x).0 j
      ≡ (if key_eq.beq k j then Option.map (released now w n) (entry e j) else entry e j)
unfolding release
entry-release e now w k n x j = lookup-modify _ _ _ _

-- The entry that `reserve` charges counts what the present window counts.
pub current-counted :
    (w now : ℕ) (o : Option WindowCounter)
    → let c = current w now o in
      (c.window_idx ≡ w) × (c.used ≡ counted w o) × (c.est ≡ held w o) × (c.last_used_ms ≡ now)
unfolding current
current-counted w now none = ground arith
current-counted w now (some c) = ground arith

-- The decision is by the tokens of the present window.
pub reserve-decide :
    (e : QuotaEngine) (now : ℕ) (consumer model : Str) (spec : LimitWindowSpec) (n : ℕ)
    → (reserve e now consumer model spec n).1
      ≡ decide_quota spec
          (saturating_add (counted (window_idx now spec) (entry e (consumer, model))) n)
unfolding reserve
reserve-decide e now consumer model spec n =
    ap (λ u. decide_quota spec (saturating_add u n))
      (current-counted _ now (entry e (consumer, model))).1

-- The counter after `reserve`, its counts in the terms of those before.
pub reserve-counted :
    (e : QuotaEngine) (now : ℕ) (consumer model : Str) (spec : LimitWindowSpec) (n : ℕ)
    → let w = window_idx now spec in
      let before = entry e (consumer, model) in
      let after = entry (reserve e now consumer model spec n).0 (consumer, model) in
      let denied = is_hard_deny spec (saturating_add (counted w before) n) in
      (counted w after ≡ (if denied then counted w before else saturating_add (counted w before) n))
      × (held w after ≡ (if denied then held w before else saturating_add (held w before) n))
unfolding charge
reserve-counted e now consumer model spec n = ground (
  arith,
  entry-reserve e now consumer model spec n (consumer, model),
  beq_refl key_eq (consumer, model),
  current-counted (window_idx now spec) now (entry e (consumer, model)),
)

-- The counter after `commit`: the estimate, or what of it is held, gives way to the actual tokens.
pub commit-counted :
    (e : QuotaEngine) (now : ℕ) (consumer model : Str) (spec : LimitWindowSpec) (n x : ℕ)
    → x ≤ u64_max
    → let w = window_idx now spec in
      let before = entry e (consumer, model) in
      let after = entry (commit e now consumer model spec n x) (consumer, model) in
      (counted w after ≡ saturating_add (counted w before - min n (held w before)) x)
      × (held w after ≡ held w before - n)
unfolding settled
commit-counted e now consumer model spec n x fits = ground (
  arith,
  entry-commit e now consumer model spec n x (consumer, model),
  beq_refl key_eq (consumer, model),
)

-- The counter after `release`: the estimate is taken off both counts in its window, and in no
-- other; the count returned is the part of the estimate that was not used.
pub release-counted :
    (e : QuotaEngine) (now w v : ℕ) (k : QuotaKey) (n x : ℕ)
    → let before = entry e k in
      let after = entry (release e now w k n x).0 k in
      (counted v after ≡ (if v == w then counted v before - n else counted v before))
      × (held v after ≡ (if v == w then held v before - n else held v before))
unfolding released
release-counted e now w v k n x = ground (arith, entry-release e now w k n x k, beq_refl key_eq k)
