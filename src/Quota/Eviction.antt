-- ===== src/Quota/Eviction.antt =====
-- The two sweeps that bound the engine's memory.
use hygress.Common.{ℕ, ◌-◌, Str, ◌≡◌, leb}
use hygress.Common.Dict.{
  HasDistinctKeys, insert-HasDistinctKeys, lookup-retain, kept, modify-HasDistinctKeys,
}
use hygress.Policy.{LimitWindowSpec}
use hygress.Quota.{
  QuotaEngine, QuotaKey, WindowCounter, key_eq, reserve, commit, release, gc_stale, evict_idle,
}
use hygress.Quota.Budget.{entry}

-- A map's keys are distinct.
abbrev pub IsMap : QuotaEngine → Type 0
IsMap e = HasDistinctKeys e.counters

pub reserve-IsMap :
    (e : QuotaEngine) (now : ℕ) (consumer model : Str) (spec : LimitWindowSpec) (n : ℕ)
    → IsMap e
    → IsMap (reserve e now consumer model spec n).0
unfolding reserve
reserve-IsMap e now consumer model spec n h = insert-HasDistinctKeys _ _ _ h

pub commit-IsMap :
    (e : QuotaEngine) (now : ℕ) (consumer model : Str) (spec : LimitWindowSpec) (n x : ℕ)
    → IsMap e
    → IsMap (commit e now consumer model spec n x)
unfolding commit
commit-IsMap e now consumer model spec n x h = insert-HasDistinctKeys _ _ _ h

pub release-IsMap :
    (e : QuotaEngine) (now w : ℕ) (k : QuotaKey) (n x : ℕ)
    → IsMap e
    → IsMap (release e now w k n x).0
unfolding release
release-IsMap e now w k n x h = modify-HasDistinctKeys _ _ _ h

-- An idle sweep keeps, unchanged, each counter touched within the last `idle_ms`, and removes
-- every other.
pub evict_idle-entry :
    (e : QuotaEngine) (now idle : ℕ) (k : QuotaKey)
    → IsMap e
    → entry (evict_idle e now idle).0 k ≡ kept (λ c. leb (now - idle) c.last_used_ms) (entry e k)
unfolding evict_idle
evict_idle-entry e now idle k h =
    lookup-retain k (λ (c : WindowCounter). leb (now - idle) c.last_used_ms) e.counters h

-- The sweep by window keeps, unchanged, each counter of the given window or a later one, and
-- removes every other.
pub gc_stale-entry :
    (e : QuotaEngine) (w : ℕ) (k : QuotaKey)
    → IsMap e
    → entry (gc_stale e w).0 k ≡ kept (λ c. leb w c.window_idx) (entry e k)
unfolding gc_stale
gc_stale-entry e w k h = lookup-retain k (λ (c : WindowCounter). leb w c.window_idx) e.counters h
