-- ===== src/Quota/Crossing.antt =====
-- What a settlement does after its window has ended.
use hygress.Common.{ℕ, ◌+◌, ◌≤◌, min, Str, ◌≡◌, ◌≢◌, arith, u64_max}
use hygress.Policy.{LimitWindowSpec}
use hygress.Quota.{QuotaEngine, QuotaKey, key_eq, hard_deny, window_idx, reserve, commit, release}
use hygress.Quota.Budget.{
  counted, held, entry, reserve-counted, reserve-decide, commit-counted, release-counted,
}

-- A release that comes late, in another window than the reservation's, changes no count of the
-- window that has begun.
pub release-late :
    (e : QuotaEngine) (now old w : ℕ) (k : QuotaKey) (n x : ℕ)
    → w ≢ old
    → (counted w (entry (release e now old k n x).0 k) ≡ counted w (entry e k))
      × (held w (entry (release e now old k n x).0 k) ≡ held w (entry e k))
release-late e now old w k n x ne = ground (arith, release-counted e now old w k n x)

-- A commit that comes late, where the window that has begun counts nothing yet, drops the stale
-- estimate and counts the actual tokens.
pub commit-late_first :
    (e : QuotaEngine) (now : ℕ) (consumer model : Str) (spec : LimitWindowSpec) (n x : ℕ)
    → x ≤ u64_max
    → counted (window_idx now spec) (entry e (consumer, model)) ≡ 0
    → counted (window_idx now spec) (entry (commit e now consumer model spec n x) (consumer, model))
      ≡ x
commit-late_first e now consumer model spec n x fits zero =
    ground (arith, commit-counted e now consumer model spec n x fits)

-- Where another request has reserved `m` tokens at the beginning of the new window, a commit that
-- comes late with the estimate `n` of the old window takes `min n m` off that other request's
-- reservation: the window then counts `min n m` less than the tokens `x` and the reservation `m`,
-- where the two fit in a u64.
pub commit-late_steals :
    (e : QuotaEngine) (now later : ℕ) (consumer model : Str) (spec : LimitWindowSpec) (n m x : ℕ)
    → window_idx later spec ≡ window_idx now spec
    → counted (window_idx now spec) (entry e (consumer, model)) ≡ 0
    → held (window_idx now spec) (entry e (consumer, model)) ≡ 0
    → (reserve e now consumer model spec m).1 ≢ hard_deny
    → m + x ≤ u64_max
    → let e1 = (reserve e now consumer model spec m).0 in
      let e2 = commit e1 later consumer model spec n x in
      counted (window_idx now spec) (entry e2 (consumer, model)) + min n m ≡ m + x
commit-late_steals e now later consumer model spec n m x same zero none_held pass fits = ground (
  arith,
  reserve-counted e now consumer model spec m,
  reserve-decide e now consumer model spec m,
  commit-counted (reserve e now consumer model spec m).0 later consumer model spec n x,
)
