-- ===== src/Quota/Lifecycle.antt =====
-- A request's guard from `reserve` to `drop`.
use hygress.Common.{
  ap, ◌∙◌, ℕ, ◌+◌, ◌≤◌, Str, true, false, Option, none, some, List, [], ◌∷◌, ◌≡◌, ◌≢◌, refl, arith,
  u64_max, unwrap_or,
}
use hygress.Policy.{LimitWindowSpec}
use hygress.Quota.{QuotaEngine, QuotaKey, hard_deny, window_idx, reserve}
use hygress.Quota.Budget.{
  counted, held, entry, reserve-counted, reserve-decide, commit-counted, release-counted,
}
use hygress.Quota.Guard.{QuotaReservation, new_reservation, settle_engine, settle, drop_guard}

-- The explicit settlements of one guard, each with the time of its clock.
abbrev pub settle_all :
    List (ℕ × Option ℕ) → QuotaEngine × QuotaReservation → QuotaEngine × QuotaReservation
settle_all [] g = g
settle_all ((now, actual) ∷ rest) g = settle_all rest (settle now actual g)

settle_of_settled :
    (now : ℕ) (actual : Option ℕ) (e : QuotaEngine) (r : QuotaReservation)
    → r.settled ≡ true
    → settle now actual (e, r) ≡ (e, r)
unfolding settle
settle_of_settled now actual e r h = ground arith

settle_of_unsettled :
    (now : ℕ) (actual : Option ℕ) (e : QuotaEngine) (r : QuotaReservation)
    → r.settled ≡ false
    → settle now actual (e, r) ≡ (settle_engine now actual r e, record r { settled = true })
unfolding settle
settle_of_unsettled now actual e r h = ground arith

drop_guard_of_settled :
    (now : ℕ) (e : QuotaEngine) (r : QuotaReservation)
    → r.settled ≡ true
    → drop_guard now (e, r) ≡ e
unfolding drop_guard
drop_guard_of_settled now e r h = ground arith

settle_all-settled :
    (calls : List (ℕ × Option ℕ)) (e : QuotaEngine) (r : QuotaReservation)
    → r.settled ≡ true
    → settle_all calls (e, r) ≡ (e, r)
settle_all-settled [] e r h = refl
settle_all-settled ((now, actual) ∷ rest) e r h =
    ap (settle_all rest) (settle_of_settled now actual e r h) ∙ settle_all-settled rest e r h

-- However often a guard is settled before it is dropped, the engine sees one settlement: the
-- first explicit one, or, if there is none, the release that the drop makes.
pub drop_guard-settle_all :
    (calls : List (ℕ × Option ℕ)) (end : ℕ) (e : QuotaEngine) (r : QuotaReservation)
    → r.settled ≡ false
    → drop_guard end (settle_all calls (e, r))
      ≡ elim calls [ [] ↦ settle_engine end none r e | c ∷ _ ↦ settle_engine c.0 c.1 r e ]
unfolding drop_guard settle_engine
drop_guard-settle_all [] end e r h = ground arith
drop_guard-settle_all ((now, actual) ∷ rest) end e r h =
    let e' = settle_engine now actual r e in
    let r' : QuotaReservation = record r { settled = true } in
    ap (λ g. drop_guard end (settle_all rest g)) (settle_of_unsettled now actual e r h)
    ∙ ap (drop_guard end) (settle_all-settled rest e' r' refl)
    ∙ drop_guard_of_settled end e' r' refl

-- A granted request that is settled in its window, and then dropped, leaves the window's count at
-- what it was, and its actual tokens more if it completed; and it leaves the held tokens as they
-- were.
pub guard_lifecycle :
    (e : QuotaEngine) (now later end : ℕ) (consumer model : Str) (spec : LimitWindowSpec) (n : ℕ)
    (actual : Option ℕ)
    → window_idx later spec ≡ window_idx now spec
    → (reserve e now consumer model spec n).1 ≢ hard_deny
    → let w = window_idx now spec in
      let k : QuotaKey = (consumer, model) in
      let before = counted w (entry e k) in
      let e1 = (reserve e now consumer model spec n).0 in
      let guard = new_reservation consumer model spec now n in
      let e2 = drop_guard end (settle later actual (e1, guard)) in
      held w (entry e k) ≤ before
      → before + n + unwrap_or actual 0 ≤ u64_max
      → (counted w (entry e2 k) ≡ before + unwrap_or actual 0)
        × (held w (entry e2 k) ≡ held w (entry e k))
unfolding new_reservation settle settle_engine drop_guard
guard_lifecycle e now later end consumer model spec n none same pass fits sum_fits = ground (
  arith,
  reserve-counted e now consumer model spec n,
  reserve-decide e now consumer model spec n,
  release-counted (reserve e now consumer model spec n).0 later (window_idx now spec)
      (window_idx now spec) (consumer, model) n 0,
)
guard_lifecycle e now later end consumer model spec n (some x) same pass fits sum_fits = ground (
  arith,
  reserve-counted e now consumer model spec n,
  reserve-decide e now consumer model spec n,
  commit-counted (reserve e now consumer model spec n).0 later consumer model spec n x,
)
