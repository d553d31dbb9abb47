-- ===== src/Tests/Quotas.antt =====
-- The token quotas at concrete calls.
use hygress.Common.{
  Str, codes, [], ◌∷◌, none, some, false, ◌≡◌, ◌≢◌, ◌↔◌, refl, arith, ◌<◌, ◌+◌, str_eq,
}
use hygress.Common.Dict.{lookup, insert}
use hygress.Policy.{LimitWindowSpec}
use hygress.Quota.{
  QuotaEngine, QuotaDecision, allowed, soft_exceed, hard_deny, empty_engine, window_idx, current,
  reserve, commit, release, evict_idle, gc_stale, decide_quota,
}
use hygress.Quota.Budget.{counted, held, entry}
use hygress.Quota.Ledger.{History, start, granted, completed, History-no_leak, History-hard_limit}
use hygress.Quota.Crossing.{commit-late_steals}
use hygress.Quota.Guard.{QuotaReservation, new_reservation, drop_guard, settle, settle_engine}
use hygress.Quota.Lifecycle.{settle_all, drop_guard-settle_all, guard_lifecycle}

abbrev spec : LimitWindowSpec
spec = record { window_secs = 60; soft = some 80; hard = some 100 }

abbrev alice : Str
alice = codes "alice"

abbrev model : Str
model = codes "m"

passes : (reserve empty_engine 1000 alice model spec 70).1 ≢ hard_deny
unfolding reserve current lookup
passes = λ e. cc

in_first : window_idx 1000 spec ≡ 0
unfolding window_idx
in_first = refl

in_first_later : window_idx 2000 spec ≡ 0
unfolding window_idx
in_first_later = refl

abbrev reserved : QuotaEngine
reserved = (reserve empty_engine 1000 alice model spec 70).0

one_in_flight :
    History alice model spec 0 reserved (record { committed = 0; outstanding = 70 ∷ [] })
one_in_flight = granted start 1000 70 in_first passes (omega arith)

one_completed :
    History alice model spec 0
      (commit reserved 2000 alice model spec 70 50)
      (record { committed = 50; outstanding = [] })
one_completed = completed one_in_flight 2000 70 50 [] [] in_first_later refl (omega arith)

History-hard_limit_example :
    ((reserve reserved 2000 alice model spec 31).1 ≡ hard_deny) ↔ (100 < 101)
History-hard_limit_example =
    History-hard_limit alice model spec 0 2000 31 100 one_in_flight in_first_later refl
      (omega arith)

History-no_leak_example :
    (counted 0 (entry (commit reserved 2000 alice model spec 70 50) (alice, model)) ≡ 50)
    × (held 0 (entry (commit reserved 2000 alice model spec 70 50) (alice, model)) ≡ 0)
History-no_leak_example = History-no_leak alice model spec 0 one_completed refl

abbrev bob : Str
bob = codes "bob"

-- At 61 seconds the second window has begun, and the counter stands for the first.
nothing_yet : counted (window_idx 61000 spec) (entry reserved (alice, model)) ≡ 0
unfolding reserve current lookup insert str_eq window_idx hygress.Quota.charge
nothing_yet = refl

none_held_yet : held (window_idx 61000 spec) (entry reserved (alice, model)) ≡ 0
unfolding reserve current lookup insert str_eq window_idx hygress.Quota.charge
none_held_yet = refl

passes_again : (reserve reserved 61000 alice model spec 40).1 ≢ hard_deny
unfolding reserve current lookup insert str_eq window_idx hygress.Quota.charge
passes_again = λ e. cc

-- The count is 30 in place of 70, since 40 of the 70 stale tokens are taken off the other request.
commit-late_steals_example :
    counted (window_idx 61000 spec) (
        entry
          (commit (reserve reserved 61000 alice model spec 40).0 61000 alice model spec 70 30)
          (alice, model))
      + 40
    ≡ 70
commit-late_steals_example =
    commit-late_steals reserved 61000 61000 alice model spec 70 40 30 refl nothing_yet none_held_yet
      passes_again (omega arith)

abbrev guard : QuotaReservation
guard = record { key = (alice, model); spec = spec; widx = 0; est = 70; settled = false }

drop_guard-settle_all_example :
    drop_guard 9000 (settle_all ((2000, some 50) ∷ (3000, none) ∷ []) (reserved, guard))
    ≡ settle_engine 2000 (some 50) guard reserved
drop_guard-settle_all_example =
    drop_guard-settle_all ((2000, some 50) ∷ (3000, none) ∷ []) 9000 reserved guard refl

nothing_before : counted (window_idx 1000 spec) (entry empty_engine (alice, model)) ≡ 0
unfolding lookup
nothing_before = refl

guard_lifecycle_example :
    let e2 =
      drop_guard 9000
        (settle 2000 (some 50) (reserved, new_reservation alice model spec 1000 70)) in
    (counted (window_idx 1000 spec) (entry e2 (alice, model))
      ≡ counted (window_idx 1000 spec) (entry empty_engine (alice, model)) + 50)
    × (held (window_idx 1000 spec) (entry e2 (alice, model))
        ≡ held (window_idx 1000 spec) (entry empty_engine (alice, model)))
unfolding lookup window_idx
guard_lifecycle_example =
    guard_lifecycle empty_engine 1000 2000 9000 alice model spec 70 (some 50) refl passes
      (omega arith) (omega arith)
