-- ===== src/Quota/Ledger.antt =====
-- One key's budget in one window as a ledger: the tokens committed, and the estimates of the
-- requests in flight. Any interleaving of the requests' calls keeps the engine equal to it.
use hygress.Common.{
  ◌<◌, ◌↔◌, ap, false, ℕ, ◌+◌, ◌≤◌, Str, List, [], ◌∷◌, ◌++◌, ◌≡◌, ◌≢◌, refl, arith, some, u64_max,
  ◌≡◌,
}
use hygress.Policy.{LimitWindowSpec}
use hygress.Quota.{
  QuotaEngine, QuotaKey, key_eq, hard_deny, empty_engine, window_idx, reserve, commit, release,
}
use hygress.Quota.Budget.{
  counted, held, entry, reserve-counted, reserve-decide, commit-counted, release-counted,
  entry-reserve, entry-commit, entry-release,
}
use hygress.Common.Dict.{lookup}

pub record Ledger : Type 0 where
  pub committed : ℕ
  pub outstanding : List ℕ

abbrev pub sum : List ℕ → ℕ
sum [] = 0
sum (n ∷ ns) = n + sum ns

sum_middle :
    (before : List ℕ) (n : ℕ) (after : List ℕ)
    → sum (before ++ n ∷ after) ≡ n + sum (before ++ after)
sum_middle [] n after = refl
sum_middle (m ∷ before) n after = omega (arith, sum_middle before n after)

abbrev pub total : Ledger → ℕ
total l = l.committed + sum l.outstanding

module _ (consumer model : Str) (spec : LimitWindowSpec) (w : ℕ) where
  -- The histories of one window: reservations that pass or are denied, settlements of a request in
  -- flight by a commit or a release, and calls for other keys in between.
  pub data History : QuotaEngine → Ledger → Type 0 where
    start : History empty_engine (record { committed = 0; outstanding = [] })
    granted :
        {e : QuotaEngine} {l : Ledger}
        → History e l
        → (now n : ℕ) → window_idx now spec ≡ w
        → (reserve e now consumer model spec n).1 ≢ hard_deny
        → total l + n ≤ u64_max
        → History
            (reserve e now consumer model spec n).0
            (record l { outstanding = n ∷ l.outstanding })
    denied :
        {e : QuotaEngine} {l : Ledger}
        → History e l
        → (now n : ℕ) → window_idx now spec ≡ w
        → (reserve e now consumer model spec n).1 ≡ hard_deny
        → History (reserve e now consumer model spec n).0 l
    completed :
        {e : QuotaEngine} {l : Ledger}
        → History e l
        → (now n x : ℕ) (before after : List ℕ) → window_idx now spec ≡ w
        → l.outstanding ≡ before ++ n ∷ after
        → l.committed + x + sum (before ++ after) ≤ u64_max
        → History
            (commit e now consumer model spec n x)
            (record { committed = l.committed + x; outstanding = before ++ after })
    aborted :
        {e : QuotaEngine} {l : Ledger}
        → History e l
        → (now n x : ℕ) (before after : List ℕ) → l.outstanding ≡ before ++ n ∷ after
        → History
            (release e now w (consumer, model) n x).0
            (record l { outstanding = before ++ after })
    reserved_elsewhere :
        {e : QuotaEngine} {l : Ledger}
        → History e l
        → (now n : ℕ) (consumer' model' : Str) (spec' : LimitWindowSpec)
        → key_eq.beq (consumer', model') (consumer, model) ≡ false
        → History (reserve e now consumer' model' spec' n).0 l
    completed_elsewhere :
        {e : QuotaEngine} {l : Ledger}
        → History e l
        → (now n x : ℕ) (consumer' model' : Str) (spec' : LimitWindowSpec)
        → key_eq.beq (consumer', model') (consumer, model) ≡ false
        → History (commit e now consumer' model' spec' n x) l
    aborted_elsewhere :
        {e : QuotaEngine} {l : Ledger}
        → History e l
        → (now n x v : ℕ) (k : QuotaKey) → key_eq.beq k (consumer, model) ≡ false
        → History (release e now v k n x).0 l

  abbrev pub Agrees : QuotaEngine → Ledger → Type 0
  Agrees e l =
      (counted w (entry e (consumer, model)) ≡ total l)
      × (held w (entry e (consumer, model)) ≡ sum l.outstanding)

  -- Whatever the interleaving, the engine counts what was committed and what is in flight.
  pub History-Agrees : {e : QuotaEngine} {l : Ledger} → History e l → Agrees e l
  unfolding lookup
  History-Agrees start = (refl, refl)
  History-Agrees (granted {e} {l} h now n same pass fits) =
      let (used_eq, est_eq) = History-Agrees h in
      ground (
        arith,
        reserve-counted e now consumer model spec n,
        reserve-decide e now consumer model spec n,
      )
  History-Agrees (denied {e} {l} h now n same fail) =
      let (used_eq, est_eq) = History-Agrees h in
      ground (
        arith,
        reserve-counted e now consumer model spec n,
        reserve-decide e now consumer model spec n,
      )
  History-Agrees (completed {e} {l} h now n x before after same out fits) =
      let (used_eq, est_eq) = History-Agrees h in
      ground
        (arith, commit-counted e now consumer model spec n x, ap sum out, sum_middle before n after)
  History-Agrees (aborted {e} {l} h now n x before after out) =
      let (used_eq, est_eq) = History-Agrees h in
      ground (
        arith,
        release-counted e now w w (consumer, model) n x,
        ap sum out,
        sum_middle before n after,
      )
  History-Agrees (reserved_elsewhere {e} {l} h now n c m sp ne) =
      let a = History-Agrees h in rw (entry-reserve e now c m sp n (consumer, model), ne) a
  History-Agrees (completed_elsewhere {e} {l} h now n x c m sp ne) =
      let a = History-Agrees h in rw (entry-commit e now c m sp n x (consumer, model), ne) a
  History-Agrees (aborted_elsewhere {e} {l} h now n x v k ne) =
      let a = History-Agrees h in rw (entry-release e now v k n x (consumer, model), ne) a

  -- When every request of a history has been settled, by a commit or by a release, the engine
  -- counts the committed tokens and holds none.
  pub History-no_leak :
      {e : QuotaEngine} {l : Ledger}
      → History e l
      → l.outstanding ≡ []
      → (counted w (entry e (consumer, model)) ≡ l.committed)
        × (held w (entry e (consumer, model)) ≡ 0)
  History-no_leak h out = ground (arith, History-Agrees h, ap sum out)

  -- A request is granted only if everything committed and in flight, its own estimate included,
  -- stays within the hard limit, and it is denied only if it would not.
  pub History-hard_limit :
      {e : QuotaEngine} {l : Ledger} (now n h : ℕ)
      → History e l
      → window_idx now spec ≡ w
      → spec.hard ≡ some h
      → total l + n ≤ u64_max
      → ((reserve e now consumer model spec n).1 ≡ hard_deny) ↔ (h < total l + n)
  History-hard_limit {e} {l} now n h his same hard fits =
      ground (arith, History-Agrees his, reserve-decide e now consumer model spec n)
