-- ===== src/Quota/Guard.antt =====
-- crates/hygress-gateway/src/quota.rs: the guard that settles a reservation once, on every
-- terminal path. The engine that the guard shares (`Arc<QuotaEngine>`) is passed beside it, and
-- each read of the clock is an argument.
use hygress.Common.{ℕ, Str, Bool, true, false, Option, none, some, if◌then◌else◌}
use hygress.Policy.{LimitWindowSpec}
use hygress.Quota.{QuotaEngine, QuotaKey, window_idx, commit, release}

pub record QuotaReservation : Type 0 where
  pub key : QuotaKey
  pub spec : LimitWindowSpec
  pub widx : ℕ
  pub est : ℕ
  pub settled : Bool

-- `QuotaReservation::new`, which computes the window as the engine does.
unfoldable pub new_reservation : Str → Str → LimitWindowSpec → ℕ → ℕ → QuotaReservation
new_reservation consumer model spec now_ms est = record {
  key = (consumer, model);
  spec = spec;
  widx = window_idx now_ms spec;
  est = est;
  settled = false;
}

-- The call on the engine that settles a reservation: a commit of the actual tokens, or a release.
unfoldable pub settle_engine : ℕ → Option ℕ → QuotaReservation → QuotaEngine → QuotaEngine
settle_engine now (some actual) r e = commit e now r.key.0 r.key.1 r.spec r.est actual
settle_engine now none r e = (release e now r.widx r.key r.est 0).0

unfoldable pub settle :
    ℕ → Option ℕ → QuotaEngine × QuotaReservation → QuotaEngine × QuotaReservation
settle now actual (e, r) =
    if r.settled then (e, r) else (settle_engine now actual r e, record r { settled = true })

-- `Drop::drop`.
unfoldable pub drop_guard : ℕ → QuotaEngine × QuotaReservation → QuotaEngine
drop_guard now (e, r) = if r.settled then e else (release e now r.widx r.key r.est 0).0
