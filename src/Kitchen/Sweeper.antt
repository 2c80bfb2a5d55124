-- ===== src/Kitchen/Sweeper.antt =====
-- kitchen.service.ts `releaseExpiredReservations`, and reservation.sweeper.ts, which calls it on a
-- timer and never while a sweep is running.
use hotdrop_orchestration.Base.{
  ℕ, ◌+◌, Bool, true, false, ◌&&◌, Option, none, some, List, [], ◌∷◌, ltb, if◌then◌else◌,
}
use hotdrop_orchestration.Result.{Result, ok, err, Tx, pure, ◌>>◌}
use hotdrop_orchestration.Prisma.{Prisma}
use hotdrop_orchestration.Messaging.{Env}
use hotdrop_orchestration.Kitchen.{Reservation, KitchenStore, reservation_key, released, is_held}
use hotdrop_orchestration.Kitchen.Service.{put_back_all, set_reservation}

-- where: { status: "HELD", expiresAt: { lt: new Date() } }
unfoldable pub is_expired : ℕ → Reservation → Bool
unfolding is_held
is_expired now r = is_held r.status && ltb r.expires_at now

-- What the sweep has seen of a reservation when it began: its id and its items.
module _ (db : Prisma) (env : Env) where
  unfoldable pub sweep_current : Reservation → Option Reservation → Tx KitchenStore Bool
  unfolding is_held
  sweep_current seen none = pure false
  sweep_current seen (some current) =
      if is_held current.status
      then (put_back_all db env seen.items
          >> (set_reservation db env reservation_key seen.id released >> pure true))
      else pure false

  unfoldable pub sweep_one : Reservation → KitchenStore → Result Bool × KitchenStore
  unfolding sweep_current
  sweep_one seen =
      db.transaction
        λ s. sweep_current seen (db.find_unique reservation_key seen.id s.tables.reservations) s

  -- The loop, from what was released so far; a transaction that throws ends it.
  unfoldable pub sweep_loop : List Reservation → ℕ → KitchenStore → Result ℕ × KitchenStore
  unfolding sweep_one
  sweep_loop [] count s = (ok count, s)
  sweep_loop (r ∷ rs) count s =
      let (did_release, t) = sweep_one r s in
      elim did_release [
        | ok done ↦ sweep_loop rs (if done then count + 1 else count) t
        | err e ↦ (err e, t)
      ]

  unfoldable pub release_expired_reservations : KitchenStore → Result ℕ × KitchenStore
  unfolding sweep_loop is_expired
  release_expired_reservations s =
      sweep_loop (db.find_many (is_expired env.now) s.tables.reservations) 0 s

-- The sweeper's timer and its flag.
pub record ReservationSweeper : Type 0 where
  pub timer : Bool
  pub running : Bool

unfoldable pub on_application_bootstrap : ReservationSweeper → ReservationSweeper
on_application_bootstrap w = record w { timer = true }

unfoldable pub on_module_destroy : ReservationSweeper → ReservationSweeper
on_module_destroy w = if w.timer then record w { timer = false } else w

-- What is logged of a sweep: the number released, if any was, or the error.
pub data SweepLog : Type 0 where
  nothing_released : SweepLog
  released_number : ℕ → SweepLog
  sweep_failed : SweepLog

unfoldable pub sweep_log : Result ℕ → SweepLog
sweep_log (ok count) = if ltb 0 count then released_number count else nothing_released
sweep_log (err e) = sweep_failed

-- Whether sweep() goes on, and the flag while it waits; where the flag is up it returns at once.
unfoldable pub sweep_begins : ReservationSweeper → Option ReservationSweeper
sweep_begins w = if w.running then none else some (record w { running = true })

unfoldable pub sweep_ends : ReservationSweeper → ReservationSweeper
sweep_ends w = record w { running = false }

module _ (db : Prisma) (env : Env) where
  unfoldable pub sweep_from :
      Option ReservationSweeper
      → ReservationSweeper
      → KitchenStore
      → Option SweepLog × ReservationSweeper × KitchenStore
  unfolding release_expired_reservations sweep_log sweep_ends
  sweep_from none w s = (none, w, s)
  sweep_from (some begun) w s =
      let (out, t) = release_expired_reservations db env s in
      (some (sweep_log out), sweep_ends begun, t)

  -- sweep(), where nothing else happens while it waits.
  unfoldable pub sweep :
      ReservationSweeper → KitchenStore → Option SweepLog × ReservationSweeper × KitchenStore
  unfolding sweep_begins sweep_from
  sweep w s = sweep_from (sweep_begins w) w s
