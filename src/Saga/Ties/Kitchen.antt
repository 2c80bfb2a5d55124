-- ===== src/Saga/Ties/Kitchen.antt =====
-- The kitchen's transactions, and its reservations and replies beside the orders.
use hotdrop_orchestration.Base.{
  Key, ℕ, ◌≡◌, refl, sym, ap, subst, Option, none, some, List, [], ◌∷◌, ◌==◌, ==_refl, first,
  first-append, Bool-cases, inl, inr,
}
use hotdrop_orchestration.Contracts.{
  Payload, ReservePortionsCommand, ReleasePortionsCommand, AcceptOrderCommand,
}
use hotdrop_orchestration.Result.{Result, ok, err, step_failure}
use hotdrop_orchestration.Prisma.{Prisma, Documented}
use hotdrop_orchestration.Messaging.{Env, OutboxMessage}
use hotdrop_orchestration.Participant.Delivery.{acknowledged_state}
use hotdrop_orchestration.Participant.Consume.{received}
use hotdrop_orchestration.Kitchen.{
  Drop, Reservation, ReservationStatus, KitchenTables, KitchenStore, released, confirmed,
  is_released, is_held, reservation_key, reservation_order_key,
}
use hotdrop_orchestration.Kitchen.Service.{
  reserve_portions, release_portions, accept_order, items_of,
}
use hotdrop_orchestration.Kitchen.Sweeper.{sweep_one}
use hotdrop_orchestration.Kitchen.Sweeps.{swept, sweep_outcome, sweep_one-settled}
use hotdrop_orchestration.Kitchen.Inventory.{given, IsPlain, given-IsPlain}
use hotdrop_orchestration.Kitchen.Reserving.{
  Outcome, for_order, new_reservation, reserve_outcome, reserve_portions-settled,
}
use hotdrop_orchestration.Kitchen.Commands.{
  with_status, returned, release_outcome, accept_outcome, release_portions-settled,
  accept_order-settled,
}
use hotdrop_orchestration.Kitchen.Consumer.{kitchen_consumer}
use hotdrop_orchestration.Saga.{kitchen_hears, kitchen_message}
use hotdrop_orchestration.Saga.System.{IsNew}
use hotdrop_orchestration.Saga.Ties.Tables.{
  IsTable, append-Found, modify_first-Found, append-IsTable, modify_first-IsTable,
}
use hotdrop_orchestration.Saga.Ties.World.{World, Agrees, IsOrdered}
use hotdrop_orchestration.Saga.Ties.Replies.{
  Later-refl, IsTied, Moved, stayed, Moved-still, Works, OutcomeTied, settled-Moved,
}

module _ (w : World) where
  abbrev pub with_reservations : KitchenTables → World
  with_reservations t = record w { reservations = t.reservations }

  abbrev pub HasOrdered : KitchenTables → Type 0
  HasOrdered t = IsTable reservation_key reservation_order_key (IsOrdered w) t.reservations

  abbrev pub KitchenTied : KitchenStore → Type 0
  KitchenTied = IsTied with_reservations HasOrdered

  abbrev pub KitchenMoved : KitchenStore → KitchenStore → Type 0
  KitchenMoved = Moved with_reservations HasOrdered

  abbrev Tied : KitchenStore → Outcome → Type 0
  Tied = OutcomeTied with_reservations HasOrdered

  Works-still : (s : KitchenStore) → HasOrdered s.tables → Works with_reservations HasOrdered s s
  Works-still s h = (Later-refl (with_reservations s.tables), h, refl)

  restatused :
      (column : Reservation → Key) (k : Key) (status : ReservationStatus) (rows : List Drop)
      (s : KitchenStore)
      → HasOrdered s.tables
      → Works with_reservations HasOrdered s (with_status column k status rows s)
  restatused column k status rows s h = (
    record {
      agreed = λ id t x. x;
      reserved = λ id i x.
          modify_first-Found reservation_key reservation_order_key (λ r. column r == k)
            (λ r. record r { status = status }) (λ r. refl) (λ r. refl) i id s.tables.reservations
            x;
      paid = λ id i x. x;
      assigned = λ id i x. x;
    },
    modify_first-IsTable reservation_key reservation_order_key (IsOrdered w) (λ r. column r == k)
        (λ r. record r { status = status }) s.tables.reservations (λ r. refl) (λ r. refl) (λ r x. x)
        h,
    refl,
  )

  reserve-Tied :
      (env : Env) (ttl : ℕ) (cmd : ReservePortionsCommand) (rows : Option (List Drop))
      (r : Option Reservation) (s : KitchenStore)
      → IsNew reservation_key (env.cuid s.drawn) s.tables.reservations
      → Agrees w (Payload.reserve_body cmd)
      → HasOrdered s.tables
      → Tied s (reserve_outcome env ttl cmd rows r s)
  reserve-Tied env ttl cmd none r s new asked h = tt
  reserve-Tied env ttl cmd (some rows) (some r) s new asked h = tt
  reserve-Tied env ttl cmd (some rows) none s new asked h =
      let row = new_reservation env ttl s.drawn cmd in
      (
        (
          record {
            agreed = λ id t x. x;
            reserved = λ id i x.
                append-Found reservation_key reservation_order_key i id s.tables.reservations
                  (row ∷ []) x;
            paid = λ id i x. x;
            assigned = λ id i x. x;
          },
          append-IsTable reservation_key reservation_order_key (IsOrdered w) s.tables.reservations
              row new (asked.0, asked.1, ap items_of asked.2) h,
          refl,
        ),
        (
          (
            row,
            first-append (λ x. x.id == row.id) s.tables.reservations row new (==_refl row.id),
            refl,
          ),
          tt,
          tt,
        ),
      )

  returned-Tied :
      (id : Key) (out : Result (List Drop)) (s : KitchenStore)
      → IsPlain out
      → HasOrdered s.tables
      → Tied s (returned id out s)
  returned-Tied id (err (step_failure r)) s plain h = absurd plain
  returned-Tied id (err _) s plain h = tt
  returned-Tied id (ok rows) s plain h = restatused reservation_key id released rows s h

  release-Tied :
      (r : Option Reservation) (s : KitchenStore)
      → HasOrdered s.tables
      → Tied s (release_outcome r s)
  release-Tied none s h = Works-still s h
  release-Tied (some r) s h = elim (Bool-cases (is_released r.status)) [
    | inl over ↦ rw over (Works-still s h)
    | inr open_one ↦ rw open_one (
        returned-Tied r.id (given r.items s.tables.drops) s (given-IsPlain r.items s.tables.drops)
          h)
  ]

  accept-Tied :
      (cmd : AcceptOrderCommand) (r : Option Reservation) (s : KitchenStore)
      → HasOrdered s.tables
      → Tied s (accept_outcome cmd r s)
  accept-Tied cmd none s h = tt
  accept-Tied cmd (some r) s h =
      (restatused reservation_order_key cmd.order_id confirmed s.tables.drops s h, tt)

  swept_moved :
      (seen : Reservation) (out : Result (List Drop)) (s : KitchenStore)
      → KitchenTied s
      → KitchenMoved s (swept seen out s).1
  swept_moved seen (err e) s h = stayed with_reservations HasOrdered s h
  swept_moved seen (ok rows) s h =
      Moved-still with_reservations HasOrdered s
        (with_status reservation_key seen.id released rows s)
        (restatused reservation_key seen.id released rows s h.0) h

  round_moved :
      (seen : Reservation) (found : Option Reservation) (s : KitchenStore)
      → KitchenTied s
      → KitchenMoved s (sweep_outcome seen found s).1
  round_moved seen none s h = stayed with_reservations HasOrdered s h
  round_moved seen (some c) s h = elim (Bool-cases (is_held c.status)) [
    | inl kept ↦ rw kept (swept_moved seen (given seen.items s.tables.drops) s h)
    | inr over ↦ rw over (stayed with_reservations HasOrdered s h)
  ]

  module _ {db : Prisma} (law : Documented db) where
    pub sweep_moved :
        (env : Env) (seen : Reservation) (s : KitchenStore)
        → KitchenTied s
        → KitchenMoved s (sweep_one db env seen s).1
    sweep_moved env seen s h =
        subst (λ o. KitchenMoved s o.1) (sym (sweep_one-settled db law env seen s))
          (round_moved seen _ s h)

    reserve_moved :
        (env : Env) (ttl : ℕ) (m : Key) (cmd : ReservePortionsCommand) (s : KitchenStore)
        → IsNew reservation_key (env.cuid s.drawn) s.tables.reservations
        → Agrees w (Payload.reserve_body cmd)
        → KitchenTied s
        → KitchenMoved s (reserve_portions db env ttl m cmd s).1
    reserve_moved env ttl m cmd s new asked h =
        subst (λ o. KitchenMoved s o.1) (sym (reserve_portions-settled db law env ttl m cmd s))
          (settled-Moved with_reservations HasOrdered env m (received m s) _ s
            (reserve-Tied env ttl cmd _ _ s new asked h.0) h)

    release_moved :
        (env : Env) (m : Key) (cmd : ReleasePortionsCommand) (s : KitchenStore)
        → KitchenTied s
        → KitchenMoved s (release_portions db env m cmd s).1
    release_moved env m cmd s h =
        subst (λ o. KitchenMoved s o.1) (sym (release_portions-settled db law env m cmd s))
          (settled-Moved with_reservations HasOrdered env m (received m s) _ s
            (release-Tied (first (λ r. r.id == cmd.reservation_id) s.tables.reservations) s h.0) h)

    accept_moved :
        (env : Env) (m : Key) (cmd : AcceptOrderCommand) (s : KitchenStore)
        → KitchenTied s
        → KitchenMoved s (accept_order db env m cmd s).1
    accept_moved env m cmd s h =
        subst (λ o. KitchenMoved s o.1) (sym (accept_order-settled db law env m cmd s))
          (settled-Moved with_reservations HasOrdered env m (received m s) _ s
            (accept-Tied cmd (for_order cmd.order_id s.tables.reservations) s h.0) h)

    heard_cases :
        (env : Env) (ttl : ℕ) (m : OutboxMessage) (s : KitchenStore) (body : Payload)
        → m.payload ≡ body
        → IsNew reservation_key (env.cuid s.drawn) s.tables.reservations
        → Agrees w body
        → KitchenTied s
        → KitchenMoved s (kitchen_hears db env ttl (some m) s)
    unfolding kitchen_hears kitchen_message kitchen_consumer
    heard_cases env ttl m s (Payload.reserve_body cmd) e new asked h = rw e (
        rw (acknowledged_state (reserve_portions db env ttl m.id cmd s))
          (reserve_moved env ttl m.id cmd s new asked h))
    heard_cases env ttl m s (Payload.release_body cmd) e new asked h = rw e (
        rw (acknowledged_state (release_portions db env m.id cmd s))
          (release_moved env m.id cmd s h))
    heard_cases env ttl m s (Payload.accept_body cmd) e new asked h =
        rw e
          (rw (acknowledged_state (accept_order db env m.id cmd s)) (accept_moved env m.id cmd s h))
    heard_cases env ttl m s _ e new asked h = rw e (stayed with_reservations HasOrdered s h)

    -- The kitchen hears a message that agrees with the orders.
    pub heard_moved :
        (env : Env) (ttl : ℕ) (m : OutboxMessage) (s : KitchenStore)
        → IsNew reservation_key (env.cuid s.drawn) s.tables.reservations
        → Agrees w m.payload
        → KitchenTied s
        → KitchenMoved s (kitchen_hears db env ttl (some m) s)
    heard_moved env ttl m s new asked h = heard_cases env ttl m s m.payload refl new asked h
