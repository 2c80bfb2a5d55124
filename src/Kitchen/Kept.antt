-- ===== src/Kitchen/Kept.antt =====
-- What the outcomes of the kitchen's handlers keep of its tables.
use hotdrop_orchestration.Base.{
  Key, ℕ, ◌+◌, ◌≡◌, refl, sym, subst, true, false, Option, none, some, List, [], ◌∷◌, ◌++◌, arith,
  ◌==◌, first, modify_first, Bool-cases, inl, inr,
}
use hotdrop_orchestration.Contracts.{
  ReservePortionsCommand, ReleasePortionsCommand, AcceptOrderCommand,
}
use hotdrop_orchestration.Result.{Result, ok, err, step_failure}
use hotdrop_orchestration.Prisma.{Prisma, Documented}
use hotdrop_orchestration.Messaging.{Env, InboxMessage}
use hotdrop_orchestration.Participant.Consume.{settled}
use hotdrop_orchestration.Kitchen.{
  Drop, Reservation, KitchenStore, KitchenTables, released, is_released, is_held,
}
use hotdrop_orchestration.Kitchen.Service.{reserve_portions, release_portions, accept_order}
use hotdrop_orchestration.Kitchen.Inventory.{taken, given}
use hotdrop_orchestration.Kitchen.Commands.{
  release_outcome, reservation_id, returned, accept_outcome, release_portions-settled,
  accept_order-settled,
}
use hotdrop_orchestration.Kitchen.Reserving.{
  Outcome, for_order, new_reservation, reserve_outcome, reserve_portions-settled,
}
use hotdrop_orchestration.Kitchen.Sweeper.{sweep_one}
use hotdrop_orchestration.Kitchen.Sweeps.{swept, sweep_outcome, sweep_one-settled}
use hotdrop_orchestration.Kitchen.Conservation.{
  lines_qty-items_of, given-IsAccounted, held_for-append, held_for-release, held_for-confirm,
}
use hotdrop_orchestration.Kitchen.Accounts.{
  IsConserved, held_for, portions_of, lines_qty, IsAccounted-ext, taken-IsAccounted,
}

-- What an outcome leaves satisfies P.
abbrev Leaves : (KitchenTables → Type 0) → Outcome → Type 0
Leaves P (ok (reply, t)) = P t.tables
Leaves P (err e) = Unit

settled_keeps :
    (P : KitchenTables → Type 0) (env : Env) (mid : Key) (seen : Option InboxMessage)
    (out : Outcome) (s : KitchenStore)
    → P s.tables
    → Leaves P out
    → P (settled env mid seen out s).1.tables
settled_keeps P env mid (some m) out s h l = h
settled_keeps P env mid none (ok (none, t)) s h l = l
settled_keeps P env mid none (ok (some reply, t)) s h l = l
settled_keeps P env mid none (err (step_failure reply)) s h l = h
settled_keeps P env mid none (err _) s h l = h

-- A new reservation holds what its lines took.
new_holds :
    (env : Env) (ttl : ℕ) (cmd : ReservePortionsCommand) (s : KitchenStore) (k : Key)
    → held_for k s.tables.reservations + lines_qty cmd.lines k
      ≡ held_for k (s.tables.reservations ++ new_reservation env ttl s.drawn cmd ∷ [])
unfolding is_released
new_holds env ttl cmd s k = omega (
  arith,
  held_for-append k s.tables.reservations (new_reservation env ttl s.drawn cmd),
  lines_qty-items_of cmd.lines k,
)

reserve-Leaves :
    (env : Env) (ttl : ℕ) (cmd : ReservePortionsCommand) (s : KitchenStore)
    (rows : Option (List Drop)) (r : Option Reservation)
    → taken cmd.lines s.tables.drops ≡ rows
    → IsConserved s.tables
    → Leaves IsConserved (reserve_outcome env ttl cmd rows r s)
reserve-Leaves env ttl cmd s none r e h = tt
reserve-Leaves env ttl cmd s (some rows) (some r) e h = tt
reserve-Leaves env ttl cmd s (some rows) none e h =
    let new = new_reservation env ttl s.drawn cmd in
    IsAccounted-ext (λ k. held_for k s.tables.reservations + lines_qty cmd.lines k)
      (λ k. held_for k (s.tables.reservations ++ new ∷ [])) rows (λ k. new_holds env ttl cmd s k)
      (taken-IsAccounted cmd.lines (λ k. held_for k s.tables.reservations) s.tables.drops rows e h)

returned-Leaves :
    (s : KitchenStore) (r : Reservation) (out : Result (List Drop))
    → first (λ x. x.id == r.id) s.tables.reservations ≡ some r
    → is_released r.status ≡ false
    → given r.items s.tables.drops ≡ out
    → IsConserved s.tables
    → Leaves IsConserved (returned r.id out s)
returned-Leaves s r (err x) e active g h = tt
returned-Leaves s r (ok rows) e active g h =
    given-IsAccounted r.items (λ k. held_for k s.tables.reservations) _ s.tables.drops rows
      (λ k. held_for-release k (λ x. x.id == r.id) s.tables.reservations r e active) g h

release-Leaves :
    (id : Key) (s : KitchenStore) (found : Option Reservation)
    → first (λ x. x.id == id) s.tables.reservations ≡ found
    → IsConserved s.tables
    → Leaves IsConserved (release_outcome found s)
release-Leaves id s none e h = h
release-Leaves id s (some r) e h = elim (Bool-cases (is_released r.status)) [
  | inl over ↦ rw over h
  | inr active ↦ rw active (
      returned-Leaves s r _
        (subst (λ k. first (λ x. x.id == k) s.tables.reservations ≡ some r)
          (sym (reservation_id id s.tables.reservations r e)) e)
        active refl h)
]

accept-Leaves :
    (cmd : AcceptOrderCommand) (s : KitchenStore) (found : Option Reservation)
    → for_order cmd.order_id s.tables.reservations ≡ found
    → ((r : Reservation) → found ≡ some r → is_released r.status ≡ false)
    → IsConserved s.tables
    → Leaves IsConserved (accept_outcome cmd found s)
accept-Leaves cmd s none e active h = tt
accept-Leaves cmd s (some r) e active h =
    IsAccounted-ext (λ k. held_for k s.tables.reservations) _ s.tables.drops
      (λ k.
        held_for-confirm k (λ x. x.order_id == cmd.order_id) s.tables.reservations r e
          (active r refl))
      h

is_held-active : (r : Reservation) → is_held r.status ≡ true → is_released r.status ≡ false
unfolding is_held is_released
is_held-active r h = ground arith

-- What a round of the sweep knows of a reservation: it read these items, which never change.
abbrev pub HasItems : Reservation → KitchenTables → Type 0
HasItems seen t =
    (c : Reservation) → first (λ x. x.id == seen.id) t.reservations ≡ some c → c.items ≡ seen.items

swept_keeps :
    (seen c : Reservation) (s : KitchenStore) (out : Result (List Drop))
    → first (λ x. x.id == seen.id) s.tables.reservations ≡ some c
    → c.items ≡ seen.items
    → is_released c.status ≡ false
    → given seen.items s.tables.drops ≡ out
    → IsConserved s.tables
    → IsConserved (swept seen out s).1.tables
swept_keeps seen c s (err x) e same active g h = h
swept_keeps seen c s (ok rows) e same active g h =
    given-IsAccounted seen.items (λ k. held_for k s.tables.reservations) _ s.tables.drops rows
      (λ k.
        subst
          (λ items.
            held_for k s.tables.reservations
            ≡ held_for k (
                modify_first (λ x. x.id == seen.id) (λ x. record x { status = released })
                  s.tables.reservations)
              + portions_of k items)
          same (held_for-release k (λ x. x.id == seen.id) s.tables.reservations c e active))
      g h

sweep_keeps :
    (seen : Reservation) (s : KitchenStore) (found : Option Reservation)
    → first (λ x. x.id == seen.id) s.tables.reservations ≡ found
    → HasItems seen s.tables
    → IsConserved s.tables
    → IsConserved (sweep_outcome seen found s).1.tables
sweep_keeps seen s none e same h = h
sweep_keeps seen s (some c) e same h = elim (Bool-cases (is_held c.status)) [
  | inl kept ↦ rw kept (swept_keeps seen c s _ e (same c e) (is_held-active c kept) refl h)
  | inr over ↦ rw over h
]

module _ (db : Prisma) (law : Documented db) where
  pub reserve_portions-IsConserved :
      (env : Env) (ttl : ℕ) (mid : Key) (cmd : ReservePortionsCommand) (s : KitchenStore)
      → IsConserved s.tables
      → IsConserved (reserve_portions db env ttl mid cmd s).1.tables
  reserve_portions-IsConserved env ttl mid cmd s h =
      subst (λ t. IsConserved t.1.tables) (sym (reserve_portions-settled db law env ttl mid cmd s))
        (settled_keeps IsConserved env mid _ _ s h (reserve-Leaves env ttl cmd s _ _ refl h))

  pub release_portions-IsConserved :
      (env : Env) (mid : Key) (cmd : ReleasePortionsCommand) (s : KitchenStore)
      → IsConserved s.tables
      → IsConserved (release_portions db env mid cmd s).1.tables
  release_portions-IsConserved env mid cmd s h =
      subst (λ t. IsConserved t.1.tables) (sym (release_portions-settled db law env mid cmd s))
        (settled_keeps IsConserved env mid _ _ s h (release-Leaves cmd.reservation_id s _ refl h))

  pub accept_order-IsConserved :
      (env : Env) (mid : Key) (cmd : AcceptOrderCommand) (s : KitchenStore)
      → ((r : Reservation)
          → for_order cmd.order_id s.tables.reservations ≡ some r
          → is_released r.status ≡ false)
      → IsConserved s.tables
      → IsConserved (accept_order db env mid cmd s).1.tables
  accept_order-IsConserved env mid cmd s active h =
      subst (λ t. IsConserved t.1.tables) (sym (accept_order-settled db law env mid cmd s))
        (settled_keeps IsConserved env mid _ _ s h (accept-Leaves cmd s _ refl active h))

  pub sweep_one-IsConserved :
      (env : Env) (seen : Reservation) (s : KitchenStore)
      → HasItems seen s.tables
      → IsConserved s.tables
      → IsConserved (sweep_one db env seen s).1.tables
  sweep_one-IsConserved env seen s same h =
      subst (λ t. IsConserved t.1.tables) (sym (sweep_one-settled db law env seen s))
        (sweep_keeps seen s _ refl same h)

-- The order's reservation, where it has one, is not RELEASED.
abbrev pub IsOpen : Key → KitchenTables → Type 0
IsOpen order_id t =
    (r : Reservation) → for_order order_id t.reservations ≡ some r → is_released r.status ≡ false
