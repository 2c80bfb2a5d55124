-- ===== src/Kitchen/Portions.antt =====
-- The portion inventory of the kitchen over sequences of commands and sweep rounds.
use hotdrop_orchestration.Base.{
  Key, ℕ, ◌≤◌, ◌≡◌, subst, some, List, [], ◌∷◌, arith, ◌==◌, ==_iff, first, Bool-cases, inl, inr,
}
use hotdrop_orchestration.Contracts.{
  ReservePortionsCommand, ReleasePortionsCommand, AcceptOrderCommand,
}
use hotdrop_orchestration.Prisma.{Prisma, Documented}
use hotdrop_orchestration.Messaging.{Env}
use hotdrop_orchestration.Kitchen.{Drop, Reservation, KitchenStore}
use hotdrop_orchestration.Kitchen.Service.{reserve_portions, release_portions, accept_order}
use hotdrop_orchestration.Kitchen.Sweeper.{sweep_one}
use hotdrop_orchestration.Kitchen.Accounts.{IsAccounted, IsConserved, held_for}
use hotdrop_orchestration.Kitchen.Kept.{
  HasItems, reserve_portions-IsConserved, release_portions-IsConserved, accept_order-IsConserved,
  sweep_one-IsConserved, IsOpen,
}

-- What may happen to the kitchen's database, one transaction at a time and in any order: a command
-- from the queue, or a round of the sweep.
pub data Step (db : Prisma) (s : KitchenStore) : KitchenStore → Type 0 where
  reserve :
      (env : Env) (ttl : ℕ) (mid : Key) (cmd : ReservePortionsCommand)
      → Step db s (reserve_portions db env ttl mid cmd s).1
  release :
      (env : Env) (mid : Key) (cmd : ReleasePortionsCommand)
      → Step db s (release_portions db env mid cmd s).1
  accept :
      (env : Env) (mid : Key) (cmd : AcceptOrderCommand)
      → IsOpen cmd.order_id s.tables
      → Step db s (accept_order db env mid cmd s).1
  sweep :
      (env : Env) (seen : Reservation)
      → HasItems seen s.tables
      → Step db s (sweep_one db env seen s).1

pub data Reach (db : Prisma) (s : KitchenStore) : KitchenStore → Type 0 where
  here : Reach db s s
  next : {t u : KitchenStore} → Reach db s t → Step db t u → Reach db s u

Step-IsConserved :
    {db : Prisma}
    → Documented db
    → {s t : KitchenStore} → Step db s t
    → IsConserved s.tables
    → IsConserved t.tables
Step-IsConserved {db = db} law {s = s} (reserve env ttl mid cmd) h =
    reserve_portions-IsConserved db law env ttl mid cmd s h
Step-IsConserved {db = db} law {s = s} (release env mid cmd) h =
    release_portions-IsConserved db law env mid cmd s h
Step-IsConserved {db = db} law {s = s} (accept env mid cmd active) h =
    accept_order-IsConserved db law env mid cmd s active h
Step-IsConserved {db = db} law {s = s} (sweep env seen same) h =
    sweep_one-IsConserved db law env seen s same h

-- Whatever reservations, releases, acceptances of reservations that are not RELEASED, and sweep
-- rounds (each for a reservation with the items that it has read) the kitchen's database goes
-- through, in any order, from tables where no two drops have one id, every drop has
-- available + reserved = totalPortions, and reserved is what its HELD and CONFIRMED reservations
-- hold, the tables are such again.
pub Reach-IsConserved :
    {db : Prisma}
    → Documented db
    → {s t : KitchenStore} → Reach db s t
    → IsConserved s.tables
    → IsConserved t.tables
Reach-IsConserved law here h = h
Reach-IsConserved law (next r step) h = Step-IsConserved law step (Reach-IsConserved law r h)

IsAccounted-bound :
    (owed : Key → ℕ) (ds : List Drop) (k : Key) (d : Drop)
    → IsAccounted owed ds
    → first (λ x. x.id == k) ds ≡ some d
    → owed k ≤ d.total_portions
IsAccounted-bound owed [] k d h e = cc
IsAccounted-bound owed (x ∷ ds) k d h e = elim (Bool-cases (x.id == k)) [
  | inl same ↦ ground (arith, subst (λ j. x.reserved ≡ owed j) ((==_iff x.id k).0 same) h.2)
  | inr other ↦ IsAccounted-bound owed ds k d h.3 (ground arith)
]

-- After any sequence of reservations, releases, acceptances of reservations that are not RELEASED, and
-- sweep rounds (each for a reservation with the items that it has read), from tables where no two
-- drops have one id, every drop has available + reserved = totalPortions, and reserved is what its
-- HELD and CONFIRMED reservations hold, no drop is oversold: what the reservations that are not
-- RELEASED hold of it is at most its total portions.
pub never_oversold :
    {db : Prisma}
    → Documented db
    → {s t : KitchenStore} → Reach db s t
    → IsConserved s.tables
    → (drop_id : Key) (d : Drop) → first (λ x. x.id == drop_id) t.tables.drops ≡ some d
    → held_for drop_id t.tables.reservations ≤ d.total_portions
never_oversold law r h drop_id d e =
    IsAccounted-bound (λ k. held_for k _) _ drop_id d (Reach-IsConserved law r h) e
