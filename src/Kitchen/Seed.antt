-- ===== src/Kitchen/Seed.antt =====
-- apps/kitchen-service/prisma/seed.ts: the demo data of the catalog. Each statement commits by itself,
-- and one that throws ends the script. Ids are numbers; a time of the day before 1970 is 0.
pub mod Reset
use hotdrop_orchestration.Base.{
  Key, ℕ, ◌+◌, ◌-◌, ◌*◌, String, Bool, true, false, ◌||◌, Option, none, some, List, [], ◌∷◌, ◌++◌,
  map, ◌==◌, if◌then◌else◌, is_some,
}
use hotdrop_orchestration.Contracts.{DropStatus}
use hotdrop_orchestration.Result.{Result, ok, err, foreign_key_violation}
use hotdrop_orchestration.Prisma.{Prisma}
use hotdrop_orchestration.Kitchen.{
  Dish, Drop, Reservation, ReservationItem, KitchenTables, drop_key,
}

-- model Kitchen
pub record KitchenRow : Type 0 where
  pub id : Key
  pub name : String

-- The tables of the catalog and of the reservations.
pub record SeedTables : Type 0 where
  pub kitchens : List KitchenRow
  pub kitchen : KitchenTables

abbrev pub kitchen_row_key : KitchenRow → Key
kitchen_row_key k = k.id

abbrev pub dish_key : Dish → Key
dish_key d = d.id

abbrev pub Script : Type 0 → Type 0
Script A = SeedTables → Result A × SeedTables

-- An awaited statement, and the rest of the script, which an exception skips.
unfoldable pub carried_on :
    {A : Type 0} → Result (Unit {0}) × SeedTables → Script A → Result A × SeedTables
carried_on (ok _, t) rest = rest t
carried_on (err e, t) rest = (err e, t)

unfoldable pub then_run : {A : Type 0} → Script (Unit {0}) → Script A → Script A
unfolding carried_on
then_run statement rest s = carried_on (statement s) rest

abbrev pub with_drops : List Drop → SeedTables → SeedTables
with_drops rows s = record s { kitchen = record (s.kitchen) { drops = rows } }

abbrev pub with_reservations : List Reservation → SeedTables → SeedTables
with_reservations rows s = record s { kitchen = record (s.kitchen) { reservations = rows } }

-- What a statement comes to, from the rows that it leaves.
unfoldable pub written :
    {Row : Type 0} → (Row → SeedTables) → SeedTables → Result Row → Result (Unit {0}) × SeedTables
written f s (ok rows) = (ok tt, f rows)
written f s (err e) = (err e, s)

-- The rows of the nested tables.
unfoldable pub all_items : List Reservation → List ReservationItem
all_items [] = []
all_items (r ∷ rs) = r.items ++ all_items rs

unfoldable pub all_dishes : List Drop → List Dish
all_dishes [] = []
all_dishes (d ∷ ds) = d.dishes ++ all_dishes ds

-- Whether an item of a reservation refers to the drop (a foreign key that does not cascade).
unfoldable pub is_referred : List ReservationItem → Drop → Bool
is_referred [] d = false
is_referred (i ∷ items) d = (i.drop_id == d.id) || is_referred items d

abbrev pub hour : ℕ
hour = 60 * 60 * 1000

abbrev pub ramen_lab : Key
ramen_lab = 1

abbrev pub taco_cartel : Key
taco_cartel = 2

abbrev pub tonkotsu : ℕ → Drop
tonkotsu now = record {
  id = 1;
  kitchen_id = ramen_lab;
  status = DropStatus.live;
  window_from = now - hour;
  window_to = now + 3 * hour;
  total_portions = 20;
  available = 20;
  reserved = 0;
  dishes =
      record {
        id = 1;
        name = "Tonkotsu Ramen";
        description = some "Rich pork broth";
        price_cents = 1500;
      }
      ∷ [];
}

abbrev pub al_pastor : ℕ → Drop
al_pastor now = record {
  id = 2;
  kitchen_id = taco_cartel;
  status = DropStatus.live;
  window_from = now - hour;
  window_to = now + 3 * hour;
  total_portions = 12;
  available = 12;
  reserved = 0;
  dishes =
      record {
        id = 2;
        name = "Al Pastor Tacos (3)";
        description = some "Pineapple + pork";
        price_cents = 1100;
      }
      ∷ record {
        id = 3;
        name = "Horchata";
        description = some "Rice & cinnamon";
        price_cents = 400;
      }
      ∷ [];
}

module _ (db : Prisma) where
  -- prisma.reservationItem.deleteMany()
  unfoldable pub delete_items : Script (Unit {0})
  unfolding written all_items
  delete_items s =
      written
        (λ _.
          with_reservations
            (map (λ (r : Reservation). record r { items = [] }) s.kitchen.reservations) s)
        s (db.delete_many (λ _. false) (all_items s.kitchen.reservations))

  -- prisma.reservation.deleteMany()
  unfoldable pub delete_reservations : Script (Unit {0})
  unfolding written
  delete_reservations s =
      written (λ rows. with_reservations rows s) s
        (db.delete_many (λ _. false) s.kitchen.reservations)

  -- prisma.dish.deleteMany()
  unfoldable pub delete_dishes : Script (Unit {0})
  unfolding written all_dishes
  delete_dishes s =
      written (λ _. with_drops (map (λ (d : Drop). record d { dishes = [] }) s.kitchen.drops) s) s
        (db.delete_many (λ _. false) (all_dishes s.kitchen.drops))

  -- prisma.drop.deleteMany()
  unfoldable pub delete_drops : Script (Unit {0})
  unfolding written all_items is_referred
  delete_drops s =
      written (λ rows. with_drops rows s) s
        (db.delete_many (is_referred (all_items s.kitchen.reservations)) s.kitchen.drops)

  -- prisma.kitchen.deleteMany(): no drop is left that would go with its kitchen.
  unfoldable pub delete_kitchens : Script (Unit {0})
  unfolding written
  delete_kitchens s =
      written (λ rows. record s { kitchens = rows }) s (db.delete_many (λ _. false) s.kitchens)

  unfoldable pub create_kitchen : Key → String → Script (Unit {0})
  unfolding written
  create_kitchen id name s =
      written (λ rows. record s { kitchens = rows }) s
        (db.create (kitchen_row_key ∷ []) (record { id = id; name = name }) s.kitchens)

  -- dishes: { create: [...] }, beside the dishes that are there.
  unfoldable pub create_dishes : List Dish → List Dish → Result (List Dish)
  create_dishes [] there = ok there
  create_dishes (d ∷ ds) there = elim (db.create (dish_key ∷ []) d there) [
    | ok rows ↦ create_dishes ds rows
    | err e ↦ err e
  ]

  unfoldable pub create_drop : Drop → Script (Unit {0})
  unfolding written create_dishes all_dishes
  create_drop drop s =
      if is_some (db.find_unique kitchen_row_key drop.kitchen_id s.kitchens)
      then (elim (create_dishes drop.dishes (all_dishes s.kitchen.drops)) [
        | ok _ ↦
            written (λ rows. with_drops rows s) s (db.create (drop_key ∷ []) drop s.kitchen.drops)
        | err e ↦ (err e, s)
      ])
      else (err foreign_key_violation, s)

  -- The two numbers that main() prints.
  unfoldable pub counts : Script (ℕ × ℕ)
  counts s = (ok (db.count s.kitchens, db.count s.kitchen.drops), s)

  -- main(), at the time Date.now().
  unfoldable pub seed : ℕ → Script (ℕ × ℕ)
  unfolding then_run delete_items delete_reservations delete_dishes delete_drops delete_kitchens
      create_kitchen create_drop counts
  seed now = then_run delete_items (
      then_run delete_reservations (
        then_run delete_dishes (
          then_run delete_drops (
            then_run delete_kitchens (
              then_run (create_kitchen ramen_lab "Ramen Lab") (
                then_run (create_kitchen taco_cartel "Taco Cartel") (
                  then_run (create_drop (tonkotsu now))
                    (then_run (create_drop (al_pastor now)) counts))))))))
