-- ===== src/Kitchen/Seed/Reset.antt =====
-- Seeding the kitchen's database again.
use hotdrop_orchestration.Base.{ℕ, false, ◌≡◌, refl, ◌∙◌, ap, List, [], ◌∷◌, keep, map}
use hotdrop_orchestration.Result.{ok}
use hotdrop_orchestration.Prisma.{Prisma, Documented, in_memory, is_in_memory}
use hotdrop_orchestration.Prisma.Reference.{checked_delete}
use hotdrop_orchestration.Kitchen.{Drop, Reservation}
use hotdrop_orchestration.Kitchen.Accounts.{IsConserved}
use hotdrop_orchestration.Kitchen.Seed.{
  SeedTables, Script, carried_on, then_run, written, all_items, all_dishes, is_referred,
  delete_items, delete_reservations, delete_dishes, delete_drops, delete_kitchens, create_kitchen,
  create_drop, counts, with_drops, with_reservations, seed, ramen_lab, taco_cartel, tonkotsu,
  al_pastor,
}

-- The demo data and nothing else.
abbrev pub seeded : ℕ → SeedTables
seeded now = record {
  kitchens =
      record { id = ramen_lab; name = "Ramen Lab" }
      ∷ record { id = taco_cartel; name = "Taco Cartel" }
      ∷ [];
  kitchen = record { drops = tonkotsu now ∷ al_pastor now ∷ []; reservations = [] };
}

keep_nothing : {A : Type 0} (xs : List A) → keep (λ _. false) xs ≡ []
keep_nothing [] = refl
keep_nothing (x ∷ xs) = keep_nothing xs

then_run-ok :
    {A : Type 0} (statement : Script (Unit {0})) (rest : Script A) (s t : SeedTables)
    → statement s ≡ (ok tt, t)
    → then_run statement rest s ≡ rest t
unfolding then_run
then_run-ok statement rest s t e = ap (λ o. carried_on o rest) e

-- Rows to which no other table refers are deleted.
cleared :
    {Row : Type 0} (f : List Row → SeedTables) (s : SeedTables) (rows : List Row)
    → written f s (checked_delete (λ _. false) rows) ≡ (ok tt, f [])
unfolding written
cleared f s rows = rw (keep_nothing rows)

delete_items_lem :
    (s : SeedTables)
    → delete_items in_memory s ≡ (
      ok tt,
      with_reservations
          (map (λ (r : Reservation). record r { items = [] }) s.kitchen.reservations)
          s,
    )
unfolding delete_items
delete_items_lem s =
    cleared
      (λ _.
        with_reservations
          (map (λ (r : Reservation). record r { items = [] }) s.kitchen.reservations) s)
      s (all_items s.kitchen.reservations)

delete_reservations_lem :
    (s : SeedTables) → delete_reservations in_memory s ≡ (ok tt, with_reservations [] s)
unfolding delete_reservations
delete_reservations_lem s = cleared (λ rows. with_reservations rows s) s s.kitchen.reservations

delete_dishes_lem :
    (s : SeedTables)
    → delete_dishes in_memory s
      ≡ (ok tt, with_drops (map (λ (d : Drop). record d { dishes = [] }) s.kitchen.drops) s)
unfolding delete_dishes
delete_dishes_lem s =
    cleared (λ _. with_drops (map (λ (d : Drop). record d { dishes = [] }) s.kitchen.drops) s) s
      (all_dishes s.kitchen.drops)

-- Once no reservation is left, no item refers to a drop.
delete_drops_lem :
    (s : SeedTables) (drops : List Drop)
    → delete_drops in_memory (with_drops drops (with_reservations [] s))
      ≡ (ok tt, with_drops [] (with_reservations [] s))
unfolding delete_drops all_items is_referred
delete_drops_lem s drops =
    cleared (λ rows. with_drops rows (with_reservations [] s))
      (with_drops drops (with_reservations [] s)) drops

cleared_kitchens :
    (s : SeedTables) → delete_kitchens in_memory s ≡ (ok tt, record s { kitchens = [] })
unfolding delete_kitchens
cleared_kitchens s = cleared (λ rows. record s { kitchens = rows }) s s.kitchens

abbrev emptied : SeedTables
emptied = record { kitchens = []; kitchen = record { drops = []; reservations = [] } }

-- The five deletions leave nothing, in the order in which they are made.
deleted :
    {A : Type 0} (rest : Script A) (s : SeedTables)
    → then_run
        (delete_items in_memory)
        (then_run (delete_reservations in_memory) (
          then_run
            (delete_dishes in_memory)
            (then_run (delete_drops in_memory) (then_run (delete_kitchens in_memory) rest))))
        s
      ≡ rest emptied
deleted rest s =
    let bare = map (λ (r : Reservation). record r { items = [] }) s.kitchen.reservations in
    let undished = map (λ (d : Drop). record d { dishes = [] }) s.kitchen.drops in
    let items = delete_items_lem s in
    let dishes = delete_dishes_lem (with_reservations [] s) in
    then_run-ok (delete_items in_memory) _ s (with_reservations bare s) items
    ∙ then_run-ok (delete_reservations in_memory) _ (with_reservations bare s)
        (with_reservations [] s) (delete_reservations_lem (with_reservations bare s))
    ∙ then_run-ok (delete_dishes in_memory) _ (with_reservations [] s)
        (with_drops undished (with_reservations [] s)) dishes
    ∙ then_run-ok (delete_drops in_memory) _ (with_drops undished (with_reservations [] s))
        (with_drops [] (with_reservations [] s)) (delete_drops_lem s undished)
    ∙ then_run-ok (delete_kitchens in_memory) rest (with_drops [] (with_reservations [] s)) emptied
        (cleared_kitchens (with_drops [] (with_reservations [] s)))

abbrev creations : ℕ → Script (ℕ × ℕ)
creations now = then_run (create_kitchen in_memory ramen_lab "Ramen Lab") (
    then_run (create_kitchen in_memory taco_cartel "Taco Cartel") (
      then_run (create_drop in_memory (tonkotsu now))
        (then_run (create_drop in_memory (al_pastor now)) (counts in_memory))))

created : (now : ℕ) → creations now emptied ≡ (ok (2, 2), seeded now)
unfolding then_run create_kitchen create_drop counts
created now = refl

-- Whatever the database holds, the seed succeeds, counts two kitchens and two drops, and leaves the
-- demo data and nothing else; of its drops no two have one id, each has available + reserved =
-- totalPortions, and nothing is reserved of them, as no reservation is left.
pub seed-reset :
    (db : Prisma)
    → Documented db
    → (now : ℕ) (s : SeedTables)
    → (seed db now s ≡ (ok (2, 2), seeded now)) × IsConserved (seeded now).kitchen
unfolding seed
seed-reset db law now s = (
  rw (is_in_memory law) (deleted (creations now) s ∙ created now),
  (refl, refl, refl, (refl, refl, refl, tt)),
)
