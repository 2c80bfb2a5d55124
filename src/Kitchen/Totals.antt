-- ===== src/Kitchen/Totals.antt =====
-- ReservePortions against a reference that looks at the whole order at once: the sum that the lines
-- ask of a drop, not one line after the other.
use hotdrop_orchestration.Base.{
  Key, ℕ, ◌+◌, ◌-◌, ◌≡◌, refl, ◌∙◌, ap, subst, Bool, true, false, ◌&&◌, Option, none, some, List,
  [], ◌∷◌, map, arith, leb, ◌==◌, ==_iff, if◌then◌else◌, first, keep, modify, length, Bool-cases,
  inl, inr, is_some,
}
use hotdrop_orchestration.Contracts.{OrderLineInput, ReservePortionsCommand}
use hotdrop_orchestration.Prisma.{Prisma, Documented}
use hotdrop_orchestration.Messaging.{Env}
use hotdrop_orchestration.Participant.Consume.{received, settled}
use hotdrop_orchestration.Kitchen.{Drop, KitchenStore, take_out}
use hotdrop_orchestration.Kitchen.Service.{can_take, reserve_portions}
use hotdrop_orchestration.Kitchen.Inventory.{taken}
use hotdrop_orchestration.Kitchen.Accounts.{lines_qty, modify_ids, modify-none, keep-none}
use hotdrop_orchestration.Kitchen.Reserving.{for_order, reserve_outcome, reserve_portions-settled}

-- No two drops have one id.
abbrev pub IsDistinct : List Drop → Type 0
IsDistinct [] = Unit
IsDistinct (d ∷ ds) = (first (λ x. x.id == d.id) ds ≡ none) × IsDistinct ds

-- Every line is for a drop that is there.
abbrev pub all_there : List OrderLineInput → List Drop → Bool
all_there [] ds = true
all_there (line ∷ lines) ds = is_some (first (λ d. d.id == line.drop_id) ds) && all_there lines ds

-- Every drop has available what all the lines together ask of it.
abbrev pub has_room : List OrderLineInput → List Drop → Bool
has_room lines [] = true
has_room lines (d ∷ ds) = leb (lines_qty lines d.id) d.available && has_room lines ds

-- The drop after all the lines together took their portions of it.
abbrev pub booked : List OrderLineInput → Drop → Drop
booked lines d = record d {
  available = d.available - lines_qty lines d.id;
  reserved = d.reserved + lines_qty lines d.id;
}

-- The reference: all of the order, or nothing.
abbrev pub booking : List OrderLineInput → List Drop → Option (List Drop)
booking lines ds =
    if all_there lines ds && has_room lines ds then some (map (booked lines) ds) else none

module _ (line : OrderLineInput) (lines : List OrderLineInput) where
  rest_room :
      (ds : List Drop)
      → first (λ x. x.id == line.drop_id) ds ≡ none
      → has_room lines ds ≡ has_room (line ∷ lines) ds
  rest_room [] e = refl
  rest_room (d ∷ ds) e = ground (arith, rest_room ds)

  rest_booked :
      (ds : List Drop)
      → first (λ x. x.id == line.drop_id) ds ≡ none
      → map (booked lines) ds ≡ map (booked (line ∷ lines)) ds
  rest_booked [] e = refl
  rest_booked (d ∷ ds) e = ground (arith, rest_booked ds)

  alone :
      (d : Drop) (ds : List Drop)
      → (d.id == line.drop_id) ≡ true
      → first (λ x. x.id == d.id) ds ≡ none
      → first (λ x. x.id == line.drop_id) ds ≡ none
  alone d ds same e =
      subst (λ k. first (λ (x : Drop). x.id == k) ds ≡ none) ((==_iff d.id line.drop_id).0 same) e

  taken_room :
      (ds : List Drop)
      → IsDistinct ds
      → (length (keep (can_take line) ds) == 0) ≡ false
      → has_room lines (modify (can_take line) (take_out line.qty) ds) ≡ has_room (line ∷ lines) ds
  unfolding can_take take_out
  taken_room [] h enough = cc
  taken_room (d ∷ ds) h enough = elim (Bool-cases (d.id == line.drop_id)) [
    | inl same ↦
        let no_other = alone d ds same h.0 in
        ground (
          arith,
          no_other,
          modify-none line ds no_other,
          keep-none line ds no_other,
          rest_room ds no_other,
        )
    | inr other ↦ ground (arith, taken_room ds h.1)
  ]

  taken_booked :
      (ds : List Drop)
      → IsDistinct ds
      → (length (keep (can_take line) ds) == 0) ≡ false
      → map (booked lines) (modify (can_take line) (take_out line.qty) ds)
        ≡ map (booked (line ∷ lines)) ds
  unfolding can_take take_out
  taken_booked [] h enough = cc
  taken_booked (d ∷ ds) h enough = elim (Bool-cases (d.id == line.drop_id)) [
    | inl same ↦
        let no_other = alone d ds same h.0 in
        ground (
          arith,
          no_other,
          modify-none line ds no_other,
          keep-none line ds no_other,
          rest_booked ds no_other,
        )
    | inr other ↦ ground (arith, taken_booked ds h.1)
  ]

  -- A line that no drop can give: the reference refuses the order too.
  refused :
      (ds : List Drop)
      → IsDistinct ds
      → (length (keep (can_take line) ds) == 0) ≡ true
      → (is_some (first (λ d. d.id == line.drop_id) ds) && has_room (line ∷ lines) ds) ≡ false
  unfolding can_take
  refused [] h none_gives = refl
  refused (d ∷ ds) h none_gives = elim (Bool-cases (d.id == line.drop_id)) [
    | inl same ↦ ground arith
    | inr other ↦ ground (arith, refused ds h.1)
  ]

  taken_there :
      (ds : List Drop) (k : Key)
      → is_some (first (λ d. d.id == k) (modify (can_take line) (take_out line.qty) ds))
        ≡ is_some (first (λ d. d.id == k) ds)
  unfolding take_out
  taken_there [] k = refl
  taken_there (d ∷ ds) k = ground (arith, taken_there ds k)

  gives_there :
      (ds : List Drop)
      → (length (keep (can_take line) ds) == 0) ≡ false
      → is_some (first (λ d. d.id == line.drop_id) ds) ≡ true
  unfolding can_take
  gives_there [] enough = cc
  gives_there (d ∷ ds) enough = ground (arith, gives_there ds)

  taken-IsDistinct :
      (ds : List Drop) → IsDistinct ds → IsDistinct (modify (can_take line) (take_out line.qty) ds)
  unfolding take_out
  taken-IsDistinct [] h = tt
  taken-IsDistinct (d ∷ ds) h = elim (Bool-cases (can_take line d)) [
    | inl gives ↦ rw gives (modify_ids line d.id ds h.0, taken-IsDistinct ds h.1)
    | inr not ↦ rw not (modify_ids line d.id ds h.0, taken-IsDistinct ds h.1)
  ]

all_taken_there :
    (line : OrderLineInput) (lines : List OrderLineInput) (ds : List Drop)
    → all_there lines (modify (can_take line) (take_out line.qty) ds) ≡ all_there lines ds
all_taken_there line [] ds = refl
all_taken_there line (l ∷ lines) ds =
    rw (taken_there line lines ds l.drop_id, all_taken_there line lines ds) refl

room_nothing : (ds : List Drop) → has_room [] ds ≡ true
room_nothing [] = refl
room_nothing (d ∷ ds) = ground (arith, room_nothing ds)

booked_nothing : (ds : List Drop) → map (booked []) ds ≡ ds
booked_nothing [] = refl
booked_nothing (d ∷ ds) = ground (arith, booked_nothing ds)

and_false : (a b c : Bool) → (a && c) ≡ false → ((a && b) && c) ≡ false
and_false true true c e = e
and_false true false c e = refl
and_false false b c e = refl

-- One line after the other comes to the same as all at once.
taken-booking :
    (lines : List OrderLineInput) (ds : List Drop)
    → IsDistinct ds
    → taken lines ds ≡ booking lines ds
taken-booking [] ds h = rw (room_nothing ds, booked_nothing ds) refl
taken-booking (line ∷ lines) ds h = elim (Bool-cases (length (keep (can_take line) ds) == 0)) [
  | inl none_gives ↦
      rw
        (
          none_gives,
          and_false (is_some (first (λ d. d.id == line.drop_id) ds)) (all_there lines ds)
              (has_room (line ∷ lines) ds) (refused line lines ds h none_gives),
        )
        refl
  | inr enough ↦
      rw
        (
          enough,
          taken-booking lines (modify (can_take line) (take_out line.qty) ds)
              (taken-IsDistinct line lines ds h),
          all_taken_there line lines ds,
          taken_room line lines ds h enough,
          taken_booked line lines ds h enough,
          gives_there line lines ds enough,
        )
        refl
]

-- Where no two drops have one id, ReservePortions takes one line after the other and comes to what
-- the whole order at once would come to: if every line is for a drop that is there and every drop has
-- available the sum of what the lines ask of it, each drop gives that sum, and else nothing is taken
-- and SOLD_OUT is sent.
pub reserve_portions-booking :
    (db : Prisma)
    → Documented db
    → (env : Env) (ttl : ℕ) (message_id : Key) (cmd : ReservePortionsCommand) (s : KitchenStore)
    → IsDistinct s.tables.drops
    → reserve_portions db env ttl message_id cmd s
      ≡ settled env message_id
          (received message_id s)
          (reserve_outcome env ttl cmd
            (booking cmd.lines s.tables.drops)
            (for_order cmd.order_id s.tables.reservations)
            s)
          s
reserve_portions-booking db law env ttl mid cmd s h =
    reserve_portions-settled db law env ttl mid cmd s
    ∙ ap
        (λ fit.
          settled env mid (received mid s)
            (reserve_outcome env ttl cmd fit (for_order cmd.order_id s.tables.reservations) s) s)
        (taken-booking cmd.lines s.tables.drops h)
