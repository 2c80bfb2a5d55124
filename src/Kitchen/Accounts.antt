-- ===== src/Kitchen/Accounts.antt =====
-- The accounts of a drop's portions, and what taking lines does to them.
use hotdrop_orchestration.Base.{
  Key, ℕ, ◌+◌, ◌≡◌, refl, ◌∙◌, subst, false, none, some, List, [], ◌∷◌, arith, ◌==◌, ==_iff,
  if◌then◌else◌, first, keep, modify, length, total, Bool-cases, inl, inr,
}
use hotdrop_orchestration.Contracts.{OrderLineInput}
use hotdrop_orchestration.Kitchen.{
  Drop, Reservation, ReservationItem, KitchenTables, is_released, take_out,
}
use hotdrop_orchestration.Kitchen.Service.{can_take}
use hotdrop_orchestration.Kitchen.Inventory.{taken}

-- The portions of one drop in a list of items.
abbrev pub portions_of : Key → List ReservationItem → ℕ
portions_of k [] = 0
portions_of k (item ∷ items) = (if k == item.drop_id then item.qty else 0) + portions_of k items

-- The portions of one drop that a reservation holds: none once it is released.
abbrev pub holds : Key → Reservation → ℕ
holds k r = if is_released r.status then 0 else portions_of k r.items

abbrev pub held_for : Key → List Reservation → ℕ
held_for k rs = total (holds k) rs

-- No two drops have one id, no portion is lost, and `reserved` counts what the reservations hold,
-- up to an amount `extra` for each drop.
abbrev pub IsAccounted : (Key → ℕ) → List Drop → Type 0
IsAccounted owed [] = Unit
IsAccounted owed (d ∷ ds) =
    (first (λ x. x.id == d.id) ds ≡ none)
    × (d.available + d.reserved ≡ d.total_portions)
    × (d.reserved ≡ owed d.id)
    × IsAccounted owed ds

-- The invariant of the two tables.
abbrev pub IsConserved : KitchenTables → Type 0
IsConserved t = IsAccounted (λ k. held_for k t.reservations) t.drops

pub IsAccounted-ext :
    (f g : Key → ℕ) (ds : List Drop) → ((k : Key) → f k ≡ g k) → IsAccounted f ds → IsAccounted g ds
IsAccounted-ext f g [] e h = tt
IsAccounted-ext f g (d ∷ ds) e h = (h.0, h.1, h.2 ∙ e d.id, IsAccounted-ext f g ds e h.3)

-- One line taken from every drop that can give it: the drop owes that much more.
abbrev pub line_qty : OrderLineInput → Key → ℕ
line_qty line k = if k == line.drop_id then line.qty else 0

module _ (line : OrderLineInput) where
  -- The ids stay as they are.
  pub modify_ids :
      (k : Key) (ds : List Drop)
      → first (λ x. x.id == k) ds ≡ none
      → first (λ x. x.id == k) (modify (can_take line) (take_out line.qty) ds) ≡ none
  unfolding take_out
  modify_ids k [] e = refl
  modify_ids k (d ∷ ds) e = ground (arith, modify_ids k ds)

  -- No drop but the line's can give it.
  pub modify-none :
      (ds : List Drop)
      → first (λ x. x.id == line.drop_id) ds ≡ none
      → modify (can_take line) (take_out line.qty) ds ≡ ds
  unfolding can_take
  modify-none [] e = refl
  modify-none (d ∷ ds) e = ground (arith, modify-none ds)

  pub keep-none :
      (ds : List Drop) → first (λ x. x.id == line.drop_id) ds ≡ none → keep (can_take line) ds ≡ []
  unfolding can_take
  keep-none [] e = refl
  keep-none (d ∷ ds) e = ground (arith, keep-none ds)

  owe_other :
      (f : Key → ℕ) (ds : List Drop)
      → first (λ x. x.id == line.drop_id) ds ≡ none
      → IsAccounted f ds
      → IsAccounted (λ k. f k + line_qty line k) ds
  owe_other f [] e h = tt
  owe_other f (d ∷ ds) e h = (h.0, h.1, ground arith, owe_other f ds (ground arith) h.3)

  take-IsAccounted :
      (f : Key → ℕ) (ds : List Drop)
      → (length (keep (can_take line) ds) == 0) ≡ false
      → IsAccounted f ds
      → IsAccounted (λ k. f k + line_qty line k) (modify (can_take line) (take_out line.qty) ds)
  unfolding can_take take_out
  take-IsAccounted f [] enough h = cc
  take-IsAccounted f (d ∷ ds) enough h = elim (Bool-cases (d.id == line.drop_id)) [
    | inl same ↦
        let alone =
          subst (λ k. first (λ (x : Drop). x.id == k) ds ≡ none) ((==_iff d.id line.drop_id).0 same)
            h.0 in
        ground (arith, alone, modify-none ds alone, keep-none ds alone, owe_other f ds alone)
    | inr other ↦ ground (arith, modify_ids d.id ds, take-IsAccounted f ds)
  ]

-- What the lines of an order take of one drop.
abbrev pub lines_qty : List OrderLineInput → Key → ℕ
lines_qty [] k = 0
lines_qty (line ∷ lines) k = line_qty line k + lines_qty lines k

-- After the lines of an order were taken, each drop owes what they took of it.
pub taken-IsAccounted :
    (lines : List OrderLineInput) (f : Key → ℕ) (ds rows : List Drop)
    → taken lines ds ≡ some rows
    → IsAccounted f ds
    → IsAccounted (λ k. f k + lines_qty lines k) rows
taken-IsAccounted [] f ds rows e h =
    subst (IsAccounted (λ k. f k + 0)) (ground arith)
      (IsAccounted-ext f (λ k. f k + 0) ds (λ k. omega arith) h)
taken-IsAccounted (line ∷ lines) f ds rows e h =
    elim (Bool-cases (length (keep (can_take line) ds) == 0)) [
      | inl short ↦ absurd (ground arith)
      | inr enough ↦
          IsAccounted-ext (λ k. f k + line_qty line k + lines_qty lines k)
            (λ k. f k + lines_qty (line ∷ lines) k) rows (λ k. omega arith)
            (taken-IsAccounted lines (λ k. f k + line_qty line k)
              (modify (can_take line) (take_out line.qty) ds) rows (ground arith)
              (take-IsAccounted line f ds enough h))
    ]
