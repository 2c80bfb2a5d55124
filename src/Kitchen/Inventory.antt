-- ===== src/Kitchen/Inventory.antt =====
-- The portion inventory without its transactions: what a reservation takes from the drops, what a
-- release gives back, and the service's loops.
use hotdrop_orchestration.Base.{
  Key, ℕ, ◌≡◌, refl, ◌∙◌, Bool, true, false, Option, none, some, List, [], ◌∷◌, arith, ◌==◌,
  if◌then◌else◌, keep, modify, length, first, Bool-cases, inl, inr,
}
use hotdrop_orchestration.Contracts.{OrderLineInput}
use hotdrop_orchestration.Result.{Result, ok, err, step_failure, >>-ok, >>-err}
use hotdrop_orchestration.Prisma.{in_memory}
use hotdrop_orchestration.Prisma.Reference.{checked_update, write_row}
use hotdrop_orchestration.Messaging.{Env}
use hotdrop_orchestration.Kitchen.{
  Drop, ReservationItem, KitchenStore, drop_key, give_back, take_out,
}
use hotdrop_orchestration.Kitchen.Service.{
  can_take, take_line, take_lines, put_back_all, with_drops, sold_out_reply,
}

-- Every line finds its drop with enough portions available, in turn; none where one does not.
abbrev pub taken : List OrderLineInput → List Drop → Option (List Drop)
taken [] drops = some drops
taken (line ∷ lines) drops =
    if length (keep (can_take line) drops) == 0
    then none
    else taken lines (modify (can_take line) (take_out line.qty) drops)

-- Every item goes back to its drop, in turn.
abbrev pub given : List ReservationItem → List Drop → Result (List Drop)
given [] drops = ok drops
given (item ∷ items) drops =
    elim (checked_update drop_key item.drop_id (give_back item.qty) drops) [
      | ok rows ↦ given items rows
      | err e ↦ err e
    ]

abbrev pub after_lines : Key → Option (List Drop) → KitchenStore → Result (Unit {0} × KitchenStore)
after_lines order_id none s = err (step_failure (sold_out_reply order_id))
after_lines order_id (some rows) s = ok (tt, with_drops rows s)

abbrev pub after_items : Result (List Drop) → KitchenStore → Result (Unit {0} × KitchenStore)
after_items (err e) s = err e
after_items (ok rows) s = ok (tt, with_drops rows s)

after_lines-with_drops :
    (order_id : Key) (o : Option (List Drop)) (rows : List Drop) (s : KitchenStore)
    → after_lines order_id o (with_drops rows s) ≡ after_lines order_id o s
after_lines-with_drops order_id none rows s = refl
after_lines-with_drops order_id (some r) rows s = refl

module _ (env : Env) where
  take_line_lem :
      (order_id : Key) (line : OrderLineInput) (s : KitchenStore) (short : Bool)
      → (length (keep (can_take line) s.tables.drops) == 0) ≡ short
      → take_line in_memory env order_id line s ≡ (
          if short
          then err (step_failure (sold_out_reply order_id))
          else ok (tt, with_drops (modify (can_take line) (take_out line.qty) s.tables.drops) s))
  unfolding take_line
  take_line_lem order_id line s short e = rw e

  pub take_lines_lem :
      (order_id : Key) (lines : List OrderLineInput) (s : KitchenStore)
      → take_lines in_memory env order_id lines s
        ≡ after_lines order_id (taken lines s.tables.drops) s
  unfolding take_lines
  take_lines_lem order_id [] s = refl
  take_lines_lem order_id (line ∷ lines) s =
      elim (Bool-cases (length (keep (can_take line) s.tables.drops) == 0)) [
        | inl short ↦ rw short (
            >>-err (take_line in_memory env order_id line) (take_lines in_memory env order_id lines)
              s (take_line_lem order_id line s true short))
        | inr enough ↦ rw enough (
            >>-ok (take_line in_memory env order_id line) (take_lines in_memory env order_id lines)
              s (take_line_lem order_id line s false enough)
            ∙ take_lines_lem order_id lines _
            ∙ after_lines-with_drops order_id
                (taken lines (modify (can_take line) (take_out line.qty) s.tables.drops)) _ s)
      ]

  put_back_cases :
      (item : ReservationItem) (items : List ReservationItem) (s : KitchenStore)
      (out : Result (List Drop))
      → checked_update drop_key item.drop_id (give_back item.qty) s.tables.drops ≡ out
      → ((rows : List Drop)
          → put_back_all in_memory env items (with_drops rows s)
            ≡ after_items (given items rows) (with_drops rows s))
      → put_back_all in_memory env (item ∷ items) s
        ≡ after_items (given (item ∷ items) s.tables.drops) s
  unfolding put_back_all
  put_back_cases item items s (ok rows) e rest = ground (arith, rest rows)
  put_back_cases item items s (err x) e rest = ground arith

  pub put_back_all_lem :
      (items : List ReservationItem) (s : KitchenStore)
      → put_back_all in_memory env items s ≡ after_items (given items s.tables.drops) s
  unfolding put_back_all
  put_back_all_lem [] s = refl
  put_back_all_lem (item ∷ items) s =
      put_back_cases item items s _ refl (λ rows. put_back_all_lem items (with_drops rows s))

-- An error that is not a failed step.
abbrev pub IsPlain : {A : Type 0} → Result A → Type 0
IsPlain (err (step_failure r)) = ⊥
IsPlain _ = Unit

write_row-IsPlain :
    (k : Key) (row : Option Drop) (drops : List Drop) → IsPlain (write_row drop_key k row drops)
write_row-IsPlain k none drops = tt
write_row-IsPlain k (some d) drops = tt

update_cases :
    (qty : ℕ) (k : Key) (found : Option Drop) (drops : List Drop)
    → first (λ d. d.id == k) drops ≡ found
    → IsPlain (checked_update drop_key k (give_back qty) drops)
update_cases qty k none drops e = rw (e, IsPlain) tt
update_cases qty k (some d) drops e = rw (e, IsPlain) (write_row-IsPlain k (give_back qty d) drops)

given_rest :
    (items : List ReservationItem) (out : Result (List Drop))
    → IsPlain out
    → ((rows : List Drop) → IsPlain (given items rows))
    → let all : Result (List Drop) = elim out [ ok rows ↦ given items rows | err e ↦ err e ] in
      IsPlain all
given_rest items (ok rows) h rest = rest rows
given_rest items (err e) h rest = h

-- Giving items back fails with the database's errors only.
pub given-IsPlain : (items : List ReservationItem) (drops : List Drop) → IsPlain (given items drops)
given-IsPlain [] drops = tt
given-IsPlain (item ∷ items) drops =
    given_rest items (checked_update drop_key item.drop_id (give_back item.qty) drops)
      (update_cases item.qty item.drop_id _ drops refl) (given-IsPlain items)
