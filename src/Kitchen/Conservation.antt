-- ===== src/Kitchen/Conservation.antt =====
-- The invariant of the kitchen's tables, and what taking, giving back and changing a reservation do to
-- it.
use hotdrop_orchestration.Base.{
  Key, ℕ, ◌+◌, ◌-◌, ◌≡◌, refl, sym, ◌∙◌, ap, subst, Bool, true, false, Option, none, some, List, [],
  ◌∷◌, ◌++◌, arith, ◌==◌, ==_iff, ltb, if◌then◌else◌, first, modify_first, modify_first-const,
  found_here, total-append, Bool-cases, inl, inr,
}
use hotdrop_orchestration.Contracts.{OrderLineInput}
use hotdrop_orchestration.Result.{Result, ok, err}
use hotdrop_orchestration.Prisma.Reference.{first_row, checked_update}
use hotdrop_orchestration.Kitchen.{
  Drop, Reservation, ReservationItem, confirmed, released, is_released, drop_key, give_back,
}
use hotdrop_orchestration.Kitchen.Service.{items_of}
use hotdrop_orchestration.Kitchen.Inventory.{given}
use hotdrop_orchestration.Kitchen.Accounts.{
  portions_of, holds, held_for, IsAccounted, IsAccounted-ext, lines_qty,
}

-- The items of a new reservation hold what its lines took.
pub lines_qty-items_of :
    (lines : List OrderLineInput) (k : Key) → portions_of k (items_of lines) ≡ lines_qty lines k
unfolding items_of
lines_qty-items_of [] k = refl
lines_qty-items_of (line ∷ lines) k = ground (arith, lines_qty-items_of lines k)

-- One item given back.
abbrev item_qty : ReservationItem → Key → ℕ
item_qty item k = if k == item.drop_id then item.qty else 0

-- The drop with the portions back.
abbrev back : ℕ → Drop → Drop
back qty d = record d { available = d.available + qty; reserved = d.reserved - qty }

ok_same : {A : Type 0} {x y : A} → ok x ≡ ok y → x ≡ y
ok_same e = cc

module _ (item : ReservationItem) where
  -- An update that is made has found the drop, and enough reserved portions.
  abbrev Made : List Drop → List Drop → Type 0
  Made ds rows =
      (d : Drop) × (first_row drop_key item.drop_id ds ≡ some d)
      × (ltb d.reserved item.qty ≡ false)
      × (rows ≡ modify_first (λ x. x.id == item.drop_id) (back item.qty) ds)

  checked_update-back :
      (ds : List Drop) (d : Drop)
      → first_row drop_key item.drop_id ds ≡ some d
      → ltb d.reserved item.qty ≡ false
      → checked_update drop_key item.drop_id (give_back item.qty) ds
        ≡ ok (modify_first (λ x. x.id == item.drop_id) (back item.qty) ds)
  unfolding give_back
  checked_update-back ds d f enough =
      ground (arith, modify_first-const (λ x. x.id == item.drop_id) (back item.qty) ds d f)

  made :
      (ds rows : List Drop) (found : Option Drop)
      → first_row drop_key item.drop_id ds ≡ found
      → checked_update drop_key item.drop_id (give_back item.qty) ds ≡ ok rows
      → Made ds rows
  unfolding give_back
  made ds rows none f e = ground arith
  made ds rows (some d) f e = elim (Bool-cases (ltb d.reserved item.qty)) [
    | inl short ↦ ground arith
    | inr enough ↦ (d, f, enough, ok_same (sym e ∙ checked_update-back ds d f enough))
  ]

  back_ids :
      (k : Key) (ds : List Drop)
      → first (λ x. x.id == k) ds ≡ none
      → first (λ x. x.id == k) (modify_first (λ x. x.id == item.drop_id) (back item.qty) ds) ≡ none
  back_ids k [] e = refl
  back_ids k (d ∷ ds) e = ground (arith, back_ids k ds)

  others_owe :
      (f g : Key → ℕ) (ds : List Drop)
      → ((k : Key) → f k ≡ g k + item_qty item k)
      → first (λ x. x.id == item.drop_id) ds ≡ none
      → IsAccounted f ds
      → IsAccounted g ds
  others_owe f g [] split e h = tt
  others_owe f g (d ∷ ds) split e h =
      (h.0, h.1, ground (arith, split d.id), others_owe f g ds split (ground arith) h.3)

  back-IsAccounted :
      (f g : Key → ℕ) (ds : List Drop) (r : Drop)
      → ((k : Key) → f k ≡ g k + item_qty item k)
      → first_row drop_key item.drop_id ds ≡ some r
      → ltb r.reserved item.qty ≡ false
      → IsAccounted f ds
      → IsAccounted g (modify_first (λ x. x.id == item.drop_id) (back item.qty) ds)
  back-IsAccounted f g [] r split e enough h = cc
  back-IsAccounted f g (d ∷ ds) r split e enough h = elim (Bool-cases (d.id == item.drop_id)) [
    | inl same ↦
        let alone =
          subst (λ k. first (λ (x : Drop). x.id == k) ds ≡ none) ((==_iff d.id item.drop_id).0 same)
            h.0 in
        ground (arith, alone, split d.id, others_owe f g ds split alone)
    | inr other ↦ ground (arith, split d.id, back_ids d.id ds, back-IsAccounted f g ds r split)
  ]

  give-IsAccounted :
      (f g : Key → ℕ) (ds rows : List Drop)
      → ((k : Key) → f k ≡ g k + item_qty item k)
      → checked_update drop_key item.drop_id (give_back item.qty) ds ≡ ok rows
      → IsAccounted f ds
      → IsAccounted g rows
  give-IsAccounted f g ds rows split e h =
      let m = made ds rows _ refl e in
      subst (IsAccounted g) (sym m.3) (back-IsAccounted f g ds m.0 split m.1 m.2 h)

-- Giving items back in turn: the first update was made, and the rest follows.
given_cases :
    (item : ReservationItem) (items : List ReservationItem) (ds rows : List Drop)
    (out : Result (List Drop))
    → checked_update drop_key item.drop_id (give_back item.qty) ds ≡ out
    → given (item ∷ items) ds ≡ ok rows
    → (next : List Drop) × (checked_update drop_key item.drop_id (give_back item.qty) ds ≡ ok next)
      × (given items next ≡ ok rows)
given_cases item items ds rows (err x) u e = absurd (ground arith)
given_cases item items ds rows (ok next) u e = (next, u, ground arith)

-- After the items of a reservation were given back, each drop owes that much less.
pub given-IsAccounted :
    (items : List ReservationItem) (f g : Key → ℕ) (ds rows : List Drop)
    → ((k : Key) → f k ≡ g k + portions_of k items)
    → given items ds ≡ ok rows
    → IsAccounted f ds
    → IsAccounted g rows
given-IsAccounted [] f g ds rows split e h =
    subst (IsAccounted g) (ok_same e) (IsAccounted-ext f g ds (λ k. omega (arith, split k)) h)
given-IsAccounted (item ∷ items) f g ds rows split e h =
    let c = given_cases item items ds rows _ refl e in
    given-IsAccounted items (λ k. g k + portions_of k items) g c.0 rows (λ k. refl) c.2
      (give-IsAccounted item f (λ k. g k + portions_of k items) ds c.0 (λ k. omega (arith, split k))
        c.1 h)

-- A reservation that is created holds its items.
pub held_for-append :
    (k : Key) (rs : List Reservation) (r : Reservation)
    → held_for k (rs ++ r ∷ []) ≡ held_for k rs + holds k r
held_for-append k rs r = omega (arith, total-append (holds k) rs (r ∷ []))

holds-found :
    (k : Key) (p : Reservation → Bool) (x r : Reservation) (rs : List Reservation)
    → p x ≡ true
    → first p (x ∷ rs) ≡ some r
    → is_released r.status ≡ false
    → holds k x ≡ portions_of k r.items
holds-found k p x r rs here e h =
    subst (λ y. holds k y ≡ portions_of k r.items) {y = x} (sym (found_here p x r rs here e)) (rw h)

holds-active :
    (k : Key) (r : Reservation) → is_released r.status ≡ false → holds k r ≡ portions_of k r.items
holds-active k r h = rw h

-- A reservation that is released no longer holds its items.
pub held_for-release :
    (k : Key) (p : Reservation → Bool) (rs : List Reservation) (r : Reservation)
    → first p rs ≡ some r
    → is_released r.status ≡ false
    → held_for k rs
      ≡ held_for k (modify_first p (λ x. record x { status = released }) rs) + portions_of k r.items
unfolding is_released
held_for-release k p [] r e h = cc
held_for-release k p (x ∷ rs) r e h = elim (Bool-cases (p x)) [
  | inl here ↦ rw here (omega (arith, holds-found k p x r rs here e h))
  | inr later ↦ rw later (omega (arith, held_for-release k p rs r (ground arith) h))
]

-- One that is confirmed holds what it held.
pub held_for-confirm :
    (k : Key) (p : Reservation → Bool) (rs : List Reservation) (r : Reservation)
    → first p rs ≡ some r
    → is_released r.status ≡ false
    → held_for k rs ≡ held_for k (modify_first p (λ x. record x { status = confirmed }) rs)
unfolding is_released
held_for-confirm k p [] r e h = cc
held_for-confirm k p (x ∷ rs) r e h = elim (Bool-cases (p x)) [
  | inl here ↦ rw here (
      omega (
        arith,
        holds-found k p x r rs here e h,
        ap (λ y. portions_of k y.items) (found_here p x r rs here e),
      ))
  | inr later ↦ rw later (omega (arith, held_for-confirm k p rs r (ground arith) h))
]
