-- ===== src/Prisma/Ordering/Insertion.antt =====
-- An order of the rows that has the documented behaviour: sorting by insertion.
use mathlib.Core.List.Perm as Permutation
use hotdrop_orchestration.Base.{
  ◌≤◌, ◌≡◌, Bool, true, false, List, [], ◌∷◌, All, Perm, leb, if◌then◌else◌, Bool-cases, inl, inr,
  arith,
}
use hotdrop_orchestration.Prisma.Ordering.{OrderBy, Orders, IsOrdered}

module _ {Row : Type 0} (before : Row → Row → Bool) where
  abbrev insert : Row → List Row → List Row
  insert r [] = r ∷ []
  insert r (x ∷ rows) = if before r x then r ∷ x ∷ rows else x ∷ insert r rows

  abbrev pub sort : List Row → List Row
  sort [] = []
  sort (r ∷ rows) = insert r (sort rows)

  insert-perm : (r : Row) (rows : List Row) → Perm (insert r rows) (r ∷ rows)
  insert-perm r [] = Permutation.refl (r ∷ [])
  insert-perm r (x ∷ rows) = elim (Bool-cases (before r x)) [
    | inl e ↦ rw e (Permutation.refl (r ∷ x ∷ rows))
    | inr e ↦
        rw e
          (Permutation.trans (Permutation.cons x (insert-perm r rows)) (Permutation.swap r x rows))
  ]

  pub sort-perm : (rows : List Row) → Perm (sort rows) rows
  sort-perm [] = Permutation.refl []
  sort-perm (r ∷ rows) =
      Permutation.trans (insert-perm r (sort rows)) (Permutation.cons r (sort-perm rows))

  module _ (R : Row → Row → Type 0) (of_true : (x y : Row) → before x y ≡ true → R x y)
      (of_false : (x y : Row) → before x y ≡ false → R y x)
      (trans_R : (x y z : Row) → R x y → R y z → R x z) where
    All-weaken : (x y : Row) (rows : List Row) → R x y → All (R y) rows → All (R x) rows
    All-weaken x y [] h hs = tt
    All-weaken x y (z ∷ rows) h hs = (trans_R x y z h hs.0, All-weaken x y rows h hs.1)

    All-insert : (x r : Row) (rows : List Row) → R x r → All (R x) rows → All (R x) (insert r rows)
    All-insert x r [] h hs = (h, tt)
    All-insert x r (y ∷ rows) h hs = elim (Bool-cases (before r y)) [
      | inl e ↦ rw e (h, hs)
      | inr e ↦ rw e (hs.0, All-insert x r rows h hs.1)
    ]

    insert-IsOrdered : (r : Row) (rows : List Row) → IsOrdered R rows → IsOrdered R (insert r rows)
    insert-IsOrdered r [] h = (tt, tt)
    insert-IsOrdered r (x ∷ rows) h = elim (Bool-cases (before r x)) [
      | inl e ↦ rw e ((of_true r x e, All-weaken r x rows (of_true r x e) h.0), h)
      | inr e ↦ rw e (All-insert x r rows (of_false r x e) h.0, insert-IsOrdered r rows h.1)
    ]

    pub sort-IsOrdered : (rows : List Row) → IsOrdered R (sort rows)
    sort-IsOrdered [] = tt
    sort-IsOrdered (r ∷ rows) = insert-IsOrdered r (sort rows) (sort-IsOrdered rows)

abbrev pub insertion : OrderBy
insertion = record {
  ascending = λ {Row} column. sort (λ x y. leb (column x) (column y));
  descending = λ {Row} column. sort (λ x y. leb (column y) (column x));
}

pub insertion-Orders : Orders insertion
insertion-Orders = record {
  ascending-perm = λ column. sort-perm (λ x y. leb (column x) (column y));
  ascending-IsAscending = λ column.
      sort-IsOrdered (λ x y. leb (column x) (column y)) (λ x y. column x ≤ column y)
        (λ x y e. ground arith) (λ x y e. ground arith) (λ x y z h k. omega arith);
  descending-perm = λ column. sort-perm (λ x y. leb (column y) (column x));
  descending-IsDescending = λ column.
      sort-IsOrdered (λ x y. leb (column y) (column x)) (λ x y. column y ≤ column x)
        (λ x y e. ground arith) (λ x y e. ground arith) (λ x y z h k. omega arith);
}
