-- ===== src/Prisma/Ordering.antt =====
-- findMany({ orderBy }): the rows in the order of a column. The client says nothing of the order of
-- rows with equal columns, so the order is a parameter, with what its documentation says.
pub mod Insertion
use hotdrop_orchestration.Base.{ℕ, ◌≤◌, List, [], ◌∷◌, All, Perm}

pub record OrderBy : Type 1 where
  pub ascending : {Row : Type 0} → (Row → ℕ) → List Row → List Row
  pub descending : {Row : Type 0} → (Row → ℕ) → List Row → List Row

module _ {Row : Type 0} where
  abbrev pub IsOrdered : (Row → Row → Type 0) → List Row → Type 0
  IsOrdered R [] = Unit
  IsOrdered R (r ∷ rows) = All (R r) rows × IsOrdered R rows

  abbrev pub IsAscending : (Row → ℕ) → List Row → Type 0
  IsAscending column = IsOrdered (λ x y. column x ≤ column y)

  abbrev pub IsDescending : (Row → ℕ) → List Row → Type 0
  IsDescending column = IsOrdered (λ x y. column y ≤ column x)

-- The same rows, in order.
pub record Orders (order : OrderBy) : Type 1 where
  pub ascending-perm :
      {Row : Type 0} (column : Row → ℕ) (rows : List Row) → Perm (order.ascending column rows) rows
  pub ascending-IsAscending :
      {Row : Type 0} (column : Row → ℕ) (rows : List Row)
      → IsAscending column (order.ascending column rows)
  pub descending-perm :
      {Row : Type 0} (column : Row → ℕ) (rows : List Row) → Perm (order.descending column rows) rows
  pub descending-IsDescending :
      {Row : Type 0} (column : Row → ℕ) (rows : List Row)
      → IsDescending column (order.descending column rows)
