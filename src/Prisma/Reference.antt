-- ===== src/Prisma/Reference.antt =====
-- What the client's documentation says of each call, over a table given as its rows.
use hotdrop_orchestration.Base.{
  Key, ℕ, Bool, false, ◌||◌, Option, none, some, List, [], ◌∷◌, ◌++◌, first, keep, modify,
  modify_first, length, is_some, ◌==◌, if◌then◌else◌,
}
use hotdrop_orchestration.Result.{
  Result, ok, err, Tx, unique_violation, record_not_found, check_violation, foreign_key_violation,
}

module _ {Row : Type 0} where
  -- findUnique({ where: { c: k } })
  abbrev pub first_row : (Row → Key) → Key → List Row → Option Row
  first_row c k rows = first (λ r. c r == k) rows

  -- findMany({ where })
  abbrev pub matching : (Row → Bool) → List Row → List Row
  matching p rows = keep p rows

  abbrev pub clashes : List (Row → Key) → Row → List Row → Bool
  clashes [] r rows = false
  clashes (c ∷ cs) r rows = is_some (first_row c (c r) rows) || clashes cs r rows

  -- create({ data }): a unique constraint that would not hold refuses the row.
  abbrev pub checked_create : List (Row → Key) → Row → List Row → Result (List Row)
  checked_create cs r rows = if clashes cs r rows then err unique_violation else ok (rows ++ r ∷ [])

  abbrev pub write_row : (Row → Key) → Key → Option Row → List Row → Result (List Row)
  write_row c k none rows = err check_violation
  write_row c k (some r) rows = ok (modify_first (λ x. c x == k) (λ _. r) rows)

  -- update({ where: { c: k }, data }): throws where there is no such row.
  abbrev pub checked_update : (Row → Key) → Key → (Row → Option Row) → List Row → Result (List Row)
  checked_update c k f rows = elim (first_row c k rows) [
    | none ↦ err record_not_found
    | some r ↦ write_row c k (f r) rows
  ]

  -- updateMany({ where, data }): how many rows it changed, and the rows.
  abbrev pub updated_many : (Row → Bool) → (Row → Row) → List Row → ℕ × List Row
  updated_many p f rows = (length (keep p rows), modify p f rows)

module _ {Row : Type 0} where
  -- deleteMany(): a row that is referred to keeps all of them.
  abbrev pub checked_delete : (Row → Bool) → List Row → Result (List Row)
  checked_delete referred rows =
      if length (keep referred rows) == 0 then ok [] else err foreign_key_violation

-- What a callback came to, committed or undone.
abbrev pub rolled : {S A : Type 0} → Result (A × S) → S → Result A × S
rolled (ok (a, t)) s = (ok a, t)
rolled (err e) s = (err e, s)

-- $transaction(work): commits what the callback has written, or undoes all of it and throws.
abbrev pub rollback : {S A : Type 0} → Tx S A → S → Result A × S
rollback work s = rolled (work s) s
