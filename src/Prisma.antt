-- ===== src/Prisma.antt =====
-- The database client that the services call (@prisma/client, over PostgreSQL). It is not part of
-- the repository: its operations are the parameter `db` of the services, and `Documented` says what
-- the services rely on. The contents of a table are its rows.
pub mod Reference
pub mod Ordering
use hotdrop_orchestration.Base.{Key, ℕ, ◌≡◌, refl, Bool, Option, List, length}
use hotdrop_orchestration.Result.{Result, Tx}
use Reference.{
  first_row, checked_create, checked_update, updated_many, checked_delete, matching, rollback,
}

-- A column is a function of the row. `create` takes the unique columns whose values the caller
-- chooses; ids drawn from cuid() or randomUUID() are taken to be new. `update` takes the change of
-- the row, which is `none` where a CHECK constraint of the table refuses the changed row.
-- `delete_many` is deleteMany() of all rows, with the rows to which another table refers by a foreign
-- key that does not cascade.
pub record Prisma : Type 1 where
  pub find_unique : {Row : Type 0} → (Row → Key) → Key → List Row → Option Row
  pub find_many : {Row : Type 0} → (Row → Bool) → List Row → List Row
  pub create : {Row : Type 0} → List (Row → Key) → Row → List Row → Result (List Row)
  pub update :
      {Row : Type 0} → (Row → Key) → Key → (Row → Option Row) → List Row → Result (List Row)
  pub update_many : {Row : Type 0} → (Row → Bool) → (Row → Row) → List Row → ℕ × List Row
  pub delete_many : {Row : Type 0} → (Row → Bool) → List Row → Result (List Row)
  pub count : {Row : Type 0} → List Row → ℕ
  pub transaction : {S A : Type 0} → Tx S A → S → Result A × S

-- The documented behaviour of the client.
pub record Documented (db : Prisma) : Type 1 where
  pub find_unique_lem :
      {Row : Type 0} (c : Row → Key) (k : Key) (rows : List Row)
      → db.find_unique c k rows ≡ first_row c k rows
  pub find_many_lem :
      {Row : Type 0} (p : Row → Bool) (rows : List Row) → db.find_many p rows ≡ matching p rows
  pub create_lem :
      {Row : Type 0} (cs : List (Row → Key)) (r : Row) (rows : List Row)
      → db.create cs r rows ≡ checked_create cs r rows
  pub update_lem :
      {Row : Type 0} (c : Row → Key) (k : Key) (f : Row → Option Row) (rows : List Row)
      → db.update c k f rows ≡ checked_update c k f rows
  pub update_many_lem :
      {Row : Type 0} (p : Row → Bool) (f : Row → Row) (rows : List Row)
      → db.update_many p f rows ≡ updated_many p f rows
  pub delete_many_lem :
      {Row : Type 0} (referred : Row → Bool) (rows : List Row)
      → db.delete_many referred rows ≡ checked_delete referred rows
  pub count_lem : {Row : Type 0} (rows : List Row) → db.count rows ≡ length rows
  pub transaction_lem :
      {S A : Type 0} (work : Tx S A) (s : S) → db.transaction work s ≡ rollback work s

-- A client that behaves so, for runs at concrete inputs.
abbrev pub in_memory : Prisma
in_memory = record {
  find_unique = first_row;
  find_many = matching;
  create = checked_create;
  update = checked_update;
  update_many = updated_many;
  delete_many = checked_delete;
  count = length;
  transaction = rollback;
}

pub in_memory-Documented : Documented in_memory
in_memory-Documented = record {
  find_unique_lem = λ c k rows. refl;
  find_many_lem = λ p rows. refl;
  create_lem = λ cs r rows. refl;
  update_lem = λ c k f rows. refl;
  update_many_lem = λ p f rows. refl;
  delete_many_lem = λ referred rows. refl;
  count_lem = λ rows. refl;
  transaction_lem = λ work s. refl;
}

-- Every client with the documented behaviour is this one, so a fact about the services over it is
-- one over all of them.
pub is_in_memory : {db : Prisma} → Documented db → db ≡ in_memory
is_in_memory {db} law = λ i. record {
  find_unique = λ {Row} c k rows. law.find_unique_lem c k rows i;
  find_many = λ {Row} p rows. law.find_many_lem p rows i;
  create = λ {Row} cs r rows. law.create_lem cs r rows i;
  update = λ {Row} c k f rows. law.update_lem c k f rows i;
  update_many = λ {Row} p f rows. law.update_many_lem p f rows i;
  delete_many = λ {Row} referred rows. law.delete_many_lem referred rows i;
  count = λ {Row} rows. law.count_lem rows i;
  transaction = λ {S} {A} work s. law.transaction_lem work s i;
}
