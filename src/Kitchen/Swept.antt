-- ===== src/Kitchen/Swept.antt =====
-- What a whole sweep of expired reservations counts.
use hotdrop_orchestration.Base.{
  ℕ, ◌+◌, ◌≤◌, ◌≡◌, refl, subst, Bool, true, false, Option, none, some, List, [], ◌∷◌, length, keep,
  first, modify_first, ◌==◌, if◌then◌else◌, Bool-cases, inl, inr, arith,
}
use hotdrop_orchestration.Result.{Result, ok, err}
use hotdrop_orchestration.Prisma.{Prisma, Documented, in_memory, in_memory-Documented, is_in_memory}
use hotdrop_orchestration.Messaging.{Env}
use hotdrop_orchestration.Kitchen.{Drop, Reservation, KitchenStore, is_held, released}
use hotdrop_orchestration.Kitchen.Sweeper.{
  is_expired, sweep_one, sweep_loop, release_expired_reservations,
}
use hotdrop_orchestration.Kitchen.Inventory.{given}
use hotdrop_orchestration.Kitchen.Sweeps.{swept, sweep_outcome, sweep_one-settled}

-- How many reservations are HELD.
abbrev pub held_count : KitchenStore → ℕ
held_count s = length (keep (λ r. is_held r.status) s.tables.reservations)

-- What a number of releases says of the HELD reservations before and after; a sweep that throws has
-- released some of them at most.
abbrev pub IsCount : Result ℕ → ℕ → ℕ → Type 0
IsCount (ok n) before after = n + after ≡ before
IsCount (err e) before after = after ≤ before

keep-modify_first :
    {A : Type 0} (p q : A → Bool) (f : A → A) (xs : List A) (c : A)
    → ((x : A) → p (f x) ≡ false)
    → first q xs ≡ some c
    → p c ≡ true
    → 1 + length (keep p (modify_first q f xs)) ≡ length (keep p xs)
keep-modify_first p q f [] c off found pc = cc
keep-modify_first p q f (x ∷ xs) c off found pc =
    ground (arith, off x, keep-modify_first p q f xs c off)

abbrev IsRound : Result Bool → ℕ → ℕ → Type 0
IsRound (ok done) before after = (if done then 1 else 0) + after ≡ before
IsRound (err e) before after = after ≤ before

swept-IsRound :
    (seen c : Reservation) (out : Result (List Drop)) (s : KitchenStore)
    → first (λ x. x.id == seen.id) s.tables.reservations ≡ some c
    → is_held c.status ≡ true
    → IsRound (swept seen out s).0 (held_count s) (held_count (swept seen out s).1)
unfolding is_held
swept-IsRound seen c (err e) s found kept = omega arith
swept-IsRound seen c (ok rows) s found kept =
    keep-modify_first (λ (r : Reservation). is_held r.status) (λ r. r.id == seen.id)
      (λ r. record r { status = released }) s.tables.reservations c (λ r. refl) found kept

sweep_outcome-IsRound :
    (seen : Reservation) (found : Option Reservation) (s : KitchenStore)
    → first (λ x. x.id == seen.id) s.tables.reservations ≡ found
    → IsRound
        (sweep_outcome seen found s).0
        (held_count s)
        (held_count (sweep_outcome seen found s).1)
sweep_outcome-IsRound seen none s e = omega arith
sweep_outcome-IsRound seen (some c) s e = elim (Bool-cases (is_held c.status)) [
  | inl kept ↦ rw kept (swept-IsRound seen c (given seen.items s.tables.drops) s e kept)
  | inr over ↦ rw over (omega arith)
]

module _ (env : Env) where
  sweep_one-IsRound :
      (seen : Reservation) (s : KitchenStore)
      → IsRound
          (sweep_one in_memory env seen s).0
          (held_count s)
          (held_count (sweep_one in_memory env seen s).1)
  sweep_one-IsRound seen s =
      rw (sweep_one-settled in_memory in_memory-Documented env seen s)
        (sweep_outcome-IsRound seen (first (λ x. x.id == seen.id) s.tables.reservations) s refl)

  -- The rest of the loop after a round.
  loop_rest :
      (rs : List Reservation) (count before : ℕ) (out : Result Bool × KitchenStore)
      → IsRound out.0 before (held_count out.1)
      → ((n : ℕ) (t : KitchenStore)
          → IsCount
              (sweep_loop in_memory env rs n t).0
              (n + held_count t)
              (held_count (sweep_loop in_memory env rs n t).1))
      → let rest : Result ℕ × KitchenStore = elim out.0 [
        | ok done ↦ sweep_loop in_memory env rs (if done then count + 1 else count) out.1
        | err e ↦ (err e, out.1)
      ] in
        IsCount rest.0 (count + before) (held_count rest.1)
  loop_rest rs count before (ok true, t) h ih =
      subst
        (λ (b : ℕ).
          IsCount (sweep_loop in_memory env rs (count + 1) t).0 b
            (held_count (sweep_loop in_memory env rs (count + 1) t).1))
        (omega (arith, h)) (ih (count + 1) t)
  loop_rest rs count before (ok false, t) h ih =
      subst
        (λ (b : ℕ).
          IsCount (sweep_loop in_memory env rs count t).0 b
            (held_count (sweep_loop in_memory env rs count t).1))
        (omega (arith, h)) (ih count t)
  loop_rest rs count before (err e, t) h ih = omega (arith, h)

  sweep_loop-IsCount :
      (rs : List Reservation) (count : ℕ) (s : KitchenStore)
      → IsCount
          (sweep_loop in_memory env rs count s).0
          (count + held_count s)
          (held_count (sweep_loop in_memory env rs count s).1)
  unfolding sweep_loop
  sweep_loop-IsCount [] count s = refl
  sweep_loop-IsCount (r ∷ rs) count s =
      loop_rest rs count (held_count s) (sweep_one in_memory env r s) (sweep_one-IsRound r s)
        (sweep_loop-IsCount rs)

-- A sweep that returns a number has released exactly so many of the HELD reservations; one that
-- throws has released some of them at most, and no sweep makes a reservation HELD.
pub release_expired_reservations-IsCount :
    (db : Prisma)
    → Documented db
    → (env : Env) (s : KitchenStore)
    → let (count, t) = release_expired_reservations db env s in
      IsCount count (held_count s) (held_count t)
unfolding release_expired_reservations
release_expired_reservations-IsCount db law env s =
    let seen = keep (is_expired env.now) s.tables.reservations in
    let out = sweep_loop in_memory env seen 0 s in
    rw (is_in_memory law) (
      subst (λ (before : ℕ). IsCount out.0 before (held_count out.1)) (omega arith)
        (sweep_loop-IsCount env seen 0 s))
