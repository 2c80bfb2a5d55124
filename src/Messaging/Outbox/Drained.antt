-- ===== src/Messaging/Outbox/Drained.antt =====
-- The outbox empties: what a round of the relay leaves unpublished.
use hotdrop_orchestration.Base.{
  Key, ℕ, zero, suc, ◌+◌, ◌*◌, ◌≤◌, ◌≡◌, refl, ◌∙◌, ap, sym, subst, ◌++◌, ◌⊎◌, Bool, true, false,
  not, some, List, [], ◌∷◌, map, length, take, keep, modify, All, ==_refl, Bool-cases, inl, inr,
  length-keep-Perm, arith,
}
use hotdrop_orchestration.Prisma.{Prisma, Documented, in_memory, is_in_memory}
use hotdrop_orchestration.Prisma.Ordering.{OrderBy, Orders}
use hotdrop_orchestration.Messaging.{OutboxMessage, MessageEnvelope, Env, Store}
use hotdrop_orchestration.Messaging.Relay.{publish_all, mark_all, tick, batch_size}
use hotdrop_orchestration.Messaging.Outbox.{
  is_unpublished, is_among, prisma_outbox_store, envelope, relay_tick, Runner, drain_from,
  drain_begins, drain_ends, drain,
}

-- How many rows wait to be published.
abbrev pub pending : {D : Type 0} → Store D → ℕ
pending s = length (keep is_unpublished s.outbox)

publish_all-accepted :
    (publish : OutboxMessage → Bool)
    → ((m : OutboxMessage) → publish m ≡ true)
    → (batch : List OutboxMessage) → publish_all publish batch ≡ (batch, true)
unfolding publish_all
publish_all-accepted publish takes [] = refl
publish_all-accepted publish takes (m ∷ ms) = rw (takes m, publish_all-accepted publish takes ms)

-- The rows that the ids of a batch do not name.
abbrev left_over : List Key → List OutboxMessage → List OutboxMessage
left_over ids = keep (λ m. not (is_among ids m))

keep-modify :
    {A : Type 0} (p q : A → Bool) (f : A → A) (xs : List A)
    → ((x : A) → p (f x) ≡ false)
    → length (keep p (modify q f xs)) ≡ length (keep (λ x. not (q x)) (keep p xs))
keep-modify p q f [] off = refl
keep-modify p q f (x ∷ xs) off = elim (Bool-cases (q x)) [
  | inl e ↦ rw (e, off x) (ground (arith, keep-modify p q f xs off))
  | inr e ↦ ground (arith, keep-modify p q f xs off)
]

left_over-none : (rows : List OutboxMessage) → length (left_over [] rows) ≡ length rows
unfolding is_among
left_over-none [] = refl
left_over-none (m ∷ rows) = omega (arith, left_over-none rows)

among_more :
    (k : Key) (ids : List Key) (m : OutboxMessage)
    → is_among ids m ≡ true
    → is_among (k ∷ ids) m ≡ true
unfolding is_among
among_more k ids m e = ground arith

among_batch :
    (k : Key) (ids : List Key) (batch : List OutboxMessage)
    → All (λ m. is_among ids m ≡ true) batch
    → All (λ m. is_among (k ∷ ids) m ≡ true) batch
among_batch k ids [] h = tt
among_batch k ids (m ∷ ms) h = (among_more k ids m h.0, among_batch k ids ms h.1)

batch_among :
    (batch : List OutboxMessage) → All (λ m. is_among (map (λ x. x.id) batch) m ≡ true) batch
unfolding is_among
batch_among [] = tt
batch_among (m ∷ ms) =
    (rw (==_refl m.id), among_batch m.id (map (λ x. x.id) ms) ms (batch_among ms))

length-keep : {A : Type 0} (q : A → Bool) (xs : List A) → length (keep q xs) ≤ length xs
length-keep q [] = omega arith
length-keep q (x ∷ xs) = ground (arith, length-keep q xs)

keep_bound :
    {A : Type 0} (q : A → Bool) (n : ℕ) (xs : List A)
    → All (λ x. q x ≡ false) (take n xs)
    → (length (keep q xs) + n ≤ length xs) ⊎ (length (keep q xs) ≡ 0)
keep_bound q zero xs h = inl (omega (arith, length-keep q xs))
keep_bound q (suc n) [] h = inr refl
keep_bound q (suc n) (x ∷ xs) h = elim (keep_bound q n xs h.1) [
  | inl k ↦ inl (rw h.0 (omega (arith, k)))
  | inr k ↦ inr (rw h.0 k)
]

not_among :
    (ids : List Key) (batch : List OutboxMessage)
    → All (λ m. is_among ids m ≡ true) batch
    → All (λ m. not (is_among ids m) ≡ false) batch
not_among ids [] h = tt
not_among ids (m ∷ ms) h = (ap not h.0, not_among ids ms h.1)

module _ {D : Type 0} (order : OrderBy) (law : Orders order) (env : Env) where
  pending-mark_all :
      (published : List OutboxMessage) (s : Store D)
      → pending (mark_all (prisma_outbox_store in_memory order env) published s)
        ≡ length (left_over (map (λ m. m.id) published) (keep is_unpublished s.outbox))
  unfolding mark_all prisma_outbox_store is_unpublished
  pending-mark_all [] s = sym (left_over-none (keep is_unpublished s.outbox))
  pending-mark_all (m ∷ ms) s =
      keep-modify is_unpublished (is_among (map (λ x. x.id) (m ∷ ms)))
        (λ x. record x { published_at = some env.now }) s.outbox (λ x. refl)

  -- The unpublished rows in the order of the relay.
  abbrev queue : Store D → List OutboxMessage
  queue s = order.ascending (λ m. m.created_at) (keep is_unpublished s.outbox)

  queue-left_over :
      (ids : List Key) (s : Store D)
      → length (left_over ids (keep is_unpublished s.outbox)) ≡ length (left_over ids (queue s))
  queue-left_over ids s = sym (
      length-keep-Perm (λ m. not (is_among ids m)) _ _
        (law.ascending-perm (λ m. m.created_at) (keep is_unpublished s.outbox)))

  length-queue : (s : Store D) → length (queue s) ≡ pending s
  length-queue s =
      sym (left_over-none (queue s))
      ∙ sym (queue-left_over [] s)
      ∙ left_over-none (keep is_unpublished s.outbox)

  module _ (emit : MessageEnvelope → Bool) where
    -- No round adds to what is pending, whatever the broker does.
    relay_tick_bound : (s : Store D) → pending (relay_tick in_memory order env emit s).1 ≤ pending s
    unfolding relay_tick tick
    relay_tick_bound s =
        let published = (publish_all (λ m. emit (envelope m)) (take batch_size (queue s))).0 in
        subst (λ (n : ℕ). n ≤ pending s) (sym (pending-mark_all published s))
          (length-keep (λ m. not (is_among (map (λ m. m.id) published) m))
            (keep is_unpublished s.outbox))

    -- A round in which the broker takes every message publishes a full batch, or all there is.
    relay_tick_accepted :
        ((e : MessageEnvelope) → emit e ≡ true)
        → (s : Store D)
        → (pending (relay_tick in_memory order env emit s).1 + batch_size ≤ pending s)
          ⊎ (pending (relay_tick in_memory order env emit s).1 ≡ 0)
    unfolding relay_tick tick
    relay_tick_accepted takes s =
        let batch = take batch_size (queue s) in
        let ids = map (λ (m : OutboxMessage). m.id) batch in
        rw
          (
            publish_all-accepted (λ m. emit (envelope m)) (λ m. takes (envelope m)) batch,
            pending-mark_all batch s,
            queue-left_over ids s,
          )
          (elim (keep_bound (λ m. not (is_among ids m)) batch_size (queue s)
            (not_among ids batch (batch_among batch))) [
              | inl k ↦ inl (omega (arith, k, length-queue s))
              | inr k ↦ inr k
            ])

-- A round of the runner: what the clock and the ids are, and which envelopes the broker takes.
abbrev pub Round : Type 0
Round = Env × (MessageEnvelope → Bool)

module _ {D : Type 0} (db : Prisma) (order : OrderBy) where
  -- The rounds of the runner, one after the other.
  abbrev pub drains : List Round → Runner → Store D → Runner × Store D
  drains [] r s = (r, s)
  drains ((env, emit) ∷ rounds) r s =
      drains rounds (drain db order env emit r s).0 (drain db order env emit r s).1

module _ {D : Type 0} (order : OrderBy) (law : Orders order) where
  drain_idle :
      (env : Env) (emit : MessageEnvelope → Bool) (r : Runner) (s : Store D)
      → r.draining ≡ false
      → drain in_memory order env emit r s ≡ (r, (relay_tick in_memory order env emit s).1)
  unfolding drain drain_from drain_begins drain_ends
  drain_idle env emit r s idle =
      let t = (relay_tick in_memory order env emit s).1 in
      (rw idle) ∙ ap (λ (b : Bool). (record r { draining = b }, t)) (sym idle)

  drains_bound :
      (rounds : List Round) (r : Runner) (s : Store D)
      → r.draining ≡ false
      → ((drains in_memory order rounds r s).0 ≡ r)
        × (pending (drains in_memory order rounds r s).1 ≤ pending s)
  drains_bound [] r s idle = (refl, omega arith)
  drains_bound ((env, emit) ∷ rounds) r s idle =
      let t = (relay_tick in_memory order env emit s).1 in
      let rest = drains_bound rounds r t idle in
      rw (drains, drain_idle env emit r s idle)
        (rest.0, omega (arith, rest.1, relay_tick_bound order law env emit s))

  drains_accepted :
      (rounds : List Round) (r : Runner) (s : Store D)
      → r.draining ≡ false
      → All (λ round. (e : MessageEnvelope) → round.1 e ≡ true) rounds
      → pending s ≤ length rounds * batch_size
      → pending (drains in_memory order rounds r s).1 ≡ 0
  drains_accepted [] r s idle takes h = omega (arith, h)
  drains_accepted ((env, emit) ∷ rounds) r s idle takes h =
      let t = (relay_tick in_memory order env emit s).1 in
      rw (drains, drain_idle env emit r s idle)
        (drains_accepted rounds r t idle takes.1
          (elim (relay_tick_accepted order law env emit takes.0 s) [
            | inl k ↦ omega (arith, k, h)
            | inr k ↦ omega (arith, k)
          ]))

  drains-append :
      (xs ys : List Round) (r : Runner) (s : Store D)
      → drains in_memory order (xs ++ ys) r s
        ≡ drains in_memory order ys
            (drains in_memory order xs r s).0
            (drains in_memory order xs r s).1
  drains-append [] ys r s = refl
  drains-append ((env, emit) ∷ xs) ys r s =
      drains-append xs ys (drain in_memory order env emit r s).0
        (drain in_memory order env emit r s).1

-- The outbox empties. Whatever the broker did in earlier rounds of the runner, outages included, the
-- rounds after them in which it takes every message leave no message unpublished, once there are
-- enough of them: one for each 50 messages that were waiting at the start. No round is under way at the
-- start, and no message is added in between.
pub drains-empty :
    {D : Type 0} (db : Prisma) (order : OrderBy)
    → Documented db
    → Orders order
    → (earlier rounds : List Round) (r : Runner) (s : Store D) → r.draining ≡ false
    → All (λ round. (e : MessageEnvelope) → round.1 e ≡ true) rounds
    → pending s ≤ length rounds * batch_size
    → pending (drains db order (earlier ++ rounds) r s).1 ≡ 0
drains-empty db order documented law earlier rounds r s idle takes h =
    let before = drains_bound order law earlier r s idle in
    rw (is_in_memory documented, drains-append order law earlier rounds r s, before.0)
      (drains_accepted order law rounds r (drains in_memory order earlier r s).1 idle takes
        (omega (arith, before.1, h)))
