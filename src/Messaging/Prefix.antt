-- ===== src/Messaging/Prefix.antt =====
-- A tick of the relay: what is published, and what is marked.
use hotdrop_orchestration.Base.{
  ℕ, ◌≡◌, refl, ap, Bool, true, false, List, [], ◌∷◌, ◌++◌, map, length, All, if◌then◌else◌,
  Bool-cases, inl, inr,
}
use hotdrop_orchestration.Messaging.{OutboxMessage}
use hotdrop_orchestration.Messaging.Relay.{
  OutboxStore, published_count, publish_failed, publish_all, mark_all, tick,
}

-- The messages of a batch up to the first that the broker does not take.
abbrev pub IsTakenPrefix :
    (OutboxMessage → Bool) → List OutboxMessage → List OutboxMessage → Bool → Type 0
IsTakenPrefix publish batch published finished =
    All (λ m. publish m ≡ true) published
    × (if finished
        then published ≡ batch
        else (m : OutboxMessage) × (rest : List OutboxMessage) × (published ++ m ∷ rest ≡ batch)
          × (publish m ≡ false))

one_more :
    (publish : OutboxMessage → Bool) (m : OutboxMessage) (ms published : List OutboxMessage)
    (finished : Bool)
    → publish m ≡ true
    → IsTakenPrefix publish ms published finished
    → IsTakenPrefix publish (m ∷ ms) (m ∷ published) finished
one_more publish m ms published true takes h = ((takes, h.0), ap (λ l. m ∷ l) h.1)
one_more publish m ms published false takes h =
    ((takes, h.0), (h.1.0, h.1.1, ap (λ l. m ∷ l) h.1.2, h.1.3))

publish_all-IsTakenPrefix :
    (publish : OutboxMessage → Bool) (batch : List OutboxMessage)
    → IsTakenPrefix publish batch (publish_all publish batch).0 (publish_all publish batch).1
unfolding publish_all
publish_all-IsTakenPrefix publish [] = (tt, refl)
publish_all-IsTakenPrefix publish (m ∷ ms) = elim (Bool-cases (publish m)) [
  | inl takes ↦ rw takes (one_more publish m ms _ _ takes (publish_all-IsTakenPrefix publish ms))
  | inr refuses ↦ rw refuses (tt, (m, ms, refl, refuses))
]

abbrev pub marked : {S : Type 0} → OutboxStore S → List OutboxMessage → S → S
marked store [] s = s
marked store (m ∷ ms) s = store.mark_published (map (λ x. x.id) (m ∷ ms)) s

mark_all_lem :
    {S : Type 0} (store : OutboxStore S) (ms : List OutboxMessage) (s : S)
    → mark_all store ms s ≡ marked store ms s
unfolding mark_all
mark_all_lem store [] s = refl
mark_all_lem store (m ∷ ms) s = refl

-- A tick of the relay hands the broker the messages of its batch in the store's order, up to the
-- first that the broker refuses, and marks exactly these in the store, also when one was refused;
-- with none published it marks nothing. It returns their number, or throws if one was refused.
pub tick-published :
    {S : Type 0} (store : OutboxStore S) (publish : OutboxMessage → Bool) (batch : ℕ) (s : S)
    → (published : List OutboxMessage) × (finished : Bool) × IsTakenPrefix publish
        (store.find_unpublished batch s)
        published
        finished
      × (tick store publish batch s ≡ (
        (if finished then published_count (length published) else publish_failed),
        marked store published s,
      ))
unfolding tick
tick-published store publish batch s =
    let out = publish_all publish (store.find_unpublished batch s) in
    (
      out.0,
      out.1,
      publish_all-IsTakenPrefix publish (store.find_unpublished batch s),
      ap (λ t. (if out.1 then published_count (length out.0) else publish_failed, t))
          (mark_all_lem store out.0 s),
    )
