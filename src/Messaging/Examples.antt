-- ===== src/Messaging/Examples.antt =====
-- Runs of the relay and of the inbox guard at concrete inputs.
use hotdrop_orchestration.Base.{
  Key, ℕ, suc, arith, ◌≡◌, refl, Bool, true, false, none, List, [], ◌∷◌, ◌++◌, take, length, ◌==◌,
  if◌then◌else◌,
}
use hotdrop_orchestration.Contracts.{support_ticket_created, Payload}
use hotdrop_orchestration.Result.{ok, Tx}
use hotdrop_orchestration.Prisma.{in_memory, in_memory-Documented}
use hotdrop_orchestration.Messaging.{Store, OutboxMessage}
use hotdrop_orchestration.Examples.{clock, database}
use hotdrop_orchestration.Messaging.Relay.{
  OutboxStore, published_count, publish_failed, batch_size, tick,
}
use hotdrop_orchestration.Messaging.Inbox.{process, prisma_inbox_store}
use hotdrop_orchestration.Messaging.Prefix.{IsTakenPrefix, marked, tick-published}
use hotdrop_orchestration.Messaging.Guard.{process_once}
use hotdrop_orchestration.Messaging.Outbox.{is_unpublished}
use hotdrop_orchestration.Messaging.Outbox.Drained.{Round, pending, drains, drains-empty}
use hotdrop_orchestration.Prisma.Ordering.Insertion.{insertion, insertion-Orders}

abbrev row : Key → OutboxMessage
row id = record {
  id = id;
  type = support_ticket_created;
  payload = Payload.delivered_body (record { order_id = 60 });
  created_at = 1;
  published_at = none;
  traceparent = none;
}

-- A store of what is unpublished, and of the ids that were marked.
abbrev listed : OutboxStore (List OutboxMessage × List Key)
listed = record {
  find_unpublished = λ limit s. take limit s.0;
  mark_published = λ ids s. (s.0, s.1 ++ ids);
}

abbrev refuses_two : OutboxMessage → Bool
refuses_two m = if m.id == 2 then false else true

tick-published_example :
    (published : List OutboxMessage) × (finished : Bool) × IsTakenPrefix refuses_two
      (row 1 ∷ row 2 ∷ [])
      published
      finished
    × (tick listed refuses_two batch_size (row 1 ∷ row 2 ∷ [], []) ≡ (
      (if finished then published_count (length published) else publish_failed),
      marked listed published (row 1 ∷ row 2 ∷ [], []),
    ))
tick-published_example = tick-published listed refuses_two batch_size (row 1 ∷ row 2 ∷ [], [])

abbrev adds : Tx (Store ℕ) (Unit {0})
adds s = ok (tt, record s { tables = suc s.tables })

abbrev once : Store ℕ
once = record (database 0) {
  tables = 1;
  inbox = record { message_id = 7; processed_at = 5000 } ∷ [];
}

process_once_example :
    (process (prisma_inbox_store in_memory clock) 7 adds (database 0) ≡ ok (true, once))
    × (process (prisma_inbox_store in_memory clock) 7 adds once ≡ ok (false, once))
process_once_example =
    process_once in_memory in_memory-Documented clock clock 7 adds adds (database 0)
      (record (database 0) { tables = 1 }) refl refl refl

-- An outage of the broker, then two rounds in which it takes what it is given.
abbrev waiting : Store ℕ
waiting = record (database 0) { outbox = row 1 ∷ row 2 ∷ [] }

abbrev outage : List Round
outage = (clock, λ e. false) ∷ []

abbrev rounds : List Round
rounds = (clock, λ e. true) ∷ (clock, λ e. true) ∷ []

drains-empty_example :
    pending
      (drains in_memory insertion
        (outage ++ rounds)
        (record { timer = true; draining = false })
        waiting).1
    ≡ 0
unfolding is_unpublished
drains-empty_example =
    drains-empty in_memory insertion in_memory-Documented insertion-Orders outage rounds
      (record { timer = true; draining = false }) waiting refl (λ e. refl, (λ e. refl, tt))
      (omega arith)
