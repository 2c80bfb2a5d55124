-- ===== src/Messaging/Outbox.antt =====
-- PrismaOutboxStore (apps/order-service/src/messaging/prisma-outbox.store.ts) and the runner that
-- drains it (outbox-relay.runner.ts beside it). Every service has the same two files.
pub mod Drained
use hotdrop_orchestration.Base.{
  Key, ℕ, Bool, true, false, not, Option, none, some, List, take, first, is_some, ◌==◌,
  if◌then◌else◌,
}
use hotdrop_orchestration.Prisma.{Prisma}
use hotdrop_orchestration.Prisma.Ordering.{OrderBy}
use hotdrop_orchestration.Messaging.{OutboxMessage, MessageEnvelope, Env, Store}
use hotdrop_orchestration.Messaging.Relay.{OutboxStore, Tick, tick, batch_size}

-- publishedAt: null
unfoldable pub is_unpublished : OutboxMessage → Bool
is_unpublished m = not (is_some m.published_at)

-- id: { in: ids }
unfoldable pub is_among : List Key → OutboxMessage → Bool
is_among ids m = is_some (first (λ id. id == m.id) ids)

module _ {D : Type 0} (db : Prisma) (order : OrderBy) (env : Env) where
  unfoldable pub find_unpublished : ℕ → Store D → List OutboxMessage
  unfolding is_unpublished
  find_unpublished limit s =
      take limit (order.ascending (λ m. m.created_at) (db.find_many is_unpublished s.outbox))

  unfoldable pub mark_published : List Key → Store D → Store D
  unfolding is_among
  mark_published ids s = record s {
    outbox =
        (db.update_many (is_among ids) (λ m. record m { published_at = some env.now }) s.outbox).1;
  }

  unfoldable pub prisma_outbox_store : OutboxStore (Store D)
  unfolding find_unpublished mark_published
  prisma_outbox_store = record {
    find_unpublished = find_unpublished;
    mark_published = mark_published;
  }

-- message.traceparent ?? undefined: null becomes undefined, and a value stays.
unfoldable pub envelope : OutboxMessage → MessageEnvelope
envelope m = record { message_id = m.id; body = m.payload; traceparent = m.traceparent }

-- The runner's timer and its flag.
pub record Runner : Type 0 where
  pub timer : Bool
  pub draining : Bool

unfoldable pub on_application_bootstrap : Runner → Runner
on_application_bootstrap r = record r { timer = true }

unfoldable pub on_module_destroy : Runner → Runner
on_module_destroy r = if r.timer then record r { timer = false } else r

-- Whether drain() goes on, and the flag while it waits for the tick; where the flag is up already it
-- returns at once.
unfoldable pub drain_begins : Runner → Option Runner
drain_begins r = if r.draining then none else some (record r { draining = true })

-- The finally clause, reached whether tick() returned or threw.
unfoldable pub drain_ends : Runner → Runner
drain_ends r = record r { draining = false }

module _ {D : Type 0} (db : Prisma) (order : OrderBy) (env : Env)
    (emit : MessageEnvelope → Bool) where
  -- The relay that the runner's constructor makes. `emit` is true where the broker took the message.
  unfoldable pub relay_tick : Store D → Tick × Store D
  unfolding tick prisma_outbox_store envelope
  relay_tick = tick (prisma_outbox_store db order env) (λ m. emit (envelope m)) batch_size

  unfoldable pub drain_from : Option Runner → Runner → Store D → Runner × Store D
  unfolding relay_tick drain_ends
  drain_from none r s = (r, s)
  drain_from (some begun) r s = (drain_ends begun, (relay_tick s).1)

  -- drain(), where nothing else happens while it waits; the error it logs is left out.
  unfoldable pub drain : Runner → Store D → Runner × Store D
  unfolding drain_begins drain_from
  drain r s = drain_from (drain_begins r) r s
