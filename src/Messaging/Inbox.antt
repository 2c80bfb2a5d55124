-- ===== src/Messaging/Inbox.antt =====
-- packages/messaging/src/inbox-guard.ts, over the port InboxStore of ports.ts, and the adapter
-- prisma-inbox.store.ts of the services.
use hotdrop_orchestration.Base.{Key, Bool, true, false, is_some}
use hotdrop_orchestration.Result.{ok, err, Tx}
use hotdrop_orchestration.Prisma.{Prisma}
use hotdrop_orchestration.Messaging.{Env, Store, write_inbox, find_inbox}

pub record InboxStore (S : Type 0) : Type 0 where
  pub has_processed : Key → S → Bool
  pub mark_processed : Key → Tx S (Unit {0})

-- process(messageId, handler): true if the handler ran, false if the message was known.
module _ {S : Type 0} (store : InboxStore S) where
  unfoldable pub process : Key → Tx S (Unit {0}) → Tx S Bool
  process message_id handler s = elim (store.has_processed message_id s) [
    | true ↦ ok (false, s)
    | false ↦ elim (handler s) [
      | err e ↦ err e
      | ok (_, t) ↦ elim (store.mark_processed message_id t) [
        | err e ↦ err e
        | ok (_, u) ↦ ok (true, u)
      ]
    ]
  ]

unfoldable pub prisma_inbox_store : {D : Type 0} → Prisma → Env → InboxStore (Store D)
unfolding find_inbox write_inbox
prisma_inbox_store db env = record {
  has_processed = λ message_id s. is_some (find_inbox db env message_id s);
  mark_processed = λ message_id s. write_inbox db env message_id s;
}
