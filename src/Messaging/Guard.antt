-- ===== src/Messaging/Guard.antt =====
-- InboxGuard.process over the inbox table of a service.
use hotdrop_orchestration.Base.{
  Key, ◌≡◌, sym, subst, true, false, Option, none, some, [], ◌∷◌, ◌++◌, arith, ◌==◌, ==_refl, first,
  first-append,
}
use hotdrop_orchestration.Result.{ok, Tx}
use hotdrop_orchestration.Prisma.{Prisma, Documented, in_memory, is_in_memory}
use hotdrop_orchestration.Messaging.{Env, Store, InboxMessage, write_inbox, find_inbox}
use hotdrop_orchestration.Messaging.Inbox.{process, prisma_inbox_store}

module _ {D : Type 0} (env : Env) (m : Key) where
  abbrev found_in : Store D → Option InboxMessage
  found_in s = first (λ x. x.message_id == m) s.inbox

  process_found :
      (handler : Tx (Store D) (Unit {0})) (s : Store D) (x : InboxMessage)
      → found_in s ≡ some x
      → process (prisma_inbox_store in_memory env) m handler s ≡ ok (false, s)
  unfolding process prisma_inbox_store find_inbox
  process_found handler s x e = ground arith

  process_new :
      (handler : Tx (Store D) (Unit {0})) (s t : Store D)
      → found_in s ≡ none
      → handler s ≡ ok (tt, t)
      → found_in t ≡ none
      → process (prisma_inbox_store in_memory env) m handler s
        ≡ ok (
          true,
          record t { inbox = t.inbox ++ record { message_id = m; processed_at = env.now } ∷ [] },
        )
  unfolding process prisma_inbox_store find_inbox write_inbox
  process_new handler s t new run still = ground arith

-- A handler runs at most once for a message: one that is not in the inbox runs it, and where it leaves
-- the inbox alone the message is then recorded, so that a later call for the message, whatever its
-- handler, runs nothing and returns false.
pub process_once :
    (db : Prisma)
    → Documented db
    → {D : Type 0} (env later : Env) (m : Key) (handler again : Tx (Store D) (Unit {0}))
      (s t : Store D)
    → first (λ x. x.message_id == m) s.inbox ≡ none
    → handler s ≡ ok (tt, t)
    → t.inbox ≡ s.inbox
    → let u = record t {
      inbox = t.inbox ++ record { message_id = m; processed_at = env.now } ∷ [];
    } in
      (process (prisma_inbox_store db env) m handler s ≡ ok (true, u))
      × (process (prisma_inbox_store db later) m again u ≡ ok (false, u))
process_once db law env later m handler again s t new run kept =
    let still = subst (λ b. first (λ x. x.message_id == m) b ≡ none) (sym kept) new in
    rw (is_in_memory law) (
      process_new env m handler s t new run still,
      process_found later m again _ _
          (first-append (λ x. x.message_id == m) t.inbox _ still (==_refl m)),
    )
