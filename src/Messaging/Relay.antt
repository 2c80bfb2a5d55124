-- ===== src/Messaging/Relay.antt =====
-- packages/messaging/src/outbox-relay.ts, over the port OutboxStore of ports.ts.
use hotdrop_orchestration.Base.{
  Key, ℕ, Bool, true, false, List, [], ◌∷◌, map, length, if◌then◌else◌,
}
use hotdrop_orchestration.Messaging.{OutboxMessage}

-- The port: the state behind it is the implementation's.
pub record OutboxStore (S : Type 0) : Type 0 where
  pub find_unpublished : ℕ → S → List OutboxMessage
  pub mark_published : List Key → S → S

-- What tick() comes to: the number of messages published, or the error of `publish`.
pub data Tick : Type 0 where
  published_count : ℕ → Tick
  publish_failed : Tick

-- The loop: the messages handed to the broker, in order, and whether a publish failed. `publish` is
-- true where the broker took the message.
unfoldable pub publish_all : (OutboxMessage → Bool) → List OutboxMessage → List OutboxMessage × Bool
publish_all publish [] = ([], true)
publish_all publish (m ∷ ms) =
    let rest = publish_all publish ms in if publish m then (m ∷ rest.0, rest.1) else ([], false)

-- The finally clause: mark what was published, if anything was.
unfoldable pub mark_all : {S : Type 0} → OutboxStore S → List OutboxMessage → S → S
mark_all store [] s = s
mark_all store (m ∷ ms) s = store.mark_published (map (λ x. x.id) (m ∷ ms)) s

abbrev pub batch_size : ℕ
batch_size = 50

module _ {S : Type 0} (store : OutboxStore S) (publish : OutboxMessage → Bool) (batch : ℕ) where
  unfoldable pub tick : S → Tick × S
  unfolding publish_all mark_all
  tick s =
      let (published, finished) = publish_all publish (store.find_unpublished batch s) in
      (
        if finished then published_count (length published) else publish_failed,
        mark_all store published s,
      )
