-- ===== src/Order/Orchestrator/Journey.antt =====
-- Where an order stands in a run: its rows, the messages sent since the start, and the messages that are
-- still to come; and how a plan that is carried out moves it on.
use hotdrop_orchestration.Base.{
  Key, ℕ, suc, ◌≤◌, ◌≡◌, refl, sym, ◌∙◌, ap, Bool, false, none, some, List, [], ◌∷◌, ◌++◌, map,
  append-nil, append_assoc, first, ◌==◌, first-modify_first_self, arith,
}
use hotdrop_orchestration.Messaging.{Env, OutboxMessage, outbox_row, create_outbox_message}
use hotdrop_orchestration.Order.{Order, SagaInstance, OrderStore}
use hotdrop_orchestration.Order.Orchestrator.Plan.{
  Message, Plan, Reaction, carried_out, received, order_of, saga_of, settled, send,
}

-- The messages of the outbox, without their ids, times and traces.
abbrev pub sent : List OutboxMessage → List Message
sent = map (λ m. (m.type, m.payload))

sent-append : (xs ys : List OutboxMessage) → sent (xs ++ ys) ≡ sent xs ++ sent ys
sent-append [] ys = refl
sent-append (x ∷ xs) ys = ap (λ l. (x.type, x.payload) ∷ l) (sent-append xs ys)

pub sent-send :
    (env : Env) (n : ℕ) (ms : List Message) (out : List OutboxMessage)
    → sent (send env n ms out) ≡ sent out ++ ms
unfolding outbox_row create_outbox_message
sent-send env n [] out = sym (append-nil (sent out))
sent-send env n ((type, body) ∷ ms) out =
    sent-send env (suc n) ms (out ++ outbox_row env (create_outbox_message env n type body) ∷ [])
    ∙ rw (sent-append out (outbox_row env (create_outbox_message env n type body) ∷ []))
        (append_assoc (sent out) ((type, body) ∷ []) ms)

pub first-append_none :
    {A : Type 0} (p : A → Bool) (xs : List A) (x : A)
    → first p xs ≡ none
    → p x ≡ false
    → first p (xs ++ x ∷ []) ≡ none
first-append_none p [] x e h = ground arith
first-append_none p (y ∷ xs) x e h = ground (arith, first-append_none p xs x)

module _ (message : ℕ → Key) (distinct : (i j : ℕ) → message i ≡ message j → i ≡ j) (id : Key)
    (before : List Message) where
  -- The order's row and saga row, the messages sent since, and the messages from the n-th on, which are new.
  pub record At (n : ℕ) (o : Order) (g : SagaInstance) (log : List Message) (s : OrderStore)
      : Type 0 where
    pub order_row : order_of id s ≡ some o
    pub saga_row : saga_of id s ≡ some g
    pub log_lem : sent s.outbox ≡ before ++ log
    pub unseen : (i : ℕ) → n ≤ i → received (message i) s ≡ none

  pub carried-At :
      (env : Env) (n : ℕ) (o : Order) (g : SagaInstance) (log : List Message) (s : OrderStore)
      (plan : Plan) (r : Reaction)
      → At n o g log s
      → r ≡ carried_out plan
      → ((x : SagaInstance) → (plan.saga x).order_id ≡ x.order_id)
      → At
          (suc n)
          (record o { status = plan.status })
          (plan.saga g)
          (log ++ plan.messages)
          (settled env (message n) id (received (message n) s) r s).1
  carried-At env n o g log s plan r here e same =
      rw (here.unseen n (omega arith), e)
        (record {
          order_row =
              first-modify_first_self (λ x. x.id == id) (λ x. record x { status = plan.status })
                s.tables.orders o (λ x. refl) here.order_row;
          saga_row =
              first-modify_first_self (λ x. x.order_id == id) plan.saga s.tables.sagas g
                (λ x. ap (λ (k : Key). k == id) (same x)) here.saga_row;
          log_lem =
              sent-send env s.drawn plan.messages s.outbox
              ∙ ap (λ l. l ++ plan.messages) here.log_lem
              ∙ append_assoc before log plan.messages;
          unseen = λ i later.
              first-append_none (λ x. x.message_id == message i) s.inbox _
                (here.unseen i (omega arith)) (ground (arith, distinct n i));
        })
