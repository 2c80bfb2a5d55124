-- ===== src/Result.antt =====
-- Failures as values, and the body of a transaction: a change of the database that may fail.
use hotdrop_orchestration.Base.{Key, ◌≡◌}
use hotdrop_orchestration.Contracts.{OrderStatus, SagaReply}

-- The gRPC status codes that the services raise (@grpc/grpc-js).
pub data GrpcStatus : Type 0 where
  not_found failed_precondition invalid_argument unknown : GrpcStatus

-- What the text of an RpcException says.
pub data RpcMessage : Type 0 where
  order_not_found drop_not_found : Key → RpcMessage
  not_cancellable : Key → OrderStatus → RpcMessage

-- What is thrown: SagaStepFailure, RpcException, a TypeError, or an error of the database.
pub data Error : Type 0 where
  step_failure : SagaReply → Error
  rpc_exception : GrpcStatus → RpcMessage → Error
  type_error : Error
  unique_violation record_not_found check_violation : Error
  foreign_key_violation invalid_value : Error

pub data Result {ℓ} (A : Type ℓ) : Type ℓ where
  ok : A → Result A
  err : Error → Result A

-- The callback of `$transaction`. What it has written before it throws is undone by the rollback,
-- so an error carries no state.
abbrev pub Tx : Type 0 → Type 0 → Type 0
Tx S A = S → Result (A × S)

module _ {S : Type 0} where
  abbrev pub pure : {A : Type 0} → A → Tx S A
  pure a s = ok (a, s)

  abbrev pub throw : {A : Type 0} → Error → Tx S A
  throw e s = err e

  abbrev pub gets : {A : Type 0} → (S → A) → Tx S A
  gets f s = ok (f s, s)

  infixl 5 ◌>>=◌ ◌>>◌
  abbrev pub ◌>>=◌ : {A B : Type 0} → Tx S A → (A → Tx S B) → Tx S B
  ◌>>=◌ m f s = elim (m s) [ ok (a, t) ↦ f a t | err e ↦ err e ]

  abbrev pub ◌>>◌ : {A B : Type 0} → Tx S A → Tx S B → Tx S B
  ◌>>◌ m k s = elim (m s) [ ok (a, t) ↦ k t | err e ↦ err e ]

  abbrev pub done : Tx S (Unit {0})
  done s = ok (tt, s)

  -- A step that succeeds hands its state to the rest.
  pub >>-ok :
      {A B : Type 0} (m : Tx S A) (k : Tx S B) (s : S) {a : A} {t : S}
      → m s ≡ ok (a, t)
      → (m >> k) s ≡ k t
  >>-ok m k s e = rw (e, ◌>>◌)

  pub >>-err :
      {A B : Type 0} (m : Tx S A) (k : Tx S B) (s : S) {x : Error}
      → m s ≡ err x
      → (m >> k) s ≡ err x
  >>-err m k s e = rw (e, ◌>>◌)

  pub >>=-ok :
      {A B : Type 0} (m : Tx S A) (f : A → Tx S B) (s : S) {a : A} {t : S}
      → m s ≡ ok (a, t)
      → (m >>= f) s ≡ f a t
  >>=-ok m f s e = rw (e, ◌>>=◌)

  pub >>=-err :
      {A B : Type 0} (m : Tx S A) (f : A → Tx S B) (s : S) {x : Error}
      → m s ≡ err x
      → (m >>= f) s ≡ err x
  >>=-err m f s e = rw (e, ◌>>=◌)
