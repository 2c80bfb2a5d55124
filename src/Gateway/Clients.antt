-- ===== src/Gateway/Clients.antt =====
-- clients/kitchen.client.ts, order.client.ts and ratings.client.ts: each method calls the service's
-- gRPC controller on its database and maps the error.
pub mod Kitchen
pub mod Order
pub mod Ratings
use hotdrop_orchestration.Base.{Option, none, some, List, []}
use hotdrop_orchestration.Result.{Result}
use hotdrop_orchestration.Gateway.Http.{HttpResult, http_map, from_grpc}

-- result.drops ?? []
abbrev pub or_empty : {A : Type 0} → Option (List A) → List A
or_empty none = []
or_empty (some xs) = xs

-- The same state, with the answer mapped.
abbrev pub from_grpc_on : {A B S : Type 0} → (A → B) → Result A × S → HttpResult B × S
from_grpc_on f (r, s) = (http_map f (from_grpc r), s)
