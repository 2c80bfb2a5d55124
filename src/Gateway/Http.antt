-- ===== src/Gateway/Http.antt =====
-- What a controller of the gateway answers or throws (clients/grpc-error.ts), and the caller
-- (auth/current-user.decorator.ts).
use hotdrop_orchestration.Base.{
  Key, ◌≡◌, refl, ◌==◌, if◌then◌else◌, Option, none, some, List, [], ◌∷◌,
}
use hotdrop_orchestration.Result.{Result, ok, err, Error, rpc_exception, GrpcStatus}

pub data HttpException : Type 0 where
  not_found_exception conflict_exception bad_request_exception : HttpException
  unauthorized_exception internal_server_error : HttpException

pub data HttpResult (A : Type 0) : Type 0 where
  answered : A → HttpResult A
  refused : HttpException → HttpResult A

abbrev pub http_map : {A B : Type 0} → (A → B) → HttpResult A → HttpResult B
http_map f (answered a) = answered (f a)
http_map f (refused e) = refused e

pub http_map_comp :
    {A B C : Type 0} (g : B → C) (f : A → B) (r : HttpResult A)
    → http_map g (http_map f r) ≡ http_map (λ a. g (f a)) r
http_map_comp g f (answered a) = refl
http_map_comp g f (refused e) = refl

-- `await` in a controller: what is thrown goes to the caller.
abbrev pub http_then : {A B : Type 0} → HttpResult A → (A → HttpResult B) → HttpResult B
http_then (answered a) f = f a
http_then (refused e) f = refused e

-- mapGrpcError; an error that is no RpcException reaches the gateway under another code.
unfoldable pub map_grpc_error : Error → HttpException
map_grpc_error (rpc_exception GrpcStatus.not_found text) = not_found_exception
map_grpc_error (rpc_exception GrpcStatus.failed_precondition text) = conflict_exception
map_grpc_error (rpc_exception GrpcStatus.invalid_argument text) = bad_request_exception
map_grpc_error _ = internal_server_error

unfoldable pub from_grpc : {A : Type 0} → Result A → HttpResult A
unfolding map_grpc_error
from_grpc (ok a) = answered a
from_grpc (err e) = refused (map_grpc_error e)

-- The header x-user-id of a request: missing, one value, or several.
pub data Header : Type 0 where
  missing : Header
  single : Key → Header
  several : List Key → Header

-- Array.isArray(header) ? header[0] : header
unfoldable pub user_id : Header → Option Key
user_id Header.missing = none
user_id (Header.single id) = some id
user_id (Header.several []) = none
user_id (Header.several (id ∷ ids)) = some id

unfoldable pub required_user : Option Key → HttpResult Key
required_user none = refused unauthorized_exception
required_user (some id) = if id == 0 then refused unauthorized_exception else answered id

unfoldable pub current_user : Header → HttpResult Key
unfolding user_id required_user
current_user header = required_user (user_id header)
