-- ===== src/Rpc/Message.antt =====
-- packages/context-rpc/src/error.ts, with the error codes and the response types of
-- packages/context-protocol/src/rpc.ts. A response that came from the peer keeps its `error` member
-- as a JSON value that nothing has looked into yet; `none` is a member that is not there.
use mokei.Common.{
  String, ◌≡◌, refl, Option, none, some, Bool, ite, is_some, string_key, String-discrete, RequestId,
}
use mokei.Common.Json.{ℤ, negsuc, Json, int, text, object, Fields, end, field}

abbrev pub invalid_request : ℤ
invalid_request = negsuc 32599

abbrev pub method_not_found : ℤ
method_not_found = negsuc 32600

abbrev pub invalid_params : ℤ
invalid_params = negsuc 32601

abbrev pub internal_error : ℤ
internal_error = negsuc 32602

abbrev pub server_shutting_down : ℤ
server_shutting_down = negsuc 31999

pub record Response : Type 0 where
  pub id : RequestId
  pub error : Option Json
  pub result : Option Json

pub record RpcError : Type 0 where
  pub code : ℤ
  pub message : String
  pub info : Option Json

-- Property access on an object.
unfoldable pub member : Fields → String → Option Json
member end k = none
member (field j v fs) k = ite (string_key.decide j k) (some v) (member fs k)

read_code : Option Json → Option ℤ
read_code (some (int c)) = some c
read_code _ = none

read_message : Option Json → Option String
read_message (some (text m)) = some m
read_message _ = none

error_from : Option ℤ → Option String → Option Json → Option RpcError
error_from (some c) (some m) info = some (record { code = c; message = m; info = info })
error_from _ _ _ = none

-- What `RPCError.fromResponse` makes of a response that passes `isErrorResponse`; `none` where it
-- does not pass.
read_error : Option Json → Option RpcError
unfolding read_code read_message error_from member
read_error (some (object fs)) =
    error_from (read_code (member fs "code")) (read_message (member fs "message"))
      (member fs "data")
read_error _ = none

unfoldable pub from_response : Response → Option RpcError
unfolding read_error
from_response r = read_error r.error

pub is_error_response : Response → Bool
is_error_response r = is_some (from_response r)

info_field : Option Json → Fields
info_field none = end
info_field (some v) = field "data" v end

-- `data: undefined` is dropped when the response is written as JSON.
unfoldable pub to_response : RpcError → RequestId → Response
unfolding info_field
to_response e id = record {
  id = id;
  error =
      some
        (object (field "code" (int e.code) (field "message" (text e.message) (info_field e.info))));
  result = none;
}

-- What a handler may throw.
pub data Cause : Type 0 where
  rpc : RpcError → Cause
  error : (message : String) → Cause
  string : String → Cause
  other : Cause

unfoldable pub plain_error : ℤ → String → RpcError
plain_error code message = record { code = code; message = message; info = none }

unfoldable pub error_response : RequestId → Cause → Response
unfolding to_response plain_error
error_response id (rpc e) = to_response e id
error_response id (error message) = to_response (plain_error internal_error message) id
error_response id (string message) = to_response (plain_error internal_error message) id
error_response id other = to_response (plain_error internal_error "Unknown error") id

from_response_of_info :
    (code : ℤ) (message : String) (info : Option Json) (id : RequestId)
    → let e : RpcError = record { code = code; message = message; info = info } in
      from_response (to_response e id) ≡ some e
unfolding from_response to_response String-discrete
from_response_of_info code message none id = refl
from_response_of_info code message (some v) id = refl

-- What the peer reads from a response that `RPCError.toResponse` made is the error that was sent,
-- with its code, message and data, under the id of the request.
pub from_response-to_response :
    (e : RpcError) (id : RequestId)
    → (from_response (to_response e id) ≡ some e) × ((to_response e id).id ≡ id)
unfolding to_response
from_response-to_response e id = (from_response_of_info e.code e.message e.info id, refl)
