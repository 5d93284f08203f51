-- ===== src/Error.antt =====
-- src/error.rs: the program's error type, and the HTTP answer for each error.
pub mod Laws
pub mod Answers
pub mod Reference
use xray_bridge.Prelude.{ℕ, Bool, false, String, [], ◌∷◌, ◌==◌, if◌then◌else◌}
use xray_bridge.Text.{Str, utf8, contains}
use xray_bridge.Json.{Json, bool, str, object! }
use xray_bridge.Extern.Unicode.{Unicode}

-- `tonic::Code`
pub data Code : Type 0 where
  ok_code cancelled unknown invalid_argument deadline_exceeded not_found already_exists : Code
  permission_denied resource_exhausted failed_precondition aborted out_of_range : Code
  unimplemented internal unavailable data_loss unauthenticated : Code

-- The number of a code on the wire, by which codes are compared.
unfoldable pub code_number : Code → ℕ
code_number Code.ok_code = 0
code_number Code.cancelled = 1
code_number Code.unknown = 2
code_number Code.invalid_argument = 3
code_number Code.deadline_exceeded = 4
code_number Code.not_found = 5
code_number Code.already_exists = 6
code_number Code.permission_denied = 7
code_number Code.resource_exhausted = 8
code_number Code.failed_precondition = 9
code_number Code.aborted = 10
code_number Code.out_of_range = 11
code_number Code.unimplemented = 12
code_number Code.internal = 13
code_number Code.unavailable = 14
code_number Code.data_loss = 15
code_number Code.unauthenticated = 16

-- `==` on codes.
unfoldable pub code_eq : Code → Code → Bool
unfolding code_number
code_eq a b = code_number a == code_number b

-- What the program reads of a `tonic::Status`.
pub record Status : Type 0 where
  pub code : Code
  pub message : Str

pub data AppError : Type 0 where
  grpc : Code → Str → AppError
  unauthenticated invalid_argument unprocessable_entity internal : Str → AppError

unfoldable pub from_status : Status → AppError
from_status status = AppError.grpc status.code status.message

abbrev pub status_ok : ℕ
status_ok = 200

abbrev pub created : ℕ
created = 201

abbrev pub bad_request : ℕ
bad_request = 400

abbrev pub unauthorized : ℕ
unauthorized = 401

abbrev pub status_not_found : ℕ
status_not_found = 404

abbrev pub conflict : ℕ
conflict = 409

abbrev pub status_unprocessable_entity : ℕ
status_unprocessable_entity = 422

abbrev pub internal_server_error : ℕ
internal_server_error = 500

abbrev pub not_implemented : ℕ
not_implemented = 501

abbrev pub bad_gateway : ℕ
bad_gateway = 502

unfoldable pub grpc_code_to_http : Unicode → Code → Str → ℕ
grpc_code_to_http u Code.not_found details = status_not_found
grpc_code_to_http u Code.already_exists details = conflict
grpc_code_to_http u Code.unimplemented details = not_implemented
grpc_code_to_http u Code.unavailable details = bad_gateway
grpc_code_to_http u Code.unknown details =
    let lower = u.to_lowercase details in
    if contains (utf8 "not found") lower
    then status_not_found
    else if contains (utf8 "already exists") lower
    then conflict
    else bad_gateway
grpc_code_to_http u _ details = internal_server_error

unfoldable pub code_name : Code → Str
code_name Code.ok_code = utf8 "OK"
code_name Code.cancelled = utf8 "CANCELLED"
code_name Code.unknown = utf8 "UNKNOWN"
code_name Code.invalid_argument = utf8 "INVALID_ARGUMENT"
code_name Code.deadline_exceeded = utf8 "DEADLINE_EXCEEDED"
code_name Code.not_found = utf8 "NOT_FOUND"
code_name Code.already_exists = utf8 "ALREADY_EXISTS"
code_name Code.permission_denied = utf8 "PERMISSION_DENIED"
code_name Code.resource_exhausted = utf8 "RESOURCE_EXHAUSTED"
code_name Code.failed_precondition = utf8 "FAILED_PRECONDITION"
code_name Code.aborted = utf8 "ABORTED"
code_name Code.out_of_range = utf8 "OUT_OF_RANGE"
code_name Code.unimplemented = utf8 "UNIMPLEMENTED"
code_name Code.internal = utf8 "INTERNAL"
code_name Code.unavailable = utf8 "UNAVAILABLE"
code_name Code.data_loss = utf8 "DATA_LOSS"
code_name Code.unauthenticated = utf8 "UNAUTHENTICATED"

-- An HTTP answer: its status and its JSON body.
pub record Response : Type 0 where
  pub status : ℕ
  pub body : Json

error_body : Str → Str → Json
error_body code error =
    object! (("ok", bool false) ∷ ("code", str code) ∷ ("error", str error) ∷ [])

unfoldable pub into_response : Unicode → AppError → Response
unfolding error_body
into_response u (AppError.grpc code details) = record {
  status = grpc_code_to_http u code details;
  body = error_body (code_name code) details;
}
into_response u (AppError.unauthenticated msg) = record {
  status = unauthorized;
  body = error_body (utf8 "UNAUTHENTICATED") msg;
}
into_response u (AppError.invalid_argument msg) = record {
  status = bad_request;
  body = error_body (utf8 "INVALID_ARGUMENT") msg;
}
into_response u (AppError.unprocessable_entity msg) = record {
  status = status_unprocessable_entity;
  body = error_body (utf8 "INVALID_ARGUMENT") msg;
}
into_response u (AppError.internal msg) = record {
  status = internal_server_error;
  body = error_body (utf8 "INTERNAL_ERROR") msg;
}
