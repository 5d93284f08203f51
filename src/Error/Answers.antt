-- ===== src/Error/Answers.antt =====
-- The answers to errors.
use xray_bridge.Prelude.{◌≡◌, ◌≤◌, ◌<◌, refl, some, arith, false}
use xray_bridge.Text.{Str, utf8, str_eq}
use xray_bridge.Json.{bool, str, get}
use xray_bridge.Extern.Unicode.{Unicode}
use xray_bridge.Error.{Code, code_name, grpc_code_to_http, AppError, into_response}

grpc_code_to_http-range :
    (u : Unicode) (code : Code) (details : Str)
    → (400 ≤ grpc_code_to_http u code details) × (grpc_code_to_http u code details < 600)
unfolding grpc_code_to_http
grpc_code_to_http-range u Code.unknown details = ground arith
grpc_code_to_http-range u _ details = ground arith

-- Whatever the error is, the answer has a status of an error, from 400 to 599, and a body whose
-- field "ok" is false and whose fields "code" and "error" are texts.
pub into_response-IsError :
    (u : Unicode) (e : AppError)
    → ((400 ≤ (into_response u e).status) × ((into_response u e).status < 600))
      × (get (into_response u e).body (utf8 "ok") ≡ some (bool false))
      × ((code : Str) × (get (into_response u e).body (utf8 "code") ≡ some (str code)))
      × ((error : Str) × (get (into_response u e).body (utf8 "error") ≡ some (str error)))
unfolding into_response get utf8 str_eq
into_response-IsError u (AppError.grpc code details) =
    (grpc_code_to_http-range u code details, refl, (code_name code, refl), (details, refl))
into_response-IsError u (AppError.unauthenticated msg) =
    (ground arith, refl, (_, refl), (msg, refl))
into_response-IsError u (AppError.invalid_argument msg) =
    (ground arith, refl, (_, refl), (msg, refl))
into_response-IsError u (AppError.unprocessable_entity msg) =
    (ground arith, refl, (_, refl), (msg, refl))
into_response-IsError u (AppError.internal msg) = (ground arith, refl, (_, refl), (msg, refl))
