-- ===== src/Tests/Errors.antt =====
-- The answers of src/error.rs on sample errors.
use xray_bridge.Prelude.{◌≡◌, ◌↔◌, ◌⊎◌, ◌≤◌, ◌<◌, some, true, false}
use xray_bridge.Text.{Str, utf8}
use xray_bridge.Json.{bool, str, get}
use xray_bridge.Error.{Code, AppError, grpc_code_to_http, status_not_found, into_response}
use xray_bridge.Error.Laws.{SaysNotFound, grpc_code_to_http-not_found_iff}
use xray_bridge.Error.Answers.{into_response-IsError}
use xray_bridge.Error.Reference.{is_documented, IsUnlisted, into_response-documented_iff}
use xray_bridge.Tests.Sample.{unicode}

abbrev error : AppError
error = AppError.grpc Code.unknown (utf8 "User Not Found")

grpc_code_to_http-not_found_iff_example :
    (grpc_code_to_http unicode Code.unknown (utf8 "User Not Found") ≡ status_not_found) ↔ (
      (Code.unknown ≡ Code.not_found)
      ⊎ ((Code.unknown ≡ Code.unknown) × SaysNotFound unicode (utf8 "User Not Found")))
grpc_code_to_http-not_found_iff_example =
    grpc_code_to_http-not_found_iff unicode Code.unknown (utf8 "User Not Found")

into_response-IsError_example :
    ((400 ≤ (into_response unicode error).status) × ((into_response unicode error).status < 600))
    × (get (into_response unicode error).body (utf8 "ok") ≡ some (bool false))
    × ((code : Str) × (get (into_response unicode error).body (utf8 "code") ≡ some (str code)))
    × ((message : Str) × (get (into_response unicode error).body (utf8 "error")
          ≡ some (str message)))
into_response-IsError_example = into_response-IsError unicode error

-- A node that does not take the token.
abbrev unwelcome : AppError
unwelcome = AppError.grpc Code.permission_denied (utf8 "bad token")

into_response-documented_iff_example :
    (is_documented (into_response unicode unwelcome) ≡ true) ↔ ¬ IsUnlisted unicode unwelcome
into_response-documented_iff_example = into_response-documented_iff unicode unwelcome
