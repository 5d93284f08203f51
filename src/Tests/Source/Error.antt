-- ===== src/Tests/Source/Error.antt =====
-- The tests of src/error.rs.
use xray_bridge.Prelude.{Bool, true, ◌≡◌, refl, ◌==◌, [], ◌∷◌}
use xray_bridge.Text.{utf8, contains, starts_with, ascii_lower}
use xray_bridge.Error.{
  Code, grpc_code_to_http, status_not_found, conflict, not_implemented, bad_gateway,
  internal_server_error,
}
use xray_bridge.Tests.Sample.{unicode}
use xray_bridge.Tests.Source.Asserts.{asserts}

abbrev grpc_to_http_not_found : Bool
grpc_to_http_not_found = grpc_code_to_http unicode Code.not_found (utf8 "") == status_not_found

grpc_to_http_not_found_lem : grpc_to_http_not_found ≡ true
unfolding grpc_code_to_http
grpc_to_http_not_found_lem = refl

abbrev grpc_to_http_already_exists : Bool
grpc_to_http_already_exists = grpc_code_to_http unicode Code.already_exists (utf8 "") == conflict

grpc_to_http_already_exists_lem : grpc_to_http_already_exists ≡ true
unfolding grpc_code_to_http
grpc_to_http_already_exists_lem = refl

abbrev grpc_to_http_unimplemented : Bool
grpc_to_http_unimplemented =
    grpc_code_to_http unicode Code.unimplemented (utf8 "") == not_implemented

grpc_to_http_unimplemented_lem : grpc_to_http_unimplemented ≡ true
unfolding grpc_code_to_http
grpc_to_http_unimplemented_lem = refl

abbrev grpc_to_http_unavailable : Bool
grpc_to_http_unavailable = grpc_code_to_http unicode Code.unavailable (utf8 "") == bad_gateway

grpc_to_http_unavailable_lem : grpc_to_http_unavailable ≡ true
unfolding grpc_code_to_http
grpc_to_http_unavailable_lem = refl

abbrev grpc_to_http_unknown_not_found : Bool
grpc_to_http_unknown_not_found =
    grpc_code_to_http unicode Code.unknown (utf8 "user not found in database") == status_not_found

grpc_to_http_unknown_not_found_lem : grpc_to_http_unknown_not_found ≡ true
unfolding grpc_code_to_http utf8 contains starts_with ascii_lower
grpc_to_http_unknown_not_found_lem = refl

abbrev grpc_to_http_unknown_already_exists : Bool
grpc_to_http_unknown_already_exists =
    grpc_code_to_http unicode Code.unknown (utf8 "already exists: user") == conflict

grpc_to_http_unknown_already_exists_lem : grpc_to_http_unknown_already_exists ≡ true
unfolding grpc_code_to_http utf8 contains starts_with ascii_lower
grpc_to_http_unknown_already_exists_lem = refl

abbrev grpc_to_http_unknown_other : Bool
grpc_to_http_unknown_other =
    grpc_code_to_http unicode Code.unknown (utf8 "connection reset") == bad_gateway

grpc_to_http_unknown_other_lem : grpc_to_http_unknown_other ≡ true
unfolding grpc_code_to_http utf8 contains starts_with ascii_lower
grpc_to_http_unknown_other_lem = refl

abbrev grpc_to_http_other_codes_are_500 : Bool
grpc_to_http_other_codes_are_500 = asserts (
    (grpc_code_to_http unicode Code.internal (utf8 "") == internal_server_error)
    ∷ (grpc_code_to_http unicode Code.cancelled (utf8 "") == internal_server_error)
    ∷ (grpc_code_to_http unicode Code.permission_denied (utf8 "") == internal_server_error)
    ∷ [])

grpc_to_http_other_codes_are_500_lem : grpc_to_http_other_codes_are_500 ≡ true
unfolding grpc_code_to_http
grpc_to_http_other_codes_are_500_lem = refl

abbrev grpc_to_http_unknown_case_insensitive : Bool
grpc_to_http_unknown_case_insensitive = asserts (
    (grpc_code_to_http unicode Code.unknown (utf8 "NOT FOUND") == status_not_found)
    ∷ (grpc_code_to_http unicode Code.unknown (utf8 "Not Found") == status_not_found)
    ∷ [])

grpc_to_http_unknown_case_insensitive_lem : grpc_to_http_unknown_case_insensitive ≡ true
unfolding grpc_code_to_http utf8 contains starts_with ascii_lower
grpc_to_http_unknown_case_insensitive_lem = refl
