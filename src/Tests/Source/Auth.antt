-- ===== src/Tests/Source/Auth.antt =====
-- The tests of src/auth.rs.
use xray_bridge.Prelude.{Bool, true, not, ◌≡◌, refl, Option, none, some, [], ◌∷◌}
use xray_bridge.Text.{
  Str, utf8, str_eq, is_empty, strip_prefix, starts_with, slice_from, ascii_lower,
}
use xray_bridge.Config.{Settings}
use xray_bridge.Extern.Http.{Headers}
use xray_bridge.Outcome.{Outcome}
use xray_bridge.Auth.{BearerAuth, bearer_auth}
use xray_bridge.Auth.Compare.{constant_time_eq}
use xray_bridge.Tests.Sample.{unicode, http, text_of, headers_of}
use xray_bridge.Tests.Source.Asserts.{asserts, is_ok, is_unauthenticated}

abbrev make_state : Str → Settings
make_state token = record { bridge_token = token; port = 8080 }

abbrev make_request : Option Str → Headers
make_request none = headers_of []
make_request (some auth_val) = headers_of ((utf8 "authorization", auth_val) ∷ [])

abbrev from_request_parts : Option Str → Outcome BearerAuth
from_request_parts auth = bearer_auth unicode http (make_state (utf8 "secret")) (make_request auth)

abbrev missing_auth_header_returns_401 : Bool
missing_auth_header_returns_401 = is_unauthenticated (from_request_parts none)

missing_auth_header_returns_401_lem : missing_auth_header_returns_401 ≡ true
unfolding bearer_auth
missing_auth_header_returns_401_lem = refl

abbrev wrong_scheme_returns_401 : Bool
wrong_scheme_returns_401 = is_unauthenticated (from_request_parts (some (utf8 "Basic secret")))

wrong_scheme_returns_401_lem : wrong_scheme_returns_401 ≡ true
unfolding bearer_auth utf8 str_eq text_of strip_prefix starts_with slice_from ascii_lower
wrong_scheme_returns_401_lem = refl

abbrev wrong_token_returns_401 : Bool
wrong_token_returns_401 = is_unauthenticated (from_request_parts (some (utf8 "Bearer wrongtoken")))

wrong_token_returns_401_lem : wrong_token_returns_401 ≡ true
unfolding bearer_auth utf8 str_eq text_of strip_prefix is_empty constant_time_eq
wrong_token_returns_401_lem = refl

abbrev correct_token_succeeds : Bool
correct_token_succeeds = is_ok (from_request_parts (some (utf8 "Bearer secret")))

correct_token_succeeds_lem : correct_token_succeeds ≡ true
unfolding bearer_auth utf8 str_eq text_of strip_prefix is_empty constant_time_eq
correct_token_succeeds_lem = refl

abbrev constant_time_eq_works : Bool
constant_time_eq_works = asserts (
    constant_time_eq (utf8 "abc") (utf8 "abc")
    ∷ not (constant_time_eq (utf8 "abc") (utf8 "xyz"))
    ∷ not (constant_time_eq (utf8 "abc") (utf8 "ab"))
    ∷ not (constant_time_eq (utf8 "") (utf8 "a"))
    ∷ constant_time_eq (utf8 "") (utf8 "")
    ∷ [])

constant_time_eq_works_lem : constant_time_eq_works ≡ true
unfolding utf8 constant_time_eq
constant_time_eq_works_lem = refl
