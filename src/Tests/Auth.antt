-- ===== src/Tests/Auth.antt =====
-- The extractor of src/auth.rs on sample headers.
use xray_bridge.Prelude.{◌≡◌, ◌↔◌, ◌⊎◌, true}
use xray_bridge.Text.{utf8}
use xray_bridge.Outcome.{done}
use xray_bridge.Auth.{bearer_auth}
use xray_bridge.Auth.Laws.{Grants, IsUnauthenticated, bearer_auth-done_iff, bearer_auth-cases}
use xray_bridge.Auth.Compare.{constant_time_eq, constant_time_eq_iff}
use xray_bridge.Tests.Sample.{unicode, http, settings, caller, stranger}

bearer_auth-done_iff_example :
    (bearer_auth unicode http settings caller ≡ done (record {})) ↔ Grants settings caller
bearer_auth-done_iff_example = bearer_auth-done_iff unicode http settings caller

bearer_auth-cases_example :
    (bearer_auth unicode http settings stranger ≡ done (record {}))
    ⊎ IsUnauthenticated (bearer_auth unicode http settings stranger)
bearer_auth-cases_example = bearer_auth-cases unicode http settings stranger

constant_time_eq_iff_example :
    (constant_time_eq (utf8 "s3cret") (utf8 "guess") ≡ true) ↔ (utf8 "s3cret" ≡ utf8 "guess")
constant_time_eq_iff_example = constant_time_eq_iff (utf8 "s3cret") (utf8 "guess")
