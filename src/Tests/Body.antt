-- ===== src/Tests/Body.antt =====
-- Bodies that leave fields out.
use xray_bridge.Prelude.{◌≡◌, refl, none, some, arith, err}
use xray_bridge.Text.{utf8, ascii_lower, str_eq}
use xray_bridge.Auth.Laws.{Grants}
use xray_bridge.Routes.Body.{AddUserFields, add_user_body, required, RemoveUserFields}
use xray_bridge.Routes.Body.Removed.{Removes, delete_user-cases}
use xray_bridge.Routes.Body.Added.{AddsVless, post_users-default}
use xray_bridge.Tests.Sample.{sample, settings, caller, fresh_world}
use xray_bridge.Tests.Flight.{caller_client, caller_enters}

caller_granted : Grants settings caller
unfolding utf8 ascii_lower str_eq
caller_granted = record {
  scheme = utf8 "bEARER ";
  is_scheme = refl;
  header = refl;
  visible = ground arith;
  nonempty = λ h. cc;
}

abbrev no_fields : AddUserFields
no_fields = record {
  tag = none;
  email = none;
  proto = none;
  level = none;
  uuid = none;
  flow = none;
  vmess_security = none;
  password = none;
  ss_cipher = none;
}

abbrev amy : AddUserFields
amy = record no_fields {
  tag = some (utf8 "in");
  email = some (utf8 "amy@x");
  uuid = some (utf8 "id");
}

post_users-default_example :
    AddsVless sample settings caller caller_client amy (utf8 "in") (utf8 "amy@x") fresh_world
post_users-default_example =
    post_users-default sample settings caller amy fresh_world caller_granted caller_enters refl refl
      refl

without_tag : add_user_body no_fields ≡ err 422
unfolding add_user_body required
without_tag = refl

abbrev amy_query : RemoveUserFields
amy_query = record { tag = some (utf8 "in"); ignore_missing = none }

delete_user-cases_example :
    Removes sample settings caller caller_client amy_query (utf8 "in") (utf8 "amy@x") fresh_world
delete_user-cases_example =
    delete_user-cases sample settings caller caller_client amy_query (utf8 "in") (utf8 "amy@x")
      fresh_world caller_granted caller_enters refl
