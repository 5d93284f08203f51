-- ===== src/Routes/Handler.antt =====
-- src/routes/handler.rs: users, inbounds, outbounds and the logger.
pub mod Config
pub mod Removal
use xray_bridge.Prelude.{
  ℕ, Bool, true, false, ◌&&◌, ◌||◌, Option, none, some, Result, ok, err, List, [], ◌∷◌,
  if◌then◌else◌, and_then, unwrap_or,
}
use xray_bridge.Text.{Str, utf8, contains}
use xray_bridge.Json.{bool, Json, str, object!, array!, get, as_str}
use xray_bridge.Config.{Settings}
use xray_bridge.Error.{Response, AppError, Code, code_eq, status_ok, created}
use xray_bridge.Outcome.{Outcome, done, fail, reject, panic}
use xray_bridge.Extern.Http.{Headers}
use xray_bridge.Extern.Unicode.{Unicode}
use xray_bridge.App.{Platform, Client, World, App, pure, raise, ◌>>=◌, ◌>>◌}
use xray_bridge.Routes.Extract.{Extracted, node, auth, extract, answer}
use xray_bridge.Xray.Handler.{
  or_fail, add_user, remove_user, list_inbounds, add_inbound, remove_inbound, list_outbounds,
  add_outbound, remove_outbound,
}
use xray_bridge.Xray.Routing.{restart_logger}
use Config.{json_to_inbound_config, json_to_outbound_config}

pub record AddUserBody : Type 0 where
  pub tag : Str
  pub email : Str
  pub proto : Str
  pub level : ℕ
  pub uuid : Str
  pub flow : Str
  pub vmess_security : Str
  pub password : Str
  pub ss_cipher : Str

pub record InboundConfigBody : Type 0 where
  pub config : Json

pub record RemoveUserQuery : Type 0 where
  pub tag : Str
  pub ignore_missing : Bool

unfoldable pub operation_result : Str → Json → Json
operation_result action detail = object! (
    ("ok", bool true)
    ∷ ("action", str action)
    ∷ ("persisted", bool false)
    ∷ ("detail", detail)
    ∷ [])

-- The test by which `remove_user_handler` takes an error for a user that is not there.
unfoldable pub is_not_found : Unicode → Code → Str → Bool
is_not_found u code details =
    code_eq code Code.not_found
    || (code_eq code Code.unknown && contains (utf8 "not found") (u.to_lowercase details))

-- The answer about an inbound or outbound tag.
abbrev pub tag_detail : Str → Json
tag_detail tag = object! (("tag", str tag) ∷ [])

abbrev pub removed : Str → Str → Response
removed tag email =
    answer status_ok (
      operation_result (utf8 "remove-user")
        (object! (("tag", str tag) ∷ ("email", str email) ∷ [])))

abbrev pub removal_ignored : Str → Str → Response
removal_ignored tag email = answer status_ok (
    operation_result (utf8 "remove-user") (
      object!
        (("tag", str tag) ∷ ("email", str email) ∷ ("note", str (utf8 "not found, ignored")) ∷ [])))

-- The `match` of `remove_user_handler` on the result of the call.
unfoldable pub removal_answer :
    Unicode → RemoveUserQuery → Str → Outcome (Unit {0}) → Outcome Response
removal_answer u q email (done _) = done (removed q.tag email)
removal_answer u q email (fail (AppError.grpc code details)) =
    if is_not_found u code details && q.ignore_missing
    then done (removal_ignored q.tag email)
    else fail (AppError.grpc code details)
removal_answer u q email (fail (AppError.unauthenticated msg)) = fail (AppError.unauthenticated msg)
removal_answer u q email (fail (AppError.invalid_argument msg)) =
    fail (AppError.invalid_argument msg)
removal_answer u q email (fail (AppError.unprocessable_entity msg)) =
    fail (AppError.unprocessable_entity msg)
removal_answer u q email (fail (AppError.internal msg)) = fail (AppError.internal msg)
removal_answer u q email (reject status) = reject status
removal_answer u q email panic = panic

module _ (p : Platform) where
  -- The test and the reading of the tag in front of the conversion.
  unfoldable pub has_tag : Json → App p Str
  has_tag config = elim (get config (utf8 "tag")) [
    | none ↦ raise p (AppError.unprocessable_entity (utf8 "config 必须包含 'tag' 字段"))
    | some v ↦ pure p (unwrap_or (as_str v) [])
  ]

-- `context` is the step that gives `NodeContext`.
module _ (p : Platform) (settings : Settings) (headers : Headers) (context : App p (Client p)) where
  unfoldable pub add_user_handler : Extracted AddUserBody → App p Response
  add_user_handler given = do
    client ← context
    auth p settings headers
    body ← extract p given
    add_user p client body.tag body.email body.proto body.level body.uuid body.flow
        body.vmess_security body.password body.ss_cipher
    pure p (
        answer created (
          operation_result (utf8 "add-user") (
            object! (
              ("tag", str body.tag) ∷ ("email", str body.email) ∷ ("proto", str body.proto) ∷ []))))

  unfoldable pub remove_user_handler : Extracted Str → Extracted RemoveUserQuery → App p Response
  remove_user_handler path given = do
    client ← context
    email ← extract p path
    q ← extract p given
    auth p settings headers
    λ w. (
      removal_answer p.unicode q email (remove_user p client q.tag email w).0,
      (remove_user p client q.tag email w).1,
    )

  unfoldable pub list_inbounds_handler : App p Response
  list_inbounds_handler = do
    client ← context
    auth p settings headers
    inbounds ← list_inbounds p client
    pure p (answer status_ok (array! inbounds))

  unfoldable pub add_inbound_handler : Extracted InboundConfigBody → App p Response
  add_inbound_handler given = do
    client ← context
    auth p settings headers
    body ← extract p given
    tag ← has_tag p body.config
    config ← or_fail p client (json_to_inbound_config p.base64 body.config)
    add_inbound p client config
    pure p (answer created (operation_result (utf8 "add-inbound") (tag_detail tag)))

  unfoldable pub remove_inbound_handler : Extracted Str → App p Response
  remove_inbound_handler path = do
    client ← context
    tag ← extract p path
    auth p settings headers
    remove_inbound p client tag
    pure p (answer status_ok (operation_result (utf8 "remove-inbound") (tag_detail tag)))

  unfoldable pub list_outbounds_handler : App p Response
  list_outbounds_handler = do
    client ← context
    auth p settings headers
    outbounds ← list_outbounds p client
    pure p (answer status_ok (array! outbounds))

  unfoldable pub add_outbound_handler : Extracted InboundConfigBody → App p Response
  add_outbound_handler given = do
    client ← context
    auth p settings headers
    body ← extract p given
    tag ← has_tag p body.config
    config ← or_fail p client (json_to_outbound_config p.base64 body.config)
    add_outbound p client config
    pure p (answer created (operation_result (utf8 "add-outbound") (tag_detail tag)))

  unfoldable pub remove_outbound_handler : Extracted Str → App p Response
  remove_outbound_handler path = do
    client ← context
    tag ← extract p path
    auth p settings headers
    remove_outbound p client tag
    pure p (answer status_ok (operation_result (utf8 "remove-outbound") (tag_detail tag)))

  unfoldable pub restart_logger_handler : App p Response
  restart_logger_handler = do
    client ← context
    auth p settings headers
    restart_logger p client
    pure p (answer status_ok (operation_result (utf8 "restart-logger") (object! [])))
