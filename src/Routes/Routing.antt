-- ===== src/Routes/Routing.antt =====
-- src/routes/routing.rs: routing rules and balancers.
use xray_bridge.Prelude.{true, false, [], ◌∷◌}
use xray_bridge.Text.{Str, utf8}
use xray_bridge.Json.{Json, bool, str, object!, array! }
use xray_bridge.Config.{Settings}
use xray_bridge.Error.{Response, status_ok}
use xray_bridge.Extern.Http.{Headers}
use xray_bridge.App.{Client, Platform, App, pure, ◌>>=◌, ◌>>◌}
use xray_bridge.Routes.Extract.{Extracted, auth, extract, answer}
use xray_bridge.Xray.Routing.{
  test_route, list_routing_rules, remove_routing_rule, get_balancer_info, override_balancer_target,
}

pub record TestRouteBody : Type 0 where
  pub target_domain : Str
  pub network : Str
  pub inbound_tag : Str
  pub user : Str

pub record OverrideBalancerBody : Type 0 where
  pub target : Str

-- The same as in src/routes/handler.rs, which does not share its own.
unfoldable pub operation_result : Str → Json → Json
operation_result action detail = object! (
    ("ok", bool true)
    ∷ ("action", str action)
    ∷ ("persisted", bool false)
    ∷ ("detail", detail)
    ∷ [])

-- `context` is the step that gives `NodeContext`.
module _ (p : Platform) (settings : Settings) (headers : Headers) (context : App p (Client p)) where
  unfoldable pub test_route_handler : Extracted TestRouteBody → App p Response
  test_route_handler given = do
    client ← context
    auth p settings headers
    body ← extract p given
    result ← test_route p client body.target_domain body.network body.inbound_tag body.user
    pure p (answer status_ok result)

  unfoldable pub list_rules_handler : App p Response
  list_rules_handler = do
    client ← context
    auth p settings headers
    rules ← list_routing_rules p client
    pure p (answer status_ok (array! rules))

  unfoldable pub remove_rule_handler : Extracted Str → App p Response
  remove_rule_handler path = do
    client ← context
    tag ← extract p path
    auth p settings headers
    remove_routing_rule p client tag
    pure p (
        answer status_ok
          (operation_result (utf8 "remove-routing-rule") (object! (("tag", str tag) ∷ []))))

  unfoldable pub get_balancer_handler : Extracted Str → App p Response
  get_balancer_handler path = do
    client ← context
    tag ← extract p path
    auth p settings headers
    info ← get_balancer_info p client tag
    pure p (answer status_ok info)

  unfoldable pub override_balancer_handler :
      Extracted Str → Extracted OverrideBalancerBody → App p Response
  override_balancer_handler path given = do
    client ← context
    tag ← extract p path
    auth p settings headers
    body ← extract p given
    override_balancer_target p client tag body.target
    pure p (
        answer status_ok (
          operation_result (utf8 "override-balancer-target")
            (object! (("balancer_tag", str tag) ∷ ("target", str body.target) ∷ []))))
