-- ===== src/Routes/Serve.antt =====
-- A request that the router of src/routes/mod.rs has sent to an endpoint, and what is answered.
pub mod Effects
pub mod Guarded
mod Rpcs
mod Shapes
pub mod Endpoints
pub mod Context
pub mod Laws
pub mod Totality
pub mod Talk
pub mod Flight
pub mod Interleaving
pub mod Progress
pub mod Stateless
use xray_bridge.Prelude.{ℕ, Bool, true, false, [], ◌∷◌}
use xray_bridge.Text.{Str}
use xray_bridge.Json.{bool, object! }
use xray_bridge.Config.{Settings}
use xray_bridge.Error.{Response, status_ok, into_response}
use xray_bridge.Outcome.{Outcome, done, fail, reject, panic}
use xray_bridge.Extern.Unicode.{Unicode}
use xray_bridge.Extern.Http.{Headers}
use xray_bridge.App.{Client, Platform, World, App, pure}
use xray_bridge.Routes.Extract.{node, Extracted, answer}
use xray_bridge.Routes.Handler
use xray_bridge.Routes.Stats
use xray_bridge.Routes.Routing

-- The routes, each with what its extractors make of the path, the query and the body.
pub data Endpoint : Type 0 where
  healthz : Endpoint
  get_sys : Endpoint
  get_users : Endpoint
  get_users_online : Endpoint
  get_users_stats : Extracted Stats.ResetQuery → Endpoint
  get_stats : Extracted Stats.StatsQuery → Endpoint
  get_stat : (name : Extracted Str) → Extracted Stats.ResetQuery → Endpoint
  post_users : Extracted Handler.AddUserBody → Endpoint
  delete_user : (email : Extracted Str) → Extracted Handler.RemoveUserQuery → Endpoint
  get_inbounds : Endpoint
  post_inbounds : Extracted Handler.InboundConfigBody → Endpoint
  delete_inbound : (tag : Extracted Str) → Endpoint
  get_outbounds : Endpoint
  post_outbounds : Extracted Handler.InboundConfigBody → Endpoint
  delete_outbound : (tag : Extracted Str) → Endpoint
  post_logger_restart : Endpoint
  post_routing_test : Extracted Routing.TestRouteBody → Endpoint
  get_routing_rules : Endpoint
  delete_routing_rule : (tag : Extracted Str) → Endpoint
  get_balancer : (tag : Extracted Str) → Endpoint
  put_balancer : (tag : Extracted Str) → Extracted Routing.OverrideBalancerBody → Endpoint

-- `context` is the step that gives `NodeContext`: the extractor, or the client that it gave.
module _ (p : Platform) (settings : Settings) (headers : Headers) (context : App p (Client p)) where
  unfoldable pub handle : Endpoint → App p Response
  handle healthz = pure p (answer status_ok (object! (("ok", bool true) ∷ [])))
  handle get_sys = Stats.get_sys_stats_handler p settings headers context
  handle get_users = Stats.list_users_handler p settings headers context
  handle get_users_online = Stats.get_online_users_handler p settings headers context
  handle (get_users_stats q) = Stats.get_users_stats_handler p settings headers context q
  handle (get_stats q) = Stats.query_stats_handler p settings headers context q
  handle (get_stat name q) = Stats.get_stat_handler p settings headers context name q
  handle (post_users body) = Handler.add_user_handler p settings headers context body
  handle (delete_user email q) = Handler.remove_user_handler p settings headers context email q
  handle get_inbounds = Handler.list_inbounds_handler p settings headers context
  handle (post_inbounds body) = Handler.add_inbound_handler p settings headers context body
  handle (delete_inbound tag) = Handler.remove_inbound_handler p settings headers context tag
  handle get_outbounds = Handler.list_outbounds_handler p settings headers context
  handle (post_outbounds body) = Handler.add_outbound_handler p settings headers context body
  handle (delete_outbound tag) = Handler.remove_outbound_handler p settings headers context tag
  handle post_logger_restart = Handler.restart_logger_handler p settings headers context
  handle (post_routing_test body) = Routing.test_route_handler p settings headers context body
  handle get_routing_rules = Routing.list_rules_handler p settings headers context
  handle (delete_routing_rule tag) = Routing.remove_rule_handler p settings headers context tag
  handle (get_balancer tag) = Routing.get_balancer_handler p settings headers context tag
  handle (put_balancer tag body) =
      Routing.override_balancer_handler p settings headers context tag body

-- What goes back to the caller: a JSON answer, the status of one whose body is left out, the answer of
-- an extractor of axum's, or nothing.
pub data Answer : Type 0 where
  answered : Response → Answer
  headed : ℕ → Answer
  rejected : ℕ → Answer
  dropped : Answer

unfoldable pub respond : Unicode → Outcome Response → Answer
respond u (done response) = answered response
respond u (fail e) = answered (into_response u e)
respond u (reject status) = rejected status
respond u panic = dropped

unfoldable pub serve : (p : Platform) → Settings → Headers → Endpoint → World p → Answer × World p
serve p settings headers endpoint w =
    let (outcome, w') = handle p settings headers (node p headers) endpoint w in
    (respond p.unicode outcome, w')
