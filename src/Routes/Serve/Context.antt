-- ===== src/Routes/Serve/Context.antt =====
-- What a handler does with its `NodeContext`: it takes the client first, and does not look at the
-- client's label.
use xray_bridge.Prelude.{sym, subst, ◌≡◌, ◌≢◌, refl, Option}
use xray_bridge.Config.{Settings}
use xray_bridge.Extern.Http.{Headers}
use xray_bridge.App.{Platform, Client, App, pure, send, call, ◌>>=◌}
use xray_bridge.Text.{Str}
use xray_bridge.Routes.Serve.{Endpoint, healthz, handle}
use xray_bridge.Routes.Handler
use xray_bridge.Xray.Handler as XHandler
use xray_bridge.Routes.Stats
use xray_bridge.Xray.Stats as XStats
use xray_bridge.Routes.Routing
use xray_bridge.Xray.Routing as XRouting
use xray_bridge.Routes.Serve.Guarded.{Guarded-node, Guarded}
use xray_bridge.Routes.Serve.Endpoints.{handle-Gated}
use xray_bridge.Routes.Extract.{node}

module _ (p : Platform) (settings : Settings) (headers : Headers) where
  -- The extractor runs before the rest of the handler.
  pub handle-context :
      (context : App p (Client p)) (e : Endpoint)
      → e ≢ healthz
      → handle p settings headers context e
        ≡ (context >>= λ client. handle p settings headers (pure p client) e)
  unfolding handle Stats.get_sys_stats_handler Stats.list_users_handler
      Stats.get_online_users_handler Stats.get_users_stats_handler Stats.query_stats_handler
      Stats.get_stat_handler Handler.add_user_handler Handler.remove_user_handler
      Handler.list_inbounds_handler Handler.add_inbound_handler Handler.remove_inbound_handler
      Handler.list_outbounds_handler Handler.add_outbound_handler Handler.remove_outbound_handler
      Handler.restart_logger_handler Routing.test_route_handler Routing.list_rules_handler
      Routing.remove_rule_handler Routing.get_balancer_handler Routing.override_balancer_handler
  handle-context context healthz h = absurd (h refl)
  handle-context context e h = refl

  -- The label of a client makes no difference to what a handler does.
  pub handle-name :
      (e : Endpoint) (client : Client p) (name : Option Str)
      → handle p settings headers (pure p (record client { name = name })) e
        ≡ handle p settings headers (pure p client) e
  unfolding handle Stats.get_sys_stats_handler Stats.list_users_handler
      Stats.get_online_users_handler Stats.get_users_stats_handler Stats.query_stats_handler
      Stats.get_stat_handler Handler.add_user_handler Handler.remove_user_handler
      Handler.list_inbounds_handler Handler.add_inbound_handler Handler.remove_inbound_handler
      Handler.list_outbounds_handler Handler.add_outbound_handler Handler.remove_outbound_handler
      Handler.restart_logger_handler Routing.test_route_handler Routing.list_rules_handler
      Routing.remove_rule_handler Routing.get_balancer_handler Routing.override_balancer_handler
      XHandler.add_user XHandler.remove_user XHandler.list_inbounds XHandler.add_inbound
      XHandler.remove_inbound XHandler.list_outbounds XHandler.add_outbound XHandler.remove_outbound
      XStats.query_stats XStats.get_stat XStats.get_sys_stats XStats.get_all_online_users
      XStats.get_users_stats XStats.list_users XRouting.test_route XRouting.list_routing_rules
      XRouting.remove_routing_rule XRouting.get_balancer_info XRouting.override_balancer_target
      XRouting.restart_logger send call
  handle-name healthz client name = refl
  handle-name e client name = refl

  -- Every endpoint but the health check is guarded.
  pub handle-Guarded :
      (e : Endpoint)
      → e ≢ healthz
      → Guarded p settings headers (handle p settings headers (node p headers) e)
  handle-Guarded e h =
      subst (Guarded p settings headers) (sym (handle-context (node p headers) e h))
        (Guarded-node p settings headers _ (handle-Gated p settings headers e h))
