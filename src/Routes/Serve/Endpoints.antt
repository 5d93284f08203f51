-- ===== src/Routes/Serve/Endpoints.antt =====
-- Every endpoint but the health check is guarded.
use xray_bridge.Prelude.{ap, refl, ◌≢◌}
use xray_bridge.Config.{Settings}
use xray_bridge.Extern.Http.{Headers}
use xray_bridge.App.{pure, Platform}
use xray_bridge.Text.{Str}
use xray_bridge.Routes.Extract.{Extracted}
use xray_bridge.Routes.Handler
use xray_bridge.Routes.Stats
use xray_bridge.Routes.Routing
use xray_bridge.Routes.Serve.Guarded.{Gated-auth, Gated}
use xray_bridge.Routes.Serve.Rpcs
use xray_bridge.Routes.Serve.Shapes.{
  removal_answer-Returns, call_then_pure, Gated-extract_both, Gated-extract-auth, body_then,
  config_then,
}
use xray_bridge.Routes.Handler.Config.{json_to_inbound_config, json_to_outbound_config}
use xray_bridge.Xray.Handler.{remove_user, add_inbound, add_outbound}
use xray_bridge.Routes.Serve.{
  Endpoint, handle, healthz, get_sys, get_users, get_users_online, get_users_stats, get_stats,
  get_stat, post_users, delete_user, get_inbounds, post_inbounds, delete_inbound, get_outbounds,
  post_outbounds, delete_outbound, post_logger_restart, post_routing_test, get_routing_rules,
  delete_routing_rule, get_balancer, put_balancer,
}

module _ (p : Platform) (settings : Settings) (headers : Headers) where
  get_sys_stats_Gated :
      Gated p settings headers
        (λ client. Stats.get_sys_stats_handler p settings headers (pure p client))
  unfolding Stats.get_sys_stats_handler
  get_sys_stats_Gated =
      Gated-auth p settings headers _
        (λ client. call_then_pure p settings headers client _ _ (Rpcs.get_sys_stats-Calls p client))

  list_users_Gated :
      Gated p settings headers
        (λ client. Stats.list_users_handler p settings headers (pure p client))
  unfolding Stats.list_users_handler
  list_users_Gated =
      Gated-auth p settings headers _
        (λ client. call_then_pure p settings headers client _ _ (Rpcs.list_users-Calls p client))

  get_online_users_Gated :
      Gated p settings headers
        (λ client. Stats.get_online_users_handler p settings headers (pure p client))
  unfolding Stats.get_online_users_handler
  get_online_users_Gated = Gated-auth p settings headers _ (λ client.
      call_then_pure p settings headers client _ _ (Rpcs.get_all_online_users-Calls p client))

  list_inbounds_Gated :
      Gated p settings headers
        (λ client. Handler.list_inbounds_handler p settings headers (pure p client))
  unfolding Handler.list_inbounds_handler
  list_inbounds_Gated =
      Gated-auth p settings headers _
        (λ client. call_then_pure p settings headers client _ _ (Rpcs.list_inbounds-Calls p client))

  list_outbounds_Gated :
      Gated p settings headers
        (λ client. Handler.list_outbounds_handler p settings headers (pure p client))
  unfolding Handler.list_outbounds_handler
  list_outbounds_Gated =
      Gated-auth p settings headers _ (λ client.
        call_then_pure p settings headers client _ _ (Rpcs.list_outbounds-Calls p client))

  restart_logger_Gated :
      Gated p settings headers
        (λ client. Handler.restart_logger_handler p settings headers (pure p client))
  unfolding Handler.restart_logger_handler
  restart_logger_Gated =
      Gated-auth p settings headers _ (λ client.
        call_then_pure p settings headers client _ _ (Rpcs.restart_logger-Calls p client))

  list_rules_Gated :
      Gated p settings headers
        (λ client. Routing.list_rules_handler p settings headers (pure p client))
  unfolding Routing.list_rules_handler
  list_rules_Gated = Gated-auth p settings headers _ (λ client.
      call_then_pure p settings headers client _ _ (Rpcs.list_routing_rules-Calls p client))

  get_users_stats_Gated :
      (given : Extracted Stats.ResetQuery)
      → Gated p settings headers
          (λ client. Stats.get_users_stats_handler p settings headers (pure p client) given)
  unfolding Stats.get_users_stats_handler
  get_users_stats_Gated given = Gated-extract-auth p settings headers given _ (λ client q.
      call_then_pure p settings headers client _ _ (Rpcs.get_users_stats-Calls p client q.reset))

  query_stats_Gated :
      (given : Extracted Stats.StatsQuery)
      → Gated p settings headers
          (λ client. Stats.query_stats_handler p settings headers (pure p client) given)
  unfolding Stats.query_stats_handler
  query_stats_Gated given = Gated-extract-auth p settings headers given _ (λ client q.
      call_then_pure p settings headers client _ _
        (Rpcs.query_stats-Calls p client q.pattern q.reset))

  remove_inbound_Gated :
      (given : Extracted Str)
      → Gated p settings headers
          (λ client. Handler.remove_inbound_handler p settings headers (pure p client) given)
  unfolding Handler.remove_inbound_handler
  remove_inbound_Gated given = Gated-extract-auth p settings headers given _ (λ client q.
      call_then_pure p settings headers client _ _ (Rpcs.remove_inbound-Calls p client q))

  remove_outbound_Gated :
      (given : Extracted Str)
      → Gated p settings headers
          (λ client. Handler.remove_outbound_handler p settings headers (pure p client) given)
  unfolding Handler.remove_outbound_handler
  remove_outbound_Gated given = Gated-extract-auth p settings headers given _ (λ client q.
      call_then_pure p settings headers client _ _ (Rpcs.remove_outbound-Calls p client q))

  remove_rule_Gated :
      (given : Extracted Str)
      → Gated p settings headers
          (λ client. Routing.remove_rule_handler p settings headers (pure p client) given)
  unfolding Routing.remove_rule_handler
  remove_rule_Gated given = Gated-extract-auth p settings headers given _ (λ client q.
      call_then_pure p settings headers client _ _ (Rpcs.remove_routing_rule-Calls p client q))

  get_balancer_Gated :
      (given : Extracted Str)
      → Gated p settings headers
          (λ client. Routing.get_balancer_handler p settings headers (pure p client) given)
  unfolding Routing.get_balancer_handler
  get_balancer_Gated given = Gated-extract-auth p settings headers given _ (λ client q.
      call_then_pure p settings headers client _ _ (Rpcs.get_balancer_info-Calls p client q))

  get_stat_Gated :
      (path : Extracted Str) (given : Extracted Stats.ResetQuery)
      → Gated p settings headers
          (λ client. Stats.get_stat_handler p settings headers (pure p client) path given)
  unfolding Stats.get_stat_handler
  get_stat_Gated path given = Gated-extract_both p settings headers path given _ (λ client name q.
      call_then_pure p settings headers client _ _ (Rpcs.get_stat-Calls p client name q.reset))

  remove_user_Gated :
      (path : Extracted Str) (given : Extracted Handler.RemoveUserQuery)
      → Gated p settings headers
          (λ client. Handler.remove_user_handler p settings headers (pure p client) path given)
  unfolding Handler.remove_user_handler
  remove_user_Gated path given =
      Gated-extract_both p settings headers path given _ (λ client email q w.
        let (sends, returns, frames) = Rpcs.remove_user-Calls p client q.tag email w in
        (
          sends,
          removal_answer-Returns p.unicode q email (remove_user p client q.tag email w).0 returns,
          λ c. ap (λ r. (Handler.removal_answer p.unicode q email r.0, r.1)) (frames c),
        ))

  add_user_Gated :
      (given : Extracted Handler.AddUserBody)
      → Gated p settings headers
          (λ client. Handler.add_user_handler p settings headers (pure p client) given)
  unfolding Handler.add_user_handler
  add_user_Gated given = Gated-auth p settings headers _ (λ client.
      body_then p settings headers client given _ _ (λ b.
        Rpcs.add_user-Calls p client b.tag b.email b.proto b.level b.uuid b.flow b.vmess_security
          b.password b.ss_cipher))

  test_route_Gated :
      (given : Extracted Routing.TestRouteBody)
      → Gated p settings headers
          (λ client. Routing.test_route_handler p settings headers (pure p client) given)
  unfolding Routing.test_route_handler
  test_route_Gated given = Gated-auth p settings headers _ (λ client.
      body_then p settings headers client given _ _
        (λ b. Rpcs.test_route-Calls p client b.target_domain b.network b.inbound_tag b.user))

  override_balancer_Gated :
      (path : Extracted Str) (given : Extracted Routing.OverrideBalancerBody)
      → Gated p settings headers (λ client.
        Routing.override_balancer_handler p settings headers (pure p client) path given)
  unfolding Routing.override_balancer_handler
  override_balancer_Gated path given = Gated-extract-auth p settings headers path _ (λ client tag.
      body_then p settings headers client given _ _
        (λ b. Rpcs.override_balancer_target-Calls p client tag b.target))

  add_inbound_Gated :
      (given : Extracted Handler.InboundConfigBody)
      → Gated p settings headers
          (λ client. Handler.add_inbound_handler p settings headers (pure p client) given)
  unfolding Handler.add_inbound_handler
  add_inbound_Gated given = Gated-auth p settings headers _ (λ client.
      config_then p settings headers client given (json_to_inbound_config p.base64)
        (add_inbound p client) _ (λ config. Rpcs.add_inbound-Calls p client config))

  add_outbound_Gated :
      (given : Extracted Handler.InboundConfigBody)
      → Gated p settings headers
          (λ client. Handler.add_outbound_handler p settings headers (pure p client) given)
  unfolding Handler.add_outbound_handler
  add_outbound_Gated given = Gated-auth p settings headers _ (λ client.
      config_then p settings headers client given (json_to_outbound_config p.base64)
        (add_outbound p client) _ (λ config. Rpcs.add_outbound-Calls p client config))

  -- Every endpoint but the health check is gated, behind its `NodeContext`.
  pub handle-Gated :
      (e : Endpoint)
      → e ≢ healthz
      → Gated p settings headers (λ client. handle p settings headers (pure p client) e)
  unfolding handle
  handle-Gated healthz h = absurd (h refl)
  handle-Gated get_sys h = get_sys_stats_Gated
  handle-Gated get_users h = list_users_Gated
  handle-Gated get_users_online h = get_online_users_Gated
  handle-Gated (get_users_stats q) h = get_users_stats_Gated q
  handle-Gated (get_stats q) h = query_stats_Gated q
  handle-Gated (get_stat name q) h = get_stat_Gated name q
  handle-Gated (post_users body) h = add_user_Gated body
  handle-Gated (delete_user email q) h = remove_user_Gated email q
  handle-Gated get_inbounds h = list_inbounds_Gated
  handle-Gated (post_inbounds body) h = add_inbound_Gated body
  handle-Gated (delete_inbound tag) h = remove_inbound_Gated tag
  handle-Gated get_outbounds h = list_outbounds_Gated
  handle-Gated (post_outbounds body) h = add_outbound_Gated body
  handle-Gated (delete_outbound tag) h = remove_outbound_Gated tag
  handle-Gated post_logger_restart h = restart_logger_Gated
  handle-Gated (post_routing_test body) h = test_route_Gated body
  handle-Gated get_routing_rules h = list_rules_Gated
  handle-Gated (delete_routing_rule tag) h = remove_rule_Gated tag
  handle-Gated (get_balancer tag) h = get_balancer_Gated tag
  handle-Gated (put_balancer tag body) h = override_balancer_Gated tag body
