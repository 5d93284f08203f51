-- ===== src/Routes/Serve/Rpcs.antt =====
-- Each function of src/xray/ makes at most one RPC, as the client that it is given.
use xray_bridge.Prelude.{
  ℕ, Bool, ok, err, inl, inr, true, false, Bool-cases, Result, Result-cases, refl,
}
use xray_bridge.Text.{Str}
use xray_bridge.Error.{AppError}
use xray_bridge.Proto.{InboundHandlerConfig, OutboundHandlerConfig}
use xray_bridge.Grpc.{Rpc}
use xray_bridge.App.{outgoing, Platform, Client, call, send}
use xray_bridge.Xray.Handler
use xray_bridge.Xray.Stats
use xray_bridge.Xray.Routing
use xray_bridge.Routes.Serve.Effects.{
  IsPure, Calls, Calls-send, Calls-call, Calls-then, Calls-after,
}

module _ (p : Platform) (client : Client p) where
  pub IsPure-or_fail : {A : Type 0} (r : Result A AppError) → IsPure p (Handler.or_fail p client r)
  IsPure-or_fail (ok a) w = (refl, tt, λ c. refl)
  IsPure-or_fail (err e) w = (refl, tt, λ c. refl)

  pub add_user-Calls :
      (tag email proto : Str) (level : ℕ) (uuid flow vmess_security password ss_cipher : Str)
      → Calls p client (
          Handler.add_user p client tag email proto level uuid flow vmess_security password
            ss_cipher)
  unfolding Handler.add_user
  add_user-Calls tag email proto level uuid flow vmess_security password ss_cipher =
      Calls-after p client (Handler.or_fail p client _) _ (IsPure-or_fail _)
        (λ a. Calls-send p client _)

  pub list_inbounds-Calls : Calls p client (Handler.list_inbounds p client)
  unfolding Handler.list_inbounds
  list_inbounds-Calls =
      Calls-then p client (send p client (Rpc.list_inbounds true)) _ (Calls-send p client _)
        (λ a w. (refl, tt, λ c. refl))

  pub remove_user-Calls :
      (tag email : Str) → Calls p client (Handler.remove_user p client tag email)
  unfolding Handler.remove_user
  remove_user-Calls tag email = Calls-send p client _

  pub add_inbound-Calls :
      (config : InboundHandlerConfig) → Calls p client (Handler.add_inbound p client config)
  unfolding Handler.add_inbound
  add_inbound-Calls config = Calls-send p client _

  pub remove_inbound-Calls : (tag : Str) → Calls p client (Handler.remove_inbound p client tag)
  unfolding Handler.remove_inbound
  remove_inbound-Calls tag = Calls-send p client _

  pub list_outbounds-Calls : Calls p client (Handler.list_outbounds p client)
  unfolding Handler.list_outbounds
  list_outbounds-Calls =
      Calls-then p client (send p client Rpc.list_outbounds) _ (Calls-send p client _)
        (λ a w. (refl, tt, λ c. refl))

  pub add_outbound-Calls :
      (config : OutboundHandlerConfig) → Calls p client (Handler.add_outbound p client config)
  unfolding Handler.add_outbound
  add_outbound-Calls config = Calls-send p client _

  pub remove_outbound-Calls : (tag : Str) → Calls p client (Handler.remove_outbound p client tag)
  unfolding Handler.remove_outbound
  remove_outbound-Calls tag = Calls-send p client _

  pub query_stats-Calls :
      (pattern : Str) (reset : Bool) → Calls p client (Stats.query_stats p client pattern reset)
  unfolding Stats.query_stats
  query_stats-Calls pattern reset =
      Calls-then p client (send p client (Rpc.query_stats pattern reset)) _ (Calls-send p client _)
        (λ a w. (refl, tt, λ c. refl))

  pub list_users-Calls : Calls p client (Stats.list_users p client)
  unfolding Stats.list_users
  list_users-Calls =
      Calls-then p client (Stats.query_stats p client _ false) _ (query_stats-Calls _ false)
        (λ a w. (refl, tt, λ c. refl))

  pub get_stat-Calls :
      (name : Str) (reset : Bool) → Calls p client (Stats.get_stat p client name reset)
  unfolding Stats.get_stat call
  get_stat-Calls name reset w =
      let one = Calls-call p client (Rpc.get_stats name reset) w in
      elim (Result-cases (p.nodes w.sent (outgoing p client (Rpc.get_stats name reset)))) [
        | inr (a, answered) ↦ rw (answered, Stats.get_stat, call) (one, tt, λ c. refl)
        | inl (status, failed) ↦ elim (Bool-cases (Stats.is_missing p.unicode status)) [
          | inl missing ↦ rw (failed, missing, Stats.get_stat, call) (one, tt, λ c. refl)
          | inr other ↦ rw (failed, other, Stats.get_stat, call) (one, tt, λ c. refl)
        ]
      ]

  pub get_sys_stats-Calls : Calls p client (Stats.get_sys_stats p client)
  unfolding Stats.get_sys_stats
  get_sys_stats-Calls =
      Calls-then p client (send p client Rpc.get_sys_stats) _ (Calls-send p client _)
        (λ a w. (refl, tt, λ c. refl))

  pub get_all_online_users-Calls : Calls p client (Stats.get_all_online_users p client)
  unfolding Stats.get_all_online_users
  get_all_online_users-Calls = Calls-send p client _

  pub get_users_stats-Calls : (reset : Bool) → Calls p client (Stats.get_users_stats p client reset)
  unfolding Stats.get_users_stats
  get_users_stats-Calls reset =
      Calls-then p client (send p client (Rpc.get_users_stats true reset)) _ (Calls-send p client _)
        (λ a w. (refl, tt, λ c. refl))

  pub test_route-Calls :
      (target_domain network inbound_tag user : Str)
      → Calls p client (Routing.test_route p client target_domain network inbound_tag user)
  unfolding Routing.test_route
  test_route-Calls target_domain network inbound_tag user =
      Calls-then p client (send p client _) _ (Calls-send p client _) (λ a w. (refl, tt, λ c. refl))

  pub list_routing_rules-Calls : Calls p client (Routing.list_routing_rules p client)
  unfolding Routing.list_routing_rules
  list_routing_rules-Calls =
      Calls-then p client (send p client Rpc.list_rule) _ (Calls-send p client _)
        (λ a w. (refl, tt, λ c. refl))

  pub remove_routing_rule-Calls :
      (tag : Str) → Calls p client (Routing.remove_routing_rule p client tag)
  unfolding Routing.remove_routing_rule
  remove_routing_rule-Calls tag = Calls-send p client _

  pub get_balancer_info-Calls :
      (tag : Str) → Calls p client (Routing.get_balancer_info p client tag)
  unfolding Routing.get_balancer_info
  get_balancer_info-Calls tag =
      Calls-then p client (send p client (Rpc.get_balancer_info tag)) _ (Calls-send p client _)
        (λ a w. (refl, tt, λ c. refl))

  pub override_balancer_target-Calls :
      (tag target : Str) → Calls p client (Routing.override_balancer_target p client tag target)
  unfolding Routing.override_balancer_target
  override_balancer_target-Calls tag target = Calls-send p client _

  pub restart_logger-Calls : Calls p client (Routing.restart_logger p client)
  unfolding Routing.restart_logger
  restart_logger-Calls = Calls-send p client _
