-- ===== src/Routes/Serve/Talk/Replies.antt =====
-- What each endpoint's answer says of its node's reply, in JSON.
use xray_bridge.Prelude.{
  ℕ, and_then, Bool, true, false, Option, some, ok, List, [], ◌∷◌, map, ◌≡◌, get_elem?, unwrap_or,
}
use mathlib.Core.Option
use xray_bridge.Text.{Str, utf8}
use xray_bridge.Text.Split.{split}
use xray_bridge.Json.{Json, ℤ, pos, null, bool, int, str, object!, array! }
use xray_bridge.Proto.{
  InboundHandlerConfig, OutboundHandlerConfig, Stat, SysStatsResponse, UserStat, RoutingContext,
  ListRuleItem, BalancerMsg,
}
use xray_bridge.Grpc.{Rpc, Reply}
use xray_bridge.Xray.Stats.Users.{IsUsers}
use xray_bridge.Routes.Extract.{Extracted}
use xray_bridge.Routes.Handler
use xray_bridge.Routes.Stats
use xray_bridge.Routes.Routing
use xray_bridge.Routes.Serve.{
  Endpoint, get_sys, get_users, get_users_online, get_users_stats, get_stats, get_stat, post_users,
  delete_user, get_inbounds, post_inbounds, delete_inbound, get_outbounds, post_outbounds,
  delete_outbound, post_logger_restart, post_routing_test, get_routing_rules, delete_routing_rule,
  get_balancer, put_balancer,
}

abbrev part : Str → ℕ → Json
part name i = unwrap_or (Option.map str (get_elem? (split (utf8 ">>>") name) i)) null

-- A counter, with the parts of its name and what the first four of them are called.
abbrev pub counter : Str → ℤ → Json
counter name value = object! (
    ("name", str name)
    ∷ ("parts", array! (map str (split (utf8 ">>>") name)))
    ∷ ("scope", part name 0)
    ∷ ("id", part name 1)
    ∷ ("category", part name 2)
    ∷ ("metric", part name 3)
    ∷ ("value", int value)
    ∷ [])

-- The traffic of a user, 0 where the node has none.
abbrev pub traffic : UserStat → Json
traffic u = object! (
    ("email", str u.email)
    ∷ ("uplink", int (unwrap_or (Option.map (λ t. t.uplink) u.traffic) (pos 0)))
    ∷ ("downlink", int (unwrap_or (Option.map (λ t. t.downlink) u.traffic) (pos 0)))
    ∷ [])

abbrev pub tagged : Str → Json
tagged tag = object! (("tag", str tag) ∷ [])

-- What has been done at the node, which keeps it until it is started again.
abbrev pub confirmed : Str → Json → Json
confirmed action detail = object! (
    ("ok", bool true)
    ∷ ("action", str action)
    ∷ ("persisted", bool false)
    ∷ ("detail", detail)
    ∷ [])

-- The answer's body, by the endpoint, the RPC and its reply.
pub data Renders : Endpoint → (rpc : Rpc) → Reply rpc → Json → Type 0 where
  system_read :
      (s : SysStatsResponse)
      → Renders get_sys Rpc.get_sys_stats s (
          object! (
            ("NumGoroutine", int (pos s.num_goroutine))
            ∷ ("NumGC", int (pos s.num_gc))
            ∷ ("Alloc", int (pos s.alloc))
            ∷ ("TotalAlloc", int (pos s.total_alloc))
            ∷ ("Sys", int (pos s.sys))
            ∷ ("Mallocs", int (pos s.mallocs))
            ∷ ("Frees", int (pos s.frees))
            ∷ ("LiveObjects", int (pos s.live_objects))
            ∷ ("PauseTotalNs", int (pos s.pause_total_ns))
            ∷ ("Uptime", int (pos s.uptime))
            ∷ []))
  users_read :
      {pattern : Str} {reset : Bool} {stats : List Stat} (users : List Str)
      → IsUsers stats users
      → Renders get_users (Rpc.query_stats pattern reset) stats (array! (map str users))
  online_read :
      (users : List Str)
      → Renders get_users_online Rpc.get_all_online_users users (array! (map str users))
  traffic_read :
      {given : Extracted Stats.ResetQuery} {include_traffic reset : Bool} (users : List UserStat)
      → Renders
          (get_users_stats given)
          (Rpc.get_users_stats include_traffic reset)
          users
          (array! (map traffic users))
  counters_read :
      {given : Extracted Stats.StatsQuery} {pattern : Str} {reset : Bool} (stats : List Stat)
      → Renders
          (get_stats given)
          (Rpc.query_stats pattern reset)
          stats
          (array! (map (λ s. counter s.name s.value) stats))
  counter_read :
      {path : Extracted Str} {given : Extracted Stats.ResetQuery} {name : Str} {reset : Bool}
      (stat : Option Stat)
      → Renders
          (get_stat path given)
          (Rpc.get_stats name reset)
          stat
          (counter name (unwrap_or (Option.map (λ s. s.value) stat) (pos 0)))
  user_added :
      {given : Extracted Handler.AddUserBody} (b : Handler.AddUserBody) {rpc : Rpc}
      {reply : Reply rpc}
      → given ≡ ok b
      → Renders (post_users given) rpc reply (
          confirmed
            (utf8 "add-user")
            (object! (("tag", str b.tag) ∷ ("email", str b.email) ∷ ("proto", str b.proto) ∷ [])))
  user_removed :
      {path : Extracted Str} {given : Extracted Handler.RemoveUserQuery} (email : Str)
      (q : Handler.RemoveUserQuery) {rpc : Rpc} {reply : Reply rpc}
      → path ≡ ok email
      → given ≡ ok q
      → Renders (delete_user path given) rpc reply (
          confirmed (utf8 "remove-user") (object! (("tag", str q.tag) ∷ ("email", str email) ∷ [])))
  inbounds_read :
      {only_tags : Bool} (inbounds : List InboundHandlerConfig)
      → Renders get_inbounds
          (Rpc.list_inbounds only_tags)
          inbounds
          (array! (map (λ i. tagged i.tag) inbounds))
  inbound_added :
      {given : Extracted Handler.InboundConfigBody} {config : InboundHandlerConfig}
      {reply : Unit {0}}
      → Renders
          (post_inbounds given)
          (Rpc.add_inbound (some config))
          reply
          (confirmed (utf8 "add-inbound") (tagged config.tag))
  inbound_removed :
      {path : Extracted Str} {tag : Str} {reply : Unit {0}}
      → Renders
          (delete_inbound path)
          (Rpc.remove_inbound tag)
          reply
          (confirmed (utf8 "remove-inbound") (tagged tag))
  outbounds_read :
      (outbounds : List OutboundHandlerConfig)
      → Renders get_outbounds Rpc.list_outbounds outbounds
          (array! (map (λ o. tagged o.tag) outbounds))
  outbound_added :
      {given : Extracted Handler.InboundConfigBody} {config : OutboundHandlerConfig}
      {reply : Unit {0}}
      → Renders
          (post_outbounds given)
          (Rpc.add_outbound (some config))
          reply
          (confirmed (utf8 "add-outbound") (tagged config.tag))
  outbound_removed :
      {path : Extracted Str} {tag : Str} {reply : Unit {0}}
      → Renders
          (delete_outbound path)
          (Rpc.remove_outbound tag)
          reply
          (confirmed (utf8 "remove-outbound") (tagged tag))
  logger_restarted :
      {reply : Unit {0}}
      → Renders post_logger_restart Rpc.restart_logger reply
          (confirmed (utf8 "restart-logger") (object! []))
  route_tested :
      {given : Extracted Routing.TestRouteBody} {asked : Option RoutingContext} {publish : Bool}
      (r : RoutingContext)
      → Renders (post_routing_test given) (Rpc.test_route asked publish) r (
          object! (
            ("OutboundTag", str r.outbound_tag)
            ∷ ("InboundTag", str r.inbound_tag)
            ∷ ("Network", int (pos r.network))
            ∷ ("TargetDomain", str r.target_domain)
            ∷ ("TargetPort", int (pos r.target_port))
            ∷ ("Protocol", str r.protocol)
            ∷ ("User", str r.user)
            ∷ ("OutboundGroupTags", array! (map str r.outbound_group_tags))
            ∷ []))
  rules_read :
      (rules : List ListRuleItem)
      → Renders get_routing_rules Rpc.list_rule rules (
          array! (map (λ r. object! (("tag", str r.tag) ∷ ("ruleTag", str r.rule_tag) ∷ [])) rules))
  rule_removed :
      {path : Extracted Str} {tag : Str} {reply : Unit {0}}
      → Renders
          (delete_routing_rule path)
          (Rpc.remove_rule tag)
          reply
          (confirmed (utf8 "remove-routing-rule") (tagged tag))
  balancer_read :
      {path : Extracted Str} {tag : Str} (balancer : Option BalancerMsg)
      → Renders (get_balancer path) (Rpc.get_balancer_info tag) balancer (
          object! (
            ("override_target", str (unwrap_or (and_then balancer (λ b. b.override_target)) []))
            ∷ (
              "principle_targets",
              array! (map str (unwrap_or (and_then balancer (λ b. b.principle_target)) [])),
            )
            ∷ []))
  balancer_overridden :
      {path : Extracted Str} {given : Extracted Routing.OverrideBalancerBody} {tag target : Str}
      {reply : Unit {0}}
      → Renders (put_balancer path given) (Rpc.override_balancer_target tag target) reply (
          confirmed
            (utf8 "override-balancer-target")
            (object! (("balancer_tag", str tag) ∷ ("target", str target) ∷ [])))
