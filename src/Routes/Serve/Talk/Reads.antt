-- ===== src/Routes/Serve/Talk/Reads.antt =====
-- The endpoints that read from the node keep to their specification.
use xray_bridge.Prelude.{
  true, ◌≡◌, refl, subst, map, none, some, Option, unwrap_or, Option-cases, inl, inr, List, [], ◌∷◌,
  get_elem?, ℕ,
}
use xray_bridge.Config.{Settings}
use xray_bridge.Extern.Http.{Headers}
use xray_bridge.Grpc.{Rpc}
use xray_bridge.App.{Platform, Client, pure}
use xray_bridge.Xray.Handler as XHandler
use xray_bridge.Xray.Stats as XStats
use xray_bridge.Xray.Routing as XRouting
use xray_bridge.Routes.Extract.{Extracted}
use xray_bridge.Routes.Handler
use xray_bridge.Routes.Stats
use xray_bridge.Routes.Routing
use xray_bridge.Routes.Serve.{
  Str, handle, get_sys, get_users, get_users_online, get_users_stats, get_stats, get_inbounds,
  get_outbounds, get_routing_rules, get_balancer,
}
use xray_bridge.Routes.Serve.Talk.{Talks-send, Talks-then}
use xray_bridge.Routes.Serve.Talk.Spec.{Asks}
use xray_bridge.Routes.Serve.Talk.Replies.{Renders, counter, traffic}
use xray_bridge.Json.{str, null, array!, object!, ℤ}
use xray_bridge.Proto.{UserStat, Stat, BalancerMsg}
use mathlib.Core.Option
use xray_bridge.Text.Split.{split}
use xray_bridge.Xray.Stats.Users.{collect_ids-IsUsers}
use xray_bridge.Routes.Serve.Talk.Rules.{
  IsReady, KeepsTo, answers, checked, extracted, sends, sends_then,
}

-- The code makes a record of each first, and writes that.
traffic_json :
    (users : List UserStat)
    → map traffic users ≡ map Stats.user_traffic_json (map XStats.user_traffic users)
unfolding Stats.user_traffic_json XStats.user_traffic
traffic_json [] = refl
traffic_json (u ∷ users) = elim (Option-cases u.traffic) [
  | inl missing ↦ rw (missing, traffic_json users) refl
  | inr (t, found) ↦ rw (found, traffic_json users) refl
]

option_json-part :
    (given : Option Str) → unwrap_or (Option.map str given) null ≡ Stats.option_json given
unfolding Stats.option_json
option_json-part none = refl
option_json-part (some s) = refl

pub counter_json :
    (name : Str) (value : ℤ)
    → counter name value
      ≡ Stats.stat_record_json (record (XStats.parse_stat_name name) { value = value })
unfolding Stats.stat_record_json XStats.parse_stat_name Stats.option_json
counter_json name value =
    let part = λ (i : ℕ). option_json-part (get_elem? (split XStats.separator name) i) in
    rw (part 0, part 1, part 2, part 3) refl

counters_json :
    (stats : List Stat)
    → map (λ (s : Stat). counter s.name s.value) stats
      ≡ map Stats.stat_record_json (map XStats.stat_record stats)
unfolding XStats.stat_record
counters_json [] = refl
counters_json (s ∷ stats) = rw (counter_json s.name s.value, counters_json stats) refl

balancer_json :
    (path : Extracted Str) (tag : Str) (balancer : Option BalancerMsg)
    → Renders (get_balancer path) (Rpc.get_balancer_info tag) balancer (
        object! (
          (
            "override_target",
            str (
                unwrap_or
                  (unwrap_or balancer
                    (record { override_target = none; principle_target = none })).override_target
                  []),
          )
          ∷ (
            "principle_targets",
            array! (
                map str (
                  unwrap_or
                    (unwrap_or balancer
                      (record { override_target = none; principle_target = none })).principle_target
                    [])),
          )
          ∷ []))
balancer_json path tag none = Renders.balancer_read none
balancer_json path tag (some b) = Renders.balancer_read (some b)

module _ (p : Platform) (settings : Settings) (headers : Headers) (client : Client p) where
  pub get_sys-KeepsTo :
      KeepsTo p settings headers client get_sys (handle p settings headers (pure p client) get_sys)
  unfolding handle Stats.get_sys_stats_handler XStats.get_sys_stats Stats.sys_stats_json
  get_sys-KeepsTo = checked p settings headers client get_sys _ (
      sends_then p settings headers client get_sys _ _ _ (λ x. x) refl
        (λ s. (refl, Renders.system_read s)))

  pub get_users-KeepsTo :
      KeepsTo p settings headers client get_users
        (handle p settings headers (pure p client) get_users)
  unfolding handle Stats.list_users_handler XStats.list_users XStats.query_stats
  get_users-KeepsTo = checked p settings headers client get_users _ (
      answers p settings headers client get_users _ _ (
        Talks-then p client ⊥ (IsReady p settings headers client get_users) (Asks p get_users) _ _ _
          _
          (Talks-then p client ⊥ (IsReady p settings headers client get_users) (Asks p get_users) _
            _ _ _
            (Talks-send p client ⊥ (IsReady p settings headers client get_users) (Asks p get_users)
              _ _ _ (λ x. x) refl
              (λ stats. (refl, Renders.users_read _ (collect_ids-IsUsers stats)))))))

  pub get_users_online-KeepsTo :
      KeepsTo p settings headers client get_users_online
        (handle p settings headers (pure p client) get_users_online)
  unfolding handle Stats.get_online_users_handler XStats.get_all_online_users
  get_users_online-KeepsTo = checked p settings headers client get_users_online _ (
      sends p settings headers client get_users_online _ _ (λ x. x) refl
        (λ users. (refl, Renders.online_read users)))

  pub get_users_stats-KeepsTo :
      (given : Extracted Stats.ResetQuery)
      → KeepsTo p settings headers client
          (get_users_stats given)
          (handle p settings headers (pure p client) (get_users_stats given))
  unfolding handle Stats.get_users_stats_handler XStats.get_users_stats
  get_users_stats-KeepsTo given =
      let e = get_users_stats given in
      extracted p settings headers client e given _ (λ (g, rpc, (x, same, _)). (x, same))
        (λ q same. checked p settings headers client e _ (
          sends_then p settings headers client e _ _ _ (λ x. x) (q, same, refl)
            (λ users. (
              refl,
              subst (λ x. Renders e (Rpc.get_users_stats true q.reset) users (array! x))
                  (traffic_json users) (Renders.traffic_read users),
            ))))

  pub get_stats-KeepsTo :
      (given : Extracted Stats.StatsQuery)
      → KeepsTo p settings headers client
          (get_stats given)
          (handle p settings headers (pure p client) (get_stats given))
  unfolding handle Stats.query_stats_handler XStats.query_stats
  get_stats-KeepsTo given =
      let e = get_stats given in
      extracted p settings headers client e given _ (λ (g, rpc, (x, same, _)). (x, same))
        (λ q same. checked p settings headers client e _ (
          sends_then p settings headers client e _ _ _ (λ x. x) (q, same, refl)
            (λ stats. (
              refl,
              subst (λ x. Renders e (Rpc.query_stats q.pattern q.reset) stats (array! x))
                  (counters_json stats) (Renders.counters_read stats),
            ))))

  pub get_inbounds-KeepsTo :
      KeepsTo p settings headers client get_inbounds
        (handle p settings headers (pure p client) get_inbounds)
  unfolding handle Handler.list_inbounds_handler XHandler.list_inbounds
  get_inbounds-KeepsTo = checked p settings headers client get_inbounds _ (
      sends_then p settings headers client get_inbounds _ _ _ (λ x. x) refl
        (λ inbounds. (refl, Renders.inbounds_read inbounds)))

  pub get_outbounds-KeepsTo :
      KeepsTo p settings headers client get_outbounds
        (handle p settings headers (pure p client) get_outbounds)
  unfolding handle Handler.list_outbounds_handler XHandler.list_outbounds
  get_outbounds-KeepsTo = checked p settings headers client get_outbounds _ (
      sends_then p settings headers client get_outbounds _ _ _ (λ x. x) refl
        (λ outbounds. (refl, Renders.outbounds_read outbounds)))

  pub get_routing_rules-KeepsTo :
      KeepsTo p settings headers client get_routing_rules
        (handle p settings headers (pure p client) get_routing_rules)
  unfolding handle Routing.list_rules_handler XRouting.list_routing_rules
  get_routing_rules-KeepsTo = checked p settings headers client get_routing_rules _ (
      sends_then p settings headers client get_routing_rules _ _ _ (λ x. x) refl
        (λ rules. (refl, Renders.rules_read rules)))

  pub get_balancer-KeepsTo :
      (path : Extracted Str)
      → KeepsTo p settings headers client
          (get_balancer path)
          (handle p settings headers (pure p client) (get_balancer path))
  unfolding handle Routing.get_balancer_handler XRouting.get_balancer_info
  get_balancer-KeepsTo path =
      let e = get_balancer path in
      extracted p settings headers client e path _ (λ (g, rpc, (x, same, _)). (x, same))
        (λ tag same. checked p settings headers client e _ (
          sends_then p settings headers client e _ _ _ (λ x. x) (tag, same, refl)
            (λ balancer. (refl, balancer_json path tag balancer))))
