-- ===== src/Routes/Stats.antt =====
-- src/routes/stats.rs: the counters.
use xray_bridge.Prelude.{Bool, Option, none, some, [], ◌∷◌, map}
use xray_bridge.Text.{Str}
use xray_bridge.Json.{Json, null, int, pos, str, object!, array! }
use xray_bridge.Config.{Settings}
use xray_bridge.Error.{Response, status_ok}
use xray_bridge.Extern.Http.{Headers}
use xray_bridge.App.{Client, Platform, App, pure, ◌>>=◌, ◌>>◌}
use xray_bridge.Routes.Extract.{Extracted, auth, extract, answer}
use xray_bridge.Xray.Stats.{
  StatRecord, SysStats, UserTraffic, parse_stat_name, query_stats, get_stat, get_sys_stats,
  get_all_online_users, get_users_stats, list_users,
}

pub record ResetQuery : Type 0 where
  pub reset : Bool

pub record StatsQuery : Type 0 where
  pub pattern : Str
  pub reset : Bool

-- What `derive(Serialize)` writes.
unfoldable pub option_json : Option Str → Json
option_json none = null
option_json (some s) = str s

unfoldable pub stat_record_json : StatRecord → Json
unfolding option_json
stat_record_json r = object! (
    ("name", str r.name)
    ∷ ("parts", array! (map str r.parts))
    ∷ ("scope", option_json r.scope)
    ∷ ("id", option_json r.id)
    ∷ ("category", option_json r.category)
    ∷ ("metric", option_json r.metric)
    ∷ ("value", int r.value)
    ∷ [])

unfoldable pub sys_stats_json : SysStats → Json
sys_stats_json s = object! (
    ("NumGoroutine", int (pos s.num_goroutine))
    ∷ ("NumGC", int (pos s.num_gc))
    ∷ ("Alloc", int (pos s.alloc))
    ∷ ("TotalAlloc", int (pos s.total_alloc))
    ∷ ("Sys", int (pos s.sys))
    ∷ ("Mallocs", int (pos s.mallocs))
    ∷ ("Frees", int (pos s.frees))
    ∷ ("LiveObjects", int (pos s.live_objects))
    ∷ ("PauseTotalNs", int (pos s.pause_total_ns))
    ∷ ("Uptime", int (pos s.uptime))
    ∷ [])

unfoldable pub user_traffic_json : UserTraffic → Json
user_traffic_json u =
    object! (("email", str u.email) ∷ ("uplink", int u.uplink) ∷ ("downlink", int u.downlink) ∷ [])

-- `context` is the step that gives `NodeContext`.
module _ (p : Platform) (settings : Settings) (headers : Headers) (context : App p (Client p)) where
  unfoldable pub get_sys_stats_handler : App p Response
  get_sys_stats_handler = do
    client ← context
    auth p settings headers
    stats ← get_sys_stats p client
    pure p (answer status_ok (sys_stats_json stats))

  unfoldable pub list_users_handler : App p Response
  list_users_handler = do
    client ← context
    auth p settings headers
    users ← list_users p client
    pure p (answer status_ok (array! (map str users)))

  unfoldable pub get_online_users_handler : App p Response
  get_online_users_handler = do
    client ← context
    auth p settings headers
    users ← get_all_online_users p client
    pure p (answer status_ok (array! (map str users)))

  unfoldable pub get_users_stats_handler : Extracted ResetQuery → App p Response
  get_users_stats_handler given = do
    client ← context
    q ← extract p given
    auth p settings headers
    stats ← get_users_stats p client q.reset
    pure p (answer status_ok (array! (map user_traffic_json stats)))

  unfoldable pub query_stats_handler : Extracted StatsQuery → App p Response
  query_stats_handler given = do
    client ← context
    q ← extract p given
    auth p settings headers
    records ← query_stats p client q.pattern q.reset
    pure p (answer status_ok (array! (map stat_record_json records)))

  unfoldable pub get_stat_handler : Extracted Str → Extracted ResetQuery → App p Response
  get_stat_handler path given = do
    client ← context
    name ← extract p path
    q ← extract p given
    auth p settings headers
    value ← get_stat p client name q.reset
    pure p (answer status_ok (stat_record_json (record (parse_stat_name name) { value = value })))
