-- ===== src/Xray/Stats.antt =====
-- src/xray/stats.rs: the calls of a node's StatsService, and the names of counters.
pub mod Names
pub mod Users
pub mod Order
pub mod Missing
use xray_bridge.Prelude.{
  ℕ, Bool, true, false, ◌&&◌, ◌||◌, Option, none, some, ok, err, List, [], ◌∷◌, map, get_elem?, ltb,
  ◌==◌, if◌then◌else◌, unwrap_or,
}
use mathlib.Core.Option
use xray_bridge.Text.{Str, utf8, str_eq, contains}
use xray_bridge.Text.Split.{split}
use xray_bridge.Json.{ℤ, pos}
use xray_bridge.Error.{Code, code_eq, Status, AppError, from_status}
use xray_bridge.Extern.Unicode.{Unicode}
use xray_bridge.Outcome.{done, fail}
use xray_bridge.Proto.{Stat, SysStatsResponse, TrafficUserStat, UserStat}
use xray_bridge.Grpc.{Rpc}
use xray_bridge.App.{Platform, Client, App, pure, call, send, ◌>>=◌}

pub record StatRecord : Type 0 where
  pub name : Str
  pub parts : List Str
  pub scope : Option Str
  pub id : Option Str
  pub category : Option Str
  pub metric : Option Str
  pub value : ℤ

abbrev pub separator : Str
separator = utf8 ">>>"

unfoldable pub parse_stat_name : Str → StatRecord
parse_stat_name name =
    let parts = split separator name in
    record {
      name = name;
      parts = parts;
      scope = get_elem? parts 0;
      id = get_elem? parts 1;
      category = get_elem? parts 2;
      metric = get_elem? parts 3;
      value = pos 0;
    }

unfoldable pub stat_record : Stat → StatRecord
stat_record s = record (parse_stat_name s.name) { value = s.value }

pub record SysStats : Type 0 where
  pub num_goroutine : ℕ
  pub num_gc : ℕ
  pub alloc : ℕ
  pub total_alloc : ℕ
  pub sys : ℕ
  pub mallocs : ℕ
  pub frees : ℕ
  pub live_objects : ℕ
  pub pause_total_ns : ℕ
  pub uptime : ℕ

pub record UserTraffic : Type 0 where
  pub email : Str
  pub uplink : ℤ
  pub downlink : ℤ

unfoldable pub user_traffic : UserStat → UserTraffic
user_traffic u = elim u.traffic [
  | some t ↦ record { email = u.email; uplink = t.uplink; downlink = t.downlink }
  | none ↦ record { email = u.email; uplink = pos 0; downlink = pos 0 }
]

-- The test by which `get_stat` takes an error for a counter that does not exist yet.
unfoldable pub is_missing : Unicode → Status → Bool
is_missing u status =
    let details = u.to_lowercase status.message in
    code_eq status.code Code.not_found
    || (code_eq status.code Code.unknown && contains (utf8 "not found") details)

-- `str`'s order is that of its bytes.
unfoldable pub str_lt : Str → Str → Bool
str_lt [] [] = false
str_lt [] (b ∷ t) = true
str_lt (a ∷ s) [] = false
str_lt (a ∷ s) (b ∷ t) = ltb a b || ((a == b) && str_lt s t)

-- `BTreeSet::insert`, on the set as its elements in order.
unfoldable pub insert : Str → List Str → List Str
insert x [] = x ∷ []
insert x (y ∷ ys) =
    if str_lt x y then x ∷ y ∷ ys else if str_eq x y then y ∷ ys else y ∷ insert x ys

-- The loop of `list_users`.
unfoldable pub collect_ids : List Str → List StatRecord → List Str
collect_ids emails [] = emails
collect_ids emails (rec ∷ recs) =
    collect_ids (elim rec.id [ some email ↦ insert email emails | none ↦ emails ]) recs

module _ (p : Platform) (client : Client p) where
  unfoldable pub query_stats : Str → Bool → App p (List StatRecord)
  query_stats pattern reset = do
    stats ← send p client (Rpc.query_stats pattern reset)
    pure p (map stat_record stats)

  unfoldable pub get_stat : Str → Bool → App p ℤ
  get_stat name reset w =
      let (result, w') = call p client (Rpc.get_stats name reset) w in
      elim result [
        | ok stat ↦ (done (unwrap_or (Option.map (λ s. s.value) stat) (pos 0)), w')
        | err status ↦
            if is_missing p.unicode status
            then (done (pos 0), w')
            else (fail (from_status status), w')
      ]

  unfoldable pub get_sys_stats : App p SysStats
  get_sys_stats = do
    r ← send p client Rpc.get_sys_stats
    pure p (record {
      num_goroutine = r.num_goroutine;
      num_gc = r.num_gc;
      alloc = r.alloc;
      total_alloc = r.total_alloc;
      sys = r.sys;
      mallocs = r.mallocs;
      frees = r.frees;
      live_objects = r.live_objects;
      pause_total_ns = r.pause_total_ns;
      uptime = r.uptime;
    })

  unfoldable pub get_all_online_users : App p (List Str)
  get_all_online_users = send p client Rpc.get_all_online_users

  unfoldable pub get_users_stats : Bool → App p (List UserTraffic)
  get_users_stats reset = do
    users ← send p client (Rpc.get_users_stats true reset)
    pure p (map user_traffic users)

  unfoldable pub list_users : App p (List Str)
  unfolding query_stats
  list_users = do records ← query_stats (utf8 "user>>>") false; pure p (collect_ids [] records)
