-- ===== src/Tests/Xray.antt =====
-- The calls of src/xray/ on a sample node.
use xray_bridge.Prelude.{
  Result, In, ◌≡◌, ◌↔◌, ◌⊎◌, true, false, refl, some, none, List, [], ◌∷◌, map, get_elem?, ok, err,
  All, arith,
}
use xray_bridge.Text.{Str, utf8, contains}
use xray_bridge.Text.Split.{split}
use xray_bridge.Text.Split.Laws.{join, IsPlain}
use xray_bridge.Json.{pos}
use xray_bridge.Error.{AppError, Status, Code}
use xray_bridge.Outcome.{done, fail}
use xray_bridge.Proto.{Stat, TypedMessage}
use xray_bridge.App.{outgoing, Client, Platform, World}
use xray_bridge.Xray.Account.{build_account_typed_message}
use xray_bridge.Xray.Account.Kinds.{Describes, IsUnsupported, build_account_typed_message-cases}
use xray_bridge.Xray.Handler.{add_user}
use xray_bridge.Grpc.{Rpc, Sent, Reply}
use xray_bridge.Xray.Handler.Added.{account, Adds, add_user-cases}
use xray_bridge.Xray.Stats.{separator, parse_stat_name, list_users}
use xray_bridge.Xray.Stats.Names.{parse_stat_name-parts, parse_stat_name-join}
use xray_bridge.Xray.Stats.Users.{IsSorted, list_users-In}
use xray_bridge.Xray.Stats.Order.{second_parts, list_users_unique}
use xray_bridge.Routes.Handler.{RemoveUserQuery}
use xray_bridge.Tests.Wire.{prost}
use xray_bridge.Tests.Sample.{unicode, sample, fresh_world, reply_to}

abbrev client : Client sample
client = record { channel = utf8 "https://a.example:443"; token = utf8 "t1"; name = none }

build_account_typed_message-cases_example :
    ((typed : TypedMessage) × (build_account_typed_message unicode prost
          (utf8 "shadowsocks")
          []
          []
          []
          (utf8 "pw")
          (utf8 "aes_256_gcm")
        ≡ ok typed)
      × Describes unicode prost
          (utf8 "shadowsocks")
          []
          []
          []
          (utf8 "pw")
          (utf8 "aes_256_gcm")
          typed)
    ⊎ ((msg : Str) × (build_account_typed_message unicode prost
            (utf8 "shadowsocks")
            []
            []
            []
            (utf8 "pw")
            (utf8 "aes_256_gcm")
          ≡ err (AppError.unprocessable_entity msg))
        × IsUnsupported unicode prost
            (utf8 "shadowsocks")
            []
            []
            []
            (utf8 "pw")
            (utf8 "aes_256_gcm"))
build_account_typed_message-cases_example =
    build_account_typed_message-cases unicode prost (utf8 "shadowsocks") [] [] [] (utf8 "pw")
      (utf8 "aes_256_gcm")

add_user-cases_example :
    ((e : AppError) × (account sample client fresh_world
          (utf8 "in")
          (utf8 "amy@x")
          (utf8 "VLESS")
          0
          (utf8 "id")
          []
          []
          []
          []
        ≡ err e)
      × (add_user sample client
            (utf8 "in")
            (utf8 "amy@x")
            (utf8 "VLESS")
            0
            (utf8 "id")
            []
            []
            []
            []
            fresh_world
          ≡ (fail e, fresh_world)))
    ⊎ ((typed : TypedMessage) × (account sample client fresh_world
            (utf8 "in")
            (utf8 "amy@x")
            (utf8 "VLESS")
            0
            (utf8 "id")
            []
            []
            []
            []
          ≡ ok typed)
        × Adds sample client fresh_world
            (utf8 "in")
            (utf8 "amy@x")
            (utf8 "VLESS")
            0
            (utf8 "id")
            []
            []
            []
            []
            typed)
add_user-cases_example =
    add_user-cases sample client fresh_world (utf8 "in") (utf8 "amy@x") (utf8 "VLESS") 0 (utf8 "id")
      [] [] [] []

abbrev query : RemoveUserQuery
query = record { tag = utf8 "in"; ignore_missing = true }

abbrev missing : AppError
missing = AppError.grpc Code.unknown (utf8 "user Not Found")

abbrev counter : Str
counter = utf8 "inbound>>>api>>>traffic>>>uplink"

abbrev counters : List Stat
counters =
    record { name = utf8 "user>>>bob@x>>>traffic>>>uplink"; value = pos 7 }
    ∷ record { name = utf8 "user>>>amy@x>>>traffic>>>uplink"; value = pos 9 }
    ∷ record { name = utf8 "user>>>bob@x>>>traffic>>>downlink"; value = pos 8 }
    ∷ []

list_users-In_example :
    (emails : List Str) × ((list_users sample client fresh_world).0 ≡ done emails)
    × IsSorted emails
    × ((x : Str)
        → In x emails ↔ In (some x) (map (λ s. get_elem? (split separator s.name) 1) counters))
list_users-In_example = list_users-In sample client fresh_world {stats = counters} refl

parse_stat_name-parts_example :
    (join separator (parse_stat_name counter).parts ≡ counter)
    × All (λ part. contains separator part ≡ false) (parse_stat_name counter).parts
parse_stat_name-parts_example = parse_stat_name-parts counter

user-IsPlain : IsPlain b'>' (utf8 "user")
unfolding utf8
user-IsPlain = ground arith

amy-IsPlain : All (IsPlain b'>') (utf8 "amy@x" ∷ utf8 "traffic" ∷ [])
unfolding utf8
amy-IsPlain = ground arith

parse_stat_name-join_example :
    parse_stat_name (join separator (utf8 "user" ∷ utf8 "amy@x" ∷ utf8 "traffic" ∷ [])) ≡ record {
      name = join separator (utf8 "user" ∷ utf8 "amy@x" ∷ utf8 "traffic" ∷ []);
      parts = utf8 "user" ∷ utf8 "amy@x" ∷ utf8 "traffic" ∷ [];
      scope = some (utf8 "user");
      id = some (utf8 "amy@x");
      category = some (utf8 "traffic");
      metric = none;
      value = pos 0;
    }
parse_stat_name-join_example =
    parse_stat_name-join (utf8 "user") (utf8 "amy@x" ∷ utf8 "traffic" ∷ []) user-IsPlain amy-IsPlain

-- A node that has forgotten one counter by its second answer, and lists the others the other way.
abbrev later_counters : List Stat
later_counters =
    record { name = utf8 "user>>>amy@x>>>traffic>>>downlink"; value = pos 1 }
    ∷ record { name = utf8 "user>>>bob@x>>>traffic>>>uplink"; value = pos 2 }
    ∷ []

abbrev later_reply : List (Sent Str) → (rpc : Rpc) → Result (Reply rpc) Status
later_reply (_ ∷ _) (Rpc.query_stats pattern reset) = ok later_counters
later_reply _ rpc = reply_to rpc

abbrev forgetful : Platform
forgetful = record sample { nodes = λ sent call. later_reply sent call.rpc }

abbrev first_world : World forgetful
first_world = record { pool = fresh_world.pool; sent = [] }

abbrev second_world : World forgetful
second_world = record {
  pool = fresh_world.pool;
  sent = outgoing sample client (Rpc.query_stats (utf8 "user>>>") false) ∷ [];
}

same_users :
    (x : Str) → In (some x) (second_parts counters) ↔ In (some x) (second_parts later_counters)
unfolding utf8 split xray_bridge.Text.starts_with
same_users x = ground arith

list_users_unique_example :
    (list_users forgetful client first_world).0 ≡ (list_users forgetful client second_world).0
list_users_unique_example =
    list_users_unique forgetful client client first_world second_world {stats = counters}
      {stats' = later_counters} refl refl same_users
