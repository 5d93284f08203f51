-- ===== src/Routes/Body.antt =====
-- The bodies and queries of src/routes/handler.rs, src/routes/stats.rs and src/routes/routing.rs as
-- serde reads them: what stands in for a field that the caller leaves out. A field that has no
-- default is required: without it axum rejects a body with 422 and a query with 400.
pub mod Added
pub mod Removed
use xray_bridge.Prelude.{ℕ, Bool, true, false, Option, none, some, ok, err, [], unwrap_or}
use xray_bridge.Text.{Str, utf8}
use xray_bridge.Json.{Json}
use xray_bridge.Routes.Extract.{Extracted}
use xray_bridge.Routes.Handler.{AddUserBody, InboundConfigBody, RemoveUserQuery}
use xray_bridge.Routes.Stats.{ResetQuery, StatsQuery}
use xray_bridge.Routes.Routing.{TestRouteBody, OverrideBalancerBody}

-- A rejection before what follows, and what follows a required field.
unfoldable pub and_then_extract : {A B : Type 0} → Extracted A → (A → Extracted B) → Extracted B
and_then_extract (ok a) f = f a
and_then_extract (err status) f = err status

unfoldable pub required : {A B : Type 0} → ℕ → Option A → (A → Extracted B) → Extracted B
required status none f = err status
required status (some a) f = f a

abbrev body_lacks_field : ℕ
body_lacks_field = 422

abbrev query_lacks_field : ℕ
query_lacks_field = 400

abbrev pub default_proto : Str
default_proto = utf8 "vless"

abbrev pub default_vmess_security : Str
default_vmess_security = utf8 "AUTO"

abbrev pub default_ss_cipher : Str
default_ss_cipher = utf8 "CHACHA20_POLY1305"

abbrev pub default_ignore_missing : Bool
default_ignore_missing = true

abbrev pub default_network : Str
default_network = utf8 "TCP"

pub record AddUserFields : Type 0 where
  pub tag : Option Str
  pub email : Option Str
  pub proto : Option Str
  pub level : Option ℕ
  pub uuid : Option Str
  pub flow : Option Str
  pub vmess_security : Option Str
  pub password : Option Str
  pub ss_cipher : Option Str

unfoldable pub add_user_body : AddUserFields → Extracted AddUserBody
add_user_body given = required body_lacks_field given.tag (λ tag.
    required body_lacks_field given.email (λ email. ok (record {
      tag = tag;
      email = email;
      proto = unwrap_or given.proto default_proto;
      level = unwrap_or given.level 0;
      uuid = unwrap_or given.uuid [];
      flow = unwrap_or given.flow [];
      vmess_security = unwrap_or given.vmess_security default_vmess_security;
      password = unwrap_or given.password [];
      ss_cipher = unwrap_or given.ss_cipher default_ss_cipher;
    })))

unfoldable pub inbound_config_body : Option Json → Extracted InboundConfigBody
inbound_config_body config =
    required body_lacks_field config (λ config. ok (record { config = config }))

pub record RemoveUserFields : Type 0 where
  pub tag : Option Str
  pub ignore_missing : Option Bool

unfoldable pub remove_user_query : RemoveUserFields → Extracted RemoveUserQuery
remove_user_query given = required query_lacks_field given.tag (λ tag.
    ok (record {
      tag = tag;
      ignore_missing = unwrap_or given.ignore_missing default_ignore_missing;
    }))

unfoldable pub reset_query : Option Bool → Extracted ResetQuery
reset_query reset = ok (record { reset = unwrap_or reset false })

pub record StatsFields : Type 0 where
  pub pattern : Option Str
  pub reset : Option Bool

unfoldable pub stats_query : StatsFields → Extracted StatsQuery
stats_query given =
    ok (record { pattern = unwrap_or given.pattern []; reset = unwrap_or given.reset false })

pub record TestRouteFields : Type 0 where
  pub target_domain : Option Str
  pub network : Option Str
  pub inbound_tag : Option Str
  pub user : Option Str

unfoldable pub test_route_body : TestRouteFields → Extracted TestRouteBody
test_route_body given = ok (record {
  target_domain = unwrap_or given.target_domain [];
  network = unwrap_or given.network default_network;
  inbound_tag = unwrap_or given.inbound_tag [];
  user = unwrap_or given.user [];
})

unfoldable pub override_balancer_body : Option Str → Extracted OverrideBalancerBody
override_balancer_body target =
    required body_lacks_field target (λ target. ok (record { target = target }))
