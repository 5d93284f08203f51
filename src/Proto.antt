-- ===== src/Proto.antt =====
-- The protobuf messages under proto/ that the program writes or reads, with the fields that it sets
-- or reads. A field that it leaves at its default is not listed.
use xray_bridge.Prelude.{ℕ, Option, List}
use xray_bridge.Text.{Str}
use xray_bridge.Json.{ℤ}

-- proto/common/serial, and the bytes of an encoded message
abbrev pub Bytes : Type 0
Bytes = List ℕ

pub record TypedMessage : Type 0 where
  pub type_name : Str
  pub value : Bytes

-- proto/common/protocol
pub data SecurityType : Type 0 where
  unknown auto aes128_gcm chacha20_poly1305 none_security zero_security : SecurityType

abbrev pub security_int : SecurityType → ℕ
security_int SecurityType.unknown = 0
security_int SecurityType.auto = 2
security_int SecurityType.aes128_gcm = 3
security_int SecurityType.chacha20_poly1305 = 4
security_int SecurityType.none_security = 5
security_int SecurityType.zero_security = 6

pub record User : Type 0 where
  pub level : ℕ
  pub email : Str
  pub account : Option TypedMessage

-- proto/proxy
pub record VlessAccount : Type 0 where
  pub id : Str
  pub flow : Str
  pub encryption : Str

pub record SecurityConfig : Type 0 where
  pub security_type : ℕ

pub record VmessAccount : Type 0 where
  pub id : Str
  pub security_settings : Option SecurityConfig

pub record TrojanAccount : Type 0 where
  pub password : Str

pub data CipherType : Type 0 where
  unknown aes_128_gcm aes_256_gcm chacha20_poly1305 xchacha20_poly1305 none_cipher : CipherType

abbrev pub cipher_int : CipherType → ℕ
cipher_int CipherType.unknown = 0
cipher_int CipherType.aes_128_gcm = 5
cipher_int CipherType.aes_256_gcm = 6
cipher_int CipherType.chacha20_poly1305 = 7
cipher_int CipherType.xchacha20_poly1305 = 8
cipher_int CipherType.none_cipher = 9

pub record ShadowsocksAccount : Type 0 where
  pub password : Str
  pub cipher_type : ℕ

-- proto/app/proxyman/command and proto/core
pub record AddUserOperation : Type 0 where
  pub user : Option User

pub record RemoveUserOperation : Type 0 where
  pub email : Str

pub record AlterInboundRequest : Type 0 where
  pub tag : Str
  pub operation : Option TypedMessage

pub record InboundHandlerConfig : Type 0 where
  pub tag : Str
  pub receiver_settings : Option TypedMessage
  pub proxy_settings : Option TypedMessage

pub record OutboundHandlerConfig : Type 0 where
  pub tag : Str
  pub sender_settings : Option TypedMessage
  pub proxy_settings : Option TypedMessage

-- proto/app/stats/command
pub record Stat : Type 0 where
  pub name : Str
  pub value : ℤ

pub record SysStatsResponse : Type 0 where
  pub num_goroutine : ℕ
  pub num_gc : ℕ
  pub alloc : ℕ
  pub total_alloc : ℕ
  pub sys : ℕ
  pub mallocs : ℕ
  pub frees : ℕ
  pub live_objects : ℕ
  pub pause_total_ns : ℕ
  pub uptime : ℕ

pub record TrafficUserStat : Type 0 where
  pub uplink : ℤ
  pub downlink : ℤ

pub record UserStat : Type 0 where
  pub email : Str
  pub traffic : Option TrafficUserStat

-- proto/app/router/command
pub record RoutingContext : Type 0 where
  pub inbound_tag : Str
  pub network : ℕ
  pub target_port : ℕ
  pub target_domain : Str
  pub protocol : Str
  pub user : Str
  pub outbound_group_tags : List Str
  pub outbound_tag : Str

pub record ListRuleItem : Type 0 where
  pub tag : Str
  pub rule_tag : Str

pub record BalancerMsg : Type 0 where
  pub override_target : Option Str
  pub principle_target : Option (List Str)
