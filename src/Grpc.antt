-- ===== src/Grpc.antt =====
-- The RPCs of a node, and the way each call of src/xray/ makes one: the request with its metadata
-- goes out on the client's channel, and a reply or a status comes back.
use xray_bridge.Prelude.{◌≡◌, Bool, Option, none, some, Result, List, All}
use xray_bridge.Text.{Str}
use xray_bridge.Error.{Status}
use xray_bridge.Extern.Http.{IsVisible}
use xray_bridge.Proto.{
  AlterInboundRequest, InboundHandlerConfig, OutboundHandlerConfig, Stat, SysStatsResponse,
  UserStat, RoutingContext, ListRuleItem, BalancerMsg,
}

-- The services' methods with their request messages.
pub data Rpc : Type 0 where
  alter_inbound : AlterInboundRequest → Rpc
  list_inbounds : (is_only_tags : Bool) → Rpc
  add_inbound : Option InboundHandlerConfig → Rpc
  remove_inbound : (tag : Str) → Rpc
  list_outbounds : Rpc
  add_outbound : Option OutboundHandlerConfig → Rpc
  remove_outbound : (tag : Str) → Rpc
  query_stats : (pattern : Str) (reset : Bool) → Rpc
  get_stats : (name : Str) (reset : Bool) → Rpc
  get_sys_stats : Rpc
  get_all_online_users : Rpc
  get_users_stats : (include_traffic reset : Bool) → Rpc
  test_route : Option RoutingContext → (publish_result : Bool) → Rpc
  list_rule : Rpc
  remove_rule : (rule_tag : Str) → Rpc
  get_balancer_info : (tag : Str) → Rpc
  override_balancer_target : (balancer_tag target : Str) → Rpc
  restart_logger : Rpc

-- What the program reads of each method's reply.
abbrev pub Reply : Rpc → Type 0
Reply (list_inbounds _) = List InboundHandlerConfig
Reply list_outbounds = List OutboundHandlerConfig
Reply (query_stats _ _) = List Stat
Reply (get_stats _ _) = Option Stat
Reply get_sys_stats = SysStatsResponse
Reply get_all_online_users = List Str
Reply (get_users_stats _ _) = List UserStat
Reply (test_route _ _) = RoutingContext
Reply list_rule = List ListRuleItem
Reply (get_balancer_info _) = Option BalancerMsg
Reply _ = Unit {0}

-- `tonic::Request`: the message, with the value of its `x-api-token` metadata.
pub record Request (T : Type 0) : Type 0 where
  pub message : T
  pub api_token : Option Str

-- `MetadataValue::try_from(token).ok()`: a value of visible ASCII characters is accepted as it is.
pub record Metadata : Type 0 where
  pub try_from : Str → Option Str
  pub try_from-visible : (s : Str) → All IsVisible s → try_from s ≡ some s

-- `add_token`: a token that is no metadata value is left out without a word.
unfoldable pub add_token : {T : Type 0} → Metadata → Request T → Str → Request T
add_token metadata request token = record request {
  api_token = elim (metadata.try_from token) [ some val ↦ some val | none ↦ request.api_token ];
}

-- A request that was sent, and the channel that it went out on.
pub record Sent (Channel : Type 0) : Type 0 where
  pub channel : Channel
  pub rpc : Rpc
  pub api_token : Option Str

-- The nodes: the answer to a request may depend on all requests that were sent before it.
abbrev pub Nodes : Type 0 → Type 0
Nodes Channel = List (Sent Channel) → (call : Sent Channel) → Result (Reply call.rpc) Status
