-- ===== src/Xray/Routing.antt =====
-- src/xray/routing.rs: the calls of a node's RoutingService and LoggerService.
use xray_bridge.Prelude.{ℕ, false, none, some, List, [], ◌∷◌, map, if◌then◌else◌, unwrap_or}
use xray_bridge.Text.{Str, utf8, str_eq}
use xray_bridge.Json.{Json, pos, int, str, object!, array! }
use xray_bridge.Extern.Unicode.{Unicode}
use xray_bridge.Proto.{RoutingContext, ListRuleItem, BalancerMsg}
use xray_bridge.Grpc.{Rpc}
use xray_bridge.App.{Platform, Client, App, pure, send, ◌>>=◌}

abbrev network_tcp : ℕ
network_tcp = 2

abbrev network_udp : ℕ
network_udp = 3

unfoldable pub network_from_str : Unicode → Str → ℕ
network_from_str u s =
    let upper = u.to_uppercase s in
    if str_eq upper (utf8 "TCP")
    then network_tcp
    else if str_eq upper (utf8 "UDP")
    then network_udp
    else network_tcp

module _ (p : Platform) (client : Client p) where
  unfoldable pub test_route : (target_domain network inbound_tag user : Str) → App p Json
  test_route target_domain network inbound_tag user = do
    let ctx : RoutingContext = record {
      target_domain = target_domain;
      network = network_from_str p.unicode network;
      inbound_tag = inbound_tag;
      user = user;
      target_port = 0;
      protocol = [];
      outbound_group_tags = [];
      outbound_tag = [];
    }
    r ← send p client (Rpc.test_route (some ctx) false)
    pure p (
        object! (
          ("OutboundTag", str r.outbound_tag)
          ∷ ("InboundTag", str r.inbound_tag)
          ∷ ("Network", int (pos r.network))
          ∷ ("TargetDomain", str r.target_domain)
          ∷ ("TargetPort", int (pos r.target_port))
          ∷ ("Protocol", str r.protocol)
          ∷ ("User", str r.user)
          ∷ ("OutboundGroupTags", array! (map str r.outbound_group_tags))
          ∷ []))

  unfoldable pub list_routing_rules : App p (List Json)
  list_routing_rules = do
    rules ← send p client Rpc.list_rule
    pure p (
        map (λ (r : ListRuleItem). object! (("tag", str r.tag) ∷ ("ruleTag", str r.rule_tag) ∷ []))
          rules)

  unfoldable pub remove_routing_rule : Str → App p (Unit {0})
  remove_routing_rule rule_tag = send p client (Rpc.remove_rule rule_tag)

  unfoldable pub get_balancer_info : Str → App p Json
  get_balancer_info tag = do
    balancer ← send p client (Rpc.get_balancer_info tag)
    let b : BalancerMsg =
        unwrap_or balancer (record { override_target = none; principle_target = none })
    let override_target : Str = unwrap_or b.override_target []
    let principle_targets : List Str = unwrap_or b.principle_target []
    pure p (
        object! (
          ("override_target", str override_target)
          ∷ ("principle_targets", array! (map str principle_targets))
          ∷ []))

  unfoldable pub override_balancer_target : (balancer_tag target : Str) → App p (Unit {0})
  override_balancer_target balancer_tag target =
      send p client (Rpc.override_balancer_target balancer_tag target)

  unfoldable pub restart_logger : App p (Unit {0})
  restart_logger = send p client Rpc.restart_logger
