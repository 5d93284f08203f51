-- ===== src/Routes/Serve/Talk/Spec.antt =====
-- What each endpoint promises of its node: the RPC that it makes, and the status of its success.
use xray_bridge.Prelude.{List, ◌∷◌, ℕ, ◌≡◌, true, false, ok, some, []}
use xray_bridge.Text.{Str, utf8}
use xray_bridge.Error.{status_ok, created}
use xray_bridge.Proto.{TypedMessage, InboundHandlerConfig, OutboundHandlerConfig}
use xray_bridge.Json.{pos, str, object! }
use xray_bridge.Error.{Response}
use xray_bridge.Grpc.{Rpc, Reply}
use xray_bridge.Routes.Serve.Talk.Replies.{Renders, counter, confirmed}
use xray_bridge.App.{Platform}
use xray_bridge.Xray.Account.{build_account_typed_message}
use xray_bridge.Xray.Account.Kinds.{number_of}
use xray_bridge.Routes.Handler
use xray_bridge.Routes.Handler.Config.{json_to_inbound_config, json_to_outbound_config}
use xray_bridge.Routes.Stats
use xray_bridge.Routes.Routing
use xray_bridge.Routes.Serve.{
  Endpoint, healthz, get_sys, get_users, get_users_online, get_users_stats, get_stats, get_stat,
  post_users, delete_user, get_inbounds, post_inbounds, delete_inbound, get_outbounds,
  post_outbounds, delete_outbound, post_logger_restart, post_routing_test, get_routing_rules,
  delete_routing_rule, get_balancer, put_balancer,
}

-- enum Network of proto/common/net/network.proto, as far as callers can name it
abbrev pub networks : List (Str × ℕ)
networks = (utf8 "TCP", 2) ∷ (utf8 "UDP", 3) ∷ []

module _ (p : Platform) where
  -- The RPC that an endpoint may make: one for each that has all that its extractors ask for, and
  -- whose body can be converted.
  abbrev pub Asks : Endpoint → Rpc → Type 0
  Asks healthz rpc = ⊥
  Asks get_sys rpc = rpc ≡ Rpc.get_sys_stats
  Asks get_users rpc = rpc ≡ Rpc.query_stats (utf8 "user>>>") false
  Asks get_users_online rpc = rpc ≡ Rpc.get_all_online_users
  Asks (get_users_stats given) rpc =
      (q : Stats.ResetQuery) × (given ≡ ok q) × (rpc ≡ Rpc.get_users_stats true q.reset)
  Asks (get_stats given) rpc =
      (q : Stats.StatsQuery) × (given ≡ ok q) × (rpc ≡ Rpc.query_stats q.pattern q.reset)
  Asks (get_stat path given) rpc =
      (name : Str) × (q : Stats.ResetQuery) × (path ≡ ok name)
      × (given ≡ ok q)
      × (rpc ≡ Rpc.get_stats name q.reset)
  Asks (post_users given) rpc =
      (b : Handler.AddUserBody) × (typed : TypedMessage) × (given ≡ ok b)
      × (build_account_typed_message p.unicode p.prost (p.unicode.to_lowercase b.proto) b.uuid
            b.flow b.vmess_security b.password b.ss_cipher
          ≡ ok typed)
      × (rpc
          ≡ Rpc.alter_inbound (record {
            tag = b.tag;
            operation = some (record {
              type_name = utf8 "xray.app.proxyman.command.AddUserOperation";
              value = p.prost.add_user_operation.encode_to_vec (record {
                user = some (record { level = b.level; email = b.email; account = some typed });
              });
            });
          }))
  Asks (delete_user path given) rpc =
      (email : Str) × (q : Handler.RemoveUserQuery) × (path ≡ ok email)
      × (given ≡ ok q)
      × (rpc
          ≡ Rpc.alter_inbound (record {
            tag = q.tag;
            operation = some (record {
              type_name = utf8 "xray.app.proxyman.command.RemoveUserOperation";
              value = p.prost.remove_user_operation.encode_to_vec (record { email = email });
            });
          }))
  Asks get_inbounds rpc = rpc ≡ Rpc.list_inbounds true
  Asks (post_inbounds given) rpc =
      (b : Handler.InboundConfigBody) × (config : InboundHandlerConfig) × (given ≡ ok b)
      × (json_to_inbound_config p.base64 b.config ≡ ok config)
      × (rpc ≡ Rpc.add_inbound (some config))
  Asks (delete_inbound path) rpc = (tag : Str) × (path ≡ ok tag) × (rpc ≡ Rpc.remove_inbound tag)
  Asks get_outbounds rpc = rpc ≡ Rpc.list_outbounds
  Asks (post_outbounds given) rpc =
      (b : Handler.InboundConfigBody) × (config : OutboundHandlerConfig) × (given ≡ ok b)
      × (json_to_outbound_config p.base64 b.config ≡ ok config)
      × (rpc ≡ Rpc.add_outbound (some config))
  Asks (delete_outbound path) rpc = (tag : Str) × (path ≡ ok tag) × (rpc ≡ Rpc.remove_outbound tag)
  Asks post_logger_restart rpc = rpc ≡ Rpc.restart_logger
  Asks (post_routing_test given) rpc =
      (b : Routing.TestRouteBody) × (given ≡ ok b)
      × (rpc
          ≡ Rpc.test_route
              (some (record {
                target_domain = b.target_domain;
                network = number_of 2 networks (p.unicode.to_uppercase b.network);
                inbound_tag = b.inbound_tag;
                user = b.user;
                target_port = 0;
                protocol = [];
                outbound_group_tags = [];
                outbound_tag = [];
              }))
              false)
  Asks get_routing_rules rpc = rpc ≡ Rpc.list_rule
  Asks (delete_routing_rule path) rpc = (tag : Str) × (path ≡ ok tag) × (rpc ≡ Rpc.remove_rule tag)
  Asks (get_balancer path) rpc = (tag : Str) × (path ≡ ok tag) × (rpc ≡ Rpc.get_balancer_info tag)
  Asks (put_balancer path given) rpc =
      (tag : Str) × (b : Routing.OverrideBalancerBody) × (path ≡ ok tag)
      × (given ≡ ok b)
      × (rpc ≡ Rpc.override_balancer_target tag b.target)

-- An error that would be answered 404 is excused.
abbrev pub Excuses : Endpoint → Type 0
Excuses (get_stat path given) = Unit
Excuses (delete_user path given) =
    (q : Handler.RemoveUserQuery) × (given ≡ ok q) × (q.ignore_missing ≡ true)
Excuses _ = ⊥

abbrev pub success_status : Endpoint → ℕ
success_status (post_users given) = created
success_status (post_inbounds given) = created
success_status (post_outbounds given) = created
success_status _ = status_ok

-- The endpoint's answer to a reply.
abbrev pub Yields : Endpoint → (rpc : Rpc) → Reply rpc → Response → Type 0
Yields e rpc reply r = (r.status ≡ success_status e) × Renders e rpc reply r.body

-- The endpoint's answer to an error that is excused: 0 for a counter, a note for a user.
abbrev pub Forgives : Endpoint → Response → Type 0
Forgives (get_stat path given) r =
    (name : Str) × (path ≡ ok name) × (r.status ≡ status_ok) × (r.body ≡ counter name (pos 0))
Forgives (delete_user path given) r =
    (email : Str) × (q : Handler.RemoveUserQuery) × (path ≡ ok email)
    × (given ≡ ok q)
    × (r.status ≡ status_ok)
    × (r.body
        ≡ confirmed (utf8 "remove-user") (
            object! (
              ("tag", str q.tag)
              ∷ ("email", str email)
              ∷ ("note", str (utf8 "not found, ignored"))
              ∷ [])))
Forgives _ r = ⊥
