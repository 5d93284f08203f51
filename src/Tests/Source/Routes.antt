-- ===== src/Tests/Source/Routes.antt =====
-- The tests of src/routes/mod.rs: whole requests, through the router.
use xray_bridge.Prelude.{Bool, true, ◌≡◌, refl, ap, List, [], ◌∷◌}
use xray_bridge.Text.{Str, utf8, str_eq, contains, starts_with, strip_prefix, is_empty}
use xray_bridge.Text.Number.{show}
use xray_bridge.Extern.Lru.{find, promote, remove}
use xray_bridge.App.{World}
use xray_bridge.Routes.Serve.{Answer, healthz, get_sys, serve, handle, respond}
use xray_bridge.Routes.Router.{
  get, serve_request, for_method, dispatch, routed, build_router, methods_at, find_method,
  method_eq, serves,
}
use xray_bridge.Tests.Sample.{sample, lru, headers_of, text_of}
use xray_bridge.Auth.{bearer_auth}
use xray_bridge.Auth.Compare.{constant_time_eq}
use xray_bridge.Error.{into_response}
use xray_bridge.Routes.Extract.{node, auth}
use xray_bridge.Routes.Stats.{get_sys_stats_handler}
use xray_bridge.Text.Split.{split}
use xray_bridge.Routes.Path.{segments, segment, is_static}
use xray_bridge.Nodes.{
  node_context, nonempty_text, header_port, get_or_create, open_channel, uri_text,
}
use xray_bridge.Tests.Router.{sample_find, member, axum, removal}
use xray_bridge.Tests.Source.Asserts.{has_status}

abbrev make_state : World sample
make_state = record { pool = lru.new 256; sent = [] }

-- `app.oneshot(req)`, for a request without a body.
abbrev oneshot : Str → Str → List (Str × Str) → Answer
oneshot bridge_token path headers =
    (serve_request sample axum (record { bridge_token = bridge_token; port = 8080 })
      (record removal { method = get; path = path; headers = headers_of headers }) make_state).0

oneshot_healthz :
    (bridge_token : Str) (headers : List (Str × Str))
    → oneshot bridge_token (utf8 "/healthz") headers
      ≡ (serve sample
          (record { bridge_token = bridge_token; port = 8080 })
          (headers_of headers)
          healthz
          make_state).0
unfolding serve_request for_method dispatch routed build_router segments segment is_static
    methods_at find_method method_eq serves split utf8 str_eq starts_with sample_find member
oneshot_healthz bridge_token headers = refl

oneshot_sys :
    (bridge_token : Str) (headers : List (Str × Str))
    → oneshot bridge_token (utf8 "/v1/sys") headers
      ≡ (serve sample
          (record { bridge_token = bridge_token; port = 8080 })
          (headers_of headers)
          get_sys
          make_state).0
unfolding serve_request for_method dispatch routed build_router segments segment is_static
    methods_at find_method method_eq serves split utf8 str_eq starts_with sample_find member
oneshot_sys bridge_token headers = refl

abbrev healthz_returns_200 : Bool
healthz_returns_200 = has_status (oneshot (utf8 "test-token") (utf8 "/healthz") []) 200

healthz_returns_200_lem : healthz_returns_200 ≡ true
unfolding serve handle respond
healthz_returns_200_lem =
    ap (λ answer. has_status answer 200) (oneshot_healthz (utf8 "test-token") [])

abbrev missing_auth_returns_401 : Bool
missing_auth_returns_401 =
    has_status
      (oneshot (utf8 "secret") (utf8 "/v1/sys") (
        (utf8 "x-node-domain", utf8 "node.example.com")
        ∷ (utf8 "x-node-token", utf8 "nodetoken")
        ∷ []))
      401

missing_auth_returns_401_lem : missing_auth_returns_401 ≡ true
unfolding serve handle respond get_sys_stats_handler node auth node_context nonempty_text text_of
    utf8 str_eq is_empty bearer_auth strip_prefix constant_time_eq into_response header_port
    get_or_create open_channel find uri_text show contains starts_with promote remove
missing_auth_returns_401_lem =
    ap (λ answer. has_status answer 401)
      (oneshot_sys (utf8 "secret") (
        (utf8 "x-node-domain", utf8 "node.example.com")
        ∷ (utf8 "x-node-token", utf8 "nodetoken")
        ∷ []))

abbrev missing_node_domain_returns_400 : Bool
missing_node_domain_returns_400 =
    has_status
      (oneshot (utf8 "secret") (utf8 "/v1/sys") (
        (utf8 "authorization", utf8 "Bearer secret")
        ∷ (utf8 "x-node-token", utf8 "nodetoken")
        ∷ []))
      400

missing_node_domain_returns_400_lem : missing_node_domain_returns_400 ≡ true
unfolding serve handle respond get_sys_stats_handler node auth node_context nonempty_text text_of
    utf8 str_eq is_empty bearer_auth strip_prefix constant_time_eq into_response header_port
    get_or_create open_channel find uri_text show contains starts_with promote remove
missing_node_domain_returns_400_lem =
    ap (λ answer. has_status answer 400)
      (oneshot_sys (utf8 "secret") (
        (utf8 "authorization", utf8 "Bearer secret")
        ∷ (utf8 "x-node-token", utf8 "nodetoken")
        ∷ []))

abbrev missing_node_token_returns_400 : Bool
missing_node_token_returns_400 =
    has_status
      (oneshot (utf8 "secret") (utf8 "/v1/sys") (
        (utf8 "authorization", utf8 "Bearer secret")
        ∷ (utf8 "x-node-domain", utf8 "node.example.com")
        ∷ []))
      400

missing_node_token_returns_400_lem : missing_node_token_returns_400 ≡ true
unfolding serve handle respond get_sys_stats_handler node auth node_context nonempty_text text_of
    utf8 str_eq is_empty bearer_auth strip_prefix constant_time_eq into_response header_port
    get_or_create open_channel find uri_text show contains starts_with promote remove
missing_node_token_returns_400_lem =
    ap (λ answer. has_status answer 400)
      (oneshot_sys (utf8 "secret") (
        (utf8 "authorization", utf8 "Bearer secret")
        ∷ (utf8 "x-node-domain", utf8 "node.example.com")
        ∷ []))

abbrev wrong_auth_token_returns_401 : Bool
wrong_auth_token_returns_401 =
    has_status
      (oneshot (utf8 "secret") (utf8 "/v1/sys") (
        (utf8 "authorization", utf8 "Bearer wrong-token")
        ∷ (utf8 "x-node-domain", utf8 "node.example.com")
        ∷ (utf8 "x-node-token", utf8 "nodetoken")
        ∷ []))
      401

wrong_auth_token_returns_401_lem : wrong_auth_token_returns_401 ≡ true
unfolding serve handle respond get_sys_stats_handler node auth node_context nonempty_text text_of
    utf8 str_eq is_empty bearer_auth strip_prefix constant_time_eq into_response header_port
    get_or_create open_channel find uri_text show contains starts_with promote remove
wrong_auth_token_returns_401_lem =
    ap (λ answer. has_status answer 401)
      (oneshot_sys (utf8 "secret") (
        (utf8 "authorization", utf8 "Bearer wrong-token")
        ∷ (utf8 "x-node-domain", utf8 "node.example.com")
        ∷ (utf8 "x-node-token", utf8 "nodetoken")
        ∷ []))
