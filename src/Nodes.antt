-- ===== src/Nodes.antt =====
-- src/nodes.rs: the pool of gRPC channels, and the extractor that picks a node's client from it.
-- The lock of the pool makes each call atomic, so a call is a function from one pool to the next.
pub mod Assoc
pub mod Invariant
pub mod Isolation
pub mod Eviction
pub mod Context
pub mod Port
pub mod Transparent
pub mod Recency
pub mod First
use xray_bridge.Prelude.{
  ℕ, ◌++◌, Option, none, some, Result, ok, err, leb, if◌then◌else◌, ℕ_discrete, map_err, and_then,
  unwrap_or, ◌==◌,
}
use mathlib.Core.Option
use xray_bridge.Text.{Str, utf8, is_empty}
use xray_bridge.Text.Number.{show, parse_u16}
use xray_bridge.Error.{AppError}
use xray_bridge.Outcome.{Outcome, done, fail, panic}
use xray_bridge.Extern.Http.{Http, Headers}
use xray_bridge.Extern.Lru.{Lru}
use xray_bridge.Extern.Transport.{Transport}

abbrev pub default_max_entries : ℕ
default_max_entries = 256

-- The key of the pool: domain, port and token.
abbrev pub Key : Type 0
Key = Str × ℕ × Str

unfoldable pub Key-discrete : Discrete Key
Key-discrete = hlevel ℕ_discrete

pub record XrayClient (Channel : Type 0) : Type 0 where
  pub channel : Channel
  pub token : Str
  pub name : Option Str

abbrev pub Pool : Transport → Type 1
Pool t = Lru Key (XrayClient t.Channel) Key-discrete

module _ (http : Http) where
  -- `headers.get(name).and_then(|v| v.to_str().ok())`
  header_text : Headers → Str → Option Str
  header_text headers name = and_then (headers name) http.to_str

  -- ... with `.filter(|s| !s.is_empty())`
  unfoldable pub nonempty_text : Headers → Str → Option Str
  unfolding header_text
  nonempty_text headers name =
      and_then (header_text headers name) (λ s. if is_empty s then none else some s)

  unfoldable pub header_port : Headers → ℕ
  unfolding header_text
  header_port headers =
      unwrap_or (and_then (header_text headers (utf8 "x-node-port")) parse_u16) 443

module _ (t : Transport) where
  -- `format!("https://{domain}:{port}")`
  unfoldable pub uri_text : Str → ℕ → Str
  uri_text domain port = utf8 "https://" ++ (domain ++ (utf8 ":" ++ show port))

  -- The lazy channel to a node, or the error of its URI or of the TLS settings.
  unfoldable pub open_channel : Str → ℕ → Result t.Channel AppError
  open_channel domain port = elim (t.parse_uri (uri_text domain port)) [
    | err e ↦ err (AppError.internal (utf8 "invalid URI: " ++ e))
    | ok uri ↦ elim (t.tls_config (t.builder uri) (t.with_webpki_roots t.new_tls)) [
      | err e ↦ err (AppError.internal (utf8 "TLS config error: " ++ e))
      | ok endpoint ↦ ok (t.connect_lazy endpoint)
    ]
  ]

  module _ (l : Pool t) where
    -- `XrayClientCache::new`: a capacity of 0 panics.
    unfoldable pub new : ℕ → Outcome l.Cache
    new max_entries = if max_entries == 0 then panic else done (l.new max_entries)

    -- The key that the log names as displaced, before a client is created.
    unfoldable pub displaced : l.Cache → Option Key
    displaced cache =
        if leb (l.cap cache) (l.len cache) then Option.map (λ e. e.0) (l.peek_lru cache) else none

    -- The part of `get_or_create` behind a miss.
    create : l.Cache → Str → ℕ → Str → Option Str → Outcome (XrayClient t.Channel) × l.Cache
    create cache domain port token name = elim (open_channel domain port) [
      | err e ↦ (fail e, cache)
      | ok channel ↦
          let client : XrayClient t.Channel = record {
            channel = channel;
            token = token;
            name = name;
          } in
          (done client, l.put cache (domain, port, token) client)
    ]

    unfoldable pub get_or_create :
        l.Cache → Str → ℕ → Str → Option Str → Outcome (XrayClient t.Channel) × l.Cache
    unfolding create
    get_or_create cache domain port token name =
        let (found, cache') = l.get cache (domain, port, token) in
        elim found [
          | some client ↦ (done client, cache')
          | none ↦ create cache' domain port token name
        ]

    -- `NodeContext::from_request_parts`
    unfoldable pub node_context :
        Http → Headers → l.Cache → Outcome (XrayClient t.Channel) × l.Cache
    unfolding header_text
    node_context http headers cache = elim (nonempty_text http headers (utf8 "x-node-domain")) [
      | none ↦ (fail (AppError.invalid_argument (utf8 "缺少 X-Node-Domain header")), cache)
      | some domain ↦ elim (nonempty_text http headers (utf8 "x-node-token")) [
        | none ↦ (fail (AppError.invalid_argument (utf8 "缺少 X-Node-Token header")), cache)
        | some token ↦
            get_or_create cache domain (header_port http headers) token
              (header_text http headers (utf8 "x-node-name"))
      ]
    ]
