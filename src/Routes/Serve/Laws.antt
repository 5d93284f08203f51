-- ===== src/Routes/Serve/Laws.antt =====
-- What a request may do: whom it is answered for, what it sends to a node, and what it leaves in the
-- pool.
use xray_bridge.Prelude.{
  In, All-imp, All-append, All, List, ok, ℕ, ◌≡◌, ◌≢◌, refl, ap, ◌⊎◌, inl, inr, some, [], ◌∷◌, ◌++◌,
  ◌≤◌,
}
use xray_bridge.Text.{Str}
use xray_bridge.Config.{Settings}
use xray_bridge.Error.{AppError, into_response}
use xray_bridge.Outcome.{Outcome, done, fail, reject, panic}
use xray_bridge.Extern.Http.{Headers}
use xray_bridge.Extern.Unicode.{Unicode}
use xray_bridge.Auth.Laws.{Grants, bearer_auth-cases, bearer_auth-done_iff}
use xray_bridge.Grpc.{add_token, Rpc, Sent}
use xray_bridge.Nodes.{get_or_create, Key-discrete, node_context, header_port, open_channel}
use xray_bridge.Nodes.Assoc.{Distinct}
use xray_bridge.Nodes.Invariant.{Reachable, call, start}
use xray_bridge.Nodes.Isolation.{get_or_create-isolated, Reachable-bounded}
use xray_bridge.Nodes.Context.{Names, node_context-cases}
use xray_bridge.App.{Platform, Client, World, outgoing}
use xray_bridge.Routes.Serve.{Endpoint, handle, healthz, Answer, answered, rejected, respond, serve}
use xray_bridge.Routes.Serve.Guarded.{IsRefused}
use xray_bridge.Routes.Serve.Context.{handle-Guarded}
use xray_bridge.Routes.Extract.{node}

-- An error's answer, or the rejection of an extractor of axum's; not an answer of the endpoint.
abbrev pub IsRefusal : Unicode → Answer → Type 0
IsRefusal u answer =
    ((e : AppError) × (answer ≡ answered (into_response u e)))
    ⊎ ((status : ℕ) × (answer ≡ rejected status))

pub respond_refused : (u : Unicode) (r : Outcome _) → IsRefused r → IsRefusal u (respond u r)
unfolding respond
respond_refused u (done _) h = elim h [ ]
respond_refused u panic h = elim h [ ]
respond_refused u (fail e) h = inl (e, refl)
respond_refused u (reject status) h = inr (status, refl)

pub endpoint-cases : (e : Endpoint) → (e ≡ healthz) ⊎ (e ≢ healthz)
endpoint-cases healthz = inl refl
endpoint-cases e = inr (λ h. cc)

module _ (p : Platform) (settings : Settings) where
  -- The states that requests lead to from a start with an empty pool of capacity `n`.
  pub data Served (n : ℕ) : World p → Type 0 where
    boot : Served n (record { pool = p.lru.new n; sent = [] })
    request :
        {w : World p} (headers : Headers) (e : Endpoint)
        → Served n w
        → Served n (serve p settings headers e w).1

  module _ (headers : Headers) where
    -- A request without the configured token sends nothing to any node, and it is answered with an
    -- error, at every endpoint but the health check.
    pub serve-unauthorized :
        (e : Endpoint) (w : World p)
        → e ≢ healthz
        → ¬ Grants settings headers
        → ((serve p settings headers e w).1.sent ≡ w.sent)
          × IsRefusal p.unicode (serve p settings headers e w).0
    unfolding serve
    serve-unauthorized e w h other =
        let (same, refused) = (handle-Guarded p settings headers e h).refused other w in
        (same, respond_refused p.unicode (handle p settings headers (node p headers) e w).0 refused)

    -- After a request to any endpoint but the health check the pool is what `NodeContext` alone
    -- makes of it, whether the request is authorized or not.
    pub serve-pool :
        (e : Endpoint) (w : World p)
        → e ≢ healthz
        → (serve p settings headers e w).1.pool
          ≡ (node_context p.transport p.lru p.http headers w.pool).1
    unfolding serve
    serve-pool e w h = (handle-Guarded p settings headers e h).pool w

    pub node_context-Reachable :
        {n : ℕ} {c : p.lru.Cache}
        → Reachable p.transport p.lru n c
        → Reachable p.transport p.lru n (node_context p.transport p.lru p.http headers c).1
    node_context-Reachable {c = c} r =
        elim (node_context-cases p.transport p.lru p.http headers c) [
          | inl (domain, token, name, _, run) ↦
              rw run (call domain (header_port p.http headers) token name r)
          | inr (msg, run) ↦ rw run r
        ]

    pub serve-Reachable :
        {n : ℕ} (e : Endpoint) (w : World p)
        → Reachable p.transport p.lru n w.pool
        → Reachable p.transport p.lru n (serve p settings headers e w).1.pool
    unfolding serve handle
    serve-Reachable e w r = elim (endpoint-cases e) [
      | inl health ↦ rw (health, handle) r
      | inr other ↦ rw (serve-pool e w other) (node_context-Reachable r)
    ]

  pub Served-Reachable : {n : ℕ} {w : World p} → Served n w → Reachable p.transport p.lru n w.pool
  Served-Reachable boot = start
  Served-Reachable (request {w = w} headers e s) = serve-Reachable headers e w (Served-Reachable s)

  -- Whatever requests were served since the start, the pool holds at most as many clients as its
  -- capacity says, and never two for one domain, port and token.
  pub Served-bounded :
      {n : ℕ} {w : World p}
      → Served n w
      → (p.lru.len w.pool ≤ n) × Distinct Key-discrete (p.lru.iter w.pool)
  Served-bounded s = Reachable-bounded p.transport p.lru (Served-Reachable s)

  -- What one request may send: one RPC, on a channel that opens to the domain and port in the
  -- request's own headers, with the token in its own headers.
  pub record Delivers (headers : Headers) (call : Sent p.transport.Channel) : Type 0 where
    pub domain : Str
    pub token : Str
    pub names : Names headers domain token
    pub opened : open_channel p.transport domain (header_port p.http headers) ≡ ok call.channel
    pub api_token : call.api_token ≡ some token

  pub Delivers-client :
      {n : ℕ} (w : World p) (headers : Headers) (client : Client p) (rpc : Rpc)
      → Reachable p.transport p.lru n w.pool
      → (node_context p.transport p.lru p.http headers w.pool).0 ≡ done client
      → Delivers headers (outgoing p client rpc)
  unfolding add_token
  Delivers-client w headers client rpc r got =
      elim (node_context-cases p.transport p.lru p.http headers w.pool) [
        | inr (msg, run) ↦ cc (ap (λ x. x.0) run)
        | inl (domain, token, name, names, run) ↦
            let made =
              get_or_create p.transport p.lru w.pool domain (header_port p.http headers) token
                name in
            let same : made ≡ (done client, made.1) = cc (ap (λ x. x.0) run) in
            let (kept, opened) =
              get_or_create-isolated p.transport p.lru domain (header_port p.http headers) token
                name r same in
            record {
              domain = domain;
              token = token;
              names = names;
              opened = opened;
              api_token =
                  rw (kept, add_token, p.metadata.try_from-visible token names.token_visible) refl;
            }
      ]

  -- Whatever was served before, a request sends nothing, or it is authorized and sends exactly one
  -- RPC, on a channel that opens to the domain and port that its own headers name and with the token
  -- of its own headers: no caller reaches another caller's node or uses another caller's token.
  pub serve-sends :
      {n : ℕ} {w : World p} (headers : Headers) (e : Endpoint)
      → Served n w
      → ((serve p settings headers e w).1.sent ≡ w.sent)
        ⊎ (Grants settings headers
            × (call : Sent p.transport.Channel) × Delivers headers call
            × ((serve p settings headers e w).1.sent ≡ w.sent ++ call ∷ []))
  unfolding serve handle
  serve-sends {w = w} headers e s = elim (endpoint-cases e) [
    | inl health ↦ inl (rw (health, handle) refl)
    | inr other ↦
        let guarded = handle-Guarded p settings headers e other in
        elim (bearer_auth-cases p.unicode p.http settings headers) [
          | inr (msg, denied) ↦
              inl
                (guarded.refused
                  (λ g. cc ((bearer_auth-done_iff p.unicode p.http settings headers).1 g)) w).0
          | inl granted ↦ elim (guarded.sends w) [
            | inl same ↦ inl same
            | inr (client, rpc, got, one) ↦ inr (
              (bearer_auth-done_iff p.unicode p.http settings headers).0 granted,
              outgoing p client rpc,
              Delivers-client w headers client rpc (Served-Reachable s) got,
              one,
            )
          ]
        ]
  ]

  -- An RPC that an authorized request named by its own headers, one of the given requests.
  abbrev pub IsAuthorized : List Headers → Sent p.transport.Channel → Type 0
  IsAuthorized asked sent_call =
      (headers : Headers) × In headers asked × Grants settings headers × Delivers headers sent_call

  -- More requests have come.
  pub All-IsAuthorized :
      (headers : Headers) (asked : List Headers) (calls : List (Sent p.transport.Channel))
      → All (IsAuthorized asked) calls
      → All (IsAuthorized (headers ∷ asked)) calls
  All-IsAuthorized headers asked =
      All-imp (IsAuthorized asked) (IsAuthorized (headers ∷ asked))
        (λ call (x, i, g, d). (x, inr i, g, d))

  pub All-snoc :
      (asked : List Headers) (calls : List (Sent p.transport.Channel))
      (sent_call : Sent p.transport.Channel)
      → All (IsAuthorized asked) calls
      → IsAuthorized asked sent_call
      → All (IsAuthorized asked) (calls ++ sent_call ∷ [])
  All-snoc asked calls sent_call h k = All-append _ calls (sent_call ∷ []) h (k, tt)

  -- The headers of the requests that were served, the last one first.
  unfoldable pub asked_by : {n : ℕ} {w : World p} → Served n w → List Headers
  asked_by boot = []
  asked_by (request headers e s) = headers ∷ asked_by s

  -- Every RPC that was sent since the start was named by an authorized request: one of the requests
  -- that were served carried the bridge's token, and its headers name the node that the RPC's channel
  -- opens to and the token that the RPC carries.
  pub Served-IsAuthorized :
      {n : ℕ} {w : World p} (s : Served n w) → All (IsAuthorized (asked_by s)) w.sent
  unfolding asked_by
  Served-IsAuthorized boot = tt
  Served-IsAuthorized (request {w = w} headers e s) =
      let before = All-IsAuthorized headers (asked_by s) w.sent (Served-IsAuthorized s) in
      elim (serve-sends headers e s) [
        | inl same ↦ rw same before
        | inr (granted, sent_call, delivers, one) ↦ rw one (
            All-snoc (headers ∷ asked_by s) w.sent sent_call before
              (headers, inl refl, granted, delivers))
      ]
