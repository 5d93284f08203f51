-- ===== src/App.antt =====
-- What the handlers run in: the services that the program is given, the state that requests share,
-- and the monad of a handler's steps.
use xray_bridge.Prelude.{none, Result, ok, err, List, [], ◌∷◌, ◌++◌}
use xray_bridge.Error.{AppError, Status, from_status}
use xray_bridge.Outcome.{Outcome, done, fail, reject, panic}
use xray_bridge.Extern.Unicode.{Unicode}
use xray_bridge.Extern.Http.{Http}
use xray_bridge.Extern.Transport.{Transport}
use xray_bridge.Extern.Codec.{Prost, Base64}
use xray_bridge.Nodes.{Pool, XrayClient}
use xray_bridge.Grpc.{Rpc, Reply, Metadata, Sent, Nodes, add_token}

pub record Platform : Type 1 where
  pub unicode : Unicode
  pub http : Http
  pub transport : Transport
  pub lru : Pool transport
  pub metadata : Metadata
  pub prost : Prost
  pub base64 : Base64
  pub nodes : Nodes transport.Channel

module _ (p : Platform) where
  abbrev pub Client : Type 0
  Client = XrayClient p.transport.Channel

  -- The pool of `AppState`, and the requests that were sent to nodes so far, oldest first.
  pub record World : Type 0 where
    pub pool : p.lru.Cache
    pub sent : List (Sent p.transport.Channel)

  abbrev pub App : Type 0 → Type 0
  App A = World → Outcome A × World

  abbrev pub pure : {A : Type 0} → A → App A
  pure a w = (done a, w)

  abbrev pub raise : {A : Type 0} → AppError → App A
  raise e w = (fail e, w)

  abbrev pub lift : {A : Type 0} → Outcome A → App A
  lift r w = (r, w)

  -- The request that a client sends for a method, with its token.
  abbrev pub outgoing : Client → Rpc → Sent p.transport.Channel
  outgoing client rpc = record {
    channel = client.channel;
    rpc = rpc;
    api_token =
        (add_token p.metadata (record { message = rpc; api_token = none }) client.token).api_token;
  }

  -- Makes one RPC on the client's channel.
  unfoldable pub call : Client → (rpc : Rpc) → World → Result (Reply rpc) Status × World
  call client rpc w =
      (p.nodes w.sent (outgoing client rpc), record w { sent = w.sent ++ outgoing client rpc ∷ [] })

  -- ... with `.map_err(AppError::from)?`
  unfoldable pub send : Client → (rpc : Rpc) → App (Reply rpc)
  send client rpc w =
      let (result, w') = call client rpc w in
      elim result [ ok reply ↦ (done reply, w') | err status ↦ (fail (from_status status), w') ]

-- What follows a step.
abbrev pub continue : (p : Platform) {A B : Type 0} → (A → App p B) → Outcome A → App p B
continue p f (done a) w = f a w
continue p f (fail e) w = (fail e, w)
continue p f (reject n) w = (reject n, w)
continue p f panic w = (panic, w)

infixl 5 ◌>>=◌ ◌>>◌
abbrev pub ◌>>=◌ : {p : Platform} {A B : Type 0} → App p A → (A → App p B) → App p B
◌>>=◌ {p} m f w = continue p f (m w).0 (m w).1

abbrev pub ◌>>◌ : {p : Platform} {A B : Type 0} → App p A → App p B → App p B
◌>>◌ {p} m k w = continue p (λ _. k) (m w).0 (m w).1
