-- ===== src/Routes/Extract.antt =====
-- The extractors in front of each handler, in the order of its parameters. A path
-- parameter, a query or a body is extracted by axum and serde: it is what they make of the request,
-- or the status of their rejection.
use xray_bridge.Prelude.{ℕ, Result, ok, err}
use xray_bridge.Json.{Json}
use xray_bridge.Config.{Settings}
use xray_bridge.Error.{Response}
use xray_bridge.Outcome.{done, reject}
use xray_bridge.Extern.Http.{Headers}
use xray_bridge.Nodes.{node_context}
use xray_bridge.Auth.{BearerAuth, bearer_auth}
use xray_bridge.App.{Platform, Client, App, lift}

-- `Path<T>`, `Query<T>` and `Json<T>`
abbrev pub Extracted : Type 0 → Type 0
Extracted T = Result T ℕ

module _ (p : Platform) where
  -- `NodeContext(client)`
  unfoldable pub node : Headers → App p (Client p)
  node headers w =
      let (answer, pool) = node_context p.transport p.lru p.http headers w.pool in
      (answer, record w { pool = pool })

  -- `_auth: BearerAuth`
  unfoldable pub auth : Settings → Headers → App p BearerAuth
  auth settings headers = lift p (bearer_auth p.unicode p.http settings headers)

  -- `Path(tag)`, `Query(q)` and `Json(body)`
  unfoldable pub extract : {T : Type 0} → Extracted T → App p T
  extract (ok value) = lift p (done value)
  extract (err status) = lift p (reject status)

-- `(status, Json(body))`
abbrev pub answer : ℕ → Json → Response
answer status body = record { status = status; body = body }
