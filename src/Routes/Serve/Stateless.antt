-- ===== src/Routes/Serve/Stateless.antt =====
-- The program keeps no state from one request to the next that a caller or a node could see: its
-- specification is a server that is started anew for each request.
use xray_bridge.Prelude.{Option, ◌≢◌, ℕ, ◌≡◌, refl, ap, ◌∙◌, sym, inl, inr, List, [], ◌∷◌}
use xray_bridge.Config.{Settings}
use xray_bridge.Extern.Http.{Headers}
use xray_bridge.Grpc.{Sent}
use xray_bridge.Nodes.Invariant.{Reachable, start}
use xray_bridge.Nodes.Transparent.{node_context-Alike}
use xray_bridge.App.{Platform, Client, World, App, pure}
use xray_bridge.Outcome.{done, Outcome}
use xray_bridge.Error.{Response}
use xray_bridge.Routes.Extract.{node}
use xray_bridge.Routes.Serve.{Str, Endpoint, Answer, handle, healthz, respond, serve}
use xray_bridge.Routes.Serve.Guarded.{context, entered, node-done, node-fail}
use xray_bridge.Routes.Serve.Endpoints.{handle-Gated}
use xray_bridge.Routes.Serve.Context.{handle-context, handle-name}
use xray_bridge.Routes.Serve.Laws.{endpoint-cases, serve-Reachable}

module _ (p : Platform) (settings : Settings) where
  -- Requests in the order in which they are served, and their answers.
  pub run : List (Headers × Endpoint) → World p → List Answer × World p
  run [] w = ([], w)
  run ((headers, e) ∷ requests) w =
      let (answer, w') = serve p settings headers e w in
      let (answers, w'') = run requests w' in (answer ∷ answers, w'')

  -- The specification: each request meets an empty pool. The state is the record of RPCs alone.
  pub stateless_run :
      ℕ
      → List (Headers × Endpoint)
      → List (Sent p.transport.Channel)
      → List Answer × List (Sent p.transport.Channel)
  stateless_run n [] sent = ([], sent)
  stateless_run n ((headers, e) ∷ requests) sent =
      let (answer, w') = serve p settings headers e (record { pool = p.lru.new n; sent = sent }) in
      let (answers, sent') = stateless_run n requests w'.sent in (answer ∷ answers, sent')

  module _ (headers : Headers) where
    -- The two runs of a step answer the same and send the same.
    abbrev Agree : Outcome Response × World p → Outcome Response × World p → Type 0
    Agree r r' = (r.0 ≡ r'.0) × (r.1.sent ≡ r'.1.sent)

    -- A request that gets a client of some label runs as with a client of any other label, whatever
    -- the pool is.
    pub handle-client :
        (e : Endpoint) (w : World p) (c : p.lru.Cache) (client : Client p) (label : Option Str)
        → e ≢ healthz
        → (context p settings headers (record w { pool = c })).0
          ≡ done (record client { name = label })
        → handle p settings headers (node p headers) e (record w { pool = c }) ≡ (
          (handle p settings headers (pure p client) e w).0,
          record (handle p settings headers (pure p client) e w).1 {
            pool = (context p settings headers (record w { pool = c })).1;
          },
        )
    handle-client e w c client label h got =
        let k : Client p → App p Response = λ client. handle p settings headers (pure p client) e in
        let v = record w { pool = c } in
        ap (λ m. m v) (handle-context p settings headers (node p headers) e h)
        ∙ node-done p settings headers k v got
        ∙ ap (λ m. m (entered p settings headers v)) (handle-name p settings headers e client label)
        ∙ ((handle-Gated p settings headers e h).calls client w).2 (context p settings headers v).1

    handle-Agree :
        {n n' : ℕ} (e : Endpoint) (w : World p) (c : p.lru.Cache)
        → e ≢ healthz
        → Reachable p.transport p.lru n w.pool
        → Reachable p.transport p.lru n' c
        → Agree
            (handle p settings headers (node p headers) e w)
            (handle p settings headers (node p headers) e (record w { pool = c }))
    handle-Agree e w c h r r' =
        let k : Client p → App p Response = λ client. handle p settings headers (pure p client) e in
        let v = record w { pool = c } in
        let splits = handle-context p settings headers (node p headers) e h in
        elim (node_context-Alike p.transport p.lru p.http headers w.pool c r r') [
          | inr (error, failed, failed') ↦
              let run_w = ap (λ m. m w) splits ∙ node-fail p settings headers k w failed in
              let run_v = ap (λ m. m v) splits ∙ node-fail p settings headers k v failed' in
              (
                ap (λ x. x.0) run_w ∙ sym (ap (λ x. x.0) run_v),
                ap (λ x. x.1.sent) run_w ∙ sym (ap (λ x. x.1.sent) run_v),
              )
          | inl (client, label, got, got') ↦
              let run_w = handle-client e w w.pool client client.name h got in
              let run_v = handle-client e w c client label h got' in
              (
                ap (λ x. x.0) run_w ∙ sym (ap (λ x. x.0) run_v),
                ap (λ x. x.1.sent) run_w ∙ sym (ap (λ x. x.1.sent) run_v),
              )
        ]

    -- The answer to a request and the RPC that it sends do not depend on the pool that it meets, as
    -- long as calls have led to that pool.
    pub serve-stateless :
        {n n' : ℕ} (e : Endpoint) (w : World p) (c : p.lru.Cache)
        → Reachable p.transport p.lru n w.pool
        → Reachable p.transport p.lru n' c
        → ((serve p settings headers e w).0
            ≡ (serve p settings headers e (record w { pool = c })).0)
          × ((serve p settings headers e w).1.sent
              ≡ (serve p settings headers e (record w { pool = c })).1.sent)
    unfolding serve handle
    serve-stateless e w c r r' = elim (endpoint-cases e) [
      | inl health ↦ (rw (health, handle) refl, rw (health, handle) refl)
      | inr other ↦
          let (same, sent) = handle-Agree e w c other r r' in (ap (respond p.unicode) same, sent)
    ]

  -- Serving any sequence of requests, from any state that requests lead to, gives the answers and
  -- sends the RPCs of the specification, in which every request meets an empty pool: the pool is an
  -- optimisation that no caller and no node can see.
  pub run-stateless :
      {n : ℕ} (requests : List (Headers × Endpoint)) (w : World p)
      → Reachable p.transport p.lru n w.pool
      → ((run requests w).0 ≡ (stateless_run n requests w.sent).0)
        × ((run requests w).1.sent ≡ (stateless_run n requests w.sent).1)
  unfolding run stateless_run
  run-stateless [] w r = (refl, refl)
  run-stateless {n} ((headers, e) ∷ requests) w r =
      let (same, sent) = serve-stateless headers e w (p.lru.new n) r start in
      let (answers, history) =
        run-stateless requests (serve p settings headers e w).1
          (serve-Reachable p settings headers e w r) in
      (rw (same, answers, sent) refl, history ∙ ap (λ s. (stateless_run n requests s).1) sent)
