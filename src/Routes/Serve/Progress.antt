-- ===== src/Routes/Serve/Progress.antt =====
-- Requests in flight get their answers.
use xray_bridge.Prelude.{ap, ◌∙◌, ℕ, ◌≡◌, ◌≢◌, sym, inl, inr, List, ◌∷◌, ◌++◌}
use xray_bridge.Config.{Settings}
use xray_bridge.Outcome.{done}
use xray_bridge.Nodes.Invariant.{start}
use xray_bridge.App.{Platform, Client, World, pure}
use xray_bridge.Routes.Serve.{dropped, handle, healthz, respond, serve}
use xray_bridge.Routes.Serve.Endpoints.{handle-Gated}
use xray_bridge.Nodes.Transparent.{node_context-Alike}
use xray_bridge.Routes.Serve.Stateless.{handle-client}
use xray_bridge.Routes.Serve.Totality.{respond-Returns}
use xray_bridge.Routes.Serve.Flight.{Arrival, InFlight, finishes, finish, Reach, step}
use xray_bridge.Routes.Serve.Interleaving.{All-pick, HasOwnClient, Reach-Inv}

module _ (p : Platform) (settings : Settings) where
  -- The rest of a handler does what a server does that is started anew for this one request.
  finish-serve :
      {n : ℕ} (f : InFlight p) (w : World p)
      → f.endpoint ≢ healthz
      → HasOwnClient p settings n f
      → (respond p.unicode (handle p settings f.headers (pure p f.client) f.endpoint w).0
          ≡ (serve p settings f.headers f.endpoint (record w { pool = p.lru.new n })).0)
        × ((finish p settings f w).sent
            ≡ (serve p settings f.headers f.endpoint (record w { pool = p.lru.new n })).1.sent)
  unfolding serve
  finish-serve {n} f w other (then, r, got) =
      elim (node_context-Alike p.transport p.lru p.http f.headers then.pool (p.lru.new n) r start) [
        | inr (e, failed, _) ↦ cc (failed, got)
        | inl (client, label, got', fresh) ↦
            let same : client ≡ f.client = cc (got', got) in
            let fresh' = fresh ∙ ap (λ (x : Client p). done (record x { name = label })) same in
            let run =
              handle-client p settings f.headers f.endpoint w (p.lru.new n) f.client label other
                fresh' in
            (ap (λ r. respond p.unicode r.0) (sym run), ap (λ r. r.1.sent) (sym run))
      ]

  -- Whatever the others have done since it got its client, a waiting request can go on, it is
  -- answered, and its answer and the RPC that it sends are those of a server that is started anew
  -- and serves this request alone at that moment.
  pub Reach-answers :
      {n : ℕ} {w : World p} {asked : List Arrival} (before : List (InFlight p)) (f : InFlight p)
      (after : List (InFlight p))
      → Reach p settings n (record { world = w; asked = asked; waiting = before ++ f ∷ after })
      → Reach p settings n
          (record { world = finish p settings f w; asked = asked; waiting = before ++ after })
        × (respond p.unicode (handle p settings f.headers (pure p f.client) f.endpoint w).0
            ≢ dropped)
        × (respond p.unicode (handle p settings f.headers (pure p f.client) f.endpoint w).0
            ≡ (serve p settings f.headers f.endpoint (record w { pool = p.lru.new n })).0)
        × ((finish p settings f w).sent
            ≡ (serve p settings f.headers f.endpoint (record w { pool = p.lru.new n })).1.sent)
  Reach-answers {w = w} {asked = asked} before f after r =
      let ((came, other, own), rest) = All-pick _ before f after (Reach-Inv p settings r).clients in
      let (same, sent) = finish-serve f w other own in
      (
        step r (finishes w asked before f after),
        respond-Returns p.unicode (handle p settings f.headers (pure p f.client) f.endpoint w).0
            ((handle-Gated p settings f.headers f.endpoint other).calls f.client w).1,
        same,
        sent,
      )
