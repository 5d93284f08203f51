-- ===== src/Main/Transcript.antt =====
-- What passes between the callers, the server and the nodes in a run: an exchange for each request.
use xray_bridge.Prelude.{subst, sym, ◌≡◌, ◌⊎◌, refl, inl, inr, true, ℕ, List, [], ◌∷◌, ◌++◌}
use xray_bridge.Json.{bool, object! }
use xray_bridge.Error.{status_ok}
use xray_bridge.Config.{Settings}
use xray_bridge.Auth.Laws.{Grants}
use xray_bridge.Grpc.{Rpc, Sent}
use xray_bridge.App.{Platform, World, outgoing}
use xray_bridge.Routes.Extract.{answer}
use xray_bridge.Routes.Serve.{Endpoint, Answer, answered, rejected, healthz, serve, handle, respond}
use xray_bridge.Routes.Serve.Laws.{
  IsRefusal, Served, Served-Reachable, Delivers, Delivers-client, endpoint-cases,
}
use xray_bridge.Routes.Serve.Talk.Spec.{Asks}
use xray_bridge.Nodes.Invariant.{start}
use xray_bridge.Nodes.Transparent.{node_context-Alike}
use xray_bridge.Routes.Serve.Talk.Laws.{IsServable, Reflects, serve-Reflects}
use xray_bridge.Routes.Router.{Axum, Request, endpoint, dispatch, for_method, serve_request}
use xray_bridge.Routes.Router.Guard.{for_method-rejected}
use xray_bridge.Routes.Router.Table.{Routed-cases}

module _ (p : Platform) (a : Axum) (settings : Settings) (n : ℕ) where
  abbrev Calls : Type 0
  Calls = List (Sent p.transport.Channel)

  -- The one RPC of a request: the request carries the bridge's token, its headers name the node that
  -- the RPC goes to and the token that it carries, the endpoint that the request was sent to asks for
  -- it, and the node's reply, which may depend on all RPCs before, decides the answer.
  pub record IsOrdered (r : Request) (before : Calls) (call : Sent p.transport.Channel)
      (reply : Answer) : Type 0 where
    pub grants : Grants settings r.headers
    pub delivers : Delivers p settings r.headers call
    pub e : Endpoint
    pub found : dispatch a r ≡ endpoint e
    pub asks : Asks p e call.rpc
    pub reflects : Reflects p settings r.headers e call.rpc (p.nodes before call) reply

  -- A request that could be served by a server that is started anew: it is sent to an endpoint, and it
  -- has all that an RPC needs.
  abbrev pub IsComplete : Request → Type 0
  IsComplete r =
      (e : Endpoint) × (dispatch a r ≡ endpoint e)
      × IsServable p settings r.headers e (record { pool = p.lru.new n; sent = [] })

  -- A request that sends nothing is not complete, and it is answered with an error; or it is the
  -- health check.
  abbrev pub IsQuiet : Request → Answer → Type 0
  IsQuiet r reply =
      (IsRefusal p.unicode reply × ¬ IsComplete r)
      ⊎ ((dispatch a r ≡ endpoint healthz)
          × (reply ≡ answered (answer status_ok (object! (("ok", bool true) ∷ [])))))

  -- A request and its answer, with the RPCs that were sent before and after.
  abbrev pub Exchange : Calls → Request → Answer → Calls → Type 0
  Exchange before r given after =
      (reply : Answer) × (given ≡ for_method r.method reply)
      × (((after ≡ before) × IsQuiet r reply)
          ⊎ ((call : Sent p.transport.Channel) × (after ≡ before ++ call ∷ [])
              × IsOrdered r before call reply))

  pub data Transcript : Calls → List Request → List Answer → Calls → Type 0 where
    finished : {calls : Calls} → Transcript calls [] [] calls
    next :
        {before middle after : Calls} {r : Request} {given : Answer} {requests : List Request}
        {answers : List Answer}
        → Exchange before r given middle
        → Transcript middle requests answers after
        → Transcript before (r ∷ requests) (given ∷ answers) after

  -- The pool does not matter to whether a request can be served.
  IsComplete-IsServable :
      {w : World p} (r : Request) {e : Endpoint}
      → Served p settings n w
      → dispatch a r ≡ endpoint e
      → IsComplete r
      → IsServable p settings r.headers e w
  IsComplete-IsServable {w} r {e} s found (e', found', (g, (client, got), asked)) =
      let same : e' ≡ e = cc (found, found') in
      elim (node_context-Alike p.transport p.lru p.http r.headers w.pool (p.lru.new n)
        (Served-Reachable p settings s) start) [
          | inr (error, failed, failed') ↦ cc (failed', got)
          | inl (c, label, held, fresh) ↦
              (g, (c, held), subst (λ x. (rpc : Rpc) × Asks p x rpc) same asked)
        ]

  pub serve_request-Exchange :
      {w : World p} (r : Request)
      → Served p settings n w
      → Exchange w.sent r (serve_request p a settings r w).0 (serve_request p a settings r w).1.sent
  unfolding serve_request serve handle respond
  serve_request-Exchange {w = w} r s = elim (Routed-cases (dispatch a r)) [
    | inr (inl missing) ↦
        rw (missing, serve_request)
          (
            rejected 404,
            for_method-rejected r.method 404,
            inl (refl, inl (inr (404, refl), λ (e, found, x). cc (missing, found))),
          )
    | inr (inr refused) ↦
        rw (refused, serve_request)
          (
            rejected 405,
            for_method-rejected r.method 405,
            inl (refl, inl (inr (405, refl), λ (e, found, x). cc (refused, found))),
          )
    | inl (e, found) ↦ elim (endpoint-cases e) [
      | inl health ↦
          rw (found, serve_request, health, serve, handle, respond)
            (_, refl, inl (refl, inr (cc (found, health), refl)))
      | inr proper ↦
          let run : serve_request p a settings r w ≡ (
            for_method r.method (serve p settings r.headers e w).0,
            (serve p settings r.headers e w).1,
          ) =
            rw (found, serve_request) refl in
          subst (λ x. Exchange w.sent r x.0 x.1.sent) (sym run)
            (
              (serve p settings r.headers e w).0,
              refl,
              elim (serve-Reflects p settings r.headers e w proper) [
                | inl (same, refusal, lacking) ↦
                    inl (same, inl (refusal, λ x. lacking (IsComplete-IsServable r s found x)))
                | inr (granted, client, rpc, got, asked, one, mirrored) ↦ inr (
                  outgoing p client rpc,
                  one,
                  record {
                    grants = granted;
                    delivers =
                        Delivers-client p settings w r.headers client rpc
                          (Served-Reachable p settings s) got;
                    e = e;
                    found = found;
                    asks = asked;
                    reflects = mirrored;
                  },
                )
              ],
            )
    ]
  ]
