-- ===== src/Routes/Router/Reading.antt =====
-- What requests by GET and HEAD may do to a node.
use xray_bridge.Prelude.{
  none, ap, ◌∙◌, sym, Result-cases, ◌≡◌, ◌⊎◌, refl, inl, inr, Bool, true, false, not, some, ok, err,
  Option, [], ◌∷◌, ◌++◌, unwrap_or, subst,
}
use xray_bridge.Config.{Settings}
use xray_bridge.Grpc.{Rpc}
use xray_bridge.App.{Platform, Client, World, outgoing}
use xray_bridge.Routes.Extract.{Extracted}
use xray_bridge.Routes.Body.{StatsFields, and_then_extract, reset_query, stats_query}
use xray_bridge.Routes.Stats
use xray_bridge.Routes.Serve.{handle, serve}
use xray_bridge.Routes.Serve.Talk.Spec.{Asks}
use xray_bridge.Routes.Serve.Talk.Laws.{serve-Reflects}
use xray_bridge.Text.{Str}
use xray_bridge.Routes.Router.{
  Axum, Request, Method, get, head, post, put, delete, other, Target, build_router, dispatch,
  serves, serve_request, method_eq, method_number,
}
use xray_bridge.Routes.Router.Table.{◌▸◌, AllRows, Routed-cases, dispatch-Sent}
use xray_bridge.Routes.Serve.Laws.{endpoint-cases}

-- The RPCs that change nothing at a node but its counters.
abbrev pub is_query : Rpc → Bool
is_query (Rpc.list_inbounds only_tags) = true
is_query Rpc.list_outbounds = true
is_query (Rpc.query_stats pattern reset) = true
is_query (Rpc.get_stats name reset) = true
is_query Rpc.get_sys_stats = true
is_query Rpc.get_all_online_users = true
is_query (Rpc.get_users_stats include_traffic reset) = true
is_query (Rpc.test_route context publish_result) = not publish_result
is_query Rpc.list_rule = true
is_query (Rpc.get_balancer_info tag) = true
is_query _ = false

-- The RPCs that set counters of a node back to zero.
abbrev pub resets : Rpc → Bool
resets (Rpc.query_stats pattern reset) = reset
resets (Rpc.get_stats name reset) = reset
resets (Rpc.get_users_stats include_traffic reset) = reset
resets _ = false

abbrev pub is_read : Method → Bool
is_read get = true
is_read head = true
is_read _ = false

-- The query of the request says that counters are to be reset.
abbrev pub AsksReset : Request → Type 0
AsksReset request =
    (request.reset_fields ≡ ok (some true))
    ⊎ ((given : StatsFields) × (request.stats_fields ≡ ok given) × (given.reset ≡ some true))

abbrev Harmless : Request → Rpc → Type 0
Harmless request rpc = (is_query rpc ≡ true) × ((resets rpc ≡ false) ⊎ AsksReset request)

-- Under GET and HEAD, an endpoint asks for no other RPC.
Reads : (p : Platform) → Str → Method → Target → Type 0
Reads p route m target =
    is_read m ≡ true
    → (request : Request) (name : Extracted Str) (rpc : Rpc) → Asks p (target request name) rpc
    → Harmless request rpc

unwrapped : (given : Option Bool) → (unwrap_or given false ≡ false) ⊎ (given ≡ some true)
unwrapped none = inl refl
unwrapped (some true) = inr refl
unwrapped (some false) = inl refl

reset-asked :
    (request : Request) (q : Stats.ResetQuery)
    → and_then_extract request.reset_fields reset_query ≡ ok q
    → (q.reset ≡ false) ⊎ AsksReset request
unfolding and_then_extract reset_query
reset-asked request q h = elim (Result-cases request.reset_fields) [
  | inl (status, bad) ↦
      let failed : and_then_extract request.reset_fields reset_query ≡ err status =
        rw (bad, and_then_extract) refl in
      cc (failed, h)
  | inr (given, good) ↦
      let read : and_then_extract request.reset_fields reset_query
          ≡ ok (record { reset = unwrap_or given false }) =
        rw (good, and_then_extract, reset_query) refl in
      let same : q.reset ≡ unwrap_or given false = cc (read, h) in
      elim (unwrapped given) [
        | inl still ↦ inl (same ∙ still)
        | inr asked ↦ inr (inl (good ∙ ap ok asked))
      ]
]

stats_reset-asked :
    (request : Request) (q : Stats.StatsQuery)
    → and_then_extract request.stats_fields stats_query ≡ ok q
    → (q.reset ≡ false) ⊎ AsksReset request
unfolding and_then_extract stats_query
stats_reset-asked request q h = elim (Result-cases request.stats_fields) [
  | inl (status, bad) ↦
      let failed : and_then_extract request.stats_fields stats_query ≡ err status =
        rw (bad, and_then_extract) refl in
      cc (failed, h)
  | inr (given, good) ↦
      let read : and_then_extract request.stats_fields stats_query
          ≡ ok (record {
            pattern = unwrap_or given.pattern [];
            reset = unwrap_or given.reset false;
          }) =
        rw (good, and_then_extract, stats_query) refl in
      let same : q.reset ≡ unwrap_or given.reset false = cc (read, h) in
      elim (unwrapped given.reset) [
        | inl still ↦ inl (same ∙ still)
        | inr asked ↦ inr (inr (given, good, asked))
      ]
]

serves_read :
    (asked given : Method) → is_read asked ≡ true → serves asked given ≡ true → is_read given ≡ true
unfolding serves method_eq method_number
serves_read asked get read h = refl
serves_read asked head read h = refl
serves_read get post read h = cc
serves_read head post read h = cc
serves_read get put read h = cc
serves_read head put read h = cc
serves_read get delete read h = cc
serves_read head delete read h = cc
serves_read get other read h = cc
serves_read head other read h = cc
serves_read post given read h = cc
serves_read put given read h = cc
serves_read delete given read h = cc
serves_read other given read h = cc

module _ (p : Platform) where
  -- An RPC that is a query, and resets nothing.
  plain :
      (request : Request) (rpc asked : Rpc)
      → rpc ≡ asked
      → is_query asked ≡ true
      → resets asked ≡ false
      → Harmless request rpc
  plain request rpc asked same query still = subst (Harmless request) (sym same) (query, inl still)

  routes-Reads : AllRows (Reads p) build_router
  unfolding build_router Reads method_number
  routes-Reads =
      (λ m r x rpc h. absurd h, tt)
      ▸ (λ m r x rpc h. plain r rpc _ h refl refl, tt)
      ▸ (λ m r x rpc h. plain r rpc _ h refl refl, tt)
      ▸ (λ m r x rpc h. plain r rpc _ h refl refl, tt)
      ▸ (λ m r x rpc (q, given, h). subst (Harmless r) (sym h) (refl, reset-asked r q given), tt)
      ▸ (
        λ m r x rpc (q, given, h). subst (Harmless r) (sym h) (refl, stats_reset-asked r q given),
        tt,
      )
      ▸ (
        λ m r x rpc (name, q, path, given, h).
            subst (Harmless r) (sym h) (refl, reset-asked r q given),
        tt,
      )
      ▸ (λ m r x rpc h. cc, tt)
      ▸ (λ m r x rpc h. cc, tt)
      ▸ (λ m r x rpc h. plain r rpc _ h refl refl, (λ m r x rpc h. cc, tt))
      ▸ (λ m r x rpc h. cc, tt)
      ▸ (λ m r x rpc h. plain r rpc _ h refl refl, (λ m r x rpc h. cc, tt))
      ▸ (λ m r x rpc h. cc, tt)
      ▸ (λ m r x rpc h. cc, tt)
      ▸ (λ m r x rpc h. cc, tt)
      ▸ (λ m r x rpc h. plain r rpc _ h refl refl, tt)
      ▸ (λ m r x rpc h. cc, tt)
      ▸ (λ m r x rpc (tag, path, h). plain r rpc _ h refl refl, (λ m r x rpc h. cc, tt))
      ▸ tt

  -- For every router that keeps to axum's documented behaviour, a request by GET or HEAD sends
  -- nothing, or exactly one RPC; it is a query, and it resets counters only if the request's query
  -- says so.
  pub serve_request-reads :
      (a : Axum) (settings : Settings) (request : Request) (w : World p)
      → is_read request.method ≡ true
      → ((serve_request p a settings request w).1.sent ≡ w.sent)
        ⊎ ((client : Client p) × (rpc : Rpc) × ((serve_request p a settings request w).1.sent
              ≡ w.sent ++ outgoing p client rpc ∷ [])
            × (is_query rpc ≡ true)
            × ((resets rpc ≡ false) ⊎ AsksReset request))
  unfolding serve_request serve handle Reads
  serve_request-reads a settings request w read = elim (Routed-cases (dispatch a request)) [
    | inr (inl missing) ↦ rw (missing, serve_request) (inl refl)
    | inr (inr refused) ↦ rw (refused, serve_request) (inl refl)
    | inl (e, found) ↦ elim (endpoint-cases e) [
      | inl health ↦ rw (found, serve_request, health, serve, handle) (inl refl)
      | inr proper ↦
          let row = dispatch-Sent (Reads p) a request e routes-Reads found in
          let reading = serves_read request.method row.method read row.answers in
          rw (found, serve_request)
            (elim (serve-Reflects p settings request.headers e w proper) [
              | inl (same, refused, lacking) ↦ inl same
              | inr (grants, client, rpc, got, asked, one, reflects) ↦
                  let (query, still) =
                    row.holds reading request row.name rpc
                      (subst (λ e. Asks p e rpc) (sym row.is_target) asked) in
                  inr (client, rpc, one, query, still)
            ])
    ]
  ]
