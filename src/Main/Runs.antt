-- ===== src/Main/Runs.antt =====
-- What a run of the whole program does.
use xray_bridge.Prelude.{
  Bool-cases, suc, ℕ, ◌≡◌, ◌≢◌, ◌≤◌, refl, ap, inl, inr, Option, Result, ok, err, List, [], ◌∷◌,
  length, All, Result-cases,
}
use xray_bridge.Text.{Str}
use xray_bridge.Config.{Settings, from_env}
use xray_bridge.Nodes.{default_max_entries, new}
use xray_bridge.App.{Platform, World}
use xray_bridge.Routes.Serve.{rejected, headed, answered, Answer, dropped}
use xray_bridge.Routes.Serve.Laws.{Served, boot, request, Served-bounded}
use xray_bridge.Routes.Serve.Totality.{serve-answers}
use xray_bridge.Routes.Router.{
  head, method_eq, Method, bodiless, for_method, Axum, Request, dispatch, serve_request,
}
use xray_bridge.Routes.Router.Table.{Routed-cases}
use xray_bridge.Main.Transcript.{Transcript, finished, next, serve_request-Exchange}
use xray_bridge.Main.{Exit, failed, served, app_state, serve_all, main}

-- Without its body an answer is an answer still.
for_method_answers : (m : Method) (reply : Answer) → reply ≢ dropped → for_method m reply ≢ dropped
unfolding for_method bodiless
for_method_answers m dropped h = absurd (h refl)
for_method_answers m (answered response) h = elim (Bool-cases (method_eq m head)) [
  | inl same ↦ rw (same, for_method) (λ k. cc)
  | inr other ↦ rw (other, for_method) (λ k. cc)
]
for_method_answers m (headed status) h = elim (Bool-cases (method_eq m head)) [
  | inl same ↦ rw (same, for_method) (λ k. cc)
  | inr other ↦ rw (other, for_method) (λ k. cc)
]
for_method_answers m (rejected status) h = elim (Bool-cases (method_eq m head)) [
  | inl same ↦ rw (same, for_method) (λ k. cc)
  | inr other ↦ rw (other, for_method) (λ k. cc)
]

module _ (p : Platform) (a : Axum) (settings : Settings) where
  serve_request-Served :
      {n : ℕ} {w : World p} (r : Request)
      → Served p settings n w
      → Served p settings n (serve_request p a settings r w).1
        × ((serve_request p a settings r w).0 ≢ dropped)
  unfolding serve_request
  serve_request-Served {w = w} r s = elim (Routed-cases (dispatch a r)) [
    | inl (e, found) ↦
        rw (found, serve_request)
          (
            request r.headers e s,
            for_method_answers r.method _ (serve-answers p settings r.headers e w),
          )
    | inr (inl missing) ↦ rw (missing, serve_request) (s, λ h. cc)
    | inr (inr refused) ↦ rw (refused, serve_request) (s, λ h. cc)
  ]

  serve_all-Served :
      {n : ℕ} (requests : List Request) {w : World p}
      → Served p settings n w
      → Served p settings n (serve_all p a settings requests w).1
        × All (λ answer. answer ≢ dropped) (serve_all p a settings requests w).0
        × (length (serve_all p a settings requests w).0 ≡ length requests)
  unfolding serve_all
  serve_all-Served [] s = (s, tt, refl)
  serve_all-Served (r ∷ requests) s =
      let (later, replied) = serve_request-Served r s in
      let (last, others, same) = serve_all-Served requests later in
      (last, (replied, others), ap suc same)

  serve_all-Transcript :
      {n : ℕ} (requests : List Request) {w : World p}
      → Served p settings n w
      → Transcript p a settings n w.sent requests
          (serve_all p a settings requests w).0
          (serve_all p a settings requests w).1.sent
  unfolding serve_all
  serve_all-Transcript [] s = finished
  serve_all-Transcript (r ∷ requests) s =
      next (serve_request-Exchange p a settings _ r s)
        (serve_all-Transcript requests (serve_request-Served r s).0)

module _ (p : Platform) (a : Axum) (var : Str → Option Str) (bind : ℕ → Result (Unit {0}) Str)
    (requests : List Request) where
  -- The ways in which the program may end; a panic is none of them.
  pub data Runs : Exit p → Type 0 where
    misconfigured : {e : Str} → from_env var ≡ err e → Runs (failed e)
    unbound :
        {settings : Settings} {e : Str}
        → from_env var ≡ ok settings
        → bind settings.port ≡ err e
        → Runs (failed e)
    ran :
        {settings : Settings} {answers : List Answer} {w : World p}
        → from_env var ≡ ok settings
        → bind settings.port ≡ ok tt
        → length answers ≡ length requests
        → All (λ answer. answer ≢ dropped) answers
        → p.lru.len w.pool ≤ default_max_entries
        → Transcript p a settings default_max_entries [] requests answers w.sent
        → Runs (served answers w)

  -- The program ends with an error before it serves anything, when the settings cannot be loaded or
  -- their port cannot be bound; otherwise it answers every request, holds at most 256 clients, and
  -- leaves a transcript that gives each request its answer, in their order. There a request sends
  -- nothing, and it is the health check, or it lacks something that an RPC needs and is answered with
  -- an error; or it carries the bridge's token and sends one RPC, which its endpoint asks for, to the
  -- node and with the node token that its own headers name, and the node's reply is what its answer
  -- reflects.
  pub main-Runs : Runs (main p a var bind requests)
  unfolding main app_state new
  main-Runs = elim (Result-cases (from_env var)) [
    | inl (e, bad) ↦ rw (bad, main) (misconfigured bad)
    | inr (settings, good) ↦ elim (Result-cases (bind settings.port)) [
      | inl (e, taken) ↦ rw (good, main, taken) (unbound good taken)
      | inr (u, free) ↦
          let (last, replied, same) = serve_all-Served p a settings requests boot in
          rw (good, main, free)
            (ran good free same replied (Served-bounded p settings last).0
              (serve_all-Transcript p a settings requests boot))
    ]
  ]
