-- ===== src/Main.antt =====
-- src/main.rs: the start of the program and the run that follows it. The binding of the socket is
-- the system's, and so are the environment, as `dotenv` leaves it, and the requests.
pub mod Transcript
pub mod Runs
use xray_bridge.Prelude.{ℕ, Option, Result, ok, err, List, [], ◌∷◌}
use xray_bridge.Text.{Str, utf8}
use xray_bridge.Config.{Settings, from_env}
use xray_bridge.Outcome.{Outcome, done, fail, reject, panic}
use xray_bridge.Nodes.{default_max_entries, new}
use xray_bridge.App.{Platform, World}
use xray_bridge.Routes.Serve.{Answer}
use xray_bridge.Routes.Router.{Axum, Request, serve_request}

-- `AppState`: the settings, and the state of the server.
pub record AppState (p : Platform) : Type 0 where
  pub settings : Settings
  pub world : World p

-- How the program ends: with the error that `main` returns, with a panic, or, when the stream of
-- requests does, with what it has answered.
pub data Exit (p : Platform) : Type 0 where
  failed : Str → Exit p
  panicked : Exit p
  served : List Answer → World p → Exit p

module _ (p : Platform) where
  -- `AppState::new`
  unfoldable pub app_state : Settings → Outcome (AppState p)
  app_state settings = elim (new p.transport p.lru default_max_entries) [
    | done cache ↦ done (record { settings = settings; world = record { pool = cache; sent = [] } })
    | fail e ↦ fail e
    | reject status ↦ reject status
    | panic ↦ panic
  ]

  -- `axum::serve`, for requests that are handled one after the other.
  unfoldable pub serve_all : Axum → Settings → List Request → World p → List Answer × World p
  serve_all a settings [] w = ([], w)
  serve_all a settings (request ∷ requests) w =
      let (answer, w') = serve_request p a settings request w in
      let (answers, w'') = serve_all a settings requests w' in (answer ∷ answers, w'')

  -- `Settings::from_env()?`, the state, the socket on the port of the settings, and the run.
  unfoldable pub main :
      Axum → (var : Str → Option Str) → (bind : ℕ → Result (Unit {0}) Str) → List Request → Exit p
  main a var bind requests = elim (from_env var) [
    | err e ↦ failed e
    | ok settings ↦ elim (app_state settings) [
      | done state ↦ elim (bind settings.port) [
        | err e ↦ failed e
        | ok _ ↦
            let (answers, w) = serve_all a state.settings requests state.world in served answers w
      ]
      | _ ↦ panicked
    ]
  ]
