-- ===== src/Routes/Serve/Flight.antt =====
-- Requests that are in flight together. A request takes its client from the pool under the lock, and
-- later, when other requests may have used the pool, it runs the rest of its handler. The health
-- check touches no state and is left out.
use xray_bridge.Prelude.{ℕ, ◌≡◌, ◌≢◌, List, [], ◌∷◌, ◌++◌}
use xray_bridge.Config.{Settings}
use xray_bridge.Extern.Http.{Headers}
use xray_bridge.Outcome.{done}
use xray_bridge.App.{Platform, Client, World, pure}
use xray_bridge.Routes.Serve.{Endpoint, handle, healthz}
use xray_bridge.Routes.Serve.Guarded.{context, entered}

-- What a request brings.
abbrev pub Arrival : Type 0
Arrival = Headers × Endpoint

module _ (p : Platform) where
  -- A request that has its client, and has not been answered yet.
  pub record InFlight : Type 0 where
    pub headers : Headers
    pub endpoint : Endpoint
    pub client : Client p

  pub record Server : Type 0 where
    pub world : World p
    -- the requests that have come, the last one first
    pub asked : List Arrival
    pub waiting : List InFlight

  module _ (settings : Settings) where
    -- The rest of a request's handler.
    abbrev pub finish : InFlight → World p → World p
    finish f w = (handle p settings f.headers (pure p f.client) f.endpoint w).1

    pub data Step : Server → Server → Type 0 where
      -- a request arrives and gets its client
      enters :
          (s : Server) (headers : Headers) (e : Endpoint) (client : Client p)
          → e ≢ healthz
          → (context p settings headers s.world).0 ≡ done client
          → Step s (record {
            world = entered p settings headers s.world;
            asked = (headers, e) ∷ s.asked;
            waiting = record { headers = headers; endpoint = e; client = client } ∷ s.waiting;
          })
      -- a request arrives and is answered with the extractor's error, or its caller gives it up
      fails :
          (s : Server) (headers : Headers) (e : Endpoint)
          → Step s (record s {
            world = entered p settings headers s.world;
            asked = (headers, e) ∷ s.asked;
          })
      -- any of the waiting requests goes on
      finishes :
          (w : World p) (asked : List Arrival) (before : List InFlight) (f : InFlight)
          (after : List InFlight)
          → Step
              (record { world = w; asked = asked; waiting = before ++ f ∷ after })
              (record { world = finish f w; asked = asked; waiting = before ++ after })
      -- the caller of a waiting request gives it up
      leaves :
          (w : World p) (asked : List Arrival) (before : List InFlight) (f : InFlight)
          (after : List InFlight)
          → Step
              (record { world = w; asked = asked; waiting = before ++ f ∷ after })
              (record { world = w; asked = asked; waiting = before ++ after })

    pub data Reach (n : ℕ) : Server → Type 0 where
      boot :
          Reach n
            (record { world = record { pool = p.lru.new n; sent = [] }; asked = []; waiting = [] })
      step : {s t : Server} → Reach n s → Step s t → Reach n t
