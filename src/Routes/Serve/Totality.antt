-- ===== src/Routes/Serve/Totality.antt =====
-- Every request is answered.
use xray_bridge.Prelude.{◌≢◌, inl, inr}
use xray_bridge.Config.{Settings}
use xray_bridge.Error.{Response}
use xray_bridge.Outcome.{Outcome, done, fail, reject, panic}
use xray_bridge.Extern.Http.{Headers}
use xray_bridge.Extern.Unicode.{Unicode}
use xray_bridge.App.{Platform, World}
use xray_bridge.Routes.Serve.{Endpoint, handle, dropped, respond, serve}
use xray_bridge.Routes.Serve.Effects.{Returns}
use xray_bridge.Routes.Serve.Context.{handle-Guarded}
use xray_bridge.Routes.Serve.Laws.{endpoint-cases}
use xray_bridge.Routes.Extract.{node}

pub respond-Returns : (u : Unicode) (r : Outcome Response) → Returns r → respond u r ≢ dropped
unfolding respond
respond-Returns u (done response) h e = cc
respond-Returns u (fail e) h k = cc
respond-Returns u (reject status) h e = cc
respond-Returns u panic h e = absurd h

module _ (p : Platform) (settings : Settings) where
  -- Every request is answered: whatever the headers, the endpoint and the state are, no handler
  -- panics.
  pub serve-answers :
      (headers : Headers) (e : Endpoint) (w : World p) → (serve p settings headers e w).0 ≢ dropped
  unfolding serve handle
  serve-answers headers e w = elim (endpoint-cases e) [
    | inl health ↦ rw (health, handle) (respond-Returns p.unicode (done _) tt)
    | inr other ↦
        respond-Returns p.unicode (handle p settings headers (node p headers) e w).0
          ((handle-Guarded p settings headers e other).returns w)
  ]
