-- ===== src/Tests/Main.antt =====
-- The whole program on sample services.
use xray_bridge.Prelude.{
  refl, ◌⊎◌, ◌++◌, true, false, some, ℕ, ◌≡◌, ◌≢◌, ok, Option, Result, [], ◌∷◌,
}
use xray_bridge.Text.{Str, utf8}
use xray_bridge.Routes.Router.Reading.{is_query, resets, AsksReset, serve_request-reads}
use xray_bridge.Text.Split.{split}
use xray_bridge.Routes.Router.Paths.{is_known, serve_request-not_found}
use xray_bridge.Routes.Router.Answers.{serve_request-healthz}
use xray_bridge.Routes.Serve.{answered, rejected, Endpoint}
use xray_bridge.Routes.Extract.{answer}
use xray_bridge.Json.{bool, object! }
use xray_bridge.Routes.Router.{
  get, head, Request, for_method, serve_request, dispatch, method_not_allowed, endpoint,
}
use xray_bridge.Routes.Router.Guard.{health_route, serve_request-unauthorized}
use xray_bridge.Routes.Serve.{Answer}
use xray_bridge.Routes.Serve.Laws.{IsRefusal}
use xray_bridge.Grpc.{Rpc}
use xray_bridge.App.{Client, outgoing}
use xray_bridge.Main.{main}
use xray_bridge.Main.Runs.{Runs, main-Runs}
use xray_bridge.Tests.Sample.{unicode, sample, settings, stranger, fresh_world, headers_of}
use xray_bridge.Tests.Serve.{stranger_denied}
use xray_bridge.Tests.Router.{axum, removal}

-- The caller's removal of a user, by a stranger.
abbrev forged : Request
forged = record removal { headers = stranger }

not_health : forged.path ≢ health_route
unfolding utf8
not_health h = cc

serve_request-unauthorized_example :
    ((serve_request sample axum settings forged fresh_world).1.sent ≡ fresh_world.sent)
    × (reply : Answer) × IsRefusal unicode reply
    × ((serve_request sample axum settings forged fresh_world).0 ≡ for_method forged.method reply)
serve_request-unauthorized_example =
    serve_request-unauthorized sample axum settings forged fresh_world not_health stranger_denied

abbrev environment : Str → Option Str
environment = headers_of ((utf8 "BRIDGE_TOKEN", utf8 "s3cret") ∷ (utf8 "PORT", utf8 "8080") ∷ [])

abbrev bind : ℕ → Result (Unit {0}) Str
bind port = ok tt

main-Runs_example :
    Runs sample axum environment bind
      (removal ∷ forged ∷ [])
      (main sample axum environment bind (removal ∷ forged ∷ []))
main-Runs_example = main-Runs sample axum environment bind (removal ∷ forged ∷ [])

-- The caller's reading of a counter, with a query that asks for its reset.
abbrev reading : Request
reading = record removal {
  method = head;
  path = utf8 "/v1/stats/inbound>>>a>>>traffic>>>uplink";
  reset_fields = ok (some true);
}

serve_request-reads_example :
    ((serve_request sample axum settings reading fresh_world).1.sent ≡ fresh_world.sent)
    ⊎ ((client : Client sample) × (rpc : Rpc) × ((serve_request sample axum settings reading
            fresh_world).1.sent
          ≡ fresh_world.sent ++ outgoing sample client rpc ∷ [])
        × (is_query rpc ≡ true)
        × ((resets rpc ≡ false) ⊎ AsksReset reading))
serve_request-reads_example = serve_request-reads sample axum settings reading fresh_world refl

-- A stranger's look at the health of the bridge.
abbrev checkup : Request
checkup = record removal { method = get; path = health_route; headers = stranger }

serve_request-healthz_example : serve_request sample axum settings checkup fresh_world ≡ (
  for_method checkup.method (answered (answer 200 (object! (("ok", bool true) ∷ [])))),
  fresh_world,
)
serve_request-healthz_example =
    serve_request-healthz sample axum settings checkup fresh_world refl refl

-- A request to a user without a name.
abbrev lost : Request
lost = record removal { path = utf8 "/v1/users/" }

serve_request-not_found_example :
    ((is_known (split (utf8 "/") lost.path) ≡ false)
      × (serve_request sample axum settings lost fresh_world ≡ (rejected 404, fresh_world)))
    ⊎ ((is_known (split (utf8 "/") lost.path) ≡ true)
        × ((dispatch axum lost ≡ method_not_allowed)
            ⊎ ((e : Endpoint) × (dispatch axum lost ≡ endpoint e))))
serve_request-not_found_example = serve_request-not_found sample axum settings lost fresh_world
