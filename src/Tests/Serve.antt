-- ===== src/Tests/Serve.antt =====
-- Whole requests on sample services.
use xray_bridge.Prelude.{◌≡◌, ◌≢◌, ◌⊎◌, refl, [], ◌∷◌, ◌++◌}
use xray_bridge.Text.{Str, utf8, str_eq, ascii_lower}
use xray_bridge.Grpc.{Rpc, Sent}
use xray_bridge.Nodes.{node_context}
use xray_bridge.App.{outgoing, Client, World}
use xray_bridge.Auth.Laws.{Grants}
use xray_bridge.Auth.Scheme.{scheme_unique}
use xray_bridge.Routes.Serve.{dropped, get_users, healthz, serve}
use xray_bridge.Routes.Serve.Laws.{
  IsRefusal, Served, boot, request, Delivers, serve-sends, serve-pool, serve-Reachable,
}
use xray_bridge.Tests.Sample.{
  reply_to, unicode, http, transport, lru, sample, settings, caller, stranger, fresh_world,
}
use xray_bridge.Routes.Serve.Stateless.{run, stateless_run, run-stateless}
use xray_bridge.Nodes.Invariant.{start}
use xray_bridge.Routes.Serve.Talk.Spec.{Asks}
use xray_bridge.Routes.Serve.Talk.Laws.{IsServable, Reflects, serve-Reflects}
use xray_bridge.Routes.Serve.Guarded.{context}
use xray_bridge.Outcome.{done}
use xray_bridge.Routes.Serve.Totality.{serve-answers}

-- The state after the caller's first request.
abbrev after_one : World sample
after_one = (serve sample settings caller get_users fresh_world).1

Served-after_one : Served sample settings 2 after_one
Served-after_one = request caller get_users boot

serve-sends_example :
    ((serve sample settings caller get_users after_one).1.sent ≡ after_one.sent)
    ⊎ (Grants settings caller
        × (call : Sent Str) × Delivers sample settings caller call
        × ((serve sample settings caller get_users after_one).1.sent ≡ after_one.sent ++ call ∷ []))
serve-sends_example = serve-sends sample settings caller get_users Served-after_one

get_users-ne-healthz : get_users ≢ healthz
get_users-ne-healthz h = cc

stranger_header : (g : Grants settings stranger) → utf8 "Bearer guess" ≡ g.scheme ++ utf8 "s3cret"
unfolding utf8 str_eq
stranger_header g = cc (g.header)

differ : utf8 "guess" ≢ utf8 "s3cret"
unfolding utf8
differ h = cc

pub stranger_denied : ¬ Grants settings stranger
unfolding utf8 ascii_lower
stranger_denied g =
    let same : utf8 "Bearer guess" ≡ g.scheme ++ utf8 "s3cret" = stranger_header g in
    differ
      (scheme_unique (utf8 "Bearer ") g.scheme (utf8 "guess") (utf8 "s3cret") refl g.is_scheme same)

serve-pool_example :
    (serve sample settings stranger get_users after_one).1.pool
    ≡ (node_context transport lru http stranger after_one.pool).1
serve-pool_example = serve-pool sample settings stranger get_users after_one get_users-ne-healthz

serve-answers_example : (serve sample settings stranger get_users after_one).0 ≢ dropped
serve-answers_example = serve-answers sample settings stranger get_users after_one

run-stateless_example :
    ((run sample settings ((caller, get_users) ∷ (stranger, get_users) ∷ []) after_one).0
      ≡ (stateless_run sample settings 2
          ((caller, get_users) ∷ (stranger, get_users) ∷ [])
          after_one.sent).0)
    × ((run sample settings ((caller, get_users) ∷ (stranger, get_users) ∷ []) after_one).1.sent
        ≡ (stateless_run sample settings 2
            ((caller, get_users) ∷ (stranger, get_users) ∷ [])
            after_one.sent).1)
run-stateless_example =
    run-stateless sample settings ((caller, get_users) ∷ (stranger, get_users) ∷ []) after_one
      (serve-Reachable sample settings caller get_users fresh_world start)

serve-Reflects_example :
    (((serve sample settings caller get_users after_one).1.sent ≡ after_one.sent)
      × IsRefusal unicode (serve sample settings caller get_users after_one).0
      × ¬ IsServable sample settings caller get_users after_one)
    ⊎ (Grants settings caller
        × (client : Client sample) × (rpc : Rpc) × ((context sample settings caller after_one).0
            ≡ done client)
        × Asks sample get_users rpc
        × ((serve sample settings caller get_users after_one).1.sent
            ≡ after_one.sent ++ outgoing sample client rpc ∷ [])
        × Reflects sample settings caller get_users rpc
            (reply_to rpc)
            (serve sample settings caller get_users after_one).0)
serve-Reflects_example =
    serve-Reflects sample settings caller get_users after_one get_users-ne-healthz
