-- ===== src/Tests/Flight.antt =====
-- Two requests in flight on sample services.
use xray_bridge.Prelude.{List, ◌≡◌, ◌≢◌, ◌≤◌, refl, none, [], ◌∷◌, All}
use xray_bridge.Text.{utf8, str_eq, contains, is_empty}
use xray_bridge.Text.Number.{show, parse_u16}
use xray_bridge.Extern.Lru.{find, promote, remove}
use xray_bridge.Outcome.{done}
use xray_bridge.Nodes.{
  Key-discrete, nonempty_text, node_context, get_or_create, open_channel, uri_text, header_port,
}
use xray_bridge.App.{Client, World, pure}
use xray_bridge.Routes.Serve.Guarded.{context, entered}
use xray_bridge.Routes.Serve.Flight.{Arrival, InFlight, Reach, boot, step, enters, finishes, finish}
use xray_bridge.Routes.Serve.Interleaving.{IsNamed, Reach-safe}
use xray_bridge.Routes.Serve.Progress.{Reach-answers}
use xray_bridge.Nodes.Assoc.{Distinct}
use xray_bridge.Routes.Serve.{get_users, healthz, serve, handle, respond, dropped}
use xray_bridge.Tests.Sample.{text_of, sample, settings, caller, stranger, fresh_world}

abbrev pub caller_client : Client sample
caller_client = record {
  channel = uri_text sample.transport (utf8 "a.example") 8443;
  token = utf8 "t1";
  name = none;
}

abbrev stranger_client : Client sample
stranger_client = record {
  channel = uri_text sample.transport (utf8 "b.example") 443;
  token = utf8 "t2";
  name = none;
}

pub caller_enters : (context sample settings caller fresh_world).0 ≡ done caller_client
unfolding node_context get_or_create open_channel uri_text header_port find promote remove utf8 show
    nonempty_text text_of parse_u16 str_eq contains is_empty xray_bridge.Text.starts_with
    xray_bridge.Nodes.Key-discrete xray_bridge.Prelude.ℕ_discrete
caller_enters = refl

stranger_enters :
    (context sample settings stranger (entered sample settings caller fresh_world)).0
    ≡ done stranger_client
unfolding node_context get_or_create open_channel uri_text header_port find promote remove utf8 show
    nonempty_text text_of parse_u16 str_eq contains is_empty xray_bridge.Text.starts_with
    xray_bridge.Nodes.Key-discrete xray_bridge.Prelude.ℕ_discrete
stranger_enters = refl

users-ne-health : get_users ≢ healthz
users-ne-health h = cc

abbrev asked : InFlight sample
asked = record { headers = caller; endpoint = get_users; client = caller_client }

abbrev guessed : InFlight sample
guessed = record { headers = stranger; endpoint = get_users; client = stranger_client }

abbrev both_world : World sample
both_world = entered sample settings stranger (entered sample settings caller fresh_world)

abbrev arrivals : List Arrival
arrivals = (stranger, get_users) ∷ (caller, get_users) ∷ []

-- Both requests have their clients; the second one has pushed the first one's place back.
both_wait :
    Reach sample settings 2
      (record { world = both_world; asked = arrivals; waiting = guessed ∷ asked ∷ [] })
both_wait =
    step
      (step boot (
        enters (record { world = fresh_world; asked = []; waiting = [] }) caller get_users
          caller_client users-ne-health caller_enters))
      (enters
        (record {
          world = entered sample settings caller fresh_world;
          asked = (caller, get_users) ∷ [];
          waiting = asked ∷ [];
        })
        stranger get_users stranger_client users-ne-health stranger_enters)

abbrev first_answered : World sample
first_answered = finish sample settings asked both_world

-- The first one is answered before the second.
one_waits :
    Reach sample settings 2
      (record { world = first_answered; asked = arrivals; waiting = guessed ∷ [] })
one_waits = step both_wait (finishes both_world arrivals (guessed ∷ []) asked [])

Reach-safe_example :
    (sample.lru.len first_answered.pool ≤ 2)
    × Distinct Key-discrete (sample.lru.iter first_answered.pool)
    × All (IsNamed sample settings arrivals) first_answered.sent
Reach-safe_example = Reach-safe sample settings one_waits

Reach-answers_example :
    Reach sample settings 2
      (record { world = first_answered; asked = arrivals; waiting = guessed ∷ [] })
    × (respond sample.unicode
          (handle sample settings caller (pure sample caller_client) get_users both_world).0
        ≢ dropped)
    × (respond sample.unicode
          (handle sample settings caller (pure sample caller_client) get_users both_world).0
        ≡ (serve sample settings caller get_users
            (record both_world { pool = sample.lru.new 2 })).0)
    × (first_answered.sent
        ≡ (serve sample settings caller get_users
            (record both_world { pool = sample.lru.new 2 })).1.sent)
Reach-answers_example = Reach-answers sample settings (guessed ∷ []) asked [] both_wait
