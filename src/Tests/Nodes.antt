-- ===== src/Tests/Nodes.antt =====
-- The pool of src/nodes.rs on sample calls.
use xray_bridge.Prelude.{
  ◌++◌, All, ◌≡◌, ◌≢◌, ◌<◌, ◌⊎◌, refl, sym, if_neg, none, some, List, [], ◌∷◌, ite, arith, ok,
}
use xray_bridge.Text.{Str, utf8}
use xray_bridge.Text.Number.{parse_u16, show}
use xray_bridge.Outcome.{done}
use xray_bridge.Extern.Lru.{find, promote, remove}
use xray_bridge.Nodes.{
  Key, Key-discrete, XrayClient, get_or_create, open_channel, displaced, node_context, header_port,
  uri_text,
}
use xray_bridge.Nodes.Invariant.{Reachable, start, call, Reachable-IsValid}
use xray_bridge.Nodes.Isolation.{get_or_create-isolated, get_or_create-total, FailsCleanly}
use xray_bridge.Nodes.Eviction.{Key-option-discrete, get_or_create-displaces}
use xray_bridge.Nodes.Context.{Resolves, node_context-Resolves}
use xray_bridge.Nodes.Recency.{Call, calls, get_or_create-survives}
use xray_bridge.Nodes.First.{get_or_create-settles}
use xray_bridge.Nodes.Port.{LacksPort, header_port-cases}
use xray_bridge.Tests.Sample.{http, transport, lru, caller}
use xray_bridge.Extern.Http.{IsVisible}

abbrev node_a : Str
node_a = utf8 "a.example"

abbrev node_b : Str
node_b = utf8 "b.example"

-- The pool after one call for node a.
abbrev pool_a : lru.Cache
pool_a = (get_or_create transport lru (lru.new 1) node_a 443 (utf8 "t1") none).1

Reachable-pool_a : Reachable transport lru 1 pool_a
Reachable-pool_a = call node_a 443 (utf8 "t1") none start

abbrev client_a : XrayClient Str
client_a = record { channel = uri_text transport node_a 443; token = utf8 "t1"; name = none }

first_call :
    get_or_create transport lru (lru.new 1) node_a 443 (utf8 "t1") none ≡ (done client_a, pool_a)
unfolding get_or_create open_channel find promote remove utf8 uri_text show
    xray_bridge.Text.contains
first_call = refl

get_or_create-isolated_example :
    (client_a.token ≡ utf8 "t1") × (open_channel transport node_a 443 ≡ ok client_a.channel)
get_or_create-isolated_example =
    get_or_create-isolated transport lru node_a 443 (utf8 "t1") none start first_call

get_or_create-total_example :
    ((client : XrayClient Str) × ((get_or_create transport lru pool_a
          (utf8 "a b")
          443
          (utf8 "t1")
          none).0
        ≡ done client))
    ⊎ FailsCleanly transport lru pool_a
        (get_or_create transport lru pool_a (utf8 "a b") 443 (utf8 "t1") none)
get_or_create-total_example =
    get_or_create-total transport lru pool_a (utf8 "a b") 443 (utf8 "t1") none

node_context-Resolves_example :
    Resolves http caller transport lru pool_a (node_context transport lru http caller pool_a)
node_context-Resolves_example = node_context-Resolves http caller transport lru pool_a

header_port-cases_example :
    ((LacksPort http caller × (header_port http caller ≡ 443))
      ⊎ ((v : Str) × (caller (utf8 "x-node-port") ≡ some v)
          × All IsVisible v
          × (parse_u16 v ≡ some (header_port http caller))))
    × (header_port http caller < 65536)
header_port-cases_example = header_port-cases http caller

abbrev key_a : Key
key_a = (node_a, 443, utf8 "t1")

abbrev key_b : Key
key_b = (node_b, 443, utf8 "t2")

a-ne-b : key_a ≢ key_b
unfolding utf8
a-ne-b h = ground (arith, h)

b-ne-a : key_b ≢ key_a
b-ne-a h = a-ne-b (sym h)

b_missing : find Key-discrete key_b pool_a.1 ≡ none
unfolding get_or_create open_channel find promote remove utf8 uri_text show
    xray_bridge.Text.contains
b_missing = if_neg (Key-discrete key_b key_a) b-ne-a _ _

b_opens : open_channel transport node_b 443 ≡ ok (uri_text transport node_b 443)
unfolding open_channel utf8 uri_text show xray_bridge.Text.contains
b_opens = refl

a_room : 0 < lru.cap pool_a
unfolding get_or_create open_channel find promote remove utf8 uri_text show
    xray_bridge.Text.contains
a_room = ground arith

get_or_create-displaces_example :
    find Key-discrete key_a
      (lru.iter (get_or_create transport lru pool_a node_b 443 (utf8 "t2") none).1)
    ≡ ite
        (Key-option-discrete (displaced transport lru pool_a) (some key_a))
        none
        (find Key-discrete key_a (lru.iter pool_a))
get_or_create-displaces_example =
    get_or_create-displaces transport lru pool_a node_b 443 (utf8 "t2") none key_a
      (Reachable-IsValid transport lru Reachable-pool_a) a_room b_missing b_opens a-ne-b

-- The log names node a's client as displaced.
a_displaced : displaced transport lru pool_a ≡ some key_a
unfolding displaced get_or_create open_channel find promote remove utf8 uri_text show
    xray_bridge.Text.contains
a_displaced = refl

-- Two calls that follow, one for another node and one that fails.
abbrev later_calls : List Call
later_calls =
    record { domain = node_b; port = 443; token = utf8 "t2"; name = none }
    ∷ record { domain = utf8 "a b"; port = 443; token = utf8 "t1"; name = none }
    ∷ []

first_of_three :
    get_or_create transport lru (lru.new 3) node_a 443 (utf8 "t1") none
    ≡ (done client_a, (get_or_create transport lru (lru.new 3) node_a 443 (utf8 "t1") none).1)
unfolding get_or_create open_channel find promote remove utf8 uri_text show
    xray_bridge.Text.contains
first_of_three = refl

get_or_create-survives_example :
    (get_or_create transport lru
      (calls transport lru later_calls
        (get_or_create transport lru (lru.new 3) node_a 443 (utf8 "t1") none).1)
      node_a
      443
      (utf8 "t1")
      none).0
    ≡ done client_a
get_or_create-survives_example =
    get_or_create-survives transport lru (lru.new 3) node_a 443 (utf8 "t1") none later_calls none
      (ground arith) first_of_three

node_a_uri :
    transport.parse_uri (utf8 "https://" ++ (node_a ++ (utf8 ":" ++ show 443)))
    ≡ ok (utf8 "https://a.example:443")
unfolding utf8 show xray_bridge.Text.contains
node_a_uri = refl

-- The first caller's client is labelled amy, and the third caller's label bob is not used.
get_or_create-settles_example :
    ((get_or_create transport lru (lru.new 3) node_a 443 (utf8 "t1") (some (utf8 "amy"))).0
      ≡ done (record {
        channel = utf8 "https://a.example:443";
        token = utf8 "t1";
        name = some (utf8 "amy");
      }))
    × ((get_or_create transport lru
          (calls transport lru later_calls
            (get_or_create transport lru (lru.new 3) node_a 443 (utf8 "t1") (some (utf8 "amy"))).1)
          node_a
          443
          (utf8 "t1")
          (some (utf8 "bob"))).0
        ≡ done (record {
          channel = utf8 "https://a.example:443";
          token = utf8 "t1";
          name = some (utf8 "amy");
        }))
unfolding find
get_or_create-settles_example =
    get_or_create-settles transport lru (lru.new 3) node_a 443 (utf8 "t1") (some (utf8 "amy"))
      later_calls (some (utf8 "bob")) refl (ground arith) node_a_uri refl
