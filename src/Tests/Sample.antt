-- ===== src/Tests/Sample.antt =====
-- Services, settings and headers to run the program on.
use xray_bridge.Prelude.{
  ◌↔◌, ℕ, ◌≡◌, refl, Bool, true, false, ◌&&◌, ◌||◌, Option, some, none, Result, ok, err, List, [],
  ◌∷◌, ◌++◌, map, take, length, get_last?, if◌then◌else◌, ltb, leb, ◌==◌, All, arith,
}
use xray_bridge.Text.{Str, utf8, str_eq, contains, ascii_lower, ascii_upper}
use xray_bridge.Json.{pos}
use xray_bridge.Config.{Settings}
use xray_bridge.Error.{Code, Status}
use xray_bridge.Extern.Unicode.{Unicode}
use xray_bridge.Extern.Http.{Http, Headers, IsVisible}
use xray_bridge.Extern.Lru.{find, remove, promote}
use xray_bridge.Extern.Transport.{Transport}
use xray_bridge.Extern.Codec.{Base64}
use xray_bridge.Grpc.{Rpc, Reply, Metadata}
use xray_bridge.Nodes.{Key, Key-discrete, XrayClient, Pool}
use xray_bridge.App.{Platform, World}
use xray_bridge.Tests.Wire.{prost}

abbrev pub unicode : Unicode
unicode = record {
  to_lowercase = map ascii_lower;
  to_uppercase = map ascii_upper;
  lower-ascii = λ s h. refl;
  upper-ascii = λ s h. refl;
}

is_visible : ℕ → Bool
is_visible b = (b == 9) || (leb 32 b && ltb b 127)

all_visible : Str → Bool
all_visible [] = true
all_visible (b ∷ s) = is_visible b && all_visible s

all_visible_iff : (s : Str) → (all_visible s ≡ true) ↔ All IsVisible s
unfolding all_visible is_visible
all_visible_iff [] = (λ _. tt, λ _. refl)
all_visible_iff (b ∷ s) = ground (arith, all_visible_iff s)

unfoldable pub text_of : Str → Option Str
unfolding all_visible is_visible
text_of v = if all_visible v then some v else none

pub text_of-some : (v s : Str) → text_of v ≡ some s → (s ≡ v) × All IsVisible v
unfolding text_of
text_of-some v s h = ground (arith, all_visible_iff v)

pub text_of-visible : (v : Str) → All IsVisible v → text_of v ≡ some v
unfolding text_of
text_of-visible v h = ground (arith, all_visible_iff v)

abbrev pub http : Http
http = record { to_str = text_of; to_str-some = text_of-some; to_str-visible = text_of-visible }

abbrev pub metadata : Metadata
metadata = record { try_from = text_of; try_from-visible = text_of-visible }

-- A channel is the text of its URI; a text with a space is no URI.
abbrev pub transport : Transport
transport = record {
  Uri = Str;
  Endpoint = Str;
  TlsConfig = Bool;
  Channel = Str;
  parse_uri = λ s. if contains (utf8 " ") s then err (utf8 "invalid uri character") else ok s;
  builder = λ uri. uri;
  new_tls = false;
  with_webpki_roots = λ _. true;
  tls_config = λ endpoint tls. if tls then ok endpoint else err (utf8 "no roots");
  connect_lazy = λ endpoint. endpoint;
}

-- A cache is its capacity and its entries.
abbrev pub lru : Pool transport
lru = record {
  Cache = ℕ × List (Key × XrayClient Str);
  new = λ n. (n, []);
  get = λ c k. (find Key-discrete k c.1, (c.0, promote Key-discrete k c.1));
  put = λ c k v. (c.0, take c.0 ((k, v) ∷ remove Key-discrete k c.1));
  len = λ c. length c.1;
  cap = λ c. c.0;
  peek_lru = λ c. get_last? c.1;
  iter = λ c. c.1;
  iter-new = λ n. refl;
  cap-new = λ n. refl;
  get_found = λ c k. refl;
  iter-get = λ c k. refl;
  cap-get = λ c k. refl;
  iter-put = λ c k v. refl;
  cap-put = λ c k v. refl;
  len_lem = λ c. refl;
  peek_lru_lem = λ c. refl;
}

abbrev pub base64 : Base64
base64 = record { decode = λ s. ok s }

abbrev pub reply_to : (rpc : Rpc) → Result (Reply rpc) Status
reply_to (Rpc.query_stats pattern reset) = ok (
    record { name = utf8 "user>>>bob@x>>>traffic>>>uplink"; value = pos 7 }
    ∷ record { name = utf8 "user>>>amy@x>>>traffic>>>uplink"; value = pos 9 }
    ∷ record { name = utf8 "user>>>bob@x>>>traffic>>>downlink"; value = pos 8 }
    ∷ [])
reply_to (Rpc.alter_inbound request) = ok tt
reply_to (Rpc.get_stats name reset) =
    err (record { code = Code.unknown; message = name ++ utf8 " NOT FOUND." })
reply_to _ = err (record { code = Code.unavailable; message = utf8 "down" })

abbrev pub sample : Platform
sample = record {
  unicode = unicode;
  http = http;
  transport = transport;
  lru = lru;
  metadata = metadata;
  prost = prost;
  base64 = base64;
  nodes = λ sent call. reply_to call.rpc;
}

abbrev pub settings : Settings
settings = record { bridge_token = utf8 "s3cret"; port = 8080 }

-- The headers of a list of them.
abbrev pub headers_of : List (Str × Str) → Headers
headers_of [] name = none
headers_of ((key, v) ∷ rest) name = if str_eq key name then some v else headers_of rest name

-- A caller that names a node and knows the token, and one that does not know it.
abbrev pub caller : Headers
caller = headers_of (
    (utf8 "authorization", utf8 "bEARER s3cret")
    ∷ (utf8 "x-node-domain", utf8 "a.example")
    ∷ (utf8 "x-node-token", utf8 "t1")
    ∷ (utf8 "x-node-port", utf8 "8443")
    ∷ [])

abbrev pub stranger : Headers
stranger = headers_of (
    (utf8 "authorization", utf8 "Bearer guess")
    ∷ (utf8 "x-node-domain", utf8 "b.example")
    ∷ (utf8 "x-node-token", utf8 "t2")
    ∷ [])

abbrev pub fresh_world : World sample
fresh_world = record { pool = sample.lru.new 2; sent = [] }
