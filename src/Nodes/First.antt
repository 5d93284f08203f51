-- ===== src/Nodes/First.antt =====
-- What the first caller of a key settles for those that come after.
use xray_bridge.Prelude.{ℕ, ◌++◌, ◌<◌, ◌≡◌, ap, refl, Option, none, ok, List, length}
use xray_bridge.Text.{Str, utf8}
use xray_bridge.Text.Number.{show}
use xray_bridge.Outcome.{done}
use xray_bridge.Extern.Transport.{Transport}
use xray_bridge.Extern.Lru.{find}
use xray_bridge.Nodes.{Key-discrete, Pool, uri_text, open_channel, get_or_create}
use xray_bridge.Nodes.Invariant.{get_or_create_miss}
use xray_bridge.Nodes.Recency.{Call, calls, get_or_create-survives}

module _ (t : Transport) (l : Pool t) (c : l.Cache) (domain : Str) (port : ℕ) (token : Str)
    (name : Option Str) {uri : t.Uri} {endpoint : t.Endpoint} where
  -- A caller whose key is not in the pool, and whose domain and port make a URI, after https://, that
  -- tonic accepts with TLS, gets a client on a channel to that URI, with its own token and label. So
  -- does every later caller with the same key, whatever label it gives, as long as the calls between
  -- them, whatever they ask for, are fewer than the capacity.
  pub get_or_create-settles :
      (later : List Call) (name' : Option Str)
      → find Key-discrete (domain, port, token) (l.iter c) ≡ none
      → length later < l.cap c
      → t.parse_uri (utf8 "https://" ++ (domain ++ (utf8 ":" ++ show port))) ≡ ok uri
      → t.tls_config (t.builder uri) (t.with_webpki_roots t.new_tls) ≡ ok endpoint
      → ((get_or_create t l c domain port token name).0
          ≡ done (record { channel = t.connect_lazy endpoint; token = token; name = name }))
        × ((get_or_create t l
              (calls t l later (get_or_create t l c domain port token name).1)
              domain
              port
              token
              name').0
            ≡ done (record { channel = t.connect_lazy endpoint; token = token; name = name }))
  unfolding open_channel uri_text
  get_or_create-settles later name' miss few good secure =
      let opened : open_channel t domain port ≡ ok (t.connect_lazy endpoint) =
        rw (good, open_channel, secure) refl in
      let run = get_or_create_miss t l c domain port token name miss opened in
      (
        ap (λ r. r.0) run,
        get_or_create-survives t l c domain port token name later name' few
            (ap (λ r. (r.0, (get_or_create t l c domain port token name).1)) run),
      )
