-- ===== src/Tests/Source/Nodes.antt =====
-- The tests of src/nodes.rs. The cache's `size` is the length of the pool.
use xray_bridge.Prelude.{ℕ, Bool, true, false, not, ◌≡◌, refl, ◌==◌, Option, none, some, [], ◌∷◌}
use xray_bridge.Text.{Str, utf8, str_eq, contains, starts_with}
use xray_bridge.Text.Number.{show}
use xray_bridge.Extern.Lru.{find, promote, remove}
use xray_bridge.Outcome.{Outcome, done}
use xray_bridge.Nodes.{Key-discrete, XrayClient, get_or_create, open_channel, uri_text}
use xray_bridge.Tests.Sample.{transport, lru}
use xray_bridge.Tests.Source.Asserts.{asserts, is_none}

abbrev make_cache : lru.Cache
make_cache = lru.new 3

-- A call that leaves out the name, and the cache after it.
abbrev called : lru.Cache → Str → ℕ → Str → Outcome (XrayClient Str) × lru.Cache
called cache domain port token = get_or_create transport lru cache domain port token none

abbrev has_token : Outcome (XrayClient Str) → Str → Bool
has_token (done client) token = str_eq client.token token
has_token _ token = false

abbrev is_cached : lru.Cache → Str → Str → Bool
is_cached cache domain token = not (is_none (lru.get cache (domain, 443, token)).0)

abbrev cache_get_or_create_same_key_reuses_entry : Bool
cache_get_or_create_same_key_reuses_entry =
    let (c1, one) = called make_cache (utf8 "node1.example.com") 443 (utf8 "token1") in
    let (c2, two) = called one (utf8 "node1.example.com") 443 (utf8 "token1") in
    asserts ((lru.len two == 1) ∷ has_token c1 (utf8 "token1") ∷ has_token c2 (utf8 "token1") ∷ [])

cache_get_or_create_same_key_reuses_entry_lem : cache_get_or_create_same_key_reuses_entry ≡ true
unfolding get_or_create open_channel find promote remove utf8 uri_text show contains starts_with
    str_eq Key-discrete xray_bridge.Prelude.ℕ_discrete
cache_get_or_create_same_key_reuses_entry_lem = refl

abbrev cache_different_tokens_are_different_entries : Bool
cache_different_tokens_are_different_entries =
    let (c1, one) = called make_cache (utf8 "node1.example.com") 443 (utf8 "token-a") in
    let (c2, two) = called one (utf8 "node1.example.com") 443 (utf8 "token-b") in lru.len two == 2

cache_different_tokens_are_different_entries_lem :
    cache_different_tokens_are_different_entries ≡ true
unfolding get_or_create open_channel find promote remove utf8 uri_text show contains starts_with
    str_eq Key-discrete xray_bridge.Prelude.ℕ_discrete
cache_different_tokens_are_different_entries_lem = refl

abbrev cache_lru_evicts_oldest_entry_when_full : Bool
cache_lru_evicts_oldest_entry_when_full =
    let (c1, one) = called make_cache (utf8 "n1.example.com") 443 (utf8 "t1") in
    let (c2, two) = called one (utf8 "n2.example.com") 443 (utf8 "t2") in
    let (c3, three) = called two (utf8 "n3.example.com") 443 (utf8 "t3") in
    let (c4, again) = called three (utf8 "n1.example.com") 443 (utf8 "t1") in
    let (c5, four) = called again (utf8 "n4.example.com") 443 (utf8 "t4") in
    asserts (
      (lru.len three == 3)
      ∷ (lru.len four == 3)
      ∷ is_cached four (utf8 "n1.example.com") (utf8 "t1")
      ∷ not (is_cached four (utf8 "n2.example.com") (utf8 "t2"))
      ∷ is_cached four (utf8 "n3.example.com") (utf8 "t3")
      ∷ is_cached four (utf8 "n4.example.com") (utf8 "t4")
      ∷ [])

cache_lru_evicts_oldest_entry_when_full_lem : cache_lru_evicts_oldest_entry_when_full ≡ true
unfolding get_or_create open_channel find promote remove utf8 uri_text show contains starts_with
    str_eq Key-discrete xray_bridge.Prelude.ℕ_discrete
cache_lru_evicts_oldest_entry_when_full_lem = refl

abbrev cache_put_get_basic : Bool
cache_put_get_basic =
    let (c, one) =
      get_or_create transport lru make_cache (utf8 "a.example.com") 8443 (utf8 "tok")
        (some (utf8 "node-a")) in
    asserts ((lru.len make_cache == 0) ∷ (lru.len one == 1) ∷ [])

cache_put_get_basic_lem : cache_put_get_basic ≡ true
unfolding get_or_create open_channel find promote remove utf8 uri_text show contains starts_with
    str_eq Key-discrete xray_bridge.Prelude.ℕ_discrete
cache_put_get_basic_lem = refl
