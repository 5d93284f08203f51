-- ===== src/Nodes/Invariant.antt =====
-- What every reachable pool satisfies.
use xray_bridge.Prelude.{
  Result-cases, ℕ, ◌≤◌, ◌≡◌, refl, ◌∙◌, inl, inr, Option, some, none, ok, err, length,
  length-take-le, All, arith, Option-cases,
}
use xray_bridge.Text.{Str}
use xray_bridge.Error.{AppError}
use xray_bridge.Outcome.{done, fail}
use xray_bridge.Extern.Lru.{find}
use xray_bridge.Extern.Transport.{Transport}
use xray_bridge.Nodes.{Key, Key-discrete, XrayClient, Pool, open_channel, create, get_or_create}
use xray_bridge.Nodes.Assoc.{
  Distinct, Distinct-promote, Distinct-remove, Distinct-take, find-remove_self, All-promote,
  All-remove, All-take, length-promote,
}

module _ (t : Transport) where
  -- The client stands under its own token, on a channel to its own domain and port.
  abbrev pub IsFaithful : Key × XrayClient t.Channel → Type 0
  IsFaithful (key, client) =
      (client.token ≡ key.2) × (open_channel t key.0 key.1 ≡ ok client.channel)

  module _ (l : Pool t) where
    -- Never more entries than the capacity, never a key twice, every entry faithful.
    pub record IsValid (c : l.Cache) : Type 0 where
      pub bounded : length (l.iter c) ≤ l.cap c
      pub distinct : Distinct Key-discrete (l.iter c)
      pub faithful : All IsFaithful (l.iter c)

    module _ (c : l.Cache) (domain : Str) (port : ℕ) (token : Str) (name : Option Str) where
      abbrev pub fresh : t.Channel → XrayClient t.Channel
      fresh channel = record { channel = channel; token = token; name = name }

      -- A hit returns the stored client and only moves it to the front.
      pub get_or_create_hit :
          {client : XrayClient t.Channel}
          → find Key-discrete (domain, port, token) (l.iter c) ≡ some client
          → get_or_create t l c domain port token name
            ≡ (done client, (l.get c (domain, port, token)).1)
      unfolding get_or_create
      get_or_create_hit hit = rw (l.get_found c (domain, port, token) ∙ hit, get_or_create)

      pub get_or_create_fails :
          {e : AppError}
          → find Key-discrete (domain, port, token) (l.iter c) ≡ none
          → open_channel t domain port ≡ err e
          → get_or_create t l c domain port token name ≡ (fail e, (l.get c (domain, port, token)).1)
      unfolding get_or_create create
      get_or_create_fails miss failed =
          rw (l.get_found c (domain, port, token) ∙ miss, failed, get_or_create, create)

      pub get_or_create_miss :
          {channel : t.Channel}
          → find Key-discrete (domain, port, token) (l.iter c) ≡ none
          → open_channel t domain port ≡ ok channel
          → get_or_create t l c domain port token name ≡ (
            done (fresh channel),
            l.put (l.get c (domain, port, token)).1 (domain, port, token) (fresh channel),
          )
      unfolding get_or_create create
      get_or_create_miss miss opened =
          rw (l.get_found c (domain, port, token) ∙ miss, opened, get_or_create, create)

    new-IsValid : (n : ℕ) → IsValid (l.new n)
    new-IsValid n = record {
      bounded = rw (l.iter-new n) (omega arith);
      distinct = rw (l.iter-new n) tt;
      faithful = rw (l.iter-new n) tt;
    }

    get-IsValid : (c : l.Cache) (k : Key) → IsValid c → IsValid (l.get c k).1
    get-IsValid c k v = record {
      bounded =
          rw (l.iter-get c k, l.cap-get c k, length-promote Key-discrete k (l.iter c)) v.bounded;
      distinct = rw (l.iter-get c k) (Distinct-promote Key-discrete k (l.iter c) v.distinct);
      faithful = rw (l.iter-get c k) (All-promote Key-discrete IsFaithful k (l.iter c) v.faithful);
    }

    put-IsValid :
        (c : l.Cache) (k : Key) (client : XrayClient t.Channel)
        → IsValid c
        → IsFaithful (k, client)
        → IsValid (l.put c k client)
    put-IsValid c k client v f = record {
      bounded = rw (l.iter-put c k client, l.cap-put c k client) (length-take-le (l.cap c) _);
      distinct = rw (l.iter-put c k client) (
          Distinct-take Key-discrete (l.cap c) _ (
            find-remove_self Key-discrete k (l.iter c) v.distinct,
            Distinct-remove Key-discrete k (l.iter c) v.distinct,
          ));
      faithful = rw (l.iter-put c k client) (
          All-take Key-discrete IsFaithful (l.cap c) _
            (f, All-remove Key-discrete IsFaithful k (l.iter c) v.faithful));
    }

    module _ (c : l.Cache) (domain : Str) (port : ℕ) (token : Str) (name : Option Str) where
      -- `get_or_create` keeps the invariant, whatever it answers.
      pub get_or_create-IsValid : IsValid c → IsValid (get_or_create t l c domain port token name).1
      get_or_create-IsValid v =
          let key : Key = (domain, port, token) in
          let got = get-IsValid c key v in
          elim (Option-cases (find Key-discrete key (l.iter c))) [
            | inr (client, hit) ↦ rw (get_or_create_hit c domain port token name hit) got
            | inl miss ↦ elim (Result-cases (open_channel t domain port)) [
              | inl (e, failed) ↦ rw (get_or_create_fails c domain port token name miss failed) got
              | inr (channel, opened) ↦
                  rw (get_or_create_miss c domain port token name miss opened)
                    (put-IsValid (l.get c key).1 key _ got (refl, opened))
            ]
          ]

      pub get_or_create-cap : l.cap (get_or_create t l c domain port token name).1 ≡ l.cap c
      get_or_create-cap =
          let key : Key = (domain, port, token) in
          elim (Option-cases (find Key-discrete key (l.iter c))) [
            | inr (client, hit) ↦
                rw (get_or_create_hit c domain port token name hit) (l.cap-get c key)
            | inl miss ↦ elim (Result-cases (open_channel t domain port)) [
              | inl (e, failed) ↦
                  rw (get_or_create_fails c domain port token name miss failed) (l.cap-get c key)
              | inr (channel, opened) ↦
                  rw (get_or_create_miss c domain port token name miss opened)
                    (l.cap-put _ key _ ∙ l.cap-get c key)
            ]
          ]

    -- The pools that calls lead to from a new one.
    pub data Reachable (n : ℕ) : l.Cache → Type 0 where
      start : Reachable n (l.new n)
      call :
          {c : l.Cache} (domain : Str) (port : ℕ) (token : Str) (name : Option Str)
          → Reachable n c
          → Reachable n (get_or_create t l c domain port token name).1

    pub Reachable-IsValid : {n : ℕ} {c : l.Cache} → Reachable n c → IsValid c
    Reachable-IsValid {n} start = new-IsValid n
    Reachable-IsValid (call {c = c} domain port token name r) =
        get_or_create-IsValid c domain port token name (Reachable-IsValid r)

    pub Reachable-cap : {n : ℕ} {c : l.Cache} → Reachable n c → l.cap c ≡ n
    Reachable-cap {n} start = l.cap-new n
    Reachable-cap (call {c = c} domain port token name r) =
        get_or_create-cap c domain port token name ∙ Reachable-cap r
