-- ===== src/Nodes/Isolation.antt =====
-- Whose client a caller gets, and how many the pool keeps.
use xray_bridge.Prelude.{
  Result-cases, ◌++◌, subst, ℕ, ◌≤◌, ◌≡◌, sym, ap, ◌∙◌, ◌⊎◌, inl, inr, Option, ok, err, arith,
  Option-cases,
}
use xray_bridge.Text.{Str, utf8}
use xray_bridge.Error.{AppError}
use xray_bridge.Outcome.{Outcome, done, fail}
use xray_bridge.Extern.Lru.{find}
use xray_bridge.Extern.Transport.{Transport}
use xray_bridge.Nodes.{Key, Key-discrete, XrayClient, Pool, uri_text, open_channel, get_or_create}
use xray_bridge.Nodes.Assoc.{Distinct, find-All, promote_miss}
use xray_bridge.Nodes.Invariant.{
  IsFaithful, Reachable, Reachable-IsValid, Reachable-cap, get_or_create_hit, get_or_create_fails,
  get_or_create_miss, fresh,
}

module _ (t : Transport) (l : Pool t) where
  -- What a failed call says, and that it changes no entry of the pool.
  abbrev pub FailsCleanly : l.Cache → Outcome (XrayClient t.Channel) × l.Cache → Type 0
  FailsCleanly c r = (msg : Str) × (r.0 ≡ fail (AppError.internal msg)) × (l.iter r.1 ≡ l.iter c)

  open_channel-cases :
      (domain : Str) (port : ℕ)
      → ((msg : Str) × (open_channel t domain port ≡ err (AppError.internal msg)))
        ⊎ ((channel : t.Channel) × (open_channel t domain port ≡ ok channel))
  unfolding open_channel
  open_channel-cases domain port = elim (Result-cases (t.parse_uri (uri_text t domain port))) [
    | inl (e, bad) ↦ inl (utf8 "invalid URI: " ++ e, rw (bad, open_channel))
    | inr (uri, good) ↦
        elim (Result-cases (t.tls_config (t.builder uri) (t.with_webpki_roots t.new_tls))) [
          | inl (e, bad) ↦ inl (utf8 "TLS config error: " ++ e, rw (good, bad, open_channel))
          | inr (endpoint, secure) ↦ inr (t.connect_lazy endpoint, rw (good, secure, open_channel))
        ]
  ]

  -- However the pool came about, a client that is handed out carries the token that was asked for,
  -- and its channel is the one that opens to the domain and port that were asked for: no caller gets
  -- another node's channel or another caller's token.
  pub get_or_create-isolated :
      {n : ℕ} {c c' : l.Cache} (domain : Str) (port : ℕ) (token : Str) (name : Option Str)
      {client : XrayClient t.Channel}
      → Reachable t l n c
      → get_or_create t l c domain port token name ≡ (done client, c')
      → (client.token ≡ token) × (open_channel t domain port ≡ ok client.channel)
  get_or_create-isolated {c = c} domain port token name {client} r h =
      let key : Key = (domain, port, token) in
      elim (Option-cases (find Key-discrete key (l.iter c))) [
        | inr (found, hit) ↦
            let same : found ≡ client = cc (get_or_create_hit t l c domain port token name hit) in
            subst (λ (x : XrayClient t.Channel). IsFaithful t (key, x)) same
              (find-All Key-discrete (IsFaithful t) key (l.iter c)
                (Reachable-IsValid t l r).faithful hit)
        | inl miss ↦ elim (Result-cases (open_channel t domain port)) [
          | inl (e, failed) ↦ cc (get_or_create_fails t l c domain port token name miss failed)
          | inr (channel, opened) ↦
              let same : fresh t l c domain port token name channel ≡ client =
                cc (get_or_create_miss t l c domain port token name miss opened) in
              (
                ap (λ (x : XrayClient t.Channel). x.token) (sym same),
                opened ∙ ap (λ (x : XrayClient t.Channel). ok x.channel) same,
              )
        ]
      ]

  -- A pool of capacity `n` never holds more than `n` clients, and never two under one key.
  pub Reachable-bounded :
      {n : ℕ} {c : l.Cache} → Reachable t l n c → (l.len c ≤ n) × Distinct Key-discrete (l.iter c)
  Reachable-bounded {n} {c} r =
      let v = Reachable-IsValid t l r in
      (omega (arith, l.len_lem c, v.bounded, Reachable-cap t l r), v.distinct)

  -- A call hands out a client, or fails with an internal error and leaves every entry of the pool
  -- in its place; it never panics.
  pub get_or_create-total :
      (c : l.Cache) (domain : Str) (port : ℕ) (token : Str) (name : Option Str)
      → ((client : XrayClient t.Channel) × ((get_or_create t l c domain port token name).0
            ≡ done client))
        ⊎ FailsCleanly c (get_or_create t l c domain port token name)
  get_or_create-total c domain port token name =
      let key : Key = (domain, port, token) in
      elim (Option-cases (find Key-discrete key (l.iter c))) [
        | inr (found, hit) ↦
            inl (found, ap (λ r. r.0) (get_or_create_hit t l c domain port token name hit))
        | inl miss ↦ elim (open_channel-cases domain port) [
          | inl (msg, failed) ↦
              let run = get_or_create_fails t l c domain port token name miss failed in
              inr (
                msg,
                ap (λ r. r.0) run,
                ap (λ r. l.iter r.1) run
                    ∙ l.iter-get c key
                    ∙ promote_miss Key-discrete key (l.iter c) miss,
              )
          | inr (channel, opened) ↦ inl (
            fresh t l c domain port token name channel,
            ap (λ r. r.0) (get_or_create_miss t l c domain port token name miss opened),
          )
        ]
      ]
