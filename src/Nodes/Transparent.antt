-- ===== src/Nodes/Transparent.antt =====
-- What a call of the pool answers, without the pool: but for the label, it is what a new client
-- would be.
use xray_bridge.Prelude.{
  ℕ, ◌≡◌, ◌⊎◌, ◌∙◌, ap, inl, inr, Option, Option-cases, Result-cases, ok, err,
}
use xray_bridge.Text.{Str}
use xray_bridge.Error.{AppError}
use xray_bridge.Outcome.{Outcome, done, fail}
use xray_bridge.Extern.Transport.{Transport}
use xray_bridge.Extern.Http.{Http, Headers}
use xray_bridge.Extern.Lru.{find}
use xray_bridge.Nodes.{
  utf8, nonempty_text, Key, Key-discrete, Pool, XrayClient, open_channel, get_or_create,
  node_context, header_port, header_text,
}
use xray_bridge.Nodes.Assoc.{find-All}
use xray_bridge.Nodes.Invariant.{
  IsFaithful, Reachable, Reachable-IsValid, get_or_create_hit, get_or_create_fails,
  get_or_create_miss,
}

module _ (t : Transport) (l : Pool t) where
  -- The answer is a client of that channel and token, under some label, or that error.
  abbrev pub Gives : Outcome (XrayClient t.Channel) → Str → ℕ → Str → Type 0
  Gives r domain port token =
      ((channel : t.Channel) × (open_channel t domain port ≡ ok channel)
        × (label : Option Str) × (r
            ≡ done (record { channel = channel; token = token; name = label })))
      ⊎ ((e : AppError) × (open_channel t domain port ≡ err e) × (r ≡ fail e))

  get_or_create-Gives :
      {n : ℕ} (c : l.Cache) (domain : Str) (port : ℕ) (token : Str) (name : Option Str)
      → Reachable t l n c
      → Gives (get_or_create t l c domain port token name).0 domain port token
  get_or_create-Gives c domain port token name r =
      let key : Key = (domain, port, token) in
      elim (Option-cases (find Key-discrete key (l.iter c))) [
        | inr (client, hit) ↦
            let (kept, opened) =
              find-All Key-discrete (IsFaithful t) key (l.iter c) (Reachable-IsValid t l r).faithful
                hit in
            inl (
              client.channel,
              opened,
              client.name,
              ap (λ r. r.0) (get_or_create_hit t l c domain port token name hit)
                  ∙ ap (λ k. done (record client { token = k })) kept,
            )
        | inl miss ↦ elim (Result-cases (open_channel t domain port)) [
          | inl (e, failed) ↦ inr (
            e,
            failed,
            ap (λ r. r.0) (get_or_create_fails t l c domain port token name miss failed),
          )
          | inr (channel, opened) ↦ inl (
            channel,
            opened,
            name,
            ap (λ r. r.0) (get_or_create_miss t l c domain port token name miss opened),
          )
        ]
      ]

  -- Both are the same error, or clients that differ in their labels at most.
  abbrev pub Alike : Outcome (XrayClient t.Channel) → Outcome (XrayClient t.Channel) → Type 0
  Alike r r' =
      ((client : XrayClient t.Channel) × (label : Option Str) × (r ≡ done client)
        × (r' ≡ done (record client { name = label })))
      ⊎ ((e : AppError) × (r ≡ fail e) × (r' ≡ fail e))

  Gives-Alike :
      (r r' : Outcome (XrayClient t.Channel)) (domain : Str) (port : ℕ) (token : Str)
      → Gives r domain port token
      → Gives r' domain port token
      → Alike r r'
  Gives-Alike r r' domain port token (inl (channel, opened, label, g))
        (inl (channel', opened', label', g')) =
      let same : channel' ≡ channel = cc (opened, opened') in
      inl (record { channel = channel; token = token; name = label }, label', g, rw (← same) g')
  Gives-Alike r r' domain port token (inl (channel, opened, label, g)) (inr (e, failed, g')) =
      cc (opened, failed)
  Gives-Alike r r' domain port token (inr (e, failed, g)) (inl (channel, opened, label, g')) =
      cc (opened, failed)
  Gives-Alike r r' domain port token (inr (e, failed, g)) (inr (e', failed', g')) =
      let same : e' ≡ e = cc (failed, failed') in inr (e, g, g' ∙ ap fail same)

  module _ (http : Http) (headers : Headers) where
    -- Whatever was asked of two pools before, `NodeContext` gets the same error from both, or clients
    -- that differ in their labels at most.
    pub node_context-Alike :
        {n n' : ℕ} (c c' : l.Cache)
        → Reachable t l n c
        → Reachable t l n' c'
        → Alike (node_context t l http headers c).0 (node_context t l http headers c').0
    unfolding node_context
    node_context-Alike c c' r r' =
        elim (Option-cases (nonempty_text http headers (utf8 "x-node-domain"))) [
          | inl missing ↦ inr (
            AppError.invalid_argument (utf8 "缺少 X-Node-Domain header"),
            rw (missing, node_context),
            rw (missing, node_context),
          )
          | inr (domain, found) ↦
              elim (Option-cases (nonempty_text http headers (utf8 "x-node-token"))) [
                | inl missing ↦ inr (
                  AppError.invalid_argument (utf8 "缺少 X-Node-Token header"),
                  rw (found, missing, node_context),
                  rw (found, missing, node_context),
                )
                | inr (token, given) ↦
                    let port = header_port http headers in
                    let name = header_text http headers (utf8 "x-node-name") in
                    rw (found, given, node_context)
                      (Gives-Alike (get_or_create t l c domain port token name).0
                        (get_or_create t l c' domain port token name).0 domain port token
                        (get_or_create-Gives c domain port token name r)
                        (get_or_create-Gives c' domain port token name r'))
              ]
        ]
