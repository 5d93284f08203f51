-- ===== src/Routes/Serve/Guarded.antt =====
-- The guard in front of each handler: what holds of a handler that begins with `NodeContext` and
-- checks `BearerAuth` before anything else that matters.
use xray_bridge.Prelude.{◌≡◌, refl, ap, ◌∙◌, ◌⊎◌, inl, inr, [], ◌∷◌, ◌++◌, ok, err}
use xray_bridge.Config.{Settings}
use xray_bridge.Error.{Response, AppError}
use xray_bridge.Outcome.{Outcome, done, fail, reject, panic}
use xray_bridge.Extern.Http.{Headers}
use xray_bridge.Auth.Laws.{Grants, bearer_auth-cases, bearer_auth-done_iff}
use xray_bridge.Grpc.{Rpc}
use xray_bridge.Nodes.{node_context, header_port}
use xray_bridge.Nodes.Isolation.{get_or_create-total}
use xray_bridge.Nodes.Context.{node_context-cases}
use xray_bridge.App.{Platform, Client, World, App, outgoing, ◌>>=◌, ◌>>◌}
use xray_bridge.Routes.Extract.{Extracted, node, auth, extract}
use xray_bridge.Routes.Serve.Effects.{IsPure, Returns, Calls, Calls-after, IsPure-extract}

-- No answer of the handler's own: an error, or the rejection of an extractor.
abbrev pub IsRefused : {A : Type 0} → Outcome A → Type 0
IsRefused (done _) = ⊥
IsRefused (fail e) = Unit
IsRefused (reject status) = Unit
IsRefused panic = ⊥

module _ (p : Platform) (settings : Settings) (headers : Headers) where
  -- The part of a handler behind `NodeContext`.
  pub record Gated (k : Client p → App p Response) : Type 0 where
    pub calls : (client : Client p) → Calls p client (k client)
    pub refused :
        ¬ Grants settings headers
        → (client : Client p) (w : World p) → ((k client w).1 ≡ w) × IsRefused (k client w).0

  abbrev pub context : World p → Outcome (Client p) × p.lru.Cache
  context w = node_context p.transport p.lru p.http headers w.pool

  -- A whole handler: the pool becomes what `NodeContext` makes of it, at most one RPC is made, as
  -- the client that `NodeContext` gave, none without authentication, and the handler does
  -- not panic.
  pub record Guarded (h : App p Response) : Type 0 where
    pub pool :
        (w : World p) → (h w).1.pool ≡ (node_context p.transport p.lru p.http headers w.pool).1
    pub sends :
        (w : World p)
        → ((h w).1.sent ≡ w.sent)
          ⊎ ((client : Client p) × (rpc : Rpc) × ((node_context p.transport p.lru p.http headers
                  w.pool).0
                ≡ done client)
              × ((h w).1.sent ≡ w.sent ++ outgoing p client rpc ∷ []))
    pub refused :
        ¬ Grants settings headers → (w : World p) → ((h w).1.sent ≡ w.sent) × IsRefused (h w).0
    pub returns : (w : World p) → Returns (h w).0

  pub auth-IsPure : IsPure p (auth p settings headers)
  unfolding auth
  auth-IsPure w = elim (bearer_auth-cases p.unicode p.http settings headers) [
    | inl granted ↦ rw granted (refl, tt, λ c. refl)
    | inr (msg, e) ↦ rw e (refl, tt, λ c. refl)
  ]

  auth-IsRefused :
      ¬ Grants settings headers
      → {A : Type 0} (k : App p A) (w : World p)
      → (((auth p settings headers >> k) w).1 ≡ w) × IsRefused ((auth p settings headers >> k) w).0
  unfolding auth
  auth-IsRefused other k w = elim (bearer_auth-cases p.unicode p.http settings headers) [
    | inl granted ↦
        absurd (other ((bearer_auth-done_iff p.unicode p.http settings headers).0 granted))
    | inr (msg, e) ↦ rw e (refl, tt)
  ]

  pub Gated-auth :
      (k : Client p → App p Response)
      → ((client : Client p) → Calls p client (k client))
      → Gated (λ client. auth p settings headers >> k client)
  Gated-auth k h = record {
    calls = λ client.
        Calls-after p client (auth p settings headers) (λ _. k client) auth-IsPure (λ _. h client);
    refused = λ other client w. auth-IsRefused other (k client) w;
  }

  extract-IsRefused :
      {T : Type 0} (given : Extracted T) (k : T → App p Response) (w : World p)
      → ((a : T) → ((k a w).1 ≡ w) × IsRefused (k a w).0)
      → (((extract p given >>= k) w).1 ≡ w) × IsRefused ((extract p given >>= k) w).0
  unfolding extract
  extract-IsRefused (ok value) k w h = h value
  extract-IsRefused (err status) k w h = (refl, tt)

  pub Gated-extract :
      {T : Type 0} (given : Extracted T) (k : Client p → T → App p Response)
      → ((a : T) → Gated (λ client. k client a))
      → Gated (λ client. extract p given >>= k client)
  Gated-extract given k h = record {
    calls = λ client.
        Calls-after p client (extract p given) (k client) (IsPure-extract p given)
          (λ a. (h a).calls client);
    refused =
        λ other client w. extract-IsRefused given (k client) w (λ a. (h a).refused other client w);
  }

  -- What `NodeContext` answers: a client, or an error.
  pub context-cases :
      (w : World p)
      → ((client : Client p) × ((context w).0 ≡ done client))
        ⊎ ((e : AppError) × ((context w).0 ≡ fail e))
  context-cases w = elim (node_context-cases p.transport p.lru p.http headers w.pool) [
    | inr (msg, e) ↦ inr (AppError.invalid_argument msg, ap (λ r. r.0) e)
    | inl (domain, token, name, _, e) ↦
        elim (get_or_create-total p.transport p.lru w.pool domain (header_port p.http headers) token
          name) [
            | inl (client, got) ↦ inl (client, ap (λ r. r.0) e ∙ got)
            | inr (msg, failed, _) ↦ inr (AppError.internal msg, ap (λ r. r.0) e ∙ failed)
          ]
  ]

  abbrev pub entered : World p → World p
  entered w = record w { pool = (context w).1 }

  module _ (k : Client p → App p Response) (w : World p) where
    pub node-done :
        {client : Client p}
        → (context w).0 ≡ done client
        → (node p headers >>= k) w ≡ k client (entered w)
    unfolding node
    node-done got = rw got

    pub node-fail :
        {e : AppError} → (context w).0 ≡ fail e → (node p headers >>= k) w ≡ (fail e, entered w)
    unfolding node
    node-fail failed = rw failed

    module _ (g : Gated k) where
      guarded_pool : ((node p headers >>= k) w).1.pool ≡ (context w).1
      guarded_pool = elim (context-cases w) [
        | inl (client, got) ↦ rw (node-done got) (g.calls client (entered w)).0.0
        | inr (e, failed) ↦ rw (node-fail failed)
      ]

      guarded-Returns : Returns ((node p headers >>= k) w).0
      guarded-Returns = elim (context-cases w) [
        | inl (client, got) ↦ rw (node-done got) (g.calls client (entered w)).1
        | inr (e, failed) ↦ rw (node-fail failed) tt
      ]

      guarded_sends :
          (((node p headers >>= k) w).1.sent ≡ w.sent)
          ⊎ ((client : Client p) × (rpc : Rpc) × ((context w).0 ≡ done client)
              × (((node p headers >>= k) w).1.sent ≡ w.sent ++ outgoing p client rpc ∷ []))
      guarded_sends = elim (context-cases w) [
        | inr (e, failed) ↦ inl (ap (λ r. r.1.sent) (node-fail failed))
        | inl (client, got) ↦ elim (g.calls client (entered w)).0.1 [
          | inl same ↦ inl (ap (λ r. r.1.sent) (node-done got) ∙ same)
          | inr (rpc, one) ↦ inr (client, rpc, got, ap (λ r. r.1.sent) (node-done got) ∙ one)
        ]
      ]

      guarded-IsRefused :
          ¬ Grants settings headers
          → (((node p headers >>= k) w).1.sent ≡ w.sent) × IsRefused ((node p headers >>= k) w).0
      guarded-IsRefused other = elim (context-cases w) [
        | inr (e, failed) ↦ rw (node-fail failed) (refl, tt)
        | inl (client, got) ↦
            let (same, refused) = g.refused other client (entered w) in
            rw (node-done got) (ap (λ v. v.sent) same, refused)
      ]

  pub Guarded-node : (k : Client p → App p Response) → Gated k → Guarded (node p headers >>= k)
  Guarded-node k g = record {
    pool = λ w. guarded_pool k w g;
    sends = λ w. guarded_sends k w g;
    refused = λ other w. guarded-IsRefused k w g other;
    returns = λ w. guarded-Returns k w g;
  }
