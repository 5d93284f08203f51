-- ===== src/Routes/Serve/Effects.antt =====
-- What a handler's steps do to the state: rules for the predicates that the endpoints are proved by.
use xray_bridge.Prelude.{
  ◌∙◌, ap, ◌≡◌, refl, sym, subst, ◌⊎◌, inl, inr, ok, err, [], ◌∷◌, ◌++◌, Result-cases,
}
use xray_bridge.Outcome.{Outcome, done, fail, reject, panic}
use xray_bridge.Grpc.{Rpc}
use xray_bridge.App.{Platform, Client, World, App, call, send, outgoing, continue, ◌>>=◌}
use xray_bridge.Routes.Extract.{Extracted, extract}

-- No panic.
abbrev pub Returns : {A : Type 0} → Outcome A → Type 0
Returns panic = ⊥
Returns _ = Unit

module _ (p : Platform) where
  -- Another pool in the state: the step answers the same, and leaves that pool where it is.
  abbrev pub Frames : {A : Type 0} → App p A → World p → Type 0
  Frames m w =
      (c : p.lru.Cache) → m (record w { pool = c }) ≡ ((m w).0, record (m w).1 { pool = c })

  -- A step that leaves the state as it is, does not panic, and does not look at the pool.
  abbrev pub IsPure : {A : Type 0} → App p A → Type 0
  IsPure m = (w : World p) → ((m w).1 ≡ w) × Returns (m w).0 × Frames m w

  -- The state after at most one RPC of the client; the pool is as it was.
  abbrev pub Sends : Client p → World p → World p → Type 0
  Sends client w w' =
      (w'.pool ≡ w.pool)
      × ((w'.sent ≡ w.sent) ⊎ ((rpc : Rpc) × (w'.sent ≡ w.sent ++ outgoing p client rpc ∷ [])))

  -- A step that makes at most one RPC, as the client, does not panic, and does not look at the pool.
  abbrev pub Calls : {A : Type 0} → Client p → App p A → Type 0
  Calls client m = (w : World p) → Sends client w (m w).1 × Returns (m w).0 × Frames m w

  pub Calls-call :
      (client : Client p) (rpc : Rpc) (w : World p) → Sends client w (call p client rpc w).1
  unfolding call
  Calls-call client rpc w = (refl, inr (rpc, refl))

  pub Calls-send : (client : Client p) (rpc : Rpc) → Calls client (send p client rpc)
  unfolding send call
  Calls-send client rpc w = elim (Result-cases (p.nodes w.sent (outgoing p client rpc))) [
    | inl (e, failed) ↦ rw (failed, send, call) (Calls-call client rpc w, tt, λ c. refl)
    | inr (a, answered) ↦ rw (answered, send, call) (Calls-call client rpc w, tt, λ c. refl)
  ]

  continue-IsPure :
      {A B : Type 0} (f : A → App p B) (r : Outcome A)
      → Returns r
      → ((a : A) → IsPure (f a))
      → (w : World p)
      → ((continue p f r w).1 ≡ w) × Returns (continue p f r w).0 × Frames (continue p f r) w
  continue-IsPure f (done a) safe h w = h a w
  continue-IsPure f (fail e) safe h w = (refl, tt, λ c. refl)
  continue-IsPure f (reject n) safe h w = (refl, tt, λ c. refl)
  continue-IsPure f panic safe h w = absurd safe

  continue-Calls :
      {A B : Type 0} (client : Client p) (f : A → App p B) (r : Outcome A)
      → Returns r
      → ((a : A) → Calls client (f a))
      → (w : World p)
      → Sends client w (continue p f r w).1
        × Returns (continue p f r w).0
        × Frames (continue p f r) w
  continue-Calls client f (done a) safe h w = h a w
  continue-Calls client f (fail e) safe h w = ((refl, inl refl), tt, λ c. refl)
  continue-Calls client f (reject n) safe h w = ((refl, inl refl), tt, λ c. refl)
  continue-Calls client f panic safe h w = absurd safe

  Frames-bind :
      {A B : Type 0} (m : App p A) (f : A → App p B) (w : World p)
      → Frames m w
      → Frames (continue p f (m w).0) (m w).1
      → Frames (m >>= f) w
  Frames-bind m f w h k c = ap (λ r. continue p f r.0 r.1) (h c) ∙ k c

  -- The RPC may come before what follows it, or after what precedes it.
  pub Calls-then :
      {A B : Type 0} (client : Client p) (m : App p A) (f : A → App p B)
      → Calls client m
      → ((a : A) → IsPure (f a))
      → Calls client (m >>= f)
  Calls-then client m f h k w =
      let (same, returns, frames) = continue-IsPure f (m w).0 (h w).1 k (m w).1 in
      (subst (Sends client w) (sym same) (h w).0, returns, Frames-bind m f w (h w).2 frames)

  pub Calls-after :
      {A B : Type 0} (client : Client p) (m : App p A) (f : A → App p B)
      → IsPure m
      → ((a : A) → Calls client (f a))
      → Calls client (m >>= f)
  Calls-after client m f h k w =
      let (sends, returns, frames) = continue-Calls client f (m w).0 (h w).1 k (m w).1 in
      (
        subst (λ v. Sends client v (continue p f (m w).0 (m w).1).1) (h w).0 sends,
        returns,
        Frames-bind m f w (h w).2 frames,
      )

  pub IsPure-extract : {T : Type 0} (given : Extracted T) → IsPure (extract p given)
  unfolding extract
  IsPure-extract (ok value) w = (refl, tt, λ c. refl)
  IsPure-extract (err status) w = (refl, tt, λ c. refl)
