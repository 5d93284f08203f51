-- ===== src/Routes/Serve/Talk.antt =====
-- What passes between a handler and its node: the RPC that it makes, and what the reply becomes.
pub mod Spec
pub mod Replies
pub mod Rules
pub mod Reads
pub mod Operations
pub mod Bodies
pub mod Missing
pub mod Laws
use xray_bridge.Prelude.{
  ◌∙◌, ap, ◌≡◌, refl, sym, subst, ◌⊎◌, inl, inr, ok, err, Result, [], ◌∷◌, ◌++◌, Result-cases,
}
use xray_bridge.Error.{AppError, Status, from_status, into_response, status_not_found}
use xray_bridge.Outcome.{Outcome, done, fail, reject, panic}
use xray_bridge.Grpc.{Rpc, Reply}
use xray_bridge.App.{Platform, Client, World, App, call, send, outgoing, continue, pure, ◌>>=◌}
use xray_bridge.Routes.Extract.{Extracted, extract}
use xray_bridge.Routes.Serve.Effects.{IsPure, Returns}
use xray_bridge.Routes.Serve.Guarded.{IsRefused}
use xray_bridge.Xray.Handler.{or_fail}

-- The result is given, and fits.
abbrev pub Succeeds : {A : Type 0} → (A → Type 0) → Outcome A → Type 0
Succeeds S (done a) = S a
Succeeds S _ = ⊥

module _ (p : Platform) where
  -- An error that would be answered 404.
  abbrev pub IsMissing : Status → Type 0
  IsMissing status = (into_response p.unicode (from_status status)).status ≡ status_not_found

  -- A reply becomes a result that fits it. An error is passed on as it is, unless it would be answered
  -- 404 and that is excused: then it becomes a result too.
  abbrev pub Mirrors :
      {A R : Type 0}
      → (excused : Type 0) → (R → A → Type 0)
      → (A → Type 0)
      → Result R Status
      → Outcome A
      → Type 0
  Mirrors excused S X (ok reply) outcome = Succeeds (S reply) outcome
  Mirrors excused S X (err status) outcome =
      (¬ (excused × IsMissing status) × (outcome ≡ fail (from_status status)))
      ⊎ (excused × IsMissing status × Succeeds X outcome)

  module _ (client : Client p) (excused ready : Type 0) (Q : Rpc → Type 0) where
    -- From a state on, a run has made one RPC, of those that `Q` allows, and its outcome mirrors the
    -- reply; or it has made none, and then it gives no result, and it was not ready to.
    abbrev pub Talked :
        {A : Type 0}
        → ((rpc : Rpc) → Reply rpc → A → Type 0)
        → (A → Type 0)
        → World p
        → Outcome A × World p
        → Type 0
    Talked S X w run =
        ((run.1.sent ≡ w.sent) × IsRefused run.0 × ¬ ready)
        ⊎ ((rpc : Rpc) × Q rpc
            × (run.1.sent ≡ w.sent ++ outgoing p client rpc ∷ [])
            × Mirrors excused (S rpc) X (p.nodes w.sent (outgoing p client rpc)) run.0)

    abbrev pub Talks :
        {A : Type 0} → ((rpc : Rpc) → Reply rpc → A → Type 0) → (A → Type 0) → App p A → Type 0
    Talks S X m = (w : World p) → Talked S X w (m w)

    pub Talks-send :
        (rpc : Rpc) (S : (asked : Rpc) → Reply asked → Reply rpc → Type 0) (X : Reply rpc → Type 0)
        → ¬ excused
        → Q rpc
        → ((reply : Reply rpc) → S rpc reply reply)
        → Talks S X (send p client rpc)
    unfolding send call
    Talks-send rpc S X never q fits w =
        elim (Result-cases (p.nodes w.sent (outgoing p client rpc))) [
          | inl (e, failed) ↦ inr (
            rpc,
            q,
            rw (failed, send, call) refl,
            rw (failed, send, call) (inl ((λ (x, missing). never x), refl)),
          )
          | inr (a, answered) ↦
              inr (rpc, q, rw (answered, send, call) refl, rw (answered, send, call) (fits a))
        ]

    -- What is made of a result.
    module _ {A B : Type 0} (f : A → B) where
      Succeeds-then :
          (T : B → Type 0) (r : Outcome A) (w : World p)
          → Succeeds (λ a. T (f a)) r
          → Succeeds T (continue p (λ a. pure p (f a)) r w).0
      Succeeds-then T (done a) w s = s
      Succeeds-then T (fail e) w s = s
      Succeeds-then T (reject status) w s = s
      Succeeds-then T panic w s = s

      IsRefused-then :
          (r : Outcome A) (w : World p)
          → IsRefused r
          → IsRefused (continue p (λ a. pure p (f a)) r w).0
      IsRefused-then (done a) w h = absurd h
      IsRefused-then (fail e) w h = tt
      IsRefused-then (reject status) w h = tt
      IsRefused-then panic w h = h

      Mirrors-then :
          {R : Type 0} (T : R → B → Type 0) (Y : B → Type 0) (reply : Result R Status)
          (r : Outcome A) (w : World p)
          → Mirrors excused (λ x a. T x (f a)) (λ a. Y (f a)) reply r
          → Mirrors excused T Y reply (continue p (λ a. pure p (f a)) r w).0
      Mirrors-then T Y (ok reply) r w s = Succeeds-then (T reply) r w s
      Mirrors-then T Y (err status) r w (inl (other, same)) = rw same (inl (other, refl))
      Mirrors-then T Y (err status) r w (inr (x, missing, s)) =
          inr (x, missing, Succeeds-then Y r w s)

      continue-sent :
          (r : Outcome A) (w : World p) → (continue p (λ a. pure p (f a)) r w).1.sent ≡ w.sent
      continue-sent (done a) w = refl
      continue-sent (fail e) w = refl
      continue-sent (reject status) w = refl
      continue-sent panic w = refl

      -- The RPC comes before what makes an answer of its result.
      pub Talks-then :
          (T : (rpc : Rpc) → Reply rpc → B → Type 0) (Y : B → Type 0) (m : App p A)
          → Talks (λ rpc x a. T rpc x (f a)) (λ a. Y (f a)) m
          → Talks T Y (m >>= λ a. pure p (f a))
      Talks-then T Y m h w = elim (h w) [
        | inl (same, refused, unready) ↦
            inl (
              continue-sent (m w).0 (m w).1 ∙ same,
              IsRefused-then (m w).0 (m w).1 refused,
              unready,
            )
        | inr (rpc, q, one, mirrors) ↦ inr (
          rpc,
          q,
          continue-sent (m w).0 (m w).1 ∙ one,
          Mirrors-then (T rpc) Y (p.nodes w.sent (outgoing p client rpc)) (m w).0 (m w).1 mirrors,
        )
      ]

    module _ {A B : Type 0} (T : (rpc : Rpc) → Reply rpc → B → Type 0) (Y : B → Type 0) where
      continue-Talks :
          (f : A → App p B) (r : Outcome A) (w : World p)
          → Returns r
          → (ready → (a : A) × (r ≡ done a))
          → ((a : A) → Talks T Y (f a))
          → Talked T Y w (continue p f r w)
      continue-Talks f (done a) w safe given h = h a w
      continue-Talks f (fail e) w safe given h = inl (refl, tt, λ x. let (a, same) = given x in cc)
      continue-Talks f (reject status) w safe given h =
          inl (refl, tt, λ x. let (a, same) = given x in cc)
      continue-Talks f panic w safe given h = absurd safe

      -- The RPC comes after what leaves the state as it is, and gives a result if all is ready.
      pub Talks-after :
          (m : App p A) (f : A → App p B)
          → IsPure p m
          → (ready → (w : World p) → (a : A) × ((m w).0 ≡ done a))
          → ((a : A) → Talks T Y (f a))
          → Talks T Y (m >>= f)
      Talks-after m f h given k w =
          let (same, returns, _) = h w in
          subst (λ v. Talked T Y v (continue p f (m w).0 (m w).1)) same
            (continue-Talks f (m w).0 (m w).1 returns (λ x. given x w) k)

      -- ... after an extractor of axum's, or a conversion.
      pub Talks-extract :
          (given : Extracted A) (f : A → App p B)
          → (ready → (a : A) × (given ≡ ok a))
          → ((a : A) → given ≡ ok a → Talks T Y (f a))
          → Talks T Y (extract p given >>= f)
      unfolding extract
      Talks-extract (ok a) f there h w = h a refl w
      Talks-extract (err status) f there h w = inl (refl, tt, λ x. let (a, same) = there x in cc)

      pub Talks-or_fail :
          (r : Result A AppError) (f : A → App p B)
          → (ready → (a : A) × (r ≡ ok a))
          → ((a : A) → r ≡ ok a → Talks T Y (f a))
          → Talks T Y (or_fail p client r >>= f)
      Talks-or_fail (ok a) f there h w = h a refl w
      Talks-or_fail (err e) f there h w = inl (refl, tt, λ x. let (a, same) = there x in cc)
