-- ===== src/Routes/Serve/Shapes.antt =====
-- The shapes of the handlers, by what stands between `NodeContext` and the call of the node.
use xray_bridge.Prelude.{Bool-cases, ◌&&◌, Result, inl, inr, refl, Option-cases}
use xray_bridge.Config.{Settings}
use xray_bridge.Extern.Http.{Headers}
use xray_bridge.Error.{Response, AppError}
use xray_bridge.App.{Platform, Client, App, pure, ◌>>=◌, ◌>>◌}
use xray_bridge.Text.{Str, utf8}
use xray_bridge.Json.{Json, get}
use xray_bridge.Routes.Extract.{Extracted, auth, extract}
use xray_bridge.Routes.Handler
use xray_bridge.Routes.Serve.Effects.{
  Returns, IsPure, Calls, Calls-then, Calls-after, IsPure-extract,
}
use xray_bridge.Routes.Serve.Guarded.{Gated, Gated-auth, Gated-extract}
use xray_bridge.Routes.Serve.Rpcs
use xray_bridge.Xray.Handler.{or_fail}
use xray_bridge.Extern.Unicode.{Unicode}
use xray_bridge.Outcome.{Outcome, fail, panic}

pub removal_answer-Returns :
    (u : Unicode) (q : Handler.RemoveUserQuery) (email : Str) (r : Outcome (Unit {0}))
    → Returns r
    → Returns (Handler.removal_answer u q email r)
unfolding Handler.removal_answer
removal_answer-Returns u q email (fail (AppError.grpc code details)) h =
    elim (Bool-cases (Handler.is_not_found u code details && q.ignore_missing)) [
      | inl ignored ↦ rw (ignored, Handler.removal_answer) tt
      | inr passed ↦ rw (passed, Handler.removal_answer) tt
    ]
removal_answer-Returns u q email panic h = absurd h
removal_answer-Returns u q email _ h = tt

module _ (p : Platform) (settings : Settings) (headers : Headers) where
  -- A handler that calls a node and then answers.
  pub call_then_pure :
      {A : Type 0} (client : Client p) (m : App p A) (f : A → Response)
      → Calls p client m
      → Calls p client (m >>= λ a. pure p (f a))
  call_then_pure client m f h =
      Calls-then p client m (λ a. pure p (f a)) h (λ a w. (refl, tt, λ c. refl))

  -- The shapes of the handlers, by what stands between `NodeContext` and `BearerAuth`.
  pub Gated-extract-auth :
      {T : Type 0} (given : Extracted T) (k : Client p → T → App p Response)
      → ((client : Client p) (a : T) → Calls p client (k client a))
      → Gated p settings headers
          (λ client. extract p given >>= λ a. auth p settings headers >> k client a)
  Gated-extract-auth given k h =
      Gated-extract p settings headers given _
        (λ a. Gated-auth p settings headers (λ client. k client a) (λ client. h client a))

  pub Gated-extract_both :
      {S T : Type 0} (path : Extracted S) (given : Extracted T)
      (k : Client p → S → T → App p Response)
      → ((client : Client p) (a : S) (b : T) → Calls p client (k client a b))
      → Gated p settings headers (λ client.
        extract p path >>= λ a. extract p given >>= λ b. auth p settings headers >> k client a b)
  Gated-extract_both path given k h = Gated-extract p settings headers path _ (λ a.
      Gated-extract p settings headers given _
        (λ b. Gated-auth p settings headers (λ client. k client a b) (λ client. h client a b)))

  -- A body is extracted behind `BearerAuth`.
  pub body_then :
      {T A : Type 0} (client : Client p) (given : Extracted T) (m : T → App p A)
      (f : T → A → Response)
      → ((a : T) → Calls p client (m a))
      → Calls p client (extract p given >>= λ a. m a >>= λ b. pure p (f a b))
  body_then client given m f h =
      Calls-after p client (extract p given) _ (IsPure-extract p given)
        (λ a. call_then_pure client (m a) (f a) (h a))

  pub IsPure-has_tag : (config : Json) → IsPure p (Handler.has_tag p config)
  unfolding Handler.has_tag
  IsPure-has_tag config w = elim (Option-cases (get config (utf8 "tag"))) [
    | inl missing ↦ rw (missing, Handler.has_tag) (refl, tt, λ c. refl)
    | inr (v, found) ↦ rw (found, Handler.has_tag) (refl, tt, λ c. refl)
  ]

  -- The body's configuration is tested for its tag and converted behind `BearerAuth`.
  pub config_then :
      {T : Type 0} (client : Client p) (given : Extracted Handler.InboundConfigBody)
      (convert : Json → Result T AppError) (add : T → App p (Unit {0})) (f : Str → Response)
      → ((config : T) → Calls p client (add config))
      → Calls p client (
          extract p given >>= λ body. Handler.has_tag p body.config >>= λ tag.
          or_fail p client (convert body.config) >>= λ config. add config >> pure p (f tag))
  config_then client given convert add f h =
      Calls-after p client (extract p given) _ (IsPure-extract p given) (λ body.
        Calls-after p client (Handler.has_tag p body.config) _ (IsPure-has_tag body.config) (λ tag.
          Calls-after p client (or_fail p client (convert body.config))
            (λ config. add config >> pure p (f tag))
            (Rpcs.IsPure-or_fail p client (convert body.config))
            (λ config. call_then_pure client (add config) (λ _. f tag) (h config))))
