-- ===== src/Routes/Serve/Talk/Rules.antt =====
-- What it is for a handler to keep to its specification, by the shapes of the handlers.
use xray_bridge.Prelude.{refl, ◌≡◌, ok}
use xray_bridge.Auth.{BearerAuth}
use xray_bridge.Auth.Laws.{Grants, bearer_auth-done_iff}
use xray_bridge.Outcome.{done}
use xray_bridge.Config.{Settings}
use xray_bridge.Error.{Response}
use xray_bridge.Extern.Http.{Headers}
use xray_bridge.Grpc.{Rpc, Reply}
use xray_bridge.App.{Platform, Client, World, App, pure, send, ◌>>=◌, ◌>>◌}
use xray_bridge.Routes.Extract.{Extracted, auth, extract}
use xray_bridge.Routes.Serve.{Endpoint}
use xray_bridge.Routes.Serve.Guarded.{auth-IsPure}
use xray_bridge.Routes.Serve.Talk.{Talks, Talks-send, Talks-then, Talks-after, Talks-extract}
use xray_bridge.Routes.Serve.Talk.Spec.{Asks, Excuses, Yields, Forgives}

module _ (p : Platform) (settings : Settings) (headers : Headers) (client : Client p) where
  -- The request is authorized, and it has all that the endpoint needs to ask for an RPC.
  abbrev pub IsReady : Endpoint → Type 0
  IsReady e = Grants settings headers × (rpc : Rpc) × Asks p e rpc

  -- The endpoint's run, without its `NodeContext`, keeps to the specification.
  abbrev pub KeepsTo : Endpoint → App p Response → Type 0
  KeepsTo e = Talks p client (Excuses e) (IsReady e) (Asks p e) (Yields e) (Forgives e)

  -- A handler makes an RPC, and its reply becomes the answer.
  pub answers :
      {A : Type 0} (e : Endpoint) (m : App p A) (f : A → Response)
      → Talks p client
          (Excuses e)
          (IsReady e)
          (Asks p e)
          (λ rpc reply a. Yields e rpc reply (f a))
          (λ a. Forgives e (f a))
          m
      → KeepsTo e (m >>= λ a. pure p (f a))
  answers e m f h =
      Talks-then p client (Excuses e) (IsReady e) (Asks p e) f (Yields e) (Forgives e) m h

  auth-done :
      Grants settings headers
      → (w : World p) → (a : BearerAuth) × ((auth p settings headers w).0 ≡ done a)
  unfolding auth
  auth-done granted w =
      let passed = (bearer_auth-done_iff p.unicode p.http settings headers).1 granted in
      (record {}, rw (passed, auth) refl)

  -- ... after it has checked the token.
  pub checked :
      (e : Endpoint) (k : App p Response) → KeepsTo e k → KeepsTo e (auth p settings headers >> k)
  checked e k h =
      Talks-after p client (Excuses e) (IsReady e) (Asks p e) (Yields e) (Forgives e)
        (auth p settings headers) (λ _. k) (auth-IsPure p settings headers)
        (λ (granted, rpc, q). auth-done granted) (λ _. h)

  pub sends :
      (e : Endpoint) (rpc : Rpc) (f : Reply rpc → Response)
      → ¬ Excuses e
      → Asks p e rpc
      → ((reply : Reply rpc) → Yields e rpc reply (f reply))
      → KeepsTo e (send p client rpc >>= λ a. pure p (f a))
  sends e rpc f never q fits = answers e _ f (
      Talks-send p client (Excuses e) (IsReady e) (Asks p e) rpc
        (λ asked reply a. Yields e asked reply (f a)) (λ a. Forgives e (f a)) never q fits)

  -- ... and whose reply is put into another form first.
  pub sends_then :
      {B : Type 0} (e : Endpoint) (rpc : Rpc) (f : Reply rpc → B) (g : B → Response)
      → ¬ Excuses e
      → Asks p e rpc
      → ((reply : Reply rpc) → Yields e rpc reply (g (f reply)))
      → KeepsTo e ((send p client rpc >>= λ a. pure p (f a)) >>= λ b. pure p (g b))
  sends_then e rpc f g never q fits = answers e _ g (
      Talks-then p client (Excuses e) (IsReady e) (Asks p e) f
        (λ asked reply b. Yields e asked reply (g b)) (λ b. Forgives e (g b)) _
        (Talks-send p client (Excuses e) (IsReady e) (Asks p e) rpc
          (λ asked reply a. Yields e asked reply (g (f a))) (λ a. Forgives e (g (f a))) never q
          fits))

  -- ... and a parameter in front, or two of them.
  pub extracted :
      {T : Type 0} (e : Endpoint) (given : Extracted T) (k : T → App p Response)
      → (IsReady e → (a : T) × (given ≡ ok a))
      → ((a : T) → given ≡ ok a → KeepsTo e (k a))
      → KeepsTo e (extract p given >>= k)
  extracted e given k there h =
      Talks-extract p client (Excuses e) (IsReady e) (Asks p e) (Yields e) (Forgives e) given k
        there h
