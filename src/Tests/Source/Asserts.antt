-- ===== src/Tests/Source/Asserts.antt =====
-- What the tests assert.
use xray_bridge.Prelude.{Bool, true, false, ◌&&◌, ℕ, ◌==◌, Option, none, some, List, [], ◌∷◌}
use xray_bridge.Text.{Str, str_eq}
use xray_bridge.Outcome.{Outcome, done, fail}
use xray_bridge.Error.{AppError}
use xray_bridge.Routes.Serve.{Answer, answered, rejected}

abbrev pub asserts : List Bool → Bool
asserts [] = true
asserts (b ∷ bs) = b && asserts bs

abbrev pub is_text : Option Str → Str → Bool
is_text none s = false
is_text (some t) s = str_eq t s

abbrev pub is_none : {A : Type 0} → Option A → Bool
is_none none = true
is_none (some a) = false

abbrev pub is_ok : {A : Type 0} → Outcome A → Bool
is_ok (done a) = true
is_ok _ = false

abbrev pub is_unauthenticated : {A : Type 0} → Outcome A → Bool
is_unauthenticated (fail (AppError.unauthenticated msg)) = true
is_unauthenticated _ = false

abbrev pub has_status : Answer → ℕ → Bool
has_status (answered response) status = response.status == status
has_status (rejected n) status = n == status
has_status _ status = false
