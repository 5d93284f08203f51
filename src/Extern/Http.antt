-- ===== src/Extern/Http.antt =====
-- The `http` crate: a request's headers, and `HeaderValue::to_str`, which gives the text of a value
-- made of visible ASCII characters and tabs.
use xray_bridge.Prelude.{ℕ, ◌≤◌, ◌<◌, ◌≡◌, ◌⊎◌, Option, some, All}
use xray_bridge.Text.{Str}

abbrev pub IsVisible : ℕ → Type 0
IsVisible b = (b ≡ 9) ⊎ ((32 ≤ b) × (b < 127))

-- `headers.get(name)`, for a name in lower case.
abbrev pub Headers : Type 0
Headers = Str → Option Str

pub record Http : Type 0 where
  pub to_str : Str → Option Str
  pub to_str-some : (v s : Str) → to_str v ≡ some s → (s ≡ v) × All IsVisible v
  pub to_str-visible : (v : Str) → All IsVisible v → to_str v ≡ some v
