-- ===== src/Config/Laws.antt =====
-- The settings that the environment gives.
use xray_bridge.Prelude.{
  ◌≡◌, ◌≢◌, ◌<◌, ◌⊎◌, ◌∙◌, ap, inl, inr, Option, some, none, [], ok, err, arith, Bool-cases,
  Option-cases, and_then, unwrap_or,
}
use xray_bridge.Text.{Str, utf8, is_empty}
use xray_bridge.Text.Laws.{is_empty_iff}
use xray_bridge.Text.Number.{parse_u16, parse_u16-lt}
use xray_bridge.Config.{Settings, from_env}

module _ (var : Str → Option Str) where
  port-lt : unwrap_or (and_then (var (utf8 "PORT")) parse_u16) 8080 < 65536
  port-lt = elim (Option-cases (and_then (var (utf8 "PORT")) parse_u16)) [
    | inl missing ↦ rw missing (omega arith)
    | inr (n, found) ↦ elim (Option-cases (var (utf8 "PORT"))) [
      | inl unset ↦ cc
      | inr (s, set) ↦ rw found (parse_u16-lt s (ground arith))
    ]
  ]

  -- The settings are loaded when BRIDGE_TOKEN is set and not empty: then the token is its value and
  -- the port fits in 16 bits. Otherwise there is an error.
  pub from_env-cases :
      ((settings : Settings) × (from_env var ≡ ok settings)
        × (var (utf8 "BRIDGE_TOKEN") ≡ some settings.bridge_token)
        × (settings.bridge_token ≢ [])
        × (settings.port < 65536))
      ⊎ ((msg : Str) × (from_env var ≡ err msg)
          × ((var (utf8 "BRIDGE_TOKEN") ≡ none) ⊎ (var (utf8 "BRIDGE_TOKEN") ≡ some [])))
  unfolding from_env
  from_env-cases = elim (Option-cases (var (utf8 "BRIDGE_TOKEN"))) [
    | inl unset ↦
        inr (utf8 "BRIDGE_TOKEN environment variable is required", rw (unset, from_env), inl unset)
    | inr (token, set) ↦ elim (Bool-cases (is_empty token)) [
      | inl empty ↦ inr (
        utf8 "BRIDGE_TOKEN must not be empty",
        rw (set, empty, from_env),
        inr (set ∙ ap some ((is_empty_iff token).0 empty)),
      )
      | inr full ↦ inl (
        record {
          bridge_token = token;
          port = unwrap_or (and_then (var (utf8 "PORT")) parse_u16) 8080;
        },
        rw (set, full, from_env),
        set,
        (λ h. cc ((is_empty_iff token).1 h)),
        port-lt,
      )
    ]
  ]
