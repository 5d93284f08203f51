-- ===== src/Config.antt =====
-- src/config.rs: the settings, from the environment.
pub mod Laws
use xray_bridge.Prelude.{ℕ, Option, none, some, Result, ok, err, if◌then◌else◌, and_then, unwrap_or}
use xray_bridge.Text.{Str, utf8, is_empty}
use xray_bridge.Text.Number.{parse_u16}

pub record Settings : Type 0 where
  pub bridge_token : Str
  pub port : ℕ

-- `std::env::var(name).ok()`, as a function of the name. The error is the outer text of the
-- `anyhow::Error`.
unfoldable pub from_env : (Str → Option Str) → Result Settings Str
from_env var = elim (var (utf8 "BRIDGE_TOKEN")) [
  | none ↦ err (utf8 "BRIDGE_TOKEN environment variable is required")
  | some bridge_token ↦
      if is_empty bridge_token
      then err (utf8 "BRIDGE_TOKEN must not be empty")
      else ok (record {
        bridge_token = bridge_token;
        port = unwrap_or (and_then (var (utf8 "PORT")) parse_u16) 8080;
      })
]
