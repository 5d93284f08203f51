-- ===== src/Auth.antt =====
-- src/auth.rs: the extractor that checks `Authorization: Bearer <token>`.
mod Bits
pub mod Compare
pub mod Laws
pub mod Scheme
use xray_bridge.Prelude.{
  ℕ, Bool, true, false, Option, none, some, not, Result, ok, err, if◌then◌else◌, and_then,
}
use xray_bridge.Text.{Str, utf8, is_empty, strip_prefix, starts_with, slice_from}
use xray_bridge.Config.{Settings}
use xray_bridge.Error.{AppError}
use xray_bridge.Outcome.{Outcome, done, fail, reject, panic}
use xray_bridge.Extern.Unicode.{Unicode}
use xray_bridge.Extern.Http.{Http, Headers}
use Compare.{constant_time_eq}

pub record BearerAuth : Type 0 where

abbrev pub bearer : Str
bearer = utf8 "bearer "

-- The closure behind `or_else`: a panic of the slice is kept apart from `None`.
strip_any_case : Unicode → Str → Outcome (Option Str)
strip_any_case u auth_str =
    let lower = u.to_lowercase auth_str in
    if starts_with bearer lower
    then elim (slice_from 7 auth_str) [ none ↦ panic | some token ↦ done (some token) ]
    else done none

pub strip_scheme : Unicode → Str → Outcome (Option Str)
unfolding strip_any_case
strip_scheme u auth_str = elim (strip_prefix (utf8 "Bearer ") auth_str) [
  | some token ↦ done (some token)
  | none ↦ strip_any_case u auth_str
]

abbrev pub wrong_format : Str
wrong_format = utf8 "Authorization header 格式应为: Bearer <token>"

abbrev pub missing_header : Str
missing_header = utf8 "缺少 Authorization header"

abbrev pub wrong_token : Str
wrong_token = utf8 "Token 无效"

check_token : Settings → Outcome (Option Str) → Outcome BearerAuth
check_token settings panic = panic
check_token settings (fail e) = fail e
check_token settings (reject n) = reject n
check_token settings (done none) = fail (AppError.unauthenticated wrong_format)
check_token settings (done (some token)) =
    if is_empty token
    then fail (AppError.unauthenticated wrong_format)
    else if not (constant_time_eq token settings.bridge_token)
    then fail (AppError.unauthenticated wrong_token)
    else done (record {})

unfoldable pub bearer_auth : Unicode → Http → Settings → Headers → Outcome BearerAuth
unfolding strip_scheme check_token
bearer_auth u http settings headers = elim (and_then (headers (utf8 "authorization")) http.to_str) [
  | none ↦ fail (AppError.unauthenticated missing_header)
  | some auth_str ↦ check_token settings (strip_scheme u auth_str)
]
