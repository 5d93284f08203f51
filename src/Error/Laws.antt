-- ===== src/Error/Laws.antt =====
-- When an error is answered 404.
use xray_bridge.Prelude.{◌≡◌, ◌⊎◌, ◌↔◌, arith}
use xray_bridge.Text.{Str, utf8}
use xray_bridge.Text.Laws.{Occurs, contains_iff}
use xray_bridge.Extern.Unicode.{Unicode}
use xray_bridge.Error.{Code, status_not_found, grpc_code_to_http}

-- The details say "not found", in any case.
abbrev pub SaysNotFound : Unicode → Str → Type 0
SaysNotFound u details = Occurs (utf8 "not found") (u.to_lowercase details)

-- An RPC error is answered 404 exactly when its code is NOT_FOUND, or its code is UNKNOWN and its
-- details, in lower case, hold the words "not found".
pub grpc_code_to_http-not_found_iff :
    (u : Unicode) (code : Code) (details : Str)
    → (grpc_code_to_http u code details ≡ status_not_found)
      ↔ ((code ≡ Code.not_found) ⊎ ((code ≡ Code.unknown) × SaysNotFound u details))
unfolding grpc_code_to_http
grpc_code_to_http-not_found_iff u Code.unknown details =
    ground (arith, contains_iff (utf8 "not found") (u.to_lowercase details))
grpc_code_to_http-not_found_iff u _ details = ground arith
