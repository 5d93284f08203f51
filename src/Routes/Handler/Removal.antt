-- ===== src/Routes/Handler/Removal.antt =====
-- What `remove_user_handler` makes of a failed removal.
use xray_bridge.Prelude.{true, ◌≡◌, ◌⊎◌, ◌↔◌, arith}
use xray_bridge.Text.{Str}
use xray_bridge.Error.{Code, AppError, code_eq, into_response, status_not_found, grpc_code_to_http}
use xray_bridge.Extern.Unicode.{Unicode}
use xray_bridge.Outcome.{done, fail}
use xray_bridge.Routes.Handler.{RemoveUserQuery, is_not_found, removal_ignored, removal_answer}

by_code :
    (u : Unicode) (code : Code) (details : Str)
    → (is_not_found u code details ≡ true) ↔ (grpc_code_to_http u code details ≡ status_not_found)
unfolding is_not_found grpc_code_to_http code_eq
by_code u Code.unknown details = ground arith
by_code u _ details = ground arith

-- A failed removal is answered as a success, with a note, exactly when the error would have been
-- answered 404 and the caller asked to ignore a missing user; any other error is passed on as it is.
pub removal_answer-fail :
    (u : Unicode) (q : RemoveUserQuery) (email : Str) (e : AppError)
    → (((into_response u e).status ≡ status_not_found)
        × (q.ignore_missing ≡ true)
        × (removal_answer u q email (fail e) ≡ done (removal_ignored q.tag email)))
      ⊎ (¬ (((into_response u e).status ≡ status_not_found) × (q.ignore_missing ≡ true))
          × (removal_answer u q email (fail e) ≡ fail e))
unfolding removal_answer into_response
removal_answer-fail u q email (AppError.grpc code details) = ground (arith, by_code u code details)
removal_answer-fail u q email _ = ground arith
