-- ===== src/Xray/Stats/Missing.antt =====
-- The errors that stand for a counter that does not exist yet.
use xray_bridge.Prelude.{
  ◌≡◌, ◌≢◌, ◌↔◌, ◌⊎◌, ◌∙◌, ap, inl, inr, arith, Bool, true, Bool-cases, Option, some, none,
  Option-cases, Result, ok, err, Result-cases,
}
use xray_bridge.Json.{pos}
use xray_bridge.Outcome.{done, fail}
use xray_bridge.Proto.{Stat}
use xray_bridge.Grpc.{Rpc}
use xray_bridge.App.{Platform, Client, World, outgoing, call}
use xray_bridge.Text.{Str}
use xray_bridge.Error.{
  Code, code_eq, Status, status_not_found, grpc_code_to_http, into_response, from_status,
}
use xray_bridge.Extern.Unicode.{Unicode}
use xray_bridge.Xray.Stats.{is_missing, get_stat}

by_code :
    (u : Unicode) (code : Code) (message : Str)
    → (is_missing u (record { code = code; message = message }) ≡ true)
      ↔ (grpc_code_to_http u code message ≡ status_not_found)
unfolding is_missing grpc_code_to_http code_eq
by_code u Code.unknown message = ground arith
by_code u _ message = ground arith

-- `get_stat` takes exactly those statuses for a missing counter that the HTTP mapping answers 404.
pub is_missing-grpc_code_to_http :
    (u : Unicode) (status : Status)
    → (is_missing u status ≡ true)
      ↔ (grpc_code_to_http u status.code status.message ≡ status_not_found)
unfolding is_missing
is_missing-grpc_code_to_http u status = by_code u status.code status.message

module _ (p : Platform) (client : Client p) (name : Str) (reset : Bool) (w : World p) where
  abbrev pub reply : Result (Option Stat) Status
  reply = p.nodes w.sent (outgoing p client (Rpc.get_stats name reset))

  -- `get_stat` gives the value of the counter in the reply, and 0 for a reply without a counter and
  -- for an error that would be answered 404; any other error is passed on, and it is not answered
  -- 404.
  pub get_stat-cases :
      ((s : Stat) × (reply ≡ ok (some s)) × ((get_stat p client name reset w).0 ≡ done s.value))
      ⊎ ((reply ≡ ok none) × ((get_stat p client name reset w).0 ≡ done (pos 0)))
      ⊎ ((status : Status) × (reply ≡ err status)
          × ((into_response p.unicode (from_status status)).status ≡ status_not_found)
          × ((get_stat p client name reset w).0 ≡ done (pos 0)))
      ⊎ ((status : Status) × (reply ≡ err status)
          × ((into_response p.unicode (from_status status)).status ≢ status_not_found)
          × ((get_stat p client name reset w).0 ≡ fail (from_status status)))
  unfolding get_stat call into_response from_status
  get_stat-cases = elim (Result-cases reply) [
    | inr (answer, answered) ↦ elim (Option-cases answer) [
      | inl absent ↦ inr (inl (answered ∙ ap ok absent, rw (answered, absent, get_stat, call)))
      | inr (s, found) ↦ inl (s, answered ∙ ap ok found, rw (answered, found, get_stat, call))
    ]
    | inl (status, failed) ↦
        let same = is_missing-grpc_code_to_http p.unicode status in
        elim (Bool-cases (is_missing p.unicode status)) [
          | inl missing ↦
              inr (inr (inl (status, failed, same.0 missing, rw (failed, missing, get_stat, call))))
          | inr other ↦
              inr (
                inr
                  (inr (status, failed, (λ h. cc (same.1 h)), rw (failed, other, get_stat, call))))
        ]
  ]
