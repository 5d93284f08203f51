-- ===== src/Routes/Serve/Talk/Missing.antt =====
-- The endpoints that answer for what the node does not have keep to their specification.
use xray_bridge.Prelude.{
  Option, unwrap_or, subst, sym, ◌↔◌, ok, Bool, ◌≡◌, refl, inl, inr, Result-cases, Bool-cases, true,
  some,
}
use xray_bridge.Text.{Str}
use xray_bridge.Config.{Settings}
use xray_bridge.Error.{Status, Response, into_response, from_status}
use xray_bridge.Extern.Http.{Headers}
use xray_bridge.Grpc.{Rpc, Reply}
use xray_bridge.App.{Platform, Client, World, pure, call, send, outgoing}
use xray_bridge.Xray.Account.{remove_user_op_type}
use xray_bridge.Xray.Handler as XHandler
use xray_bridge.Xray.Stats as XStats
use xray_bridge.Xray.Stats.Missing.{is_missing-grpc_code_to_http}
use xray_bridge.Routes.Extract.{Extracted}
use xray_bridge.Routes.Handler
use xray_bridge.Routes.Handler.Removal.{removal_answer-fail}
use xray_bridge.Routes.Stats
use xray_bridge.Routes.Serve.{handle, get_stat, delete_user}
use xray_bridge.Routes.Serve.Talk.{Talks, Talked}
use xray_bridge.Routes.Serve.Talk.Spec.{Asks, Excuses, Yields, Forgives}
use xray_bridge.Routes.Serve.Talk.Replies.{Renders}
use xray_bridge.Routes.Serve.Talk.Reads.{counter_json}
use xray_bridge.Json.{ℤ, pos}
use xray_bridge.Proto.{Stat}
use mathlib.Core.Option
use xray_bridge.Routes.Serve.Talk.Rules.{IsReady, KeepsTo, answers, checked, extracted}

module _ (p : Platform) (client : Client p) where
  -- An error for a missing counter becomes 0; any other is passed on.
  get_stat-Talks :
      (ready : Type 0) (Q : Rpc → Type 0) (S : (rpc : Rpc) → Reply rpc → ℤ → Type 0)
      (X : ℤ → Type 0) (name : Str) (reset : Bool)
      → Q (Rpc.get_stats name reset)
      → ((stat : Option Stat)
          → S (Rpc.get_stats name reset) stat (unwrap_or (Option.map (λ s. s.value) stat) (pos 0)))
      → X (pos 0)
      → Talks p client Unit ready Q S X (XStats.get_stat p client name reset)
  unfolding XStats.get_stat call into_response from_status
  get_stat-Talks ready Q S X name reset q value zero w =
      let rpc = Rpc.get_stats name reset in
      let shown = λ (status : Status). is_missing-grpc_code_to_http p.unicode status in
      elim (Result-cases (p.nodes w.sent (outgoing p client rpc))) [
        | inr (a, answered) ↦ inr (
          rpc,
          q,
          rw (answered, XStats.get_stat, call) refl,
          rw (answered, XStats.get_stat, call) (value a),
        )
        | inl (status, failed) ↦ elim (Bool-cases (XStats.is_missing p.unicode status)) [
          | inl missing ↦ inr (
            rpc,
            q,
            rw (failed, missing, XStats.get_stat, call) refl,
            rw (failed, missing, XStats.get_stat, call) (inr (tt, (shown status).0 missing, zero)),
          )
          | inr other ↦ inr (
            rpc,
            q,
            rw (failed, other, XStats.get_stat, call) refl,
            rw (failed, other, XStats.get_stat, call)
                (inl ((λ (x, missing). cc ((shown status).1 missing, other)), refl)),
          )
        ]
      ]

  abbrev removed_by : Str → Str → Rpc
  removed_by tag email = Rpc.alter_inbound (record {
    tag = tag;
    operation = some (record {
      type_name = remove_user_op_type;
      value = p.prost.remove_user_operation.encode_to_vec (record { email = email });
    });
  })

  -- An error for a missing user becomes an answer where the query allows it; any other is passed on.
  removal-Talked :
      (excused ready : Type 0) (Q : Rpc → Type 0) (S : (rpc : Rpc) → Reply rpc → Response → Type 0)
      (X : Response → Type 0) (email : Str) (q : Handler.RemoveUserQuery)
      → excused ↔ (q.ignore_missing ≡ true)
      → Q (removed_by q.tag email)
      → S (removed_by q.tag email) tt (Handler.removed q.tag email)
      → X (Handler.removal_ignored q.tag email)
      → (w : World p)
      → Talked p client excused ready Q S X w (
        Handler.removal_answer p.unicode q email (XHandler.remove_user p client q.tag email w).0,
        (XHandler.remove_user p client q.tag email w).1,
      )
  unfolding XHandler.remove_user send call Handler.removal_answer
  removal-Talked excused ready Q S X email q excuse asked gone ignored w =
      elim (Result-cases (p.nodes w.sent (outgoing p client (removed_by q.tag email)))) [
        | inr (a, answered) ↦ inr (
          removed_by q.tag email,
          asked,
          rw (answered, send, call) refl,
          rw (answered, send, call) gone,
        )
        | inl (status, failed) ↦ elim (removal_answer-fail p.unicode q email (from_status status)) [
          | inl (missing, wanted, same) ↦ inr (
            removed_by q.tag email,
            asked,
            rw (failed, send, call) refl,
            rw (failed, send, call) (inr (excuse.1 wanted, missing, rw same ignored)),
          )
          | inr (other, same) ↦ inr (
            removed_by q.tag email,
            asked,
            rw (failed, send, call) refl,
            rw (failed, send, call) (inl ((λ (x, missing). other (missing, excuse.0 x)), same)),
          )
        ]
      ]

module _ (p : Platform) (settings : Settings) (headers : Headers) (client : Client p) where
  pub get_stat-KeepsTo :
      (path : Extracted Str) (given : Extracted Stats.ResetQuery)
      → KeepsTo p settings headers client
          (get_stat path given)
          (handle p settings headers (pure p client) (get_stat path given))
  unfolding handle Stats.get_stat_handler
  get_stat-KeepsTo path given =
      let e = get_stat path given in
      extracted p settings headers client e path _
        (λ (g, rpc, (name, q, found, same, _)). (name, found))
        (λ name found.
          extracted p settings headers client e given _
            (λ (g, rpc, (name, q, found, same, _)). (q, same))
            (λ q same. checked p settings headers client e _ (
              answers p settings headers client e _ _ (
                get_stat-Talks p client (IsReady p settings headers client e) (Asks p e) _ _ name
                  q.reset (name, q, found, same, refl)
                  (λ stat. (
                    refl,
                    subst (Renders e (Rpc.get_stats name q.reset) stat) (counter_json name _)
                        (Renders.counter_read stat),
                  ))
                  (name, found, refl, sym (counter_json name (pos 0)))))))

  excused_iff :
      (given : Extracted Handler.RemoveUserQuery) (q : Handler.RemoveUserQuery)
      → given ≡ ok q
      → ((r : Handler.RemoveUserQuery) × (given ≡ ok r) × (r.ignore_missing ≡ true))
        ↔ (q.ignore_missing ≡ true)
  excused_iff given q same = (
    λ (r, read, wanted). let one : r ≡ q = cc (read, same) in cc (one, wanted),
    λ wanted. (q, same, wanted),
  )

  pub delete_user-KeepsTo :
      (path : Extracted Str) (given : Extracted Handler.RemoveUserQuery)
      → KeepsTo p settings headers client
          (delete_user path given)
          (handle p settings headers (pure p client) (delete_user path given))
  unfolding handle Handler.remove_user_handler Handler.operation_result
  delete_user-KeepsTo path given =
      let e = delete_user path given in
      extracted p settings headers client e path _
        (λ (g, rpc, (email, q, found, same, _)). (email, found))
        (λ email found.
          extracted p settings headers client e given _
            (λ (g, rpc, (email, q, found, same, _)). (q, same))
            (λ q same. checked p settings headers client e _ (
              removal-Talked p client (Excuses e) (IsReady p settings headers client e) (Asks p e)
                (Yields e) (Forgives e) email q (excused_iff given q same)
                (email, q, found, same, refl) (refl, Renders.user_removed email q found same)
                (email, q, found, same, refl, refl))))
