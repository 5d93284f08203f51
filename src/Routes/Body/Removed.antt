-- ===== src/Routes/Body/Removed.antt =====
-- A request to remove a user, from the request to the answer.
use xray_bridge.Prelude.{
  Bool, ◌≡◌, refl, true, ok, err, some, [], ◌∷◌, ◌++◌, ◌∙◌, ap, sym, subst, ◌⊎◌, unwrap_or, inl,
  inr, Result, Result-cases,
}
use xray_bridge.Text.{Str}
use xray_bridge.Config.{Settings}
use xray_bridge.Error.{Status, into_response, from_status, status_not_found}
use xray_bridge.Outcome.{done, fail}
use xray_bridge.Extern.Http.{Headers}
use xray_bridge.Proto.{TypedMessage}
use xray_bridge.Grpc.{Rpc}
use xray_bridge.App.{Platform, Client, World, outgoing, send, call}
use xray_bridge.Auth.Laws.{Grants, bearer_auth-done_iff}
use xray_bridge.Xray.Account.{remove_user_op_type}
use xray_bridge.Xray.Handler.{remove_user}
use xray_bridge.Xray.Handler.Added.{send-sent}
use xray_bridge.Routes.Extract.{auth, extract}
use xray_bridge.Routes.Body.{RemoveUserFields, remove_user_query, required, default_ignore_missing}
use xray_bridge.Routes.Handler.{
  RemoveUserQuery, remove_user_handler, removal_answer, removed, removal_ignored,
}
use xray_bridge.Routes.Handler.Removal.{removal_answer-fail}
use xray_bridge.Routes.Serve.{Answer, answered, serve, handle, respond, delete_user}
use xray_bridge.Routes.Serve.Guarded.{context, entered, node-done}

module _ (p : Platform) (settings : Settings) (headers : Headers) (client : Client p)
    (given : RemoveUserFields) (tag email : Str) (w : World p) where
  abbrev ignore_missing : Bool
  ignore_missing = unwrap_or given.ignore_missing default_ignore_missing

  abbrev reply : TypedMessage → Result (Unit {0}) Status
  reply operation =
      p.nodes w.sent
        (outgoing p client (Rpc.alter_inbound (record { tag = tag; operation = some operation })))

  -- The answer, by the node's reply.
  pub data Answers (operation : TypedMessage) : Answer → Type 0 where
    gone : reply operation ≡ ok tt → Answers operation (answered (removed tag email))
    ignored :
        (status : Status)
        → reply operation ≡ err status
        → (into_response p.unicode (from_status status)).status ≡ status_not_found
        → ignore_missing ≡ true
        → Answers operation (answered (removal_ignored tag email))
    refused :
        (status : Status)
        → reply operation ≡ err status
        → ¬ (
            ((into_response p.unicode (from_status status)).status ≡ status_not_found)
            × (ignore_missing ≡ true))
        → Answers operation (answered (into_response p.unicode (from_status status)))

  -- The one request of the call, what the node reads in it, and the answer.
  pub record Removes : Type 0 where
    pub operation : TypedMessage
    pub is_remove_user : operation.type_name ≡ remove_user_op_type
    pub reads :
        p.prost.remove_user_operation.decode operation.value ≡ some (record { email = email })
    pub sends :
        (serve p settings headers (delete_user (ok email) (remove_user_query given)) w).1.sent
        ≡ w.sent
          ++ outgoing p client
              (Rpc.alter_inbound (record { tag = tag; operation = some operation }))
            ∷ []
    pub answers :
        Answers operation
          (serve p settings headers (delete_user (ok email) (remove_user_query given)) w).0

  abbrev query : RemoveUserQuery
  query = record { tag = tag; ignore_missing = ignore_missing }

  removal : TypedMessage
  removal = record {
    type_name = remove_user_op_type;
    value = p.prost.remove_user_operation.encode_to_vec (record { email = email });
  }

  -- Past the extractors the handler answers what `removal_answer` makes of the node's reply.
  delete_user-outcome :
      Grants settings headers
      → (context p settings headers w).0 ≡ done client
      → serve p settings headers (delete_user (ok email) (ok query)) w ≡ (
        respond p.unicode (
            removal_answer p.unicode query email
              (remove_user p client tag email (entered p settings headers w)).0),
        (remove_user p client tag email (entered p settings headers w)).1,
      )
  unfolding serve handle remove_user_handler extract auth
  delete_user-outcome grants got =
      let granted = (bearer_auth-done_iff p.unicode p.http settings headers).1 grants in
      ap (λ r. (respond p.unicode r.0, r.1)) (node-done p settings headers _ w got)
      ∙ rw granted refl

  -- What the call makes of the reply.
  remove_user-reply :
      ((reply removal ≡ ok tt)
        × ((remove_user p client tag email (entered p settings headers w)).0 ≡ done tt))
      ⊎ ((status : Status) × (reply removal ≡ err status)
          × ((remove_user p client tag email (entered p settings headers w)).0
              ≡ fail (from_status status)))
  unfolding remove_user send call removal
  remove_user-reply = elim (Result-cases (reply removal)) [
    | inr (u, done_so) ↦ inl (done_so, rw (done_so, send, call) refl)
    | inl (status, failed) ↦ inr (status, failed, rw (failed, send, call) refl)
  ]

  Answers-reply : Answers removal (
      respond p.unicode (
        removal_answer p.unicode query email
          (remove_user p client tag email (entered p settings headers w)).0))
  unfolding respond removal_answer
  Answers-reply = elim remove_user-reply [
    | inl (done_so, outcome) ↦ rw outcome (gone done_so)
    | inr (status, failed, outcome) ↦
        elim (removal_answer-fail p.unicode query email (from_status status)) [
          | inl (missing, wanted, same) ↦
              rw outcome (rw (same, respond) (ignored status failed missing wanted))
          | inr (other, same) ↦ rw outcome (rw (same, respond) (refused status failed other))
        ]
  ]

  -- An authorized request to remove a user that gives the tag sends exactly one request to the
  -- node of its headers, in which the node reads, on the inbound of that tag, the removal of
  -- that email. It is answered as a success when the node has done so, and also, with a note,
  -- when the node's error would be answered 404, unless ignore_missing is false; any other error
  -- is answered as itself.
  pub delete_user-cases :
      Grants settings headers
      → (context p settings headers w).0 ≡ done client
      → given.tag ≡ some tag
      → Removes
  unfolding remove_user_query required removal remove_user
  delete_user-cases grants got has_tag =
      let filled : remove_user_query given ≡ ok query = rw has_tag refl in
      let run =
        ap (λ q. serve p settings headers (delete_user (ok email) q) w) filled
        ∙ delete_user-outcome grants got in
      record {
        operation = removal;
        is_remove_user = refl;
        reads = p.prost.remove_user_operation.decode-encode _;
        sends = ap (λ r. r.1.sent) run ∙ send-sent p client _ (entered p settings headers w);
        answers = subst (Answers removal) (sym (ap (λ r. r.0) run)) Answers-reply;
      }
