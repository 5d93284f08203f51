-- ===== src/Xray/Handler/Added.antt =====
-- What `add_user` sends.
use xray_bridge.Prelude.{
  ◌⊎◌, ℕ, ◌≡◌, refl, Result, ok, err, some, [], ◌∷◌, ◌++◌, Result-cases, inl, inr,
}
use xray_bridge.Text.{Str}
use xray_bridge.Error.{AppError}
use xray_bridge.Outcome.{fail}
use xray_bridge.Proto.{TypedMessage}
use xray_bridge.Grpc.{Rpc}
use xray_bridge.App.{Platform, Client, World, outgoing, send, call}
use xray_bridge.Xray.Account.{build_account_typed_message, add_user_op_type}
use xray_bridge.Xray.Handler.{add_user}

pub send-sent :
    (p : Platform) (client : Client p) (rpc : Rpc) (w : World p)
    → (send p client rpc w).1.sent ≡ w.sent ++ outgoing p client rpc ∷ []
unfolding send call
send-sent p client rpc w = elim (Result-cases (p.nodes w.sent (outgoing p client rpc))) [
  | inl (e, failed) ↦ rw (failed, send, call)
  | inr (a, answered) ↦ rw (answered, send, call)
]

module _ (p : Platform) (client : Client p) (w : World p) (tag email proto : Str) (level : ℕ)
    (uuid flow vmess_security password ss_cipher : Str) where
  abbrev pub account : Result TypedMessage AppError
  account =
      build_account_typed_message p.unicode p.prost (p.unicode.to_lowercase proto) uuid flow
        vmess_security password ss_cipher

  -- The one request of a call: an operation on the inbound of that tag, and what the node reads in it.
  pub record Adds (typed : TypedMessage) : Type 0 where
    pub operation : TypedMessage
    pub is_add_user : operation.type_name ≡ add_user_op_type
    pub reads :
        p.prost.add_user_operation.decode operation.value
        ≡ some
            (record { user = some (record { level = level; email = email; account = some typed }) })
    pub sends :
        (add_user p client tag email proto level uuid flow vmess_security password ss_cipher
          w).1.sent
        ≡ w.sent
          ++ outgoing p client
              (Rpc.alter_inbound (record { tag = tag; operation = some operation }))
            ∷ []

  -- When the account cannot be built, `add_user` fails with that error and sends nothing. Otherwise
  -- it sends exactly one request, an operation on the inbound of the given tag, in which the node
  -- reads the user with the given level and email and the account that was built.
  pub add_user-cases :
      ((e : AppError) × (account ≡ err e)
        × (add_user p client tag email proto level uuid flow vmess_security password ss_cipher w
            ≡ (fail e, w)))
      ⊎ ((typed : TypedMessage) × (account ≡ ok typed) × Adds typed)
  unfolding add_user
  add_user-cases = elim (Result-cases account) [
    | inl (e, bad) ↦ inl (e, bad, rw (bad, add_user))
    | inr (typed, good) ↦ inr (
      typed,
      good,
      record {
        operation = record {
          type_name = add_user_op_type;
          value = p.prost.add_user_operation.encode_to_vec (record {
            user = some (record { level = level; email = email; account = some typed });
          });
        };
        is_add_user = refl;
        reads = p.prost.add_user_operation.decode-encode _;
        sends = rw (good, add_user) (send-sent p client _ w);
      },
    )
  ]
