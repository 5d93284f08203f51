-- ===== src/Xray/Handler/Removed.antt =====
-- What `remove_user` sends.
use xray_bridge.Prelude.{◌≡◌, refl, some, [], ◌∷◌, ◌++◌}
use xray_bridge.Text.{Str}
use xray_bridge.Proto.{TypedMessage}
use xray_bridge.Grpc.{Rpc}
use xray_bridge.App.{Platform, Client, World, outgoing}
use xray_bridge.Xray.Account.{remove_user_op_type}
use xray_bridge.Xray.Handler.{remove_user}
use xray_bridge.Xray.Handler.Added.{send-sent}

module _ (p : Platform) (client : Client p) (w : World p) (tag email : Str) where
  -- `remove_user` sends exactly one request, an operation on the inbound of the given tag, whose type
  -- is that of a removal and in which the node reads the given email.
  pub remove_user-sends :
      (operation : TypedMessage) × (operation.type_name ≡ remove_user_op_type)
      × (p.prost.remove_user_operation.decode operation.value ≡ some (record { email = email }))
      × ((remove_user p client tag email w).1.sent
          ≡ w.sent
            ++ outgoing p client
                (Rpc.alter_inbound (record { tag = tag; operation = some operation }))
              ∷ [])
  unfolding remove_user
  remove_user-sends = (
    record {
      type_name = remove_user_op_type;
      value = p.prost.remove_user_operation.encode_to_vec (record { email = email });
    },
    refl,
    p.prost.remove_user_operation.decode-encode (record { email = email }),
    send-sent p client _ w,
  )
