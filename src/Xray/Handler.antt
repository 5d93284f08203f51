-- ===== src/Xray/Handler.antt =====
-- src/xray/handler.rs: the calls of a node's HandlerService.
pub mod Added
pub mod Removed
use xray_bridge.Prelude.{ℕ, Option, none, some, Result, ok, err, true, List, [], ◌∷◌, map}
use xray_bridge.Text.{Str}
use xray_bridge.Json.{Json, str, object! }
use xray_bridge.Error.{AppError}
use xray_bridge.Proto.{TypedMessage, InboundHandlerConfig, OutboundHandlerConfig, User}
use xray_bridge.Grpc.{Rpc}
use xray_bridge.App.{Platform, Client, App, pure, raise, send, ◌>>=◌, ◌>>◌}
use xray_bridge.Xray.Account.{build_account_typed_message, add_user_op_type, remove_user_op_type}

module _ (p : Platform) (client : Client p) where
  -- `?` on a `Result` that no step made
  abbrev pub or_fail : {A : Type 0} → Result A AppError → App p A
  or_fail (ok a) = pure p a
  or_fail (err e) = raise p e

  unfoldable pub add_user :
      (tag email proto : Str) (level : ℕ) (uuid flow vmess_security password ss_cipher : Str)
      → App p (Unit {0})
  add_user tag email proto level uuid flow vmess_security password ss_cipher = do
    account_typed ← or_fail (
        build_account_typed_message p.unicode p.prost (p.unicode.to_lowercase proto) uuid flow
          vmess_security password ss_cipher)
    let user : User = record { level = level; email = email; account = some account_typed }
    let op_typed : TypedMessage = record {
      type_name = add_user_op_type;
      value = p.prost.add_user_operation.encode_to_vec (record { user = some user });
    }
    send p client (Rpc.alter_inbound (record { tag = tag; operation = some op_typed }))

  unfoldable pub remove_user : (tag email : Str) → App p (Unit {0})
  remove_user tag email =
      let op_typed : TypedMessage = record {
        type_name = remove_user_op_type;
        value = p.prost.remove_user_operation.encode_to_vec (record { email = email });
      } in
      send p client (Rpc.alter_inbound (record { tag = tag; operation = some op_typed }))

  unfoldable pub list_inbounds : App p (List Json)
  list_inbounds = do
    inbounds ← send p client (Rpc.list_inbounds true)
    pure p (map (λ (ib : InboundHandlerConfig). object! (("tag", str ib.tag) ∷ [])) inbounds)

  unfoldable pub add_inbound : InboundHandlerConfig → App p (Unit {0})
  add_inbound config = send p client (Rpc.add_inbound (some config))

  unfoldable pub remove_inbound : Str → App p (Unit {0})
  remove_inbound tag = send p client (Rpc.remove_inbound tag)

  unfoldable pub list_outbounds : App p (List Json)
  list_outbounds = do
    outbounds ← send p client Rpc.list_outbounds
    pure p (map (λ (ob : OutboundHandlerConfig). object! (("tag", str ob.tag) ∷ [])) outbounds)

  unfoldable pub add_outbound : OutboundHandlerConfig → App p (Unit {0})
  add_outbound config = send p client (Rpc.add_outbound (some config))

  unfoldable pub remove_outbound : Str → App p (Unit {0})
  remove_outbound tag = send p client (Rpc.remove_outbound tag)
