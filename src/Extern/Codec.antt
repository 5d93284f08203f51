-- ===== src/Extern/Codec.antt =====
-- `prost`'s encoding of the messages that travel inside a `TypedMessage`, and base64. A decoder
-- reads an encoded message back: the receiver of a message sees what was encoded.
use xray_bridge.Prelude.{◌≡◌, some, Option, Result}
use xray_bridge.Text.{Str}
use xray_bridge.Proto.{
  Bytes, AddUserOperation, RemoveUserOperation, VlessAccount, VmessAccount, TrojanAccount,
  ShadowsocksAccount,
}

-- The encoding of one message type.
pub record Codec (M : Type 0) : Type 0 where
  pub encode_to_vec : M → Bytes
  pub decode : Bytes → Option M
  pub decode-encode : (m : M) → decode (encode_to_vec m) ≡ some m

pub record Prost : Type 0 where
  pub add_user_operation : Codec AddUserOperation
  pub remove_user_operation : Codec RemoveUserOperation
  pub vless_account : Codec VlessAccount
  pub vmess_account : Codec VmessAccount
  pub trojan_account : Codec TrojanAccount
  pub shadowsocks_account : Codec ShadowsocksAccount

-- `B64.decode`; an error is given by its text
pub record Base64 : Type 0 where
  pub decode : Str → Result Bytes Str
