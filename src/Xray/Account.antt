-- ===== src/Xray/Account.antt =====
-- src/xray/account.rs: the account of a user, in the message of its protocol.
pub mod Kinds
use xray_bridge.Prelude.{ℕ, ◌++◌, Result, ok, err, some, if◌then◌else◌}
use xray_bridge.Text.{Str, utf8, str_eq, is_empty}
use xray_bridge.Error.{AppError}
use xray_bridge.Extern.Unicode.{Unicode}
use xray_bridge.Extern.Codec.{Prost}
use xray_bridge.Proto.{TypedMessage, SecurityType, security_int, CipherType, cipher_int}

abbrev pub vless_account_type : Str
vless_account_type = utf8 "xray.proxy.vless.Account"

abbrev pub vmess_account_type : Str
vmess_account_type = utf8 "xray.proxy.vmess.Account"

abbrev pub trojan_account_type : Str
trojan_account_type = utf8 "xray.proxy.trojan.Account"

abbrev pub ss_account_type : Str
ss_account_type = utf8 "xray.proxy.shadowsocks.Account"

abbrev pub add_user_op_type : Str
add_user_op_type = utf8 "xray.app.proxyman.command.AddUserOperation"

abbrev pub remove_user_op_type : Str
remove_user_op_type = utf8 "xray.app.proxyman.command.RemoveUserOperation"

-- The names are compared in upper case; any other name means AUTO.
unfoldable pub vmess_security_to_int : Unicode → Str → ℕ
vmess_security_to_int u name =
    let upper = u.to_uppercase name in
    if str_eq upper (utf8 "AUTO")
    then security_int SecurityType.auto
    else if str_eq upper (utf8 "AES128_GCM")
    then security_int SecurityType.aes128_gcm
    else if str_eq upper (utf8 "CHACHA20_POLY1305")
    then security_int SecurityType.chacha20_poly1305
    else if str_eq upper (utf8 "NONE")
    then security_int SecurityType.none_security
    else if str_eq upper (utf8 "ZERO")
    then security_int SecurityType.zero_security
    else security_int SecurityType.auto

unfoldable pub ss_cipher_to_int : Unicode → Str → ℕ
ss_cipher_to_int u name =
    let upper = u.to_uppercase name in
    if str_eq upper (utf8 "AES_128_GCM")
    then cipher_int CipherType.aes_128_gcm
    else if str_eq upper (utf8 "AES_256_GCM")
    then cipher_int CipherType.aes_256_gcm
    else if str_eq upper (utf8 "CHACHA20_POLY1305")
    then cipher_int CipherType.chacha20_poly1305
    else if str_eq upper (utf8 "XCHACHA20_POLY1305")
    then cipher_int CipherType.xchacha20_poly1305
    else if str_eq upper (utf8 "NONE")
    then cipher_int CipherType.none_cipher
    else cipher_int CipherType.chacha20_poly1305

module _ (u : Unicode) (prost : Prost) where
  vless_message : Str → Str → TypedMessage
  vless_message uuid flow = record {
    type_name = vless_account_type;
    value =
        prost.vless_account.encode_to_vec
          (record { id = uuid; flow = flow; encryption = utf8 "none" });
  }

  vmess_message : Str → Str → TypedMessage
  vmess_message uuid vmess_security = record {
    type_name = vmess_account_type;
    value = prost.vmess_account.encode_to_vec (record {
      id = uuid;
      security_settings = some (record { security_type = vmess_security_to_int u vmess_security });
    });
  }

  trojan_message : Str → Result TypedMessage AppError
  trojan_message password =
      if is_empty password
      then err (AppError.unprocessable_entity (utf8 "Trojan protocol requires password"))
      else ok (record {
        type_name = trojan_account_type;
        value = prost.trojan_account.encode_to_vec (record { password = password });
      })

  shadowsocks_message : Str → Str → Result TypedMessage AppError
  shadowsocks_message password ss_cipher =
      if is_empty password
      then err (AppError.unprocessable_entity (utf8 "Shadowsocks protocol requires password"))
      else ok (record {
        type_name = ss_account_type;
        value =
            prost.shadowsocks_account.encode_to_vec
              (record { password = password; cipher_type = ss_cipher_to_int u ss_cipher });
      })

  unfoldable pub build_account_typed_message :
      (proto uuid flow vmess_security password ss_cipher : Str) → Result TypedMessage AppError
  unfolding vless_message vmess_message trojan_message shadowsocks_message
  build_account_typed_message proto uuid flow vmess_security password ss_cipher =
      if str_eq proto (utf8 "vless")
      then ok (vless_message uuid flow)
      else if str_eq proto (utf8 "vmess")
      then ok (vmess_message uuid vmess_security)
      else if str_eq proto (utf8 "trojan")
      then trojan_message password
      else if str_eq proto (utf8 "shadowsocks")
      then shadowsocks_message password ss_cipher
      else err (
          AppError.unprocessable_entity (
            utf8 "Unknown protocol '"
            ++ (proto ++ utf8 "'. Supported: vless, vmess, trojan, shadowsocks")))
