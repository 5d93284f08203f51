-- ===== src/Xray/Account/Kinds.antt =====
-- The account that is built for each protocol, as its receiver reads it.
use xray_bridge.Prelude.{
  ℕ, List, ◌∷◌, if◌then◌else◌, ◌≡◌, ◌≢◌, ◌⊎◌, inl, inr, refl, ok, err, some, [], ◌++◌, arith, true,
  false,
}
use xray_bridge.Text.{Str, utf8, str_eq, is_empty}
use xray_bridge.Text.Laws.{str_eq_iff, is_empty_iff}
use xray_bridge.Error.{AppError}
use xray_bridge.Extern.Unicode.{Unicode}
use xray_bridge.Extern.Codec.{Prost}
use xray_bridge.Proto.{TypedMessage}
use xray_bridge.Xray.Account.{
  trojan_account_type, ss_account_type, vmess_security_to_int, ss_cipher_to_int,
  build_account_typed_message, vless_message, vmess_message,
}

str_eq-cases : (s t : Str) → ((str_eq s t ≡ true) × (s ≡ t)) ⊎ ((str_eq s t ≡ false) × (s ≢ t))
str_eq-cases s t = ground (arith, str_eq_iff s t)

is_empty-cases : (s : Str) → ((is_empty s ≡ true) × (s ≡ [])) ⊎ ((is_empty s ≡ false) × (s ≢ []))
is_empty-cases s = ground (arith, is_empty_iff s)

-- A name's number in a table, and what stands for the names that are not in it.
unfoldable pub number_of : ℕ → List (Str × ℕ) → Str → ℕ
number_of other [] name = other
number_of other ((key, n) ∷ rows) name =
    let rest = number_of other rows name in if str_eq name key then n else rest

-- enum SecurityType of proto/common/protocol/headers.proto, without UNKNOWN
abbrev pub security_types : List (Str × ℕ)
security_types =
    (utf8 "AUTO", 2)
    ∷ (utf8 "AES128_GCM", 3)
    ∷ (utf8 "CHACHA20_POLY1305", 4)
    ∷ (utf8 "NONE", 5)
    ∷ (utf8 "ZERO", 6)
    ∷ []

-- enum CipherType of proto/proxy/shadowsocks/config.proto, without UNKNOWN
abbrev pub cipher_types : List (Str × ℕ)
cipher_types =
    (utf8 "AES_128_GCM", 5)
    ∷ (utf8 "AES_256_GCM", 6)
    ∷ (utf8 "CHACHA20_POLY1305", 7)
    ∷ (utf8 "XCHACHA20_POLY1305", 8)
    ∷ (utf8 "NONE", 9)
    ∷ []

module _ (u : Unicode) (prost : Prost)
    (proto uuid flow vmess_security password ss_cipher : Str) where
  -- The message's type is that of the protocol under proto/, and the protocol's decoder reads the given
  -- fields: of VMess the security, and of Shadowsocks the cipher, as their numbers under proto/, that of
  -- AUTO, or of CHACHA20_POLY1305, for a name that is not listed, whatever the case of the name is.
  pub data Describes (typed : TypedMessage) : Type 0 where
    vless :
        proto ≡ utf8 "vless"
        → typed.type_name ≡ utf8 "xray.proxy.vless.Account"
        → prost.vless_account.decode typed.value
          ≡ some (record { id = uuid; flow = flow; encryption = utf8 "none" })
        → Describes typed
    vmess :
        proto ≡ utf8 "vmess"
        → typed.type_name ≡ utf8 "xray.proxy.vmess.Account"
        → prost.vmess_account.decode typed.value
          ≡ some (record {
            id = uuid;
            security_settings = some (record {
              security_type = number_of 2 security_types (u.to_uppercase vmess_security);
            });
          })
        → Describes typed
    trojan :
        proto ≡ utf8 "trojan"
        → password ≢ []
        → typed.type_name ≡ utf8 "xray.proxy.trojan.Account"
        → prost.trojan_account.decode typed.value ≡ some (record { password = password })
        → Describes typed
    shadowsocks :
        proto ≡ utf8 "shadowsocks"
        → password ≢ []
        → typed.type_name ≡ utf8 "xray.proxy.shadowsocks.Account"
        → prost.shadowsocks_account.decode typed.value
          ≡ some (record {
            password = password;
            cipher_type = number_of 7 cipher_types (u.to_uppercase ss_cipher);
          })
        → Describes typed

  -- Not one of the four protocols, or one of the two that want a password, without one.
  abbrev pub IsUnsupported : Type 0
  IsUnsupported =
      ((proto ≢ utf8 "vless")
        × (proto ≢ utf8 "vmess")
        × (proto ≢ utf8 "trojan")
        × (proto ≢ utf8 "shadowsocks"))
      ⊎ (((proto ≡ utf8 "trojan") ⊎ (proto ≡ utf8 "shadowsocks")) × (password ≡ []))

  -- For a supported protocol the message that is built has the protocol's type, and the protocol's
  -- decoder reads the given fields from it, the security and the cipher as the numbers that the files
  -- under proto/ give to their names, in any case, with AUTO for a security and CHACHA20_POLY1305 for
  -- a cipher that has any other name or the name UNKNOWN; otherwise the answer is an
  -- unprocessable-entity error.
  pub build_account_typed_message-cases :
      ((typed : TypedMessage) × (build_account_typed_message u prost proto uuid flow vmess_security
            password ss_cipher
          ≡ ok typed)
        × Describes typed)
      ⊎ ((msg : Str) × (build_account_typed_message u prost proto uuid flow vmess_security password
              ss_cipher
            ≡ err (AppError.unprocessable_entity msg))
          × IsUnsupported)
  unfolding build_account_typed_message vless_message vmess_message number_of vmess_security_to_int
      ss_cipher_to_int
  build_account_typed_message-cases = elim (str_eq-cases proto (utf8 "vless")) [
    | inl (yes_vless, is_vless) ↦ inl (
      vless_message u prost uuid flow,
      rw yes_vless,
      vless is_vless refl (prost.vless_account.decode-encode _),
    )
    | inr (no_vless, not_vless) ↦ elim (str_eq-cases proto (utf8 "vmess")) [
      | inl (yes_vmess, is_vmess) ↦ inl (
        vmess_message u prost uuid vmess_security,
        rw (no_vless, yes_vmess),
        vmess is_vmess refl (prost.vmess_account.decode-encode _),
      )
      | inr (no_vmess, not_vmess) ↦ elim (str_eq-cases proto (utf8 "trojan")) [
        | inl (yes_trojan, is_trojan) ↦ elim (is_empty-cases password) [
          | inl (empty, is_nil) ↦ inr (
            utf8 "Trojan protocol requires password",
            rw (no_vless, no_vmess, yes_trojan, empty),
            inr (inl is_trojan, is_nil),
          )
          | inr (full, some_password) ↦ inl (
            record {
              type_name = trojan_account_type;
              value = prost.trojan_account.encode_to_vec (record { password = password });
            },
            rw (no_vless, no_vmess, yes_trojan, full),
            trojan is_trojan some_password refl (prost.trojan_account.decode-encode _),
          )
        ]
        | inr (no_trojan, not_trojan) ↦ elim (str_eq-cases proto (utf8 "shadowsocks")) [
          | inl (yes_ss, is_ss) ↦ elim (is_empty-cases password) [
            | inl (empty, is_nil) ↦ inr (
              utf8 "Shadowsocks protocol requires password",
              rw (no_vless, no_vmess, no_trojan, yes_ss, empty),
              inr (inr is_ss, is_nil),
            )
            | inr (full, some_password) ↦ inl (
              record {
                type_name = ss_account_type;
                value =
                    prost.shadowsocks_account.encode_to_vec
                      (record { password = password; cipher_type = ss_cipher_to_int u ss_cipher });
              },
              rw (no_vless, no_vmess, no_trojan, yes_ss, full),
              shadowsocks is_ss some_password refl (prost.shadowsocks_account.decode-encode _),
            )
          ]
          | inr (no_ss, not_ss) ↦ inr (
            utf8 "Unknown protocol '"
                ++ (proto ++ utf8 "'. Supported: vless, vmess, trojan, shadowsocks"),
            rw (no_vless, no_vmess, no_trojan, no_ss),
            inl (not_vless, not_vmess, not_trojan, not_ss),
          )
        ]
      ]
    ]
  ]
