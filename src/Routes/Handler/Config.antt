-- ===== src/Routes/Handler/Config.antt =====
-- src/routes/handler.rs: the JSON of an inbound's or outbound's configuration.
pub mod Typed
pub mod Whole
use xray_bridge.Prelude.{Option, none, some, Result, ok, err, ◌++◌, and_then}
use xray_bridge.Text.{Str, utf8}
use xray_bridge.Json.{Json, get, as_str}
use xray_bridge.Error.{AppError}
use xray_bridge.Extern.Codec.{Base64}
use xray_bridge.Proto.{Bytes, TypedMessage, InboundHandlerConfig, OutboundHandlerConfig}

infixl 5 ◌>>=◌
abbrev ◌>>=◌ : {A B : Type 0} → Result A AppError → (A → Result B AppError) → Result B AppError
ok a >>= f = f a
err e >>= f = err e

-- `opt.ok_or_else(|| AppError::UnprocessableEntity(msg))`
abbrev or_unprocessable : {A : Type 0} → Option A → Str → Result A AppError
or_unprocessable none msg = err (AppError.unprocessable_entity msg)
or_unprocessable (some a) msg = ok a

pub string_at : Json → Str → Option Str
string_at v key = and_then (get v key) as_str

module _ (base64 : Base64) where
  decode_value : Str → Str → Result Bytes AppError
  decode_value field value_b64 = elim (base64.decode value_b64) [
    | ok value ↦ ok value
    | err e ↦
        err (AppError.unprocessable_entity (field ++ (utf8 ".value base64 decode error: " ++ e)))
  ]

  -- The part of `extract_typed_message` behind a field that is there.
  typed_message : Json → Str → Result TypedMessage AppError
  unfolding string_at decode_value
  typed_message sub field = do
    type_name ←
        or_unprocessable (string_at sub (utf8 "type")) (field ++ utf8 ".type must be a string")
    value_b64 ←
        or_unprocessable (string_at sub (utf8 "value"))
          (field ++ utf8 ".value must be a base64 string")
    value ← decode_value field value_b64
    ok (record { type_name = type_name; value = value })

  unfoldable pub extract_typed_message : Json → Str → Result (Option TypedMessage) AppError
  unfolding typed_message
  extract_typed_message obj field = elim (get obj field) [
    | none ↦ ok none
    | some sub ↦ do message ← typed_message sub field; ok (some message)
  ]

  unfoldable pub json_to_inbound_config : Json → Result InboundHandlerConfig AppError
  unfolding string_at
  json_to_inbound_config v = do
    tag ← or_unprocessable (string_at v (utf8 "tag")) (utf8 "config.tag is required")
    receiver_settings ← extract_typed_message v (utf8 "receiver_settings")
    proxy_settings ← extract_typed_message v (utf8 "proxy_settings")
    ok (record {
      tag = tag;
      receiver_settings = receiver_settings;
      proxy_settings = proxy_settings;
    })

  unfoldable pub json_to_outbound_config : Json → Result OutboundHandlerConfig AppError
  unfolding string_at
  json_to_outbound_config v = do
    tag ← or_unprocessable (string_at v (utf8 "tag")) (utf8 "config.tag is required")
    sender_settings ← extract_typed_message v (utf8 "sender_settings")
    proxy_settings ← extract_typed_message v (utf8 "proxy_settings")
    ok (record { tag = tag; sender_settings = sender_settings; proxy_settings = proxy_settings })
