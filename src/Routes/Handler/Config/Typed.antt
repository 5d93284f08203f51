-- ===== src/Routes/Handler/Config/Typed.antt =====
-- The JSON objects that `extract_typed_message` reads.
use xray_bridge.Prelude.{
  ◌≡◌, ◌⊎◌, ◌↔◌, ◌∙◌, ◌++◌, ap, subst, inl, inr, some, none, ok, err, Option-cases, Result-cases,
}
use xray_bridge.Text.{Str, utf8}
use xray_bridge.Json.{Json, str, get, as_str}
use xray_bridge.Error.{AppError}
use xray_bridge.Extern.Codec.{Base64}
use xray_bridge.Proto.{TypedMessage}
use xray_bridge.Routes.Handler.Config.{
  extract_typed_message, typed_message, string_at, decode_value,
}

-- The field holds an object with the message's type as a text, and its bytes as a base64 text.
pub record Holds (base64 : Base64) (obj : Json) (field : Str) (message : TypedMessage)
    : Type 0 where
  pub sub : Json
  pub value_b64 : Str
  pub here : get obj field ≡ some sub
  pub type_at : get sub (utf8 "type") ≡ some (str message.type_name)
  pub value_at : get sub (utf8 "value") ≡ some (str value_b64)
  pub decodes : base64.decode value_b64 ≡ ok message.value

as_str-some : (v : Json) {s : Str} → as_str v ≡ some s → v ≡ str s
unfolding as_str
as_str-some (str s) h = cc
as_str-some _ h = absurd (cc)

pub string_at-some :
    (v : Json) (key : Str) {s : Str} → string_at v key ≡ some s → get v key ≡ some (str s)
unfolding string_at
string_at-some v key h = elim (Option-cases (get v key)) [
  | inl missing ↦ cc
  | inr (w, found) ↦ found ∙ ap some (as_str-some w (rw found at h))
]

module _ (base64 : Base64) (obj : Json) (field : Str) where
  -- Every outcome of the extraction: the field is missing, which is no error; it holds a message;
  -- or it is there and holds none, which is an unprocessable-entity error.
  extract_typed_message-cases :
      ((get obj field ≡ none) × (extract_typed_message base64 obj field ≡ ok none))
      ⊎ ((message : TypedMessage) × Holds base64 obj field message
          × (extract_typed_message base64 obj field ≡ ok (some message)))
      ⊎ ((sub : Json) × (get obj field ≡ some sub)
          × (msg : Str) × (extract_typed_message base64 obj field
              ≡ err (AppError.unprocessable_entity msg)))
  unfolding extract_typed_message typed_message decode_value
  extract_typed_message-cases = elim (Option-cases (get obj field)) [
    | inl missing ↦ inl (missing, rw (missing, extract_typed_message))
    | inr (sub, here) ↦ elim (Option-cases (string_at sub (utf8 "type"))) [
      | inl no_type ↦ inr (
          inr (
            sub,
            here,
            field ++ utf8 ".type must be a string",
            rw (here, no_type, extract_typed_message, typed_message),
          ))
      | inr (type_name, typed) ↦ elim (Option-cases (string_at sub (utf8 "value"))) [
        | inl no_value ↦ inr (
            inr (
              sub,
              here,
              field ++ utf8 ".value must be a base64 string",
              rw (here, typed, no_value, extract_typed_message, typed_message),
            ))
        | inr (value_b64, valued) ↦ elim (Result-cases (base64.decode value_b64)) [
          | inl (e, bad) ↦ inr (
              inr (
                sub,
                here,
                field ++ (utf8 ".value base64 decode error: " ++ e),
                rw (here, typed, valued, bad, extract_typed_message, typed_message, decode_value),
              ))
          | inr (value, good) ↦ inr (
              inl (
                record { type_name = type_name; value = value },
                record {
                  sub = sub;
                  value_b64 = value_b64;
                  here = here;
                  type_at = string_at-some sub (utf8 "type") typed;
                  value_at = string_at-some sub (utf8 "value") valued;
                  decodes = good;
                },
                rw (here, typed, valued, good, extract_typed_message, typed_message, decode_value),
              ))
        ]
      ]
    ]
  ]

  held :
      (message : TypedMessage)
      → Holds base64 obj field message
      → extract_typed_message base64 obj field ≡ ok (some message)
  unfolding extract_typed_message typed_message decode_value string_at as_str
  held message h = rw (
    h.here, h.type_at, h.value_at, h.decodes, extract_typed_message, typed_message, decode_value,
    string_at,
  )

  -- The extraction gives a message exactly when the field holds that message: an object whose "type"
  -- is the message's type and whose "value" is a text that decodes to the message's bytes. It gives
  -- no message exactly when the field is missing; anything else is an unprocessable-entity error.
  pub extract_typed_message_iff :
      ((message : TypedMessage)
        → (extract_typed_message base64 obj field ≡ ok (some message))
          ↔ Holds base64 obj field message)
      × ((extract_typed_message base64 obj field ≡ ok none) ↔ (get obj field ≡ none))
      × ((e : AppError)
          → extract_typed_message base64 obj field ≡ err e
          → (msg : Str) × (e ≡ AppError.unprocessable_entity msg))
  extract_typed_message_iff = elim extract_typed_message-cases [
    | inl (missing, run) ↦ (λ m. (λ h. cc, held m), (λ _. missing, λ _. run), λ e h. cc)
    | inr (inl (message, h, run)) ↦ (
      λ m. (λ got. subst (Holds base64 obj field) (cc) h, held m),
      (λ got. cc, λ missing. cc (h.here)),
      λ e got. cc,
    )
    | inr (inr (sub, here, msg, run)) ↦
        (λ m. (λ got. cc, held m), (λ got. cc, λ missing. cc), λ e got. (msg, cc))
  ]
