-- ===== src/Routes/Handler/Config/Whole.antt =====
-- The JSON of a whole configuration.
use xray_bridge.Prelude.{
  ◌≡◌, ◌↔◌, ◌∙◌, ap, refl, inl, inr, Option, some, none, ok, Option-cases, Result-cases,
}
use xray_bridge.Text.{Str, utf8}
use xray_bridge.Json.{Json, str, get, as_str}
use xray_bridge.Extern.Codec.{Base64}
use xray_bridge.Proto.{TypedMessage, InboundHandlerConfig, OutboundHandlerConfig}
use xray_bridge.Routes.Handler.Config.{
  extract_typed_message, string_at, json_to_inbound_config, json_to_outbound_config,
}
use xray_bridge.Routes.Handler.Config.Typed.{Holds, string_at-some, extract_typed_message_iff}

-- The field holds the message, or is missing where there is none.
abbrev pub Carries : Base64 → Json → Str → Option TypedMessage → Type 0
Carries base64 v field none = get v field ≡ none
Carries base64 v field (some message) = Holds base64 v field message

extract-Carries :
    (base64 : Base64) (v : Json) (field : Str) (found : Option TypedMessage)
    → (extract_typed_message base64 v field ≡ ok found) ↔ Carries base64 v field found
extract-Carries base64 v field none = (extract_typed_message_iff base64 v field).1
extract-Carries base64 v field (some message) = (extract_typed_message_iff base64 v field).0 message

module _ (base64 : Base64) (v : Json) (c : InboundHandlerConfig) where
  -- What an inbound's configuration is read from.
  pub record DescribesInbound : Type 0 where
    pub tag_at : get v (utf8 "tag") ≡ some (str c.tag)
    pub receiver_settings_at : Carries base64 v (utf8 "receiver_settings") c.receiver_settings
    pub proxy_settings_at : Carries base64 v (utf8 "proxy_settings") c.proxy_settings

  json_to_inbound_config-ok : json_to_inbound_config base64 v ≡ ok c → DescribesInbound
  unfolding json_to_inbound_config
  json_to_inbound_config-ok h = elim (Option-cases (string_at v (utf8 "tag"))) [
    | inl missing ↦ cc (rw (missing, json_to_inbound_config) at h)
    | inr (tag, tagged) ↦
        elim (Result-cases (extract_typed_message base64 v (utf8 "receiver_settings"))) [
          | inl (e, bad) ↦ cc (rw (tagged, bad, json_to_inbound_config) at h)
          | inr (first, got) ↦
              elim (Result-cases (extract_typed_message base64 v (utf8 "proxy_settings"))) [
                | inl (e, bad) ↦ cc (rw (tagged, got, bad, json_to_inbound_config) at h)
                | inr (second, given) ↦
                    let same : ok
                          (record { tag = tag; receiver_settings = first; proxy_settings = second })
                        ≡ ok c =
                      (rw (tagged, got, given, json_to_inbound_config) at h) in
                    record {
                      tag_at = string_at-some v (utf8 "tag") (tagged ∙ ap some (cc));
                      receiver_settings_at =
                          (extract-Carries base64 v (utf8 "receiver_settings")
                              c.receiver_settings).0
                            (got ∙ ap ok (cc));
                      proxy_settings_at =
                          (extract-Carries base64 v (utf8 "proxy_settings") c.proxy_settings).0
                            (given ∙ ap ok (cc));
                    }
              ]
        ]
  ]

  -- The JSON is converted into a configuration exactly when its tag is the configuration's tag, as a
  -- text, and each settings field holds the configuration's message, or is missing where the
  -- configuration has none.
  pub json_to_inbound_config-ok_iff : (json_to_inbound_config base64 v ≡ ok c) ↔ DescribesInbound
  unfolding json_to_inbound_config string_at as_str
  json_to_inbound_config-ok_iff = (
    json_to_inbound_config-ok,
    λ d.
        rw
          (
            d.tag_at,
            (extract-Carries base64 v (utf8 "receiver_settings") c.receiver_settings).1
                d.receiver_settings_at,
            (extract-Carries base64 v (utf8 "proxy_settings") c.proxy_settings).1
                d.proxy_settings_at,
            json_to_inbound_config,
            string_at,
            as_str,
          )
          refl,
  )

module _ (base64 : Base64) (v : Json) (c : OutboundHandlerConfig) where
  -- What an outbound's configuration is read from.
  pub record DescribesOutbound : Type 0 where
    pub tag_at : get v (utf8 "tag") ≡ some (str c.tag)
    pub sender_settings_at : Carries base64 v (utf8 "sender_settings") c.sender_settings
    pub proxy_settings_at : Carries base64 v (utf8 "proxy_settings") c.proxy_settings

  json_to_outbound_config-ok : json_to_outbound_config base64 v ≡ ok c → DescribesOutbound
  unfolding json_to_outbound_config
  json_to_outbound_config-ok h = elim (Option-cases (string_at v (utf8 "tag"))) [
    | inl missing ↦ cc (rw (missing, json_to_outbound_config) at h)
    | inr (tag, tagged) ↦
        elim (Result-cases (extract_typed_message base64 v (utf8 "sender_settings"))) [
          | inl (e, bad) ↦ cc (rw (tagged, bad, json_to_outbound_config) at h)
          | inr (first, got) ↦
              elim (Result-cases (extract_typed_message base64 v (utf8 "proxy_settings"))) [
                | inl (e, bad) ↦ cc (rw (tagged, got, bad, json_to_outbound_config) at h)
                | inr (second, given) ↦
                    let same : ok
                          (record { tag = tag; sender_settings = first; proxy_settings = second })
                        ≡ ok c =
                      (rw (tagged, got, given, json_to_outbound_config) at h) in
                    record {
                      tag_at = string_at-some v (utf8 "tag") (tagged ∙ ap some (cc));
                      sender_settings_at =
                          (extract-Carries base64 v (utf8 "sender_settings") c.sender_settings).0
                            (got ∙ ap ok (cc));
                      proxy_settings_at =
                          (extract-Carries base64 v (utf8 "proxy_settings") c.proxy_settings).0
                            (given ∙ ap ok (cc));
                    }
              ]
        ]
  ]

  -- The JSON is converted into a configuration exactly when its tag is the configuration's tag, as a
  -- text, and each settings field holds the configuration's message, or is missing where the
  -- configuration has none.
  pub json_to_outbound_config-ok_iff : (json_to_outbound_config base64 v ≡ ok c) ↔ DescribesOutbound
  unfolding json_to_outbound_config string_at as_str
  json_to_outbound_config-ok_iff = (
    json_to_outbound_config-ok,
    λ d.
        rw
          (
            d.tag_at,
            (extract-Carries base64 v (utf8 "sender_settings") c.sender_settings).1
                d.sender_settings_at,
            (extract-Carries base64 v (utf8 "proxy_settings") c.proxy_settings).1
                d.proxy_settings_at,
            json_to_outbound_config,
            string_at,
            as_str,
          )
          refl,
  )
