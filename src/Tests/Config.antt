-- ===== src/Tests/Config.antt =====
-- The settings and the JSON of a configuration, on sample values.
use xray_bridge.Prelude.{refl, ◌≡◌, ◌≢◌, ◌<◌, ◌⊎◌, ◌↔◌, Option, some, none, ok, err, [], ◌∷◌}
use xray_bridge.Text.{Str, utf8, str_eq}
use xray_bridge.Json.{Json, str, object!, get}
use xray_bridge.Config.{Settings, from_env}
use xray_bridge.Config.Laws.{from_env-cases}
use xray_bridge.Error.{AppError}
use xray_bridge.Proto.{TypedMessage, InboundHandlerConfig, OutboundHandlerConfig}
use xray_bridge.Routes.Handler.Config.{
  extract_typed_message, json_to_inbound_config, json_to_outbound_config,
}
use xray_bridge.Routes.Handler.Config.Whole.{
  DescribesInbound, DescribesOutbound, json_to_inbound_config-ok_iff,
  json_to_outbound_config-ok_iff,
}
use xray_bridge.Routes.Handler.Config.Typed.{Holds, extract_typed_message_iff}
use xray_bridge.Tests.Sample.{headers_of, base64}

abbrev env : Str → Option Str
env = headers_of ((utf8 "BRIDGE_TOKEN", utf8 "s3cret") ∷ (utf8 "PORT", utf8 "99999") ∷ [])

from_env-cases_example :
    ((settings : Settings) × (from_env env ≡ ok settings)
      × (env (utf8 "BRIDGE_TOKEN") ≡ some settings.bridge_token)
      × (settings.bridge_token ≢ [])
      × (settings.port < 65536))
    ⊎ ((msg : Str) × (from_env env ≡ err msg)
        × ((env (utf8 "BRIDGE_TOKEN") ≡ none) ⊎ (env (utf8 "BRIDGE_TOKEN") ≡ some [])))
from_env-cases_example = from_env-cases env

abbrev config : Json
config = object! (
    ("tag", str (utf8 "in"))
    ∷ (
      "proxy_settings",
      object! (("type", str (utf8 "xray.T")) ∷ ("value", str (utf8 "AAEC")) ∷ []),
    )
    ∷ [])

abbrev proxy_settings : Str
proxy_settings = utf8 "proxy_settings"

extract_typed_message_iff_example :
    ((message : TypedMessage)
      → (extract_typed_message base64 config proxy_settings ≡ ok (some message))
        ↔ Holds base64 config proxy_settings message)
    × ((extract_typed_message base64 config proxy_settings ≡ ok none)
        ↔ (get config proxy_settings ≡ none))
    × ((e : AppError)
        → extract_typed_message base64 config proxy_settings ≡ err e
        → (msg : Str) × (e ≡ AppError.unprocessable_entity msg))
extract_typed_message_iff_example = extract_typed_message_iff base64 config proxy_settings

abbrev inbound : InboundHandlerConfig
inbound = record {
  tag = utf8 "in";
  receiver_settings = none;
  proxy_settings = some (record { type_name = utf8 "xray.T"; value = utf8 "AAEC" });
}

json_to_inbound_config-ok_iff_example :
    (json_to_inbound_config base64 config ≡ ok inbound) ↔ DescribesInbound base64 config inbound
json_to_inbound_config-ok_iff_example = json_to_inbound_config-ok_iff base64 config inbound

-- The sample is converted.
converted : json_to_inbound_config base64 config ≡ ok inbound
unfolding get utf8 str_eq
converted = (json_to_inbound_config-ok_iff base64 config inbound).1 (record {
  tag_at = refl;
  receiver_settings_at = refl;
  proxy_settings_at = record {
    sub = object! (("type", str (utf8 "xray.T")) ∷ ("value", str (utf8 "AAEC")) ∷ []);
    value_b64 = utf8 "AAEC";
    here = refl;
    type_at = refl;
    value_at = refl;
    decodes = refl;
  };
})

abbrev outbound : OutboundHandlerConfig
outbound = record {
  tag = utf8 "in";
  sender_settings = none;
  proxy_settings = some (record { type_name = utf8 "xray.T"; value = utf8 "AAEC" });
}

json_to_outbound_config-ok_iff_example :
    (json_to_outbound_config base64 config ≡ ok outbound) ↔ DescribesOutbound base64 config outbound
json_to_outbound_config-ok_iff_example = json_to_outbound_config-ok_iff base64 config outbound
