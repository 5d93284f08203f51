-- ===== src/Extern/Transport.antt =====
-- `tonic::transport`: URIs, endpoints and channels that connect when they are first used.
use xray_bridge.Text.{Str}
use xray_bridge.Prelude.{Result}

pub record Transport : Type 1 where
  pub Uri : Type 0
  pub Endpoint : Type 0
  pub TlsConfig : Type 0
  pub Channel : Type 0
  -- `s.parse::<Uri>()`; an error is given by its text
  pub parse_uri : Str → Result Uri Str
  pub builder : Uri → Endpoint
  pub new_tls : TlsConfig
  pub with_webpki_roots : TlsConfig → TlsConfig
  pub tls_config : Endpoint → TlsConfig → Result Endpoint Str
  pub connect_lazy : Endpoint → Channel
