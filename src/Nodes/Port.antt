-- ===== src/Nodes/Port.antt =====
-- The port that `NodeContext` reads from the `x-node-port` header.
use xray_bridge.Prelude.{
  none, All, ◌<◌, ◌≡◌, ◌⊎◌, ◌∙◌, ap, sym, refl, inl, inr, some, Option-cases, arith,
}
use xray_bridge.Text.{Str, utf8}
use xray_bridge.Text.Number.{parse_u16, parse_u16-lt}
use xray_bridge.Extern.Http.{IsVisible, Http, Headers}
use xray_bridge.Nodes.{header_text, header_port}

module _ (http : Http) (headers : Headers) where
  -- No text in the header is a port.
  abbrev pub LacksPort : Type 0
  LacksPort =
      (v : Str) → headers (utf8 "x-node-port") ≡ some v → All IsVisible v → parse_u16 v ≡ none

  -- The port is the number that stands in the header, in visible characters, or the default 443 where
  -- no such number stands there; it fits in 16 bits.
  pub header_port-cases :
      ((LacksPort × (header_port http headers ≡ 443))
        ⊎ ((v : Str) × (headers (utf8 "x-node-port") ≡ some v)
            × All IsVisible v
            × (parse_u16 v ≡ some (header_port http headers))))
      × (header_port http headers < 65536)
  unfolding header_port header_text
  header_port-cases = elim (Option-cases (headers (utf8 "x-node-port"))) [
    | inl missing ↦
        let lacks : LacksPort = λ w h shown. cc (missing, h) in
        (
          inl (lacks, rw (missing, header_port, header_text) refl),
          rw (missing, header_port, header_text) (omega arith),
        )
    | inr (v, found) ↦ elim (Option-cases (http.to_str v)) [
      | inl opaque ↦
          let lacks : LacksPort = λ w h shown. cc (http.to_str-visible w shown, opaque, found, h) in
          (
            inl (lacks, rw (found, opaque, header_port, header_text) refl),
            rw (found, opaque, header_port, header_text) (omega arith),
          )
      | inr (s, shown) ↦
          let (same, visible) = http.to_str-some v s shown in
          elim (Option-cases (parse_u16 s)) [
            | inl bad ↦
                let lacks : LacksPort = λ w h _. cc (same, bad, found, h) in
                (
                  inl (lacks, rw (found, shown, bad, header_port, header_text) refl),
                  rw (found, shown, bad, header_port, header_text) (omega arith),
                )
            | inr (n, good) ↦
                rw (found, shown, good, header_port, header_text)
                  (inr (v, refl, visible, ap parse_u16 (sym same) ∙ good), parse_u16-lt s good)
          ]
    ]
  ]
