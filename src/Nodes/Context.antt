-- ===== src/Nodes/Context.antt =====
-- What `NodeContext` gives.
use xray_bridge.Prelude.{
  none, ◌↔◌, false, ◌≡◌, sym, ap, subst, ◌∙◌, ◌⊎◌, inl, inr, Option, some, Option-cases, arith, All,
  [], ◌≢◌,
}
use xray_bridge.Text.{Str, utf8, is_empty}
use xray_bridge.Text.Laws.{is_empty_iff}
use xray_bridge.Error.{AppError}
use xray_bridge.Outcome.{Outcome, fail}
use xray_bridge.Extern.Http.{Http, Headers, IsVisible}
use xray_bridge.Extern.Transport.{Transport}
use xray_bridge.Nodes.{
  XrayClient, Pool, get_or_create, header_text, nonempty_text, header_port, node_context,
}

-- The headers name a node: its domain and its token are texts that are not empty, of visible
-- characters.
pub record Names (headers : Headers) (domain token : Str) : Type 0 where
  pub domain_header : headers (utf8 "x-node-domain") ≡ some domain
  pub token_header : headers (utf8 "x-node-token") ≡ some token
  pub domain_some : domain ≢ []
  pub token_some : token ≢ []
  pub token_visible : All IsVisible token

nonempty_text-some :
    (http : Http) (headers : Headers) (name s : Str)
    → nonempty_text http headers name ≡ some s
    → (headers name ≡ some s) × (s ≢ []) × All IsVisible s
unfolding nonempty_text
nonempty_text-some http headers name s h = elim (Option-cases (headers name)) [
  | inl missing ↦ absurd (ground arith)
  | inr (v, found) ↦ elim (Option-cases (http.to_str v)) [
    | inl opaque ↦ absurd (ground arith)
    | inr (text, shown) ↦
        let (same, visible) = http.to_str-some v text shown in
        let kept : text ≡ s = ground arith in
        let full : is_empty text ≡ false = ground arith in
        let whole : v ≡ s = sym same ∙ kept in
        (
          found ∙ ap some whole,
          ground (arith, is_empty_iff text),
          subst (All IsVisible) whole visible,
        )
  ]
]

module _ (t : Transport) (l : Pool t) (http : Http) (headers : Headers) (c : l.Cache) where
  -- The call of the pool that the extractor makes, if it makes one.
  pub node_context-cases :
      ((domain token : Str) × (name : Option Str) × Names headers domain token
        × (node_context t l http headers c
            ≡ get_or_create t l c domain (header_port http headers) token name))
      ⊎ ((msg : Str) × (node_context t l http headers c
            ≡ (fail (AppError.invalid_argument msg), c)))
  unfolding node_context
  node_context-cases = elim (Option-cases (nonempty_text http headers (utf8 "x-node-domain"))) [
    | inl missing ↦ inr (utf8 "缺少 X-Node-Domain header", rw (missing, node_context))
    | inr (domain, found) ↦ elim (Option-cases (nonempty_text http headers (utf8 "x-node-token"))) [
      | inl missing ↦ inr (utf8 "缺少 X-Node-Token header", rw (found, missing, node_context))
      | inr (token, given) ↦
          let (d, some_d, _) =
            nonempty_text-some http headers (utf8 "x-node-domain") domain found in
          let (k, some_k, visible) =
            nonempty_text-some http headers (utf8 "x-node-token") token given in
          inl (
            domain,
            token,
            header_text http headers (utf8 "x-node-name"),
            record {
              domain_header = d;
              token_header = k;
              domain_some = some_d;
              token_some = some_k;
              token_visible = visible;
            },
            rw (found, given, node_context),
          )
    ]
  ]

-- The header is a text of visible characters.
abbrev pub IsText : Headers → Str → Str → Type 0
IsText headers name s = (headers name ≡ some s) × All IsVisible s

-- ... and it is not empty.
abbrev pub IsFull : Headers → Str → Str → Type 0
IsFull headers name s = IsText headers name s × (s ≢ [])

-- The label is the X-Node-Name header where that is a text, and there is none otherwise.
abbrev pub Labels : Headers → Option Str → Type 0
Labels headers label = (s : Str) → (label ≡ some s) ↔ IsText headers (utf8 "x-node-name") s

module _ (http : Http) (headers : Headers) where
  header_text_iff :
      (name s : Str) → (header_text http headers name ≡ some s) ↔ IsText headers name s
  unfolding header_text
  header_text_iff name s = elim (Option-cases (headers name)) [
    | inl missing ↦ rw missing ((λ h. cc), (λ (h, visible). cc))
    | inr (v, found) ↦ (
      λ h.
          let shown : http.to_str v ≡ some s = (rw found at h) in
          let (same, visible) = http.to_str-some v s shown in
          (found ∙ ap some (sym same), subst (All IsVisible) (sym same) visible),
      λ (h, visible). rw h (http.to_str-visible s visible),
    )
  ]

  full-nonempty : (name s : Str) → IsFull headers name s → nonempty_text http headers name ≡ some s
  unfolding nonempty_text
  full-nonempty name s (text, full) =
      let shown = (header_text_iff name s).1 text in
      rw (shown, nonempty_text) (ground (arith, full, is_empty_iff s))

  lacks :
      (name : Str) → nonempty_text http headers name ≡ none → (s : Str) → ¬ IsFull headers name s
  lacks name missing s full = cc (missing, full-nonempty name s full)

  nonempty-IsFull :
      (name s : Str) → nonempty_text http headers name ≡ some s → IsFull headers name s
  nonempty-IsFull name s h =
      let (found, full, visible) = nonempty_text-some http headers name s h in
      ((found, visible), full)

  module _ (t : Transport) (l : Pool t) (c : l.Cache) where
    -- What `NodeContext` answers, by the headers.
    pub data Resolves : Outcome (XrayClient t.Channel) × l.Cache → Type 0 where
      no_domain :
          ((s : Str) → ¬ IsFull headers (utf8 "x-node-domain") s)
          → Resolves (fail (AppError.invalid_argument (utf8 "缺少 X-Node-Domain header")), c)
      no_token :
          (domain : Str)
          → IsFull headers (utf8 "x-node-domain") domain
          → ((s : Str) → ¬ IsFull headers (utf8 "x-node-token") s)
          → Resolves (fail (AppError.invalid_argument (utf8 "缺少 X-Node-Token header")), c)
      resolved :
          (domain token : Str) (label : Option Str)
          → IsFull headers (utf8 "x-node-domain") domain
          → IsFull headers (utf8 "x-node-token") token
          → Labels headers label
          → Resolves (get_or_create t l c domain (header_port http headers) token label)

    -- Without an X-Node-Domain header that is a text of visible characters and not empty, the
    -- extractor fails with a message that names this header, and leaves the pool alone; with one but
    -- without such an X-Node-Token header it does the same for that one. With both it asks the pool
    -- for that domain and token, at the port of the headers, under the label that X-Node-Name holds,
    -- if that is a text, and under none otherwise.
    pub node_context-Resolves : Resolves (node_context t l http headers c)
    unfolding node_context
    node_context-Resolves =
        elim (Option-cases (nonempty_text http headers (utf8 "x-node-domain"))) [
          | inl missing ↦ rw (missing, node_context) (no_domain (lacks _ missing))
          | inr (domain, found) ↦
              elim (Option-cases (nonempty_text http headers (utf8 "x-node-token"))) [
                | inl missing ↦
                    rw (found, missing, node_context)
                      (no_token domain (nonempty-IsFull _ domain found) (lacks _ missing))
                | inr (token, given) ↦
                    rw (found, given, node_context)
                      (resolved domain token (header_text http headers (utf8 "x-node-name"))
                        (nonempty-IsFull _ domain found) (nonempty-IsFull _ token given)
                        (header_text_iff (utf8 "x-node-name")))
              ]
        ]
