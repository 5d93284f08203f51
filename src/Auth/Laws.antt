-- ===== src/Auth/Laws.antt =====
-- Whom the extractor lets in, and how it answers the others.
use xray_bridge.Prelude.{
  ◌≡◌, ◌≢◌, ◌↔◌, ◌⊎◌, ◌∙◌, ap, subst, refl, inl, inr, Option, some, none, [], ◌++◌, All, arith,
  Bool-cases, Option-cases, and_then,
}
use xray_bridge.Text.{Str, utf8, is_empty}
use xray_bridge.Text.Laws.{is_empty_iff}
use xray_bridge.Config.{Settings}
use xray_bridge.Error.{AppError}
use xray_bridge.Extern.Unicode.{Unicode}
use xray_bridge.Extern.Http.{Http, Headers, IsVisible}
use xray_bridge.Outcome.{Outcome, done, fail}
use xray_bridge.Auth.{
  missing_header, wrong_format, wrong_token, BearerAuth, strip_scheme, check_token, bearer_auth,
}
use xray_bridge.Auth.Scheme.{IsScheme, strip_scheme-cases, strip_scheme-scheme}
use xray_bridge.Auth.Compare.{constant_time_eq, constant_time_eq_iff}

-- A header that grants access: "Bearer" in any case, a space, and the configured token.
pub record Grants (settings : Settings) (headers : Headers) : Type 0 where
  pub scheme : Str
  pub is_scheme : IsScheme scheme
  pub header : headers (utf8 "authorization") ≡ some (scheme ++ settings.bridge_token)
  pub visible : All IsVisible (scheme ++ settings.bridge_token)
  pub nonempty : settings.bridge_token ≢ []

-- An extractor's answer is the value or a 401.
abbrev pub IsUnauthenticated : Outcome BearerAuth → Type 0
IsUnauthenticated r = (msg : Str) × (r ≡ fail (AppError.unauthenticated msg))

check_token-done :
    (settings : Settings) (token : Str)
    → check_token settings (done (some token)) ≡ done (record {})
    → (token ≡ settings.bridge_token) × (settings.bridge_token ≢ [])
unfolding check_token
check_token-done settings token h =
    ground (arith, is_empty_iff token, constant_time_eq_iff token settings.bridge_token)

check_token-none :
    (settings : Settings)
    → check_token settings (done none) ≡ fail (AppError.unauthenticated wrong_format)
unfolding check_token
check_token-none settings = refl

check_token_bridge :
    (settings : Settings)
    → settings.bridge_token ≢ []
    → check_token settings (done (some settings.bridge_token)) ≡ done (record {})
unfolding check_token
check_token_bridge settings h = ground (
  arith,
  is_empty_iff settings.bridge_token,
  constant_time_eq_iff settings.bridge_token settings.bridge_token,
)

check_token-cases :
    (settings : Settings) (found : Option Str)
    → (check_token settings (done found) ≡ done (record {}))
      ⊎ IsUnauthenticated (check_token settings (done found))
unfolding check_token
check_token-cases settings none = inr (wrong_format, refl)
check_token-cases settings (some token) = elim (Bool-cases (is_empty token)) [
  | inl empty ↦ inr (wrong_format, rw empty)
  | inr full ↦ elim (Bool-cases (constant_time_eq token settings.bridge_token)) [
    | inl same ↦ inl (rw (full, same))
    | inr other ↦ inr (wrong_token, rw (full, other))
  ]
]

module _ (u : Unicode) (http : Http) (settings : Settings) (headers : Headers) where
  bearer_auth-text :
      (v : Str)
      → headers (utf8 "authorization") ≡ some v
      → All IsVisible v
      → bearer_auth u http settings headers ≡ check_token settings (strip_scheme u v)
  unfolding bearer_auth
  bearer_auth-text v h visible = rw (h, bearer_auth, http.to_str-visible v visible)

  bearer_auth-missing :
      and_then (headers (utf8 "authorization")) http.to_str ≡ none
      → bearer_auth u http settings headers ≡ fail (AppError.unauthenticated missing_header)
  unfolding bearer_auth
  bearer_auth-missing h = rw (h, bearer_auth)

  header-cases :
      (and_then (headers (utf8 "authorization")) http.to_str ≡ none)
      ⊎ ((v : Str) × (headers (utf8 "authorization") ≡ some v) × All IsVisible v)
  header-cases = elim (Option-cases (headers (utf8 "authorization"))) [
    | inl missing ↦ inl (rw missing)
    | inr (v, found) ↦ elim (Option-cases (http.to_str v)) [
      | inl opaque ↦ inl (rw (found, opaque))
      | inr (s, shown) ↦ inr (v, found, (http.to_str-some v s shown).1)
    ]
  ]

  -- The extractor never panics: it lets the request in, or answers 401.
  pub bearer_auth-cases :
      (bearer_auth u http settings headers ≡ done (record {}))
      ⊎ IsUnauthenticated (bearer_auth u http settings headers)
  bearer_auth-cases = elim header-cases [
    | inl missing ↦ inr (missing_header, bearer_auth-missing missing)
    | inr (v, found, visible) ↦ elim (strip_scheme-cases u v visible) [
      | inl other ↦ rw (bearer_auth-text v found visible, other) (check_token-cases settings none)
      | inr (scheme, t, _, _, stripped) ↦
          rw (bearer_auth-text v found visible, stripped) (check_token-cases settings (some t))
    ]
  ]

  granted :
      (v scheme t : Str)
      → headers (utf8 "authorization") ≡ some v
      → All IsVisible v
      → IsScheme scheme
      → v ≡ scheme ++ t
      → t ≡ settings.bridge_token
      → settings.bridge_token ≢ []
      → Grants settings headers
  granted v scheme t found visible is_scheme split same nonempty =
      let whole : v ≡ scheme ++ settings.bridge_token = split ∙ ap (λ r. scheme ++ r) same in
      record {
        scheme = scheme;
        is_scheme = is_scheme;
        header = found ∙ ap some whole;
        visible = subst (All IsVisible) whole visible;
        nonempty = nonempty;
      }

  grants : bearer_auth u http settings headers ≡ done (record {}) → Grants settings headers
  grants h = elim header-cases [
    | inl missing ↦ cc (bearer_auth-missing missing)
    | inr (v, found, visible) ↦ elim (strip_scheme-cases u v visible) [
      | inl other ↦ cc (bearer_auth-text v found visible, other, check_token-none settings)
      | inr (scheme, t, is_scheme, split, stripped) ↦
          let (same, nonempty) =
            check_token-done settings t (rw (bearer_auth-text v found visible, stripped) at h) in
          granted v scheme t found visible is_scheme split same nonempty
    ]
  ]

  -- The extractor lets a request in exactly when its `authorization` header is the word "Bearer" in
  -- any case, a space and the configured token, in visible characters, and that token is not empty.
  pub bearer_auth-done_iff :
      (bearer_auth u http settings headers ≡ done (record {})) ↔ Grants settings headers
  bearer_auth-done_iff = (grants, from)
    where
      from : Grants settings headers → bearer_auth u http settings headers ≡ done (record {})
      from g =
          bearer_auth-text _ g.header g.visible
          ∙ ap (check_token settings)
              (strip_scheme-scheme u _ g.visible g.scheme settings.bridge_token g.is_scheme refl)
          ∙ check_token_bridge settings g.nonempty
