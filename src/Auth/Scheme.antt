-- ===== src/Auth/Scheme.antt =====
-- The scheme in front of the token, on the visible text that a header value gives.
use mathlib.Core.List.{map-append}
use xray_bridge.Prelude.{
  ℕ, ◌≡◌, refl, sym, ap, ◌∙◌, ◌⊎◌, inl, inr, some, none, map, ◌++◌, All, All-imp, map-eq-append,
  append-cancel, take-append-drop, length, take, drop, length-map, arith, Bool-cases, Option-cases,
}
use xray_bridge.Text.{Str, utf8, ascii_lower, starts_with, strip_prefix}
use xray_bridge.Text.Laws.{
  slice_from-ascii, starts_with_sound, starts_with_append, strip_prefix_sound,
}
use xray_bridge.Extern.Unicode.{Unicode, IsAscii}
use xray_bridge.Extern.Http.{IsVisible}
use xray_bridge.Outcome.{done}
use xray_bridge.Auth.{bearer, strip_any_case, strip_scheme}

pub IsVisible-IsAscii : (b : ℕ) → IsVisible b → IsAscii b
IsVisible-IsAscii b h = omega arith

-- Seven bytes that read "bearer " in lower case.
abbrev pub IsScheme : Str → Type 0
IsScheme scheme = map ascii_lower scheme ≡ bearer

pub length-scheme : (scheme : Str) → IsScheme scheme → length scheme ≡ 7
unfolding utf8
length-scheme scheme h = sym (length-map ascii_lower scheme) ∙ ap length h

Bearer-IsScheme : IsScheme (utf8 "Bearer ")
unfolding utf8 ascii_lower
Bearer-IsScheme = refl

pub scheme_unique : (p q s t : Str) → IsScheme p → IsScheme q → p ++ s ≡ q ++ t → s ≡ t
scheme_unique p q s t hp hq e =
    append-cancel p q s t (length-scheme p hp ∙ sym (length-scheme q hq)) e

module _ (u : Unicode) (s : Str) (visible : All IsVisible s) where
  ascii : All IsAscii s
  ascii = All-imp IsVisible IsAscii IsVisible-IsAscii s visible

  lower_visible : u.to_lowercase s ≡ map ascii_lower s
  lower_visible = u.lower-ascii s ascii

  lower_scheme :
      (scheme t : Str)
      → IsScheme scheme
      → s ≡ scheme ++ t
      → map ascii_lower s ≡ bearer ++ map ascii_lower t
  lower_scheme scheme t h e = rw (e, map-append, h)

  -- The slow path finds a scheme, or there is none.
  strip_any_case-found :
      (t : Str)
      → map ascii_lower s ≡ bearer ++ t
      → (IsScheme (take 7 s)) × (strip_any_case u s ≡ done (some (drop 7 s)))
  unfolding strip_any_case utf8
  strip_any_case-found t e =
      let (same, le) = map-eq-append ascii_lower bearer t s e in
      (same, rw (lower_visible, e, starts_with_append bearer t, slice_from-ascii 7 s ascii le))

  pub strip_scheme-cases :
      (strip_scheme u s ≡ done none)
      ⊎ ((scheme t : Str) × IsScheme scheme
          × (s ≡ scheme ++ t)
          × (strip_scheme u s ≡ done (some t)))
  unfolding strip_scheme
  strip_scheme-cases = elim (Option-cases (strip_prefix (utf8 "Bearer ") s)) [
    | inr (t, fast) ↦
        inr
          (utf8 "Bearer ", t, Bearer-IsScheme, strip_prefix_sound _ s fast, rw (fast, strip_scheme))
    | inl slow ↦ elim (Bool-cases (starts_with bearer (map ascii_lower s))) [
      | inl found ↦
          let (t, e) = starts_with_sound bearer _ found in
          let (scheme, stripped) = strip_any_case-found t e in
          inr (
            take 7 s,
            drop 7 s,
            scheme,
            sym (take-append-drop 7 s),
            rw (slow, strip_scheme) stripped,
          )
      | inr missing ↦
          inl (rw (slow, strip_scheme) (unfold strip_any_case in rw (lower_visible, missing)))
    ]
  ]

  pub strip_scheme-scheme :
      (scheme t : Str) → IsScheme scheme → s ≡ scheme ++ t → strip_scheme u s ≡ done (some t)
  unfolding strip_scheme
  strip_scheme-scheme scheme t h e = elim (Option-cases (strip_prefix (utf8 "Bearer ") s)) [
    | inr (t', fast) ↦
        rw (fast, strip_scheme)
          (ap (λ r. done (some r))
            (scheme_unique _ scheme t' t Bearer-IsScheme h (sym (strip_prefix_sound _ s fast) ∙ e)))
    | inl slow ↦
        let (scheme', stripped) =
          strip_any_case-found (map ascii_lower t) (lower_scheme scheme t h e) in
        rw (slow, strip_scheme)
          (stripped
            ∙ ap (λ r. done (some r))
                (scheme_unique _ scheme _ t scheme' h (take-append-drop 7 s ∙ e)))
  ]
