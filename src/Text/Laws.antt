-- ===== src/Text/Laws.antt =====
-- What the operations of Text.antt compute.
use xray_bridge.Prelude.{
  ℕ, ◌≤◌, ◌<◌, All, All-drop, length, drop, ◌≡◌, refl, ap, ◌↔◌, inl, inr, true, some, [], ◌∷◌, ◌++◌,
  arith, Bool-cases,
}
use xray_bridge.Text.{
  Str, str_eq, is_empty, strip_prefix, starts_with, contains, starts_char, slice_from,
}

pub str_eq_sound : (s t : Str) → str_eq s t ≡ true → s ≡ t
unfolding str_eq
str_eq_sound [] [] h = refl
str_eq_sound [] (b ∷ t) h = cc
str_eq_sound (a ∷ s) [] h = cc
str_eq_sound (a ∷ s) (b ∷ t) h = ground (arith, str_eq_sound s t)

pub str_eq_refl : (s : Str) → str_eq s s ≡ true
unfolding str_eq
str_eq_refl [] = refl
str_eq_refl (a ∷ s) = ground (arith, str_eq_refl s)

-- `==` decides equality.
pub str_eq_iff : (s t : Str) → (str_eq s t ≡ true) ↔ (s ≡ t)
str_eq_iff s t = (str_eq_sound s t, λ e. rw e (str_eq_refl t))

pub is_empty_iff : (s : Str) → (is_empty s ≡ true) ↔ (s ≡ [])
unfolding is_empty
is_empty_iff [] = ground arith
is_empty_iff (a ∷ s) = ground arith

pub strip_prefix_sound : (p s : Str) {t : Str} → strip_prefix p s ≡ some t → s ≡ p ++ t
unfolding strip_prefix
strip_prefix_sound [] s h = ground arith
strip_prefix_sound (a ∷ p) [] h = cc
strip_prefix_sound (a ∷ p) (b ∷ s) {t} h = ground (arith, strip_prefix_sound p s {t = t})

pub strip_prefix_append : (p t : Str) → strip_prefix p (p ++ t) ≡ some t
unfolding strip_prefix
strip_prefix_append [] t = refl
strip_prefix_append (a ∷ p) t = ground (arith, strip_prefix_append p t)

pub starts_with_sound : (p s : Str) → starts_with p s ≡ true → (t : Str) × (s ≡ p ++ t)
unfolding starts_with
starts_with_sound [] s h = (s, refl)
starts_with_sound (a ∷ p) [] h = absurd (cc)
starts_with_sound (a ∷ p) (b ∷ s) h =
    let (t, e) = starts_with_sound p s (ground arith) in (t, ground arith)

pub starts_with_append : (p t : Str) → starts_with p (p ++ t) ≡ true
unfolding starts_with
starts_with_append [] t = refl
starts_with_append (a ∷ p) t = ground (arith, starts_with_append p t)

-- `p` stands somewhere in `s`.
pub record Occurs (p s : Str) : Type 0 where
  pub before : Str
  pub after : Str
  pub splits : s ≡ before ++ (p ++ after)

pub contains_sound : (p s : Str) → contains p s ≡ true → Occurs p s
unfolding contains
contains_sound p [] h =
    let (t, e) = starts_with_sound p [] h in record { before = []; after = t; splits = e }
contains_sound p (b ∷ s) h = elim (Bool-cases (starts_with p (b ∷ s))) [
  | inl here ↦
      let (t, e) = starts_with_sound p (b ∷ s) here in record { before = []; after = t; splits = e }
  | inr later ↦
      let o = contains_sound p s (ground arith) in
      record { before = b ∷ o.before; after = o.after; splits = ap (◌∷◌ b) o.splits }
]

contains_append : (p u v : Str) → contains p (u ++ (p ++ v)) ≡ true
unfolding contains
contains_append [] [] [] = refl
contains_append [] [] (c ∷ v) = refl
contains_append (a ∷ p) [] v = rw (starts_with_append (a ∷ p) v)
contains_append p (b ∷ u) v = ground (arith, contains_append p u v)

-- `contains` finds exactly the occurrences.
pub contains_iff : (p s : Str) → (contains p s ≡ true) ↔ Occurs p s
contains_iff p s = (contains_sound p s, λ o. rw o.splits (contains_append p o.before o.after))

starts_char-ascii : (s : Str) → All (λ b. b < 0x80) s → starts_char s ≡ true
unfolding starts_char
starts_char-ascii [] h = refl
starts_char-ascii (b ∷ s) (v, h) = ground arith

-- A slice of ASCII text never splits a character.
pub slice_from-ascii :
    (n : ℕ) (s : Str) → All (λ b. b < 0x80) s → n ≤ length s → slice_from n s ≡ some (drop n s)
unfolding slice_from
slice_from-ascii n s h l = rw (starts_char-ascii (drop n s) (All-drop _ n s h)) (ground arith)
