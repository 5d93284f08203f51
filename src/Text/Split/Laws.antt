-- ===== src/Text/Split/Laws.antt =====
-- Splitting a text and joining its parts.
use xray_bridge.Prelude.{
  ℕ, zero, suc, ◌-◌, ◌≡◌, ◌≢◌, refl, ap, ◌∙◌, inl, inr, false, List, [], ◌∷◌, ◌++◌, append-nil,
  length, drop, drop_append, All, arith, Bool-cases,
}
use xray_bridge.Text.{Str, starts_with, contains}
use xray_bridge.Text.Laws.{starts_with_sound, starts_with_append}
use xray_bridge.Text.Split.{push, split_from, split}

-- The parts with the separator in front of each but the first.
join_tail : Str → List Str → Str
join_tail p [] = []
join_tail p (part ∷ parts) = p ++ (part ++ join_tail p parts)

unfoldable pub join : Str → List Str → Str
unfolding join_tail
join p [] = []
join p (part ∷ parts) = part ++ join_tail p parts

-- A text without the separator's first byte.
abbrev pub IsPlain : ℕ → Str → Type 0
IsPlain a part = All (λ b. b ≢ a) part

module _ (a : ℕ) (q : Str) where
  join-push : (b : ℕ) (parts : List Str) → join (a ∷ q) (push b parts) ≡ b ∷ join (a ∷ q) parts
  unfolding join push
  join-push b [] = refl
  join-push b (part ∷ parts) = refl

  join-nil_cons :
      (p : Str) (parts : List Str) → parts ≢ [] → join p ([] ∷ parts) ≡ p ++ join p parts
  unfolding join
  join-nil_cons p [] h = absurd (h refl)
  join-nil_cons p (part ∷ parts) h = refl

  push-ne-nil : (b : ℕ) (parts : List Str) → push b parts ≢ []
  unfolding push
  push-ne-nil b [] = cc
  push-ne-nil b (part ∷ parts) = cc

  split_from-ne-nil : (skip : ℕ) (s : Str) → split_from (a ∷ q) skip s ≢ []
  unfolding split_from
  split_from-ne-nil skip [] = cc
  split_from-ne-nil (suc skip) (b ∷ s) = split_from-ne-nil skip s
  split_from-ne-nil zero (b ∷ s) = ground (arith, push-ne-nil b (split_from (a ∷ q) zero s))

  join-split_from : (skip : ℕ) (s : Str) → join (a ∷ q) (split_from (a ∷ q) skip s) ≡ drop skip s
  unfolding split_from
  join-split_from zero [] = unfold join in refl
  join-split_from (suc skip) [] = unfold join in refl
  join-split_from (suc skip) (b ∷ s) = join-split_from skip s
  join-split_from zero (b ∷ s) = elim (Bool-cases (starts_with (a ∷ q) (b ∷ s))) [
    | inl found ↦
        let (t, e) = starts_with_sound (a ∷ q) (b ∷ s) found in
        rw found (
          join-nil_cons (a ∷ q) (split_from (a ∷ q) (length (a ∷ q) - 1) s)
            (split_from-ne-nil (length (a ∷ q) - 1) s)
          ∙ ap (λ r. a ∷ (q ++ r)) (join-split_from (length (a ∷ q) - 1) s)
          ∙ rest b s t e)
    | inr more ↦
        rw more (join-push b (split_from (a ∷ q) zero s) ∙ ap (◌∷◌ b) (join-split_from zero s))
  ]
    where
      rest :
          (b : ℕ) (s t : Str)
          → b ∷ s ≡ (a ∷ q) ++ t
          → a ∷ (q ++ drop (length (a ∷ q) - 1) s) ≡ b ∷ s
      rest b s t e =
          let n : length (a ∷ q) - 1 ≡ length q = omega arith in
          let tail : s ≡ q ++ t = cc in let head : a ≡ b = cc in rw (n, tail, drop_append q t, head)

  -- Joining the parts gives the text back.
  pub join-split : (s : Str) → join (a ∷ q) (split (a ∷ q) s) ≡ s
  unfolding split
  join-split s = join-split_from 0 s

  split_from-plain :
      (part t : Str)
      → IsPlain a part
      → (h : Str) (r : List Str) → split_from (a ∷ q) 0 t ≡ h ∷ r
      → split_from (a ∷ q) 0 (part ++ t) ≡ (part ++ h) ∷ r
  unfolding split_from push starts_with
  split_from-plain [] t plain h r e = e
  split_from-plain (b ∷ part) t (other, plain) h r e =
      ground (arith, split_from-plain part t plain h r e)

  split_from-skip : (u t : Str) → split_from (a ∷ q) (length u) (u ++ t) ≡ split_from (a ∷ q) 0 t
  unfolding split_from
  split_from-skip [] t = refl
  split_from-skip (b ∷ u) t = split_from-skip u t

  split_from-separator :
      (t : Str) → split_from (a ∷ q) 0 ((a ∷ q) ++ t) ≡ [] ∷ split_from (a ∷ q) 0 t
  unfolding split_from
  split_from-separator t =
      let n : length (a ∷ q) - 1 ≡ length q = omega arith in
      rw (starts_with_append (a ∷ q) t, n) (ap (◌∷◌ []) (split_from-skip q t))

  split_from-join_tail :
      (parts : List Str)
      → All (IsPlain a) parts
      → split_from (a ∷ q) 0 (join_tail (a ∷ q) parts) ≡ [] ∷ parts
  unfolding join_tail
  split_from-join_tail [] h = unfold split_from in refl
  split_from-join_tail (part ∷ parts) (plain, h) =
      split_from-separator (part ++ join_tail (a ∷ q) parts)
      ∙ ap (◌∷◌ []) (
          split_from-plain part (join_tail (a ∷ q) parts) plain [] parts
            (split_from-join_tail parts h)
          ∙ ap (λ x. x ∷ parts) (append-nil part))

  -- Parts that do not hold the separator's first byte are found again after they are joined.
  pub split-join :
      (part : Str) (parts : List Str)
      → IsPlain a part
      → All (IsPlain a) parts
      → split (a ∷ q) (join (a ∷ q) (part ∷ parts)) ≡ part ∷ parts
  unfolding split join
  split-join part parts plain h =
      split_from-plain part (join_tail (a ∷ q) parts) plain [] parts (split_from-join_tail parts h)
      ∙ ap (λ x. x ∷ parts) (append-nil part)

  -- The first part is a prefix of the text.
  IsPrefix : Str → List Str → Type 0
  IsPrefix s [] = ⊥
  IsPrefix s (part ∷ parts) = (u : Str) × (s ≡ part ++ u)

  push-IsPrefix :
      (b : ℕ) (s : Str) (parts : List Str) → IsPrefix s parts → IsPrefix (b ∷ s) (push b parts)
  unfolding push IsPrefix
  push-IsPrefix b s [] h = absurd h
  push-IsPrefix b s (part ∷ parts) (u, e) = (u, ap (◌∷◌ b) e)

  split_from-IsPrefix : (s : Str) → IsPrefix s (split_from (a ∷ q) 0 s)
  unfolding split_from IsPrefix
  split_from-IsPrefix [] = ([], refl)
  split_from-IsPrefix (b ∷ s) = elim (Bool-cases (starts_with (a ∷ q) (b ∷ s))) [
    | inl found ↦ rw found (b ∷ s, refl)
    | inr more ↦ rw more (push-IsPrefix b s (split_from (a ∷ q) 0 s) (split_from-IsPrefix s))
  ]

  -- No part holds the separator.
  abbrev pub IsClean : List Str → Type 0
  IsClean parts = All (λ part. contains (a ∷ q) part ≡ false) parts

  starts_with_prefix : (p s u : Str) → starts_with p (s ++ u) ≡ false → starts_with p s ≡ false
  unfolding starts_with
  starts_with_prefix [] s u h = h
  starts_with_prefix (c ∷ p) [] u h = refl
  starts_with_prefix (c ∷ p) (d ∷ s) u h = ground (arith, starts_with_prefix p s u)

  push-IsClean :
      (b : ℕ) (s : Str) (parts : List Str)
      → starts_with (a ∷ q) (b ∷ s) ≡ false
      → IsPrefix s parts
      → IsClean parts
      → IsClean (push b parts)
  unfolding push IsPrefix contains
  push-IsClean b s [] miss pre h = absurd pre
  push-IsClean b s (part ∷ parts) miss (u, e) (here, h) =
      let none_here = starts_with_prefix (a ∷ q) (b ∷ part) u (rw (← e) miss) in (ground arith, h)

  split_from-IsClean : (skip : ℕ) (s : Str) → IsClean (split_from (a ∷ q) skip s)
  unfolding split_from
  split_from-IsClean skip [] = (unfold contains in refl, tt)
  split_from-IsClean (suc skip) (b ∷ s) = split_from-IsClean skip s
  split_from-IsClean zero (b ∷ s) = elim (Bool-cases (starts_with (a ∷ q) (b ∷ s))) [
    | inl found ↦ rw found (unfold contains in refl, split_from-IsClean (length (a ∷ q) - 1) s)
    | inr more ↦ rw more (
        push-IsClean b s (split_from (a ∷ q) 0 s) more (split_from-IsPrefix s)
          (split_from-IsClean 0 s))
  ]

  pub split-IsClean : (s : Str) → IsClean (split (a ∷ q) s)
  unfolding split
  split-IsClean s = split_from-IsClean 0 s
