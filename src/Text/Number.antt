-- ===== src/Text/Number.antt =====
-- `s.parse::<u16>()` and the decimal `Display` of a `u16`.
use xray_bridge.Prelude.{
  ◌∙◌, ◌≢◌, ℕ, zero, suc, ◌+◌, ◌-◌, ◌*◌, ◌/◌, ◌%◌, ◌<◌, ◌≡◌, refl, ◌&&◌, Bool, Option, none, some,
  [], ◌∷◌, arith, ltb, leb, ◌==◌, if◌then◌else◌, Bool-cases, inl, inr,
}
use xray_bridge.Text.{Str}

is_digit : ℕ → Bool
is_digit b = leb b'0' b && leb b b'9'

-- The digits after `acc`, with an overflow checked at each one.
digits_u16 : ℕ → Str → Option ℕ
unfolding is_digit
digits_u16 acc [] = some acc
digits_u16 acc (b ∷ s) =
    let next = acc * 10 + (b - b'0') in
    let rest = digits_u16 next s in if is_digit b && ltb next 65536 then rest else none

-- One leading `+` is taken; no digits at all is an error.
unfoldable pub parse_u16 : Str → Option ℕ
unfolding digits_u16
parse_u16 [] = none
parse_u16 (b ∷ []) = digits_u16 0 (b ∷ [])
parse_u16 (b ∷ c ∷ s) = if b == b'+' then digits_u16 0 (c ∷ s) else digits_u16 0 (b ∷ c ∷ s)

show_from : ℕ → ℕ → Str → Str
show_from zero n rest = rest
show_from (suc fuel) n rest =
    let more = show_from fuel (n / 10) ((b'0' + n % 10) ∷ rest) in
    if ltb n 10 then (b'0' + n) ∷ rest else more

-- The decimal digits of `n`; each round divides by 10, so `n + 1` rounds are enough.
unfoldable pub show : ℕ → Str
unfolding show_from
show n = show_from (suc n) n []

digits_u16-cons :
    (acc d n : ℕ) (rest : Str)
    → d < 10
    → acc * 10 + d ≡ n
    → n < 65536
    → digits_u16 acc ((b'0' + d) ∷ rest) ≡ digits_u16 n rest
unfolding digits_u16
digits_u16-cons acc d n rest h same b =
    let e : b'0' + d - b'0' ≡ d = omega arith in rw (e, same) (ground arith)

digits_u16-show_from :
    (fuel n : ℕ) (rest : Str)
    → n < fuel
    → n < 65536
    → digits_u16 0 (show_from fuel n rest) ≡ digits_u16 n rest
unfolding show_from
digits_u16-show_from zero n rest h b = absurd (omega arith)
digits_u16-show_from (suc fuel) n rest h b = elim (Bool-cases (ltb n 10)) [
  | inl small ↦ rw small (digits_u16-cons 0 n n rest (ground arith) (omega arith) b)
  | inr large ↦ rw large (
      digits_u16-show_from fuel (n / 10) ((b'0' + n % 10) ∷ rest) (ground arith) (omega arith)
      ∙ digits_u16-cons (n / 10) (n % 10) n rest (omega arith) (omega arith) b)
]

-- A text of digits that does not begin with `+`.
StartsPlain : Str → Type 0
StartsPlain [] = ⊥
StartsPlain (b ∷ s) = b ≢ b'+'

parse_u16_plain : (s : Str) → StartsPlain s → parse_u16 s ≡ digits_u16 0 s
unfolding parse_u16 StartsPlain
parse_u16_plain [] h = absurd h
parse_u16_plain (b ∷ []) h = refl
parse_u16_plain (b ∷ c ∷ s) h = ground arith

show_from-StartsPlain : (fuel n : ℕ) (rest : Str) → n < fuel → StartsPlain (show_from fuel n rest)
unfolding show_from StartsPlain
show_from-StartsPlain zero n rest h = absurd (omega arith)
show_from-StartsPlain (suc fuel) n rest h = elim (Bool-cases (ltb n 10)) [
  | inl small ↦ rw small (omega arith)
  | inr large ↦ rw large (show_from-StartsPlain fuel (n / 10) _ (ground arith))
]

-- A `u16` that is printed in decimal is read back as itself.
pub parse_u16-show : (n : ℕ) → n < 65536 → parse_u16 (show n) ≡ some n
unfolding show
parse_u16-show n h =
    parse_u16_plain (show n) (show_from-StartsPlain (suc n) n [] (omega arith))
    ∙ digits_u16-show_from (suc n) n [] (omega arith) h
    ∙ unfold digits_u16 in refl

digits_u16-lt : (acc n : ℕ) (s : Str) → acc < 65536 → digits_u16 acc s ≡ some n → n < 65536
unfolding digits_u16
digits_u16-lt acc n [] b h = ground arith
digits_u16-lt acc n (d ∷ s) b h = ground (arith, digits_u16-lt (acc * 10 + (d - b'0')) n s)

-- Whatever is read fits a `u16`.
pub parse_u16-lt : (s : Str) {n : ℕ} → parse_u16 s ≡ some n → n < 65536
unfolding parse_u16
parse_u16-lt [] h = absurd (cc)
parse_u16-lt (b ∷ []) {n} h = digits_u16-lt 0 n (b ∷ []) (omega arith) h
parse_u16-lt (b ∷ c ∷ s) {n} h =
    ground
      (arith, digits_u16-lt 0 n (c ∷ s) (omega arith), digits_u16-lt 0 n (b ∷ c ∷ s) (omega arith))
