-- ===== src/Auth/Compare.antt =====
-- `constant_time_eq` of src/auth.rs.
use xray_bridge.Prelude.{
  ℕ, Bool, false, true, [], ◌∷◌, bit_or, bit_xor, ◌==◌, length, not, if◌then◌else◌, ◌≡◌, ◌↔◌, refl,
  arith,
}
use xray_bridge.Text.{Str}
use xray_bridge.Auth.Bits.{eq-zero_of_bit_or, eq_of_bit_xor, bit_xor_self}

-- The loop over the zipped bytes. A `u8` holds each value: neither operation leaves the byte range.
fold_diff : ℕ → Str → Str → ℕ
fold_diff result [] b = result
fold_diff result (x ∷ a) [] = result
fold_diff result (x ∷ a) (y ∷ b) = fold_diff (bit_or result (bit_xor x y)) a b

unfoldable pub constant_time_eq : Str → Str → Bool
unfolding fold_diff
constant_time_eq a b = if not (length a == length b) then false else fold_diff 0 a b == 0

fold_diff_sound :
    (r : ℕ) (a b : Str) → length a ≡ length b → fold_diff r a b ≡ 0 → (r ≡ 0) × (a ≡ b)
unfolding fold_diff
fold_diff_sound r [] [] l h = (h, refl)
fold_diff_sound r [] (y ∷ b) l h = absurd (omega arith)
fold_diff_sound r (x ∷ a) [] l h = absurd (omega arith)
fold_diff_sound r (x ∷ a) (y ∷ b) l h =
    let (acc, rest) = fold_diff_sound (bit_or r (bit_xor x y)) a b (omega arith) h in
    let (start, same) = eq-zero_of_bit_or r (bit_xor x y) acc in
    (start, ground (arith, eq_of_bit_xor x y same))

fold_diff_self : (a : Str) → fold_diff 0 a a ≡ 0
unfolding fold_diff
fold_diff_self [] = refl
fold_diff_self (x ∷ a) = rw bit_xor_self (fold_diff_self a)

-- The comparison answers `true` exactly for equal byte strings.
pub constant_time_eq_iff : (a b : Str) → (constant_time_eq a b ≡ true) ↔ (a ≡ b)
unfolding constant_time_eq
constant_time_eq_iff a b = (
  λ h. (fold_diff_sound 0 a b (ground arith) (ground arith)).1,
  λ e. rw e (ground (arith, fold_diff_self b)),
)
