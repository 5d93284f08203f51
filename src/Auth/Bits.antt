-- ===== src/Auth/Bits.antt =====
-- When `|` and `^` give 0, from the digit recursion that the native operations stand for.
use Prim.Native.Nat.{max, digits, differ, bit_or-bitwise, bit_xor-bitwise}
use xray_bridge.Prelude.{ℕ, zero, suc, ◌/◌, ◌%◌, ◌≤◌, ◌<◌, ◌≡◌, refl, arith, bit_or, bit_xor}

or_digits_zero : (n a b : ℕ) → a ≤ n → digits (λ y. y) max n a b ≡ 0 → (a ≡ 0) × (b ≡ 0)
or_digits_zero zero a b p h = omega arith
or_digits_zero (suc n) zero b p h = omega arith
or_digits_zero (suc n) (suc a) b p h =
    omega (arith, or_digits_zero n (suc a / 2) (b / 2) (omega arith) (omega arith))

pub eq-zero_of_bit_or : (a b : ℕ) → bit_or a b ≡ 0 → (a ≡ 0) × (b ≡ 0)
eq-zero_of_bit_or a b h = or_digits_zero a a b (omega arith) (rw bit_or-bitwise at h)

eq_of_differ : (x y : ℕ) → x < 2 → y < 2 → differ x y ≡ 0 → x ≡ y
eq_of_differ zero y p q h = omega arith
eq_of_differ (suc x) zero p q h = omega arith
eq_of_differ (suc x) (suc y) p q h = omega arith

differ_self : (x : ℕ) → differ x x ≡ 0
differ_self zero = refl
differ_self (suc x) = differ_self x

xor_digits_zero : (n a b : ℕ) → a ≤ n → digits (λ y. y) differ n a b ≡ 0 → a ≡ b
xor_digits_zero zero a b p h = omega arith
xor_digits_zero (suc n) zero b p h = omega arith
xor_digits_zero (suc n) (suc a) b p h = omega (
  arith,
  xor_digits_zero n (suc a / 2) (b / 2) (omega arith) (omega arith),
  eq_of_differ (suc a % 2) (b % 2) (omega arith) (omega arith) (omega arith),
)

pub eq_of_bit_xor : (a b : ℕ) → bit_xor a b ≡ 0 → a ≡ b
eq_of_bit_xor a b h = xor_digits_zero a a b (omega arith) (rw bit_xor-bitwise at h)

xor_digits_self : (n a : ℕ) → a ≤ n → digits (λ y. y) differ n a a ≡ 0
xor_digits_self zero a p = omega arith
xor_digits_self (suc n) zero p = refl
xor_digits_self (suc n) (suc a) p =
    omega (arith, xor_digits_self n (suc a / 2) (omega arith), differ_self (suc a % 2))

pub bit_xor_self : (a : ℕ) → bit_xor a a ≡ 0
bit_xor_self a = rw bit_xor-bitwise (xor_digits_self a a (omega arith))
