-- ===== src/Base/Bits.antt =====
-- When `bit_xor` and `bit_or` are zero, from the digit recursion that defines them.
use Prim.Native.Nat.{
  ℕ, zero, suc, ◌/◌, ◌%◌, ◌≤◌, max, bit_or, bit_xor, digits, differ, bit_or-bitwise,
  bit_xor-bitwise,
}
use mathlib.Core.Path.{◌≡◌, refl, sym, ◌∙◌}
use native.Mathlib.Omega.{arith}

eq_of_differ : (x y : ℕ) → differ x y ≡ 0 → x ≡ y
eq_of_differ zero y h = sym h
eq_of_differ (suc x) zero h = h
eq_of_differ (suc x) (suc y) h = omega (arith, eq_of_differ x y h)

differ_self : (x : ℕ) → differ x x ≡ 0
differ_self zero = refl
differ_self (suc x) = differ_self x

xor_digits_zero : (n a b : ℕ) → a ≤ n → digits (λ b. b) differ n a b ≡ 0 → a ≡ b
xor_digits_zero zero zero b l h = sym h
xor_digits_zero zero (suc a) b l h = absurd (omega arith)
xor_digits_zero (suc n) zero b l h = sym h
xor_digits_zero (suc n) (suc a) b l h = omega (
  arith,
  xor_digits_zero n (suc a / 2) (b / 2) (omega arith) (omega arith),
  eq_of_differ (suc a % 2) (b % 2) (omega arith),
)

xor_digits_self : (n a : ℕ) → a ≤ n → digits (λ b. b) differ n a a ≡ 0
xor_digits_self zero zero l = refl
xor_digits_self zero (suc a) l = absurd (omega arith)
xor_digits_self (suc n) zero l = refl
xor_digits_self (suc n) (suc a) l =
    omega (arith, xor_digits_self n (suc a / 2) (omega arith), differ_self (suc a % 2))

or_digits_zero : (n a b : ℕ) → a ≤ n → digits (λ b. b) max n a b ≡ 0 → (a ≡ 0) × (b ≡ 0)
or_digits_zero zero zero b l h = (refl, h)
or_digits_zero zero (suc a) b l h = absurd (omega arith)
or_digits_zero (suc n) zero b l h = (refl, h)
or_digits_zero (suc n) (suc a) b l h =
    omega (arith, or_digits_zero n (suc a / 2) (b / 2) (omega arith) (omega arith))

pub eq_of_bit_xor : (a b : ℕ) → bit_xor a b ≡ 0 → a ≡ b
eq_of_bit_xor a b h = xor_digits_zero a a b (omega arith) (sym (bit_xor-bitwise a b) ∙ h)

pub bit_xor_self : (a : ℕ) → bit_xor a a ≡ 0
bit_xor_self a = bit_xor-bitwise a a ∙ xor_digits_self a a (omega arith)

pub zero_of_bit_or : (a b : ℕ) → bit_or a b ≡ 0 → (a ≡ 0) × (b ≡ 0)
zero_of_bit_or a b h = or_digits_zero a a b (omega arith) (sym (bit_or-bitwise a b) ∙ h)
