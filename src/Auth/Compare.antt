-- ===== src/Auth/Compare.antt =====
-- src/auth.c: `constant_time_equal` decides equality of strings of the compared size.
use native.Mathlib.Decide.{ℕ_discrete}
use ps5_localsend.Auth.State.{differences, constant_time_equal}
use ps5_localsend.Base.{
  ℕ, zero, suc, ◌+◌, ◌≤◌, ◌<◌, bit_xor, ◌≡◌, refl, sym, ap₂, subst, ◌↔◌, true, [], ◌∷◌, arith,
  Bytes, length, get_or,
}
use ps5_localsend.Base.Bits.{eq_of_bit_xor, bit_xor_self, zero_of_bit_or}

differences_lower :
    (l r : Bytes) (size index d : ℕ)
    → differences l r size index d ≡ 0
    → (d ≡ 0) × ((j : ℕ) → index ≤ j → j < index + size → get_or l j 0 ≡ get_or r j 0)
unfolding differences
differences_lower l r zero index d h = (h, λ j a b. absurd (omega arith))
differences_lower l r (suc size) index d h =
    let (z, later) = differences_lower l r size (index + 1) _ h in
    let (dz, xz) = zero_of_bit_or d (bit_xor (get_or l index 0) (get_or r index 0)) z in
    let here : get_or l index 0 ≡ get_or r index 0 = eq_of_bit_xor _ _ xz in
    (
      dz,
      λ j a b. elim (ℕ_discrete j index) [
        | yes e ↦ subst (λ k. get_or l k 0 ≡ get_or r k 0) (sym e) here
        | no ne ↦ later j (omega arith) (omega arith)
      ],
    )

differences_self : (l : Bytes) (size index : ℕ) → differences l l size index 0 ≡ 0
unfolding differences
differences_self l zero index = refl
differences_self l (suc size) index = rw bit_xor_self (differences_self l size (index + 1))

eq_of_get_or :
    (l r : Bytes)
    → length l ≡ length r
    → ((j : ℕ) → j < length l → get_or l j 0 ≡ get_or r j 0)
    → l ≡ r
eq_of_get_or [] [] e h = refl
eq_of_get_or [] (y ∷ r) e h = absurd (omega arith)
eq_of_get_or (x ∷ l) [] e h = absurd (omega arith)
eq_of_get_or (x ∷ l) (y ∷ r) e h =
    ap₂ ◌∷◌ (h 0 (omega arith)) (eq_of_get_or l r (omega arith) (λ j lt. h (suc j) (omega arith)))

pub constant_time_equal_refl : (l : Bytes) (size : ℕ) → constant_time_equal l l size ≡ true
unfolding constant_time_equal
constant_time_equal_refl l size = rw (differences_self l size 0)

-- For two strings of exactly `size` bytes, `constant_time_equal` answers true exactly when they
-- are the same string.
pub constant_time_equal_iff :
    (l r : Bytes) (size : ℕ)
    → length l ≡ size
    → length r ≡ size
    → (constant_time_equal l r size ≡ true) ↔ (l ≡ r)
unfolding constant_time_equal
constant_time_equal_iff l r size hl hr = (
  λ h.
      eq_of_get_or l r (omega arith)
        (λ j lt. (differences_lower l r size 0 0 (ground arith)).1 j (omega arith) (omega arith)),
  λ e. subst (λ x. constant_time_equal l x size ≡ true) e (constant_time_equal_refl l size),
)
