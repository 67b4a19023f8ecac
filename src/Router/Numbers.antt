-- ===== src/Router/Numbers.antt =====
-- src/router.c: `%llu` and `%u` of `snprintf`, and what reads the digits back.
use ps5_localsend.Base.{
  ℕ, zero, suc, ◌+◌, ◌*◌, ◌/◌, ◌%◌, ◌^◌, ◌≤◌, ◌<◌, ◌≡◌, ap, ◌∙◌, inl, inr, Bool, true, [], ◌∷◌,
  ◌++◌, append_assoc, arith, ltb, if◌then◌else◌, ltb→lt, Bool-cases, Bytes, is_digit, get_or,
}
use ps5_localsend.Config.State.{read_digits}

-- The decimal digits of a number below 10^fuel.
unfoldable pub print_digits : ℕ → ℕ → Bytes
print_digits zero n = []
print_digits (suc fuel) n =
    let front = print_digits fuel (n / 10) in
    if ltb n 10 then (b'0' + n) ∷ [] else front ++ ((b'0' + n % 10) ∷ [])

-- A number below 2^64 has at most twenty digits.
abbrev pub print_u64 : ℕ → Bytes
print_u64 n = print_digits 20 n

read_digit :
    (value d : ℕ) (rest : Bytes)
    → d < 10
    → read_digits true value ((b'0' + d) ∷ rest) ≡ read_digits true (value * 10 + d) rest
unfolding read_digits
read_digit value d rest h = ground arith

first_digit :
    (any : Bool) (d : ℕ) (rest : Bytes)
    → d < 10
    → read_digits any 0 ((b'0' + d) ∷ rest) ≡ read_digits true d rest
unfolding read_digits
first_digit any d rest h = ground arith

last_digit :
    (front rest : Bytes) (any : Bool) (n : ℕ)
    → read_digits any 0 (front ++ ((b'0' + n % 10) ∷ rest))
      ≡ read_digits true (n / 10) ((b'0' + n % 10) ∷ rest)
    → read_digits any 0 ((front ++ ((b'0' + n % 10) ∷ [])) ++ rest) ≡ read_digits true n rest
last_digit front rest any n h =
    ap (read_digits any 0) (append_assoc front ((b'0' + n % 10) ∷ []) rest)
    ∙ h
    ∙ read_digit (n / 10) (n % 10) rest (omega arith)
    ∙ ap (λ v. read_digits true v rest) {x = n / 10 * 10 + n % 10} {y = n} (omega arith)

print_small : (fuel n : ℕ) → n < 10 → print_digits (suc fuel) n ≡ (b'0' + n) ∷ []
unfolding print_digits
print_small fuel n h = ground arith

print_large :
    (fuel n : ℕ)
    → 10 ≤ n
    → print_digits (suc fuel) n ≡ print_digits fuel (n / 10) ++ ((b'0' + n % 10) ∷ [])
unfolding print_digits
print_large fuel n h = ground arith

-- One more digit than `fuel` has.
print_step :
    (fuel n : ℕ) (any : Bool) (rest : Bytes)
    → (10 ≤ n
        → read_digits any 0 (print_digits fuel (n / 10) ++ ((b'0' + n % 10) ∷ rest))
          ≡ read_digits true (n / 10) ((b'0' + n % 10) ∷ rest))
    → read_digits any 0 (print_digits (suc fuel) n ++ rest) ≡ read_digits true n rest
print_step fuel n any rest front = elim (Bool-cases (ltb n 10)) [
  | inl small ↦
      ap (λ t. read_digits any 0 (t ++ rest)) (print_small fuel n (ltb→lt n 10 small))
      ∙ first_digit any n rest (ltb→lt n 10 small)
  | inr large ↦
      ap (λ t. read_digits any 0 (t ++ rest)) (print_large fuel n (ground arith))
      ∙ last_digit (print_digits fuel (n / 10)) rest any n (front (ground arith))
]

-- Reading after printing goes on behind the number.
pub read_digits-print_digits :
    (fuel n : ℕ) (any : Bool) (rest : Bytes)
    → n < 10 ^ suc fuel
    → read_digits any 0 (print_digits (suc fuel) n ++ rest) ≡ read_digits true n rest
read_digits-print_digits zero n any rest h = print_step zero n any rest (λ k. absurd (omega arith))
read_digits-print_digits (suc f) n any rest h =
    print_step (suc f) n any rest
      (λ k. read_digits-print_digits f (n / 10) any ((b'0' + n % 10) ∷ rest) (omega arith))

front_step :
    (fuel n : ℕ) (rest : Bytes)
    → (10 ≤ n
        → is_digit (get_or (print_digits fuel (n / 10) ++ ((b'0' + n % 10) ∷ rest)) 0 0) ≡ true)
    → is_digit (get_or (print_digits (suc fuel) n ++ rest) 0 0) ≡ true
front_step fuel n rest h = elim (Bool-cases (ltb n 10)) [
  | inl small ↦
      ap (λ (t : Bytes). is_digit (get_or (t ++ rest) 0 0)) (print_small fuel n (ltb→lt n 10 small))
      ∙ ground arith
  | inr large ↦
      ap (λ (t : Bytes). is_digit (get_or (t ++ rest) 0 0)) (print_large fuel n (ground arith))
      ∙ ap (λ (t : Bytes). is_digit (get_or t 0 0))
          (append_assoc (print_digits fuel (n / 10)) ((b'0' + n % 10) ∷ []) rest)
      ∙ h (ground arith)
]

-- A printed number starts with a digit.
pub digit_front :
    (fuel n : ℕ) (rest : Bytes) → is_digit (get_or (print_digits (suc fuel) n ++ rest) 0 0) ≡ true
digit_front zero n rest = front_step zero n rest (λ k. unfold print_digits in ground arith)
digit_front (suc f) n rest =
    front_step (suc f) n rest (λ k. digit_front f (n / 10) ((b'0' + n % 10) ∷ rest))
