-- ===== src/Sha256/Compress.antt =====
-- src/sha256.c: `transform`. A `uint32_t` is a number below 2^32, and its sums are reduced.
use ps5_localsend.Base.{
  ℕ, zero, suc, ◌+◌, ◌-◌, ◌*◌, ◌/◌, ◌%◌, ◌^◌, bit_and, bit_or, bit_xor, List, [], ◌∷◌, ◌++◌, Bytes,
  get_or,
}

abbrev pub add_u32 : ℕ → ℕ → ℕ
add_u32 a b = (a + b) % 2 ^ 32

-- `value >> count | value << (32U - count)`
unfoldable pub rotate_right : ℕ → ℕ → ℕ
rotate_right value count = bit_or (value / 2 ^ count) (value * 2 ^ (32 - count) % 2 ^ 32)

-- `~value`
abbrev pub complement : ℕ → ℕ
complement value = bit_xor value 0xffffffff

abbrev pub constants : List ℕ
constants =
    0x428a2f98 ∷ 0x71374491 ∷ 0xb5c0fbcf ∷ 0xe9b5dba5 ∷ 0x3956c25b ∷ 0x59f111f1 ∷ 0x923f82a4
    ∷ 0xab1c5ed5 ∷ 0xd807aa98 ∷ 0x12835b01 ∷ 0x243185be ∷ 0x550c7dc3 ∷ 0x72be5d74 ∷ 0x80deb1fe
    ∷ 0x9bdc06a7 ∷ 0xc19bf174 ∷ 0xe49b69c1 ∷ 0xefbe4786 ∷ 0x0fc19dc6 ∷ 0x240ca1cc ∷ 0x2de92c6f
    ∷ 0x4a7484aa ∷ 0x5cb0a9dc ∷ 0x76f988da ∷ 0x983e5152 ∷ 0xa831c66d ∷ 0xb00327c8 ∷ 0xbf597fc7
    ∷ 0xc6e00bf3 ∷ 0xd5a79147 ∷ 0x06ca6351 ∷ 0x14292967 ∷ 0x27b70a85 ∷ 0x2e1b2138 ∷ 0x4d2c6dfc
    ∷ 0x53380d13 ∷ 0x650a7354 ∷ 0x766a0abb ∷ 0x81c2c92e ∷ 0x92722c85 ∷ 0xa2bfe8a1 ∷ 0xa81a664b
    ∷ 0xc24b8b70 ∷ 0xc76c51a3 ∷ 0xd192e819 ∷ 0xd6990624 ∷ 0xf40e3585 ∷ 0x106aa070 ∷ 0x19a4c116
    ∷ 0x1e376c08 ∷ 0x2748774c ∷ 0x34b0bcb5 ∷ 0x391c0cb3 ∷ 0x4ed8aa4a ∷ 0x5b9cca4f ∷ 0x682e6ff3
    ∷ 0x748f82ee ∷ 0x78a5636f ∷ 0x84c87814 ∷ 0x8cc70208 ∷ 0x90befffa ∷ 0xa4506ceb ∷ 0xbef9a3f7
    ∷ 0xc67178f2 ∷ []

-- The eight words of `initial`.
abbrev pub initial : List ℕ
initial =
    0x6a09e667 ∷ 0xbb67ae85 ∷ 0x3c6ef372 ∷ 0xa54ff53a ∷ 0x510e527f ∷ 0x9b05688c ∷ 0x1f83d9ab
    ∷ 0x5be0cd19 ∷ []

abbrev pub byte_at : Bytes → ℕ → ℕ
byte_at block index = get_or block index 0

unfoldable pub word_at : Bytes → ℕ → ℕ
word_at block index =
    bit_or
      (bit_or (bit_or (byte_at block (index * 4) * 2 ^ 24) (byte_at block (index * 4 + 1) * 2 ^ 16))
        (byte_at block (index * 4 + 2) * 2 ^ 8))
      (byte_at block (index * 4 + 3))

-- The first loop, from `index` on.
unfoldable pub first_words : Bytes → ℕ → ℕ → List ℕ
first_words block zero index = []
first_words block (suc n) index = word_at block index ∷ first_words block n (index + 1)

unfoldable pub next_word : List ℕ → ℕ → ℕ
next_word words index =
    let x = get_or words (index - 15) 0 in
    let y = get_or words (index - 2) 0 in
    let s0 = bit_xor (bit_xor (rotate_right x 7) (rotate_right x 18)) (x / 2 ^ 3) in
    let s1 = bit_xor (bit_xor (rotate_right y 17) (rotate_right y 19)) (y / 2 ^ 10) in
    add_u32 (add_u32 (add_u32 (get_or words (index - 16) 0) s0) (get_or words (index - 7) 0)) s1

-- The second loop, from `index` on.
unfoldable pub more_words : List ℕ → ℕ → ℕ → List ℕ
more_words words zero index = words
more_words words (suc n) index = more_words (words ++ (next_word words index ∷ [])) n (index + 1)

unfoldable pub schedule : Bytes → List ℕ
schedule block = more_words (first_words block 16 0) 48 16

pub record Vars : Type 0 where
  pub a : ℕ
  pub b : ℕ
  pub c : ℕ
  pub d : ℕ
  pub e : ℕ
  pub f : ℕ
  pub g : ℕ
  pub h : ℕ

unfoldable pub hash_round : Vars → ℕ → ℕ → Vars
hash_round v constant word =
    let s1 = bit_xor (bit_xor (rotate_right v.e 6) (rotate_right v.e 11)) (rotate_right v.e 25) in
    let choice = bit_xor (bit_and v.e v.f) (bit_and (complement v.e) v.g) in
    let t1 = add_u32 (add_u32 (add_u32 (add_u32 v.h s1) choice) constant) word in
    let s0 = bit_xor (bit_xor (rotate_right v.a 2) (rotate_right v.a 13)) (rotate_right v.a 22) in
    let majority = bit_xor (bit_xor (bit_and v.a v.b) (bit_and v.a v.c)) (bit_and v.b v.c) in
    let t2 = add_u32 s0 majority in
    record {
      a = add_u32 t1 t2;
      b = v.a;
      c = v.b;
      d = v.c;
      e = add_u32 v.d t1;
      f = v.e;
      g = v.f;
      h = v.g;
    }

-- The third loop, over the constants and the words.
unfoldable pub hash_rounds : Vars → List ℕ → List ℕ → Vars
hash_rounds v [] words = v
hash_rounds v (k ∷ ks) [] = v
hash_rounds v (k ∷ ks) (w ∷ ws) = hash_rounds (hash_round v k w) ks ws

abbrev pub vars_of : List ℕ → Vars
vars_of state = record {
  a = get_or state 0 0;
  b = get_or state 1 0;
  c = get_or state 2 0;
  d = get_or state 3 0;
  e = get_or state 4 0;
  f = get_or state 5 0;
  g = get_or state 6 0;
  h = get_or state 7 0;
}

abbrev pub add_vars : List ℕ → Vars → List ℕ
add_vars state v =
    add_u32 (get_or state 0 0) v.a
    ∷ add_u32 (get_or state 1 0) v.b
    ∷ add_u32 (get_or state 2 0) v.c
    ∷ add_u32 (get_or state 3 0) v.d
    ∷ add_u32 (get_or state 4 0) v.e
    ∷ add_u32 (get_or state 5 0) v.f
    ∷ add_u32 (get_or state 6 0) v.g
    ∷ add_u32 (get_or state 7 0) v.h
    ∷ []

-- `transform`, on the eight words of the state.
unfoldable pub transform : List ℕ → Bytes → List ℕ
transform state block = add_vars state (hash_rounds (vars_of state) constants (schedule block))
