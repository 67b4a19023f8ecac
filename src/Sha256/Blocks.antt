-- ===== src/Sha256/Blocks.antt =====
-- src/sha256.c: what the buffering of `sha256_update` amounts to.
use ps5_localsend.Base.{
  ℕ, zero, suc, ◌+◌, ◌-◌, ◌*◌, ◌/◌, ◌≤◌, ◌<◌, min, ◌≡◌, sym, ap, subst, ◌∙◌, ◌≢◌, inl, inr, true,
  ◌&&◌, List, [], ◌∷◌, ◌++◌, append-nil, append_assoc, arith, leb, ◌==◌, Bool-cases, Bytes, length,
  take, drop, length-append, take-append-drop, length-take, length-drop, take_all, drop_all,
  drop-append, take-append,
}
use ps5_localsend.Sha256.Compress.{transform}
use ps5_localsend.Sha256.Context.{update_loop}

-- `n` blocks of 64 bytes, one after another.
unfoldable pub compress : ℕ → List ℕ → Bytes → List ℕ
compress zero state message = state
compress (suc n) state message = compress n (transform state (take 64 message)) (drop 64 message)

-- The whole blocks of `message` are in the state, and the rest of it is in the block.
pub record Absorbed (state : List ℕ) (message : Bytes) (r : List ℕ × Bytes) : Type 0 where
  pub state_is : r.0 ≡ compress (length message / 64) state message
  pub block_is : r.1 ≡ drop (length message / 64 * 64) message

-- A message that does not fill a block.
pub short_message :
    (state : List ℕ) (message : Bytes)
    → length message < 64
    → Absorbed state message (state, message)
unfolding compress
short_message state message lt =
    let none_full : 0 ≡ length message / 64 = omega arith in
    record {
      state_is = ap (λ n. compress n state message) none_full;
      block_is = ap (λ n. drop n message) {x = 0} {y = length message / 64 * 64} (omega arith);
    }

pub drop-drop : (n m : ℕ) (xs : Bytes) → drop n (drop m xs) ≡ drop (m + n) xs
drop-drop n zero xs = ap (λ k. drop k xs) (omega arith)
drop-drop n (suc m) [] = nothing n
  where
    nothing : (n : ℕ) → drop {A = ℕ} n [] ≡ drop (suc m + n) []
    nothing n = drop_all n [] (omega arith) ∙ sym (drop_all (suc m + n) [] (omega arith))
drop-drop n (suc m) (x ∷ xs) =
    drop-drop n m xs ∙ ap (λ k. drop k (x ∷ xs)) {x = suc (m + n)} (omega arith)

-- One block more in front.
pub block_first :
    (state : List ℕ) (message : Bytes) (r : List ℕ × Bytes)
    → 64 ≤ length message
    → Absorbed (transform state (take 64 message)) (drop 64 message) r
    → Absorbed state message r
unfolding compress
block_first state message r le a =
    let rest = drop 64 message in
    let count : suc (length rest / 64) ≡ length message / 64 =
      omega (arith, length-drop 64 message) in
    record {
      state_is = a.state_is ∙ ap (λ n. compress n state message) count;
      block_is =
          a.block_is
          ∙ drop-drop (length rest / 64 * 64) 64 message
          ∙ ap (λ n. drop n message) (omega (arith, count));
    }

module _ (state : List ℕ) (block input : Bytes) (fuel : ℕ) (room : length block < 64)
    (ih : (s : List ℕ) (b i : Bytes)
      → length i ≤ fuel
      → length b < 64
      → Absorbed s (b ++ i) (update_loop fuel s b i))
    (enough : length input ≤ suc fuel) where
  -- Whole blocks are read where they stand.
  direct_round :
      length block ≡ 0
      → 64 ≤ length input
      → Absorbed state
          (block ++ input)
          (update_loop fuel (transform state (take 64 input)) block (drop 64 input))
  direct_round e le = go block e room
    where
      go :
          (b : Bytes)
          → length b ≡ 0
          → length b < 64
          → Absorbed state
              (b ++ input)
              (update_loop fuel (transform state (take 64 input)) b (drop 64 input))
      go [] e lt = block_first state input _ le (
          ih (transform state (take 64 input)) [] (drop 64 input)
            (omega (arith, length-drop 64 input)) (omega arith))
      go (x ∷ b) e lt = absurd (omega arith)

  -- The block is filled up, and read.
  full_round :
      length (block ++ take (min (64 - length block) (length input)) input) ≡ 64
      → Absorbed state (block ++ input) (
          update_loop fuel
            (transform state (block ++ take (min (64 - length block) (length input)) input))
            []
            (drop (min (64 - length block) (length input)) input))
  full_round e =
      let k = min (64 - length block) (length input) in
      let filled = block ++ take k input in
      let rest = drop k input in
      let parts : filled ++ rest ≡ block ++ input =
        append_assoc block (take k input) rest ∙ ap (λ x. block ++ x) (take-append-drop k input) in
      let sizes = length-append block (take k input) in
      let took = length-take k input in
      subst (λ m. Absorbed state m (update_loop fuel (transform state filled) [] rest)) parts
        (block_first state (filled ++ rest) _ (omega (arith, length-append filled rest)) (
          subst
            (λ x.
              Absorbed (transform state x) (drop 64 (filled ++ rest))
                (update_loop fuel (transform state filled) [] rest))
            (sym (whole_take filled rest e))
            (subst
              (λ x.
                Absorbed (transform state filled) x
                  (update_loop fuel (transform state filled) [] rest))
              (sym (whole_drop filled rest e))
              (ih (transform state filled) [] rest (omega (arith, length-drop k input, sizes, took))
                (omega arith)))))
    where
      whole_take : (a b : Bytes) → length a ≡ 64 → take 64 (a ++ b) ≡ a
      whole_take a b e = take-append 64 a b (omega arith) ∙ take_all 64 a (omega arith)

      whole_drop : (a b : Bytes) → length a ≡ 64 → drop 64 (a ++ b) ≡ b
      whole_drop a b e =
          drop-append 64 a b (omega arith) ∙ ap (λ x. x ++ b) (drop_all 64 a (omega arith))

  -- The input ends within the block.
  short_round :
      length (block ++ take (min (64 - length block) (length input)) input) ≢ 64
      → 0 < length input
      → Absorbed state (block ++ input) (
          update_loop fuel state
            (block ++ take (min (64 - length block) (length input)) input)
            (drop (min (64 - length block) (length input)) input))
  short_round ne some_left =
      let k = min (64 - length block) (length input) in
      let filled = block ++ take k input in
      let rest = drop k input in
      let parts : filled ++ rest ≡ block ++ input =
        append_assoc block (take k input) rest ∙ ap (λ x. block ++ x) (take-append-drop k input) in
      let sizes = length-append block (take k input) in
      let took = length-take k input in
      let below : length filled < 64 = not_full (length filled) ne (omega arith) in
      subst (λ m. Absorbed state m (update_loop fuel state filled rest)) parts
        (ih state filled rest (omega (arith, length-drop k input, sizes, took)) below)
    where
      not_full : (n : ℕ) → n ≢ 64 → n ≤ 64 → n < 64
      not_full n ne le = ground arith

-- With a block that is not full and fuel for the input, `update_loop` absorbs the block and the
-- input after it.
pub update_loop-Absorbed :
    (fuel : ℕ) (state : List ℕ) (block input : Bytes)
    → length input ≤ fuel
    → length block < 64
    → Absorbed state (block ++ input) (update_loop fuel state block input)
unfolding update_loop
update_loop-Absorbed zero state block [] h room =
    subst (λ m. Absorbed state m (state, block)) (sym (append-nil block))
      (short_message state block room)
update_loop-Absorbed zero state block (x ∷ input) h room = absurd (omega arith)
update_loop-Absorbed (suc fuel) state block input h room =
    let ih = λ (s : List ℕ) (b i : Bytes). update_loop-Absorbed fuel s b i in
    elim (Bool-cases (length input == 0)) [
      | inl e ↦ simp e (
          subst (λ m. Absorbed state m (state, block)) (no_input block input e)
            (short_message state block room))
      | inr ne ↦ elim (Bool-cases (length block == 0 && leb 64 (length input))) [
        | inl d ↦
            simp (ne, d)
              (direct_round state block input fuel room ih h (ground arith) (ground arith))
        | inr nd ↦
            elim (Bool-cases
              (length (block ++ take (min (64 - length block) (length input)) input) == 64)) [
                | inl f ↦
                    simp (ne, nd, f) (full_round state block input fuel room ih h (ground arith))
                | inr nf ↦
                    simp (ne, nd, nf)
                      (short_round state block input fuel room ih h (λ e. ground arith)
                        (ground arith))
              ]
      ]
    ]
  where
    no_input : (b i : Bytes) → (length i == 0) ≡ true → b ≡ b ++ i
    no_input b [] e = sym (append-nil b)
    no_input b (x ∷ i) e = absurd (ground arith)
