-- ===== src/Sha256/Final.antt =====
-- src/sha256.c: what `sha256_final` adds to the block, and the hash that it gives.
use ps5_localsend.Base.{
  ℕ, zero, suc, ◌+◌, ◌-◌, ◌*◌, ◌/◌, ◌%◌, ◌^◌, ◌<◌, ◌≡◌, refl, sym, ap, subst, ◌∙◌, inl, inr, true,
  false, List, [], ◌∷◌, ◌++◌, append_assoc, arith, ltb, Bool-cases, Bytes, length, drop, replicate,
  length-append, length-drop, take_all, drop_all, length-replicate, concat,
}
use ps5_localsend.Sha256.Blocks.{short_message, block_first, Absorbed}
use ps5_localsend.Sha256.Compress.{initial, transform}
use ps5_localsend.Sha256.Context.{
  sha256_init, big_endian_u64, digest_of, last_block, sha256_final, Context,
}
use ps5_localsend.Sha256.Padding.{
  Holds, padding, hash_of, updates, absorb_more, sha256_init-Holds, block_short, updates-Holds,
}

-- One whole block.
one_block :
    (state : List ℕ) (block : Bytes)
    → length block ≡ 64
    → Absorbed state block (transform state block, [])
one_block state block e =
    let whole = take_all 64 block (omega arith) in
    let gone = drop_all 64 block (omega arith) in
    block_first state block (transform state block, []) (omega arith)
      (subst (λ x. Absorbed (transform state x) (drop 64 block) (transform state block, []))
        (sym whole)
        (subst (λ x. Absorbed (transform state block) x (transform state block, [])) (sym gone)
          (short_message (transform state block) [] (omega arith))))

replicate_sum : (n k v : ℕ) → replicate n v ++ replicate k v ≡ replicate (n + k) v
replicate_sum zero k v = ap (λ i. replicate i v) (omega arith)
replicate_sum (suc n) k v =
    ap (λ x. v ∷ x) (replicate_sum n k v)
    ∙ ap (λ i. replicate i v) {x = suc (n + k)} {y = suc n + k} (omega arith)

-- The padding completes one block, or two.
pad_one :
    (state : List ℕ) (b bits : Bytes) (z : ℕ)
    → length bits ≡ 8
    → length b + 1 + z ≡ 56
    → Absorbed state (b ++ (0x80 ∷ (replicate z 0 ++ bits))) (
      transform state
          ((b ++ (0x80 ∷ [])) ++ (replicate (56 - length (b ++ (0x80 ∷ []))) 0 ++ bits)),
      [],
    )
pad_one state b bits z e h =
    let ended = length-append b (0x80 ∷ []) in
    let same : z ≡ 56 - length (b ++ (0x80 ∷ [])) = omega (arith, ended) in
    let parts : (b ++ (0x80 ∷ [])) ++ (replicate (56 - length (b ++ (0x80 ∷ []))) 0 ++ bits)
        ≡ b ++ (0x80 ∷ (replicate z 0 ++ bits)) =
      append_assoc b (0x80 ∷ []) _ ∙ ap (λ i. b ++ (0x80 ∷ (replicate i 0 ++ bits))) (sym same) in
    subst
      (λ m. Absorbed state m (
        transform state
            ((b ++ (0x80 ∷ [])) ++ (replicate (56 - length (b ++ (0x80 ∷ []))) 0 ++ bits)),
        [],
      ))
      parts
      (one_block state _ (
        omega (
          arith,
          ap (λ (x : Bytes). length x) parts,
          length-append b (0x80 ∷ (replicate z 0 ++ bits)),
          length-append (replicate z 0) bits,
          length-replicate {A = ℕ} z 0,
        )))

pad_two :
    (state : List ℕ) (b bits : Bytes) (z : ℕ)
    → length bits ≡ 8
    → length b + 1 + z ≡ 120
    → length b < 64
    → let first = (b ++ (0x80 ∷ [])) ++ replicate (64 - length (b ++ (0x80 ∷ []))) 0 in
      Absorbed state
        (b ++ (0x80 ∷ (replicate z 0 ++ bits)))
        (transform (transform state first) ([] ++ (replicate (56 - 0) 0 ++ bits)), [])
pad_two state b bits z e h lt =
    let ended = length-append b (0x80 ∷ []) in
    let k = 64 - length (b ++ (0x80 ∷ [])) in
    let first = (b ++ (0x80 ∷ [])) ++ replicate k 0 in
    let second = replicate 56 0 ++ bits in
    let last : List ℕ × Bytes = (transform (transform state first) second, []) in
    let parts : first ++ second ≡ b ++ (0x80 ∷ (replicate z 0 ++ bits)) =
      append_assoc (b ++ (0x80 ∷ [])) (replicate k 0) second
      ∙ append_assoc b (0x80 ∷ []) (replicate k 0 ++ second)
      ∙ ap (λ x. b ++ (0x80 ∷ x))
          (sym (append_assoc (replicate k 0) (replicate 56 0) bits)
            ∙ ap (λ x. x ++ bits)
                (replicate_sum k 56 0 ∙ ap (λ i. replicate i 0) (omega (arith, ended)))) in
    subst (λ m. Absorbed state m last) parts
      (absorb_more state first second (transform state first, []) last
        (one_block state first (
          omega (
            arith,
            ended,
            length-append (b ++ (0x80 ∷ [])) (replicate k 0),
            length-replicate {A = ℕ} k 0,
          )))
        (one_block (transform state first) second
          (omega (arith, e, length-append (replicate 56 0) bits, length-replicate {A = ℕ} 56 0))))

abbrev pub ended : Context → Bytes
ended context = context.block ++ (0x80 ∷ [])

pub final_one :
    (context : Context)
    → ltb 56 (length (ended context)) ≡ false
    → sha256_final context
      ≡ digest_of (
          transform context.state (
            ended context
            ++ (replicate (56 - length (ended context)) 0 ++ big_endian_u64 context.bit_count)))
unfolding sha256_final last_block
final_one context e = simp e refl

pub final_two :
    (context : Context)
    → ltb 56 (length (ended context)) ≡ true
    → sha256_final context
      ≡ digest_of (
          transform
            (transform context.state (ended context ++ replicate (64 - length (ended context)) 0))
            ([] ++ (replicate (56 - 0) 0 ++ big_endian_u64 context.bit_count)))
unfolding sha256_final last_block
final_two context e = simp e refl

length-big_endian_u64 : (n : ℕ) → length (big_endian_u64 n) ≡ 8
unfolding big_endian_u64
length-big_endian_u64 n = refl

-- The padding that `sha256_final` writes after the block is that of the message.
final_state :
    (context : Context) (m : Bytes)
    → Holds context m
    → (s : List ℕ) × (sha256_final context ≡ digest_of s)
      × Absorbed context.state (context.block ++ padding (length m)) (s, [])
unfolding padding
final_state context m h =
    let b = context.block in
    let lt = block_short context m h in
    let grown = length-append b (0x80 ∷ []) in
    let kept = ap (λ (x : Bytes). length x) h.absorbed.block_is in
    let left : length m % 64 ≡ length b = omega (arith, kept, length-drop (length m / 64 * 64) m) in
    let z = (119 - length m % 64) % 64 in
    let bits = big_endian_u64 (length m * 8 % 2 ^ 64) in
    let size = length-big_endian_u64 (length m * 8 % 2 ^ 64) in
    let same = ap big_endian_u64 h.counted in
    elim (Bool-cases (ltb 56 (length (ended context)))) [
      | inl two ↦ (
        _,
        final_two context two
            ∙ ap
                (λ x. digest_of (
                  transform
                    (transform context.state
                      (ended context ++ replicate (64 - length (ended context)) 0))
                    ([] ++ (replicate (56 - 0) 0 ++ x))))
                same,
        pad_two context.state b bits z size (ground (arith, grown)) lt,
      )
      | inr one ↦ (
        _,
        final_one context one
            ∙ ap
                (λ x. digest_of (
                  transform context.state
                    (ended context ++ (replicate (56 - length (ended context)) 0 ++ x))))
                same,
        pad_one context.state b bits z size (ground (arith, grown)),
      )
    ]

-- Whatever parts a message is given in, `sha256_init`, an update with each part and `sha256_final`
-- give the hash of the whole message: the blocks of the message with its padding, compressed one
-- after another from the initial state. The count of bits is that of the message modulo 2^64.
pub sha256_final-updates :
    (parts : List Bytes) → sha256_final (updates sha256_init parts) ≡ hash_of (concat parts)
unfolding hash_of
sha256_final-updates parts =
    let m = concat parts in
    let h = updates-Holds sha256_init [] parts sha256_init-Holds in
    let context = updates sha256_init parts in
    let (s, final, rest) = final_state context m h in
    let a = absorb_more initial m (padding (length m)) _ _ h.absorbed rest in
    final ∙ ap digest_of a.state_is
