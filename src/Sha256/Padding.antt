-- ===== src/Sha256/Padding.antt =====
-- src/sha256.c: the hash of a whole message, and what a context holds of it.
use ps5_localsend.Base.{
  ℕ, zero, suc, ◌+◌, ◌-◌, ◌*◌, ◌/◌, ◌%◌, ◌^◌, ◌≤◌, ◌<◌, ◌≡◌, refl, sym, ap, ap₂, subst, ◌∙◌, List,
  [], ◌∷◌, ◌++◌, append-nil, append_assoc, arith, Bytes, length, take, drop, replicate,
  length-append, length-drop, drop-append, take-append, concat,
}
use ps5_localsend.Sha256.Blocks.{compress, short_message, drop-drop, update_loop-Absorbed, Absorbed}
use ps5_localsend.Sha256.Compress.{initial, transform}
use ps5_localsend.Sha256.Context.{sha256_init, sha256_update, big_endian_u64, digest_of, Context}

-- The padding of a message of `n` bytes: a bit, zeros up to 56 bytes of a block, and the length.
unfoldable pub padding : ℕ → Bytes
padding n = 0x80 ∷ (replicate ((119 - n % 64) % 64) 0 ++ big_endian_u64 (n * 8 % 2 ^ 64))

-- The hash of a whole message, block by block over the padded message.
unfoldable pub hash_of : Bytes → Bytes
hash_of message =
    let padded = message ++ padding (length message) in
    digest_of (compress (length padded / 64) initial padded)

-- Updates with the parts of a message, one after another.
unfoldable pub updates : Context → List Bytes → Context
updates context [] = context
updates context (part ∷ parts) = updates (sha256_update context part) parts

compress-append :
    (n : ℕ) (state : List ℕ) (m d : Bytes)
    → n * 64 ≤ length m
    → compress n state (m ++ d) ≡ compress n state m
unfolding compress
compress-append zero state m d le = refl
compress-append (suc n) state m d le =
    ap₂ (λ x y. compress n (transform state x) y) (take-append 64 m d (omega arith))
      (drop-append 64 m d (omega arith))
    ∙ compress-append n (transform state (take 64 m)) (drop 64 m) d
        (omega (arith, length-drop 64 m))

compress_sum :
    (n k : ℕ) (state : List ℕ) (m : Bytes)
    → compress (n + k) state m ≡ compress k (compress n state m) (drop (n * 64) m)
unfolding compress
compress_sum zero k state m =
    ap (λ i. compress i state m) {x = 0 + k} {y = k} (omega arith)
    ∙ ap (λ i. compress k state (drop i m)) {x = 0} {y = 0 * 64} (omega arith)
compress_sum (suc n) k state m =
    ap (λ i. compress i state m) {x = suc n + k} {y = suc (n + k)} (omega arith)
    ∙ compress_sum n k (transform state (take 64 m)) (drop 64 m)
    ∙ ap (compress k (compress n (transform state (take 64 m)) (drop 64 m)))
        (drop-drop (n * 64) 64 m ∙ ap (λ i. drop i m) (omega arith))

-- What was absorbed stays so when more is absorbed after it.
pub absorb_more :
    (state : List ℕ) (m d : Bytes) (r r' : List ℕ × Bytes)
    → Absorbed state m r
    → Absorbed r.0 (r.1 ++ d) r'
    → Absorbed state (m ++ d) r'
absorb_more state m d r r' a a' =
    let n = length m / 64 in
    let rest : drop (n * 64) (m ++ d) ≡ r.1 ++ d =
      drop-append (n * 64) m d (omega arith) ∙ ap (λ x. x ++ d) (sym a.block_is) in
    let k = length (r.1 ++ d) / 64 in
    let tail = ap (λ (x : Bytes). length x) rest in
    let count : n + k ≡ length (m ++ d) / 64 =
      omega (arith, tail, length-drop (n * 64) (m ++ d), length-append m d) in
    let front : compress n state (m ++ d) ≡ r.0 =
      compress-append n state m d (omega arith) ∙ sym a.state_is in
    record {
      state_is =
          a'.state_is
          ∙ sym (ap₂ (compress k) front rest)
          ∙ sym (compress_sum n k state (m ++ d))
          ∙ ap (λ i. compress i state (m ++ d)) count;
      block_is =
          a'.block_is
          ∙ ap (drop (k * 64)) (sym rest)
          ∙ drop-drop (k * 64) (n * 64) (m ++ d)
          ∙ ap (λ i. drop i (m ++ d)) (omega (arith, count));
    }

-- The context after the bytes of `message`.
pub record Holds (context : Context) (message : Bytes) : Type 0 where
  pub absorbed : Absorbed initial message (context.state, context.block)
  pub counted : context.bit_count ≡ length message * 8 % 2 ^ 64

pub sha256_init-Holds : Holds sha256_init []
unfolding sha256_init
sha256_init-Holds = record { absorbed = short_message initial [] (omega arith); counted = refl }

pub block_short : (context : Context) (m : Bytes) → Holds context m → length context.block < 64
block_short context m h =
    omega
      (arith, ap (λ (x : Bytes). length x) h.absorbed.block_is, length-drop (length m / 64 * 64) m)

sha256_update-Holds :
    (context : Context) (m d : Bytes) → Holds context m → Holds (sha256_update context d) (m ++ d)
unfolding sha256_update
sha256_update-Holds context m d h = record {
  absorbed = absorb_more initial m d _ _ h.absorbed (
      update_loop-Absorbed (length d) context.state context.block d (omega arith)
        (block_short context m h));
  counted = omega (arith, h.counted, length-append m d);
}

pub updates-Holds :
    (context : Context) (m : Bytes) (parts : List Bytes)
    → Holds context m
    → Holds (updates context parts) (m ++ concat parts)
unfolding updates
updates-Holds context m [] h = subst (Holds context) (sym (append-nil m)) h
updates-Holds context m (d ∷ parts) h =
    subst (Holds (updates (sha256_update context d) parts)) (append_assoc m d (concat parts))
      (updates-Holds (sha256_update context d) (m ++ d) parts (sha256_update-Holds context m d h))
