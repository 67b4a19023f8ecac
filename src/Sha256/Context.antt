-- ===== src/Sha256/Context.antt =====
-- src/sha256.c: the context and the functions that use it.
use ps5_localsend.Auth.Secrets.{bytes_to_hex}
use ps5_localsend.Base.{
  ℕ, zero, suc, ◌+◌, ◌-◌, ◌*◌, ◌/◌, ◌%◌, ◌^◌, min, ◌&&◌, List, [], ◌∷◌, ◌++◌, ltb, leb, ◌==◌,
  if◌then◌else◌, Bytes, length, take, drop, replicate,
}
use ps5_localsend.Sha256.Compress.{initial, transform}

-- `block` holds the first `block_size` bytes of the C array; the others are written before they
-- are read.
pub record Context : Type 0 where
  pub state : List ℕ
  pub bit_count : ℕ
  pub block : Bytes

unfoldable pub sha256_init : Context
sha256_init = record { state = initial; bit_count = 0; block = [] }

-- The loop of `sha256_update`, with fuel; no round starts without fuel.
unfoldable pub update_loop : ℕ → List ℕ → Bytes → Bytes → List ℕ × Bytes
update_loop zero state block input = (state, block)
update_loop (suc fuel) state block input =
    let size = length input in
    let taken = min (64 - length block) size in
    let filled = block ++ take taken input in
    let direct = update_loop fuel (transform state (take 64 input)) block (drop 64 input) in
    let full = update_loop fuel (transform state filled) [] (drop taken input) in
    let short = update_loop fuel state filled (drop taken input) in
    if size == 0
    then (state, block)
    else if length block == 0 && leb 64 size
    then direct
    else if length filled == 64
    then full
    else short

unfoldable pub sha256_update : Context → Bytes → Context
sha256_update context input =
    let (state, block) = update_loop (length input) context.state context.block input in
    record {
      state = state;
      bit_count = (context.bit_count + length input * 8 % 2 ^ 64) % 2 ^ 64;
      block = block;
    }

-- `bits`, the most significant byte first
unfoldable pub big_endian_u64 : ℕ → Bytes
big_endian_u64 bits =
    bits / 2 ^ 56 % 256
    ∷ bits / 2 ^ 48 % 256
    ∷ bits / 2 ^ 40 % 256
    ∷ bits / 2 ^ 32 % 256
    ∷ bits / 2 ^ 24 % 256
    ∷ bits / 2 ^ 16 % 256
    ∷ bits / 2 ^ 8 % 256
    ∷ bits % 256
    ∷ []

unfoldable pub word_bytes : ℕ → Bytes
word_bytes word = word / 2 ^ 24 % 256 ∷ word / 2 ^ 16 % 256 ∷ word / 2 ^ 8 % 256 ∷ word % 256 ∷ []

unfoldable pub digest_of : List ℕ → Bytes
digest_of [] = []
digest_of (w ∷ ws) = word_bytes w ++ digest_of ws

-- The last block: zeros up to 56 bytes, then the length.
unfoldable pub last_block : List ℕ → Bytes → ℕ → List ℕ
last_block state block bits =
    transform state (block ++ (replicate (56 - length block) 0 ++ big_endian_u64 bits))

unfoldable pub sha256_final : Context → Bytes
sha256_final context =
    let block = context.block ++ (0x80 ∷ []) in
    if ltb 56 (length block)
    then digest_of (
        last_block (transform context.state (block ++ replicate (64 - length block) 0)) []
          context.bit_count)
    else digest_of (last_block context.state block context.bit_count)

-- `sha256_hex`
unfoldable pub sha256_hex : Bytes → Bytes
sha256_hex digest = bytes_to_hex digest
