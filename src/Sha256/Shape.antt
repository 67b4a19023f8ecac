-- ===== src/Sha256/Shape.antt =====
-- src/sha256.c: the digest as text.
use ps5_localsend.Auth.Secrets.{hex_digit, bytes_to_hex}
use ps5_localsend.Base.{
  ℕ, zero, suc, ◌*◌, ◌/◌, ◌%◌, ◌<◌, ◌≡◌, refl, sym, subst, inl, inr, Bool, true, ◌&&◌, ◌||◌, List,
  [], ◌∷◌, arith, ltb, leb, Bool-cases, Bytes, codes, is_digit, length, get_or, all, All,
}
use ps5_localsend.Sha256.Compress.{transform}
use ps5_localsend.Sha256.Context.{word_bytes, digest_of, sha256_final, sha256_hex, Context}
use ps5_localsend.Sha256.Final.{ended, final_one, final_two}

-- What `parse_metadata` accepts in an announced hash.
abbrev pub is_lower_hex : ℕ → Bool
is_lower_hex c = is_digit c || (leb b'a' c && leb c b'f')

hex_digits_ok : All (λ c. is_lower_hex c ≡ true) (codes "0123456789abcdef")
hex_digits_ok = (
  refl,
  (
    refl,
    (
      refl,
      (
        refl,
        (
          refl,
          (
            refl,
            (refl, (refl, (refl, (refl, (refl, (refl, (refl, (refl, (refl, (refl, tt)))))))))),
          ),
        ),
      ),
    ),
  ),
)

get_or-All :
    (s : Bytes) (i : ℕ)
    → All (λ c. is_lower_hex c ≡ true) s
    → i < length s
    → is_lower_hex (get_or s i 0) ≡ true
get_or-All [] i h lt = absurd (omega arith)
get_or-All (c ∷ s) zero h lt = h.0
get_or-All (c ∷ s) (suc i) h lt = get_or-All s i h.1 (omega arith)

hex_digit-ok : (d : ℕ) → d < 16 → is_lower_hex (hex_digit d) ≡ true
unfolding hex_digit
hex_digit-ok d lt = get_or-All (codes "0123456789abcdef") d hex_digits_ok lt

abbrev AreBytes : Bytes → Type 0
AreBytes = All (λ b. b < 256)

bytes_to_hex-ok :
    (bs : Bytes)
    → AreBytes bs
    → (length (bytes_to_hex bs) ≡ 2 * length bs) × (all is_lower_hex (bytes_to_hex bs) ≡ true)
unfolding bytes_to_hex all
bytes_to_hex-ok [] h = (refl, refl)
bytes_to_hex-ok (b ∷ bs) h =
    let high = hex_digit-ok (b / 16) (omega (arith, h.0)) in
    let low = hex_digit-ok (b % 16) (omega arith) in
    let (size, rest) = bytes_to_hex-ok bs h.1 in (omega (arith, size), ground arith)

digest_of-ok : (ws : List ℕ) → (length (digest_of ws) ≡ 4 * length ws) × AreBytes (digest_of ws)
unfolding digest_of word_bytes
digest_of-ok [] = (refl, tt)
digest_of-ok (w ∷ ws) =
    let (size, rest) = digest_of-ok ws in
    (omega (arith, size), (omega arith, (omega arith, (omega arith, (omega arith, rest)))))

length-transform : (state : List ℕ) (block : Bytes) → length (transform state block) ≡ 8
unfolding transform
length-transform state block = refl

final_words :
    (context : Context)
    → (s : List ℕ) × (b : Bytes) × (sha256_final context ≡ digest_of (transform s b))
final_words context = elim (Bool-cases (ltb 56 (length (ended context)))) [
  | inl two ↦ (_, _, final_two context two)
  | inr one ↦ (_, _, final_one context one)
]

-- From every context, the text that `sha256_final` and `sha256_hex` give has 64 characters, each
-- a decimal digit or a letter from a to f: the form that `parse_metadata` asks of an announced hash.
pub sha256_hex-final :
    (context : Context)
    → (length (sha256_hex (sha256_final context)) ≡ 64)
      × (all is_lower_hex (sha256_hex (sha256_final context)) ≡ true)
unfolding sha256_hex
sha256_hex-final context =
    let (s, b, e) = final_words context in
    let (size, small) = digest_of-ok (transform s b) in
    let words = length-transform s b in
    let (long, good) = bytes_to_hex-ok (digest_of (transform s b)) small in
    subst (λ d. (length (bytes_to_hex d) ≡ 64) × (all is_lower_hex (bytes_to_hex d) ≡ true)) (sym e)
      (omega (arith, long, size, words), good)
