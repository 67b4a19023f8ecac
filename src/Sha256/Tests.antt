-- ===== src/Sha256/Tests.antt =====
-- src/sha256.c: the theorems at concrete inputs, and a known hash.
use ps5_localsend.Auth.Secrets.{hex_digit, bytes_to_hex}
use ps5_localsend.Base.{◌≡◌, refl, true, List, [], ◌∷◌, Bytes, codes, length, all}
use ps5_localsend.Sha256.Compress.{
  rotate_right, word_at, first_words, next_word, more_words, schedule, hash_round, hash_rounds,
  transform,
}
use ps5_localsend.Sha256.Context.{
  sha256_init, update_loop, sha256_update, big_endian_u64, word_bytes, digest_of, last_block,
  sha256_final, sha256_hex,
}
use ps5_localsend.Sha256.Final.{sha256_final-updates}
use ps5_localsend.Sha256.Padding.{hash_of, updates}
use ps5_localsend.Sha256.Shape.{is_lower_hex, sha256_hex-final}

abbrev abc : List Bytes
abc = codes "ab" ∷ codes "c" ∷ []

abc_test :
    sha256_hex (sha256_final (updates sha256_init abc))
    ≡ codes "ba7816bf8f01cfea414140de5dae2223b00361a396177a9cb410ff61f20015ad"
unfolding sha256_hex sha256_final updates sha256_init sha256_update update_loop last_block
    big_endian_u64 word_bytes digest_of transform hash_rounds hash_round schedule first_words
    more_words next_word word_at rotate_right bytes_to_hex hex_digit
abc_test = refl

sha256_final-updates_example : sha256_final (updates sha256_init abc) ≡ hash_of (codes "abc")
sha256_final-updates_example = sha256_final-updates abc

sha256_hex-final_example :
    (length (sha256_hex (sha256_final sha256_init)) ≡ 64)
    × (all is_lower_hex (sha256_hex (sha256_final sha256_init)) ≡ true)
sha256_hex-final_example = sha256_hex-final sha256_init
