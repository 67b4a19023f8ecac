-- ===== src/Auth/Secrets.antt =====
-- src/auth.c: challenge ids, tokens and PINs from random bytes. `platform_secure_random` is outside
-- this file: each of its results is an argument, `none` where it fails.
use ps5_localsend.Auth.State.{token_hex_bytes}
use ps5_localsend.Base.{
  ℕ, ◌+◌, ◌-◌, ◌/◌, ◌%◌, Option, none, some, List, [], ◌∷◌, ltb, if◌then◌else◌, Bytes, codes,
  get_or,
}

-- `digits[d]`
unfoldable pub hex_digit : ℕ → ℕ
hex_digit d = get_or (codes "0123456789abcdef") d 0

unfoldable pub bytes_to_hex : Bytes → Bytes
unfolding hex_digit
bytes_to_hex [] = []
bytes_to_hex (b ∷ bs) = hex_digit (b / 16) ∷ hex_digit (b % 16) ∷ bytes_to_hex bs

-- `generate_hex(output, random_bytes)`
unfoldable pub generate_hex : ℕ → Option Bytes → Option Bytes
generate_hex random_bytes none = none
generate_hex random_bytes (some bytes) =
    if ltb (token_hex_bytes / 2) random_bytes then none else some (bytes_to_hex bytes)

abbrev pub pin_limit : ℕ
pin_limit = 4294967295 - 4294967295 % 1000000

abbrev pub pin_text : ℕ → Bytes
pin_text value =
    (b'0' + value / 100000 % 10)
    ∷ (b'0' + value / 10000 % 10)
    ∷ (b'0' + value / 1000 % 10)
    ∷ (b'0' + value / 100 % 10)
    ∷ (b'0' + value / 10 % 10)
    ∷ (b'0' + value % 10)
    ∷ []

pub data PinDraw : Type 0 where
  drawn : Bytes → PinDraw
  failed : PinDraw
  drawing : PinDraw

-- `generate_pin` on the words that the random source gives in turn; `drawing` if all of them are
-- rejected and the loop goes on.
unfoldable pub generate_pin : List (Option ℕ) → PinDraw
generate_pin [] = drawing
generate_pin (none ∷ draws) = failed
generate_pin (some value ∷ draws) =
    let again = generate_pin draws in
    if ltb value pin_limit then drawn (pin_text (value % 1000000)) else again
