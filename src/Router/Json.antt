-- ===== src/Router/Json.antt =====
-- src/router.c: the JSON that is read and written.
use ps5_localsend.Auth.Secrets.{hex_digit}
use ps5_localsend.Base.{
  ℕ, ◌+◌, ◌/◌, ◌%◌, not, ◌||◌, Option, none, some, [], ◌∷◌, ◌++◌, ltb, leb, ◌==◌, if◌then◌else◌,
  Bytes, codes, equal, ◌>>=◌, expect, length, all,
}
use ps5_localsend.Config.State.{storage_id_capacity, trim_start, is_id_byte}

-- Bytes in front of what the rest of the loop writes.
abbrev pub put : Bytes → Option Bytes → Option Bytes
put bytes none = none
put bytes (some s) = some (bytes ++ s)

-- The loop of `json_escape_filename`; `used` bytes are in the output of `size`.
unfoldable pub escape_filename_loop : ℕ → ℕ → Bytes → Option Bytes
escape_filename_loop size used [] = some []
escape_filename_loop size used (c ∷ cs) =
    let after_quote = escape_filename_loop size (used + 1 + 1) cs in
    let after_plain = escape_filename_loop size (used + 1) cs in
    if c == b'"' || c == b'\\'
    then (if leb size (used + 1)
        then none
        else if leb size (used + 1 + 1)
        then none
        else put (b'\\' ∷ c ∷ []) after_quote)
    else if leb size (used + 1)
    then none
    else put (c ∷ []) after_plain

unfoldable pub json_escape_filename : Bytes → ℕ → Option Bytes
json_escape_filename input size = if size == 0 then none else escape_filename_loop size 0 input

abbrev pub escaped_control : ℕ → Bytes
escaped_control c = b'\\' ∷ b'u' ∷ b'0' ∷ b'0' ∷ hex_digit (c / 16) ∷ hex_digit (c % 16) ∷ []

-- The loop of `json_escape_string`.
unfoldable pub escape_loop : ℕ → ℕ → Bytes → Option Bytes
escape_loop size used [] = some []
escape_loop size used (c ∷ cs) =
    let after_quote = escape_loop size (used + 2) cs in
    let after_control = escape_loop size (used + 6) cs in
    let after_plain = escape_loop size (used + 1) cs in
    if c == b'"' || c == b'\\'
    then (if leb size (used + 2) then none else put (b'\\' ∷ c ∷ []) after_quote)
    else if ltb c 0x20
    then (if leb size (used + 6) then none else put (escaped_control c) after_control)
    else if leb size (used + 1)
    then none
    else put (c ∷ []) after_plain

unfoldable pub json_escape_string : Bytes → ℕ → Option Bytes
json_escape_string input size = if size == 0 then none else escape_loop size 0 input

-- `skip_json_whitespace`
abbrev pub skip_json_whitespace : Bytes → Bytes
skip_json_whitespace s = trim_start s

-- The loop of `parse_json_string_token`.
unfoldable pub token_loop : ℕ → Bytes → Bytes → Option (Bytes × Bytes)
token_loop size output [] = none
token_loop size output (c ∷ cs) =
    let rest = token_loop size (output ++ (c ∷ [])) cs in
    if c == b'"'
    then some (output, cs)
    else if c == b'\\' || ltb c 0x20 || leb size (length output + 1)
    then none
    else rest

unfoldable pub parse_json_string_token : ℕ → Bytes → Option (Bytes × Bytes)
parse_json_string_token size s = expect b'"' s >>= token_loop size []

-- The tests after the closing brace.
unfoldable pub target_of : Bytes → Bytes → Option Bytes
target_of target rest =
    if not (length (skip_json_whitespace rest) == 0) || length target == 0
    then none
    else if all is_id_byte target
    then some target
    else none

unfoldable pub parse_target_value : Bytes × Bytes → Option Bytes
parse_target_value (key, s) =
    if not (equal key (codes "target"))
    then none
    else expect b':' (skip_json_whitespace s) >>= λ s₁.
        parse_json_string_token storage_id_capacity (skip_json_whitespace s₁) >>= λ (target, s₂).
        expect b'}' (skip_json_whitespace s₂) >>= λ s₃. target_of target s₃

unfoldable pub parse_storage_target : Bytes → Option Bytes
parse_storage_target body = expect b'{' (skip_json_whitespace body) >>= λ s.
    parse_json_string_token 16 (skip_json_whitespace s) >>= parse_target_value
