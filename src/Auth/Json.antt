-- ===== src/Auth/Json.antt =====
-- src/auth.c: `auth_parse_verify_json`. The cursor is the rest of the body.
use ps5_localsend.Auth.State.{challenge_id_hex_bytes, pin_digits}
use ps5_localsend.Base.{
  ℕ, zero, suc, ◌+◌, Bool, true, false, not, ◌&&◌, ◌||◌, Option, none, some, [], ◌∷◌, ◌++◌, ltb,
  leb, ◌==◌, if◌then◌else◌, Bytes, codes, equal, is_digit, skip_space, ◌>>=◌, expect, length, all,
}

unfoldable pub literal_loop : ℕ → Bytes → Bytes → Option (Bytes × Bytes)
literal_loop size output [] = none
literal_loop size output (c ∷ cs) =
    let rest = literal_loop size (output ++ (c ∷ [])) cs in
    if c == b'"'
    then some (output, cs)
    else if ltb c 0x20 || c == b'\\' || leb size (length output + 1)
    then none
    else rest

-- `parse_literal_string`: the string, and what follows its closing quote.
unfoldable pub parse_literal_string : ℕ → Bytes → Option (Bytes × Bytes)
unfolding literal_loop
parse_literal_string size s = expect b'"' s >>= literal_loop size []

-- The caller's two buffers, and the bits of `seen`.
pub record VerifyFields : Type 0 where
  pub challenge_id : Bytes
  pub pin : Bytes
  pub seen_id : Bool
  pub seen_pin : Bool

unfoldable pub store_pair : Bytes → Bytes → VerifyFields → Option VerifyFields
store_pair key value f =
    if equal key (codes "challengeId") && not f.seen_id && length value == challenge_id_hex_bytes
    then some (record f { challenge_id = value; seen_id = true })
    else if equal key (codes "pin") && not f.seen_pin && length value == pin_digits
    then (if all is_digit value then some (record f { pin = value; seen_pin = true }) else none)
    else none

-- One round of the loop: the object is closed, or goes on after a comma.
pub data Item : Type 0 where
  closed : Bytes → VerifyFields → Item
  more : Bytes → VerifyFields → Item

unfoldable pub after_comma : Bytes → VerifyFields → Option Item
after_comma [] f = none
after_comma (c ∷ cs) f = if c == b'}' then none else some (more (c ∷ cs) f)

unfoldable pub after_value : Bytes → VerifyFields → Option Item
unfolding after_comma
after_value [] f = none
after_value (c ∷ cs) f =
    if c == b','
    then after_comma (skip_space cs) f
    else if c == b'}'
    then some (closed cs f)
    else none

unfoldable pub read_pair : Bytes → VerifyFields → Option Item
read_pair s f = do
  (key, s₁) ← parse_literal_string 16 s
  s₂ ← expect b':' (skip_space s₁)
  (value, s₃) ← parse_literal_string (challenge_id_hex_bytes + 1) (skip_space s₂)
  f' ← store_pair key value f
  after_value (skip_space s₃) f'

unfoldable pub read_item : Bytes → VerifyFields → Option Item
read_item [] f = read_pair [] f
read_item (c ∷ cs) f = if c == b'}' then some (closed cs f) else read_pair (c ∷ cs) f

pub data Loop : Type 0 where
  unfinished : Loop
  stopped : Option (Bytes × VerifyFields) → Loop

-- The `for` loop, with fuel.
unfoldable pub read_items : ℕ → Bytes → VerifyFields → Loop
read_items zero s f = unfinished
read_items (suc fuel) s f = elim (read_item (skip_space s) f) [
  | none ↦ stopped none
  | some (closed rest f') ↦ stopped (some (rest, f'))
  | some (more rest f') ↦ read_items fuel rest f'
]

abbrev pub no_fields : VerifyFields
no_fields = record { challenge_id = []; pin = []; seen_id = false; seen_pin = false }

-- `cursor == end && seen == 3U`
unfoldable pub all_read : Bytes → VerifyFields → Option (Bytes × Bytes)
all_read [] f = if f.seen_id && f.seen_pin then some (f.challenge_id, f.pin) else none
all_read (c ∷ cs) f = none

pub data Parsed : Type 0 where
  running : Parsed
  parsed : Option (Bytes × Bytes) → Parsed

unfoldable pub finish_parse : Loop → Parsed
finish_parse unfinished = running
finish_parse (stopped none) = parsed none
finish_parse (stopped (some (rest, f))) = parsed (all_read (skip_space rest) f)

unfoldable pub parse_object : Option Bytes → Parsed
unfolding finish_parse
parse_object none = parsed none
parse_object (some s) = finish_parse (read_items 3 s no_fields)

-- The id and the PIN of an accepted body; `running` if the fuel ran out.
unfoldable pub auth_parse_verify_json : Bytes → Parsed
unfolding parse_object
auth_parse_verify_json body = parse_object (expect b'{' (skip_space body))
