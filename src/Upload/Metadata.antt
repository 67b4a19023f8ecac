-- ===== src/Upload/Metadata.antt =====
-- src/upload.c: `parse_metadata`. The cursor is the rest of the body.
use ps5_localsend.Base.{
  ℕ, zero, suc, ◌+◌, ◌-◌, ◌*◌, ◌/◌, ◌^◌, Bool, true, false, not, ◌&&◌, ◌||◌, Option, none, some, [],
  ◌∷◌, ◌++◌, ltb, leb, ◌==◌, if◌then◌else◌, Bytes, codes, equal, starts_with, is_digit, skip_space,
  ◌>>=◌, expect, length, get_or, take, drop, all,
}
use ps5_localsend.SafePath.Names.{safe_path_validate_filename}
use ps5_localsend.Sha256.Shape.{is_lower_hex}
use ps5_localsend.Upload.Ops.{Metadata}

abbrev pub hash_bytes : ℕ
hash_bytes = 64

-- The loop of `json_string`; `escaped` holds after a backslash.
unfoldable pub json_loop : ℕ → Bool → Bytes → Bytes → Option (Bytes × Bytes)
json_loop size escaped output [] = none
json_loop size true output (c ∷ cs) =
    let rest = json_loop size false (output ++ (c ∷ [])) cs in
    if not (c == b'"' || c == b'\\' || c == b'/')
    then none
    else if ltb c 0x20 || leb size (length output + 1)
    then none
    else rest
json_loop size false output (c ∷ cs) =
    let after_escape = json_loop size true output cs in
    let rest = json_loop size false (output ++ (c ∷ [])) cs in
    if c == b'"'
    then some (output, cs)
    else if c == b'\\'
    then after_escape
    else if ltb c 0x20 || leb size (length output + 1)
    then none
    else rest

-- `json_string`: the string, and what follows its closing quote.
unfoldable pub json_string : ℕ → Bytes → Option (Bytes × Bytes)
json_string size s = expect b'"' s >>= json_loop size false []

-- The loop of `json_u64`; `count` is how many digits were read.
unfoldable pub u64_loop : ℕ → ℕ → Bytes → Option (ℕ × ℕ × Bytes)
u64_loop number count [] = some (number, count, [])
u64_loop number count (c ∷ cs) =
    let digit = c - b'0' in
    let rest = u64_loop (number * 10 + digit) (count + 1) cs in
    if not (is_digit c)
    then some (number, count, c ∷ cs)
    else if ltb ((2 ^ 64 - 1 - digit) / 10) number
    then none
    else rest

-- The tests after the loop, for a number that begins `text`.
unfoldable pub u64_of : Bytes → ℕ × ℕ × Bytes → Option (ℕ × Bytes)
u64_of text (number, count, rest) =
    if count == 0
    then none
    else if ltb 1 count && get_or text 0 0 == b'0'
    then none
    else some (number, rest)

unfoldable pub json_u64 : Bytes → Option (ℕ × Bytes)
json_u64 s = u64_loop 0 0 s >>= u64_of s

-- The caller's buffers, and the bits of `seen`.
pub record Fields : Type 0 where
  pub name : Bytes
  pub size : ℕ
  pub type : Bytes
  pub hash : Bytes
  pub seen_name : Bool
  pub seen_size : Bool
  pub seen_type : Bool
  pub seen_hash : Bool

-- The tests of an announced hash.
unfoldable pub hash_is_valid : Bytes → Bool
hash_is_valid hash = length hash == hash_bytes && all is_lower_hex hash

-- What the value of a key changes, and the rest after it.
unfoldable pub store_name : Fields → Bytes × Bytes → Option (Fields × Bytes)
store_name f (v, rest) = some (record f { name = v; seen_name = true }, rest)

unfoldable pub store_size : Fields → ℕ × Bytes → Option (Fields × Bytes)
store_size f (n, rest) = some (record f { size = n; seen_size = true }, rest)

unfoldable pub store_type : Fields → Bytes × Bytes → Option (Fields × Bytes)
store_type f (v, rest) = some (record f { type = v; seen_type = true }, rest)

unfoldable pub store_hash : Fields → Bytes × Bytes → Option (Fields × Bytes)
store_hash f (v, rest) =
    if hash_is_valid v then some (record f { hash = v; seen_hash = true }, rest) else none

unfoldable pub read_value : Bytes → Bytes → Fields → Option (Fields × Bytes)
read_value key s f =
    if equal key (codes "name") && not f.seen_name
    then json_string 256 s >>= store_name f
    else if equal key (codes "size") && not f.seen_size
    then json_u64 s >>= store_size f
    else if equal key (codes "type") && not f.seen_type
    then json_string 128 s >>= store_type f
    else if equal key (codes "sha256") && not f.seen_hash
    then json_string (hash_bytes + 1) s >>= store_hash f
    else none

-- One round of the loop: the object is closed, or goes on after a comma.
pub data Entry : Type 0 where
  last_entry : Bytes → Fields → Entry
  next_entry : Bytes → Fields → Entry

unfoldable pub after_separator : Bytes → Fields → Option Entry
after_separator [] f = none
after_separator (c ∷ cs) f = if c == b'}' then none else some (next_entry (c ∷ cs) f)

unfoldable pub after_entry : Bytes → Fields → Option Entry
unfolding after_separator
after_entry [] f = none
after_entry (c ∷ cs) f =
    if c == b','
    then after_separator (skip_space cs) f
    else if c == b'}'
    then some (last_entry cs f)
    else none

unfoldable pub read_entry : Bytes → Fields → Option Entry
read_entry s f = json_string 16 s >>= λ (key, s₁). expect b':' (skip_space s₁) >>= λ s₂.
    read_value key (skip_space s₂) f >>= λ (f', s₃). after_entry (skip_space s₃) f'

unfoldable pub read_or_close : Bytes → Fields → Option Entry
read_or_close [] f = read_entry [] f
read_or_close (c ∷ cs) f = if c == b'}' then some (last_entry cs f) else read_entry (c ∷ cs) f

pub data Entries : Type 0 where
  entries_unfinished : Entries
  entries_ended : Option (Bytes × Fields) → Entries

-- The `for` loop, with fuel.
unfoldable pub read_entries : ℕ → Bytes → Fields → Entries
read_entries zero s f = entries_unfinished
read_entries (suc fuel) s f = elim (read_or_close (skip_space s) f) [
  | none ↦ entries_ended none
  | some (last_entry rest f') ↦ entries_ended (some (rest, f'))
  | some (next_entry rest f') ↦ read_entries fuel rest f'
]

-- `managed_part_name`: `.ps5localsend-`, 32 digits of the upload id, `.part`. What is read lies
-- within the name, whose length was tested.
unfoldable pub managed_part_name : Bytes → Bool
managed_part_name name =
    length name == 51
    && starts_with name (codes ".ps5localsend-")
    && all is_lower_hex (take 32 (drop 14 name))
    && equal (drop 46 name) (codes ".part")

-- The conditions after the loop.
unfoldable pub metadata_of : Bytes → Fields → Option Metadata
metadata_of rest f =
    if length rest == 0
      && (f.seen_name && f.seen_size && f.seen_type)
      && safe_path_validate_filename f.name
      && not (managed_part_name f.name)
      && not (length f.type == 0)
    then some (record { name = f.name; size = f.size; hash = f.hash })
    else none

abbrev pub no_fields_yet : Fields
no_fields_yet = record {
  name = [];
  size = 0;
  type = [];
  hash = [];
  seen_name = false;
  seen_size = false;
  seen_type = false;
  seen_hash = false;
}

pub data Read : Type 0 where
  reading : Read
  read : Option Metadata → Read

unfoldable pub finish_entries : Entries → Read
finish_entries entries_unfinished = reading
finish_entries (entries_ended none) = read none
finish_entries (entries_ended (some (rest, f))) = read (metadata_of (skip_space rest) f)

unfoldable pub read_object : Option Bytes → Read
read_object none = read none
read_object (some s) = finish_entries (read_entries 5 s no_fields_yet)

-- `reading` if the fuel ran out.
unfoldable pub parse_metadata : Bytes → Read
parse_metadata json = read_object (expect b'{' (skip_space json))
