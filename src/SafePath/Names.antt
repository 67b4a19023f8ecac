-- ===== src/SafePath/Names.antt =====
-- src/safe_path.c: which file names are accepted, and a free name for a requested one. A C string
-- has no zero byte; what reads past its end reads a zero.
use ps5_localsend.Base.{
  ℕ, zero, suc, ◌+◌, ◌-◌, ◌*◌, ◌/◌, ◌%◌, ◌^◌, min, bit_and, bit_or, Bool, true, false, not, ◌&&◌,
  ◌||◌, Option, none, some, [], ◌∷◌, ◌++◌, ltb, leb, ◌==◌, if◌then◌else◌, Bytes, codes, equal,
  ◌>>=◌, length, get_or, take, drop,
}
use ps5_localsend.Upload.Writer.{rounds}

abbrev pub name_bytes : ℕ
name_bytes = 255

abbrev pub full_bytes : ℕ
full_bytes = 1400

-- Where the loop of `valid_utf8` is: before a sequence, or within one of `sequence_bytes` bytes, of
-- which `remaining` are to come.
pub data Utf8 : Type 0 where
  between : Utf8
  within : (sequence_bytes remaining code : ℕ) → Utf8

unfoldable pub lead_byte : ℕ → Option Utf8
lead_byte c =
    if ltb c 0x80
    then some between
    else if bit_and c 0xe0 == 0xc0
    then (if ltb (bit_and c 0x1f) 2 then none else some (within 2 1 (bit_and c 0x1f)))
    else if bit_and c 0xf0 == 0xe0
    then some (within 3 2 (bit_and c 0x0f))
    else if bit_and c 0xf8 == 0xf0
    then (if ltb 4 (bit_and c 0x07) then none else some (within 4 3 (bit_and c 0x07)))
    else none

-- A sequence that is too long for its code, a surrogate, or a code past the last one.
unfoldable pub bad_code : ℕ → ℕ → Bool
bad_code sequence_bytes code =
    (sequence_bytes == 2 && ltb code 0x80)
    || (sequence_bytes == 3 && ltb code 0x800)
    || (sequence_bytes == 4 && ltb code 0x10000)
    || (leb 0xd800 code && leb code 0xdfff)
    || ltb 0x10ffff code

unfoldable pub next_byte : Utf8 → ℕ → Option Utf8
next_byte between c = lead_byte c
next_byte (within sequence_bytes remaining code) c =
    let code' = bit_or (code * 2 ^ 6) (bit_and c 0x3f) in
    if not (bit_and c 0xc0 == 0x80)
    then none
    else if not (remaining == 1)
    then some (within sequence_bytes (remaining - 1) code')
    else if bad_code sequence_bytes code'
    then none
    else some between

unfoldable pub utf8_end : Utf8 → Bytes → Option Utf8
utf8_end u [] = some u
utf8_end u (c ∷ cs) = next_byte u c >>= λ u'. utf8_end u' cs

-- The zero at the end is no continuation byte.
abbrev pub is_between : Option Utf8 → Bool
is_between none = false
is_between (some between) = true
is_between (some (within sequence_bytes remaining code)) = false

unfoldable pub valid_utf8 : Bytes → Bool
valid_utf8 text = is_between (utf8_end between text)

unfoldable pub is_forbidden : ℕ → Bool
is_forbidden c = ltb c 0x20 || c == 0x7f || c == b'/' || c == b'\\' || c == b'%'

unfoldable pub has_forbidden : Bytes → Bool
has_forbidden [] = false
has_forbidden (c ∷ cs) = is_forbidden c || has_forbidden cs

unfoldable pub safe_path_validate_filename : Bytes → Bool
safe_path_validate_filename name =
    if length name == 0
      || ltb name_bytes (length name)
      || equal name (codes ".")
      || equal name (codes "..")
      || not (valid_utf8 name)
    then false
    else not (has_forbidden name)

-- `safe_path_join` into a buffer of `output_size` bytes, with room for the zero.
unfoldable pub safe_path_join : Bytes → Bytes → ℕ → Option Bytes
safe_path_join directory name output_size =
    let path = directory ++ (b'/' ∷ name) in
    if not (safe_path_validate_filename name)
    then none
    else if ltb (length path) output_size
    then some path
    else none

-- `strrchr(name, '.')`, as an offset; `at` is the offset of the rest.
unfoldable pub last_dot : Bytes → ℕ → Option ℕ → Option ℕ
last_dot [] at found = found
last_dot (c ∷ cs) at found = last_dot cs (at + 1) (if c == b'.' then some at else found)

-- A dot at the start of the name begins no extension.
unfoldable pub stem_of : Option ℕ → ℕ → ℕ
stem_of none size = size
stem_of (some dot) size = if dot == 0 then size else dot

unfoldable pub stem_size : Bytes → ℕ
stem_size requested = stem_of (last_dot requested 0 none) (length requested)

-- `snprintf` of " (%u)" for a suffix up to 9999
abbrev pub decimal : ℕ → Bytes
decimal n =
    if ltb n 10
    then (b'0' + n) ∷ []
    else if ltb n 100
    then (b'0' + n / 10) ∷ (b'0' + n % 10) ∷ []
    else if ltb n 1000
    then (b'0' + n / 100) ∷ (b'0' + n / 10 % 10) ∷ (b'0' + n % 10) ∷ []
    else (b'0' + n / 1000) ∷ (b'0' + n / 100 % 10) ∷ (b'0' + n / 10 % 10) ∷ (b'0' + n % 10) ∷ []

unfoldable pub suffix_text : ℕ → Bytes
suffix_text suffix = codes " (" ++ (decimal suffix ++ codes ")")

-- The `while` loop that does not cut a character in two.
unfoldable pub back_off : Bytes → ℕ → ℕ → ℕ
back_off requested stem zero = zero
back_off requested stem (suc keep) =
    let less = back_off requested stem keep in
    if ltb (suc keep) stem && bit_and (get_or requested (suc keep) 0) 0xc0 == 0x80
    then less
    else suc keep

unfoldable pub kept_bytes : Bytes → ℕ → ℕ → ℕ
kept_bytes requested stem room = back_off requested stem (min room stem)

abbrev pub extension : Bytes → Bytes
extension requested = drop (stem_size requested) requested

unfoldable pub candidate : Bytes → ℕ → Bytes
candidate requested suffix =
    let text = suffix_text suffix in
    let room = name_bytes - length text - length (extension requested) in
    take (kept_bytes requested (stem_size requested) room) requested
    ++ (text ++ extension requested)

-- The path is free: `access(path, F_OK) != 0 && errno == ENOENT`.
abbrev pub is_free : (Bytes → Bool) → Option Bytes → Bool
is_free absent none = false
is_free absent (some path) = absent path

abbrev pub is_path : Option Bytes → Bool
is_path none = false
is_path (some path) = true

-- The `for` loop from `suffix` on, with the rounds that are left.
unfoldable pub try_suffixes : (Bytes → Bool) → Bytes → Bytes → ℕ → ℕ → Option Bytes
try_suffixes absent directory requested zero suffix = none
try_suffixes absent directory requested (suc rounds) suffix =
    let name = candidate requested suffix in
    let path = safe_path_join directory name full_bytes in
    let rest = try_suffixes absent directory requested rounds (suffix + 1) in
    if leb name_bytes (length (suffix_text suffix) + length (extension requested))
    then none
    else if not (safe_path_validate_filename name)
    then none
    else if not (is_path path)
    then none
    else if is_free absent path
    then some name
    else rest

-- `safe_path_unique_name`; `absent` tells which paths do not exist.
unfoldable pub safe_path_unique_name : (Bytes → Bool) → Bytes → Bytes → Option Bytes
safe_path_unique_name absent directory requested =
    let path = safe_path_join directory requested full_bytes in
    if not (safe_path_validate_filename requested)
    then none
    else if not (is_path path)
    then none
    else if is_free absent path
    then some requested
    else try_suffixes absent directory requested 9999 1
