-- ===== src/Router/Range.antt =====
-- src/router.c: `Content-Range`.
use ps5_localsend.Base.{
  ℕ, ◌+◌, ◌-◌, ◌^◌, Bool, false, not, ◌||◌, Option, none, some, ltb, leb, ◌==◌, if◌then◌else◌,
  Bytes, codes, starts_with, is_digit, ◌>>=◌, expect, length, get_or, drop,
}
use ps5_localsend.Config.State.{read_digits}

-- `parse_range_number`: the value and what follows. `strtoull` reads digits only, as the text
-- starts with one, and a value from 2^64 on is an error.
unfoldable pub range_number_of : Bool × ℕ × Bytes → Option (ℕ × Bytes)
range_number_of (any, value, rest) =
    if leb (2 ^ 64) value || not any then none else some (value, rest)

unfoldable pub parse_range_number : Bytes → Option (ℕ × Bytes)
parse_range_number s =
    if is_digit (get_or s 0 0) then range_number_of (read_digits false 0 s) else none

pub record ContentRange : Type 0 where
  pub offset : ℕ
  pub size : ℕ
  pub total : ℕ

-- The conditions at the end.
unfoldable pub range_of : ℕ → ℕ → ℕ × Bytes → Option ContentRange
range_of offset end (total, rest) =
    if not (length rest == 0) || ltb end offset || total == 0 || leb total end
    then none
    else some (record { offset = offset; size = end - offset + 1; total = total })

unfoldable pub parse_range_end : ℕ → Bytes → Option ContentRange
parse_range_end offset s = parse_range_number s >>= λ (end, s₁).
    expect b'/' s₁ >>= λ s₂. parse_range_number s₂ >>= range_of offset end

unfoldable pub parse_content_range : Bytes → Option ContentRange
parse_content_range value =
    if not (starts_with value (codes "bytes "))
    then none
    else parse_range_number (drop 6 value) >>= λ (offset, s₁).
        expect b'-' s₁ >>= parse_range_end offset
