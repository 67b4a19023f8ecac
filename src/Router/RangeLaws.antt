-- ===== src/Router/RangeLaws.antt =====
-- src/router.c: what `Content-Range` values are accepted.
use ps5_localsend.Base.{
  ℕ, ◌+◌, ◌-◌, ◌^◌, ◌≤◌, ◌<◌, ◌≡◌, refl, sym, ap, ◌∙◌, inl, inr, true, false, not, ◌||◌, Option,
  none, some, [], ◌∷◌, ◌++◌, append-nil, arith, ltb, leb, ◌==◌, Bool-cases, Bytes, codes,
  starts_with, is_digit, ◌>>=◌, expect, length, get_or, drop,
}
use ps5_localsend.Config.State.{read_digits}
use ps5_localsend.Router.Numbers.{print_u64, read_digits-print_digits, digit_front}
use ps5_localsend.Router.Range.{
  range_number_of, parse_range_number, range_of, parse_range_end, parse_content_range, ContentRange,
}

-- A range within a file.
pub record Within (range : ContentRange) : Type 0 where
  pub not_empty : 0 < range.size
  pub inside : range.offset + range.size ≤ range.total
  pub total_in : range.total < 2 ^ 64

-- The header that the page sends for a range.
abbrev pub content_range_text : ContentRange → Bytes
content_range_text range =
    codes "bytes "
    ++ (print_u64 range.offset
        ++ (b'-' ∷ (print_u64 (range.offset + range.size - 1) ++ (b'/' ∷ print_u64 range.total))))

abbrev pub WithinOr : Option ContentRange → Type 0
WithinOr none = Unit
WithinOr (some range) = Within range

range_of-Within :
    (offset end : ℕ) (rest : Bytes) (total : ℕ)
    → total < 2 ^ 64
    → WithinOr (range_of offset end (total, rest))
unfolding range_of
range_of-Within offset end rest total h =
    elim (Bool-cases (not (length rest == 0) || ltb end offset || total == 0 || leb total end)) [
      | inl bad ↦ simp bad tt
      | inr good ↦
          simp good (record { not_empty = omega arith; inside = ground arith; total_in = h })
    ]

range_number_small :
    (s : Bytes) {value : ℕ} {rest : Bytes}
    → parse_range_number s ≡ some (value, rest)
    → value < 2 ^ 64
unfolding parse_range_number range_number_of
range_number_small s h = ground arith

bind-WithinOr {ℓ} :
    {A : Type ℓ} (o : Option A) (f : A → Option ContentRange)
    → ((a : A) → o ≡ some a → WithinOr (f a))
    → WithinOr (o >>= f)
bind-WithinOr none f h = tt
bind-WithinOr (some a) f h = h a refl

-- Every `Content-Range` that `parse_content_range` accepts is a range of at least one byte that
-- lies within a file, whose size is below 2^64; so its end does not overflow.
pub parse_content_range-Within : (value : Bytes) → WithinOr (parse_content_range value)
unfolding parse_content_range parse_range_end
parse_content_range-Within value = elim (Bool-cases (starts_with value (codes "bytes "))) [
  | inr other ↦ simp other tt
  | inl bytes ↦ simp bytes (
      bind-WithinOr (parse_range_number (drop 6 value)) _ (λ (offset, s₁) _.
        bind-WithinOr (expect b'-' s₁) (parse_range_end offset) (λ s₂ _.
          bind-WithinOr (parse_range_number s₂) _ (λ (end, s₃) _.
            bind-WithinOr (expect b'/' s₃) _ (λ s₄ _.
              bind-WithinOr (parse_range_number s₄) (range_of offset end) (λ (total, s₅) h.
                range_of-Within offset end s₅ total (range_number_small s₄ h)))))))
]

-- A printed number is read back, up to what follows.
range_number-print :
    (n : ℕ) (rest : Bytes)
    → n < 2 ^ 64
    → is_digit (get_or rest 0 0) ≡ false
    → parse_range_number (print_u64 n ++ rest) ≡ some (n, rest)
unfolding parse_range_number
range_number-print n rest h stop = simp (digit_front 19 n rest) (
    ap range_number_of (read_digits-print_digits 19 n false rest (omega arith))
    ∙ ended n rest h stop)
  where
    ended :
        (n : ℕ) (rest : Bytes)
        → n < 2 ^ 64
        → is_digit (get_or rest 0 0) ≡ false
        → range_number_of (read_digits true n rest) ≡ some (n, rest)
    ended n [] h stop = unfold range_number_of read_digits in ground arith
    ended n (c ∷ cs) h stop = unfold range_number_of read_digits in ground arith

total_text :
    (offset end total : ℕ)
    → total < 2 ^ 64
    → (parse_range_number (print_u64 total) >>= range_of offset end)
      ≡ range_of offset end (total, [])
total_text offset end total h =
    ap (λ (s : Bytes). parse_range_number s >>= range_of offset end)
      (sym (append-nil (print_u64 total)))
    ∙ ap (λ (o : Option (ℕ × Bytes)). o >>= range_of offset end)
        (range_number-print total [] h refl)

end_text :
    (offset end total : ℕ)
    → end < 2 ^ 64
    → total < 2 ^ 64
    → parse_range_end offset (print_u64 end ++ (b'/' ∷ print_u64 total))
      ≡ range_of offset end (total, [])
unfolding parse_range_end expect
end_text offset end total h k =
    ap
      (λ (o : Option (ℕ × Bytes)).
        o >>= λ (end, s₁). expect b'/' s₁ >>= λ s₂. parse_range_number s₂ >>= range_of offset end)
      (range_number-print end (b'/' ∷ print_u64 total) h refl)
    ∙ total_text offset end total k

offset_text :
    (offset end total : ℕ)
    → offset < 2 ^ 64
    → parse_content_range (
        codes "bytes "
        ++ (print_u64 offset ++ (b'-' ∷ (print_u64 end ++ (b'/' ∷ print_u64 total)))))
      ≡ parse_range_end offset (print_u64 end ++ (b'/' ∷ print_u64 total))
unfolding parse_content_range expect starts_with
offset_text offset end total h =
    ap (λ (o : Option (ℕ × Bytes)). o >>= λ (offset, s₁). expect b'-' s₁ >>= parse_range_end offset)
      (range_number-print offset (b'-' ∷ (print_u64 end ++ (b'/' ∷ print_u64 total))) h refl)

range_of-end :
    (range : ContentRange)
    → Within range
    → range_of range.offset (range.offset + range.size - 1) (range.total, []) ≡ some range
unfolding range_of
range_of-end range w =
    let e : range.offset + range.size - 1 - range.offset + 1 ≡ range.size =
      omega (arith, w.not_empty) in
    let good : (ltb (range.offset + range.size - 1) range.offset
          || range.total == 0
          || leb range.total (range.offset + range.size - 1))
        ≡ false =
      ground (arith, w.not_empty, w.inside) in
    simp good (ap (λ n. some (record { offset = range.offset; size = n; total = range.total })) e)

-- The text that the page sends for a range within a file is read back.
pub parse_content_range-text :
    (range : ContentRange)
    → Within range
    → parse_content_range (content_range_text range) ≡ some range
parse_content_range-text range w =
    let total_in = w.total_in in
    let inside = w.inside in
    let not_empty = w.not_empty in
    offset_text range.offset (range.offset + range.size - 1) range.total (omega arith)
    ∙ end_text range.offset (range.offset + range.size - 1) range.total (omega arith) total_in
    ∙ range_of-end range w
