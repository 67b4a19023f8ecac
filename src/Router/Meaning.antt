-- ===== src/Router/Meaning.antt =====
-- src/router.c: what a JSON string means, and what the escaped forms of a character mean.
use ps5_localsend.Auth.Secrets.{hex_digit}
use ps5_localsend.Base.{
  ℕ, zero, suc, ◌+◌, ◌-◌, ◌*◌, ◌/◌, ◌%◌, ◌<◌, ◌≡◌, refl, ap, subst, ◌∙◌, true, false, ◌&&◌, ◌||◌,
  Option, none, some, [], ◌∷◌, ◌++◌, arith, ltb, ◌==◌, if◌then◌else◌, Bytes, codes, is_digit,
  length, get_or,
}
use ps5_localsend.Router.Json.{put, escaped_control}
use ps5_localsend.Sha256.Shape.{is_lower_hex}

-- Where a reader of JSON is: in plain text, after a backslash, or in `\u` with `left` digits to
-- read before the last one.
pub data Place : Type 0 where
  in_text after_backslash : Place
  in_number : ℕ → ℕ → Place

abbrev pub hex_value : ℕ → ℕ
hex_value c = if is_digit c then c - b'0' else c - b'a' + 10

-- What a JSON string between its quotes means: `none` where it breaks the grammar. Numbers are read
-- up to the seven bits that are one byte in UTF-8.
unfoldable pub meaning : Place → Bytes → Option Bytes
meaning in_text [] = some []
meaning _ [] = none
meaning in_text (c ∷ cs) =
    let text = meaning in_text cs in
    let escape = meaning after_backslash cs in
    if c == b'\\' then escape else if c == b'"' || ltb c 0x20 then none else put (c ∷ []) text
meaning after_backslash (c ∷ cs) =
    let text = meaning in_text cs in
    let number = meaning (in_number 3 0) cs in
    if c == b'"' || c == b'\\' || c == b'/'
    then put (c ∷ []) text
    else if c == b'u'
    then number
    else none
meaning (in_number zero value) (c ∷ cs) =
    let text = meaning in_text cs in
    let code = value * 16 + hex_value c in
    if is_lower_hex c && ltb code 0x80 then put (code ∷ []) text else none
meaning (in_number (suc left) value) (c ∷ cs) =
    let number = meaning (in_number left (value * 16 + hex_value c)) cs in
    if is_lower_hex c then number else none

-- The characters of a list are the hexadecimal digits from `d` on.
abbrev CountFrom : ℕ → Bytes → Type 0
CountFrom d [] = Unit
CountFrom d (c ∷ cs) = (hex_value c ≡ d) × (is_lower_hex c ≡ true) × CountFrom (d + 1) cs

get_or-CountFrom :
    (d i : ℕ) (s : Bytes)
    → CountFrom d s
    → i < length s
    → (hex_value (get_or s i 0) ≡ d + i) × (is_lower_hex (get_or s i 0) ≡ true)
get_or-CountFrom d i [] k h = absurd (omega arith)
get_or-CountFrom d zero (c ∷ cs) k h = (k.0 ∙ omega arith, k.1)
get_or-CountFrom d (suc i) (c ∷ cs) k h =
    let e = get_or-CountFrom (d + 1) i cs k.2 (omega arith) in (e.0 ∙ omega arith, e.1)

digits_count : CountFrom 0 (codes "0123456789abcdef")
digits_count = (
  refl,
  refl,
  (
    refl,
    refl,
    (
      refl,
      refl,
      (
        refl,
        refl,
        (
          refl,
          refl,
          (
            refl,
            refl,
            (
              refl,
              refl,
              (
                refl,
                refl,
                (
                  refl,
                  refl,
                  (
                    refl,
                    refl,
                    (
                      refl,
                      refl,
                      (refl, refl, (refl, refl, (refl, refl, (refl, refl, (refl, refl, tt))))),
                    ),
                  ),
                ),
              ),
            ),
          ),
        ),
      ),
    ),
  ),
)

digit_back : (d : ℕ) → d < 16 → (hex_value (hex_digit d) ≡ d) × (is_lower_hex (hex_digit d) ≡ true)
unfolding hex_digit
digit_back d h =
    let e = get_or-CountFrom 0 d (codes "0123456789abcdef") digits_count h in
    (e.0 ∙ omega arith, e.1)

meaning_number :
    (left value c d : ℕ) (s : Bytes)
    → is_lower_hex c ≡ true
    → hex_value c ≡ d
    → meaning (in_number (suc left) value) (c ∷ s) ≡ meaning (in_number left (value * 16 + d)) s
unfolding meaning
meaning_number left value c d s h e =
    simp h (ap (λ x. meaning (in_number left (value * 16 + x)) s) e)

meaning_last :
    (value c d : ℕ) (s : Bytes)
    → is_lower_hex c ≡ true
    → hex_value c ≡ d
    → value * 16 + d < 0x80
    → meaning (in_number zero value) (c ∷ s) ≡ put ((value * 16 + d) ∷ []) (meaning in_text s)
meaning_last value c d s h e k =
    subst
      (λ x.
        value * 16 + x < 0x80
        → meaning (in_number zero value) (c ∷ s) ≡ put ((value * 16 + x) ∷ []) (meaning in_text s))
      e (last value c s h) k
  where
    last :
        (value c : ℕ) (s : Bytes)
        → is_lower_hex c ≡ true
        → value * 16 + hex_value c < 0x80
        → meaning (in_number zero value) (c ∷ s)
          ≡ put ((value * 16 + hex_value c) ∷ []) (meaning in_text s)
    last value c s h k =
        let small : ltb (value * 16 + hex_value c) 0x80 ≡ true = ground arith in
        unfold meaning in simp (h, small) refl

meaning_u : (s : Bytes) → meaning in_text (b'\\' ∷ b'u' ∷ s) ≡ meaning (in_number 3 0) s
unfolding meaning
meaning_u s = refl

pub meaning_escaped :
    (c : ℕ) (s : Bytes)
    → (c == b'"' || c == b'\\') ≡ true
    → meaning in_text (b'\\' ∷ c ∷ s) ≡ put (c ∷ []) (meaning in_text s)
unfolding meaning
meaning_escaped c s h = ground arith

pub meaning_plain :
    (c : ℕ) (s : Bytes)
    → (c == b'"' || c == b'\\') ≡ false
    → ltb c 0x20 ≡ false
    → meaning in_text (c ∷ s) ≡ put (c ∷ []) (meaning in_text s)
unfolding meaning
meaning_plain c s h k = ground arith

pub meaning_control :
    (c : ℕ) (s : Bytes)
    → c < 0x20
    → meaning in_text (escaped_control c ++ s) ≡ put (c ∷ []) (meaning in_text s)
meaning_control c s h =
    let high = digit_back (c / 16) (omega arith) in
    let low = digit_back (c % 16) (omega arith) in
    meaning_u (b'0' ∷ b'0' ∷ hex_digit (c / 16) ∷ hex_digit (c % 16) ∷ s)
    ∙ meaning_number 2 0 b'0' 0 (b'0' ∷ hex_digit (c / 16) ∷ hex_digit (c % 16) ∷ s) refl refl
    ∙ meaning_number 1 0 b'0' 0 (hex_digit (c / 16) ∷ hex_digit (c % 16) ∷ s) refl refl
    ∙ meaning_number 0 0 (hex_digit (c / 16)) (c / 16) (hex_digit (c % 16) ∷ s) high.1 high.0
    ∙ meaning_last (0 * 16 + c / 16) (hex_digit (c % 16)) (c % 16) s low.1 low.0 (omega arith)
    ∙ ap (λ x. put (x ∷ []) (meaning in_text s)) {x = (0 * 16 + c / 16) * 16 + c % 16} {y = c}
        (omega arith)
