-- ===== src/Router/EscapeLaws.antt =====
-- src/router.c: escaped text, read back as a JSON string.
use native.Mathlib.Decide.{dec_lt}
use ps5_localsend.Base.{
  ℕ, ◌+◌, ◌*◌, ◌≤◌, ◌<◌, ◌≡◌, refl, sym, ap, subst, ◌∙◌, inl, inr, true, ◌||◌, Option, none, some,
  [], ◌∷◌, ◌++◌, arith, ltb, leb, ◌==◌, if◌then◌else◌, ltb→lt, ==_iff, Bool-cases, Bytes, length,
  all, length-append,
}
use ps5_localsend.Router.Json.{
  put, escape_filename_loop, json_escape_filename, escaped_control, escape_loop, json_escape_string,
}
use ps5_localsend.Router.Meaning.{meaning, meaning_escaped, meaning_plain, meaning_control, in_text}

-- What one character adds to the output: at most six bytes, which mean that character.
record Added (size used c : ℕ) (cs : Bytes) : Type 0 where
  bytes : Bytes
  few : length bytes ≤ 6
  means : (s : Bytes) → meaning in_text (bytes ++ s) ≡ put (c ∷ []) (meaning in_text s)
  loop :
      used + length bytes < size
      → escape_loop size used (c ∷ cs) ≡ put bytes (escape_loop size (used + length bytes) cs)
  full : size ≤ used + length bytes → escape_loop size used (c ∷ cs) ≡ none

added : (size used c : ℕ) (cs : Bytes) → Added size used c cs
added size used c cs = elim (Bool-cases (c == b'"' || c == b'\\')) [
  | inl quote ↦ record {
    bytes = b'\\' ∷ c ∷ [];
    few = omega arith;
    means = λ s. meaning_escaped c s quote;
    loop = λ h. unfold escape_loop in ground arith;
    full = λ h. unfold escape_loop in ground arith;
  }
  | inr no_quote ↦ elim (Bool-cases (ltb c 0x20)) [
    | inl control ↦ record {
      bytes = escaped_control c;
      few = omega arith;
      means = λ s. meaning_control c s (ltb→lt c 0x20 control);
      loop = λ h. unfold escape_loop in ground arith;
      full = λ h. unfold escape_loop in ground arith;
    }
    | inr printable ↦ record {
      bytes = c ∷ [];
      few = omega arith;
      means = λ s. meaning_plain c s no_quote printable;
      loop = λ h. unfold escape_loop in ground arith;
      full = λ h. unfold escape_loop in ground arith;
    }
  ]
]

-- The output after `used` bytes of `size`: it fits and means the input, or there was little room.
abbrev EscapedFrom : ℕ → ℕ → Bytes → Option Bytes → Type 0
EscapedFrom size used input none = size ≤ used + 6 * length input
EscapedFrom size used input (some out) =
    (used + length out < size) × (meaning in_text out ≡ some input)

put-EscapedFrom :
    (size used c : ℕ) (cs bytes : Bytes) (o : Option Bytes)
    → length bytes ≤ 6
    → ((s : Bytes) → meaning in_text (bytes ++ s) ≡ put (c ∷ []) (meaning in_text s))
    → EscapedFrom size (used + length bytes) cs o
    → EscapedFrom size used (c ∷ cs) (put bytes o)
put-EscapedFrom size used c cs bytes none h means k = omega arith
put-EscapedFrom size used c cs bytes (some out) h means k =
    (omega (arith, length-append bytes out), means out ∙ ap (put (c ∷ [])) k.1)

escape_loop-EscapedFrom :
    (size used : ℕ) (input : Bytes)
    → used < size
    → EscapedFrom size used input (escape_loop size used input)
unfolding escape_loop meaning
escape_loop-EscapedFrom size used [] h = (omega arith, refl)
escape_loop-EscapedFrom size used (c ∷ cs) h =
    step (added size used c cs) (λ n k. escape_loop-EscapedFrom size n cs k)
  where
    step :
        Added size used c cs
        → ((n : ℕ) → n < size → EscapedFrom size n cs (escape_loop size n cs))
        → EscapedFrom size used (c ∷ cs) (escape_loop size used (c ∷ cs))
    step a rest = elim (dec_lt (used + length a.bytes) size) [
      | yes k ↦ subst (EscapedFrom size used (c ∷ cs)) (sym (a.loop k)) (
          put-EscapedFrom size used c cs a.bytes (escape_loop size (used + length a.bytes) cs) a.few
            a.means (rest (used + length a.bytes) k))
      | no k ↦
          subst (EscapedFrom size used (c ∷ cs)) (sym (a.full (ground arith)))
            (omega (arith, a.few))
    ]

-- What `json_escape_string` returns for an output of `size` bytes.
abbrev pub Escaped : Bytes → ℕ → Option Bytes → Type 0
Escaped input size none = size ≤ 6 * length input
Escaped input size (some out) = (length out < size) × (meaning in_text out ≡ some input)

-- What `json_escape_string` writes, with the zero byte behind it, fits the buffer of any size, and
-- is the inside of a JSON string that means the input; it fails only if the buffer is not larger
-- than six times the input.
pub json_escape_string-Escaped :
    (input : Bytes) (size : ℕ) → Escaped input size (json_escape_string input size)
unfolding json_escape_string
json_escape_string-Escaped input size = elim (Bool-cases (size == 0)) [
  | inl nothing ↦ simp nothing (omega (arith, (==_iff size 0).0 nothing))
  | inr some_room ↦
      simp some_room
        (whole (escape_loop size 0 input) (escape_loop-EscapedFrom size 0 input (ground arith)))
]
  where
    whole : (o : Option Bytes) → EscapedFrom size 0 input o → Escaped input size o
    whole none h = omega arith
    whole (some out) h = (omega arith, h.1)

same_step :
    (size used c : ℕ) (cs : Bytes)
    → leb 0x20 c ≡ true
    → escape_filename_loop size (used + 1 + 1) cs ≡ escape_loop size (used + 2) cs
    → escape_filename_loop size (used + 1) cs ≡ escape_loop size (used + 1) cs
    → escape_filename_loop size used (c ∷ cs) ≡ escape_loop size used (c ∷ cs)
unfolding escape_filename_loop escape_loop
same_step size used c cs h two one = ground arith

same_loop :
    (size used : ℕ) (input : Bytes)
    → all (leb 0x20) input ≡ true
    → escape_filename_loop size used input ≡ escape_loop size used input
unfolding escape_filename_loop escape_loop all
same_loop size used [] h = refl
same_loop size used (c ∷ cs) h =
    same_step size used c cs (ground arith)
      (same_loop size (used + 1 + 1) cs (ground arith)
        ∙ ap (λ n. escape_loop size n cs) {x = used + 1 + 1} {y = used + 2} (omega arith))
      (same_loop size (used + 1) cs (ground arith))

-- On a name without control bytes the two functions that escape text agree, for every size of the
-- output.
pub json_escape_filename-json_escape_string :
    (input : Bytes) (size : ℕ)
    → all (leb 0x20) input ≡ true
    → json_escape_filename input size ≡ json_escape_string input size
unfolding json_escape_filename json_escape_string
json_escape_filename-json_escape_string input size h =
    ap (λ (o : Option Bytes). if size == 0 then none else o) (same_loop size 0 input h)
