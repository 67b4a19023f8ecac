-- ===== src/SafePath/Candidate.antt =====
-- src/safe_path.c: every name that `safe_path_unique_name` tries is a valid file name.
use ps5_localsend.Base.{
  ℕ, zero, suc, ◌+◌, ◌-◌, ◌≤◌, ◌<◌, min, ◌≡◌, refl, sym, ap, subst, ◌∙◌, ◌≢◌, ◌⊎◌, inl, inr, true,
  false, some, [], ◌∷◌, ◌++◌, arith, ltb, Bool-cases, Bytes, codes, equal, equal_iff, ◌>>=◌, length,
  take, drop, All, length-append, length-take,
}
use ps5_localsend.SafePath.Laws.{valid_facts}
use ps5_localsend.SafePath.Names.{
  name_bytes, lead_byte, next_byte, utf8_end, is_between, valid_utf8, is_forbidden, has_forbidden,
  safe_path_validate_filename, stem_size, decimal, suffix_text, back_off, kept_bytes, extension,
  candidate, between,
}
use ps5_localsend.SafePath.Unique.{back_off-le}
use ps5_localsend.SafePath.Utf8Laws.{utf8_end-append, valid_utf8-cut, back_off_at, stem-Boundary}

-- Printable bytes that the check of file names lets through.
abbrev IsPrintable : ℕ → Type 0
IsPrintable c = (0x28 ≤ c) × (c ≤ 0x39) × (c ≢ b'/') ⊎ (c ≡ 0x20)

plain_facts : (c : ℕ) → IsPrintable c → (ltb c 0x80 ≡ true) × (is_forbidden c ≡ false)
unfolding is_forbidden
plain_facts c h = ground arith

plain_utf8 : (s : Bytes) → All IsPrintable s → utf8_end between s ≡ some between
unfolding utf8_end next_byte lead_byte
plain_utf8 [] h = refl
plain_utf8 (c ∷ s) h = simp (plain_facts c h.0).0 (plain_utf8 s h.1)

plain_allowed : (s : Bytes) → All IsPrintable s → has_forbidden s ≡ false
unfolding has_forbidden
plain_allowed [] h = refl
plain_allowed (c ∷ s) h = simp (plain_facts c h.0).1 (plain_allowed s h.1)

All-append : (P : ℕ → Type 0) (a b : Bytes) → All P a → All P b → All P (a ++ b)
All-append P [] b h k = k
All-append P (c ∷ a) b h k = (h.0, All-append P a b h.1 k)

decimal_plain : (n : ℕ) → n ≤ 9999 → All IsPrintable (decimal n)
decimal_plain n h = elim (Bool-cases (ltb n 10)) [
  | inl a ↦ simp a (inl (ground arith), tt)
  | inr a ↦ elim (Bool-cases (ltb n 100)) [
    | inl b ↦ simp a (simp b (inl (ground arith), (inl (ground arith), tt)))
    | inr b ↦ elim (Bool-cases (ltb n 1000)) [
      | inl c ↦ simp (a, b, c) (inl (ground arith), (inl (ground arith), (inl (ground arith), tt)))
      | inr c ↦
          simp (a, b, c)
            (
              inl (ground arith),
              (inl (ground arith), (inl (ground arith), (inl (ground arith), tt))),
            )
    ]
  ]
]

suffix_plain : (n : ℕ) → n ≤ 9999 → All IsPrintable (suffix_text n)
unfolding suffix_text
suffix_plain n h = (
  inr refl,
  (
    inl (ground arith),
    All-append IsPrintable (decimal n) (codes ")") (decimal_plain n h) (inl (ground arith), tt),
  ),
)

has_forbidden-append :
    (a b : Bytes)
    → has_forbidden a ≡ false
    → has_forbidden b ≡ false
    → has_forbidden (a ++ b) ≡ false
unfolding has_forbidden
has_forbidden-append [] b h k = k
has_forbidden-append (c ∷ a) b h k =
    let rest = has_forbidden-append a b (ground arith) k in ground arith

has_forbidden-take :
    (n : ℕ) (s : Bytes) → has_forbidden s ≡ false → has_forbidden (take n s) ≡ false
unfolding has_forbidden
has_forbidden-take zero s h = refl
has_forbidden-take (suc n) [] h = refl
has_forbidden-take (suc n) (c ∷ s) h =
    let rest = has_forbidden-take n s (ground arith) in ground arith

has_forbidden-drop :
    (n : ℕ) (s : Bytes) → has_forbidden s ≡ false → has_forbidden (drop n s) ≡ false
unfolding has_forbidden
has_forbidden-drop zero s h = h
has_forbidden-drop (suc n) [] h = refl
has_forbidden-drop (suc n) (c ∷ s) h = has_forbidden-drop n s (ground arith)

kept_is :
    (requested : Bytes) (room : ℕ)
    → valid_utf8 requested ≡ true
    → utf8_end between (take (kept_bytes requested (stem_size requested) room) requested)
      ≡ some between
unfolding kept_bytes
kept_is requested room v =
    let stem = stem_size requested in
    let k = back_off requested stem (min room stem) in
    elim (back_off_at requested stem (min room stem) (omega arith)) [
      | inl e ↦
          subst (λ n. utf8_end between (take n requested) ≡ some between) (sym e)
            (unfold utf8_end in refl)
      | inr (inl e) ↦
          subst (λ n. utf8_end between (take n requested) ≡ some between) (sym e)
            (valid_utf8-cut requested stem v (stem-Boundary requested)).0
      | inr (inr e) ↦ (valid_utf8-cut requested k v (inr e)).0
    ]

kept_bytes-room :
    (requested : Bytes) (room : ℕ) → kept_bytes requested (stem_size requested) room ≤ room
unfolding kept_bytes
kept_bytes-room requested room =
    let h = back_off-le requested (stem_size requested) (min room (stem_size requested)) in
    omega (arith, h)

utf8_joined :
    (a b : Bytes)
    → utf8_end between a ≡ some between
    → utf8_end between b ≡ some between
    → utf8_end between (a ++ b) ≡ some between
utf8_joined a b h k = utf8_end-append between a b ∙ ap (λ o. o >>= λ u. utf8_end u b) h ∙ k

validated :
    (name : Bytes)
    → 2 < length name
    → length name ≤ name_bytes
    → utf8_end between name ≡ some between
    → has_forbidden name ≡ false
    → safe_path_validate_filename name ≡ true
unfolding safe_path_validate_filename valid_utf8
validated name l u v f =
    let dot = not_short name (codes ".") (omega arith) in
    let dots = not_short name (codes "..") (omega arith) in
    let text = ap is_between v in ground arith
  where
    not_short : (a b : Bytes) → length b < length a → equal a b ≡ false
    not_short a b lt = elim (Bool-cases (equal a b)) [
      | inr f ↦ f
      | inl t ↦ absurd (omega (arith, lt, ap (λ (x : Bytes). length x) ((equal_iff a b).0 t)))
    ]

valid_utf8_of : (name : Bytes) → safe_path_validate_filename name ≡ true → valid_utf8 name ≡ true
unfolding safe_path_validate_filename
valid_utf8_of name h = ground arith

length-suffix_text : (n : ℕ) → 2 < length (suffix_text n)
unfolding suffix_text
length-suffix_text n = omega (arith, length-append (decimal n) (codes ")"), some_digit)
  where
    some_digit : 1 ≤ length (decimal n)
    some_digit = ground arith

-- For a valid requested name, a counter up to 9999, and an extension that leaves room for it, the
-- name with the counter is itself a valid file name: it has at most 255 bytes, and shortening the
-- stem has not cut a UTF-8 character in two.
pub candidate-validate :
    (requested : Bytes) (suffix : ℕ)
    → safe_path_validate_filename requested ≡ true
    → suffix ≤ 9999
    → length (suffix_text suffix) + length (extension requested) < name_bytes
    → safe_path_validate_filename (candidate requested suffix) ≡ true
unfolding candidate
candidate-validate requested suffix v le room =
    let text = suffix_text suffix in
    let ext = extension requested in
    let left = name_bytes - length text - length ext in
    let keep = kept_bytes requested (stem_size requested) left in
    let utf8 = valid_utf8_of requested v in
    let plain = suffix_plain suffix le in
    let allowed = (valid_facts requested v).0 in
    let cut = valid_utf8-cut requested (stem_size requested) utf8 (stem-Boundary requested) in
    let sizes = length-append (take keep requested) (text ++ ext) in
    let more_sizes = length-append text ext in
    let kept_size = length-take keep requested in
    let kept_room = kept_bytes-room requested left in
    let long = length-suffix_text suffix in
    validated (take keep requested ++ (text ++ ext)) (omega arith) (omega arith)
      (utf8_joined (take keep requested) (text ++ ext) (kept_is requested left utf8)
        (utf8_joined text ext (plain_utf8 text plain) cut.1))
      (has_forbidden-append (take keep requested) (text ++ ext)
        (has_forbidden-take keep requested allowed)
        (has_forbidden-append text ext (plain_allowed text plain)
          (has_forbidden-drop (stem_size requested) requested allowed)))
