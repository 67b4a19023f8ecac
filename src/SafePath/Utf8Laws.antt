-- ===== src/SafePath/Utf8Laws.antt =====
-- src/safe_path.c: shortening a name for a counter does not cut a character in two.
use ps5_localsend.Base.{
  ℕ, zero, suc, ◌+◌, ◌-◌, ◌≤◌, ◌<◌, bit_and, ◌≡◌, refl, sym, ap, subst, ◌∙◌, ◌⊎◌, inl, inr, true,
  false, ◌&&◌, Option, none, some, [], ◌∷◌, ◌++◌, arith, ltb, leb, ◌==◌, if◌then◌else◌, leb→le,
  Bool-cases, Bytes, ◌>>=◌, length, get_or, take, drop, take-append-drop, drop_all,
}
use ps5_localsend.SafePath.Names.{
  next_byte, utf8_end, is_between, valid_utf8, last_dot, stem_of, stem_size, back_off, Utf8,
  between, within,
}

-- Two parts are read one after the other.
pub utf8_end-append :
    (u : Utf8) (a b : Bytes) → utf8_end u (a ++ b) ≡ (utf8_end u a >>= λ v. utf8_end v b)
unfolding utf8_end
utf8_end-append u [] b = refl
utf8_end-append u (c ∷ a) b = go (next_byte u c) (λ v. utf8_end-append v a b)
  where
    go :
        (o : Option Utf8)
        → ((v : Utf8) → utf8_end v (a ++ b) ≡ (utf8_end v a >>= λ w. utf8_end w b))
        → (o >>= λ v. utf8_end v (a ++ b)) ≡ ((o >>= λ v. utf8_end v a) >>= λ v. utf8_end v b)
    go none ih = refl
    go (some v) ih = ih v

-- A byte that continues no sequence is read only between sequences.
at_boundary :
    (u : Utf8) (c : ℕ) (cs : Bytes)
    → (bit_and c 0xc0 == 0x80) ≡ false
    → is_between (utf8_end u (c ∷ cs)) ≡ true
    → u ≡ between
unfolding utf8_end next_byte
at_boundary between c cs h e = refl
at_boundary (within n r k) c cs h e = absurd (ground arith)

between_inv : (o : Option Utf8) → is_between o ≡ true → o ≡ some between
between_inv none h = absurd (cc)
between_inv (some between) h = refl
between_inv (some (within n r k)) h = absurd (cc)

-- The place `k` of a text is its end, or holds a byte that continues no sequence.
abbrev pub Boundary : Bytes → ℕ → Type 0
Boundary s k = (length s ≤ k) ⊎ ((bit_and (get_or s k 0) 0xc0 == 0x80) ≡ false)

drop_head : (s : Bytes) (k : ℕ) → k < length s → drop k s ≡ get_or s k 0 ∷ drop (suc k) s
drop_head [] k h = absurd (omega arith)
drop_head (c ∷ s) zero h = refl
drop_head (c ∷ s) (suc k) h = drop_head s k (omega arith)

cut_state :
    (s : Bytes) (k : ℕ) (o : Option Utf8)
    → Boundary s k
    → is_between (o >>= λ u. utf8_end u (drop k s)) ≡ true
    → o ≡ some between
unfolding utf8_end
cut_state s k none b h = absurd (cc)
cut_state s k (some u) (inl e) h =
    between_inv (some u) (subst (λ x. is_between (utf8_end u x) ≡ true) (drop_all k s e) h)
cut_state s k (some u) (inr e) h = elim (Bool-cases (leb (length s) k)) [
  | inl out ↦
      between_inv (some u)
        (subst (λ x. is_between (utf8_end u x) ≡ true) (drop_all k s (leb→le (length s) k out)) h)
  | inr inside ↦ ap some (
      at_boundary u (get_or s k 0) (drop (suc k) s) e
        (subst (λ x. is_between (utf8_end u x) ≡ true) (drop_head s k (ground arith)) h))
]

-- A valid text that is cut at a boundary gives two valid texts.
pub valid_utf8-cut :
    (s : Bytes) (k : ℕ)
    → valid_utf8 s ≡ true
    → Boundary s k
    → (utf8_end between (take k s) ≡ some between) × (utf8_end between (drop k s) ≡ some between)
unfolding valid_utf8
valid_utf8-cut s k v b =
    let whole : is_between (utf8_end between (take k s) >>= λ u. utf8_end u (drop k s)) ≡ true =
      ap is_between (
        sym (utf8_end-append between (take k s) (drop k s))
        ∙ ap (utf8_end between) (take-append-drop k s))
      ∙ v in
    let first = cut_state s k (utf8_end between (take k s)) b whole in
    (
      first,
      between_inv _ (subst (λ o. is_between (o >>= λ u. utf8_end u (drop k s)) ≡ true) first whole),
    )

pub back_off_at :
    (requested : Bytes) (stem keep : ℕ)
    → keep ≤ stem
    → (back_off requested stem keep ≡ 0)
      ⊎ (back_off requested stem keep ≡ stem)
      ⊎ ((bit_and (get_or requested (back_off requested stem keep) 0) 0xc0 == 0x80) ≡ false)
unfolding back_off
back_off_at requested stem zero h = inl refl
back_off_at requested stem (suc keep) h =
    let less = back_off_at requested stem keep (omega arith) in
    elim (Bool-cases
      (ltb (suc keep) stem && bit_and (get_or requested (suc keep) 0) 0xc0 == 0x80)) [
        | inl t ↦ simp t less
        | inr f ↦ simp f (stays (Bool-cases (ltb (suc keep) stem)) f)
      ]
  where
    stays :
        (ltb (suc keep) stem ≡ true) ⊎ (ltb (suc keep) stem ≡ false)
        → (ltb (suc keep) stem && bit_and (get_or requested (suc keep) 0) 0xc0 == 0x80) ≡ false
        → (suc keep ≡ 0)
          ⊎ (suc keep ≡ stem)
          ⊎ ((bit_and (get_or requested (suc keep) 0) 0xc0 == 0x80) ≡ false)
    stays (inl t) f = inr (inr (ground arith))
    stays (inr e) f = inr (inl (ground arith))

last_dot_at :
    (s : Bytes) (at : ℕ) (found : Option ℕ) (j : ℕ)
    → last_dot s at found ≡ some j
    → (found ≡ some j) ⊎ ((at ≤ j) × (get_or s (j - at) 0 ≡ b'.'))
unfolding last_dot
last_dot_at [] at found j h = inl h
last_dot_at (c ∷ s) at found j h = elim (last_dot_at s (at + 1) _ j h) [
  | inr (le, e) ↦
      inr (
        omega arith,
        subst (λ i. get_or (c ∷ s) i 0 ≡ b'.') {x = suc (j - (at + 1))} (omega arith) e,
      )
  | inl e ↦ elim (Bool-cases (c == b'.')) [
    | inl t ↦ inr (here e t)
    | inr f ↦ inl (subst (λ b. (if b then some at else found) ≡ some j) f e)
  ]
]
  where
    here :
        (if c == b'.' then some at else found) ≡ some j
        → (c == b'.') ≡ true
        → (at ≤ j) × (get_or (c ∷ s) (j - at) 0 ≡ b'.')
    here e t =
        let same : at ≡ j = ground arith in
        (
          omega (arith, same),
          subst (λ i. get_or (c ∷ s) i 0 ≡ b'.') {x = 0} (omega (arith, same)) (ground arith),
        )

dot_starts : (c : ℕ) → c ≡ b'.' → (bit_and c 0xc0 == 0x80) ≡ false
dot_starts c e = subst (λ x. (bit_and x 0xc0 == 0x80) ≡ false) (sym e) refl

stem_of-Boundary :
    (s : Bytes) (o : Option ℕ)
    → ((j : ℕ) → o ≡ some j → (none ≡ some j) ⊎ ((0 ≤ j) × (get_or s (j - 0) 0 ≡ b'.')))
    → Boundary s (stem_of o (length s))
unfolding stem_of
stem_of-Boundary s none h = inl (omega arith)
stem_of-Boundary s (some j) h = elim (Bool-cases (j == 0)) [
  | inl t ↦ simp t (inl (omega arith))
  | inr f ↦ simp f (inr (found (h j refl)))
]
  where
    found :
        (none ≡ some j) ⊎ ((0 ≤ j) × (get_or s (j - 0) 0 ≡ b'.'))
        → (bit_and (get_or s j 0) 0xc0 == 0x80) ≡ false
    found (inl e) = absurd (cc)
    found (inr (le, e)) =
        dot_starts (get_or s j 0) (subst (λ i. get_or s i 0 ≡ b'.') {x = j - 0} (omega arith) e)

pub stem-Boundary : (s : Bytes) → Boundary s (stem_size s)
unfolding stem_size
stem-Boundary s = stem_of-Boundary s (last_dot s 0 none) (λ j h. last_dot_at s 0 none j h)
