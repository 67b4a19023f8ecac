-- ===== src/SafePath/Laws.antt =====
-- src/safe_path.c: where a joined path lies, and what the free name is.
use ps5_localsend.Base.{
  ℕ, ◌≤◌, ◌<◌, ◌≡◌, refl, sym, ap, ◌∙◌, ◌≢◌, inl, inr, Bool, true, false, some, List, [], ◌∷◌, ◌++◌,
  arith, ◌==◌, if◌then◌else◌, Bool-cases, Bytes, codes, equal, equal_iff, length,
}
use ps5_localsend.SafePath.Names.{
  name_bytes, is_forbidden, has_forbidden, safe_path_validate_filename, safe_path_join,
}

unfoldable pub to_first : ℕ → List Bytes → List Bytes
to_first c [] = (c ∷ []) ∷ []
to_first c (x ∷ xs) = (c ∷ x) ∷ xs

-- The names of a path, between its slashes.
unfoldable pub components : Bytes → List Bytes
components [] = [] ∷ []
components (c ∷ cs) = if c == b'/' then [] ∷ components cs else to_first c (components cs)

to_first-append :
    (c : ℕ) (xs ys : List Bytes) → xs ≢ [] → to_first c (xs ++ ys) ≡ to_first c xs ++ ys
unfolding to_first
to_first-append c [] ys h = absurd (h refl)
to_first-append c (x ∷ xs) ys h = refl

pub components_some : (s : Bytes) → components s ≢ []
unfolding components to_first
components_some [] e = absurd (cc)
components_some (c ∷ cs) e = absurd (split (c == b'/') (components cs) e)
  where
    split : (b : Bool) (xs : List Bytes) → (if b then [] ∷ xs else to_first c xs) ≡ [] → ⊥
    split true xs e = absurd (cc)
    split false [] e = absurd (cc)
    split false (x ∷ xs) e = absurd (cc)

components-append : (d n : Bytes) → components (d ++ (b'/' ∷ n)) ≡ components d ++ components n
unfolding components
components-append [] n = refl
components-append (c ∷ d) n = elim (Bool-cases (c == b'/')) [
  | inl t ↦ simp t (ap (λ xs. [] ∷ xs) (components-append d n))
  | inr f ↦ simp f (
      ap (to_first c) (components-append d n)
      ∙ to_first-append c (components d) (components n) (components_some d))
]

components_plain : (n : Bytes) → has_forbidden n ≡ false → components n ≡ n ∷ []
unfolding components has_forbidden is_forbidden to_first
components_plain [] h = refl
components_plain (c ∷ n) h =
    let f : (c == b'/') ≡ false = ground arith in
    simp f (ap (to_first c) (components_plain n (ground arith)))

-- What a valid file name is not.
pub valid_facts :
    (name : Bytes)
    → safe_path_validate_filename name ≡ true
    → (has_forbidden name ≡ false)
      × (equal name (codes ".") ≡ false)
      × (equal name (codes "..") ≡ false)
      × (0 < length name)
      × (length name ≤ name_bytes)
unfolding safe_path_validate_filename
valid_facts name h = ground arith

pub not_equal : (a b : Bytes) → equal a b ≡ false → a ≢ b
not_equal a b h e = absurd (let t = (equal_iff a b).1 e in ground arith)

join_facts :
    (directory name path : Bytes) (size : ℕ)
    → safe_path_join directory name size ≡ some path
    → (safe_path_validate_filename name ≡ true)
      × (directory ++ (b'/' ∷ name) ≡ path)
      × (length path < size)
unfolding safe_path_join
join_facts directory name path size h = ground arith

-- A path that `safe_path_join` returns has the names of the directory and one more, the given
-- name, which is neither empty nor "." nor ".."; and it fits the buffer.
pub safe_path_join-components :
    (directory name path : Bytes) (size : ℕ)
    → safe_path_join directory name size ≡ some path
    → (components path ≡ components directory ++ (name ∷ []))
      × (name ≢ [])
      × (name ≢ codes ".")
      × (name ≢ codes "..")
      × (length path < size)
safe_path_join-components directory name path size h =
    let (v, e, fits) = join_facts directory name path size h in
    let (plain, dot, dots, some_byte, short) = valid_facts name v in
    (
      ap components (sym e)
          ∙ components-append directory name
          ∙ ap (λ xs. components directory ++ xs) (components_plain name plain),
      (λ n. absurd (omega (arith, ap (λ (x : Bytes). length x) n, some_byte))),
      not_equal name (codes ".") dot,
      not_equal name (codes "..") dots,
      fits,
    )
