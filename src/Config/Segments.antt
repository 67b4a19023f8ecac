-- ===== src/Config/Segments.antt =====
-- src/config.c: a safe destination does not leave the directories that it names.
use ps5_localsend.Base.{
  ℕ, ◌≡◌, refl, sym, ap, subst, ◌≢◌, inl, inr, true, false, List, [], ◌∷◌, ◌++◌, append-nil,
  append_assoc, arith, ◌==◌, Bool-cases, Bytes, codes, length, get_or, drop, All,
}
use ps5_localsend.Config.State.{is_bad_segment, has_bad_segment, destination_syntax_is_safe}
use ps5_localsend.SafePath.Laws.{to_first, components, components_some, not_equal}

-- A name that is no step within the tree.
abbrev pub IsEntry : Bytes → Type 0
IsEntry x = (x ≢ []) × (x ≢ codes ".") × (x ≢ codes "..")

name_of : (x : Bytes) → is_bad_segment x ≡ false → IsEntry x
name_of x h = (
  (λ e. absurd (let n = ap (λ (y : Bytes). length y) e in ground arith)),
  not_equal x (codes ".") (ground arith),
  not_equal x (codes "..") (ground arith),
)

-- The segment that was read so far begins the first name.
abbrev with_segment : Bytes → List Bytes → List Bytes
with_segment segment [] = segment ∷ []
with_segment segment (x ∷ xs) = (segment ++ x) ∷ xs

no_segment : (xs : List Bytes) → xs ≢ [] → with_segment [] xs ≡ xs
no_segment [] h = absurd (h refl)
no_segment (x ∷ xs) h = refl

with_segment_next :
    (segment : Bytes) (c : ℕ) (xs : List Bytes)
    → with_segment (segment ++ (c ∷ [])) xs ≡ with_segment segment (to_first c xs)
unfolding to_first
with_segment_next segment c [] = refl
with_segment_next segment c (x ∷ xs) = ap (λ y. y ∷ xs) (append_assoc segment (c ∷ []) x)

segments_are_names :
    (segment s : Bytes)
    → has_bad_segment segment s ≡ false
    → All IsEntry (with_segment segment (components s))
unfolding has_bad_segment components
segments_are_names segment [] h = (subst IsEntry (sym (append-nil segment)) (name_of segment h), tt)
segments_are_names segment (c ∷ s) h = elim (Bool-cases (c == b'/')) [
  | inl t ↦ simp t (
    subst IsEntry (sym (append-nil segment)) (name_of segment (ground arith)),
    subst (All IsEntry) (no_segment (components s) (components_some s))
        (segments_are_names [] s (ground arith)),
  )
  | inr f ↦ simp f (
      subst (All IsEntry) (with_segment_next segment c (components s))
        (segments_are_names (segment ++ (c ∷ [])) s (ground arith)))
]

safe_facts :
    (path : Bytes)
    → destination_syntax_is_safe path ≡ true
    → (get_or path 0 0 ≡ b'/') × (has_bad_segment [] (drop 1 path) ≡ false)
unfolding destination_syntax_is_safe
safe_facts path h = ground arith

rooted : (path : Bytes) → get_or path 0 0 ≡ b'/' → components path ≡ [] ∷ components (drop 1 path)
unfolding components
rooted [] h = absurd (omega (arith, h))
rooted (c ∷ path) h = let t : (c == b'/') ≡ true = ground arith in simp t refl

-- A destination that `destination_syntax_is_safe` accepts is an absolute path whose names, between
-- its slashes, are neither empty nor "." nor "..".
pub destination_syntax_is_safe-components :
    (path : Bytes)
    → destination_syntax_is_safe path ≡ true
    → (components path ≡ [] ∷ components (drop 1 path)) × All IsEntry (components (drop 1 path))
destination_syntax_is_safe-components path h =
    let (slash, good) = safe_facts path h in
    let rest = drop 1 path in
    (
      rooted path slash,
      subst (All IsEntry) (no_segment (components rest) (components_some rest))
          (segments_are_names [] rest good),
    )
