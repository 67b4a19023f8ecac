-- ===== src/SafePath/Unique.antt =====
-- src/safe_path.c: what `safe_path_unique_name` answers.
use ps5_localsend.Base.{
  ℕ, zero, suc, ◌+◌, ◌≤◌, min, ◌≡◌, refl, subst, ◌⊎◌, inl, inr, Bool, true, Option, none, some,
  ◌++◌, arith, Bytes, take,
}
use ps5_localsend.SafePath.Names.{
  full_bytes, safe_path_validate_filename, safe_path_join, stem_size, suffix_text, back_off,
  kept_bytes, extension, candidate, is_free, try_suffixes, safe_path_unique_name,
}
use ps5_localsend.Upload.Writer.{rounds}

-- A valid name whose path in the directory does not exist.
pub record Available (absent : Bytes → Bool) (directory name : Bytes) : Type 0 where
  pub valid : safe_path_validate_filename name ≡ true
  pub path : Bytes
  pub joined : safe_path_join directory name full_bytes ≡ some path
  pub free_path : absent path ≡ true

-- The requested name, or its beginning, a counter and its extension.
pub data From (requested out : Bytes) : Type 0 where
  unchanged : out ≡ requested → From requested out
  numbered :
      (keep suffix : ℕ)
      → keep ≤ stem_size requested
      → 1 ≤ suffix
      → suffix ≤ 9999
      → out ≡ take keep requested ++ (suffix_text suffix ++ extension requested)
      → From requested out

available :
    (absent : Bytes → Bool) (directory name : Bytes) (o : Option Bytes)
    → safe_path_join directory name full_bytes ≡ o
    → safe_path_validate_filename name ≡ true
    → is_free absent o ≡ true
    → Available absent directory name
available absent directory name none e v f = absurd (ground arith)
available absent directory name (some path) e v f = record {
  valid = v;
  path = path;
  joined = e;
  free_path = f;
}

pub back_off-le : (requested : Bytes) (stem keep : ℕ) → back_off requested stem keep ≤ keep
unfolding back_off
back_off-le requested stem zero = omega arith
back_off-le requested stem (suc keep) = let less = back_off-le requested stem keep in ground arith

pub kept_bytes-le : (requested : Bytes) (stem room : ℕ) → kept_bytes requested stem room ≤ stem
unfolding kept_bytes
kept_bytes-le requested stem room =
    let h = back_off-le requested stem (min room stem) in omega (arith, h)

try_facts :
    (absent : Bytes → Bool) (directory requested : Bytes) (rounds suffix : ℕ) (out : Bytes)
    → try_suffixes absent directory requested (suc rounds) suffix ≡ some out
    → ((safe_path_validate_filename (candidate requested suffix) ≡ true)
        × (is_free absent (safe_path_join directory (candidate requested suffix) full_bytes) ≡ true)
        × (candidate requested suffix ≡ out))
      ⊎ (try_suffixes absent directory requested rounds (suffix + 1) ≡ some out)
unfolding try_suffixes
try_facts absent directory requested rounds suffix out h = ground arith

candidate-From :
    (requested : Bytes) (suffix : ℕ)
    → 1 ≤ suffix
    → suffix ≤ 9999
    → From requested (candidate requested suffix)
unfolding candidate
candidate-From requested suffix l u =
    numbered (kept_bytes requested (stem_size requested) _) suffix
      (kept_bytes-le requested (stem_size requested) _) l u refl

try_suffixes-Available :
    (absent : Bytes → Bool) (directory requested : Bytes) (rounds suffix : ℕ) (out : Bytes)
    → try_suffixes absent directory requested rounds suffix ≡ some out
    → 1 ≤ suffix
    → suffix + rounds ≤ 10000
    → Available absent directory out × From requested out
unfolding try_suffixes
try_suffixes-Available absent directory requested zero suffix out h l u = absurd (cc)
try_suffixes-Available absent directory requested (suc rounds) suffix out h l u =
    elim (try_facts absent directory requested rounds suffix out h) [
      | inl (v, f, e) ↦
          subst (λ o. Available absent directory o × From requested o) e
            (
              available absent directory (candidate requested suffix) _ refl v f,
              candidate-From requested suffix l (omega arith),
            )
      | inr rest ↦
          try_suffixes-Available absent directory requested rounds (suffix + 1) out rest
            (omega arith) (omega arith)
    ]

unique_facts :
    (absent : Bytes → Bool) (directory requested out : Bytes)
    → safe_path_unique_name absent directory requested ≡ some out
    → ((safe_path_validate_filename requested ≡ true)
        × (is_free absent (safe_path_join directory requested full_bytes) ≡ true)
        × (requested ≡ out))
      ⊎ (try_suffixes absent directory requested 9999 1 ≡ some out)
unfolding safe_path_unique_name
unique_facts absent directory requested out h = ground arith

-- Whatever paths exist in the directory, a name that `safe_path_unique_name` returns is a valid
-- file name, its path in the directory fits the buffer and does not exist, and it is the requested
-- name or a beginning of its stem, then a counter from 1 to 9999 in brackets, then its extension.
pub safe_path_unique_name-Available :
    (absent : Bytes → Bool) (directory requested out : Bytes)
    → safe_path_unique_name absent directory requested ≡ some out
    → Available absent directory out × From requested out
safe_path_unique_name-Available absent directory requested out h =
    elim (unique_facts absent directory requested out h) [
      | inl (v, f, e) ↦
          subst (λ o. Available absent directory o × From requested o) e
            (available absent directory requested _ refl v f, unchanged refl)
      | inr rest ↦
          try_suffixes-Available absent directory requested 9999 1 out rest (omega arith)
            (omega arith)
    ]
