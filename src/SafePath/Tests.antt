-- ===== src/SafePath/Tests.antt =====
-- src/safe_path.c: the theorems at concrete inputs.
use ps5_localsend.Base.{
  ◌<◌, ◌≡◌, refl, ◌≢◌, Bool, true, false, not, some, [], ◌∷◌, ◌++◌, arith, Bytes, codes, equal,
  length,
}
use ps5_localsend.SafePath.Candidate.{candidate-validate}
use ps5_localsend.SafePath.Laws.{components, safe_path_join-components}
use ps5_localsend.SafePath.Names.{
  lead_byte, bad_code, next_byte, utf8_end, valid_utf8, is_forbidden, has_forbidden,
  safe_path_validate_filename, safe_path_join, last_dot, stem_of, stem_size, suffix_text, back_off,
  kept_bytes, candidate, try_suffixes, safe_path_unique_name,
}
use ps5_localsend.SafePath.Unique.{safe_path_unique_name-Available, Available, From}

abbrev requested_a : Bytes
requested_a = codes "a.txt"

-- Only the requested name exists.
abbrev absent_a : Bytes → Bool
absent_a path = not (equal path (codes "/data/a.txt"))

join_a : safe_path_join (codes "/data") requested_a 1400 ≡ some (codes "/data/a.txt")
unfolding safe_path_join safe_path_validate_filename valid_utf8 utf8_end next_byte lead_byte
    has_forbidden is_forbidden equal
join_a = refl

valid_a : safe_path_validate_filename requested_a ≡ true
unfolding safe_path_validate_filename valid_utf8 utf8_end next_byte lead_byte has_forbidden
    is_forbidden equal
valid_a = refl

utf8_test : (valid_utf8 (195 ∷ 164 ∷ []) ≡ true) × (valid_utf8 (237 ∷ 160 ∷ 128 ∷ []) ≡ false)
unfolding valid_utf8 utf8_end next_byte lead_byte bad_code
utf8_test = (refl, refl)

safe_path_join-components_example :
    (components (codes "/data/a.txt") ≡ components (codes "/data") ++ (requested_a ∷ []))
    × (requested_a ≢ [])
    × (requested_a ≢ codes ".")
    × (requested_a ≢ codes "..")
    × (length (codes "/data/a.txt") < 1400)
safe_path_join-components_example =
    safe_path_join-components (codes "/data") requested_a (codes "/data/a.txt") 1400 join_a

candidate-validate_example : safe_path_validate_filename (candidate requested_a 1) ≡ true
unfolding suffix_text stem_size last_dot stem_of
candidate-validate_example = candidate-validate requested_a 1 valid_a (omega arith) (omega arith)

safe_path_unique_name-Available_example :
    Available absent_a (codes "/data") (codes "a (1).txt") × From requested_a (codes "a (1).txt")
unfolding safe_path_unique_name try_suffixes candidate kept_bytes back_off suffix_text stem_size
    last_dot stem_of safe_path_join safe_path_validate_filename valid_utf8 utf8_end next_byte
    lead_byte has_forbidden is_forbidden equal
safe_path_unique_name-Available_example =
    safe_path_unique_name-Available absent_a (codes "/data") requested_a (codes "a (1).txt") refl
