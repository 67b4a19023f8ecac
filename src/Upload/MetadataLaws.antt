-- ===== src/Upload/MetadataLaws.antt =====
-- src/upload.c: what `parse_metadata` accepts, and that its loop ends.
use ps5_localsend.Base.{
  ℕ, ◌+◌, ◌-◌, ◌*◌, ◌/◌, ◌^◌, ◌<◌, ◌≡◌, subst, ◌⊎◌, inl, inr, true, false, not, none, some, [], ◌∷◌,
  arith, ltb, if◌then◌else◌, Bool-cases, Bytes, is_digit, ◌>>=◌, >>=-eq-some,
}
use ps5_localsend.Upload.Metadata.{
  hash_bytes, json_string, u64_loop, u64_of, json_u64, hash_is_valid, store_name, store_size,
  store_type, store_hash, read_value, Fields,
}

abbrev pub entry_count : Fields → ℕ
entry_count f =
    (if f.seen_name then 1 else 0)
    + (if f.seen_size then 1 else 0)
    + (if f.seen_type then 1 else 0)
    + (if f.seen_hash then 1 else 0)

-- What is stored fits the size and the form of its buffer.
pub record InForm (f : Fields) : Type 0 where
  pub size_in : f.size < 2 ^ 64
  pub hash_in : (f.hash ≡ []) ⊎ (hash_is_valid f.hash ≡ true)

pub record Stored (f f' : Fields) : Type 0 where
  pub counted : entry_count f' ≡ entry_count f + 1
  pub kept : InForm f → InForm f'

u64_loop-bound :
    (number count : ℕ) (s : Bytes) (n k : ℕ) (rest : Bytes)
    → number < 2 ^ 64
    → u64_loop number count s ≡ some (n, k, rest)
    → n < 2 ^ 64
unfolding u64_loop
u64_loop-bound number count [] n k rest lt h = ground arith
u64_loop-bound number count (c ∷ cs) n k rest lt h =
    go (Bool-cases (is_digit c)) (Bool-cases (ltb ((2 ^ 64 - 1 - (c - b'0')) / 10) number)) h
      (u64_loop-bound (number * 10 + (c - b'0')) (count + 1) cs n k rest)
  where
    go :
        (is_digit c ≡ true) ⊎ (is_digit c ≡ false)
        → (ltb ((2 ^ 64 - 1 - (c - b'0')) / 10) number ≡ true)
          ⊎ (ltb ((2 ^ 64 - 1 - (c - b'0')) / 10) number ≡ false)
        → (if not (is_digit c)
            then some (number, count, c ∷ cs)
            else if ltb ((2 ^ 64 - 1 - (c - b'0')) / 10) number
            then none
            else u64_loop (number * 10 + (c - b'0')) (count + 1) cs)
          ≡ some (n, k, rest)
        → (number * 10 + (c - b'0') < 2 ^ 64
            → u64_loop (number * 10 + (c - b'0')) (count + 1) cs ≡ some (n, k, rest)
            → n < 2 ^ 64)
        → n < 2 ^ 64
    go (inr f) o e ih = ground arith
    go (inl t) (inl over) e ih = absurd (ground arith)
    go (inl t) (inr fits) e ih = ih (ground arith) (ground arith)

u64_of-number :
    (s : Bytes) (t : ℕ × ℕ × Bytes) (n : ℕ) (rest : Bytes) → u64_of s t ≡ some (n, rest) → t.0 ≡ n
unfolding u64_of
u64_of-number s (a, b, c) n rest h = ground arith

json_u64-bound : (s : Bytes) (n : ℕ) (rest : Bytes) → json_u64 s ≡ some (n, rest) → n < 2 ^ 64
unfolding json_u64
json_u64-bound s n rest h =
    let (t, e, k) = >>=-eq-some (u64_loop 0 0 s) _ h in
    omega (arith, u64_loop-bound 0 0 s t.0 t.1 t.2 (omega arith) e, u64_of-number s t n rest k)

-- The key that was read, and its value.
read_value_cases :
    (key s : Bytes) (f : Fields) (r : Fields × Bytes)
    → read_value key s f ≡ some r
    → ((f.seen_name ≡ false) × ((json_string 256 s >>= store_name f) ≡ some r))
      ⊎ ((f.seen_size ≡ false) × ((json_u64 s >>= store_size f) ≡ some r))
      ⊎ ((f.seen_type ≡ false) × ((json_string 128 s >>= store_type f) ≡ some r))
      ⊎ ((f.seen_hash ≡ false) × ((json_string (hash_bytes + 1) s >>= store_hash f) ≡ some r))
unfolding read_value
read_value_cases key s f r h = ground arith

some_first : (f : Fields) (b : Bytes) (r : Fields × Bytes) → some (f, b) ≡ some r → f ≡ r.0
some_first f b r h = ground arith

store_name-Stored :
    (f : Fields) (v : Bytes × Bytes) (r : Fields × Bytes)
    → f.seen_name ≡ false
    → store_name f v ≡ some r
    → Stored f r.0
unfolding store_name
store_name-Stored f v r u h =
    subst (λ (x : Fields). Stored f x) (some_first _ _ r h)
      (record {
        counted = simp u (omega arith);
        kept = λ k. record { size_in = k.size_in; hash_in = k.hash_in };
      })

store_size-Stored :
    (f : Fields) (v : ℕ × Bytes) (r : Fields × Bytes)
    → f.seen_size ≡ false
    → v.0 < 2 ^ 64
    → store_size f v ≡ some r
    → Stored f r.0
unfolding store_size
store_size-Stored f v r u lt h =
    subst (λ (x : Fields). Stored f x) (some_first _ _ r h)
      (record {
        counted = simp u (omega arith);
        kept = λ k. record { size_in = lt; hash_in = k.hash_in };
      })

store_type-Stored :
    (f : Fields) (v : Bytes × Bytes) (r : Fields × Bytes)
    → f.seen_type ≡ false
    → store_type f v ≡ some r
    → Stored f r.0
unfolding store_type
store_type-Stored f v r u h =
    subst (λ (x : Fields). Stored f x) (some_first _ _ r h)
      (record {
        counted = simp u (omega arith);
        kept = λ k. record { size_in = k.size_in; hash_in = k.hash_in };
      })

store_hash-Stored :
    (f : Fields) (v : Bytes × Bytes) (r : Fields × Bytes)
    → f.seen_hash ≡ false
    → store_hash f v ≡ some r
    → Stored f r.0
unfolding store_hash
store_hash-Stored f v r u h = elim (Bool-cases (hash_is_valid v.0)) [
  | inr bad ↦ absurd (ground arith)
  | inl good ↦
      subst (λ (x : Fields). Stored f x)
        (some_first (record f { hash = v.0; seen_hash = true }) v.1 r (ground arith))
        (record {
          counted = simp u (omega arith);
          kept = λ k. record { size_in = k.size_in; hash_in = inr good };
        })
]

pub read_value-Stored :
    (key s : Bytes) (f : Fields) (r : Fields × Bytes) → read_value key s f ≡ some r → Stored f r.0
read_value-Stored key s f r h = elim (read_value_cases key s f r h) [
  | inl (u, e) ↦ let (v, _, k) = >>=-eq-some (json_string 256 s) _ e in store_name-Stored f v r u k
  | inr (inl (u, e)) ↦
      let (v, read_is, k) = >>=-eq-some (json_u64 s) _ e in
      store_size-Stored f v r u (json_u64-bound s v.0 v.1 read_is) k
  | inr (inr (inl (u, e))) ↦
      let (v, _, k) = >>=-eq-some (json_string 128 s) _ e in store_type-Stored f v r u k
  | inr (inr (inr (u, e))) ↦
      let (v, _, k) = >>=-eq-some (json_string (hash_bytes + 1) s) _ e in
      store_hash-Stored f v r u k
]
