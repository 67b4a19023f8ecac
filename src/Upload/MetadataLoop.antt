-- ===== src/Upload/MetadataLoop.antt =====
-- src/upload.c: the loop of `parse_metadata` ends, and what it accepts is in form.
use ps5_localsend.Base.{
  ℕ, zero, suc, ◌+◌, ◌^◌, ◌<◌, ◌≡◌, refl, sym, subst, ◌⊎◌, inl, inr, true, false, not, ◌&&◌, Option,
  none, some, [], ◌∷◌, arith, ◌==◌, if◌then◌else◌, Bool-cases, Bytes, skip_space, >>=-eq-some,
  expect, length,
}
use ps5_localsend.SafePath.Names.{safe_path_validate_filename}
use ps5_localsend.Upload.Metadata.{
  json_string, hash_is_valid, read_value, after_separator, after_entry, read_entry, read_or_close,
  read_entries, managed_part_name, metadata_of, no_fields_yet, finish_entries, read_object,
  parse_metadata, Fields, Entry, Entries, Read, last_entry, next_entry, entries_unfinished,
  entries_ended, reading, read,
}
use ps5_localsend.Upload.MetadataLaws.{entry_count, read_value-Stored, InForm, Stored}
use ps5_localsend.Upload.Ops.{Metadata}

abbrev entry_fields : Entry → Fields
entry_fields (last_entry rest f) = f
entry_fields (next_entry rest f) = f

after_separator-fields :
    (s : Bytes) (f : Fields) (i : Entry) → after_separator s f ≡ some i → entry_fields i ≡ f
unfolding after_separator
after_separator-fields [] f i h = absurd (cc)
after_separator-fields (c ∷ cs) f (last_entry rest f') h = ground arith
after_separator-fields (c ∷ cs) f (next_entry rest f') h = ground arith

after_entry-fields :
    (s : Bytes) (f : Fields) (i : Entry) → after_entry s f ≡ some i → entry_fields i ≡ f
unfolding after_entry
after_entry-fields [] f i = λ h. absurd (cc)
after_entry-fields (c ∷ cs) f i = elim (Bool-cases (c == b',')) [
  | inl comma ↦ rw comma (after_separator-fields (skip_space cs) f i)
  | inr other ↦ rw other (brace i)
]
  where
    brace :
        (i : Entry)
        → (if c == b'}' then some (last_entry cs f) else none) ≡ some i
        → entry_fields i ≡ f
    brace (last_entry rest f') h = ground arith
    brace (next_entry rest f') h = ground arith

read_entry-Stored :
    (s : Bytes) (f : Fields) (i : Entry) → read_entry s f ≡ some i → Stored f (entry_fields i)
unfolding read_entry
read_entry-Stored s f i h =
    let (k, e₁, h₁) = >>=-eq-some (json_string 16 s) _ h in
    let (s₂, e₂, h₂) = >>=-eq-some (expect b':' (skip_space k.1)) _ h₁ in
    let (v, e₃, h₃) = >>=-eq-some (read_value k.0 (skip_space s₂) f) _ h₂ in
    subst (Stored f) (sym (after_entry-fields (skip_space v.1) v.0 i h₃))
      (read_value-Stored k.0 (skip_space s₂) f v e₃)

-- A round that closes the object keeps the fields or stores one more; a round that goes on stores
-- one more.
abbrev Progress : Fields → Entry → Type 0
Progress f (last_entry rest f') = (f' ≡ f) ⊎ Stored f f'
Progress f (next_entry rest f') = Stored f f'

entry-Progress : (f : Fields) (i : Entry) → Stored f (entry_fields i) → Progress f i
entry-Progress f (last_entry rest f') h = inr h
entry-Progress f (next_entry rest f') h = h

read_or_close-Progress :
    (s : Bytes) (f : Fields) (i : Entry) → read_or_close s f ≡ some i → Progress f i
unfolding read_or_close
read_or_close-Progress [] f i = λ h. entry-Progress f i (read_entry-Stored [] f i h)
read_or_close-Progress (c ∷ cs) f i = elim (Bool-cases (c == b'}')) [
  | inl brace ↦ rw brace (stop i)
  | inr other ↦ rw other (λ h. entry-Progress f i (read_entry-Stored (c ∷ cs) f i h))
]
  where
    stop : (i : Entry) → some (last_entry cs f) ≡ some i → Progress f i
    stop (last_entry rest f') h = inl (ground arith)
    stop (next_entry rest f') h = absurd (cc)

-- The loop has ended, and what it read is in form.
abbrev Ended : Entries → Type 0
Ended entries_unfinished = ⊥
Ended (entries_ended none) = Unit
Ended (entries_ended (some (rest, f))) = InForm f

read_entries-Ended :
    (fuel : ℕ) (s : Bytes) (f : Fields)
    → 4 < fuel + entry_count f
    → InForm f
    → Ended (read_entries fuel s f)
unfolding read_entries
read_entries-Ended zero s f lt k = absurd (ground arith)
read_entries-Ended (suc fuel) s f lt k =
    go (read_or_close (skip_space s) f) (λ i h. read_or_close-Progress (skip_space s) f i h)
      (λ r f' h. read_entries-Ended fuel r f' (omega (arith, h.counted)) (h.kept k))
  where
    go :
        (o : Option Entry)
        → ((i : Entry) → o ≡ some i → Progress f i)
        → ((r : Bytes) (f' : Fields) → Stored f f' → Ended (read_entries fuel r f'))
        → Ended (elim o [
          | none ↦ entries_ended none
          | some (last_entry rest f') ↦ entries_ended (some (rest, f'))
          | some (next_entry rest f') ↦ read_entries fuel rest f'
        ])
    go none progress rec = tt
    go (some (last_entry rest f')) progress rec = elim (progress (last_entry rest f') refl) [
      | inl e ↦ subst InForm (sym e) k
      | inr h ↦ h.kept k
    ]
    go (some (next_entry rest f')) progress rec = rec rest f' (progress (next_entry rest f') refl)

-- What an accepted body announces.
pub record MetadataOk (meta : Metadata) : Type 0 where
  pub name_valid : safe_path_validate_filename meta.name ≡ true
  pub not_managed : managed_part_name meta.name ≡ false
  pub size_in : meta.size < 2 ^ 64
  pub hash_in : (meta.hash ≡ []) ⊎ (hash_is_valid meta.hash ≡ true)

abbrev pub ReadOk : Read → Type 0
ReadOk reading = ⊥
ReadOk (read none) = Unit
ReadOk (read (some meta)) = MetadataOk meta

metadata_of-ReadOk : (rest : Bytes) (f : Fields) → InForm f → ReadOk (read (metadata_of rest f))
unfolding metadata_of
metadata_of-ReadOk rest f k =
    elim (Bool-cases (
      length rest == 0
      && (f.seen_name && f.seen_size && f.seen_type)
      && safe_path_validate_filename f.name
      && not (managed_part_name f.name)
      && not (length f.type == 0))) [
        | inr h_bad ↦ simp h_bad tt
        | inl h_good ↦ simp h_good (record {
          name_valid = ground arith;
          not_managed = ground arith;
          size_in = k.size_in;
          hash_in = k.hash_in;
        })
      ]

finish_entries-ReadOk : (l : Entries) → Ended l → ReadOk (finish_entries l)
unfolding finish_entries
finish_entries-ReadOk entries_unfinished h = h
finish_entries-ReadOk (entries_ended none) h = tt
finish_entries-ReadOk (entries_ended (some (rest, f))) h = metadata_of-ReadOk (skip_space rest) f h

read_object-ReadOk : (o : Option Bytes) → ReadOk (read_object o)
unfolding read_object
read_object-ReadOk none = tt
read_object-ReadOk (some s) = finish_entries-ReadOk (read_entries 5 s no_fields_yet) (
    read_entries-Ended 5 s no_fields_yet (omega arith)
      (record { size_in = omega arith; hash_in = inl refl }))

-- On every body `parse_metadata` ends, within five rounds of its loop, and what it accepts
-- announces a valid file name that is not the name of a part file, a size below 2^64, and no hash or one
-- of 64 lower-case hexadecimal digits.
pub parse_metadata-ReadOk : (json : Bytes) → ReadOk (parse_metadata json)
unfolding parse_metadata
parse_metadata-ReadOk json = read_object-ReadOk (expect b'{' (skip_space json))
