-- ===== src/Auth/JsonLaws.antt =====
-- src/auth.c: what `auth_parse_verify_json` accepts, and that its loop ends.
use ps5_localsend.Auth.Json.{
  parse_literal_string, store_pair, after_comma, after_value, read_pair, read_item, read_items,
  no_fields, all_read, finish_parse, parse_object, auth_parse_verify_json, VerifyFields, Item, Loop,
  Parsed, closed, more, unfinished, stopped, running, parsed,
}
use ps5_localsend.Auth.State.{challenge_id_hex_bytes, pin_digits}
use ps5_localsend.Base.{
  ℕ, zero, suc, ◌+◌, ◌<◌, ◌≡◌, refl, sym, subst, ◌⊎◌, inl, inr, true, ◌&&◌, Option, none, some, [],
  ◌∷◌, arith, ◌==◌, if◌then◌else◌, Bool-cases, Bytes, is_digit, skip_space, >>=-eq-some, expect,
  length, all,
}

abbrev seen_count : VerifyFields → ℕ
seen_count f = (if f.seen_id then 1 else 0) + (if f.seen_pin then 1 else 0)

-- What is stored is well formed.
record FieldsOk (f : VerifyFields) : Type 0 where
  id_ok : f.seen_id ≡ true → length f.challenge_id ≡ challenge_id_hex_bytes
  pin_ok : f.seen_pin ≡ true → (length f.pin ≡ pin_digits) × (all is_digit f.pin ≡ true)

record Stored (f f' : VerifyFields) : Type 0 where
  counted : seen_count f' ≡ seen_count f + 1
  kept : FieldsOk f → FieldsOk f'

store_pair-Stored :
    (key value : Bytes) (f f' : VerifyFields) → store_pair key value f ≡ some f' → Stored f f'
store_pair-Stored key value f f' h = record {
  counted = unfold store_pair in ground arith;
  kept = λ fine. record {
    id_ok = unfold store_pair in ground arith;
    pin_ok = unfold store_pair in ground arith;
  };
}

abbrev item_fields : Item → VerifyFields
item_fields (closed rest f) = f
item_fields (more rest f) = f

after_comma-fields :
    (s : Bytes) (f : VerifyFields) (i : Item) → after_comma s f ≡ some i → item_fields i ≡ f
unfolding after_comma
after_comma-fields [] f i h = absurd (cc)
after_comma-fields (c ∷ cs) f (closed rest f') h = ground arith
after_comma-fields (c ∷ cs) f (more rest f') h = ground arith

after_value-fields :
    (s : Bytes) (f : VerifyFields) (i : Item) → after_value s f ≡ some i → item_fields i ≡ f
unfolding after_value
after_value-fields [] f i = λ h. absurd (cc)
after_value-fields (c ∷ cs) f i = elim (Bool-cases (c == b',')) [
  | inl comma ↦ rw comma (after_comma-fields (skip_space cs) f i)
  | inr other ↦ rw other (brace i)
]
  where
    brace :
        (i : Item) → (if c == b'}' then some (closed cs f) else none) ≡ some i → item_fields i ≡ f
    brace (closed rest f') h = ground arith
    brace (more rest f') h = ground arith

read_pair-Stored :
    (s : Bytes) (f : VerifyFields) (i : Item) → read_pair s f ≡ some i → Stored f (item_fields i)
unfolding read_pair
read_pair-Stored s f i h =
    let (k, e₁, h₁) = >>=-eq-some (parse_literal_string 16 s) _ h in
    let (s₂, e₂, h₂) = >>=-eq-some (expect b':' (skip_space k.1)) _ h₁ in
    let (v, e₃, h₃) =
      >>=-eq-some (parse_literal_string (challenge_id_hex_bytes + 1) (skip_space s₂)) _ h₂ in
    let (f', e₄, h₄) = >>=-eq-some (store_pair k.0 v.0 f) _ h₃ in
    subst (Stored f) (sym (after_value-fields (skip_space v.1) f' i h₄))
      (store_pair-Stored k.0 v.0 f f' e₄)

-- A round that closes the object keeps the fields or stores one more; a round that goes on stores
-- one more.
abbrev Round : VerifyFields → Item → Type 0
Round f (closed rest f') = (f' ≡ f) ⊎ Stored f f'
Round f (more rest f') = Stored f f'

pair-Round : (f : VerifyFields) (i : Item) → Stored f (item_fields i) → Round f i
pair-Round f (closed rest f') h = inr h
pair-Round f (more rest f') h = h

read_item-Round : (s : Bytes) (f : VerifyFields) (i : Item) → read_item s f ≡ some i → Round f i
unfolding read_item
read_item-Round [] f i = λ h. pair-Round f i (read_pair-Stored [] f i h)
read_item-Round (c ∷ cs) f i = elim (Bool-cases (c == b'}')) [
  | inl brace ↦ rw brace (stop i)
  | inr other ↦ rw other (λ h. pair-Round f i (read_pair-Stored (c ∷ cs) f i h))
]
  where
    stop : (i : Item) → some (closed cs f) ≡ some i → Round f i
    stop (closed rest f') h = inl (ground arith)
    stop (more rest f') h = absurd (cc)

-- A result of the loop is well formed.
abbrev Fine : Loop → Type 0
Fine unfinished = ⊥
Fine (stopped none) = Unit
Fine (stopped (some (rest, f))) = FieldsOk f

read_items-Fine :
    (fuel : ℕ) (s : Bytes) (f : VerifyFields)
    → 2 < fuel + seen_count f
    → FieldsOk f
    → Fine (read_items fuel s f)
unfolding read_items
read_items-Fine zero s f lt fine = absurd (ground arith)
read_items-Fine (suc fuel) s f lt fine =
    go (read_item (skip_space s) f) (λ i h. read_item-Round (skip_space s) f i h)
      (λ r f' h. read_items-Fine fuel r f' (omega (arith, h.counted)) (h.kept fine))
  where
    go :
        (o : Option Item)
        → ((i : Item) → o ≡ some i → Round f i)
        → ((r : Bytes) (f' : VerifyFields) → Stored f f' → Fine (read_items fuel r f'))
        → Fine (elim o [
          | none ↦ stopped none
          | some (closed rest f') ↦ stopped (some (rest, f'))
          | some (more rest f') ↦ read_items fuel rest f'
        ])
    go none round rec = tt
    go (some (closed rest f')) round rec = elim (round (closed rest f') refl) [
      | inl e ↦ subst FieldsOk (sym e) fine
      | inr h ↦ h.kept fine
    ]
    go (some (more rest f')) round rec = rec rest f' (round (more rest f') refl)

-- The loop has ended, and what it accepts is a whole id and six decimal digits.
abbrev pub ParsedFine : Parsed → Type 0
ParsedFine running = ⊥
ParsedFine (parsed none) = Unit
ParsedFine (parsed (some (id, pin))) =
    (length id ≡ challenge_id_hex_bytes) × (length pin ≡ pin_digits) × (all is_digit pin ≡ true)

all_read-Fine : (s : Bytes) (f : VerifyFields) → FieldsOk f → ParsedFine (parsed (all_read s f))
unfolding all_read
all_read-Fine [] f fine = elim (Bool-cases (f.seen_id && f.seen_pin)) [
  | inr missing ↦ simp missing tt
  | inl both ↦
      let b : (f.seen_id ≡ true) × (f.seen_pin ≡ true) = ground arith in
      simp both (fine.id_ok b.0, (fine.pin_ok b.1).0, (fine.pin_ok b.1).1)
]
all_read-Fine (c ∷ cs) f fine = tt

finish_parse-Fine : (l : Loop) → Fine l → ParsedFine (finish_parse l)
unfolding finish_parse
finish_parse-Fine unfinished h = h
finish_parse-Fine (stopped none) h = tt
finish_parse-Fine (stopped (some (rest, f))) h = all_read-Fine (skip_space rest) f h

parse_object-Fine : (o : Option Bytes) → ParsedFine (parse_object o)
unfolding parse_object
parse_object-Fine none = tt
parse_object-Fine (some s) = finish_parse-Fine (read_items 3 s no_fields) (
    read_items-Fine 3 s no_fields (omega arith)
      (record { id_ok = λ h. cc; pin_ok = λ h. absurd (cc) }))

-- On every body `auth_parse_verify_json` ends, within three rounds of its loop, and whatever it
-- accepts is a challenge id of 32 bytes and a PIN of six decimal digits.
pub auth_parse_verify_json-Fine : (body : Bytes) → ParsedFine (auth_parse_verify_json body)
unfolding auth_parse_verify_json
auth_parse_verify_json-Fine body = parse_object-Fine (expect b'{' (skip_space body))
