-- ===== src/Auth/JsonAccepts.antt =====
-- src/auth.c: the body that the web page sends is accepted.
use ps5_localsend.Auth.Json.{
  literal_loop, parse_literal_string, store_pair, after_value, read_pair, read_item, read_items,
  no_fields, all_read, finish_parse, auth_parse_verify_json, VerifyFields, closed, more, stopped,
  parsed,
}
use ps5_localsend.Auth.State.{challenge_id_hex_bytes, pin_digits}
use ps5_localsend.Base.{
  ℕ, suc, ◌+◌, ◌<◌, ◌≡◌, refl, ap, ◌∙◌, Bool, true, false, not, ◌&&◌, some, [], ◌∷◌, ◌++◌,
  append-nil, append_assoc, arith, leb, ◌==◌, Bytes, codes, equal, is_digit, skip_space, expect,
  length, all, length-append,
}

abbrev pub is_plain : ℕ → Bool
is_plain c = leb 0x20 c && not (c == b'\\') && not (c == b'"')

literal_loop_plain :
    (size : ℕ) (output v rest : Bytes)
    → all is_plain v ≡ true
    → length output + length v < size
    → literal_loop size output (v ++ (b'"' ∷ rest)) ≡ some (output ++ v, rest)
unfolding literal_loop all
literal_loop_plain size output [] rest h lt = rw append-nil
literal_loop_plain size output (c ∷ v) rest h lt =
    let ih = literal_loop_plain size (output ++ (c ∷ [])) v rest in
    let grown = length-append output (c ∷ []) in
    let joined = append_assoc output (c ∷ []) v in ground (arith, ih, grown, joined)

-- `{"challengeId":"…","pin":"…"}`
abbrev pub verify_body : Bytes → Bytes → Bytes
verify_body id pin =
    codes "{\"challengeId\":\"" ++ (id ++ (codes "\",\"pin\":\"" ++ (pin ++ codes "\"}")))

store_id :
    (id : Bytes)
    → length id ≡ challenge_id_hex_bytes
    → store_pair (codes "challengeId") id no_fields
      ≡ some (record no_fields { challenge_id = id; seen_id = true })
unfolding store_pair equal
store_id id h = ground arith

store_pin :
    (f : VerifyFields) (pin : Bytes)
    → length pin ≡ pin_digits
    → all is_digit pin ≡ true
    → f.seen_pin ≡ false
    → store_pair (codes "pin") pin f ≡ some (record f { pin = pin; seen_pin = true })
unfolding store_pair equal
store_pin f pin h d s = ground arith

id_pair :
    (id rest : Bytes)
    → all is_plain id ≡ true
    → length id ≡ challenge_id_hex_bytes
    → read_pair (codes "\"challengeId\":\"" ++ (id ++ (b'"' ∷ b',' ∷ b'"' ∷ rest))) no_fields
      ≡ some (more (b'"' ∷ rest) (record no_fields { challenge_id = id; seen_id = true }))
unfolding read_pair parse_literal_string literal_loop expect skip_space after_value
id_pair id rest h l =
    simp (literal_loop_plain 33 [] id (b',' ∷ b'"' ∷ rest) h (omega arith), store_id id l) refl

pin_pair :
    (f : VerifyFields) (pin : Bytes)
    → all is_plain pin ≡ true
    → length pin ≡ pin_digits
    → all is_digit pin ≡ true
    → f.seen_pin ≡ false
    → read_pair (codes "\"pin\":\"" ++ (pin ++ (b'"' ∷ b'}' ∷ []))) f
      ≡ some (closed [] (record f { pin = pin; seen_pin = true }))
unfolding read_pair parse_literal_string literal_loop expect skip_space after_value
pin_pair f pin h l d s =
    simp (literal_loop_plain 33 [] pin (b'}' ∷ []) h (omega arith), store_pin f pin l d s) refl

digits_plain : (pin : Bytes) → all is_digit pin ≡ true → all is_plain pin ≡ true
unfolding all
digits_plain [] h = refl
digits_plain (c ∷ cs) h = ground (arith, digits_plain cs)

read_items_more :
    (n : ℕ) (s : Bytes) (f : VerifyFields) (rest : Bytes) (f' : VerifyFields)
    → read_item (skip_space s) f ≡ some (more rest f')
    → read_items (suc n) s f ≡ read_items n rest f'
unfolding read_items
read_items_more n s f rest f' e = rw (e, read_items)

read_items_closed :
    (n : ℕ) (s : Bytes) (f : VerifyFields) (rest : Bytes) (f' : VerifyFields)
    → read_item (skip_space s) f ≡ some (closed rest f')
    → read_items (suc n) s f ≡ stopped (some (rest, f'))
unfolding read_items
read_items_closed n s f rest f' e = rw (e, read_items)

both_pairs :
    (id pin : Bytes)
    → all is_plain id ≡ true
    → length id ≡ challenge_id_hex_bytes
    → length pin ≡ pin_digits
    → all is_digit pin ≡ true
    → read_items 3
        (codes "\"challengeId\":\"" ++ (id ++ (codes "\",\"pin\":\"" ++ (pin ++ codes "\"}"))))
        no_fields
      ≡ stopped
          (some ([], record { challenge_id = id; pin = pin; seen_id = true; seen_pin = true }))
unfolding skip_space read_item
both_pairs id pin plain li lp d =
    read_items_more 2 _ no_fields (codes "\"pin\":\"" ++ (pin ++ codes "\"}")) _
      (id_pair id (codes "pin\":\"" ++ (pin ++ codes "\"}")) plain li)
    ∙ read_items_closed 1 _ (record no_fields { challenge_id = id; seen_id = true }) [] _
        (pin_pair (record no_fields { challenge_id = id; seen_id = true }) pin (digits_plain pin d)
          lp d refl)

-- `auth_parse_verify_json` reads back the body `{"challengeId":"…","pin":"…"}` for every id of 32
-- plain bytes (no control byte, quote or backslash) and every PIN of six decimal digits.
pub auth_parse_verify_json-verify_body :
    (id pin : Bytes)
    → all is_plain id ≡ true
    → length id ≡ challenge_id_hex_bytes
    → length pin ≡ pin_digits
    → all is_digit pin ≡ true
    → auth_parse_verify_json (verify_body id pin) ≡ parsed (some (id, pin))
unfolding auth_parse_verify_json expect skip_space all_read
auth_parse_verify_json-verify_body id pin plain li lp d =
    ap finish_parse (both_pairs id pin plain li lp d)
