-- ===== src/Auth/Tests.antt =====
-- src/auth.c: the theorems at concrete inputs.
use ps5_localsend.Auth.Bearer.{bearer, validate-verify, verify-verify}
use ps5_localsend.Auth.Compare.{constant_time_equal_iff}
use ps5_localsend.Auth.Find.{find-Holds}
use ps5_localsend.Auth.Invariant.{IsValid}
use ps5_localsend.Auth.Issued.{verify-create}
use ps5_localsend.Auth.Json.{auth_parse_verify_json, parsed}
use ps5_localsend.Auth.JsonAccepts.{verify_body, auth_parse_verify_json-verify_body}
use ps5_localsend.Auth.JsonLaws.{ParsedFine, auth_parse_verify_json-Fine}
use ps5_localsend.Auth.Lifecycle.{Opens}
use ps5_localsend.Auth.Limits.{verify_all-IsValid, five_wrong_pins, lock_lifted}
use ps5_localsend.Auth.Lockout.{verify_all, last_time, IsWrong, IsOpen}
use ps5_localsend.Auth.Ops.{
  held_by, scan, create_in, create_locked, create_with, auth_create_challenge_at, find_challenge,
  open_session, verify_slot, verify_found, verify_locked, auth_verify_challenge_at,
  auth_validate_bearer_at, ChallengeResult,
}
use ps5_localsend.Auth.Preserve.{create_locked-IsValid}
use ps5_localsend.Auth.Run.{run, run-IsValid, create}
use ps5_localsend.Auth.Secrets.{hex_digit, bytes_to_hex, generate_hex, generate_pin}
use ps5_localsend.Auth.State.{
  cleared_challenge, cleared_session, differences, constant_time_equal, valid_client_address,
  cleanup_challenge, cleanup_session, cleanup_expired, auth_manager_create, Challenge, AuthManager,
  ok, expired, used_up, rate_limited,
}
use ps5_localsend.Base.{
  ℕ, ◌+◌, ◌<◌, ◌≡◌, refl, sym, ap, subst, ◌↔◌, true, false, none, some, List, [], ◌∷◌, arith, Bytes,
  codes, equal, get_or, replicate, all,
}

abbrev client_a : Bytes
client_a = codes "10.0.0.2"

abbrev id_a : Bytes
id_a = replicate 32 b'a'

abbrev pin_a : Bytes
pin_a = codes "123456"

abbrev pin_b : Bytes
pin_b = codes "000000"

abbrev token_bytes_a : Bytes
token_bytes_a = replicate 32 0

abbrev token_a : Bytes
token_a = replicate 64 b'0'

abbrev blank : AuthManager
blank = record {
  pin_ttl_seconds = 20;
  session_ttl_seconds = 7200;
  challenges = replicate 8 cleared_challenge;
  sessions = replicate 4 cleared_session;
}

abbrev challenge_a : ℕ → ℕ → Challenge
challenge_a attempts until = record {
  occupied = true;
  used = false;
  attempts = attempts;
  expires_at = 120;
  rate_limited_until = until;
  client_address = client_a;
  challenge_id = id_a;
  pin = pin_a;
}

-- A challenge that was granted at time 100.
abbrev granted : AuthManager
granted = record blank { challenges = challenge_a 0 0 ∷ replicate 7 cleared_challenge }

blank_is : IsValid blank
unfolding run auth_manager_create
blank_is = run-IsValid 20 7200 true true blank [] refl tt

granted_is : IsValid granted
unfolding create_locked cleanup_expired cleanup_challenge cleanup_session scan held_by create_in
granted_is =
    subst IsValid {x = (create_locked blank client_a 100 id_a pin_a).1} refl
      (create_locked-IsValid blank client_a 100 id_a pin_a refl blank_is)

constant_time_equal_iff_example : (constant_time_equal pin_a pin_b 6 ≡ true) ↔ (pin_a ≡ pin_b)
constant_time_equal_iff_example = constant_time_equal_iff pin_a pin_b 6 refl refl

run-IsValid_example :
    IsValid (run blank (create (some client_a) 100 (some (replicate 16 170)) (some 5 ∷ []) ∷ []))
unfolding auth_manager_create
run-IsValid_example =
    run-IsValid 20 7200 true true blank
      (create (some client_a) 100 (some (replicate 16 170)) (some 5 ∷ []) ∷ []) refl (refl, tt)

auth_parse_verify_json-Fine_example : ParsedFine (auth_parse_verify_json (verify_body id_a pin_a))
auth_parse_verify_json-Fine_example = auth_parse_verify_json-Fine (verify_body id_a pin_a)

auth_parse_verify_json-verify_body_example :
    auth_parse_verify_json (verify_body id_a pin_a) ≡ parsed (some (id_a, pin_a))
unfolding all
auth_parse_verify_json-verify_body_example =
    auth_parse_verify_json-verify_body id_a pin_a refl refl refl refl

-- The id of sixteen bytes 170, and the PIN 000005.
abbrev issued_a : ChallengeResult
issued_a = record {
  challenge_id = replicate 32 b'a';
  pin = codes "000005";
  expires_in_seconds = 20;
}

abbrev issued_to : AuthManager
issued_to = (create_locked blank client_a 100 id_a (codes "000005")).1

issued_is :
    auth_create_challenge_at blank (some client_a) 100 (some (replicate 16 170)) (some 5 ∷ [])
    ≡ some (ok, issued_to, some issued_a)
unfolding auth_create_challenge_at create_with generate_hex bytes_to_hex hex_digit generate_pin
    valid_client_address create_locked cleanup_expired cleanup_challenge cleanup_session scan
    held_by create_in
issued_is = refl

verify-create_example :
    Opens
      (auth_verify_challenge_at issued_to
        (some client_a)
        (some id_a)
        (some (codes "000005"))
        110
        (some token_bytes_a))
      token_a
      7200
unfolding find_challenge generate_hex bytes_to_hex hex_digit
verify-create_example =
    verify-create blank issued_to client_a 100 (some (replicate 16 170)) (some 5 ∷ []) issued_a 110
      (some token_bytes_a) token_a blank_is refl issued_is refl (omega arith) (omega arith) refl

verified :
    (auth_verify_challenge_at granted
      (some client_a)
      (some id_a)
      (some pin_a)
      110
      (some token_bytes_a)).0
    ≡ ok
unfolding auth_verify_challenge_at valid_client_address find_challenge verify_locked verify_found
    verify_slot open_session generate_hex constant_time_equal differences equal
verified = refl

verify-verify_example :
    let m' =
      (auth_verify_challenge_at granted
        (some client_a)
        (some id_a)
        (some pin_a)
        110
        (some token_bytes_a)).1 in
    auth_verify_challenge_at m' (some client_a) (some id_a) (some pin_a) 111 (some token_bytes_a)
    ≡ (used_up, m', none)
verify-verify_example =
    verify-verify granted client_a id_a pin_a 110 (some token_bytes_a) pin_a 111
      (some token_bytes_a) verified refl

validate-verify_example :
    ((auth_validate_bearer_at
        (auth_verify_challenge_at granted
          (some client_a)
          (some id_a)
          (some pin_a)
          110
          (some token_bytes_a)).1
        (some client_a)
        (some (bearer token_a))
        200).0
      ≡ ok)
    ↔ ((client_a ≡ client_a) × (token_a ≡ token_a) × (200 < 110 + 7200))
unfolding generate_hex bytes_to_hex hex_digit valid_client_address
validate-verify_example =
    validate-verify granted client_a id_a pin_a 110 (some token_bytes_a) token_a client_a token_a
      200 granted_is verified refl refl (omega arith) refl refl

found_a : find_challenge id_a granted.challenges ≡ some 0
unfolding find_challenge constant_time_equal differences
found_a = refl

granted-IsOpen : IsOpen granted client_a id_a 100 0
granted-IsOpen = record {
  held = find-Holds id_a granted.challenges 0 found_a;
  found = found_a;
  same_client = refl;
  unused = refl;
  live = omega arith;
}

pin_b-IsWrong : IsWrong pin_a pin_b
unfolding equal
pin_b-IsWrong = (refl, λ e. absurd (omega (arith, ap (λ (x : Bytes). get_or x 0 0) e)))

-- Five wrong PINs, the last at time 100, for a challenge that expires at 120.
abbrev locked_a : AuthManager
locked_a = record blank {
  challenges = record (challenge_a 5 130) { pin = [] } ∷ replicate 7 cleared_challenge;
}

abbrev wrongs : List (ℕ × Bytes)
wrongs = (96, pin_b) ∷ (97, pin_b) ∷ (98, pin_b) ∷ (99, pin_b) ∷ (100, pin_b) ∷ []

five_wrong : verify_all granted client_a id_a wrongs ≡ locked_a
unfolding verify_all verify_locked find_challenge verify_found verify_slot constant_time_equal
    differences equal
five_wrong = refl

locked_is : IsValid locked_a
locked_is = subst IsValid five_wrong (verify_all-IsValid granted client_a id_a wrongs granted_is)

five_wrong_pins_example :
    let m' = verify_all granted client_a id_a wrongs in
    (verify_locked m' client_a id_a pin_a 119 none ≡ (rate_limited, m', none))
    × (verify_all m' client_a id_a ((118, pin_b) ∷ []) ≡ m')
    × ((create_locked (verify_all m' client_a id_a ((118, pin_b) ∷ [])) client_a 129 id_a pin_a).0
        ≡ rate_limited)
unfolding verify_all find_challenge verify_locked verify_found verify_slot constant_time_equal
    differences last_time
five_wrong_pins_example =
    five_wrong_pins granted client_a id_a 96 pin_b
      ((97, pin_b) ∷ (98, pin_b) ∷ (99, pin_b) ∷ (100, pin_b) ∷ []) 100 0 pin_a 119 none
      ((118, pin_b) ∷ []) 129 id_a pin_a granted_is granted-IsOpen refl refl
      (
        (omega arith, pin_b-IsWrong),
        (
          (omega arith, pin_b-IsWrong),
          (
            (omega arith, pin_b-IsWrong),
            ((omega arith, pin_b-IsWrong), ((omega arith, pin_b-IsWrong), tt)),
          ),
        ),
      )
      (omega arith)
      (subst (λ (x : AuthManager). 119 < (get_or x.challenges 0 cleared_challenge).expires_at)
        (sym five_wrong) (omega arith))
      (
        subst (λ (x : AuthManager). 118 < (get_or x.challenges 0 cleared_challenge).expires_at)
            (sym five_wrong) (omega arith),
        tt,
      )
      (omega arith)

lock_lifted_example :
    ((create_locked locked_a client_a 125 id_a pin_a).0 ≡ rate_limited)
    × ((verify_locked locked_a client_a id_a pin_a 125 none).0 ≡ expired)
    × ((create_locked
          (verify_locked locked_a client_a id_a pin_a 125 none).1
          client_a
          125
          id_a
          pin_a).0
        ≡ ok)
unfolding find_challenge constant_time_equal differences
lock_lifted_example =
    lock_lifted locked_a client_a id_a pin_a 125 none id_a pin_a 0 locked_is refl refl refl
      (omega arith) (omega arith)
