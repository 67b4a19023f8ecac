-- ===== src/Auth/Issued.antt =====
-- src/auth.c: what `auth_create_challenge_at` issues, `auth_verify_challenge_at` accepts.
use ps5_localsend.Auth.Invariant.{IsValid}
use ps5_localsend.Auth.Lifecycle.{Opens, verify_created}
use ps5_localsend.Auth.Ops.{
  scan, Created, create_in, create_locked, create_with, auth_create_challenge_at, find_challenge,
  auth_verify_challenge_at, ChallengeResult,
}
use ps5_localsend.Auth.Run.{Fills, length-generate_hex}
use ps5_localsend.Auth.Secrets.{
  generate_hex, pin_limit, pin_text, generate_pin, PinDraw, drawn, failed, drawing,
}
use ps5_localsend.Auth.State.{
  challenge_id_hex_bytes, pin_digits, token_hex_bytes, valid_client_address, cleanup_challenge,
  cleanup_expired, Challenge, AuthManager, ok,
}
use ps5_localsend.Base.{
  ℕ, ◌+◌, ◌/◌, ◌%◌, ◌^◌, ◌<◌, ◌≡◌, sym, ap, ap₂, subst, ◌∙◌, inl, inr, true, Option, none, some,
  List, [], ◌∷◌, map, arith, ltb, if◌then◌else◌, Bool-cases, Bytes, length,
}

-- A PIN that was drawn has six digits.
length-drawn :
    (draws : List (Option ℕ)) (pin : Bytes)
    → generate_pin draws ≡ drawn pin
    → length pin ≡ pin_digits
unfolding generate_pin
length-drawn [] pin h = absurd (cc)
length-drawn (none ∷ draws) pin h = absurd (cc)
length-drawn (some value ∷ draws) pin h = elim (Bool-cases (ltb value pin_limit)) [
  | inl low ↦ sym (
      ap drawn_size (
        ap (λ b. if b then drawn (pin_text (value % 1000000)) else generate_pin draws) (sym low)
        ∙ h))
  | inr high ↦ length-drawn draws pin (
      ap (λ b. if b then drawn (pin_text (value % 1000000)) else generate_pin draws) (sym high) ∙ h)
]
  where
    drawn_size : PinDraw → ℕ
    drawn_size (drawn pin) = length pin
    drawn_size _ = 6

-- The caller's result of a challenge.
abbrev issued : Bytes → Bytes → ℕ → ChallengeResult
issued id pin ttl = record { challenge_id = id; pin = pin; expires_in_seconds = ttl }

create_in-issued :
    (m : AuthManager) (client : Bytes) (now : ℕ) (id pin : Bytes) (slots : List Challenge)
    (slot : Option ℕ) (m' : AuthManager) (challenge : ChallengeResult)
    → create_in m client now id pin slots slot ≡ (ok, m', some challenge)
    → challenge ≡ issued id pin m.pin_ttl_seconds
unfolding create_in
create_in-issued m client now id pin slots none m' challenge h = absurd (cc)
create_in-issued m client now id pin slots (some j) m' challenge h = ground arith

create_locked-issued :
    (m : AuthManager) (client : Bytes) (now : ℕ) (id pin : Bytes) (m' : AuthManager)
    (challenge : ChallengeResult)
    → create_locked m client now id pin ≡ (ok, m', some challenge)
    → challenge ≡ issued id pin m.pin_ttl_seconds
unfolding create_locked cleanup_expired
create_locked-issued m client now id pin m' challenge h =
    let s = scan now client (map (cleanup_challenge now) m.challenges) 0 none in
    elim (Bool-cases s.limited) [
      | inl limited ↦ absurd (ground arith)
      | inr open_slot ↦
          create_in-issued (cleanup_expired m now) client now id pin s.slots s.slot m' challenge
            (ground arith)
    ]

some_back : {A : Type 0} (x y : A) → some x ≡ some y → x ≡ y
some_back x y h = cc h

-- The id and the PIN behind a challenge.
created_with :
    (m : AuthManager) (client : Bytes) (now : ℕ) (id : Option Bytes) (draw : PinDraw)
    (m' : AuthManager) (challenge : ChallengeResult)
    → create_with m client now id draw ≡ some (ok, m', some challenge)
    → (id ≡ some challenge.challenge_id)
      × (draw ≡ drawn challenge.pin)
      × (challenge.expires_in_seconds ≡ m.pin_ttl_seconds)
      × (create_locked m client now challenge.challenge_id challenge.pin ≡ (ok, m', some challenge))
unfolding create_with
created_with m client now none draw m' challenge h = absurd (cc)
created_with m client now (some id) drawing m' challenge h = absurd (cc)
created_with m client now (some id) failed m' challenge h = absurd (cc)
created_with m client now (some id) (drawn pin) m' challenge h =
    let e : create_locked m client now id pin ≡ (ok, m', some challenge) =
      some_back (create_locked m client now id pin) (ok, m', some challenge) h in
    let same = create_locked-issued m client now id pin m' challenge e in
    let id_is = ap (λ (c : ChallengeResult). c.challenge_id) same in
    let pin_is = ap (λ (c : ChallengeResult). c.pin) same in
    (
      ap some (sym id_is),
      ap drawn (sym pin_is),
      ap (λ (c : ChallengeResult). c.expires_in_seconds) same,
      ap₂ (create_locked m client now) id_is pin_is ∙ e,
    )

created_at :
    (m : AuthManager) (client : Bytes) (now : ℕ) (id_bytes : Option Bytes) (draws : List (Option ℕ))
    (m' : AuthManager) (challenge : ChallengeResult)
    → auth_create_challenge_at m (some client) now id_bytes draws ≡ some (ok, m', some challenge)
    → (valid_client_address (some client) ≡ true)
      × (create_with m client now
            (generate_hex (challenge_id_hex_bytes / 2) id_bytes)
            (generate_pin draws)
          ≡ some (ok, m', some challenge))
unfolding auth_create_challenge_at
created_at m client now id_bytes draws m' challenge h =
    elim (Bool-cases (valid_client_address (some client))) [
      | inl known ↦ (known, ground arith)
      | inr unknown ↦ absurd (ground arith)
    ]

-- A PIN that was issued works: if `auth_create_challenge_at`, in a valid state, returns a challenge
-- whose id no occupied slot held, then `auth_verify_challenge_at` with the id and the PIN that it
-- returned, from the same client, at any time before the lifetime that it returned is over, succeeds
-- and returns the token that was generated with the session's lifetime. Conditions: the random
-- source fills the sixteen bytes of the id, and the clock is not about to wrap.
pub verify-create :
    (m m' : AuthManager) (client : Bytes) (now : ℕ) (id_bytes : Option Bytes)
    (draws : List (Option ℕ)) (challenge : ChallengeResult) (later : ℕ) (token_bytes : Option Bytes)
    (token : Bytes)
    → IsValid m
    → Fills 16 id_bytes
    → auth_create_challenge_at m (some client) now id_bytes draws ≡ some (ok, m', some challenge)
    → find_challenge challenge.challenge_id m.challenges ≡ none
    → now + challenge.expires_in_seconds < 2 ^ 64
    → later < now + challenge.expires_in_seconds
    → generate_hex (token_hex_bytes / 2) token_bytes ≡ some token
    → Opens
        (auth_verify_challenge_at m'
          (some client)
          (some challenge.challenge_id)
          (some challenge.pin)
          later
          token_bytes)
        token
        m.session_ttl_seconds
verify-create m m' client now id_bytes draws challenge later token_bytes token v f h fresh wrap live
      tok =
    let (known, made) = created_at m client now id_bytes draws m' challenge h in
    let (id_is, pin_is, ttl, stored) = created_with m client now _ _ m' challenge made in
    subst
      (λ (x : Created).
        Opens
          (auth_verify_challenge_at x.1 (some client) (some challenge.challenge_id)
            (some challenge.pin) later token_bytes)
          token m.session_ttl_seconds)
      stored
      (verify_created m client now challenge.challenge_id challenge.pin later token_bytes token v
        known (length-generate_hex 16 id_bytes challenge.challenge_id f id_is)
        (length-drawn draws challenge.pin pin_is) fresh (ap (λ (x : Created). x.0) stored)
        (omega arith) (omega arith) tok)
