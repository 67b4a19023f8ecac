-- ===== src/Auth/Lifecycle.antt =====
-- src/auth.c: a challenge that was created can be verified, and opens the session that
-- `auth_validate_bearer_at` accepts.
use ps5_localsend.Auth.Compare.{constant_time_equal_refl}
use ps5_localsend.Auth.Find.{find-set, find-Kept}
use ps5_localsend.Auth.Invariant.{
  cleared_challenge-ChallengeOk, Kept, Kept-ChallengeOk, Kept-cleanup, ChallengeOk, IsValid,
}
use ps5_localsend.Auth.Ops.{
  scan, with_challenges, fill_slot, create_in, create_locked, matches_id, find_challenge, Verified,
  open_session, verify_slot, verify_locked, auth_verify_challenge_at,
}
use ps5_localsend.Auth.Secrets.{generate_hex}
use ps5_localsend.Auth.Slots.{All-get_or, scan-Kept, scan_start-FreeAt, FreeAt}
use ps5_localsend.Auth.State.{
  challenge_id_hex_bytes, pin_digits, token_hex_bytes, max_attempts, cleared_challenge,
  constant_time_equal, valid_client_address, cleanup_challenge, cleanup_expired, Challenge,
  AuthManager, ok,
}
use ps5_localsend.Base.{
  ℕ, ◌+◌, ◌/◌, ◌^◌, ◌<◌, ◌≡◌, refl, sym, ap, subst, ◌∙◌, inl, inr, true, false, Option, none, some,
  List, [], ◌∷◌, map, arith, Bool-cases, Bytes, equal_iff, length, get_or, set, get_or-set_self,
}

-- A successful creation: the slots that the loop left, and the slot that was filled.
pub record Filled (m m' : AuthManager) (client : Bytes) (now : ℕ) (id pin : Bytes) : Type 0 where
  pub slots : List Challenge
  pub slot : ℕ
  pub kept : Kept m.challenges slots
  pub free : FreeAt slots slot
  pub after :
      m'
      ≡ with_challenges (cleanup_expired m now) (
          set slots slot (
            fill_slot
              (cleanup_expired m now)
              client
              now
              id
              pin
              (get_or slots slot cleared_challenge)))

Kept-trans : (bs cs ds : List Challenge) → Kept bs cs → Kept cs ds → Kept bs ds
Kept-trans [] [] [] h k = tt
Kept-trans [] [] (d ∷ ds) h k = absurd k
Kept-trans [] (c ∷ cs) ds h k = absurd h
Kept-trans (b ∷ bs) [] ds h k = absurd h
Kept-trans (b ∷ bs) (c ∷ cs) [] h k = absurd k
Kept-trans (b ∷ bs) (c ∷ cs) (d ∷ ds) h k = (
  elim k.0 [ inr q ↦ inr q | inl q ↦ elim h.0 [ inl p ↦ inl (q ∙ p) | inr p ↦ inr (q ∙ p) ] ],
  Kept-trans bs cs ds h.1 k.1,
)

create_in-Filled :
    (m : AuthManager) (client : Bytes) (now : ℕ) (id pin : Bytes) (slots : List Challenge)
    (slot : Option ℕ)
    → (create_in (cleanup_expired m now) client now id pin slots slot).0 ≡ ok
    → Kept m.challenges slots
    → ((j : ℕ) → slot ≡ some j → FreeAt slots j)
    → Filled m (create_in (cleanup_expired m now) client now id pin slots slot).1 client now id pin
unfolding create_in
create_in-Filled m client now id pin slots none e k free = absurd (cc)
create_in-Filled m client now id pin slots (some j) e k free = record {
  slots = slots;
  slot = j;
  kept = k;
  free = free j refl;
  after = refl;
}

pub create_locked-Filled :
    (m : AuthManager) (client : Bytes) (now : ℕ) (id pin : Bytes)
    → (create_locked m client now id pin).0 ≡ ok
    → Filled m (create_locked m client now id pin).1 client now id pin
unfolding create_locked cleanup_expired
create_locked-Filled m client now id pin =
    let cs = map (cleanup_challenge now) m.challenges in
    elim (Bool-cases (scan now client cs 0 none).limited) [
      | inl lim ↦ simp lim (λ e. absurd (cc))
      | inr go ↦ simp go (λ e.
          create_in-Filled m client now id pin _ _ e
            (Kept-trans m.challenges cs _ (Kept-cleanup now m.challenges)
              (scan-Kept now client cs 0 none))
            (λ j p. scan_start-FreeAt now client cs j go p))
    ]

pub verify_slot_opens :
    (m : AuthManager) (client pin : Bytes) (now : ℕ) (token_bytes : Option Bytes) (i : ℕ)
    (c : Challenge)
    → c.client_address ≡ client
    → c.used ≡ false
    → now < c.expires_at
    → c.attempts < max_attempts
    → c.pin ≡ pin
    → verify_slot m client pin now token_bytes i c
      ≡ open_session m client now i c (generate_hex (token_hex_bytes / 2) token_bytes)
unfolding verify_slot
verify_slot_opens m client pin now token_bytes i c a u e k p = ground (
  arith,
  (equal_iff c.client_address client).1 a,
  subst (λ x. constant_time_equal c.pin x pin_digits ≡ true) p
      (constant_time_equal_refl c.pin pin_digits),
)

pub verify_locked_at :
    (m : AuthManager) (client id pin : Bytes) (now : ℕ) (token_bytes : Option Bytes) (i : ℕ)
    → find_challenge id m.challenges ≡ some i
    → verify_locked m client id pin now token_bytes
      ≡ verify_slot m client pin now token_bytes i (get_or m.challenges i cleared_challenge)
unfolding verify_locked
verify_locked_at m client id pin now token_bytes i f = rw f

-- What `auth_verify_challenge_at` answers when it opens a session.
abbrev pub Opens : Verified → Bytes → ℕ → Type 0
Opens v token ttl = (v.0 ≡ ok) × (v.2 ≡ some (record { token = token; expires_in_seconds = ttl }))

open_session-Opens :
    (m : AuthManager) (client : Bytes) (now i : ℕ) (c : Challenge) (token : Bytes)
    → Opens (open_session m client now i c (some token)) token m.session_ttl_seconds
unfolding open_session
open_session-Opens m client now i c token = (refl, refl)

verify-Filled :
    (m m' : AuthManager) (client : Bytes) (now : ℕ) (id pin : Bytes) (later : ℕ)
    (token_bytes : Option Bytes) (token : Bytes)
    → IsValid m
    → Filled m m' client now id pin
    → find_challenge id m.challenges ≡ none
    → now + m.pin_ttl_seconds < 2 ^ 64
    → later < now + m.pin_ttl_seconds
    → generate_hex (token_hex_bytes / 2) token_bytes ≡ some token
    → Opens (verify_locked m' client id pin later token_bytes) token m.session_ttl_seconds
unfolding cleanup_expired
verify-Filled m m' client now id pin later token_bytes token v w fresh wrap live tok =
    let old = get_or w.slots w.slot cleared_challenge in
    let blank : old ≡ cleared_challenge =
      (All-get_or ChallengeOk w.slots w.slot cleared_challenge
          (Kept-ChallengeOk m.challenges w.slots w.kept v.challenges_ok)
          cleared_challenge-ChallengeOk).free_is_clear
        w.free.free in
    let c = fill_slot (cleanup_expired m now) client now id pin old in
    let n = with_challenges (cleanup_expired m now) (set w.slots w.slot c) in
    let hit : matches_id id c ≡ true = constant_time_equal_refl id challenge_id_hex_bytes in
    let found : find_challenge id n.challenges ≡ some w.slot =
      find-set id w.slots w.slot c (find-Kept id m.challenges w.slots w.kept fresh) w.free.inside
        hit in
    let read : get_or n.challenges w.slot cleared_challenge ≡ c =
      get_or-set_self w.slots w.slot c cleared_challenge w.free.inside in
    let opened : verify_locked n client id pin later token_bytes
        ≡ open_session n client later w.slot c (some token) =
      verify_locked_at n client id pin later token_bytes w.slot found
      ∙ ap (verify_slot n client pin later token_bytes w.slot) read
      ∙ verify_slot_opens n client pin later token_bytes w.slot c refl
          (ap (λ (d : Challenge). d.used) blank) (omega arith)
          (omega (arith, ap (λ (d : Challenge). d.attempts) blank)) refl
      ∙ ap (open_session n client later w.slot c) tok in
    subst (λ x. Opens (verify_locked x client id pin later token_bytes) token m.session_ttl_seconds)
      (sym w.after)
      (subst (λ x. Opens x token m.session_ttl_seconds) (sym opened)
        (open_session-Opens n client later w.slot c token))

-- From the critical section on.
pub verify_created :
    (m : AuthManager) (client : Bytes) (now : ℕ) (id pin : Bytes) (later : ℕ)
    (token_bytes : Option Bytes) (token : Bytes)
    → IsValid m
    → valid_client_address (some client) ≡ true
    → length id ≡ challenge_id_hex_bytes
    → length pin ≡ pin_digits
    → find_challenge id m.challenges ≡ none
    → (create_locked m client now id pin).0 ≡ ok
    → now + m.pin_ttl_seconds < 2 ^ 64
    → later < now + m.pin_ttl_seconds
    → generate_hex (token_hex_bytes / 2) token_bytes ≡ some token
    → Opens
        (auth_verify_challenge_at
          (create_locked m client now id pin).1
          (some client)
          (some id)
          (some pin)
          later
          token_bytes)
        token
        m.session_ttl_seconds
unfolding auth_verify_challenge_at
verify_created m client now id pin later token_bytes token v a li lp fresh created wrap live tok =
    simp (a, li, lp)
      (verify-Filled m _ client now id pin later token_bytes token v
        (create_locked-Filled m client now id pin created) fresh wrap live tok)
