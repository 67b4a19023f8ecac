-- ===== src/Auth/Bearer.antt =====
-- src/auth.c: when `auth_verify_challenge_at` succeeds, and which bearer tokens
-- `auth_validate_bearer_at` then accepts.
use ps5_localsend.Auth.Compare.{constant_time_equal_iff}
use ps5_localsend.Auth.Find.{find-Holds, find-set_same, Holds}
use ps5_localsend.Auth.Invariant.{IsValid}
use ps5_localsend.Auth.Lifecycle.{verify_locked_at}
use ps5_localsend.Auth.Ops.{
  find_challenge, Verified, open_session, verify_slot, verify_found, verify_locked,
  auth_verify_challenge_at, any_accepts, auth_validate_bearer_at,
}
use ps5_localsend.Auth.Secrets.{generate_hex}
use ps5_localsend.Auth.State.{
  challenge_id_hex_bytes, pin_digits, token_hex_bytes, max_attempts, add_u64, cleared_challenge,
  cleared_session, constant_time_equal, valid_client_address, cleanup_session, cleanup_expired,
  AuthResult, Challenge, Session, AuthManager, ok, invalid, used_up,
}
use ps5_localsend.Base.{
  ℕ, ◌+◌, ◌/◌, ◌^◌, ◌<◌, ◌≡◌, refl, sym, ap, subst, ◌∙◌, ◌↔◌, Bool, true, false, not, ◌&&◌, Option,
  none, some, List, [], ◌∷◌, ◌++◌, map, arith, leb, if◌then◌else◌, Bytes, codes, equal, equal_iff,
  starts_with, length, get_or, set, All, get_or-set_self,
}

-- All that a successful verification has checked of the slot `i`, and what it does.
pub record Passed (m : AuthManager) (client id pin : Bytes) (now : ℕ) (token_bytes : Option Bytes)
    : Type 0 where
  pub slot : ℕ
  pub held : Holds id m.challenges slot
  pub found : find_challenge id m.challenges ≡ some slot
  pub same_client : (get_or m.challenges slot cleared_challenge).client_address ≡ client
  pub unused : (get_or m.challenges slot cleared_challenge).used ≡ false
  pub live : now < (get_or m.challenges slot cleared_challenge).expires_at
  pub attempts_left : (get_or m.challenges slot cleared_challenge).attempts < max_attempts
  pub pin_matches :
      constant_time_equal (get_or m.challenges slot cleared_challenge).pin pin pin_digits ≡ true
  pub opens :
      auth_verify_challenge_at m (some client) (some id) (some pin) now token_bytes
      ≡ open_session m client now slot
          (get_or m.challenges slot cleared_challenge)
          (generate_hex (token_hex_bytes / 2) token_bytes)

verify_slot_passed :
    (m : AuthManager) (client pin : Bytes) (now : ℕ) (token_bytes : Option Bytes) (i : ℕ)
    (c : Challenge)
    → (verify_slot m client pin now token_bytes i c).0 ≡ ok
    → (equal c.client_address client ≡ true)
      × (c.used ≡ false)
      × (now < c.expires_at)
      × (c.attempts < max_attempts)
      × (constant_time_equal c.pin pin pin_digits ≡ true)
      × (verify_slot m client pin now token_bytes i c
          ≡ open_session m client now i c (generate_hex (token_hex_bytes / 2) token_bytes))
unfolding verify_slot
verify_slot_passed m client pin now token_bytes i c h = ground arith

verify_at_open :
    (m : AuthManager) (client id pin : Bytes) (now : ℕ) (token_bytes : Option Bytes)
    → (auth_verify_challenge_at m (some client) (some id) (some pin) now token_bytes).0 ≡ ok
    → auth_verify_challenge_at m (some client) (some id) (some pin) now token_bytes
      ≡ verify_locked m client id pin now token_bytes
unfolding auth_verify_challenge_at
verify_at_open m client id pin now token_bytes h = ground arith

verify_found_slot :
    (m : AuthManager) (client pin : Bytes) (now : ℕ) (token_bytes : Option Bytes) (o : Option ℕ)
    → (verify_found m client pin now token_bytes o).0 ≡ ok
    → (i : ℕ) × (o ≡ some i)
unfolding verify_found
verify_found_slot m client pin now token_bytes none h = absurd (cc)
verify_found_slot m client pin now token_bytes (some i) h = (i, refl)

-- `auth_verify_challenge_at` succeeds only for the first occupied slot that holds the id, which
-- was issued to the same client, is unused, not expired, has had fewer than five failed attempts,
-- and whose PIN compares equal; it then opens the session.
pub verify-Passed :
    (m : AuthManager) (client id pin : Bytes) (now : ℕ) (token_bytes : Option Bytes)
    → (auth_verify_challenge_at m (some client) (some id) (some pin) now token_bytes).0 ≡ ok
    → Passed m client id pin now token_bytes
verify-Passed m client id pin now token_bytes h =
    let opened = verify_at_open m client id pin now token_bytes h in
    let inner : (verify_locked m client id pin now token_bytes).0 ≡ ok =
      ap (λ (v : Verified). v.0) (sym opened) ∙ h in
    let (i, found) = slot_of inner in
    let at_slot = verify_locked_at m client id pin now token_bytes i found in
    let p =
      verify_slot_passed m client pin now token_bytes i (get_or m.challenges i cleared_challenge)
        (ap (λ (v : Verified). v.0) (sym at_slot) ∙ inner) in
    record {
      slot = i;
      held = find-Holds id m.challenges i found;
      found = found;
      same_client = (equal_iff _ client).0 p.0;
      unused = p.1;
      live = p.2;
      attempts_left = p.3;
      pin_matches = p.4;
      opens = opened ∙ at_slot ∙ p.5;
    }
  where
    slot_of :
        (verify_locked m client id pin now token_bytes).0 ≡ ok
        → (i : ℕ) × (find_challenge id m.challenges ≡ some i)
    slot_of h = unfold verify_locked in verify_found_slot m client pin now token_bytes _ h

any_accepts_cleared :
    (client token : Bytes) (ss : List Session) (r : AuthResult)
    → All (λ s. s ≡ cleared_session) ss
    → any_accepts client token ss r ≡ r
unfolding any_accepts
any_accepts_cleared client token [] r h = refl
any_accepts_cleared client token (s ∷ ss) r h = rw h.0 (any_accepts_cleared client token ss r h.1)

cleanup_cleared :
    (now : ℕ) (ss : List Session)
    → All (λ s. s ≡ cleared_session) ss
    → All (λ s. s ≡ cleared_session) (map (cleanup_session now) ss)
unfolding cleanup_session
cleanup_cleared now [] h = tt
cleanup_cleared now (s ∷ ss) h = (ap (cleanup_session now) h.0, cleanup_cleared now ss h.1)

map_cleared :
    (ss : List Session) → All (λ s. s ≡ cleared_session) (map (λ (s : Session). cleared_session) ss)
map_cleared [] = tt
map_cleared (s ∷ ss) = (refl, map_cleared ss)

abbrev one_session : Bytes → Bytes → ℕ → List Session → List Session
one_session client token until ss =
    set (map (λ (s : Session). cleared_session) ss) 0
      (record { occupied = true; expires_at = until; client_address = client; token = token })

any_accepts_one :
    (client token client' token' : Bytes) (until t : ℕ) (ss : List Session)
    → 0 < length ss
    → any_accepts client' token'
        (map (cleanup_session t) (one_session client token until ss))
        invalid
      ≡ (if not (leb until t)
            && constant_time_equal token token' token_hex_bytes
            && equal client client'
          then ok
          else invalid)
unfolding any_accepts cleanup_session
any_accepts_one client token client' token' until t [] h = absurd (omega arith)
any_accepts_one client token client' token' until t (s ∷ ss) h =
    let rest = map (cleanup_session t) (map (λ (s : Session). cleared_session) ss) in
    let blank = cleanup_cleared t _ (map_cleared ss) in
    ground (
      arith,
      any_accepts_cleared client' token' rest ok blank,
      any_accepts_cleared client' token' rest invalid blank,
    )

leb-not : (a t : ℕ) → not (leb a t) ≡ true → t < a
leb-not a t h = ground arith

-- One live session in the first slot.
accepts_one :
    (client token client' token' : Bytes) (until t : ℕ) (ss : List Session)
    → length token ≡ token_hex_bytes
    → length token' ≡ token_hex_bytes
    → 0 < length ss
    → (any_accepts client' token'
          (map (cleanup_session t) (one_session client token until ss))
          invalid
        ≡ ok)
      ↔ ((client ≡ client') × (token ≡ token') × (t < until))
accepts_one client token client' token' until t ss l l' h =
    let eq = constant_time_equal_iff token token' token_hex_bytes l l' in
    let same = equal_iff client client' in
    rw (any_accepts_one client token client' token' until t ss h) (
      (λ e. let b = tests _ _ _ e in (same.0 b.2, eq.0 b.1, leb-not until t b.0)),
      λ (a, b, c). rw (same.1 a, eq.1 b) (ground arith),
    )
  where
    tests :
        (x y z : Bool)
        → (if x && y && z then ok else invalid) ≡ ok
        → (x ≡ true) × (y ≡ true) × (z ≡ true)
    tests x y z e = ground arith

abbrev pub bearer : Bytes → Bytes
bearer token = codes "Bearer " ++ token

validate_bearer :
    (m : AuthManager) (client token : Bytes) (t : ℕ)
    → valid_client_address (some client) ≡ true
    → length token ≡ token_hex_bytes
    → (auth_validate_bearer_at m (some client) (some (bearer token)) t).0
      ≡ any_accepts client token (map (cleanup_session t) m.sessions) invalid
unfolding auth_validate_bearer_at starts_with cleanup_expired
validate_bearer m client token t a l = ground arith

validate_opened :
    (m : AuthManager) (client : Bytes) (now i : ℕ) (c : Challenge) (token client' token' : Bytes)
    (t : ℕ)
    → IsValid m
    → now + m.session_ttl_seconds < 2 ^ 64
    → length token ≡ token_hex_bytes
    → valid_client_address (some client') ≡ true
    → length token' ≡ token_hex_bytes
    → ((auth_validate_bearer_at
          (open_session m client now i c (some token)).1
          (some client')
          (some (bearer token'))
          t).0
        ≡ ok)
      ↔ ((client ≡ client') × (token ≡ token') × (t < now + m.session_ttl_seconds))
unfolding open_session
validate_opened m client now i c token client' token' t v wrap l a l' =
    let sum : add_u64 now m.session_ttl_seconds ≡ now + m.session_ttl_seconds = omega arith in
    rw (validate_bearer (open_session m client now i c (some token)).1 client' token' t a l') (
      subst
        (λ until.
          (any_accepts client' token'
              (map (cleanup_session t)
                (one_session client token (add_u64 now m.session_ttl_seconds) m.sessions))
              invalid
            ≡ ok)
          ↔ ((client ≡ client') × (token ≡ token') × (t < until)))
        sum
        (accepts_one client token client' token' (add_u64 now m.session_ttl_seconds) t m.sessions l
          l' (omega (arith, v.session_slots))))

-- After a successful verification in a valid state, `auth_validate_bearer_at` accepts a token of 64
-- bytes from a well-formed client address exactly when the client is the one that verified, the
-- token is the one that was generated, and the session has not expired; every earlier session is
-- gone.
pub validate-verify :
    (m : AuthManager) (client id pin : Bytes) (now : ℕ) (token_bytes : Option Bytes)
    (token client' token' : Bytes) (t : ℕ)
    → IsValid m
    → (auth_verify_challenge_at m (some client) (some id) (some pin) now token_bytes).0 ≡ ok
    → generate_hex (token_hex_bytes / 2) token_bytes ≡ some token
    → length token ≡ token_hex_bytes
    → now + m.session_ttl_seconds < 2 ^ 64
    → valid_client_address (some client') ≡ true
    → length token' ≡ token_hex_bytes
    → ((auth_validate_bearer_at
          (auth_verify_challenge_at m (some client) (some id) (some pin) now token_bytes).1
          (some client')
          (some (bearer token'))
          t).0
        ≡ ok)
      ↔ ((client ≡ client') × (token ≡ token') × (t < now + m.session_ttl_seconds))
validate-verify m client id pin now token_bytes token client' token' t v h g l wrap a l' =
    let p = verify-Passed m client id pin now token_bytes h in
    let c = get_or m.challenges p.slot cleared_challenge in
    let e = p.opens ∙ ap (open_session m client now p.slot c) g in
    subst
      (λ (r : Verified).
        ((auth_validate_bearer_at r.1 (some client') (some (bearer token')) t).0 ≡ ok)
        ↔ ((client ≡ client') × (token ≡ token') × (t < now + m.session_ttl_seconds)))
      (sym e) (validate_opened m client now p.slot c token client' token' t v wrap l a l')

-- The guards that a call has passed.
verify_at_guards :
    (m : AuthManager) (client id pin : Bytes) (now : ℕ) (token_bytes : Option Bytes)
    → (auth_verify_challenge_at m (some client) (some id) (some pin) now token_bytes).0 ≡ ok
    → (valid_client_address (some client) ≡ true) × (length id ≡ challenge_id_hex_bytes)
unfolding auth_verify_challenge_at
verify_at_guards m client id pin now token_bytes h = ground arith

verify_at_locked :
    (m : AuthManager) (client id pin : Bytes) (now : ℕ) (token_bytes : Option Bytes)
    → valid_client_address (some client) ≡ true
    → length id ≡ challenge_id_hex_bytes
    → length pin ≡ pin_digits
    → auth_verify_challenge_at m (some client) (some id) (some pin) now token_bytes
      ≡ verify_locked m client id pin now token_bytes
unfolding auth_verify_challenge_at
verify_at_locked m client id pin now token_bytes a li lp = ground arith

verify_slot_used :
    (m : AuthManager) (client pin : Bytes) (now : ℕ) (token_bytes : Option Bytes) (i : ℕ)
    (c : Challenge)
    → equal c.client_address client ≡ true
    → c.used ≡ true
    → verify_slot m client pin now token_bytes i c ≡ (used_up, m, none)
unfolding verify_slot
verify_slot_used m client pin now token_bytes i c a u = ground arith

open_session_ok :
    (m : AuthManager) (client : Bytes) (now i : ℕ) (c : Challenge) (token : Option Bytes)
    → (open_session m client now i c token).0 ≡ ok
    → (open_session m client now i c token).1.challenges
      ≡ set m.challenges i (record c { used = true; pin = [] })
unfolding open_session
open_session_ok m client now i c none h = absurd (cc)
open_session_ok m client now i c (some t) h = refl

-- A PIN works once: after a successful verification the same id from the same client answers
-- `AUTH_USED`, whatever six characters are given as the PIN and at whatever time, and that call
-- changes nothing.
pub verify-verify :
    (m : AuthManager) (client id pin : Bytes) (now : ℕ) (token_bytes : Option Bytes) (pin' : Bytes)
    (later : ℕ) (token_bytes' : Option Bytes)
    → (auth_verify_challenge_at m (some client) (some id) (some pin) now token_bytes).0 ≡ ok
    → length pin' ≡ pin_digits
    → let m' = (auth_verify_challenge_at m (some client) (some id) (some pin) now token_bytes).1 in
      auth_verify_challenge_at m' (some client) (some id) (some pin') later token_bytes'
      ≡ (used_up, m', none)
verify-verify m client id pin now token_bytes pin' later token_bytes' h lp =
    let p = verify-Passed m client id pin now token_bytes h in
    let (a, li) = verify_at_guards m client id pin now token_bytes h in
    let m' = (auth_verify_challenge_at m (some client) (some id) (some pin) now token_bytes).1 in
    let c = get_or m.challenges p.slot cleared_challenge in
    let spent = record c { used = true; pin = [] } in
    let slots : m'.challenges ≡ set m.challenges p.slot spent =
      ap (λ (v : Verified). v.1.challenges) p.opens
      ∙ open_session_ok m client now p.slot c _ (ap (λ (v : Verified). v.0) (sym p.opens) ∙ h) in
    let found : find_challenge id m'.challenges ≡ some p.slot =
      ap (find_challenge id) slots
      ∙ find-set_same id m.challenges p.slot spent p.found p.held.hit in
    let read : get_or m'.challenges p.slot cleared_challenge ≡ spent =
      ap (λ cs. get_or cs p.slot cleared_challenge) slots
      ∙ get_or-set_self m.challenges p.slot spent cleared_challenge p.held.inside in
    verify_at_locked m' client id pin' later token_bytes' a li lp
    ∙ verify_locked_at m' client id pin' later token_bytes' p.slot found
    ∙ ap (verify_slot m' client pin' later token_bytes' p.slot) read
    ∙ verify_slot_used m' client pin' later token_bytes' p.slot spent
        ((equal_iff c.client_address client).1 p.same_client) refl
