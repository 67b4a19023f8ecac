-- ===== src/Auth/Ops.antt =====
-- src/auth.c: the three operations of the manager, each the critical section of one call.
use ps5_localsend.Auth.Secrets.{generate_hex, generate_pin, PinDraw, drawn, failed, drawing}
use ps5_localsend.Auth.State.{
  challenge_id_hex_bytes, pin_digits, token_hex_bytes, max_attempts, rate_limit_seconds, add_u64,
  cleared_challenge, cleared_session, constant_time_equal, valid_client_address, cleanup_expired,
  AuthResult, Challenge, Session, AuthManager, ok, invalid, expired, used_up, rate_limited,
  capacity, random_failure,
}
use ps5_localsend.Base.{
  ℕ, suc, ◌+◌, ◌/◌, Bool, true, false, not, ◌&&◌, ◌||◌, Option, none, some, List, [], ◌∷◌, map, ltb,
  leb, ◌==◌, if◌then◌else◌, Bytes, codes, equal, starts_with, length, get_or, set, drop,
}

-- What the caller's result structure holds after `auth_create_challenge_at`.
pub record ChallengeResult : Type 0 where
  pub challenge_id : Bytes
  pub pin : Bytes
  pub expires_in_seconds : ℕ

pub record SessionResult : Type 0 where
  pub token : Bytes
  pub expires_in_seconds : ℕ

-- The state of the loop over the slots in `auth_create_challenge_at`.
pub record Scan : Type 0 where
  pub limited : Bool
  pub slots : List Challenge
  pub slot : Option ℕ

unfoldable pub held_by : Bytes → Challenge → Bool
held_by client c = c.occupied && equal c.client_address client

abbrev pub first_slot : Option ℕ → Bool → ℕ → Option ℕ
first_slot (some j) taken i = some j
first_slot none true i = none
first_slot none false i = some i

-- The loop at slot `i`; `slot` is the free slot that it has met.
unfoldable pub scan : ℕ → Bytes → List Challenge → ℕ → Option ℕ → Scan
scan now client [] i slot = record { limited = false; slots = []; slot = slot }
scan now client (c ∷ cs) i slot =
    let c' = if held_by client c then cleared_challenge else c in
    let rest = scan now client cs (i + 1) (first_slot slot c'.occupied i) in
    if held_by client c && ltb now c.rate_limited_until
    then record { limited = true; slots = c ∷ cs; slot = slot }
    else record rest { slots = c' ∷ rest.slots }

abbrev pub with_challenges : AuthManager → List Challenge → AuthManager
with_challenges m cs = record m { challenges = cs }

-- The fields that are assigned; the others keep what the slot held.
abbrev pub fill_slot : AuthManager → Bytes → ℕ → Bytes → Bytes → Challenge → Challenge
fill_slot m client now id pin c = record c {
  occupied = true;
  expires_at = add_u64 now m.pin_ttl_seconds;
  client_address = client;
  challenge_id = id;
  pin = pin;
}

abbrev pub Created : Type 0
Created = AuthResult × AuthManager × Option ChallengeResult

-- The slot that the loop found, filled; no slot is `AUTH_CAPACITY`.
unfoldable pub create_in :
    AuthManager → Bytes → ℕ → Bytes → Bytes → List Challenge → Option ℕ → Created
create_in m client now id pin slots none = (capacity, with_challenges m slots, none)
create_in m client now id pin slots (some j) = (
  ok,
  with_challenges m
      (set slots j (fill_slot m client now id pin (get_or slots j cleared_challenge))),
  some (record { challenge_id = id; pin = pin; expires_in_seconds = m.pin_ttl_seconds }),
)

-- From the lock on, with the id and the PIN that were generated.
unfoldable pub create_locked : AuthManager → Bytes → ℕ → Bytes → Bytes → Created
create_locked m client now id pin =
    let m' = cleanup_expired m now in
    let s = scan now client m'.challenges 0 none in
    if s.limited
    then (rate_limited, with_challenges m' s.slots, none)
    else create_in m' client now id pin s.slots s.slot

-- `none` while `generate_pin` has not ended.
unfoldable pub create_with : AuthManager → Bytes → ℕ → Option Bytes → PinDraw → Option Created
create_with m client now none draw = some (random_failure, m, none)
create_with m client now (some id) drawing = none
create_with m client now (some id) failed = some (random_failure, m, none)
create_with m client now (some id) (drawn pin) = some (create_locked m client now id pin)

unfoldable pub auth_create_challenge_at :
    AuthManager → Option Bytes → ℕ → Option Bytes → List (Option ℕ) → Option Created
auth_create_challenge_at m none now id_bytes pin_draws = some (invalid, m, none)
auth_create_challenge_at m (some client) now id_bytes pin_draws =
    if not (valid_client_address (some client))
    then some (invalid, m, none)
    else create_with m client now (generate_hex (challenge_id_hex_bytes / 2) id_bytes)
        (generate_pin pin_draws)

abbrev pub matches_id : Bytes → Challenge → Bool
matches_id id c = c.occupied && constant_time_equal c.challenge_id id challenge_id_hex_bytes

abbrev pub next_index : Option ℕ → Option ℕ
next_index none = none
next_index (some i) = some (suc i)

-- The first slot that holds the id.
unfoldable pub find_challenge : Bytes → List Challenge → Option ℕ
find_challenge id [] = none
find_challenge id (c ∷ cs) = if matches_id id c then some 0 else next_index (find_challenge id cs)

abbrev pub Verified : Type 0
Verified = AuthResult × AuthManager × Option SessionResult

-- A PIN that does not match.
abbrev pub count_attempt : ℕ → Challenge → Challenge
count_attempt now c =
    if leb max_attempts (c.attempts + 1)
    then record c {
      attempts = c.attempts + 1;
      pin = [];
      rate_limited_until = add_u64 now rate_limit_seconds;
    }
    else record c { attempts = c.attempts + 1 }

-- A PIN that matches, with the token that `generate_hex` gives.
unfoldable pub open_session : AuthManager → Bytes → ℕ → ℕ → Challenge → Option Bytes → Verified
open_session m client now i c none = (random_failure, m, none)
open_session m client now i c (some token) = (
  ok,
  record m {
    challenges = set m.challenges i (record c { used = true; pin = [] });
    sessions = set (map (λ _. cleared_session) m.sessions) 0 (record {
      occupied = true;
      expires_at = add_u64 now m.session_ttl_seconds;
      client_address = client;
      token = token;
    });
  },
  some (record { token = token; expires_in_seconds = m.session_ttl_seconds }),
)

-- From the search on, for the slot `i` that holds the id.
unfoldable pub verify_slot :
    AuthManager → Bytes → Bytes → ℕ → Option Bytes → ℕ → Challenge → Verified
verify_slot m client pin now token_bytes i c =
    if not (equal c.client_address client)
    then (invalid, m, none)
    else if c.used
    then (used_up, m, none)
    else if leb c.expires_at now
    then (expired, with_challenges m (set m.challenges i cleared_challenge), none)
    else if leb max_attempts c.attempts
    then (rate_limited, m, none)
    else if not (constant_time_equal c.pin pin pin_digits)
    then (
      if leb max_attempts (c.attempts + 1) then rate_limited else invalid,
      with_challenges m (set m.challenges i (count_attempt now c)),
      none,
    )
    else open_session m client now i c (generate_hex (token_hex_bytes / 2) token_bytes)

unfoldable pub verify_found : AuthManager → Bytes → Bytes → ℕ → Option Bytes → Option ℕ → Verified
verify_found m client pin now token_bytes none = (invalid, m, none)
verify_found m client pin now token_bytes (some i) =
    verify_slot m client pin now token_bytes i (get_or m.challenges i cleared_challenge)

unfoldable pub verify_locked : AuthManager → Bytes → Bytes → Bytes → ℕ → Option Bytes → Verified
unfolding verify_found
verify_locked m client id pin now token_bytes =
    verify_found m client pin now token_bytes (find_challenge id m.challenges)

unfoldable pub auth_verify_challenge_at :
    AuthManager → Option Bytes → Option Bytes → Option Bytes → ℕ → Option Bytes → Verified
auth_verify_challenge_at m (some client) (some id) (some pin) now token_bytes =
    if not (valid_client_address (some client))
      || not (length id == challenge_id_hex_bytes)
      || not (length pin == pin_digits)
    then (invalid, m, none)
    else verify_locked m client id pin now token_bytes
auth_verify_challenge_at m _ _ _ now token_bytes = (invalid, m, none)

abbrev pub accepts : Bytes → Bytes → Session → Bool
accepts client token s =
    s.occupied && constant_time_equal s.token token token_hex_bytes && equal s.client_address client

-- The loop keeps on after a match.
unfoldable pub any_accepts : Bytes → Bytes → List Session → AuthResult → AuthResult
any_accepts client token [] result = result
any_accepts client token (s ∷ ss) result =
    any_accepts client token ss (if accepts client token s then ok else result)

unfoldable pub auth_validate_bearer_at :
    AuthManager → Option Bytes → Option Bytes → ℕ → AuthResult × AuthManager
auth_validate_bearer_at m (some client) (some authorization) now =
    let token = drop 7 authorization in
    let m' = cleanup_expired m now in
    if not (valid_client_address (some client)) || not (starts_with authorization (codes "Bearer "))
    then (invalid, m)
    else if not (length token == token_hex_bytes)
    then (invalid, m)
    else (any_accepts client token m'.sessions invalid, m')
auth_validate_bearer_at m _ _ now = (invalid, m)
