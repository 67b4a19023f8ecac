-- ===== src/Auth/State.antt =====
-- src/auth.c, src/auth.h: the manager's state, and what it compares and clears.
-- A `char` array holds a C string; one that was cleared is the empty string.
use ps5_localsend.Base.{
  ℕ, zero, suc, ◌+◌, ◌%◌, ◌^◌, bit_or, bit_xor, Bool, false, not, ◌&&◌, ◌||◌, Option, none, some,
  List, [], map, ltb, leb, ◌==◌, if◌then◌else◌, Bytes, length, get_or, replicate,
}

pub data AuthResult : Type 0 where
  ok invalid expired used_up rate_limited capacity random_failure : AuthResult

pub record Challenge : Type 0 where
  pub occupied : Bool
  pub used : Bool
  pub attempts : ℕ
  pub expires_at : ℕ
  pub rate_limited_until : ℕ
  pub client_address : Bytes
  pub challenge_id : Bytes
  pub pin : Bytes

pub record Session : Type 0 where
  pub occupied : Bool
  pub expires_at : ℕ
  pub client_address : Bytes
  pub token : Bytes

pub record AuthManager : Type 0 where
  pub pin_ttl_seconds : ℕ
  pub session_ttl_seconds : ℕ
  pub challenges : List Challenge
  pub sessions : List Session

abbrev pub challenge_id_hex_bytes : ℕ
challenge_id_hex_bytes = 32

abbrev pub pin_digits : ℕ
pin_digits = 6

abbrev pub token_hex_bytes : ℕ
token_hex_bytes = 64

abbrev pub client_address_bytes : ℕ
client_address_bytes = 64

abbrev pub max_attempts : ℕ
max_attempts = 5

abbrev pub max_challenges : ℕ
max_challenges = 8

abbrev pub max_sessions : ℕ
max_sessions = 4

abbrev pub rate_limit_seconds : ℕ
rate_limit_seconds = 30

-- `uint64_t` addition
abbrev pub add_u64 : ℕ → ℕ → ℕ
add_u64 a b = (a + b) % 2 ^ 64

-- `clear_challenge`: every byte of the slot is zero.
abbrev pub cleared_challenge : Challenge
cleared_challenge = record {
  occupied = false;
  used = false;
  attempts = 0;
  expires_at = 0;
  rate_limited_until = 0;
  client_address = [];
  challenge_id = [];
  pin = [];
}

-- `clear_session`
abbrev pub cleared_session : Session
cleared_session = record { occupied = false; expires_at = 0; client_address = []; token = [] }

-- The loop of `constant_time_equal`, from `index` on with `size` bytes to go. A byte at or past
-- the end of a string is 0.
unfoldable pub differences : Bytes → Bytes → ℕ → ℕ → ℕ → ℕ
differences left right zero index difference = difference
differences left right (suc size) index difference =
    differences left right size (index + 1)
      (bit_or difference (bit_xor (get_or left index 0) (get_or right index 0)))

unfoldable pub constant_time_equal : Bytes → Bytes → ℕ → Bool
constant_time_equal left right size = differences left right size 0 0 == 0

-- `none` is a null pointer.
unfoldable pub valid_client_address : Option Bytes → Bool
valid_client_address none = false
valid_client_address (some address) =
    ltb 0 (length address) && ltb (length address) client_address_bytes

unfoldable pub cleanup_challenge : ℕ → Challenge → Challenge
cleanup_challenge now c =
    if c.occupied && leb c.expires_at now && leb c.rate_limited_until now
    then cleared_challenge
    else c

unfoldable pub cleanup_session : ℕ → Session → Session
cleanup_session now s = if s.occupied && leb s.expires_at now then cleared_session else s

unfoldable pub cleanup_expired : AuthManager → ℕ → AuthManager
cleanup_expired m now = record m {
  challenges = map (cleanup_challenge now) m.challenges;
  sessions = map (cleanup_session now) m.sessions;
}

-- `auth_manager_create`; the flags say whether `calloc` and `pthread_mutex_init` succeed.
unfoldable pub auth_manager_create : ℕ → ℕ → Bool → Bool → Option AuthManager
auth_manager_create pin_ttl session_ttl allocated mutex_ready =
    if pin_ttl == 0 || session_ttl == 0
    then none
    else if not allocated
    then none
    else if not mutex_ready
    then none
    else some (record {
      pin_ttl_seconds = pin_ttl;
      session_ttl_seconds = session_ttl;
      challenges = replicate max_challenges cleared_challenge;
      sessions = replicate max_sessions cleared_session;
    })
