-- ===== src/Auth/Run.antt =====
-- src/auth.c: any sequence of calls, and the random material that they use.
use ps5_localsend.Auth.Invariant.{
  OnePerClient, cleared_challenge-ChallengeOk, All-cleared, cleanup_expired-IsValid, ChallengeOk,
  IsValid,
}
use ps5_localsend.Auth.Ops.{
  Created, create_with, auth_create_challenge_at, verify_locked, auth_verify_challenge_at,
  auth_validate_bearer_at,
}
use ps5_localsend.Auth.Preserve.{create_locked-IsValid, verify_locked-IsValid}
use ps5_localsend.Auth.Secrets.{bytes_to_hex, generate_hex, PinDraw, drawn, failed, drawing}
use ps5_localsend.Auth.State.{
  challenge_id_hex_bytes, max_challenges, max_sessions, cleared_challenge, cleared_session,
  valid_client_address, cleanup_expired, auth_manager_create, AuthManager,
}
use ps5_localsend.Base.{
  ℕ, zero, suc, ◌*◌, ◌≡◌, refl, sym, subst, ◌⊎◌, inl, inr, Bool, Option, none, some, List, [], ◌∷◌,
  arith, Bool-cases, Bytes, length, replicate, All,
}

pub data Call : Type 0 where
  create : Option Bytes → ℕ → Option Bytes → List (Option ℕ) → Call
  verify : Option Bytes → Option Bytes → Option Bytes → ℕ → Option Bytes → Call
  validate : Option Bytes → Option Bytes → ℕ → Call

-- The manager after the call; a call that is still drawing a PIN has not touched it.
abbrev created_state : AuthManager → Option Created → AuthManager
created_state m none = m
created_state m (some c) = c.1

unfoldable pub step : AuthManager → Call → AuthManager
step m (create client now id_bytes draws) =
    created_state m (auth_create_challenge_at m client now id_bytes draws)
step m (verify client id pin now token_bytes) =
    (auth_verify_challenge_at m client id pin now token_bytes).1
step m (validate client authorization now) = (auth_validate_bearer_at m client authorization now).1

unfoldable pub run : AuthManager → List Call → AuthManager
run m [] = m
run m (c ∷ cs) = run (step m c) cs

-- The random source fills the whole buffer that it is given.
abbrev pub Fills : ℕ → Option Bytes → Type 0
Fills n none = Unit
Fills n (some bytes) = length bytes ≡ n

abbrev pub Filled : Call → Type 0
Filled (create client now id_bytes draws) = Fills 16 id_bytes
Filled (verify client id pin now token_bytes) = Fills 32 token_bytes
Filled (validate client authorization now) = Unit

length-bytes_to_hex : (bs : Bytes) → length (bytes_to_hex bs) ≡ 2 * length bs
unfolding bytes_to_hex
length-bytes_to_hex [] = refl
length-bytes_to_hex (b ∷ bs) = omega (arith, length-bytes_to_hex bs)

pub length-generate_hex :
    (n : ℕ) (bytes : Option Bytes) (t : Bytes)
    → Fills n bytes
    → generate_hex n bytes ≡ some t
    → length t ≡ 2 * n
unfolding generate_hex
length-generate_hex n none t f h = absurd (cc)
length-generate_hex n (some bs) t f h = ground (arith, length-bytes_to_hex bs)

create_with-IsValid :
    (m : AuthManager) (client : Bytes) (now : ℕ) (id : Option Bytes) (draw : PinDraw)
    → ((t : Bytes) → id ≡ some t → length t ≡ challenge_id_hex_bytes)
    → IsValid m
    → IsValid (created_state m (create_with m client now id draw))
unfolding create_with
create_with-IsValid m client now none draw l v = v
create_with-IsValid m client now (some id) drawing l v = v
create_with-IsValid m client now (some id) failed l v = v
create_with-IsValid m client now (some id) (drawn pin) l v =
    create_locked-IsValid m client now id pin (l id refl) v

verify_state :
    (m : AuthManager) (client id pin : Bytes) (now : ℕ) (token_bytes : Option Bytes)
    → ((auth_verify_challenge_at m (some client) (some id) (some pin) now token_bytes).1 ≡ m)
      ⊎ ((auth_verify_challenge_at m (some client) (some id) (some pin) now token_bytes).1
          ≡ (verify_locked m client id pin now token_bytes).1)
unfolding auth_verify_challenge_at
verify_state m client id pin now token_bytes = ground arith

validate_state :
    (m : AuthManager) (client authorization : Bytes) (now : ℕ)
    → ((auth_validate_bearer_at m (some client) (some authorization) now).1 ≡ m)
      ⊎ ((auth_validate_bearer_at m (some client) (some authorization) now).1
          ≡ cleanup_expired m now)
unfolding auth_validate_bearer_at
validate_state m client authorization now = ground arith

step-IsValid : (m : AuthManager) (c : Call) → Filled c → IsValid m → IsValid (step m c)
unfolding step auth_create_challenge_at auth_verify_challenge_at auth_validate_bearer_at
step-IsValid m (create none now id_bytes draws) f v = v
step-IsValid m (create (some client) now id_bytes draws) f v =
    elim (Bool-cases (valid_client_address (some client))) [
      | inr bad ↦ simp bad v
      | inl good ↦
          simp good
            (create_with-IsValid m client now _ _ (λ t h. length-generate_hex 16 id_bytes t f h) v)
    ]
step-IsValid m (verify (some client) (some id) (some pin) now token_bytes) f v =
    elim (verify_state m client id pin now token_bytes) [
      | inl e ↦ subst IsValid (sym e) v
      | inr e ↦ subst IsValid (sym e) (
          verify_locked-IsValid m client id pin now token_bytes
            (λ t h. length-generate_hex 32 token_bytes t f h) v)
    ]
step-IsValid m (verify none id pin now token_bytes) f v = v
step-IsValid m (verify (some client) none pin now token_bytes) f v = v
step-IsValid m (verify (some client) (some id) none now token_bytes) f v = v
step-IsValid m (validate (some client) (some authorization) now) f v =
    elim (validate_state m client authorization now) [
      | inl e ↦ subst IsValid (sym e) v
      | inr e ↦ subst IsValid (sym e) (cleanup_expired-IsValid m now v)
    ]
step-IsValid m (validate none authorization now) f v = v
step-IsValid m (validate (some client) none now) f v = v

run_keeps : (m : AuthManager) (cs : List Call) → All Filled cs → IsValid m → IsValid (run m cs)
unfolding run
run_keeps m [] f v = v
run_keeps m (c ∷ cs) f v = run_keeps (step m c) cs f.1 (step-IsValid m c f.0 v)

abbrev blank_manager : ℕ → ℕ → AuthManager
blank_manager pin_ttl session_ttl = record {
  pin_ttl_seconds = pin_ttl;
  session_ttl_seconds = session_ttl;
  challenges = replicate max_challenges cleared_challenge;
  sessions = replicate max_sessions cleared_session;
}

manager_create :
    (pin_ttl session_ttl : ℕ) (allocated mutex_ready : Bool) (m : AuthManager)
    → auth_manager_create pin_ttl session_ttl allocated mutex_ready ≡ some m
    → m ≡ blank_manager pin_ttl session_ttl
unfolding auth_manager_create
manager_create pin_ttl session_ttl allocated mutex_ready m h = ground arith

All-replicate {ℓ κ} : {A : Type ℓ} (P : A → Type κ) (n : ℕ) (a : A) → P a → All P (replicate n a)
All-replicate P zero a p = tt
All-replicate P (suc n) a p = (p, All-replicate P n a p)

blank-OnePerClient : (n : ℕ) → OnePerClient (replicate n cleared_challenge)
blank-OnePerClient zero = tt
blank-OnePerClient (suc n) = (All-cleared (replicate n cleared_challenge), blank-OnePerClient n)

blank-IsValid : (pin_ttl session_ttl : ℕ) → IsValid (blank_manager pin_ttl session_ttl)
blank-IsValid pin_ttl session_ttl = record {
  challenge_slots = refl;
  session_slots = refl;
  challenges_ok =
      All-replicate ChallengeOk max_challenges cleared_challenge cleared_challenge-ChallengeOk;
  one_per_client = blank-OnePerClient max_challenges;
  single_session =
      ((λ h. absurd (cc)), All-replicate (λ s. s ≡ cleared_session) 3 cleared_session refl);
}

-- From `auth_manager_create` on, whatever calls arrive in whatever order, with whatever arguments
-- and times, if the random source fills the buffers that it is given, the manager stays valid:
-- its two arrays keep their sizes, a free slot is all zero, no challenge has more than five failed
-- attempts, after the fifth its PIN is gone, no client has two challenges, and only the first slot
-- holds a session.
pub run-IsValid :
    (pin_ttl session_ttl : ℕ) (allocated mutex_ready : Bool) (m : AuthManager) (cs : List Call)
    → auth_manager_create pin_ttl session_ttl allocated mutex_ready ≡ some m
    → All Filled cs
    → IsValid (run m cs)
run-IsValid pin_ttl session_ttl allocated mutex_ready m cs h f = run_keeps m cs f (
    subst IsValid (sym (manager_create pin_ttl session_ttl allocated mutex_ready m h))
      (blank-IsValid pin_ttl session_ttl))
