-- ===== src/Auth/Invariant.antt =====
-- src/auth.c: what always holds of the manager's slots.
use ps5_localsend.Auth.Ops.{held_by}
use ps5_localsend.Auth.State.{
  challenge_id_hex_bytes, token_hex_bytes, max_attempts, max_challenges, max_sessions,
  cleared_challenge, cleared_session, cleanup_challenge, cleanup_session, cleanup_expired,
  Challenge, Session, AuthManager,
}
use ps5_localsend.Base.{
  ℕ, zero, suc, ◌≤◌, ◌≡◌, refl, sym, ap, subst, ◌∙◌, ◌⊎◌, inl, inr, true, false, List, [], ◌∷◌, map,
  arith, length, set, All,
}

-- A free slot is all zero (`auth_create_challenge_at` counts on that); a challenge has at most five
-- failed attempts, and its PIN is gone after the fifth.
pub record ChallengeOk (c : Challenge) : Type 0 where
  pub free_is_clear : c.occupied ≡ false → c ≡ cleared_challenge
  pub attempts_bounded : c.attempts ≤ max_attempts
  pub pin_gone : c.attempts ≡ max_attempts → c.pin ≡ []
  pub id_length : c.occupied ≡ true → length c.challenge_id ≡ challenge_id_hex_bytes

abbrev pub Apart : Challenge → Challenge → Type 0
Apart c d = c.occupied ≡ true → held_by c.client_address d ≡ false

-- No two challenges belong to the same client.
abbrev pub OnePerClient : List Challenge → Type 0
OnePerClient [] = Unit
OnePerClient (c ∷ cs) = All (Apart c) cs × OnePerClient cs

-- Only the first slot ever holds a session.
abbrev pub SingleSession : List Session → Type 0
SingleSession [] = Unit
SingleSession (s ∷ ss) =
    (s.occupied ≡ true → length s.token ≡ token_hex_bytes) × All (λ r. r ≡ cleared_session) ss

pub record IsValid (m : AuthManager) : Type 0 where
  pub challenge_slots : length m.challenges ≡ max_challenges
  pub session_slots : length m.sessions ≡ max_sessions
  pub challenges_ok : All ChallengeOk m.challenges
  pub one_per_client : OnePerClient m.challenges
  pub single_session : SingleSession m.sessions

pub cleared_challenge-ChallengeOk : ChallengeOk cleared_challenge
cleared_challenge-ChallengeOk = record {
  free_is_clear = λ _. refl;
  attempts_bounded = omega arith;
  pin_gone = λ _. refl;
  id_length = λ h. cc;
}

-- Slot by slot, kept or cleared.
abbrev pub Kept : List Challenge → List Challenge → Type 0
Kept [] [] = Unit
Kept (c ∷ cs) (d ∷ ds) = ((d ≡ c) ⊎ (d ≡ cleared_challenge)) × Kept cs ds
Kept _ _ = ⊥

Apart-cleared : (c : Challenge) → Apart c cleared_challenge
unfolding held_by
Apart-cleared c h = refl

pub All-cleared : (cs : List Challenge) → All (Apart cleared_challenge) cs
All-cleared [] = tt
All-cleared (c ∷ cs) = ((λ h. cc), All-cleared cs)

Kept-Apart :
    (c : Challenge) (cs ds : List Challenge) → Kept cs ds → All (Apart c) cs → All (Apart c) ds
Kept-Apart c [] [] k h = tt
Kept-Apart c [] (e ∷ ds) k h = absurd k
Kept-Apart c (d ∷ cs) [] k h = absurd k
Kept-Apart c (d ∷ cs) (e ∷ ds) k h = (
  elim k.0 [
    | inl p ↦ subst (Apart c) (sym p) h.0
    | inr p ↦ subst (Apart c) (sym p) (Apart-cleared c)
  ],
  Kept-Apart c cs ds k.1 h.1,
)

pub Kept-OnePerClient : (cs ds : List Challenge) → Kept cs ds → OnePerClient cs → OnePerClient ds
Kept-OnePerClient [] [] k h = tt
Kept-OnePerClient [] (e ∷ ds) k h = absurd k
Kept-OnePerClient (d ∷ cs) [] k h = absurd k
Kept-OnePerClient (d ∷ cs) (e ∷ ds) k h = (
  elim k.0 [
    | inl p ↦ subst (λ x. All (Apart x) ds) (sym p) (Kept-Apart d cs ds k.1 h.0)
    | inr p ↦ subst (λ x. All (Apart x) ds) (sym p) (All-cleared ds)
  ],
  Kept-OnePerClient cs ds k.1 h.1,
)

pub Kept-ChallengeOk :
    (cs ds : List Challenge) → Kept cs ds → All ChallengeOk cs → All ChallengeOk ds
Kept-ChallengeOk [] [] k h = tt
Kept-ChallengeOk [] (e ∷ ds) k h = absurd k
Kept-ChallengeOk (d ∷ cs) [] k h = absurd k
Kept-ChallengeOk (d ∷ cs) (e ∷ ds) k h = (
  elim k.0 [
    | inl p ↦ subst ChallengeOk (sym p) h.0
    | inr p ↦ subst ChallengeOk (sym p) cleared_challenge-ChallengeOk
  ],
  Kept-ChallengeOk cs ds k.1 h.1,
)

pub Kept-length : (cs ds : List Challenge) → Kept cs ds → length ds ≡ length cs
Kept-length [] [] k = refl
Kept-length [] (e ∷ ds) k = absurd k
Kept-length (d ∷ cs) [] k = absurd k
Kept-length (d ∷ cs) (e ∷ ds) k = ap suc (Kept-length cs ds k.1)

pub Kept-refl : (cs : List Challenge) → Kept cs cs
Kept-refl [] = tt
Kept-refl (c ∷ cs) = (inl refl, Kept-refl cs)

pub Kept-set : (cs : List Challenge) (i : ℕ) → Kept cs (set cs i cleared_challenge)
Kept-set [] i = tt
Kept-set (c ∷ cs) zero = (inr refl, Kept-refl cs)
Kept-set (c ∷ cs) (suc i) = (inl refl, Kept-set cs i)

pub Kept-cleanup : (now : ℕ) (cs : List Challenge) → Kept cs (map (cleanup_challenge now) cs)
unfolding cleanup_challenge
Kept-cleanup now [] = tt
Kept-cleanup now (c ∷ cs) = (ground arith, Kept-cleanup now cs)

-- Slots that are kept or cleared keep the manager's invariant.
pub Kept-IsValid :
    (m : AuthManager) (ds : List Challenge)
    → Kept m.challenges ds
    → IsValid m
    → IsValid (record m { challenges = ds })
Kept-IsValid m ds k v = record {
  challenge_slots = Kept-length m.challenges ds k ∙ v.challenge_slots;
  session_slots = v.session_slots;
  challenges_ok = Kept-ChallengeOk m.challenges ds k v.challenges_ok;
  one_per_client = Kept-OnePerClient m.challenges ds k v.one_per_client;
  single_session = v.single_session;
}

pub length-map {ℓ κ} :
    {A : Type ℓ} {B : Type κ} (f : A → B) (xs : List A) → length (map f xs) ≡ length xs
length-map f [] = refl
length-map f (x ∷ xs) = ap suc (length-map f xs)

cleanup_session-SingleSession :
    (now : ℕ) (ss : List Session) → SingleSession ss → SingleSession (map (cleanup_session now) ss)
unfolding cleanup_session
cleanup_session-SingleSession now [] h = tt
cleanup_session-SingleSession now (s ∷ ss) h = (ground arith, rest ss h.1)
  where
    rest :
        (rs : List Session)
        → All (λ r. r ≡ cleared_session) rs
        → All (λ r. r ≡ cleared_session) (map (cleanup_session now) rs)
    rest [] h = tt
    rest (r ∷ rs) h = (ap (cleanup_session now) h.0, rest rs h.1)

-- `cleanup_expired` keeps the invariant.
pub cleanup_expired-IsValid :
    (m : AuthManager) (now : ℕ) → IsValid m → IsValid (cleanup_expired m now)
unfolding cleanup_expired
cleanup_expired-IsValid m now v =
    let w =
      Kept-IsValid m (map (cleanup_challenge now) m.challenges) (Kept-cleanup now m.challenges) v in
    record {
      challenge_slots = w.challenge_slots;
      session_slots = length-map (cleanup_session now) m.sessions ∙ v.session_slots;
      challenges_ok = w.challenges_ok;
      one_per_client = w.one_per_client;
      single_session = cleanup_session-SingleSession now m.sessions v.single_session;
    }
