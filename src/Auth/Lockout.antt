-- ===== src/Auth/Lockout.antt =====
-- src/auth.c: what wrong PINs do to a challenge.
use ps5_localsend.Auth.Compare.{constant_time_equal_iff}
use ps5_localsend.Auth.Find.{find-set_same, Holds}
use ps5_localsend.Auth.Lifecycle.{verify_locked_at}
use ps5_localsend.Auth.Ops.{
  with_challenges, matches_id, find_challenge, Verified, count_attempt, verify_slot, verify_locked,
}
use ps5_localsend.Auth.State.{
  challenge_id_hex_bytes, pin_digits, max_attempts, rate_limit_seconds, add_u64, cleared_challenge,
  constant_time_equal, Challenge, AuthManager, invalid, rate_limited,
}
use ps5_localsend.Base.{
  ℕ, ◌+◌, ◌≤◌, ◌<◌, ◌≡◌, refl, sym, ap, ap₂, subst, ◌∙◌, ◌≢◌, inl, inr, true, false, ◌&&◌, Option,
  none, some, List, [], ◌∷◌, arith, leb, if◌then◌else◌, Bool-cases, Bytes, equal_iff, length,
  get_or, set, All, length-set, get_or-set_self,
}

-- PINs from one client, one after another, each at its time.
unfoldable pub verify_all : AuthManager → Bytes → Bytes → List (ℕ × Bytes) → AuthManager
verify_all m client id [] = m
verify_all m client id ((t, p) ∷ ps) =
    verify_all (verify_locked m client id p t none).1 client id ps

-- The time of the last of them.
unfoldable pub last_time : ℕ → List (ℕ × Bytes) → ℕ
last_time t [] = t
last_time t ((u, p) ∷ ps) = last_time u ps

-- The slot `i` holds a challenge of the client that is live up to `now`.
pub record IsOpen (m : AuthManager) (client id : Bytes) (now i : ℕ) : Type 0 where
  pub held : Holds id m.challenges i
  pub found : find_challenge id m.challenges ≡ some i
  pub same_client : (get_or m.challenges i cleared_challenge).client_address ≡ client
  pub unused : (get_or m.challenges i cleared_challenge).used ≡ false
  pub live : now < (get_or m.challenges i cleared_challenge).expires_at

abbrev pub IsWrong : Bytes → Bytes → Type 0
IsWrong pin p = (length p ≡ pin_digits) × (p ≢ pin)

-- A wrong PIN that came by the time `now`.
abbrev pub WrongBy : ℕ → Bytes → ℕ × Bytes → Type 0
WrongBy now pin (t, p) = (t ≤ now) × IsWrong pin p

verify_slot_wrong :
    (m : AuthManager) (client p : Bytes) (now : ℕ) (token_bytes : Option Bytes) (i : ℕ)
    (c : Challenge)
    → c.client_address ≡ client
    → c.used ≡ false
    → now < c.expires_at
    → c.attempts < max_attempts
    → constant_time_equal c.pin p pin_digits ≡ false
    → verify_slot m client p now token_bytes i c ≡ (
      if leb max_attempts (c.attempts + 1) then rate_limited else invalid,
      with_challenges m (set m.challenges i (count_attempt now c)),
      none,
    )
unfolding verify_slot
verify_slot_wrong m client p now token_bytes i c a u e k w =
    ground (arith, (equal_iff c.client_address client).1 a)

pub verify_slot_locked :
    (m : AuthManager) (client p : Bytes) (now : ℕ) (token_bytes : Option Bytes) (i : ℕ)
    (c : Challenge)
    → c.client_address ≡ client
    → c.used ≡ false
    → now < c.expires_at
    → c.attempts ≡ max_attempts
    → verify_slot m client p now token_bytes i c ≡ (rate_limited, m, none)
unfolding verify_slot
verify_slot_locked m client p now token_bytes i c a u e k =
    ground (arith, (equal_iff c.client_address client).1 a)

count_attempt_fields :
    (now : ℕ) (c : Challenge)
    → ((count_attempt now c).expires_at ≡ c.expires_at)
      × ((count_attempt now c).attempts ≡ c.attempts + 1)
      × ((count_attempt now c).used ≡ c.used)
      × ((count_attempt now c).client_address ≡ c.client_address)
      × ((count_attempt now c).challenge_id ≡ c.challenge_id)
      × ((count_attempt now c).occupied ≡ c.occupied)
      × ((count_attempt now c).attempts < max_attempts → (count_attempt now c).pin ≡ c.pin)
      × ((count_attempt now c).attempts ≡ max_attempts
          → (count_attempt now c).rate_limited_until ≡ add_u64 now rate_limit_seconds)
count_attempt_fields now c = elim (Bool-cases (leb max_attempts (c.attempts + 1))) [
  | inl last ↦
      simp last (refl, refl, refl, refl, refl, refl, (λ h. absurd (ground arith)), λ h. refl)
  | inr not_last ↦
      simp not_last (refl, refl, refl, refl, refl, refl, (λ h. refl), λ h. absurd (ground arith))
]

verify_wrong :
    (m : AuthManager) (client id p : Bytes) (now t i : ℕ) (token_bytes : Option Bytes)
    → IsOpen m client id now i
    → t ≤ now
    → (get_or m.challenges i cleared_challenge).attempts < max_attempts
    → length (get_or m.challenges i cleared_challenge).pin ≡ pin_digits
    → IsWrong (get_or m.challenges i cleared_challenge).pin p
    → (verify_locked m client id p t token_bytes).1
      ≡ with_challenges m
          (set m.challenges i (count_attempt t (get_or m.challenges i cleared_challenge)))
verify_wrong m client id p now t i token_bytes o by lt lp w =
    let c = get_or m.challenges i cleared_challenge in
    let wrong : constant_time_equal c.pin p pin_digits ≡ false =
      elim (Bool-cases (constant_time_equal c.pin p pin_digits)) [
        | inl t ↦ absurd (w.1 (sym ((constant_time_equal_iff c.pin p pin_digits lp w.0).0 t)))
        | inr g ↦ g
      ] in
    ap (λ (v : Verified). v.1)
      (verify_locked_at m client id p t token_bytes i o.found
        ∙ verify_slot_wrong m client p t token_bytes i c o.same_client o.unused
            (omega (arith, o.live)) lt wrong)

Open-update :
    (m : AuthManager) (client id : Bytes) (now i : ℕ) (c' : Challenge)
    → IsOpen m client id now i
    → c'.expires_at ≡ (get_or m.challenges i cleared_challenge).expires_at
    → c'.used ≡ (get_or m.challenges i cleared_challenge).used
    → c'.client_address ≡ (get_or m.challenges i cleared_challenge).client_address
    → c'.challenge_id ≡ (get_or m.challenges i cleared_challenge).challenge_id
    → c'.occupied ≡ (get_or m.challenges i cleared_challenge).occupied
    → IsOpen (with_challenges m (set m.challenges i c')) client id now i
Open-update m client id now i c' o e u a d k =
    let read : get_or (set m.challenges i c') i cleared_challenge ≡ c' =
      get_or-set_self m.challenges i c' cleared_challenge o.held.inside in
    let hit : matches_id id c' ≡ true =
      ap₂ (λ x y. x && constant_time_equal y id challenge_id_hex_bytes) k d ∙ o.held.hit in
    record {
      held = record {
        inside = omega (arith, length-set m.challenges i c', o.held.inside);
        hit = ap (matches_id id) read ∙ hit;
      };
      found = find-set_same id m.challenges i c' o.found hit;
      same_client = ap (λ (x : Challenge). x.client_address) read ∙ a ∙ o.same_client;
      unused = ap (λ (x : Challenge). x.used) read ∙ u ∙ o.unused;
      live = subst (λ (x : Challenge). now < x.expires_at) (sym read) (omega (arith, e, o.live));
    }

-- The slot `i` holds a challenge of the client that had its fifth failed attempt at time `t`.
pub record Locked (m : AuthManager) (client id : Bytes) (now t i : ℕ) : Type 0 where
  pub open_still : IsOpen m client id now i
  pub attempts_used : (get_or m.challenges i cleared_challenge).attempts ≡ max_attempts
  pub limited_until :
      (get_or m.challenges i cleared_challenge).rate_limited_until ≡ add_u64 t rate_limit_seconds

pub verify_all-Locked :
    (m : AuthManager) (client id : Bytes) (t : ℕ) (p : Bytes) (ps : List (ℕ × Bytes)) (now i : ℕ)
    → IsOpen m client id now i
    → (get_or m.challenges i cleared_challenge).attempts + length ((t, p) ∷ ps) ≡ max_attempts
    → length (get_or m.challenges i cleared_challenge).pin ≡ pin_digits
    → All (WrongBy now (get_or m.challenges i cleared_challenge).pin) ((t, p) ∷ ps)
    → Locked (verify_all m client id ((t, p) ∷ ps)) client id now (last_time t ps) i
unfolding verify_all last_time
verify_all-Locked m client id t p [] now i o n lp w =
    let c = get_or m.challenges i cleared_challenge in
    let f = count_attempt_fields t c in
    let read : get_or (set m.challenges i (count_attempt t c)) i cleared_challenge
        ≡ count_attempt t c =
      get_or-set_self m.challenges i _ cleared_challenge o.held.inside in
    let five : (count_attempt t c).attempts ≡ max_attempts = omega (arith, f.1) in
    rw (verify_wrong m client id p now t i none o w.0.0 (omega arith) lp w.0.1) (record {
      open_still = Open-update m client id now i _ o f.0 f.2 f.3 f.4 f.5;
      attempts_used = ap (λ (x : Challenge). x.attempts) read ∙ five;
      limited_until = ap (λ (x : Challenge). x.rate_limited_until) read ∙ f.7 five;
    })
verify_all-Locked m client id t p ((u, q) ∷ qs) now i o n lp w =
    let c = get_or m.challenges i cleared_challenge in
    let f = count_attempt_fields t c in
    let read : get_or (set m.challenges i (count_attempt t c)) i cleared_challenge
        ≡ count_attempt t c =
      get_or-set_self m.challenges i _ cleared_challenge o.held.inside in
    let same : (get_or (set m.challenges i (count_attempt t c)) i cleared_challenge).pin ≡ c.pin =
      ap (λ (x : Challenge). x.pin) read ∙ f.6 (omega (arith, f.1)) in
    rw (verify_wrong m client id p now t i none o w.0.0 (omega arith) lp w.0.1) (
      verify_all-Locked (with_challenges m (set m.challenges i (count_attempt t c))) client id u q
        qs now i (Open-update m client id now i _ o f.0 f.2 f.3 f.4 f.5)
        (omega (arith, ap (λ (x : Challenge). x.attempts) read, f.1)) (ap length same ∙ lp)
        (subst (λ x. All (WrongBy now x) ((u, q) ∷ qs)) (sym same) w.1))
