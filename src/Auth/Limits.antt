-- ===== src/Auth/Limits.antt =====
-- src/auth.c: a client is locked out after five wrong PINs, and how the lock ends.
use ps5_localsend.Auth.Find.{find-Holds}
use ps5_localsend.Auth.Invariant.{Kept-OnePerClient, Kept-cleanup, length-map, IsValid}
use ps5_localsend.Auth.Lifecycle.{verify_locked_at}
use ps5_localsend.Auth.Lockout.{
  verify_all, last_time, WrongBy, verify_slot_locked, verify_all-Locked, IsOpen,
}
use ps5_localsend.Auth.Ops.{
  held_by, with_challenges, create_in, create_locked, matches_id, find_challenge, Verified,
  verify_slot, verify_locked,
}
use ps5_localsend.Auth.Preserve.{verify_locked-IsValid}
use ps5_localsend.Auth.Secrets.{generate_hex}
use ps5_localsend.Auth.Slots.{NotHeld, NotHeld-set_cleared, scan-limited, NotHeld-Kept, scan_finds}
use ps5_localsend.Auth.State.{
  pin_digits, max_attempts, rate_limit_seconds, cleared_challenge, cleanup_challenge,
  cleanup_expired, Challenge, AuthManager, ok, expired, rate_limited,
}
use ps5_localsend.Base.{
  ℕ, zero, suc, ◌+◌, ◌^◌, ◌≤◌, ◌<◌, ◌≡◌, refl, sym, ap, subst, ◌∙◌, true, false, Option, none, some,
  List, [], ◌∷◌, map, arith, Bytes, equal_iff, length, get_or, set, All, length-set,
  get_or-set_self,
}

pub verify_all-IsValid :
    (m : AuthManager) (client id : Bytes) (ps : List (ℕ × Bytes))
    → IsValid m
    → IsValid (verify_all m client id ps)
unfolding verify_all generate_hex
verify_all-IsValid m client id [] v = v
verify_all-IsValid m client id ((t, p) ∷ ps) v =
    verify_all-IsValid (verify_locked m client id p t none).1 client id ps
      (verify_locked-IsValid m client id p t none (λ u h. absurd (cc)) v)

held_by_slot :
    (client id : Bytes) (c : Challenge)
    → matches_id id c ≡ true
    → c.client_address ≡ client
    → held_by client c ≡ true
unfolding held_by
held_by_slot client id c h a = ground (arith, (equal_iff c.client_address client).1 a)

cleanup_slot :
    (now : ℕ) (cs : List Challenge) (i : ℕ)
    → now < (get_or cs i cleared_challenge).rate_limited_until
    → get_or (map (cleanup_challenge now) cs) i cleared_challenge ≡ get_or cs i cleared_challenge
unfolding cleanup_challenge
cleanup_slot now [] i h = refl
cleanup_slot now (c ∷ cs) zero h = ground arith
cleanup_slot now (c ∷ cs) (suc i) h = cleanup_slot now cs i h

-- A client whose challenge is rate limited gets no other challenge.
create-rate_limited :
    (m : AuthManager) (client : Bytes) (t : ℕ) (id pin : Bytes) (i : ℕ)
    → IsValid m
    → held_by client (get_or m.challenges i cleared_challenge) ≡ true
    → t < (get_or m.challenges i cleared_challenge).rate_limited_until
    → (create_locked m client t id pin).0 ≡ rate_limited
unfolding create_locked cleanup_expired
create-rate_limited m client t id pin i v h lt =
    let cs = map (cleanup_challenge t) m.challenges in
    let same = cleanup_slot t m.challenges i lt in
    let lim =
      scan-limited t client cs i 0 none (ap (held_by client) same ∙ h)
        (subst (λ (c : Challenge). t < c.rate_limited_until) (sym same) lt)
        (Kept-OnePerClient m.challenges cs (Kept-cleanup t m.challenges) v.one_per_client) in
    simp lim refl

-- Once the attempts are used up, verify requests before the expiry change nothing.
verify_all_locked :
    (m : AuthManager) (client id : Bytes) (i : ℕ) (tries : List (ℕ × Bytes))
    → find_challenge id m.challenges ≡ some i
    → (get_or m.challenges i cleared_challenge).client_address ≡ client
    → (get_or m.challenges i cleared_challenge).used ≡ false
    → (get_or m.challenges i cleared_challenge).attempts ≡ max_attempts
    → All (λ a. a.0 < (get_or m.challenges i cleared_challenge).expires_at) tries
    → verify_all m client id tries ≡ m
unfolding verify_all
verify_all_locked m client id i [] f a u k l = refl
verify_all_locked m client id i ((t, p) ∷ tries) f a u k l =
    let c = get_or m.challenges i cleared_challenge in
    let same =
      ap (λ (r : Verified). r.1)
        (verify_locked_at m client id p t none i f
          ∙ verify_slot_locked m client p t none i c a u l.0 k) in
    ap (λ x. verify_all x client id tries) same ∙ verify_all_locked m client id i tries f a u k l.1

-- A live challenge of the client gets wrong PINs, each at any time up to `now`, at which the
-- challenge is still live, and they use up its five attempts. From the state they leave:
-- a PIN sent before the challenge expires, the right one included, is answered as rate limited,
-- opens no session and changes nothing; any sequence of further verify requests of the client for
-- this challenge, all before it expires, changes nothing either; and so a request for a new
-- challenge less than thirty seconds after the last wrong PIN, with only such requests between, is
-- refused as rate limited. Conditions: the manager is in a valid state, the right PIN and the wrong
-- ones have six characters, and the clock is not about to wrap.
pub five_wrong_pins :
    (m : AuthManager) (client id : Bytes) (t : ℕ) (p : Bytes) (ps : List (ℕ × Bytes)) (now i : ℕ)
    (pin : Bytes) (later : ℕ) (token_bytes : Option Bytes) (tries : List (ℕ × Bytes)) (t' : ℕ)
    (id' pin' : Bytes)
    → IsValid m
    → IsOpen m client id now i
    → (get_or m.challenges i cleared_challenge).attempts + length ((t, p) ∷ ps) ≡ max_attempts
    → length (get_or m.challenges i cleared_challenge).pin ≡ pin_digits
    → All (WrongBy now (get_or m.challenges i cleared_challenge).pin) ((t, p) ∷ ps)
    → last_time t ps + rate_limit_seconds < 2 ^ 64
    → later
      < (get_or (verify_all m client id ((t, p) ∷ ps)).challenges i cleared_challenge).expires_at
    → All
        (λ a.
          a.0
          < (get_or
              (verify_all m client id ((t, p) ∷ ps)).challenges
              i
              cleared_challenge).expires_at)
        tries
    → t' < last_time t ps + rate_limit_seconds
    → let m' = verify_all m client id ((t, p) ∷ ps) in
      (verify_locked m' client id pin later token_bytes ≡ (rate_limited, m', none))
      × (verify_all m' client id tries ≡ m')
      × ((create_locked (verify_all m' client id tries) client t' id' pin').0 ≡ rate_limited)
five_wrong_pins m client id t p ps now i pin later token_bytes tries t' id' pin' v o n lp w wrap
      live before soon =
    let m' = verify_all m client id ((t, p) ∷ ps) in
    let k = verify_all-Locked m client id t p ps now i o n lp w in
    let c = get_or m'.challenges i cleared_challenge in
    let q = k.open_still in
    let same =
      verify_all_locked m' client id i tries q.found q.same_client q.unused k.attempts_used
        before in
    (
      verify_locked_at m' client id pin later token_bytes i q.found
          ∙ verify_slot_locked m' client pin later token_bytes i c q.same_client q.unused live
              k.attempts_used,
      same,
      ap (λ (x : AuthManager). (create_locked x client t' id' pin').0) same
          ∙ create-rate_limited m' client t' id' pin' i
              (verify_all-IsValid m client id ((t, p) ∷ ps) v)
              (held_by_slot client id c q.held.hit q.same_client) (omega (arith, k.limited_until)),
    )

verify_slot_expired :
    (m : AuthManager) (client pin : Bytes) (now : ℕ) (token_bytes : Option Bytes) (i : ℕ)
    (c : Challenge)
    → c.client_address ≡ client
    → c.used ≡ false
    → c.expires_at ≤ now
    → verify_slot m client pin now token_bytes i c
      ≡ (expired, with_challenges m (set m.challenges i cleared_challenge), none)
unfolding verify_slot
verify_slot_expired m client pin now token_bytes i c a u e =
    ground (arith, (equal_iff c.client_address client).1 a)

create_unheld :
    (m : AuthManager) (client : Bytes) (t : ℕ) (id pin : Bytes) (i : ℕ)
    → All (NotHeld client) m.challenges
    → i < length m.challenges
    → get_or m.challenges i cleared_challenge ≡ cleared_challenge
    → (create_locked m client t id pin).0 ≡ ok
unfolding create_locked cleanup_expired create_in cleanup_challenge
create_unheld m client t id pin i n lt e =
    let cs = map (cleanup_challenge t) m.challenges in
    let (l, j, s) =
      scan_finds t client cs i 0
        (NotHeld-Kept client m.challenges cs (Kept-cleanup t m.challenges) n)
        (omega (arith, length-map (cleanup_challenge t) m.challenges))
        (map_cleared m.challenges i e) in
    simp l (rw (s, create_in))
  where
    map_cleared :
        (bs : List Challenge) (i : ℕ)
        → get_or bs i cleared_challenge ≡ cleared_challenge
        → (get_or (map (cleanup_challenge t) bs) i cleared_challenge).occupied ≡ false
    map_cleared [] i e = refl
    map_cleared (b ∷ bs) zero e = ap (λ (c : Challenge). (cleanup_challenge t c).occupied) e
    map_cleared (b ∷ bs) (suc i) e = map_cleared bs i e

-- The lock can be lifted early: when the locked challenge expires before its thirty seconds are
-- over, a client that asks for a new challenge is refused as rate limited; but if it first sends
-- one more verify request for the expired challenge, that request clears the slot with its lock,
-- and the new challenge is granted.
pub lock_lifted :
    (m : AuthManager) (client id pin : Bytes) (t : ℕ) (token_bytes : Option Bytes)
    (id' pin' : Bytes) (i : ℕ)
    → IsValid m
    → find_challenge id m.challenges ≡ some i
    → (get_or m.challenges i cleared_challenge).client_address ≡ client
    → (get_or m.challenges i cleared_challenge).used ≡ false
    → (get_or m.challenges i cleared_challenge).expires_at ≤ t
    → t < (get_or m.challenges i cleared_challenge).rate_limited_until
    → ((create_locked m client t id' pin').0 ≡ rate_limited)
      × ((verify_locked m client id pin t token_bytes).0 ≡ expired)
      × ((create_locked (verify_locked m client id pin t token_bytes).1 client t id' pin').0 ≡ ok)
lock_lifted m client id pin t token_bytes id' pin' i v f a u e lt =
    let c = get_or m.challenges i cleared_challenge in
    let h = find-Holds id m.challenges i f in
    let held = held_by_slot client id c h.hit a in
    let after =
      verify_locked_at m client id pin t token_bytes i f
      ∙ verify_slot_expired m client pin t token_bytes i c a u e in
    let n = with_challenges m (set m.challenges i cleared_challenge) in
    (
      create-rate_limited m client t id' pin' i v held lt,
      ap (λ (r : Verified). r.0) after,
      subst (λ (r : Verified). (create_locked r.1 client t id' pin').0 ≡ ok) (sym after)
          (create_unheld n client t id' pin' i
            (NotHeld-set_cleared client m.challenges i held v.one_per_client)
            (omega (arith, h.inside, length-set m.challenges i cleared_challenge))
            (get_or-set_self m.challenges i cleared_challenge cleared_challenge h.inside)),
    )
