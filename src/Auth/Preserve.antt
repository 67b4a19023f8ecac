-- ===== src/Auth/Preserve.antt =====
-- src/auth.c: each operation of the manager keeps the invariant.
use ps5_localsend.Auth.Find.{find-Holds}
use ps5_localsend.Auth.Invariant.{
  SingleSession, cleared_challenge-ChallengeOk, Kept-set, Kept-IsValid, length-map,
  cleanup_expired-IsValid, ChallengeOk, IsValid,
}
use ps5_localsend.Auth.Ops.{
  scan, with_challenges, fill_slot, create_in, create_locked, find_challenge, count_attempt,
  open_session, verify_slot, verify_found, verify_locked,
}
use ps5_localsend.Auth.Secrets.{generate_hex}
use ps5_localsend.Auth.Slots.{
  All-set, All-get_or, NotHeld, OnePerClient-set, OnePerClient-update, scan-Kept, scan-NotHeld,
  scan_start-FreeAt, FreeAt,
}
use ps5_localsend.Auth.State.{
  challenge_id_hex_bytes, token_hex_bytes, max_attempts, cleared_challenge, cleared_session,
  cleanup_expired, Challenge, Session, AuthManager,
}
use ps5_localsend.Base.{
  ℕ, ◌+◌, ◌/◌, ◌<◌, ◌≡◌, refl, sym, ap, subst, ◌∙◌, ◌⊎◌, inl, inr, true, false, Option, none, some,
  List, [], ◌∷◌, map, arith, leb, Bool-cases, Bytes, length, get_or, set, All, length-set,
}

fill_slot-ChallengeOk :
    (m : AuthManager) (client : Bytes) (now : ℕ) (id pin : Bytes) (c : Challenge)
    → length id ≡ challenge_id_hex_bytes
    → c.occupied ≡ false
    → ChallengeOk c
    → ChallengeOk (fill_slot m client now id pin c)
fill_slot-ChallengeOk m client now id pin c l free h =
    let blank : c ≡ cleared_challenge = h.free_is_clear free in
    record {
      free_is_clear = λ e. cc;
      attempts_bounded = h.attempts_bounded;
      pin_gone = λ e. absurd (omega (arith, e, ap (λ (d : Challenge). d.attempts) blank));
      id_length = λ _. l;
    }

create_in-IsValid :
    (m : AuthManager) (client : Bytes) (now : ℕ) (id pin : Bytes) (slots : List Challenge)
    (slot : Option ℕ)
    → length id ≡ challenge_id_hex_bytes
    → IsValid (with_challenges m slots)
    → All (NotHeld client) slots
    → ((j : ℕ) → slot ≡ some j → FreeAt slots j)
    → IsValid (create_in m client now id pin slots slot).1
unfolding create_in
create_in-IsValid m client now id pin slots none l v apart free = v
create_in-IsValid m client now id pin slots (some j) l v apart free =
    let c = get_or slots j cleared_challenge in
    record {
      challenge_slots = length-set slots j _ ∙ v.challenge_slots;
      session_slots = v.session_slots;
      challenges_ok = All-set ChallengeOk slots j _ v.challenges_ok (
          fill_slot-ChallengeOk m client now id pin c l (free j refl).free (
            All-get_or ChallengeOk slots j cleared_challenge v.challenges_ok
              cleared_challenge-ChallengeOk));
      one_per_client = OnePerClient-set slots j _ apart v.one_per_client;
      single_session = v.single_session;
    }

pub create_locked-IsValid :
    (m : AuthManager) (client : Bytes) (now : ℕ) (id pin : Bytes)
    → length id ≡ challenge_id_hex_bytes
    → IsValid m
    → IsValid (create_locked m client now id pin).1
unfolding create_locked
create_locked-IsValid m client now id pin l v =
    let m' = cleanup_expired m now in
    let s = scan now client m'.challenges 0 none in
    let kept = scan-Kept now client m'.challenges 0 none in
    let w = Kept-IsValid m' s.slots kept (cleanup_expired-IsValid m now v) in
    elim (Bool-cases s.limited) [
      | inl lim ↦ simp lim w
      | inr go ↦ simp go (
          create_in-IsValid m' client now id pin s.slots s.slot l w
            (scan-NotHeld now client m'.challenges 0 none go)
            (λ j e. scan_start-FreeAt now client m'.challenges j go e))
    ]

update-IsValid :
    (m : AuthManager) (i : ℕ) (c : Challenge)
    → ChallengeOk c
    → c.occupied ≡ (get_or m.challenges i cleared_challenge).occupied
    → c.client_address ≡ (get_or m.challenges i cleared_challenge).client_address
    → IsValid m
    → IsValid (with_challenges m (set m.challenges i c))
update-IsValid m i c h o a v = record {
  challenge_slots = length-set m.challenges i c ∙ v.challenge_slots;
  session_slots = v.session_slots;
  challenges_ok = All-set ChallengeOk m.challenges i c v.challenges_ok h;
  one_per_client = OnePerClient-update m.challenges i c o a v.one_per_client;
  single_session = v.single_session;
}

count_attempt-ChallengeOk :
    (now : ℕ) (c : Challenge)
    → c.attempts < max_attempts
    → c.occupied ≡ true
    → ChallengeOk c
    → ChallengeOk (count_attempt now c)
count_attempt-ChallengeOk now c lt o h = elim (Bool-cases (leb max_attempts (c.attempts + 1))) [
  | inl last ↦ simp last (record {
    free_is_clear = λ e. cc;
    attempts_bounded = omega arith;
    pin_gone = λ e. refl;
    id_length = h.id_length;
  })
  | inr more ↦ simp more (record {
    free_is_clear = λ e. cc;
    attempts_bounded = omega arith;
    pin_gone = λ e. absurd (ground arith);
    id_length = h.id_length;
  })
]

cleared_sessions :
    (ss : List Session) → All (λ r. r ≡ cleared_session) (map (λ (s : Session). cleared_session) ss)
cleared_sessions [] = tt
cleared_sessions (s ∷ ss) = (refl, cleared_sessions ss)

set-SingleSession :
    (ss : List Session) (s : Session)
    → length s.token ≡ token_hex_bytes
    → SingleSession (set (map (λ (r : Session). cleared_session) ss) 0 s)
set-SingleSession [] s l = tt
set-SingleSession (r ∷ ss) s l = ((λ _. l), cleared_sessions ss)

open_session-IsValid :
    (m : AuthManager) (client : Bytes) (now i : ℕ) (c : Challenge) (token : Option Bytes)
    → ((t : Bytes) → token ≡ some t → length t ≡ token_hex_bytes)
    → c.occupied ≡ true
    → c ≡ get_or m.challenges i cleared_challenge
    → IsValid m
    → IsValid (open_session m client now i c token).1
unfolding open_session
open_session-IsValid m client now i c none l o e v = v
open_session-IsValid m client now i c (some t) l o e v =
    let h = subst ChallengeOk (sym e) (
      All-get_or ChallengeOk m.challenges i cleared_challenge v.challenges_ok
        cleared_challenge-ChallengeOk) in
    let spent = record c { used = true; pin = [] } in
    let w =
      update-IsValid m i spent
        (record {
          free_is_clear = λ f. cc;
          attempts_bounded = h.attempts_bounded;
          pin_gone = λ _. refl;
          id_length = h.id_length;
        })
        (ap (λ (d : Challenge). d.occupied) e) (ap (λ (d : Challenge). d.client_address) e) v in
    record {
      challenge_slots = w.challenge_slots;
      session_slots =
          length-set (map (λ (s : Session). cleared_session) m.sessions) 0 _
          ∙ length-map (λ (s : Session). cleared_session) m.sessions
          ∙ v.session_slots;
      challenges_ok = w.challenges_ok;
      one_per_client = w.one_per_client;
      single_session = set-SingleSession m.sessions _ (l t refl);
    }

-- What `auth_verify_challenge_at` may do to the slot that holds the id.
verify_slot_state :
    (m : AuthManager) (client pin : Bytes) (now : ℕ) (token_bytes : Option Bytes) (i : ℕ)
    (c : Challenge)
    → ((verify_slot m client pin now token_bytes i c).1 ≡ m)
      ⊎ ((verify_slot m client pin now token_bytes i c).1
          ≡ with_challenges m (set m.challenges i cleared_challenge))
      ⊎ ((c.attempts < max_attempts)
          × ((verify_slot m client pin now token_bytes i c).1
              ≡ with_challenges m (set m.challenges i (count_attempt now c))))
      ⊎ ((verify_slot m client pin now token_bytes i c).1
          ≡ (open_session m client now i c (generate_hex (token_hex_bytes / 2) token_bytes)).1)
unfolding verify_slot
verify_slot_state m client pin now token_bytes i c = ground arith

count_attempt-client :
    (now : ℕ) (c : Challenge)
    → ((count_attempt now c).client_address ≡ c.client_address)
      × ((count_attempt now c).occupied ≡ c.occupied)
count_attempt-client now c = ground arith

verify_slot-IsValid :
    (m : AuthManager) (client pin : Bytes) (now : ℕ) (token_bytes : Option Bytes) (i : ℕ)
    → ((t : Bytes)
        → generate_hex (token_hex_bytes / 2) token_bytes ≡ some t
        → length t ≡ token_hex_bytes)
    → (get_or m.challenges i cleared_challenge).occupied ≡ true
    → IsValid m
    → IsValid
        (verify_slot m client pin now token_bytes i (get_or m.challenges i cleared_challenge)).1
verify_slot-IsValid m client pin now token_bytes i l o v =
    let c = get_or m.challenges i cleared_challenge in
    let h =
      All-get_or ChallengeOk m.challenges i cleared_challenge v.challenges_ok
        cleared_challenge-ChallengeOk in
    elim (verify_slot_state m client pin now token_bytes i c) [
      | inl e ↦ subst IsValid (sym e) v
      | inr (inl e) ↦ subst IsValid (sym e) (Kept-IsValid m _ (Kept-set m.challenges i) v)
      | inr (inr (inl (lt, e))) ↦ subst IsValid (sym e) (
          update-IsValid m i (count_attempt now c) (count_attempt-ChallengeOk now c lt o h)
            (count_attempt-client now c).1 (count_attempt-client now c).0 v)
      | inr (inr (inr e)) ↦
          subst IsValid (sym e) (open_session-IsValid m client now i c _ l o refl v)
    ]

verify_found-IsValid :
    (m : AuthManager) (client id pin : Bytes) (now : ℕ) (token_bytes : Option Bytes) (o : Option ℕ)
    → ((t : Bytes)
        → generate_hex (token_hex_bytes / 2) token_bytes ≡ some t
        → length t ≡ token_hex_bytes)
    → find_challenge id m.challenges ≡ o
    → IsValid m
    → IsValid (verify_found m client pin now token_bytes o).1
unfolding verify_found
verify_found-IsValid m client id pin now token_bytes none l f v = v
verify_found-IsValid m client id pin now token_bytes (some i) l f v =
    let h = (find-Holds id m.challenges i f).hit in
    verify_slot-IsValid m client pin now token_bytes i l (ground arith) v

pub verify_locked-IsValid :
    (m : AuthManager) (client id pin : Bytes) (now : ℕ) (token_bytes : Option Bytes)
    → ((t : Bytes)
        → generate_hex (token_hex_bytes / 2) token_bytes ≡ some t
        → length t ≡ token_hex_bytes)
    → IsValid m
    → IsValid (verify_locked m client id pin now token_bytes).1
unfolding verify_locked
verify_locked-IsValid m client id pin now token_bytes l v =
    verify_found-IsValid m client id pin now token_bytes _ l refl v
