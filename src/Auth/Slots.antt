-- ===== src/Auth/Slots.antt =====
-- src/auth.c: the loop of `auth_create_challenge_at` over the slots, and the search for an id.
use ps5_localsend.Auth.Invariant.{Apart, OnePerClient, Kept, Kept-refl}
use ps5_localsend.Auth.Ops.{held_by, first_slot, scan}
use ps5_localsend.Auth.State.{cleared_challenge, Challenge}
use ps5_localsend.Base.{
  ℕ, zero, suc, ◌+◌, ◌<◌, ◌≡◌, refl, sym, subst, ◌∙◌, inl, inr, true, false, Option, none, some,
  List, [], ◌∷◌, arith, ltb, if◌then◌else◌, Bool-cases, Bytes, equal, equal_iff, length, get_or,
  set, All,
}

module _ {ℓ κ} {A : Type ℓ} (P : A → Type κ) where
  pub All-set : (xs : List A) (i : ℕ) (v : A) → All P xs → P v → All P (set xs i v)
  All-set [] i v h p = tt
  All-set (x ∷ xs) zero v h p = (p, h.1)
  All-set (x ∷ xs) (suc i) v h p = (h.0, All-set xs i v h.1 p)

  pub All-get_or : (xs : List A) (i : ℕ) (d : A) → All P xs → P d → P (get_or xs i d)
  All-get_or [] i d h p = p
  All-get_or (x ∷ xs) zero d h p = h.0
  All-get_or (x ∷ xs) (suc i) d h p = All-get_or xs i d h.1 p

equal_comm : (a b : Bytes) → equal a b ≡ equal b a
equal_comm a b = elim (Bool-cases (equal a b)) [
  | inl t ↦ rw ((equal_iff a b).0 t)
  | inr f ↦ elim (Bool-cases (equal b a)) [ inl t ↦ rw ((equal_iff b a).0 t) | inr g ↦ f ∙ sym g ]
]

abbrev pub NotHeld : Bytes → Challenge → Type 0
NotHeld client c = held_by client c ≡ false

-- A slot other than the written one is apart from the new challenge if it is not its client's.
NotHeld-Apart : (c d : Challenge) → NotHeld c.client_address d → Apart d c
unfolding held_by
NotHeld-Apart c d h o = ground (arith, equal_comm c.client_address d.client_address)

NotHeld-Apart_self : (c d : Challenge) → NotHeld c.client_address d → Apart c d
NotHeld-Apart_self c d h o = h

All-NotHeld-Apart :
    (c : Challenge) (cs : List Challenge) → All (NotHeld c.client_address) cs → All (Apart c) cs
All-NotHeld-Apart c [] h = tt
All-NotHeld-Apart c (d ∷ cs) h = (NotHeld-Apart_self c d h.0, All-NotHeld-Apart c cs h.1)

-- A challenge may go into any slot when no slot is its client's.
pub OnePerClient-set :
    (cs : List Challenge) (i : ℕ) (c : Challenge)
    → All (NotHeld c.client_address) cs
    → OnePerClient cs
    → OnePerClient (set cs i c)
OnePerClient-set [] i c n h = tt
OnePerClient-set (d ∷ cs) zero c n h = (All-NotHeld-Apart c cs n.1, h.1)
OnePerClient-set (d ∷ cs) (suc i) c n h =
    (All-set (Apart d) cs i c h.0 (NotHeld-Apart c d n.0), OnePerClient-set cs i c n.1 h.1)

Apart-update :
    (d : Challenge) (cs : List Challenge) (i : ℕ) (c : Challenge)
    → c.occupied ≡ (get_or cs i cleared_challenge).occupied
    → c.client_address ≡ (get_or cs i cleared_challenge).client_address
    → All (Apart d) cs
    → All (Apart d) (set cs i c)
unfolding held_by
Apart-update d [] i c o a h = tt
Apart-update d (x ∷ cs) zero c o a h = ((λ k. rw (o, a) (h.0 k)), h.1)
Apart-update d (x ∷ cs) (suc i) c o a h = (h.0, Apart-update d cs i c o a h.1)

-- A slot may change in all but its client.
pub OnePerClient-update :
    (cs : List Challenge) (i : ℕ) (c : Challenge)
    → c.occupied ≡ (get_or cs i cleared_challenge).occupied
    → c.client_address ≡ (get_or cs i cleared_challenge).client_address
    → OnePerClient cs
    → OnePerClient (set cs i c)
OnePerClient-update [] i c o a h = tt
OnePerClient-update (d ∷ cs) zero c o a h = (
  subst (λ x. All (λ y. c.occupied ≡ true → held_by x y ≡ false) cs) (sym a) (weaken cs h.0),
  h.1,
)
  where
    weaken :
        (ys : List Challenge)
        → All (Apart d) ys
        → All (λ y. c.occupied ≡ true → held_by d.client_address y ≡ false) ys
    weaken [] k = tt
    weaken (y ∷ ys) k = ((λ e. k.0 (sym o ∙ e)), weaken ys k.1)
OnePerClient-update (d ∷ cs) (suc i) c o a h =
    (Apart-update d cs i c o a h.0, OnePerClient-update cs i c o a h.1)

-- What the loop of `auth_create_challenge_at` leaves.
pub scan-Kept :
    (now : ℕ) (client : Bytes) (cs : List Challenge) (i : ℕ) (slot : Option ℕ)
    → Kept cs (scan now client cs i slot).slots
unfolding scan
scan-Kept now client [] i slot = tt
scan-Kept now client (c ∷ cs) i slot =
    let c' = if held_by client c then cleared_challenge else c in
    let next = first_slot slot c'.occupied i in
    elim (Bool-cases (held_by client c)) [
      | inl mine ↦ elim (Bool-cases (ltb now c.rate_limited_until)) [
        | inl lim ↦ rw (mine, lim) (inl refl, Kept-refl cs)
        | inr free ↦ rw (mine, free) (inr refl, scan-Kept now client cs (i + 1) _)
      ]
      | inr other ↦ rw other (inl refl, scan-Kept now client cs (i + 1) _)
    ]

cleared-NotHeld : (client : Bytes) → NotHeld client cleared_challenge
unfolding held_by
cleared-NotHeld client = refl

pub scan-NotHeld :
    (now : ℕ) (client : Bytes) (cs : List Challenge) (i : ℕ) (slot : Option ℕ)
    → (scan now client cs i slot).limited ≡ false
    → All (NotHeld client) (scan now client cs i slot).slots
unfolding scan
scan-NotHeld now client [] i slot = λ h. tt
scan-NotHeld now client (c ∷ cs) i slot = elim (Bool-cases (held_by client c)) [
  | inl mine ↦ elim (Bool-cases (ltb now c.rate_limited_until)) [
    | inl lim ↦ rw (mine, lim) (λ h. cc)
    | inr free ↦
        rw (mine, free) (λ h. (cleared-NotHeld client, scan-NotHeld now client cs (i + 1) _ h))
  ]
  | inr other ↦ rw other (λ h. (other, scan-NotHeld now client cs (i + 1) _ h))
]

scan-slot_some :
    (now : ℕ) (client : Bytes) (cs : List Challenge) (i j : ℕ)
    → (scan now client cs i (some j)).slot ≡ some j
unfolding scan
scan-slot_some now client [] i j = refl
scan-slot_some now client (c ∷ cs) i j = ground (arith, scan-slot_some now client cs (i + 1) j)

-- The free slot that the loop picks.
pub record FreeAt (slots : List Challenge) (k : ℕ) : Type 0 where
  pub inside : k < length slots
  pub free : (get_or slots k cleared_challenge).occupied ≡ false

scan-FreeAt :
    (now : ℕ) (client : Bytes) (cs : List Challenge) (i : ℕ) (j : ℕ)
    → (scan now client cs i none).limited ≡ false
    → (scan now client cs i none).slot ≡ some j
    → (k : ℕ) × (j ≡ i + k) × FreeAt (scan now client cs i none).slots k
unfolding scan
scan-FreeAt now client [] i j = λ l h. absurd (cc)
scan-FreeAt now client (c ∷ cs) i j = elim (Bool-cases (held_by client c)) [
  | inl mine ↦ elim (Bool-cases (ltb now c.rate_limited_until)) [
    | inl lim ↦ rw (mine, lim) (λ l h. cc)
    | inr free ↦ rw (mine, free) (λ l h. here cleared_challenge refl h)
  ]
  | inr other ↦ elim (Bool-cases c.occupied) [
    | inl taken ↦ simp (other, taken) (λ l h. later (scan-FreeAt now client cs (i + 1) j l h))
    | inr free ↦ simp (other, free) (λ l h. here c free h)
  ]
]
  where
    here :
        (d : Challenge)
        → d.occupied ≡ false
        → (scan now client cs (i + 1) (some i)).slot ≡ some j
        → (k : ℕ) × (j ≡ i + k) × FreeAt (d ∷ (scan now client cs (i + 1) (some i)).slots) k
    here d f h =
        let e : some i ≡ some j = sym (scan-slot_some now client cs (i + 1) i) ∙ h in
        (0, ground arith, record { inside = omega arith; free = f })

    later :
        (k : ℕ) × (j ≡ i + 1 + k) × FreeAt (scan now client cs (i + 1) none).slots k
        → (k : ℕ) × (j ≡ i + k) × FreeAt (c ∷ (scan now client cs (i + 1) none).slots) k
    later (k, e, f) =
        (suc k, omega arith, record { inside = omega (arith, f.inside); free = f.free })

-- The slot that the whole loop finds is free, and is inside.
pub scan_start-FreeAt :
    (now : ℕ) (client : Bytes) (cs : List Challenge) (j : ℕ)
    → (scan now client cs 0 none).limited ≡ false
    → (scan now client cs 0 none).slot ≡ some j
    → FreeAt (scan now client cs 0 none).slots j
scan_start-FreeAt now client cs j go e =
    let (k, p, f) = scan-FreeAt now client cs 0 j go e in
    subst (FreeAt (scan now client cs 0 none).slots) (omega (arith, p)) f

held_by_inv :
    (client : Bytes) (c : Challenge)
    → held_by client c ≡ true
    → (c.occupied ≡ true) × (c.client_address ≡ client)
unfolding held_by
held_by_inv client c h =
    let b : (c.occupied ≡ true) × (equal c.client_address client ≡ true) = ground arith in
    (b.0, (equal_iff c.client_address client).0 b.1)

Apart-NotHeld :
    (client : Bytes) (c : Challenge) (cs : List Challenge)
    → held_by client c ≡ true
    → All (Apart c) cs
    → All (NotHeld client) cs
Apart-NotHeld client c [] h a = tt
Apart-NotHeld client c (d ∷ cs) h a =
    let (o, e) = held_by_inv client c h in
    (subst (λ x. held_by x d ≡ false) e (a.0 o), Apart-NotHeld client c cs h a.1)

-- With one challenge per client, a slot before the client's own is not the client's.
NotHeld_before :
    (client : Bytes) (c : Challenge) (cs : List Challenge) (i : ℕ)
    → held_by client (get_or cs i cleared_challenge) ≡ true
    → All (Apart c) cs
    → held_by client c ≡ false
NotHeld_before client c cs i h a = elim (Bool-cases (held_by client c)) [
  | inr f ↦ f
  | inl t ↦
      let n =
        All-get_or (NotHeld client) cs i cleared_challenge (Apart-NotHeld client c cs t a)
          (cleared-NotHeld client) in
      absurd (cc)
]

pub NotHeld-set_cleared :
    (client : Bytes) (cs : List Challenge) (i : ℕ)
    → held_by client (get_or cs i cleared_challenge) ≡ true
    → OnePerClient cs
    → All (NotHeld client) (set cs i cleared_challenge)
NotHeld-set_cleared client [] i h u = tt
NotHeld-set_cleared client (c ∷ cs) zero h u =
    (cleared-NotHeld client, Apart-NotHeld client c cs h u.0)
NotHeld-set_cleared client (c ∷ cs) (suc i) h u =
    (NotHeld_before client c cs i h u.0, NotHeld-set_cleared client cs i h u.1)

pub scan-limited :
    (now : ℕ) (client : Bytes) (cs : List Challenge) (i k : ℕ) (slot : Option ℕ)
    → held_by client (get_or cs i cleared_challenge) ≡ true
    → now < (get_or cs i cleared_challenge).rate_limited_until
    → OnePerClient cs
    → (scan now client cs k slot).limited ≡ true
unfolding scan
scan-limited now client [] i k slot h lt u = absurd (omega arith)
scan-limited now client (c ∷ cs) zero k slot h lt u = ground arith
scan-limited now client (c ∷ cs) (suc i) k slot h lt u =
    let other = NotHeld_before client c cs i h u.0 in
    simp other (scan-limited now client cs i (k + 1) _ h lt u.1)

pub NotHeld-Kept :
    (client : Bytes) (cs ds : List Challenge)
    → Kept cs ds
    → All (NotHeld client) cs
    → All (NotHeld client) ds
NotHeld-Kept client [] [] k h = tt
NotHeld-Kept client [] (e ∷ ds) k h = absurd k
NotHeld-Kept client (d ∷ cs) [] k h = absurd k
NotHeld-Kept client (d ∷ cs) (e ∷ ds) k h = (
  elim k.0 [
    | inl p ↦ subst (NotHeld client) (sym p) h.0
    | inr p ↦ subst (NotHeld client) (sym p) (cleared-NotHeld client)
  ],
  NotHeld-Kept client cs ds k.1 h.1,
)

scan_free :
    (now : ℕ) (client : Bytes) (cs : List Challenge) (k : ℕ) (slot : Option ℕ)
    → All (NotHeld client) cs
    → (scan now client cs k slot).limited ≡ false
unfolding scan
scan_free now client [] k slot n = refl
scan_free now client (c ∷ cs) k slot n = simp n.0 (scan_free now client cs (k + 1) _ n.1)

-- With no slot of the client's and a free one, the loop finds a slot.
pub scan_finds :
    (now : ℕ) (client : Bytes) (cs : List Challenge) (i k : ℕ)
    → All (NotHeld client) cs
    → i < length cs
    → (get_or cs i cleared_challenge).occupied ≡ false
    → ((scan now client cs k none).limited ≡ false)
      × (j : ℕ) × ((scan now client cs k none).slot ≡ some j)
unfolding scan
scan_finds now client [] i k n lt f = absurd (omega arith)
scan_finds now client (c ∷ cs) zero k n lt f =
    let r = scan_free now client cs (k + 1) (some k) n.1 in
    simp (n.0, f) (r, k, scan_slot_some_at k)
  where
    scan_slot_some_at : (j : ℕ) → (scan now client cs (k + 1) (some j)).slot ≡ some j
    scan_slot_some_at j = scan-slot_some now client cs (k + 1) j
scan_finds now client (c ∷ cs) (suc i) k n lt f = elim (Bool-cases c.occupied) [
  | inl taken ↦
      let (l, j, e) = scan_finds now client cs i (k + 1) n.1 (omega arith) f in
      simp (n.0, taken) (l, j, e)
  | inr empty ↦
      let r = scan_free now client cs (k + 1) (some k) n.1 in
      simp (n.0, empty) (r, k, scan-slot_some now client cs (k + 1) k)
]
