-- ===== src/Auth/Find.antt =====
-- src/auth.c: the search of `auth_verify_challenge_at` for the slot that holds an id.
use ps5_localsend.Auth.Invariant.{Kept}
use ps5_localsend.Auth.Ops.{matches_id, next_index, find_challenge}
use ps5_localsend.Auth.State.{cleared_challenge, Challenge}
use ps5_localsend.Base.{
  ℕ, zero, suc, ◌<◌, ◌≡◌, refl, sym, subst, inl, inr, true, false, Option, none, some, List, [],
  ◌∷◌, arith, Bool-cases, Bytes, length, get_or, set,
}

-- The slot `i` holds the id.
pub record Holds (id : Bytes) (cs : List Challenge) (i : ℕ) : Type 0 where
  pub inside : i < length cs
  pub hit : matches_id id (get_or cs i cleared_challenge) ≡ true

Holds-first :
    (id : Bytes) (c : Challenge) (cs : List Challenge)
    → matches_id id c ≡ true
    → Holds id (c ∷ cs) 0
Holds-first id c cs h = record { inside = omega arith; hit = h }

Holds-later :
    (id : Bytes) (c : Challenge) (cs : List Challenge) (i : ℕ)
    → Holds id cs i
    → Holds id (c ∷ cs) (suc i)
Holds-later id c cs i w = record { inside = omega (arith, w.inside); hit = w.hit }

next_index_inv :
    (o : Option ℕ) (i : ℕ) → next_index o ≡ some i → (j : ℕ) × (o ≡ some j) × (i ≡ suc j)
next_index_inv none i e = absurd (cc)
next_index_inv (some j) i e = (j, refl, ground arith)

pub find-Holds :
    (id : Bytes) (cs : List Challenge) (i : ℕ) → find_challenge id cs ≡ some i → Holds id cs i
unfolding find_challenge
find-Holds id [] i = λ e. absurd (cc)
find-Holds id (c ∷ cs) i = elim (Bool-cases (matches_id id c)) [
  | inl hit ↦
      simp hit
        (λ e. let z : 0 ≡ i = ground arith in subst (Holds id (c ∷ cs)) z (Holds-first id c cs hit))
  | inr miss ↦ simp miss (λ e.
      let (j, f, s) = next_index_inv (find_challenge id cs) i e in
      subst (Holds id (c ∷ cs)) (sym s) (Holds-later id c cs j (find-Holds id cs j f)))
]

pub find-set :
    (id : Bytes) (cs : List Challenge) (i : ℕ) (c : Challenge)
    → find_challenge id cs ≡ none
    → i < length cs
    → matches_id id c ≡ true
    → find_challenge id (set cs i c) ≡ some i
unfolding find_challenge
find-set id [] i c f lt h = absurd (omega arith)
find-set id (d ∷ cs) zero c f lt h = rw h
find-set id (d ∷ cs) (suc i) c f lt h = ground (arith, find-set id cs i c)

pub find-set_same :
    (id : Bytes) (cs : List Challenge) (i : ℕ) (c : Challenge)
    → find_challenge id cs ≡ some i
    → matches_id id c ≡ true
    → find_challenge id (set cs i c) ≡ some i
unfolding find_challenge
find-set_same id [] i c f h = absurd (cc)
find-set_same id (d ∷ cs) zero c f h = rw h
find-set_same id (d ∷ cs) (suc i) c f h = ground (arith, find-set_same id cs i c)

find-none_inv :
    (id : Bytes) (d : Challenge) (cs : List Challenge)
    → find_challenge id (d ∷ cs) ≡ none
    → (matches_id id d ≡ false) × (find_challenge id cs ≡ none)
unfolding find_challenge
find-none_inv id d cs f = elim (Bool-cases (matches_id id d)) [
  | inl hit ↦ absurd (cc (rw hit at f))
  | inr miss ↦ (miss, none_of_next (find_challenge id cs) (simp miss at f))
]
  where
    none_of_next : (o : Option ℕ) → next_index o ≡ none → o ≡ none
    none_of_next none e = refl
    none_of_next (some j) e = absurd (cc)

pub find-Kept :
    (id : Bytes) (cs ds : List Challenge)
    → Kept cs ds
    → find_challenge id cs ≡ none
    → find_challenge id ds ≡ none
unfolding find_challenge
find-Kept id [] [] k f = refl
find-Kept id [] (e ∷ ds) k f = absurd k
find-Kept id (d ∷ cs) [] k f = absurd k
find-Kept id (d ∷ cs) (e ∷ ds) k f =
    let (miss, rest) = find-none_inv id d cs f in
    let tail = find-Kept id cs ds k.1 rest in
    elim k.0 [
      | inl p ↦ rw (subst (λ x. matches_id id x ≡ false) (sym p) miss, tail)
      | inr p ↦ rw (p, tail)
    ]
