-- ===== src/Upload/Content.antt =====
-- src/upload.c: the bytes of each chunk, wherever they are, and what the operations do to them.
use ps5_localsend.Base.{
  ℕ, zero, suc, ◌-◌, ◌≤◌, ◌<◌, min, ◌≡◌, refl, sym, ap, ap₂, subst, ◌∙◌, none, some, List, [], ◌∷◌,
  ◌++◌, append-nil, arith, Bytes, length, get_or, set, take, drop, take-append-drop, length-drop,
  take_all, drop-append, take-append, concat,
}
use ps5_localsend.Upload.Chunks.{bytes_of}
use ps5_localsend.Upload.Invariant.{Layout}
use ps5_localsend.Upload.State.{chunk_bytes, empty_chunk, Chunk, Slot}

-- The bytes received of each chunk: in the file for the first `next`, in its buffer for the others.
abbrev pub content_of : Bytes → ℕ → List Chunk → List Bytes
content_of part next [] = []
content_of part zero (c ∷ cs) = bytes_of c.buffer ∷ content_of part zero cs
content_of part (suc next) (c ∷ cs) =
    take chunk_bytes part ∷ content_of (drop chunk_bytes part) next cs

unfoldable pub content : Slot → List Bytes
content s = content_of s.part s.next_chunk_to_write s.chunks

content_zero-part :
    (part part' : Bytes) (cs : List Chunk) → content_of part zero cs ≡ content_of part' zero cs
content_zero-part part part' [] = refl
content_zero-part part part' (c ∷ cs) =
    ap (λ t. bytes_of c.buffer ∷ t) (content_zero-part part part' cs)

pub content_set :
    (part : Bytes) (next : ℕ) (cs : List Chunk) (i : ℕ) (c : Chunk)
    → next ≤ i
    → content_of part next (set cs i c) ≡ set (content_of part next cs) i (bytes_of c.buffer)
content_set part next [] i c h = refl
content_set part zero (d ∷ cs) zero c h = refl
content_set part zero (d ∷ cs) (suc i) c h =
    ap (λ t. bytes_of d.buffer ∷ t) (content_set part zero cs i c (omega arith))
content_set part (suc next) (d ∷ cs) zero c h = absurd (omega arith)
content_set part (suc next) (d ∷ cs) (suc i) c h =
    ap (λ t. take chunk_bytes part ∷ t)
      (content_set (drop chunk_bytes part) next cs i c (omega arith))

pub content_get :
    (part : Bytes) (next : ℕ) (cs : List Chunk) (i : ℕ)
    → next ≤ i
    → get_or (content_of part next cs) i [] ≡ bytes_of (get_or cs i empty_chunk).buffer
content_get part next [] i h = refl
content_get part zero (d ∷ cs) zero h = refl
content_get part zero (d ∷ cs) (suc i) h = content_get part zero cs i (omega arith)
content_get part (suc next) (d ∷ cs) zero h = absurd (omega arith)
content_get part (suc next) (d ∷ cs) (suc i) h =
    content_get (drop chunk_bytes part) next cs i (omega arith)

left_pos :
    (left : ℕ) (part : Bytes) (next : ℕ) (c : Chunk) (cs : List Chunk)
    → Layout left part next (c ∷ cs)
    → 0 < left
left_pos left part zero c cs l = l.1.0
left_pos left part (suc next) c cs l = l.0

-- All chunks are in the file: it is their bytes, one after another, and as long as was announced.
pub content_whole :
    (left : ℕ) (part : Bytes) (next : ℕ) (cs : List Chunk)
    → Layout left part next cs
    → next ≡ length cs
    → (concat (content_of part next cs) ≡ part) × (length part ≡ left)
content_whole left part zero [] l e =
    (sym l.0, omega (arith, ap (λ (x : Bytes). length x) l.0, l.1))
content_whole left part zero (c ∷ cs) l e = absurd (omega arith)
content_whole left part (suc next) [] l e = absurd l
content_whole left part (suc zero) (c ∷ []) l e =
    let n = min left chunk_bytes in
    let none_left = length-drop n part in
    let sized : length part ≡ left =
      omega (arith, none_left, ap (λ (x : Bytes). length x) l.3.0, l.3.1, l.2) in
    (append-nil (take chunk_bytes part) ∙ take_all chunk_bytes part (omega (arith, l.3.1)), sized)
content_whole left part (suc (suc next)) (c ∷ []) l e = absurd l.3
content_whole left part (suc next) (c ∷ d ∷ cs) l e =
    let n = min left chunk_bytes in
    let full : n ≡ chunk_bytes = omega (arith, left_pos (left - n) (drop n part) next d cs l.3) in
    let ih = content_whole (left - n) (drop n part) next (d ∷ cs) l.3 (omega (arith, e)) in
    (
      ap (λ t. take chunk_bytes part ++ t)
            (subst (λ k. concat (content_of (drop k part) next (d ∷ cs)) ≡ drop k part) full ih.0)
          ∙ take-append-drop chunk_bytes part,
      omega (arith, length-drop n part, ih.1, l.2, l.0),
    )

pub content_written :
    (left : ℕ) (part b : Bytes) (next : ℕ) (cs : List Chunk)
    → Layout left part next cs
    → next < length cs
    → (get_or cs next empty_chunk).buffer ≡ some b
    → length b ≤ chunk_bytes
    → content_of
        (part ++ b)
        (suc next)
        (set cs next (record (get_or cs next empty_chunk) { state = 3; buffer = none }))
      ≡ content_of part next cs
content_written left part b zero [] l h bf k = absurd (omega arith)
content_written left part b zero (c ∷ cs) l h bf k =
    let joined : part ++ b ≡ b = ap (λ x. x ++ b) l.0 in
    ap₂ ◌∷◌ (ap (take chunk_bytes) joined ∙ take_all chunk_bytes b k ∙ sym (ap bytes_of bf))
      (content_zero-part (drop chunk_bytes (part ++ b)) part cs)
content_written left part b (suc next) [] l h bf k = absurd l
content_written left part b (suc next) (c ∷ []) l h bf k = absurd (omega arith)
content_written left part b (suc next) (c ∷ d ∷ cs) l h bf k =
    let n = min left chunk_bytes in
    let full : n ≡ chunk_bytes = omega (arith, left_pos (left - n) (drop n part) next d cs l.3) in
    let within : chunk_bytes ≤ length part = omega (arith, l.2, full) in
    let rest = subst (λ k. Layout (left - n) (drop k part) next (d ∷ cs)) full l.3 in
    ap₂ ◌∷◌ (take-append chunk_bytes part b within) (
      ap
        (λ x. content_of x (suc next) (
          set (d ∷ cs) next
            (record (get_or (d ∷ cs) next empty_chunk) { state = 3; buffer = none })))
        (drop-append chunk_bytes part b within)
      ∙ content_written (left - n) (drop chunk_bytes part) b next (d ∷ cs) rest (omega arith) bf k)
