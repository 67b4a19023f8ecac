-- ===== src/Upload/Invariant.antt =====
-- src/upload.c: what always holds of the chunks of an upload, of the counters kept beside them and
-- of the file that the writer extends.
use ps5_localsend.Base.{
  ℕ, zero, suc, ◌+◌, ◌-◌, ◌*◌, ◌≤◌, ◌<◌, min, ◌≡◌, refl, subst, ◌⊎◌, inl, inr, Bool, not, none,
  some, List, [], ◌∷◌, arith, leb, if◌then◌else◌, Bytes, length, get_or, set, drop,
}
use ps5_localsend.Upload.Chunks.{is_null}
use ps5_localsend.Upload.State.{
  chunk_bytes, chunk_buffer_slots, empty_chunk, chunk_length_for, Chunk, Slot,
}

-- The four states of a chunk of `size` bytes: free, receiving, complete, written.
pub data ChunkOk (size : ℕ) (c : Chunk) : Type 0 where
  free : c.state ≡ 0 → c.progress ≡ 0 → c.buffer ≡ none → ChunkOk size c
  receiving :
      (b : Bytes)
      → c.state ≡ 1
      → c.buffer ≡ some b
      → length b ≡ c.progress
      → c.progress ≤ size
      → ChunkOk size c
  complete :
      (b : Bytes)
      → c.state ≡ 2
      → c.buffer ≡ some b
      → length b ≡ size
      → c.progress ≡ size
      → ChunkOk size c

pub record WrittenOk (size : ℕ) (c : Chunk) : Type 0 where
  pub state_is : c.state ≡ 3
  pub progress_is : c.progress ≡ size
  pub buffer_is : c.buffer ≡ none

-- Chunks that wait for the writer, with `left` bytes of the file from the first of them on.
abbrev pub Pending : ℕ → List Chunk → Type 0
Pending left [] = left ≡ 0
Pending left (c ∷ cs) =
    (0 < left) × ChunkOk (min left chunk_bytes) c × Pending (left - min left chunk_bytes) cs

-- The first `next` chunks are in the file `part`, whole, and nothing else is; the others wait.
abbrev pub Layout : ℕ → Bytes → ℕ → List Chunk → Type 0
Layout left part zero cs = (part ≡ []) × Pending left cs
Layout left part (suc next) [] = ⊥
Layout left part (suc next) (c ∷ cs) =
    (0 < left)
    × WrittenOk (min left chunk_bytes) c
    × (min left chunk_bytes ≤ length part)
    × Layout (left - min left chunk_bytes) (drop (min left chunk_bytes) part) next cs

abbrev pub total_progress : List Chunk → ℕ
total_progress [] = 0
total_progress (c ∷ cs) = c.progress + total_progress cs

abbrev pub flag : Bool → ℕ
flag b = if b then 1 else 0

abbrev pub completed_count : List Chunk → ℕ
completed_count [] = 0
completed_count (c ∷ cs) = flag (leb 2 c.state) + completed_count cs

abbrev pub buffer_count : List Chunk → ℕ
buffer_count [] = 0
buffer_count (c ∷ cs) = flag (not (is_null c.buffer)) + buffer_count cs

pub record ChunksOk (s : Slot) : Type 0 where
  pub layout : Layout s.expected_size s.part s.next_chunk_to_write s.chunks
  pub received_is : s.received ≡ total_progress s.chunks
  pub completed_is : s.chunks_completed ≡ completed_count s.chunks
  pub buffers_is : s.active_chunk_buffers ≡ buffer_count s.chunks
  pub buffers_bounded : s.active_chunk_buffers ≤ chunk_buffer_slots

-- The length that `chunk_length_for` computes, as a minimum.
pub chunk_length_for-min :
    (left i : ℕ) → chunk_length_for left i ≡ min (left - i * chunk_bytes) chunk_bytes
unfolding chunk_length_for
chunk_length_for-min left i = ground arith

-- A counter after a write at one index.
module _ (f : Chunk → ℕ) (total : List Chunk → ℕ) (empty : total [] ≡ 0)
    (step : (c : Chunk) (cs : List Chunk) → total (c ∷ cs) ≡ f c + total cs) where
  pub total-set :
      (cs : List Chunk) (i : ℕ) (c : Chunk)
      → i < length cs
      → total (set cs i c) + f (get_or cs i empty_chunk) ≡ total cs + f c
  total-set [] i c h = absurd (omega arith)
  total-set (d ∷ cs) zero c h = omega (arith, step c cs, step d cs)
  total-set (d ∷ cs) (suc i) c h =
      omega (arith, step d cs, step d (set cs i c), total-set cs i c (omega arith))

pub total_progress-set :
    (cs : List Chunk) (i : ℕ) (c : Chunk)
    → i < length cs
    → total_progress (set cs i c) + (get_or cs i empty_chunk).progress
      ≡ total_progress cs + c.progress
total_progress-set = total-set (λ c. c.progress) total_progress refl (λ c cs. refl)

pub completed_count-set :
    (cs : List Chunk) (i : ℕ) (c : Chunk)
    → i < length cs
    → completed_count (set cs i c) + flag (leb 2 (get_or cs i empty_chunk).state)
      ≡ completed_count cs + flag (leb 2 c.state)
completed_count-set = total-set (λ c. flag (leb 2 c.state)) completed_count refl (λ c cs. refl)

pub buffer_count-set :
    (cs : List Chunk) (i : ℕ) (c : Chunk)
    → i < length cs
    → buffer_count (set cs i c) + flag (not (is_null (get_or cs i empty_chunk).buffer))
      ≡ buffer_count cs + flag (not (is_null c.buffer))
buffer_count-set = total-set (λ c. flag (not (is_null c.buffer))) buffer_count refl (λ c cs. refl)

Pending-set :
    (left : ℕ) (cs : List Chunk) (i : ℕ) (c : Chunk)
    → Pending left cs
    → ChunkOk (min (left - i * chunk_bytes) chunk_bytes) c
    → Pending left (set cs i c)
Pending-set left [] i c p k = p
Pending-set left (d ∷ cs) zero c p k = (p.0, subst (λ n. ChunkOk n c) (omega arith) k, p.2)
Pending-set left (d ∷ cs) (suc i) c p k = (
  p.0,
  p.1,
  Pending-set (left - min left chunk_bytes) cs i c p.2 (subst (λ n. ChunkOk n c) (omega arith) k),
)

-- A chunk that waits may change to any chunk that is right for its size.
pub Layout-set :
    (left : ℕ) (part : Bytes) (next : ℕ) (cs : List Chunk) (i : ℕ) (c : Chunk)
    → Layout left part next cs
    → next ≤ i
    → ChunkOk (min (left - i * chunk_bytes) chunk_bytes) c
    → Layout left part next (set cs i c)
Layout-set left part zero cs i c l h k = (l.0, Pending-set left cs i c l.1 k)
Layout-set left part (suc next) [] i c l h k = absurd l
Layout-set left part (suc next) (d ∷ cs) zero c l h k = absurd (omega arith)
Layout-set left part (suc next) (d ∷ cs) (suc i) c l h k = (
  l.0,
  l.1,
  l.2,
  Layout-set (left - min left chunk_bytes) (drop (min left chunk_bytes) part) next cs i c l.3
      (omega arith) (subst (λ n. ChunkOk n c) (omega arith) k),
)

Pending-get :
    (left : ℕ) (cs : List Chunk) (i : ℕ)
    → Pending left cs
    → i < length cs
    → ChunkOk (min (left - i * chunk_bytes) chunk_bytes) (get_or cs i empty_chunk)
Pending-get left [] i p h = absurd (omega arith)
Pending-get left (d ∷ cs) zero p h = subst (λ n. ChunkOk n d) (omega arith) p.1
Pending-get left (d ∷ cs) (suc i) p h =
    subst (λ n. ChunkOk n (get_or cs i empty_chunk)) (omega arith)
      (Pending-get (left - min left chunk_bytes) cs i p.2 (omega arith))

-- What is at an index: a chunk that is in the file, or one that waits.
pub Layout-get :
    (left : ℕ) (part : Bytes) (next : ℕ) (cs : List Chunk) (i : ℕ)
    → Layout left part next cs
    → i < length cs
    → ((i < next) × WrittenOk (min (left - i * chunk_bytes) chunk_bytes) (get_or cs i empty_chunk))
      ⊎ ((next ≤ i) × ChunkOk (min (left - i * chunk_bytes) chunk_bytes) (get_or cs i empty_chunk))
Layout-get left part zero cs i l h = inr (omega arith, Pending-get left cs i l.1 h)
Layout-get left part (suc next) [] i l h = absurd l
Layout-get left part (suc next) (d ∷ cs) zero l h =
    inl (omega arith, subst (λ n. WrittenOk n d) (omega arith) l.1)
Layout-get left part (suc next) (d ∷ cs) (suc i) l h =
    elim (Layout-get (left - min left chunk_bytes) (drop (min left chunk_bytes) part) next cs i l.3
      (omega arith)) [
        | inl (lt, w) ↦
            inl (omega arith, subst (λ n. WrittenOk n (get_or cs i empty_chunk)) (omega arith) w)
        | inr (le, k) ↦
            inr (omega arith, subst (λ n. ChunkOk n (get_or cs i empty_chunk)) (omega arith) k)
      ]
