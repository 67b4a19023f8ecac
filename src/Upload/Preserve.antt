-- ===== src/Upload/Preserve.antt =====
-- src/upload.c: the chunk operations and the writer keep the chunks, the counters and the file right.
use ps5_localsend.Base.{
  ℕ, zero, suc, ◌+◌, ◌-◌, ◌≤◌, ◌<◌, min, ◌≡◌, refl, sym, ap, ap₂, subst, ◌∙◌, ◌≢◌, inl, inr, true,
  none, some, List, [], ◌∷◌, ◌++◌, append-nil, arith, Bytes, length, get_or, set, drop,
  length-append, take_all, drop_all, drop-append,
}
use ps5_localsend.Upload.Chunks.{
  chunk_at, take_chunk, copied, fill_chunk, drop_chunk, complete_chunk, chunk_ready, bytes_of,
  chunk_written,
}
use ps5_localsend.Upload.Invariant.{
  Layout, chunk_length_for-min, total_progress-set, completed_count-set, buffer_count-set,
  Layout-set, Layout-get, ChunkOk, ChunksOk, receiving, complete,
}
use ps5_localsend.Upload.State.{
  chunk_bytes, chunk_buffer_slots, empty_chunk, chunk_length_for, Chunk, Slot, UploadManager,
}

-- A chunk that is not in the file yet.
pub record Waiting (s : Slot) (i : ℕ) : Type 0 where
  pub not_written : s.next_chunk_to_write ≤ i
  pub chunk_ok : ChunkOk (chunk_length_for s.expected_size i) (chunk_at s i)

pub waiting :
    (s : Slot) (i : ℕ) → ChunksOk s → i < length s.chunks → (chunk_at s i).state ≢ 3 → Waiting s i
waiting s i v h n =
    elim (Layout-get s.expected_size s.part s.next_chunk_to_write s.chunks i v.layout h) [
      | inl (lt, w) ↦ absurd (n w.state_is)
      | inr (le, k) ↦ record {
        not_written = le;
        chunk_ok =
            subst (λ n. ChunkOk n (chunk_at s i)) (sym (chunk_length_for-min s.expected_size i)) k;
      }
    ]

slot_set :
    (s : Slot) (i : ℕ) (c : Chunk)
    → ChunksOk s
    → s.next_chunk_to_write ≤ i
    → ChunkOk (chunk_length_for s.expected_size i) c
    → Layout s.expected_size s.part s.next_chunk_to_write (set s.chunks i c)
slot_set s i c v le k =
    Layout-set s.expected_size s.part s.next_chunk_to_write s.chunks i c v.layout le
      (subst (λ n. ChunkOk n c) (chunk_length_for-min s.expected_size i) k)

free_inv :
    (size : ℕ) (c : Chunk) → ChunkOk size c → c.state ≡ 0 → (c.progress ≡ 0) × (c.buffer ≡ none)
free_inv size c (ChunkOk.free st p b) e = (p, b)
free_inv size c (receiving b st bf l p) e = absurd (omega arith)
free_inv size c (complete b st bf l p) e = absurd (omega arith)

pub receiving_inv :
    (size : ℕ) (c : Chunk)
    → ChunkOk size c
    → c.state ≡ 1
    → (b : Bytes) × (c.buffer ≡ some b) × (length b ≡ c.progress) × (c.progress ≤ size)
receiving_inv size c (ChunkOk.free st p b) e = absurd (omega arith)
receiving_inv size c (receiving b st bf l p) e = (b, bf, l, p)
receiving_inv size c (complete b st bf l p) e = absurd (omega arith)

pub complete_inv :
    (size : ℕ) (c : Chunk)
    → ChunkOk size c
    → c.state ≡ 2
    → (b : Bytes) × (c.buffer ≡ some b) × (length b ≡ size) × (c.progress ≡ size)
complete_inv size c (ChunkOk.free st p b) e = absurd (omega arith)
complete_inv size c (receiving b st bf l p) e = absurd (omega arith)
complete_inv size c (complete b st bf l p) e = (b, bf, l, p)

pub take_chunk-ChunksOk :
    (m : UploadManager) (i now : ℕ)
    → ChunksOk m.slot
    → i < length m.slot.chunks
    → (chunk_at m.slot i).state ≡ 0
    → m.slot.active_chunk_buffers < chunk_buffer_slots
    → ChunksOk (take_chunk m i now).slot
unfolding take_chunk
take_chunk-ChunksOk m i now v h e lt =
    let s = m.slot in
    let w = waiting s i v h (λ x. absurd (omega arith)) in
    let (p, b) = free_inv _ (chunk_at s i) w.chunk_ok e in
    let c : Chunk = record { state = 1; progress = 0; buffer = some [] } in
    record {
      layout = slot_set s i c v w.not_written (receiving [] refl refl refl (omega arith));
      received_is = omega (arith, total_progress-set s.chunks i c h, v.received_is);
      completed_is = ground (arith, completed_count-set s.chunks i c h, v.completed_is);
      buffers_is = ground (arith, buffer_count-set s.chunks i c h, v.buffers_is);
      buffers_bounded = omega arith;
    }

pub copied_end :
    (b : Bytes) (at : ℕ) (bytes : Bytes)
    → length b ≡ at
    → copied (some b) at bytes ≡ some (b ++ bytes)
copied_end b at bytes h = ap some (
    ap₂ ◌++◌ (take_all at b (omega arith))
      (ap (λ t. bytes ++ t) (drop_all (at + length bytes) b (omega arith)) ∙ append-nil bytes))

pub fill_chunk-ChunksOk :
    (m : UploadManager) (i relative : ℕ) (bytes : Bytes) (now : ℕ)
    → ChunksOk m.slot
    → i < length m.slot.chunks
    → (chunk_at m.slot i).state ≡ 1
    → relative ≡ (chunk_at m.slot i).progress
    → relative + length bytes ≤ chunk_length_for m.slot.expected_size i
    → ChunksOk (fill_chunk m i relative bytes now).slot
unfolding fill_chunk
fill_chunk-ChunksOk m i relative bytes now v h e r fits =
    let s = m.slot in
    let o = chunk_at s i in
    let w = waiting s i v h (λ x. absurd (omega arith)) in
    let (b, bf, l, p) = receiving_inv _ o w.chunk_ok e in
    let c : Chunk = record o {
      progress = o.progress + length bytes;
      buffer = copied o.buffer relative bytes;
    } in
    let grown : c.buffer ≡ some (b ++ bytes) =
      ap (λ x. copied x relative bytes) bf ∙ copied_end b relative bytes (omega arith) in
    record {
      layout =
          slot_set s i c v w.not_written
            (receiving (b ++ bytes) e grown (omega (arith, length-append b bytes)) (omega arith));
      received_is = omega (arith, total_progress-set s.chunks i c h, v.received_is);
      completed_is = omega (arith, completed_count-set s.chunks i c h, v.completed_is);
      buffers_is = ground (arith, buffer_count-set s.chunks i c h, v.buffers_is);
      buffers_bounded = v.buffers_bounded;
    }

pub drop_chunk-ChunksOk :
    (s : Slot) (i : ℕ)
    → ChunksOk s
    → i < length s.chunks
    → (chunk_at s i).state ≡ 1
    → ChunksOk (drop_chunk s i)
unfolding drop_chunk
drop_chunk-ChunksOk s i v h e =
    let o = chunk_at s i in
    let w = waiting s i v h (λ x. absurd (omega arith)) in
    let (b, bf, l, p) = receiving_inv _ o w.chunk_ok e in
    let t = total_progress-set s.chunks i empty_chunk h in
    record {
      layout = slot_set s i empty_chunk v w.not_written (ChunkOk.free refl refl refl);
      received_is = ground (arith, t, v.received_is);
      completed_is = ground (arith, completed_count-set s.chunks i empty_chunk h, v.completed_is);
      buffers_is = ground (arith, buffer_count-set s.chunks i empty_chunk h, v.buffers_is);
      buffers_bounded = ground (arith, v.buffers_bounded);
    }

pub complete_chunk-ChunksOk :
    (s : Slot) (i now : ℕ)
    → ChunksOk s
    → i < length s.chunks
    → (chunk_at s i).state ≡ 1
    → (chunk_at s i).progress ≡ chunk_length_for s.expected_size i
    → ChunksOk (complete_chunk s i now)
unfolding complete_chunk
complete_chunk-ChunksOk s i now v h e f =
    let o = chunk_at s i in
    let w = waiting s i v h (λ x. absurd (omega arith)) in
    let (b, bf, l, p) = receiving_inv _ o w.chunk_ok e in
    let c : Chunk = record o { state = 2 } in
    record {
      layout = slot_set s i c v w.not_written (complete b refl bf (omega arith) f);
      received_is = omega (arith, total_progress-set s.chunks i c h, v.received_is);
      completed_is = ground (arith, completed_count-set s.chunks i c h, v.completed_is);
      buffers_is = ground (arith, buffer_count-set s.chunks i c h, v.buffers_is);
      buffers_bounded = v.buffers_bounded;
    }

part_written :
    (left : ℕ) (part b : Bytes) (next : ℕ) (cs : List Chunk)
    → Layout left part next cs
    → next < length cs
    → (get_or cs next empty_chunk).state ≡ 2
    → (get_or cs next empty_chunk).buffer ≡ some b
    → Layout left
        (part ++ b)
        (suc next)
        (set cs next (record (get_or cs next empty_chunk) { state = 3; buffer = none }))
part_written left part b zero [] l h st bf = absurd (omega arith)
part_written left part b zero (c ∷ cs) l h st bf =
    let (b', bf', lb, p) = complete_inv _ c l.1.1 st in
    let same : b' ≡ b = ground arith in
    let sized : length b ≡ min left chunk_bytes =
      subst (λ (x : Bytes). length x ≡ min left chunk_bytes) same lb in
    let joined : part ++ b ≡ b = ap (λ x. x ++ b) l.0 in
    subst (λ x. Layout left x 1 (record c { state = 3; buffer = none } ∷ cs)) (sym joined)
      (
        l.1.0,
        record { state_is = refl; progress_is = p; buffer_is = refl },
        omega arith,
        (drop_all _ b (omega arith), l.1.2),
      )
part_written left part b (suc next) [] l h st bf = absurd l
part_written left part b (suc next) (c ∷ cs) l h st bf =
    let n = min left chunk_bytes in
    (
      l.0,
      l.1,
      omega (arith, length-append part b, l.2),
      subst
          (λ x.
            Layout (left - n) x (suc next)
              (set cs next (record (get_or cs next empty_chunk) { state = 3; buffer = none })))
          (sym (drop-append n part b l.2))
          (part_written (left - n) (drop n part) b next cs l.3 (omega arith) st bf),
    )

pub chunk_written-ChunksOk :
    (s : Slot) → ChunksOk s → chunk_ready s ≡ true → ChunksOk (chunk_written s)
unfolding chunk_written chunk_ready
chunk_written-ChunksOk s v r =
    let i = s.next_chunk_to_write in
    let o = chunk_at s i in
    let h : i < length s.chunks = ground arith in
    let st : o.state ≡ 2 = ground arith in
    let w = waiting s i v h (λ x. absurd (omega arith)) in
    let (b, bf, lb, p) = complete_inv _ o w.chunk_ok st in
    let c : Chunk = record o { state = 3; buffer = none } in
    let content : bytes_of o.buffer ≡ b = ap bytes_of bf in
    record {
      layout =
          subst (λ n. Layout s.expected_size (s.part ++ bytes_of o.buffer) n (set s.chunks i c))
            {x = suc i} (omega arith)
            (subst (λ x. Layout s.expected_size (s.part ++ x) (suc i) (set s.chunks i c))
              (sym content) (part_written s.expected_size s.part b i s.chunks v.layout h st bf));
      received_is = omega (arith, total_progress-set s.chunks i c h, v.received_is);
      completed_is = ground (arith, completed_count-set s.chunks i c h, v.completed_is);
      buffers_is = ground (arith, buffer_count-set s.chunks i c h, v.buffers_is);
      buffers_bounded = ground (arith, v.buffers_bounded);
    }
