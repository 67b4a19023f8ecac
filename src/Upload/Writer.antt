-- ===== src/Upload/Writer.antt =====
-- src/upload.c: the rounds of the writer thread.
use ps5_localsend.Base.{
  ℕ, zero, suc, ◌+◌, ◌≤◌, ◌<◌, ◌≡◌, refl, sym, ap, subst, ◌∙◌, inl, inr, true, false, none, List,
  [], ◌∷◌, ◌++◌, arith, Bytes, length, get_or, set, length-set,
}
use ps5_localsend.Upload.Chunks.{
  chunk_at, is_null, chunk_ready, bytes_of, chunk_written, writer_chunk_round,
}
use ps5_localsend.Upload.Content.{content_of, content, content_written}
use ps5_localsend.Upload.Invariant.{
  completed_count, chunk_length_for-min, Layout-get, ChunkOk, ChunksOk, receiving, complete,
}
use ps5_localsend.Upload.Preserve.{waiting, complete_inv, chunk_written-ChunksOk}
use ps5_localsend.Upload.State.{
  chunk_bytes, empty_chunk, with_slot, is_current, Chunk, Slot, UploadManager,
}

-- `n` rounds in which every write to the file succeeds.
abbrev pub rounds : ℕ → UploadManager → UploadManager
rounds zero m = m
rounds (suc n) m = rounds n (writer_chunk_round m 0 [])

completed_count-le : (cs : List Chunk) → completed_count cs ≤ length cs
completed_count-le [] = omega arith
completed_count-le (c ∷ cs) = ground (arith, completed_count-le cs)

all_complete :
    (cs : List Chunk) (i : ℕ)
    → completed_count cs ≡ length cs
    → i < length cs
    → 2 ≤ (get_or cs i empty_chunk).state
all_complete [] i e h = absurd (omega arith)
all_complete (c ∷ cs) zero e h = ground (arith, completed_count-le cs)
all_complete (c ∷ cs) (suc i) e h =
    all_complete cs i (ground (arith, completed_count-le cs)) (omega arith)

-- Every chunk of the slot is complete, and the writer has not failed.
pub record Draining (m : UploadManager) : Type 0 where
  pub chunks_ok : ChunksOk m.slot
  pub transport : m.slot.chunk_transport ≡ true
  pub no_error : m.slot.writer_error ≡ 0
  pub all_completed : m.slot.chunks_completed ≡ length m.slot.chunks
  pub is_running : m.writer_shutdown ≡ false
  pub no_queue : length m.slot.write_queue ≡ 0

buffered_inv :
    (size : ℕ) (c : Chunk)
    → ChunkOk size c
    → 2 ≤ c.state
    → (c.state ≡ 2) × (is_null c.buffer ≡ false)
buffered_inv size c (ChunkOk.free st p b) h = absurd (omega arith)
buffered_inv size c (receiving b st bf l p) h = absurd (omega arith)
buffered_inv size c (complete b st bf l p) h = (st, ap is_null bf)

ready :
    (s : Slot)
    → s.chunk_transport ≡ true
    → s.next_chunk_to_write < length s.chunks
    → ((chunk_at s s.next_chunk_to_write).state ≡ 2)
      × (is_null (chunk_at s s.next_chunk_to_write).buffer ≡ false)
    → chunk_ready s ≡ true
unfolding chunk_ready
ready s t h k = ground arith

-- The next chunk is in its buffer.
next_ready :
    (m : UploadManager)
    → Draining m
    → m.slot.next_chunk_to_write < length m.slot.chunks
    → chunk_ready m.slot ≡ true
next_ready m d h =
    let s = m.slot in
    let i = s.next_chunk_to_write in
    let many = all_complete s.chunks i (sym d.chunks_ok.completed_is ∙ d.all_completed) h in
    ready s d.transport h
      (elim (Layout-get s.expected_size s.part i s.chunks i d.chunks_ok.layout h) [
        | inl (lt, w) ↦ absurd (omega arith)
        | inr (le, k) ↦ buffered_inv _ (chunk_at s i) k many
      ])

round_writes :
    (m : UploadManager)
    → Draining m
    → chunk_ready m.slot ≡ true
    → writer_chunk_round m 0 [] ≡ with_slot m (chunk_written m.slot)
unfolding writer_chunk_round
round_writes m d r =
    let a = d.no_error in let b = d.is_running in let c = d.no_queue in ground arith

written-Draining :
    (m : UploadManager)
    → Draining m
    → chunk_ready m.slot ≡ true
    → Draining (with_slot m (chunk_written m.slot))
written-Draining m d r = record {
  chunks_ok = chunk_written-ChunksOk m.slot d.chunks_ok r;
  transport = unfold chunk_written in d.transport;
  no_error = unfold chunk_written in d.no_error;
  all_completed =
      unfold chunk_written in
      d.all_completed ∙ sym (length-set m.slot.chunks m.slot.next_chunk_to_write _);
  is_running = d.is_running;
  no_queue = unfold chunk_written in d.no_queue;
}

chunk_written-content :
    (s : Slot)
    → ChunksOk s
    → s.next_chunk_to_write < length s.chunks
    → (chunk_at s s.next_chunk_to_write).state ≡ 2
    → content (chunk_written s) ≡ content s
unfolding chunk_written content
chunk_written-content s v h st =
    let i = s.next_chunk_to_write in
    let w = waiting s i v h (λ x. absurd (omega arith)) in
    let (b, bf, lb, p) = complete_inv _ (chunk_at s i) w.chunk_ok st in
    let small : length b ≤ chunk_bytes =
      omega (arith, lb, chunk_length_for-min s.expected_size i) in
    subst
      (λ n.
        content_of (s.part ++ bytes_of (chunk_at s i).buffer) n
          (set s.chunks i (record (chunk_at s i) { state = 3; buffer = none }))
        ≡ content_of s.part i s.chunks)
      {x = suc i} (omega arith)
      (subst
        (λ x.
          content_of (s.part ++ x) (suc i)
            (set s.chunks i (record (chunk_at s i) { state = 3; buffer = none }))
          ≡ content_of s.part i s.chunks)
        (sym (ap bytes_of bf))
        (content_written s.expected_size s.part b i s.chunks v.layout h bf small))

-- What the writer leaves: all is in the file, and the rest is as it was.
pub record Drained (m n : UploadManager) : Type 0 where
  pub chunks_ok : ChunksOk n.slot
  pub no_error : n.slot.writer_error ≡ 0
  pub all_written : n.slot.next_chunk_to_write ≡ length n.slot.chunks
  pub same_content : content n.slot ≡ content m.slot
  pub same_name : n.slot.final_name ≡ m.slot.final_name
  pub same_hash : n.slot.expected_hash ≡ m.slot.expected_hash
  pub same_current : (id : Bytes) → is_current n.slot id ≡ is_current m.slot id
  pub same_finalizing : n.slot.finalizing_chunks ≡ m.slot.finalizing_chunks
  pub same_published : n.published ≡ m.published

at_two : (s : Slot) → chunk_ready s ≡ true → (chunk_at s s.next_chunk_to_write).state ≡ 2
unfolding chunk_ready
at_two s r = ground arith

written-Drained :
    (m n : UploadManager)
    → Draining m
    → m.slot.next_chunk_to_write < length m.slot.chunks
    → chunk_ready m.slot ≡ true
    → Drained (with_slot m (chunk_written m.slot)) n
    → Drained m n
written-Drained m n d h r e = record {
  chunks_ok = e.chunks_ok;
  no_error = e.no_error;
  all_written = e.all_written;
  same_content = e.same_content ∙ chunk_written-content m.slot d.chunks_ok h (at_two m.slot r);
  same_name = e.same_name ∙ (unfold chunk_written in refl);
  same_hash = e.same_hash ∙ (unfold chunk_written in refl);
  same_current = λ id. e.same_current id ∙ (unfold chunk_written in refl);
  same_finalizing = e.same_finalizing ∙ (unfold chunk_written in refl);
  same_published = e.same_published;
}

written_next :
    (s : Slot)
    → ((chunk_written s).next_chunk_to_write ≡ s.next_chunk_to_write + 1)
      × (length (chunk_written s).chunks ≡ length s.chunks)
unfolding chunk_written
written_next s = (refl, length-set s.chunks s.next_chunk_to_write _)

-- As many rounds as there are chunks left.
pub drain :
    (n : ℕ) (m : UploadManager)
    → Draining m
    → m.slot.next_chunk_to_write + n ≡ length m.slot.chunks
    → Drained m (rounds n m)
drain zero m d e = record {
  chunks_ok = d.chunks_ok;
  no_error = d.no_error;
  all_written = omega (arith, e);
  same_content = refl;
  same_name = refl;
  same_hash = refl;
  same_current = λ id. refl;
  same_finalizing = refl;
  same_published = refl;
}
drain (suc n) m d e =
    let h : m.slot.next_chunk_to_write < length m.slot.chunks = omega (arith, e) in
    let r = next_ready m d h in
    let m' = with_slot m (chunk_written m.slot) in
    let (next, same) = written_next m.slot in
    subst (λ x. Drained m (rounds n x)) (sym (round_writes m d r))
      (written-Drained m (rounds n m') d h r
        (drain n m' (written-Draining m d r) (omega (arith, next, same, e))))
