-- ===== src/Upload/StepsMore.antt =====
-- src/upload.c: finishing and dropping a chunk, the writer, and taking and leaving the slot keep the
-- slot right.
use ps5_localsend.Base.{
  ℕ, ◌/◌, ◌<◌, ◌≡◌, sym, ap, subst, ◌≢◌, ◌⊎◌, inl, inr, Bool, true, false, some, List, [], ◌++◌,
  arith, Bytes, length,
}
use ps5_localsend.Upload.Chunks.{
  chunk_at, drop_chunk, complete_chunk, finish_index, chunk_finish_locked, upload_chunk_abort,
  chunk_ready, chunk_written, writer_chunk_round,
}
use ps5_localsend.Upload.Preserve.{
  drop_chunk-ChunksOk, complete_chunk-ChunksOk, chunk_written-ChunksOk,
}
use ps5_localsend.Upload.State.{
  chunk_bytes, with_slot, chunk_length_for, Chunk, Slot, UploadManager,
}
use ps5_localsend.Upload.Steps.{kept_or, in_transport, not_streaming, SlotOk}

finish_index_state :
    (m : UploadManager) (i size now : ℕ)
    → ((finish_index m i size now).1 ≡ m)
      ⊎ ((i < length m.slot.chunks)
          × ((chunk_at m.slot i).state ≡ 1)
          × ((finish_index m i size now).1 ≡ with_slot m (drop_chunk m.slot i)))
      ⊎ ((i < length m.slot.chunks)
          × ((chunk_at m.slot i).state ≡ 1)
          × ((chunk_at m.slot i).progress ≡ chunk_length_for m.slot.expected_size i)
          × ((finish_index m i size now).1 ≡ with_slot m (complete_chunk m.slot i now)))
unfolding finish_index
finish_index_state m i size now = ground arith

chunk_finish_state :
    (m : UploadManager) (id : Bytes) (offset size now : ℕ)
    → ((chunk_finish_locked m id offset size now).1 ≡ m)
      ⊎ ((m.slot.occupied ≡ true)
          × ((chunk_finish_locked m id offset size now).1
              ≡ (finish_index m (offset / chunk_bytes) size now).1))
unfolding chunk_finish_locked
chunk_finish_state m id offset size now = ground arith

drop_chunk-SlotOk :
    (s : Slot) (i : ℕ)
    → SlotOk s
    → s.occupied ≡ true
    → i < length s.chunks
    → (chunk_at s i).state ≡ 1
    → SlotOk (drop_chunk s i)
drop_chunk-SlotOk s i v o h e =
    let ct = in_transport s i v e in
    let st = not_streaming s ct in
    record {
      free_empty = unfold drop_chunk in λ f. absurd (cc);
      streamed = unfold drop_chunk in λ f. absurd (cc);
      chunked = λ f z. drop_chunk-ChunksOk s i (v.chunked st (unfold drop_chunk in z)) h e;
    }

complete_chunk-SlotOk :
    (s : Slot) (i now : ℕ)
    → SlotOk s
    → s.occupied ≡ true
    → i < length s.chunks
    → (chunk_at s i).state ≡ 1
    → (chunk_at s i).progress ≡ chunk_length_for s.expected_size i
    → SlotOk (complete_chunk s i now)
complete_chunk-SlotOk s i now v o h e p =
    let ct = in_transport s i v e in
    let st = not_streaming s ct in
    record {
      free_empty = unfold complete_chunk in λ f. absurd (cc);
      streamed = unfold complete_chunk in λ f. absurd (cc);
      chunked =
          λ f z. complete_chunk-ChunksOk s i now (v.chunked st (unfold complete_chunk in z)) h e p;
    }

pub chunk_finish-SlotOk :
    (m : UploadManager) (id : Bytes) (offset size now : ℕ)
    → SlotOk m.slot
    → SlotOk (chunk_finish_locked m id offset size now).1.slot
chunk_finish-SlotOk m id offset size now v =
    let i = offset / chunk_bytes in
    kept_or m _ v (chunk_finish_state m id offset size now) λ (o, e).
      subst (λ (x : UploadManager). SlotOk x.slot) (sym e)
        (kept_or m _ v (finish_index_state m i size now) (finished i o))
  where
    finished :
        (i : ℕ)
        → m.slot.occupied ≡ true
        → ((i < length m.slot.chunks)
            × ((chunk_at m.slot i).state ≡ 1)
            × ((finish_index m i size now).1 ≡ with_slot m (drop_chunk m.slot i)))
          ⊎ ((i < length m.slot.chunks)
              × ((chunk_at m.slot i).state ≡ 1)
              × ((chunk_at m.slot i).progress ≡ chunk_length_for m.slot.expected_size i)
              × ((finish_index m i size now).1 ≡ with_slot m (complete_chunk m.slot i now)))
        → SlotOk (finish_index m i size now).1.slot
    finished i o (inl (h, st, e)) =
        subst (λ (x : UploadManager). SlotOk x.slot) (sym e) (drop_chunk-SlotOk m.slot i v o h st)
    finished i o (inr (h, st, p, e)) =
        subst (λ (x : UploadManager). SlotOk x.slot) (sym e)
          (complete_chunk-SlotOk m.slot i now v o h st p)

-- The names, the flag of a finalization and the time of the last use are free.
pub touched-SlotOk :
    (s : Slot) (name id : Bytes) (finalizing : Bool) (now : ℕ)
    → SlotOk s
    → SlotOk (record s {
      final_name = name;
      upload_id = id;
      finalizing_chunks = finalizing;
      last_activity = now;
    })
touched-SlotOk s name id finalizing now v = record {
  free_empty = v.free_empty;
  streamed = v.streamed;
  chunked = λ f z.
      let k = v.chunked f z in
      record {
        layout = k.layout;
        received_is = k.received_is;
        completed_is = k.completed_is;
        buffers_is = k.buffers_is;
        buffers_bounded = k.buffers_bounded;
      };
}

chunk_abort_state :
    (m : UploadManager) (id : Bytes) (offset now : ℕ)
    → (upload_chunk_abort m (some id) offset now ≡ m)
      ⊎ ((m.slot.occupied ≡ true)
          × (offset / chunk_bytes < length m.slot.chunks)
          × ((chunk_at m.slot (offset / chunk_bytes)).state ≡ 1)
          × (upload_chunk_abort m (some id) offset now
              ≡ with_slot m
                  (record (drop_chunk m.slot (offset / chunk_bytes)) { last_activity = now })))
unfolding upload_chunk_abort
chunk_abort_state m id offset now = ground arith

pub chunk_abort-SlotOk :
    (m : UploadManager) (id : Bytes) (offset now : ℕ)
    → SlotOk m.slot
    → SlotOk (upload_chunk_abort m (some id) offset now).slot
chunk_abort-SlotOk m id offset now v =
    kept_or m _ v (chunk_abort_state m id offset now) λ (o, h, st, e).
      subst (λ (x : UploadManager). SlotOk x.slot) (sym e)
        (touched-SlotOk (drop_chunk m.slot (offset / chunk_bytes)) _ _ _ now
          (drop_chunk-SlotOk m.slot (offset / chunk_bytes) v o h st))

writer_state :
    (m : UploadManager) (error : ℕ) (partial : Bytes)
    → (writer_chunk_round m error partial ≡ m)
      ⊎ ((m.slot.writer_error ≡ 0)
          × (chunk_ready m.slot ≡ true)
          × (error ≡ 0)
          × (writer_chunk_round m error partial ≡ with_slot m (chunk_written m.slot)))
      ⊎ ((chunk_ready m.slot ≡ true)
          × (error ≢ 0)
          × (writer_chunk_round m error partial
              ≡ with_slot m
                  (record m.slot { writer_error = error; part = m.slot.part ++ partial })))
unfolding writer_chunk_round
writer_state m error partial = ground arith

ready_facts : (s : Slot) → chunk_ready s ≡ true → (s.chunk_transport ≡ true) × (s.chunks ≢ [])
unfolding chunk_ready
ready_facts s r =
    (ground arith, λ e. absurd (omega (arith, ap (λ (x : List Chunk). length x) e, below)))
  where
    below : s.next_chunk_to_write < length s.chunks
    below = ground arith

pub writer-SlotOk :
    (m : UploadManager) (error : ℕ) (partial : Bytes)
    → SlotOk m.slot
    → SlotOk (writer_chunk_round m error partial).slot
writer-SlotOk m error partial v = kept_or m _ v (writer_state m error partial) go
  where
    held : chunk_ready m.slot ≡ true → m.slot.occupied ≡ false → ⊥
    held r f = (ready_facts m.slot r).1 (v.free_empty f).0

    go :
        ((m.slot.writer_error ≡ 0)
            × (chunk_ready m.slot ≡ true)
            × (error ≡ 0)
            × (writer_chunk_round m error partial ≡ with_slot m (chunk_written m.slot)))
          ⊎ ((chunk_ready m.slot ≡ true)
              × (error ≢ 0)
              × (writer_chunk_round m error partial
                  ≡ with_slot m
                      (record m.slot { writer_error = error; part = m.slot.part ++ partial })))
        → SlotOk (writer_chunk_round m error partial).slot
    go (inl (w, r, z, e)) =
        let ct = (ready_facts m.slot r).0 in
        subst (λ (x : UploadManager). SlotOk x.slot) (sym e)
          (record {
            free_empty = unfold chunk_written in λ f. absurd (held r f);
            streamed = unfold chunk_written in λ f. absurd (ground arith);
            chunked =
                λ f y. chunk_written-ChunksOk m.slot (v.chunked (unfold chunk_written in f) w) r;
          })
    go (inr (r, ne, e)) =
        subst (λ (x : UploadManager). SlotOk x.slot) (sym e)
          (record {
            free_empty = λ f. absurd (held r f);
            streamed = v.streamed;
            chunked = λ f y. absurd (ne y);
          })
