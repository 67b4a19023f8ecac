-- ===== src/Upload/Steps.antt =====
-- src/upload.c: when a slot is right; reaping and the first chunk operations.
use ps5_localsend.Base.{
  ℕ, zero, suc, ◌+◌, ◌-◌, ◌*◌, ◌/◌, ◌≤◌, ◌<◌, ◌≡◌, refl, sym, ap, subst, ◌⊎◌, inl, inr, Bool, true,
  false, not, ◌&&◌, List, [], ◌∷◌, arith, leb, ◌==◌, Bool-cases, Bytes, length, get_or, All,
}
use ps5_localsend.Upload.Chunks.{
  chunk_at, take_chunk, begin_index, chunk_begin_locked, fill_chunk, write_index,
  chunk_write_locked,
}
use ps5_localsend.Upload.Invariant.{ChunksOk}
use ps5_localsend.Upload.Preserve.{take_chunk-ChunksOk, fill_chunk-ChunksOk}
use ps5_localsend.Upload.State.{
  chunk_bytes, chunk_buffer_slots, empty_slot, empty_chunk, clear_slot, reap, chunk_length_for,
  Chunk, Slot, UploadManager,
}

-- The slot receives one stream (`upload_begin`) and not chunks.
abbrev pub is_streaming : Slot → Bool
is_streaming s = s.started && not s.chunk_transport

-- A free slot has no chunks; without chunk transport every chunk is free; and unless the upload is
-- streamed or a write to the file has failed, the chunks, their counters and the file agree.
pub record SlotOk (s : Slot) : Type 0 where
  pub free_empty : s.occupied ≡ false → (s.chunks ≡ []) × (s.started ≡ false) × (s.writer_error ≡ 0)
  pub streamed : s.chunk_transport ≡ false → All (λ c. c ≡ empty_chunk) s.chunks
  pub chunked : is_streaming s ≡ false → s.writer_error ≡ 0 → ChunksOk s

pub empty_slot-SlotOk : SlotOk empty_slot
empty_slot-SlotOk = record {
  free_empty = λ h. (refl, refl, refl);
  streamed = λ h. tt;
  chunked = λ h e. record {
    layout = (refl, refl);
    received_is = refl;
    completed_is = refl;
    buffers_is = refl;
    buffers_bounded = omega arith;
  };
}

pub clear_slot-SlotOk : (m : UploadManager) → SlotOk (clear_slot m).slot
unfolding clear_slot
clear_slot-SlotOk m = empty_slot-SlotOk

pub reap_state : (m : UploadManager) (now : ℕ) → (reap m now ≡ m) ⊎ (reap m now ≡ clear_slot m)
unfolding reap
reap_state m now =
    elim (Bool-cases (
      not m.slot.finalizing_chunks
      && m.slot.active_chunk_writes == 0
      && m.slot.occupied
      && not (m.slot.last_activity == 0)
      && leb m.slot.last_activity now
      && leb m.lease_seconds (now - m.slot.last_activity))) [
        | inl idle ↦ inr (simp idle)
        | inr live ↦ inl (simp live)
      ]

-- A state that is the old one, or the old one cleared, or a third that is known to be right.
pub kept_or {ℓ} :
    {P : Type ℓ} (m n : UploadManager)
    → SlotOk m.slot
    → (n ≡ m) ⊎ P
    → (P → SlotOk n.slot)
    → SlotOk n.slot
kept_or m n v (inl e) f = subst (λ (x : UploadManager). SlotOk x.slot) (sym e) v
kept_or m n v (inr p) f = f p

pub cleared-SlotOk : (m n : UploadManager) → n ≡ clear_slot m → SlotOk n.slot
cleared-SlotOk m n e = subst (λ (x : UploadManager). SlotOk x.slot) (sym e) (clear_slot-SlotOk m)

pub reap-SlotOk : (m : UploadManager) (now : ℕ) → SlotOk m.slot → SlotOk (reap m now).slot
reap-SlotOk m now v = kept_or m (reap m now) v (reap_state m now) (cleared-SlotOk m (reap m now))

begin_index_state :
    (m : UploadManager) (i size now : ℕ) (allocated : Bool)
    → ((begin_index m i size now allocated).1 ≡ m)
      ⊎ ((i < length m.slot.chunks)
          × ((chunk_at m.slot i).state ≡ 0)
          × (m.slot.active_chunk_buffers < chunk_buffer_slots)
          × ((begin_index m i size now allocated).1 ≡ take_chunk m i now))
unfolding begin_index
begin_index_state m i size now allocated = ground arith

chunk_begin_state :
    (m : UploadManager) (id client authorization : Bytes) (total offset size now : ℕ)
    (allocated : Bool)
    → ((chunk_begin_locked m id client authorization total offset size now allocated).1 ≡ m)
      ⊎ ((m.slot.occupied ≡ true)
          × (is_streaming m.slot ≡ false)
          × ((chunk_begin_locked m id client authorization total offset size now allocated).1
              ≡ (begin_index m (offset / chunk_bytes) size now allocated).1))
unfolding chunk_begin_locked
chunk_begin_state m id client authorization total offset size now allocated = ground arith

take_chunk-SlotOk :
    (m : UploadManager) (i now : ℕ)
    → SlotOk m.slot
    → m.slot.occupied ≡ true
    → is_streaming m.slot ≡ false
    → i < length m.slot.chunks
    → (chunk_at m.slot i).state ≡ 0
    → m.slot.active_chunk_buffers < chunk_buffer_slots
    → SlotOk (take_chunk m i now).slot
take_chunk-SlotOk m i now v o st h e lt = record {
  free_empty = unfold take_chunk in λ f. absurd (cc);
  streamed = unfold take_chunk in λ f. absurd (ground arith);
  chunked = λ f z. take_chunk-ChunksOk m i now (v.chunked st (unfold take_chunk in z)) h e lt;
}

pub chunk_begin-SlotOk :
    (m : UploadManager) (id client authorization : Bytes) (total offset size now : ℕ)
    (allocated : Bool)
    → SlotOk m.slot
    → SlotOk (chunk_begin_locked m id client authorization total offset size now allocated).1.slot
chunk_begin-SlotOk m id client authorization total offset size now allocated v =
    kept_or m _ v (chunk_begin_state m id client authorization total offset size now allocated)
      λ (o, st, e).
        subst (λ (x : UploadManager). SlotOk x.slot) (sym e)
          (kept_or m _ v (begin_index_state m (offset / chunk_bytes) size now allocated)
            λ (h, z, lt, e').
              subst (λ (x : UploadManager). SlotOk x.slot) (sym e')
                (take_chunk-SlotOk m (offset / chunk_bytes) now v o st h z lt))

pub write_index_state :
    (m : UploadManager) (i relative : ℕ) (bytes : Bytes) (now : ℕ)
    → ((write_index m i relative bytes now).1 ≡ m)
      ⊎ ((i < length m.slot.chunks)
          × ((chunk_at m.slot i).state ≡ 1)
          × (relative ≡ (chunk_at m.slot i).progress)
          × (relative + length bytes ≤ chunk_length_for m.slot.expected_size i)
          × ((write_index m i relative bytes now).1 ≡ fill_chunk m i relative bytes now))
unfolding write_index
write_index_state m i relative bytes now = ground arith

pub chunk_write_state :
    (m : UploadManager) (id : Bytes) (offset : ℕ) (bytes : Bytes) (now : ℕ)
    → ((chunk_write_locked m id offset bytes now).1 ≡ m)
      ⊎ ((m.slot.occupied ≡ true)
          × ((chunk_write_locked m id offset bytes now).1
              ≡ (write_index m
                  (offset / chunk_bytes)
                  (offset - offset / chunk_bytes * chunk_bytes)
                  bytes
                  now).1))
unfolding chunk_write_locked
chunk_write_state m id offset bytes now = ground arith

-- A chunk is being received only in chunk transport.
pub in_transport :
    (s : Slot) (i : ℕ) → SlotOk s → (chunk_at s i).state ≡ 1 → s.chunk_transport ≡ true
in_transport s i v e = elim (Bool-cases s.chunk_transport) [
  | inl t ↦ t
  | inr f ↦ absurd (omega (arith, e, ap (λ (c : Chunk). c.state) (blank s.chunks i (v.streamed f))))
]
  where
    blank :
        (cs : List Chunk) (i : ℕ)
        → All (λ c. c ≡ empty_chunk) cs
        → get_or cs i empty_chunk ≡ empty_chunk
    blank [] i h = refl
    blank (c ∷ cs) zero h = h.0
    blank (c ∷ cs) (suc i) h = blank cs i h.1

pub not_streaming : (s : Slot) → s.chunk_transport ≡ true → is_streaming s ≡ false
not_streaming s t = ground arith

fill_chunk-SlotOk :
    (m : UploadManager) (i relative : ℕ) (bytes : Bytes) (now : ℕ)
    → SlotOk m.slot
    → m.slot.occupied ≡ true
    → i < length m.slot.chunks
    → (chunk_at m.slot i).state ≡ 1
    → relative ≡ (chunk_at m.slot i).progress
    → relative + length bytes ≤ chunk_length_for m.slot.expected_size i
    → SlotOk (fill_chunk m i relative bytes now).slot
fill_chunk-SlotOk m i relative bytes now v o h e r fits =
    let ct = in_transport m.slot i v e in
    let st = not_streaming m.slot ct in
    record {
      free_empty = unfold fill_chunk in λ f. absurd (cc);
      streamed = unfold fill_chunk in λ f. absurd (cc);
      chunked = λ f z.
          fill_chunk-ChunksOk m i relative bytes now (v.chunked st (unfold fill_chunk in z)) h e r
            fits;
    }

pub chunk_write-SlotOk :
    (m : UploadManager) (id : Bytes) (offset : ℕ) (bytes : Bytes) (now : ℕ)
    → SlotOk m.slot
    → SlotOk (chunk_write_locked m id offset bytes now).1.slot
chunk_write-SlotOk m id offset bytes now v =
    kept_or m _ v (chunk_write_state m id offset bytes now) λ (o, e).
      subst (λ (x : UploadManager). SlotOk x.slot) (sym e)
        (kept_or m _ v (write_index_state m (offset / chunk_bytes) _ bytes now)
          λ (h, st, r, fits, e').
            subst (λ (x : UploadManager). SlotOk x.slot) (sym e')
              (fill_chunk-SlotOk m (offset / chunk_bytes) _ bytes now v o h st r fits))
