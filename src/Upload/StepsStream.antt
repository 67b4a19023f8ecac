-- ===== src/Upload/StepsStream.antt =====
-- src/upload.c: the writes to a stream keep the slot right.
use ps5_localsend.Base.{
  ℕ, ◌+◌, ◌≡◌, refl, sym, subst, ◌∙◌, ◌⊎◌, inl, inr, Bool, true, false, Option, none, some, List,
  [], ◌∷◌, arith, ◌==◌, Bool-cases, Bytes, All,
}
use ps5_localsend.Upload.State.{empty_chunk, with_slot, reap, Slot, UploadManager}
use ps5_localsend.Upload.Steps.{is_streaming, kept_or, reap-SlotOk, SlotOk}
use ps5_localsend.Upload.Stream.{
  enqueue_write_buffer, upload_write_begin, buffer_bytes, after_enqueue, write_round,
  writer_queue_round, upload_enable_direct_stream, write_direct_begin, upload_write_direct_begin,
  write_direct_end,
}

-- What no operation on a stream changes.
record SameUpload (s s' : Slot) : Type 0 where
  same_chunks : s'.chunks ≡ s.chunks
  same_occupied : s'.occupied ≡ s.occupied
  same_started : s'.started ≡ s.started
  same_transport : s'.chunk_transport ≡ s.chunk_transport

streaming-SlotOk : (s s' : Slot) → SlotOk s → is_streaming s ≡ true → SameUpload s s' → SlotOk s'
streaming-SlotOk s s' v streams k =
    let is_started : s'.started ≡ true = ground (arith, k.same_started) in
    let no_chunks : s.chunk_transport ≡ false = ground arith in
    record {
      free_empty = λ f.
          let e = (v.free_empty (sym k.same_occupied ∙ f)).1 in
          absurd (cc (e, is_started, k.same_started));
      streamed = λ f. subst (All (λ c. c ≡ empty_chunk)) (sym k.same_chunks) (v.streamed no_chunks);
      chunked = λ f z. absurd (ground (arith, k.same_transport));
    }

-- The fields of the queue and of direct writes are free.
pub unread-SlotOk :
    (s : Slot) (queue : List Bytes) (buffer : Bytes) (direct finalizing : Bool) (writes now : ℕ)
    → SlotOk s
    → SlotOk (record s {
      write_queue = queue;
      buffered = buffer;
      fast_direct_stream = direct;
      finalizing_chunks = finalizing;
      active_chunk_writes = writes;
      last_activity = now;
    })
unread-SlotOk s queue buffer direct finalizing writes now v = record {
  free_empty = v.free_empty;
  streamed = v.streamed;
  chunked = λ f z.
      let k = v.chunked f z in
      record {
        layout = k.layout;
        received_is = k.received_is;
        completed_is = k.completed_is;
        buffers_is = k.buffers_is;
        buffers_bounded = k.buffers_bounded;
      };
}

pub upload_write_begin-SlotOk :
    (m : UploadManager) (id : Option Bytes) (size now : ℕ)
    → SlotOk m.slot
    → SlotOk (upload_write_begin m id size now).1.slot
unfolding upload_write_begin
upload_write_begin-SlotOk m none size now v = v
upload_write_begin-SlotOk m (some id) size now v = reap-SlotOk m now v

write_round_same :
    (m : UploadManager) (bytes : Bytes) (now : ℕ) (discard : Bool)
    → SameUpload m.slot (write_round m bytes now discard).1.slot
unfolding write_round buffer_bytes after_enqueue enqueue_write_buffer
write_round_same m bytes now discard = record {
  same_chunks = ground arith;
  same_occupied = ground arith;
  same_started = ground arith;
  same_transport = ground arith;
}

pub write_round-SlotOk :
    (m : UploadManager) (bytes : Bytes) (now : ℕ) (discard : Bool)
    → is_streaming m.slot ≡ true
    → SlotOk m.slot
    → SlotOk (write_round m bytes now discard).1.slot
write_round-SlotOk m bytes now discard streams v =
    streaming-SlotOk m.slot _ v streams (write_round_same m bytes now discard)

queue_round_same :
    (m : UploadManager) (queue : List Bytes) (error : ℕ) (partial : Bytes)
    → SameUpload m.slot (writer_queue_round m queue error partial).slot
unfolding writer_queue_round
queue_round_same m [] error partial = record {
  same_chunks = refl;
  same_occupied = refl;
  same_started = refl;
  same_transport = refl;
}
queue_round_same m (b ∷ queue) error partial = record {
  same_chunks = ground arith;
  same_occupied = ground arith;
  same_started = ground arith;
  same_transport = ground arith;
}

pub queue_round-SlotOk :
    (m : UploadManager) (error : ℕ) (partial : Bytes)
    → is_streaming m.slot ≡ true
    → SlotOk m.slot
    → SlotOk (writer_queue_round m m.slot.write_queue error partial).slot
queue_round-SlotOk m error partial streams v =
    streaming-SlotOk m.slot _ v streams (queue_round_same m m.slot.write_queue error partial)

enable_state :
    (m : UploadManager) (id : Bytes)
    → ((upload_enable_direct_stream m (some id)).1 ≡ m)
      ⊎ ((upload_enable_direct_stream m (some id)).1
          ≡ with_slot m (record m.slot { fast_direct_stream = true }))
unfolding upload_enable_direct_stream
enable_state m id = ground arith

pub enable-SlotOk :
    (m : UploadManager) (id : Option Bytes)
    → SlotOk m.slot
    → SlotOk (upload_enable_direct_stream m id).1.slot
unfolding upload_enable_direct_stream
enable-SlotOk m none v = v
enable-SlotOk m (some id) v = kept_or m _ v (enable_state m id) λ e.
    subst (λ (x : UploadManager). SlotOk x.slot) (sym e) (unread-SlotOk m.slot _ _ true _ _ _ v)

direct_state :
    (m : UploadManager) (id : Bytes) (size now : ℕ)
    → ((write_direct_begin m id size now).1 ≡ m)
      ⊎ ((write_direct_begin m id size now).1
          ≡ with_slot m (record m.slot {
            active_chunk_writes = m.slot.active_chunk_writes + 1;
            last_activity = now;
          }))
unfolding write_direct_begin
direct_state m id size now = ground arith

pub direct_begin-SlotOk :
    (m : UploadManager) (id : Option Bytes) (size now : ℕ)
    → SlotOk m.slot
    → SlotOk (upload_write_direct_begin m id size now).1.slot
unfolding upload_write_direct_begin
direct_begin-SlotOk m none size now v = v
direct_begin-SlotOk m (some id) size now v = elim (Bool-cases (size == 0)) [
  | inl z ↦ simp z v
  | inr p ↦
      let m' = reap m now in
      let w = reap-SlotOk m now v in
      simp p (
        kept_or m' _ w (direct_state m' id size now) (λ e.
          subst (λ (x : UploadManager). SlotOk x.slot) (sym e)
            (unread-SlotOk m'.slot _ _ _ _ _ now w)))
]

direct_end_same :
    (m : UploadManager) (bytes : Bytes) (error : ℕ) (partial : Bytes) (now : ℕ)
    → SameUpload m.slot (write_direct_end m bytes error partial now).1.slot
unfolding write_direct_end
direct_end_same m bytes error partial now = record {
  same_chunks = ground arith;
  same_occupied = ground arith;
  same_started = ground arith;
  same_transport = ground arith;
}

pub direct_end-SlotOk :
    (m : UploadManager) (bytes : Bytes) (error : ℕ) (partial : Bytes) (now : ℕ)
    → is_streaming m.slot ≡ true
    → SlotOk m.slot
    → SlotOk (write_direct_end m bytes error partial now).1.slot
direct_end-SlotOk m bytes error partial now streams v =
    streaming-SlotOk m.slot _ v streams (direct_end_same m bytes error partial now)
