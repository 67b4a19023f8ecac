-- ===== src/Upload/Flow.antt =====
-- src/upload.c: where the bytes of a streamed upload are, from `upload_begin` on.
use ps5_localsend.Base.{
  ℕ, ◌≤◌, ◌<◌, ◌≡◌, sym, ap, ap₂, subst, ◌∙◌, ◌≢◌, ◌⊎◌, inl, inr, Bool, true, false, Option, List,
  [], ◌∷◌, ◌++◌, append-nil, append_assoc, arith, Bytes, length, length-append, concat,
}
use ps5_localsend.Upload.Ops.{begin_locked}
use ps5_localsend.Upload.State.{
  ok, write_buffer_bytes, write_queue_depth, with_slot, Slot, UploadManager,
}
use ps5_localsend.Upload.Stream.{enqueue_write_buffer, write_round, writer_queue_round}

-- A prepared slot that nothing was written to.
pub record Fresh (s : Slot) : Type 0 where
  pub no_file : s.part ≡ []
  pub no_queue : s.write_queue ≡ []
  pub no_buffer : s.buffered ≡ []
  pub none_received : s.received ≡ 0
  pub no_error : s.writer_error ≡ 0

-- Every byte that was hashed is in the file, in the queue or in the buffer, in this order, unless
-- a write has failed; the counters and the sizes are right.
pub record FlowOk (s : Slot) : Type 0 where
  pub bytes_are : s.writer_error ≡ 0 → s.part ++ (concat s.write_queue ++ s.buffered) ≡ s.hashed
  pub received_is : s.received ≡ length s.hashed
  pub buffer_fits : length s.buffered ≤ write_buffer_bytes
  pub queue_fits : length s.write_queue ≤ write_queue_depth

-- The wait for a free place in the queue is over.
abbrev pub HasPlace : Slot → Type 0
HasPlace s = (length s.write_queue < write_queue_depth) ⊎ (s.writer_error ≢ 0)

-- What a fresh slot becomes by a begin, rounds of writes and of the writer, and flushes.
pub data Flow : UploadManager → Type 0 where
  flow_begun :
      (m : UploadManager) (id : Bytes) (client authorization : Option Bytes) (size now : ℕ)
      → Fresh m.slot
      → (begin_locked m id client authorization size now).0 ≡ ok
      → Flow (begin_locked m id client authorization size now).1
  flow_wrote :
      (m : UploadManager) (bytes : Bytes) (now : ℕ) (discard : Bool)
      → Flow m
      → HasPlace m.slot
      → Flow (write_round m bytes now discard).1
  flow_drained :
      (m : UploadManager) (error : ℕ) (partial : Bytes)
      → Flow m
      → Flow (writer_queue_round m m.slot.write_queue error partial)
  flow_flushed :
      (m : UploadManager) (discard : Bool)
      → Flow m
      → HasPlace m.slot
      → Flow (enqueue_write_buffer m discard).1

pub begin_ok :
    (m : UploadManager) (id : Bytes) (client authorization : Option Bytes) (size now : ℕ)
    → (begin_locked m id client authorization size now).0 ≡ ok
    → (begin_locked m id client authorization size now).1
      ≡ with_slot m (record m.slot {
        chunk_transport = false;
        started = true;
        last_activity = now;
        hashed = [];
      })
unfolding begin_locked
begin_ok m id client authorization size now h = ground arith

pub begun-FlowOk :
    (s : Slot) (now : ℕ)
    → Fresh s
    → FlowOk
        (record s { chunk_transport = false; started = true; last_activity = now; hashed = [] })
begun-FlowOk s now f = record {
  bytes_are = λ z. ap₂ ◌++◌ f.no_file (ap₂ ◌++◌ (ap concat f.no_queue) f.no_buffer);
  received_is = f.none_received;
  buffer_fits = omega (arith, ap (λ (x : Bytes). length x) f.no_buffer);
  queue_fits = omega (arith, ap (λ (x : List Bytes). length x) f.no_queue);
}

concat-append : (xs : List Bytes) (y : Bytes) → concat (xs ++ (y ∷ [])) ≡ concat xs ++ y
concat-append [] y = append-nil y
concat-append (x ∷ xs) y =
    ap (λ z. x ++ z) (concat-append xs y) ∙ sym (append_assoc x (concat xs) y)

-- The buffer as the last of the queue.
enqueued-FlowOk :
    (s : Slot)
    → FlowOk s
    → length s.write_queue < write_queue_depth
    → FlowOk (record s { write_queue = s.write_queue ++ (s.buffered ∷ []); buffered = [] })
enqueued-FlowOk s v lt = record {
  bytes_are = λ z.
      ap (λ x. s.part ++ x) (append-nil _ ∙ concat-append s.write_queue s.buffered) ∙ v.bytes_are z;
  received_is = v.received_is;
  buffer_fits = omega arith;
  queue_fits = omega (arith, length-append s.write_queue (s.buffered ∷ []));
}

enqueue_state :
    (m : UploadManager) (discard : Bool)
    → ((enqueue_write_buffer m discard).1 ≡ m)
      ⊎ ((m.slot.writer_error ≡ 0)
          × ((enqueue_write_buffer m discard).1
              ≡ with_slot m (record m.slot {
                write_queue = m.slot.write_queue ++ (m.slot.buffered ∷ []);
                buffered = [];
              })))
unfolding enqueue_write_buffer
enqueue_state m discard = ground arith

place_of : (s : Slot) → HasPlace s → s.writer_error ≡ 0 → length s.write_queue < write_queue_depth
place_of s (inl lt) z = lt
place_of s (inr ne) z = absurd (ne z)

pub enqueue-FlowOk :
    (m : UploadManager) (discard : Bool)
    → FlowOk m.slot
    → HasPlace m.slot
    → FlowOk (enqueue_write_buffer m discard).1.slot
enqueue-FlowOk m discard v p = elim (enqueue_state m discard) [
  | inl e ↦ subst (λ (x : UploadManager). FlowOk x.slot) (sym e) v
  | inr (z, e) ↦
      subst (λ (x : UploadManager). FlowOk x.slot) (sym e)
        (enqueued-FlowOk m.slot v (place_of m.slot p z))
]
