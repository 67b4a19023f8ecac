-- ===== src/Upload/FlowSteps.antt =====
-- src/upload.c: every step of a streamed upload keeps its bytes in order.
use ps5_localsend.Base.{
  ℕ, ◌+◌, ◌≤◌, ◌≡◌, refl, sym, ap, subst, ◌∙◌, ◌⊎◌, inl, inr, Bool, List, [], ◌∷◌, ◌++◌,
  append_assoc, arith, ◌==◌, if◌then◌else◌, Bytes, length, take, length-append, length-take, concat,
}
use ps5_localsend.Upload.Flow.{
  HasPlace, begin_ok, begun-FlowOk, enqueue-FlowOk, FlowOk, Flow, flow_begun, flow_wrote,
  flow_drained, flow_flushed,
}
use ps5_localsend.Upload.State.{write_buffer_bytes, with_slot, Slot, UploadManager}
use ps5_localsend.Upload.Stream.{
  enqueue_write_buffer, write_count, buffer_bytes, after_enqueue, write_round, writer_queue_round,
}

-- The bytes at the end of the buffer and of those hashed.
buffer_bytes-FlowOk :
    (m : UploadManager) (bytes : Bytes) (now : ℕ)
    → FlowOk m.slot
    → length m.slot.buffered + length bytes ≤ write_buffer_bytes
    → FlowOk (buffer_bytes m bytes now).slot
unfolding buffer_bytes
buffer_bytes-FlowOk m bytes now v le =
    let s = m.slot in
    let q = concat s.write_queue in
    record {
      bytes_are = λ z.
          ap (λ x. s.part ++ x) (sym (append_assoc q s.buffered bytes))
          ∙ sym (append_assoc s.part (q ++ s.buffered) bytes)
          ∙ ap (λ x. x ++ bytes) (v.bytes_are z);
      received_is = omega (arith, v.received_is, length-append s.hashed bytes);
      buffer_fits = omega (arith, length-append s.buffered bytes);
      queue_fits = v.queue_fits;
    }

write_state :
    (m : UploadManager) (bytes : Bytes) (now : ℕ) (discard : Bool)
    → ((write_round m bytes now discard).1 ≡ m)
      ⊎ ((write_round m bytes now discard).1
          ≡ buffer_bytes m (take (write_count m.slot bytes) bytes) now)
      ⊎ ((write_round m bytes now discard).1
          ≡ (enqueue_write_buffer
              (buffer_bytes m (take (write_count m.slot bytes) bytes) now)
              discard).1)
unfolding write_round after_enqueue
write_state m bytes now discard = ground arith

kept_place :
    (m : UploadManager) (bytes : Bytes) (now : ℕ)
    → HasPlace m.slot
    → HasPlace (buffer_bytes m bytes now).slot
unfolding buffer_bytes
kept_place m bytes now p = p

write_round-FlowOk :
    (m : UploadManager) (bytes : Bytes) (now : ℕ) (discard : Bool)
    → FlowOk m.slot
    → HasPlace m.slot
    → FlowOk (write_round m bytes now discard).1.slot
write_round-FlowOk m bytes now discard v p =
    let count = write_count m.slot bytes in
    let taken = take count bytes in
    let v' =
      buffer_bytes-FlowOk m taken now v (omega (arith, length-take count bytes, v.buffer_fits)) in
    elim (write_state m bytes now discard) [
      | inl e ↦ subst (λ (x : UploadManager). FlowOk x.slot) (sym e) v
      | inr (inl e) ↦ subst (λ (x : UploadManager). FlowOk x.slot) (sym e) v'
      | inr (inr e) ↦
          subst (λ (x : UploadManager). FlowOk x.slot) (sym e)
            (enqueue-FlowOk (buffer_bytes m taken now) discard v' (kept_place m taken now p))
    ]

queue_state :
    (m : UploadManager) (b : Bytes) (queue : List Bytes) (error : ℕ) (partial : Bytes)
    → (writer_queue_round m (b ∷ queue) error partial ≡ m)
      ⊎ ((m.slot.writer_error ≡ 0)
          × (writer_queue_round m (b ∷ queue) error partial
              ≡ with_slot m (record m.slot {
                write_queue = queue;
                part = m.slot.part ++ (if error == 0 then b else partial);
                writer_error = error;
              })))
unfolding writer_queue_round
queue_state m b queue error partial = ground arith

-- The head of the queue moves to the end of the file.
popped-FlowOk :
    (s : Slot) (b : Bytes) (queue : List Bytes) (error : ℕ) (partial : Bytes)
    → FlowOk s
    → s.writer_error ≡ 0
    → s.write_queue ≡ b ∷ queue
    → FlowOk (record s {
      write_queue = queue;
      part = s.part ++ (if error == 0 then b else partial);
      writer_error = error;
    })
popped-FlowOk s b queue error partial v z q = record {
  bytes_are = λ e.
      ap (λ x. (s.part ++ x) ++ (concat queue ++ s.buffered)) (chosen e)
      ∙ append_assoc s.part b (concat queue ++ s.buffered)
      ∙ ap (λ x. s.part ++ x) (sym (append_assoc b (concat queue) s.buffered))
      ∙ ap (λ x. s.part ++ (concat x ++ s.buffered)) (sym q)
      ∙ v.bytes_are z;
  received_is = v.received_is;
  buffer_fits = v.buffer_fits;
  queue_fits = omega (arith, v.queue_fits, ap (λ (x : List Bytes). length x) q);
}
  where
    chosen : error ≡ 0 → (if error == 0 then b else partial) ≡ b
    chosen e = ground arith

queue_round-FlowOk :
    (m : UploadManager) (queue : List Bytes) (error : ℕ) (partial : Bytes)
    → m.slot.write_queue ≡ queue
    → FlowOk m.slot
    → FlowOk (writer_queue_round m queue error partial).slot
queue_round-FlowOk m [] error partial q v = unfold writer_queue_round in v
queue_round-FlowOk m (b ∷ queue) error partial q v = elim (queue_state m b queue error partial) [
  | inl e ↦ subst (λ (x : UploadManager). FlowOk x.slot) (sym e) v
  | inr (z, e) ↦
      subst (λ (x : UploadManager). FlowOk x.slot) (sym e)
        (popped-FlowOk m.slot b queue error partial v z q)
]

-- In a streamed upload, from a begin on a fresh slot on, after any rounds of writes and of the
-- writer thread in any order, the file, the queued buffers and the buffer being filled hold, in
-- this order, exactly the bytes that were hashed, unless a write to the file has failed; `received`
-- counts them; the buffer holds at most 4 MiB, and at most four buffers are queued.
pub Flow-FlowOk : (m : UploadManager) → Flow m → FlowOk m.slot
Flow-FlowOk _ (flow_begun m id client authorization size now f h) =
    subst (λ (x : UploadManager). FlowOk x.slot)
      (sym (begin_ok m id client authorization size now h)) (begun-FlowOk m.slot now f)
Flow-FlowOk _ (flow_wrote m bytes now discard r p) =
    write_round-FlowOk m bytes now discard (Flow-FlowOk m r) p
Flow-FlowOk _ (flow_drained m error partial r) =
    queue_round-FlowOk m m.slot.write_queue error partial refl (Flow-FlowOk m r)
Flow-FlowOk _ (flow_flushed m discard r p) = enqueue-FlowOk m discard (Flow-FlowOk m r) p
