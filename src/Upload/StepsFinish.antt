-- ===== src/Upload/StepsFinish.antt =====
-- src/upload.c: `upload_finish_with_metrics` keeps the slot right.
use ps5_localsend.Base.{
  ℕ, ◌≡◌, refl, sym, subst, ◌⊎◌, inl, inr, Bool, true, Option, none, some, [], ◌∷◌, ◌++◌, arith,
  ◌==◌, Bool-cases, Bytes,
}
use ps5_localsend.Upload.Ops.{failed, publish, Publication, PublishEnv, linked, renamed, exists}
use ps5_localsend.Upload.State.{
  empty_slot, with_slot, clear_slot, reap, UploadResult, UploadManager,
}
use ps5_localsend.Upload.Steps.{clear_slot-SlotOk, kept_or, reap-SlotOk, SlotOk}
use ps5_localsend.Upload.StepsStream.{unread-SlotOk}
use ps5_localsend.Upload.Stream.{
  enqueue_write_buffer, finish_failed, flush_or_fail, finish_accepted, finish_checked,
  upload_finish_begin, stream_published, publish_stream, finish_stream, finish_direct, Finishing,
  finish_ended, finish_waits, finish_hashes,
}

-- The manager at the end of a critical section of `upload_finish_with_metrics`.
unfoldable pub left_by : Finishing → UploadManager
left_by (finish_ended replied) = replied.1
left_by (finish_waits m) = m
left_by (finish_hashes m) = m

published_state :
    (m : UploadManager) (removable : Bool) (p : Publication)
    → (stream_published m removable p).1.slot ≡ empty_slot
unfolding stream_published finish_failed publish clear_slot
published_state m removable linked = refl
published_state m removable renamed = refl
published_state m removable exists = refl
published_state m removable failed = refl

ended_state :
    (m : UploadManager) (digest : Bytes) (env : PublishEnv)
    → (publish_stream m digest env).1.slot ≡ empty_slot
unfolding publish_stream finish_failed clear_slot
ended_state m digest env = let p = published_state m env.removable env.publication in ground arith

pub finish_stream_cleared :
    (digest : Bytes → Bytes) (m : UploadManager) (env : PublishEnv)
    → (finish_stream digest m env).1.slot ≡ empty_slot
unfolding finish_stream finish_failed clear_slot
finish_stream_cleared digest m env =
    let p = ended_state m (digest m.slot.hashed) env in ground arith

pub finish_direct_cleared :
    (digest : Bytes → Bytes) (m : UploadManager) (id : Bytes) (env : PublishEnv)
    → (finish_direct digest m id env).1.slot ≡ empty_slot
unfolding finish_direct finish_failed clear_slot
finish_direct_cleared digest m id env =
    let p = ended_state m (digest m.slot.part) env in ground arith

flush_state :
    (m : UploadManager) (discard : Bool)
    → ((enqueue_write_buffer m discard).1 ≡ m)
      ⊎ ((enqueue_write_buffer m discard).1
          ≡ with_slot m (record m.slot {
            write_queue = m.slot.write_queue ++ (m.slot.buffered ∷ []);
            buffered = [];
          }))
unfolding enqueue_write_buffer
flush_state m discard = ground arith

flushed-SlotOk :
    (r : ℕ × UploadManager) (removable : Bool)
    → SlotOk r.1.slot
    → SlotOk (left_by (flush_or_fail r removable)).slot
unfolding flush_or_fail left_by finish_failed
flushed-SlotOk (error, m) removable v = elim (Bool-cases (error == 0)) [
  | inl z ↦ simp z v
  | inr p ↦ simp p (clear_slot-SlotOk m)
]

finish_accepted-SlotOk :
    (m : UploadManager) (discard removable : Bool)
    → SlotOk m.slot
    → SlotOk (left_by (finish_accepted m discard removable)).slot
unfolding finish_accepted left_by
finish_accepted-SlotOk m discard removable v = elim (Bool-cases m.slot.fast_direct_stream) [
  | inl direct ↦ simp direct (unread-SlotOk m.slot _ _ _ true _ _ v)
  | inr queued ↦ simp queued (
      flushed-SlotOk (enqueue_write_buffer m discard) removable (
        kept_or m _ v (flush_state m discard) (λ e.
          subst (λ (x : UploadManager). SlotOk x.slot) (sym e)
            (unread-SlotOk m.slot _ [] _ _ _ _ v))))
]

finish_checked-SlotOk :
    (m : UploadManager) (result : Option UploadResult) (discard removable : Bool)
    → SlotOk m.slot
    → SlotOk (left_by (finish_checked m result discard removable)).slot
unfolding finish_checked left_by finish_failed
finish_checked-SlotOk m (some result) discard removable v = clear_slot-SlotOk m
finish_checked-SlotOk m none discard removable v = finish_accepted-SlotOk m discard removable v

pub upload_finish_begin-SlotOk :
    (m : UploadManager) (id : Option Bytes) (now : ℕ) (discard removable : Bool)
    → SlotOk m.slot
    → SlotOk (left_by (upload_finish_begin m id now discard removable)).slot
unfolding upload_finish_begin left_by
upload_finish_begin-SlotOk m none now discard removable v = v
upload_finish_begin-SlotOk m (some id) now discard removable v =
    finish_checked-SlotOk (reap m now) _ discard removable (reap-SlotOk m now v)
