-- ===== src/Upload/StreamComplete.antt =====
-- src/upload.c: a stream that was received whole is published.
use ps5_localsend.Base.{
  ℕ, ◌≡◌, refl, sym, ap, ap₂, subst, ◌∙◌, ◌≢◌, inl, inr, Bool, true, false, not, Option, none, some,
  ◌∷◌, ◌++◌, arith, Bool-cases, Bytes, length, concat,
}
use ps5_localsend.Upload.Complete.{publish_facts, AllWell}
use ps5_localsend.Upload.Flow.{HasPlace, enqueue-FlowOk, FlowOk, Flow}
use ps5_localsend.Upload.FlowSteps.{Flow-FlowOk}
use ps5_localsend.Upload.Ops.{Replied, publish, hash_differs, Publication, PublishEnv, linked}
use ps5_localsend.Upload.Preserve.{waiting}
use ps5_localsend.Upload.State.{ok, clear_slot, reap, UploadResult, UploadManager}
use ps5_localsend.Upload.Steps.{reap_state}
use ps5_localsend.Upload.Stream.{
  enqueue_write_buffer, finish_check, flush_or_fail, finish_accepted, finish_checked,
  upload_finish_begin, stream_published, publish_stream, queue_done, finish_stream, finish_waits,
}
use ps5_localsend.Upload.StreamFinish.{emptied_part, queue_rounds, emptied, drain_queue}

-- What `finish_waits` says of the state before it.
pub record Accepted (m m' : UploadManager) (discard : Bool) : Type 0 where
  pub whole : m.slot.received ≡ m.slot.expected_size
  pub no_error : m.slot.writer_error ≡ 0
  pub flushed : enqueue_write_buffer m discard ≡ (0, m')

flush_facts :
    (r : ℕ × UploadManager) (m' : UploadManager) (removable : Bool)
    → flush_or_fail r removable ≡ finish_waits m'
    → r ≡ (0, m')
unfolding flush_or_fail
flush_facts (error, m) m' removable h = ground arith

accepted_facts :
    (m m' : UploadManager) (discard removable : Bool)
    → finish_accepted m discard removable ≡ finish_waits m'
    → enqueue_write_buffer m discard ≡ (0, m')
unfolding finish_accepted
accepted_facts m m' discard removable h = elim (Bool-cases m.slot.fast_direct_stream) [
  | inl t ↦ absurd (ground arith)
  | inr f ↦ flush_facts (enqueue_write_buffer m discard) m' removable (ground arith)
]

checked_facts :
    (m m' : UploadManager) (o : Option UploadResult) (discard removable : Bool)
    → finish_checked m o discard removable ≡ finish_waits m'
    → (o ≡ none) × (enqueue_write_buffer m discard ≡ (0, m'))
unfolding finish_checked
checked_facts m m' (some result) discard removable h = absurd (cc)
checked_facts m m' none discard removable h = (refl, accepted_facts m m' discard removable h)

check_facts :
    (m : UploadManager) (id : Bytes)
    → finish_check m id ≡ none
    → (m.slot.received ≡ m.slot.expected_size)
      × (m.slot.writer_error ≡ 0)
      × (m.slot.occupied ≡ true)
unfolding finish_check
check_facts m id h = ground arith

cleared_free : (m : UploadManager) → (clear_slot m).slot.occupied ≢ true
unfolding clear_slot
cleared_free m e = absurd (cc)

-- A slot that was reaped is not accepted.
pub accepted :
    (m m' : UploadManager) (id : Bytes) (now : ℕ) (discard removable : Bool)
    → upload_finish_begin m (some id) now discard removable ≡ finish_waits m'
    → Accepted m m' discard
unfolding upload_finish_begin
accepted m m' id now discard removable h =
    let (open_check, flushed) = checked_facts (reap m now) m' _ discard removable h in
    let (whole, z, o) = check_facts (reap m now) id open_check in
    elim (reap_state m now) [
      | inl e ↦ record {
        whole = subst (λ (x : UploadManager). x.slot.received ≡ x.slot.expected_size) e whole;
        no_error = subst (λ (x : UploadManager). x.slot.writer_error ≡ 0) e z;
        flushed = subst (λ x. enqueue_write_buffer x discard ≡ (0, m')) e flushed;
      }
      | inr e ↦ absurd (cleared_free m (subst (λ (x : UploadManager). x.slot.occupied ≡ true) e o))
    ]

-- After the flush the buffer is empty, and what is published and announced is unchanged.
pub flush_state :
    (m m' : UploadManager) (discard : Bool)
    → enqueue_write_buffer m discard ≡ (0, m')
    → (length m'.slot.buffered ≡ 0)
      × (m'.slot.hashed ≡ m.slot.hashed)
      × (m'.slot.final_name ≡ m.slot.final_name)
      × (m'.slot.expected_hash ≡ m.slot.expected_hash)
      × (m'.slot.writer_error ≡ m.slot.writer_error)
      × (m'.published ≡ m.published)
      × (m'.writer_shutdown ≡ m.writer_shutdown)
      × (m'.writer_active ≡ m.writer_active)
unfolding enqueue_write_buffer
flush_state m m' discard h = ground arith

stream_linked :
    (m : UploadManager) (removable : Bool) (p : Publication)
    → p ≡ linked
    → stream_published m removable p ≡ publish m
unfolding stream_published
stream_linked m removable p e = ap (stream_published m removable) e

stream_well :
    (digest : Bytes → Bytes) (m : UploadManager) (env : PublishEnv)
    → AllWell env
    → m.slot.writer_error ≡ 0
    → hash_differs m.slot.expected_hash (digest m.slot.hashed) ≡ false
    → finish_stream digest m env ≡ publish m
unfolding finish_stream publish_stream
stream_well digest m env w z h =
    let p = stream_linked m env.removable env.publication w.linked_is in
    let b = w.synced in let c = w.closed_is in ground arith

-- If `upload_finish_with_metrics` accepts a streamed upload, then as many writer rounds as there
-- are queued buffers end its wait for the writer, and it answers `ok` and publishes all the bytes that were
-- received, in their order and as many as announced, under the prepared name. Conditions: the
-- stream began on a fresh slot, the queue has a place for the last buffer, the writer thread runs
-- and is between two rounds, its writes and the calls of the finalization succeed, and the hash is the announced one.
pub stream_complete :
    (digest : Bytes → Bytes) (m m' : UploadManager) (id : Bytes) (now : ℕ)
    (discard removable : Bool) (env : PublishEnv)
    → Flow m
    → HasPlace m.slot
    → upload_finish_begin m (some id) now discard removable ≡ finish_waits m'
    → m.writer_shutdown ≡ false
    → m.writer_active ≡ false
    → hash_differs m.slot.expected_hash (digest m.slot.hashed) ≡ false
    → AllWell env
    → let n = queue_rounds (length m'.slot.write_queue) m' in
      (queue_done n ≡ true)
      × ((finish_stream digest n env).0 ≡ ok)
      × ((finish_stream digest n env).1.published
          ≡ (m.slot.final_name, m.slot.hashed) ∷ m.published)
      × (length m.slot.hashed ≡ m.slot.expected_size)
stream_complete digest m m' id now discard removable env r place h alive waiting same w =
    let v = Flow-FlowOk m r in
    let a = accepted m m' id now discard removable h in
    let (b, hashed_is, name_is, hash_is, error_is, stored_is, alive_is, active_is) =
      flush_state m m' discard a.flushed in
    let v' : FlowOk m'.slot =
      subst (λ (x : ℕ × UploadManager). FlowOk x.1.slot) a.flushed
        (enqueue-FlowOk m discard v place) in
    let z' = error_is ∙ a.no_error in
    let q = m'.slot.write_queue in
    let n = emptied m' q in
    let drained = drain_queue q m' refl (alive_is ∙ alive) z' in
    let in_file : m'.slot.part ++ concat q ≡ m.slot.hashed =
      emptied_part m'.slot v' z' b ∙ hashed_is in
    let done = stream_well digest n env w refl (
      subst (λ x. hash_differs x (digest m'.slot.hashed) ≡ false) (sym hash_is)
        (subst (λ x. hash_differs m.slot.expected_hash (digest x) ≡ false) (sym hashed_is) same)) in
    let (result, stored) = publish_facts n in
    subst
      (λ (x : UploadManager).
        (queue_done x ≡ true)
        × ((finish_stream digest x env).0 ≡ ok)
        × ((finish_stream digest x env).1.published
            ≡ (m.slot.final_name, m.slot.hashed) ∷ m.published)
        × (length m.slot.hashed ≡ m.slot.expected_size))
      (sym drained)
      (
        ap not (active_is ∙ waiting),
        ap (λ (x : Replied). x.0) done ∙ result,
        ap (λ (x : Replied). x.1.published) done
            ∙ stored
            ∙ ap₂ ◌∷◌ (ap₂ (λ x y. (x, y)) name_is in_file) stored_is,
        sym v.received_is ∙ a.whole,
      )
