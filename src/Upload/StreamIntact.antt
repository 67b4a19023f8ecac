-- ===== src/Upload/StreamIntact.antt =====
-- src/upload.c: what `upload_finish_with_metrics` publishes of a stream that went through the queue.
use ps5_localsend.Base.{
  ℕ, ◌≡◌, refl, sym, ap, ap₂, subst, ◌∙◌, Bool, true, false, some, List, [], ◌∷◌, arith, Bytes,
  length,
}
use ps5_localsend.Upload.Flow.{HasPlace, Flow, flow_drained, flow_flushed}
use ps5_localsend.Upload.FlowSteps.{Flow-FlowOk}
use ps5_localsend.Upload.Ops.{hash_differs, PublishEnv}
use ps5_localsend.Upload.State.{ok, UploadManager}
use ps5_localsend.Upload.Stream.{
  writer_queue_round, upload_finish_begin, queue_done, finish_stream, finish_waits,
}
use ps5_localsend.Upload.StreamComplete.{accepted, flush_state}
use ps5_localsend.Upload.StreamFinish.{finish_ok, flushed_part}

-- Rounds of the writer thread, with any answers of the system.
unfoldable pub writer_rounds : List (ℕ × Bytes) → UploadManager → UploadManager
writer_rounds [] m = m
writer_rounds ((error, partial) ∷ answers) m =
    writer_rounds answers (writer_queue_round m m.slot.write_queue error partial)

-- What the writer leaves alone.
record Kept (m n : UploadManager) : Type 0 where
  same_hashed : n.slot.hashed ≡ m.slot.hashed
  same_name : n.slot.final_name ≡ m.slot.final_name
  same_hash : n.slot.expected_hash ≡ m.slot.expected_hash
  same_buffer : n.slot.buffered ≡ m.slot.buffered
  same_published : n.published ≡ m.published

round-Kept :
    (m : UploadManager) (queue : List Bytes) (error : ℕ) (partial : Bytes)
    → Kept m (writer_queue_round m queue error partial)
unfolding writer_queue_round
round-Kept m [] error partial = record {
  same_hashed = refl;
  same_name = refl;
  same_hash = refl;
  same_buffer = refl;
  same_published = refl;
}
round-Kept m (b ∷ queue) error partial = record {
  same_hashed = ground arith;
  same_name = ground arith;
  same_hash = ground arith;
  same_buffer = ground arith;
  same_published = ground arith;
}

rounds-Kept : (answers : List (ℕ × Bytes)) (m : UploadManager) → Kept m (writer_rounds answers m)
unfolding writer_rounds
rounds-Kept [] m = record {
  same_hashed = refl;
  same_name = refl;
  same_hash = refl;
  same_buffer = refl;
  same_published = refl;
}
rounds-Kept ((error, partial) ∷ answers) m =
    let k = round-Kept m m.slot.write_queue error partial in
    let r = rounds-Kept answers (writer_queue_round m m.slot.write_queue error partial) in
    record {
      same_hashed = r.same_hashed ∙ k.same_hashed;
      same_name = r.same_name ∙ k.same_name;
      same_hash = r.same_hash ∙ k.same_hash;
      same_buffer = r.same_buffer ∙ k.same_buffer;
      same_published = r.same_published ∙ k.same_published;
    }

rounds-Flow :
    (answers : List (ℕ × Bytes)) (m : UploadManager) → Flow m → Flow (writer_rounds answers m)
unfolding writer_rounds
rounds-Flow [] m r = r
rounds-Flow ((error, partial) ∷ answers) m r =
    rounds-Flow answers _ (flow_drained m error partial r)

-- If `upload_finish_with_metrics` accepts a streamed upload and, once any rounds of the writer have
-- ended its wait, answers `ok`, it has put one file into the destination: under the prepared name,
-- with exactly the bytes that were received, in their order and as many as announced, and with
-- the announced hash where there is one. `digest` is any function from bytes to their hexadecimal
-- hash. Conditions: the stream began on a fresh slot, the queue has a place for the last buffer,
-- and only the writer acts during the wait.
pub stream_intact :
    (digest : Bytes → Bytes) (m m' : UploadManager) (id : Bytes) (now : ℕ)
    (discard removable : Bool) (answers : List (ℕ × Bytes)) (env : PublishEnv)
    → Flow m
    → HasPlace m.slot
    → upload_finish_begin m (some id) now discard removable ≡ finish_waits m'
    → queue_done (writer_rounds answers m') ≡ true
    → (finish_stream digest (writer_rounds answers m') env).0 ≡ ok
    → ((finish_stream digest (writer_rounds answers m') env).1.published
        ≡ (m.slot.final_name, m.slot.hashed) ∷ m.published)
      × (length m.slot.hashed ≡ m.slot.expected_size)
      × (hash_differs m.slot.expected_hash (digest m.slot.hashed) ≡ false)
stream_intact digest m m' id now discard removable answers env r place h done e =
    let n = writer_rounds answers m' in
    let a = accepted m m' id now discard removable h in
    let (b, hashed_is, name_is, hash_is, error_is, stored_is, alive_is, active_is) =
      flush_state m m' discard a.flushed in
    let r' : Flow m' =
      subst (λ (x : ℕ × UploadManager). Flow x.1) a.flushed (flow_flushed m discard r place) in
    let k = rounds-Kept answers m' in
    let v = Flow-FlowOk n (rounds-Flow answers m' r') in
    let (z, same, stored) = finish_ok digest n env e in
    let empty = ap (λ (x : Bytes). length x) k.same_buffer ∙ b in
    let bytes_same = k.same_hashed ∙ hashed_is in
    (
      stored
          ∙ ap₂ ◌∷◌
              (ap₂ (λ x y. (x, y)) (k.same_name ∙ name_is)
                (flushed_part n.slot v z (queue_empty n done z) empty ∙ bytes_same))
              (k.same_published ∙ stored_is),
      sym (Flow-FlowOk m r).received_is ∙ a.whole,
      ap₂ (λ x y. hash_differs x (digest y)) (sym (k.same_hash ∙ hash_is)) (sym bytes_same) ∙ same,
    )
  where
    queue_empty :
        (n : UploadManager)
        → queue_done n ≡ true
        → n.slot.writer_error ≡ 0
        → length n.slot.write_queue ≡ 0
    queue_empty n done z = ground arith
