-- ===== src/Upload/StreamFinish.antt =====
-- src/upload.c: `upload_finish_with_metrics` on a stream that went through the queue.
use ps5_localsend.Base.{
  ℕ, zero, suc, ◌≡◌, refl, sym, ap, ap₂, ◌∙◌, Bool, false, List, [], ◌∷◌, ◌++◌, append-nil,
  append_assoc, arith, Bytes, length, concat,
}
use ps5_localsend.Upload.Flow.{FlowOk}
use ps5_localsend.Upload.Ops.{
  failed, publish, hash_differs, Publication, PublishEnv, linked, renamed, exists,
}
use ps5_localsend.Upload.State.{ok, with_slot, clear_slot, Slot, UploadManager}
use ps5_localsend.Upload.Stream.{
  writer_queue_round, finish_failed, stream_published, publish_stream, finish_stream,
}

stream_ok :
    (m : UploadManager) (removable : Bool) (p : Publication)
    → (stream_published m removable p).0 ≡ ok
    → (stream_published m removable p).1.published ≡ (m.slot.final_name, m.slot.part) ∷ m.published
unfolding stream_published publish finish_failed clear_slot
stream_ok m removable linked e = refl
stream_ok m removable renamed e = refl
stream_ok m removable exists e = absurd (ground arith)
stream_ok m removable failed e = absurd (ground arith)

pub finish_ok :
    (digest : Bytes → Bytes) (m : UploadManager) (env : PublishEnv)
    → (finish_stream digest m env).0 ≡ ok
    → (m.slot.writer_error ≡ 0)
      × (hash_differs m.slot.expected_hash (digest m.slot.hashed) ≡ false)
      × ((finish_stream digest m env).1.published ≡ (m.slot.final_name, m.slot.part) ∷ m.published)
unfolding finish_stream publish_stream finish_failed clear_slot
finish_ok digest m env e = let p = stream_ok m env.removable env.publication in ground arith

nil_of {ℓ} : {A : Type ℓ} (xs : List A) → length xs ≡ 0 → xs ≡ []
nil_of [] e = refl
nil_of (x ∷ xs) e = absurd (omega arith)

-- With an empty buffer, the file and the queue hold all bytes.
pub emptied_part :
    (s : Slot)
    → FlowOk s
    → s.writer_error ≡ 0
    → length s.buffered ≡ 0
    → s.part ++ concat s.write_queue ≡ s.hashed
emptied_part s v z b =
    ap (λ x. s.part ++ x)
      (sym (append-nil (concat s.write_queue))
        ∙ ap (λ x. concat s.write_queue ++ x) (sym (nil_of s.buffered b)))
    ∙ v.bytes_are z

pub flushed_part :
    (s : Slot)
    → FlowOk s
    → s.writer_error ≡ 0
    → length s.write_queue ≡ 0
    → length s.buffered ≡ 0
    → s.part ≡ s.hashed
flushed_part s v z q b =
    sym (append-nil s.part)
    ∙ ap (λ xs. s.part ++ concat xs) (sym (nil_of s.write_queue q))
    ∙ emptied_part s v z b

-- `n` rounds of the writer in which every write succeeds.
unfoldable pub queue_rounds : ℕ → UploadManager → UploadManager
queue_rounds zero m = m
queue_rounds (suc n) m = queue_rounds n (writer_queue_round m m.slot.write_queue 0 [])

abbrev pub emptied : UploadManager → List Bytes → UploadManager
emptied m q =
    with_slot m
      (record m.slot { write_queue = []; part = m.slot.part ++ concat q; writer_error = 0 })

round_pops :
    (m : UploadManager) (b : Bytes) (q : List Bytes)
    → m.writer_shutdown ≡ false
    → m.slot.writer_error ≡ 0
    → writer_queue_round m (b ∷ q) 0 []
      ≡ with_slot m (record m.slot { write_queue = q; part = m.slot.part ++ b; writer_error = 0 })
unfolding writer_queue_round
round_pops m b q alive z = ground arith

pub drain_queue :
    (q : List Bytes) (m : UploadManager)
    → m.slot.write_queue ≡ q
    → m.writer_shutdown ≡ false
    → m.slot.writer_error ≡ 0
    → queue_rounds (length q) m ≡ emptied m q
unfolding queue_rounds
drain_queue [] m e alive z =
    ap₂ (λ x y. with_slot m (record m.slot { write_queue = x; part = y })) e
      (sym (append-nil m.slot.part))
    ∙ ap
        (λ x.
          with_slot m
            (record m.slot { write_queue = []; part = m.slot.part ++ []; writer_error = x }))
        z
drain_queue (b ∷ q) m e alive z =
    let m' =
      with_slot m (record m.slot { write_queue = q; part = m.slot.part ++ b; writer_error = 0 }) in
    ap (λ x. queue_rounds (length q) (writer_queue_round m x 0 [])) e
    ∙ ap (queue_rounds (length q)) (round_pops m b q alive z)
    ∙ drain_queue q m' refl alive refl
    ∙ ap (λ x. with_slot m (record m.slot { write_queue = []; part = x; writer_error = 0 }))
        (append_assoc m.slot.part b (concat q))
