-- ===== src/Upload/Publish.antt =====
-- src/upload.c: what is published is what was received, and every complete upload is published.
use ps5_localsend.Base.{◌≡◌, refl, sym, subst, Bool, true, false, ◌∷◌, arith, Bytes, length, concat}
use ps5_localsend.Upload.Content.{content, content_whole}
use ps5_localsend.Upload.Ops.{
  failed, give_up, publish, published_as, hash_differs, released, finish_chunks_publish,
  writer_done, Publication, PublishEnv, linked, renamed, exists,
}
use ps5_localsend.Upload.Reach.{Reach-SlotOk, Reach}
use ps5_localsend.Upload.State.{ok, clear_slot, UploadManager}
use ps5_localsend.Upload.Steps.{is_streaming}

published_state :
    (m : UploadManager) (id : Bytes) (removable : Bool) (p : Publication)
    → (published_as m id removable p).0 ≡ ok
    → (published_as m id removable p).1.published ≡ (m.slot.final_name, m.slot.part) ∷ m.published
unfolding published_as publish give_up clear_slot
published_state m id removable linked e = refl
published_state m id removable renamed e = refl
published_state m id removable exists e = absurd (ground arith)
published_state m id removable failed e = absurd (ground arith)

ok_facts :
    (digest : Bytes → Bytes) (m : UploadManager) (id : Bytes) (env : PublishEnv)
    → (finish_chunks_publish digest m id env).0 ≡ ok
    → (m.slot.writer_error ≡ 0)
      × (hash_differs m.slot.expected_hash (digest m.slot.part) ≡ false)
      × ((finish_chunks_publish digest m id env).1.published
          ≡ (m.slot.final_name, m.slot.part) ∷ m.published)
unfolding finish_chunks_publish give_up clear_slot
ok_facts digest m id env e =
    let p = published_state (released m) id env.removable env.publication in ground arith

-- From every reachable state that receives chunks, a finalization that answers `ok` once the writer
-- is done has put one file into the destination: under the prepared name, with the received
-- bytes of the chunks one after another, as long as was announced, and with the announced hash
-- where there is one. `digest` is any function from bytes to their hexadecimal hash.
pub publish_intact :
    (digest : Bytes → Bytes) (m : UploadManager) (id : Bytes) (env : PublishEnv)
    → Reach digest m
    → is_streaming m.slot ≡ false
    → writer_done m.slot ≡ true
    → (finish_chunks_publish digest m id env).0 ≡ ok
    → ((finish_chunks_publish digest m id env).1.published
        ≡ (m.slot.final_name, concat (content m.slot)) ∷ m.published)
      × (length (concat (content m.slot)) ≡ m.slot.expected_size)
      × (hash_differs m.slot.expected_hash (digest (concat (content m.slot))) ≡ false)
publish_intact digest m id env r st done e =
    let s = m.slot in
    let (w, same, stored) = ok_facts digest m id env e in
    let k = (Reach-SlotOk digest m r).chunked st w in
    let (whole, sized) =
      content_whole s.expected_size s.part s.next_chunk_to_write s.chunks k.layout (ground arith) in
    let whole' : s.part ≡ concat (content s) = unfold content in sym whole in
    (
      subst
          (λ x.
            (finish_chunks_publish digest m id env).1.published ≡ (s.final_name, x) ∷ m.published)
          whole' stored,
      subst (λ (x : Bytes). length x ≡ s.expected_size) whole' sized,
      subst (λ x. hash_differs s.expected_hash (digest x) ≡ false) whole' same,
    )
