-- ===== src/Upload/Complete.antt =====
-- src/upload.c: an upload whose chunks have all been received is published.
use ps5_localsend.Base.{
  ℕ, zero, suc, ◌-◌, ◌≤◌, min, ◌≡◌, refl, sym, ap, ap₂, subst, ◌∙◌, Bool, true, false, Option, none,
  List, [], ◌∷◌, arith, Bytes, length, drop, all, concat,
}
use ps5_localsend.Upload.Content.{content, content_whole}
use ps5_localsend.Upload.Invariant.{Layout}
use ps5_localsend.Upload.Ops.{
  Replied, finish_chunks_begin, publish, published_as, hash_differs, released,
  finish_chunks_publish, writer_done, Publication, PublishEnv, linked,
}
use ps5_localsend.Upload.Reach.{Reach-SlotOk, Reach}
use ps5_localsend.Upload.State.{
  ok, chunk_bytes, with_slot, clear_slot, is_current, Chunk, Slot, UploadManager,
}
use ps5_localsend.Upload.Steps.{is_streaming}
use ps5_localsend.Upload.StepsMore.{touched-SlotOk}
use ps5_localsend.Upload.Writer.{rounds, drain, Draining, Drained}

-- The system answers every call of the second half well.
pub record AllWell (env : PublishEnv) : Type 0 where
  pub readable_is : env.readable ≡ true
  pub synced : env.sync_error ≡ 0
  pub closed_is : env.closed ≡ true
  pub linked_is : env.publication ≡ linked

begin_facts :
    (m m' : UploadManager) (id : Bytes) (client authorization : Option Bytes)
    → finish_chunks_begin m id client authorization ≡ (none, m')
    → (is_current m.slot id ≡ true)
      × (m.slot.started ≡ true)
      × (m.slot.chunks_completed ≡ length m.slot.chunks)
      × (with_slot m (record m.slot { finalizing_chunks = true }) ≡ m')
unfolding finish_chunks_begin
begin_facts m m' id client authorization e = ground arith

linked_publishes :
    (m : UploadManager) (id : Bytes) (removable : Bool) (p : Publication)
    → p ≡ linked
    → published_as m id removable p ≡ publish m
unfolding published_as
linked_publishes m id removable p e = ap (published_as m id removable) e

well_publishes :
    (digest : Bytes → Bytes) (m : UploadManager) (id : Bytes) (env : PublishEnv)
    → AllWell env
    → is_current m.slot id ≡ true
    → m.slot.finalizing_chunks ≡ true
    → m.slot.writer_error ≡ 0
    → hash_differs m.slot.expected_hash (digest m.slot.part) ≡ false
    → finish_chunks_publish digest m id env ≡ publish (released m)
unfolding finish_chunks_publish
well_publishes digest m id env w cur fin z h =
    let p = linked_publishes (released m) id env.removable env.publication w.linked_is in
    let a = w.readable_is in let b = w.synced in let c = w.closed_is in ground arith

pub publish_facts :
    (m : UploadManager)
    → ((publish m).0 ≡ ok)
      × ((publish m).1.published ≡ (m.slot.final_name, m.slot.part) ∷ m.published)
unfolding publish clear_slot
publish_facts m = (refl, refl)

publishes_all :
    (digest : Bytes → Bytes) (m n : UploadManager) (id : Bytes) (env : PublishEnv)
    → AllWell env
    → is_current m.slot id ≡ true
    → m.slot.finalizing_chunks ≡ true
    → Drained m n
    → hash_differs m.slot.expected_hash (digest (concat (content m.slot))) ≡ false
    → ((finish_chunks_publish digest n id env).0 ≡ ok)
      × ((finish_chunks_publish digest n id env).1.published
          ≡ (m.slot.final_name, concat (content m.slot)) ∷ m.published)
publishes_all digest m n id env w cur fin d h =
    let s = n.slot in
    let (whole, sized) =
      content_whole s.expected_size s.part s.next_chunk_to_write s.chunks d.chunks_ok.layout
        d.all_written in
    let part_is : concat (content m.slot) ≡ s.part =
      ap concat (sym d.same_content) ∙ (unfold content in whole) in
    let h' =
      subst (λ x. hash_differs x (digest s.part) ≡ false) (sym d.same_hash)
        (subst (λ x. hash_differs m.slot.expected_hash (digest x) ≡ false) part_is h) in
    let same =
      well_publishes digest n id env w (d.same_current id ∙ cur) (d.same_finalizing ∙ fin)
        d.no_error h' in
    let (result, stored) = publish_facts (released n) in
    (
      ap (λ (x : Replied). x.0) same ∙ result,
      ap (λ (x : Replied). x.1.published) same
          ∙ stored
          ∙ ap₂ ◌∷◌ (ap₂ (λ x y. (x, y)) d.same_name (sym part_is)) d.same_published,
    )

-- From every reachable state that receives chunks and where no write to the file has failed, if
-- the first half of the finalization accepts, then as many writer rounds as there are unwritten
-- chunks end its wait, and its second half answers `ok` and publishes the received bytes under the
-- prepared name. Conditions: the writer thread runs, its queue for direct streams is empty, its writes
-- and the calls of the second half succeed, and the hash is the announced one.
pub complete_published :
    (digest : Bytes → Bytes) (m m' : UploadManager) (id : Bytes)
    (client authorization : Option Bytes) (env : PublishEnv)
    → Reach digest m
    → is_streaming m.slot ≡ false
    → m.slot.writer_error ≡ 0
    → m.writer_shutdown ≡ false
    → length m.slot.write_queue ≡ 0
    → hash_differs m.slot.expected_hash (digest (concat (content m.slot))) ≡ false
    → AllWell env
    → finish_chunks_begin m id client authorization ≡ (none, m')
    → let n = rounds (length m.slot.chunks - m.slot.next_chunk_to_write) m' in
      (writer_done n.slot ≡ true)
      × ((finish_chunks_publish digest n id env).0 ≡ ok)
      × ((finish_chunks_publish digest n id env).1.published
          ≡ (m.slot.final_name, concat (content m.slot)) ∷ m.published)
complete_published digest m m' id client authorization env r st z alive q h w e =
    let (cur, started_is, all, same) = begin_facts m m' id client authorization e in
    let started_m : UploadManager = with_slot m (record m.slot { finalizing_chunks = true }) in
    let v =
      touched-SlotOk m.slot m.slot.final_name m.slot.upload_id true m.slot.last_activity
        (Reach-SlotOk digest m r) in
    let k = v.chunked st z in
    let d : Draining started_m = record {
      chunks_ok = k;
      transport = ground arith;
      no_error = z;
      all_completed = all;
      is_running = alive;
      no_queue = q;
    } in
    let bound =
      next-le m.slot.expected_size m.slot.part m.slot.next_chunk_to_write m.slot.chunks k.layout in
    let n = length m.slot.chunks - m.slot.next_chunk_to_write in
    let end = drain n started_m d (omega (arith, bound)) in
    let content_is : content started_m.slot ≡ content m.slot = unfold content in refl in
    let h' =
      subst (λ x. hash_differs m.slot.expected_hash (digest (concat x)) ≡ false) (sym content_is)
        h in
    let p = publishes_all digest started_m (rounds n started_m) id env w cur refl end h' in
    subst
      (λ (x : UploadManager).
        (writer_done (rounds n x).slot ≡ true)
        × ((finish_chunks_publish digest (rounds n x) id env).0 ≡ ok)
        × ((finish_chunks_publish digest (rounds n x) id env).1.published
            ≡ (m.slot.final_name, concat (content m.slot)) ∷ m.published))
      same
      (
        done (rounds n started_m).slot end.all_written,
        p.0,
        p.1 ∙ ap (λ x. (m.slot.final_name, concat x) ∷ m.published) content_is,
      )
  where
    next-le :
        (left : ℕ) (part : Bytes) (next : ℕ) (cs : List Chunk)
        → Layout left part next cs
        → next ≤ length cs
    next-le left part zero cs l = omega arith
    next-le left part (suc next) [] l = absurd l
    next-le left part (suc next) (c ∷ cs) l = omega (
      arith,
      next-le (left - min left chunk_bytes) (drop (min left chunk_bytes) part) next cs l.3,
    )

    done : (s : Slot) → s.next_chunk_to_write ≡ length s.chunks → writer_done s ≡ true
    done s e = ground arith
