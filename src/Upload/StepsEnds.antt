-- ===== src/Upload/StepsEnds.antt =====
-- src/upload.c: the start of a stream, the finalization of chunks, cancels and aborts keep the slot
-- right.
use ps5_localsend.Base.{
  ℕ, ◌≡◌, refl, sym, subst, ◌⊎◌, inl, inr, Bool, true, false, Option, none, some, [], arith, Bytes,
}
use ps5_localsend.Upload.Ops.{
  failed, begin_locked, finish_chunks_begin, give_up, publish, published_as, released,
  finish_chunks_publish, cancel_locked, upload_abort, Publication, PublishEnv, linked, renamed,
  exists,
}
use ps5_localsend.Upload.State.{empty_slot, with_slot, clear_slot, UploadManager}
use ps5_localsend.Upload.Steps.{empty_slot-SlotOk, kept_or, SlotOk}
use ps5_localsend.Upload.StepsMore.{touched-SlotOk}

begin_state :
    (m : UploadManager) (id : Bytes) (client authorization : Option Bytes) (size now : ℕ)
    → ((begin_locked m id client authorization size now).1 ≡ m)
      ⊎ ((m.slot.occupied ≡ true)
          × (m.slot.chunk_transport ≡ false)
          × ((begin_locked m id client authorization size now).1
              ≡ with_slot m (record m.slot {
                chunk_transport = false;
                started = true;
                last_activity = now;
                hashed = [];
              })))
unfolding begin_locked
begin_state m id client authorization size now = ground arith

pub begin-SlotOk :
    (m : UploadManager) (id : Bytes) (client authorization : Option Bytes) (size now : ℕ)
    → SlotOk m.slot
    → SlotOk (begin_locked m id client authorization size now).1.slot
begin-SlotOk m id client authorization size now v =
    kept_or m _ v (begin_state m id client authorization size now) λ (o, t, e).
      subst (λ (x : UploadManager). SlotOk x.slot) (sym e)
        (record {
          free_empty = λ f. absurd (cc);
          streamed = λ f. v.streamed t;
          chunked = λ f. absurd (cc);
        })

finish_begin_state :
    (m : UploadManager) (id : Bytes) (client authorization : Option Bytes)
    → ((finish_chunks_begin m id client authorization).1 ≡ m)
      ⊎ ((finish_chunks_begin m id client authorization).1
          ≡ with_slot m (record m.slot { finalizing_chunks = true }))
unfolding finish_chunks_begin
finish_begin_state m id client authorization = ground arith

pub finish_begin-SlotOk :
    (m : UploadManager) (id : Bytes) (client authorization : Option Bytes)
    → SlotOk m.slot
    → SlotOk (finish_chunks_begin m id client authorization).1.slot
finish_begin-SlotOk m id client authorization v =
    kept_or m _ v (finish_begin_state m id client authorization)
      λ e. subst (λ (x : UploadManager). SlotOk x.slot) (sym e) (touched-SlotOk m.slot _ _ true _ v)

publication_state :
    (m : UploadManager) (id : Bytes) (removable : Bool) (p : Publication)
    → ((published_as m id removable p).1 ≡ m)
      ⊎ ((published_as m id removable p).1.slot ≡ empty_slot)
unfolding published_as publish give_up clear_slot
publication_state m id removable linked = inr refl
publication_state m id removable renamed = inr refl
publication_state m id removable exists = ground arith
publication_state m id removable failed = ground arith

publish_state :
    (digest : Bytes → Bytes) (m : UploadManager) (id : Bytes) (env : PublishEnv)
    → ((finish_chunks_publish digest m id env).1 ≡ m)
      ⊎ ((finish_chunks_publish digest m id env).1 ≡ released m)
      ⊎ ((finish_chunks_publish digest m id env).1.slot ≡ empty_slot)
unfolding finish_chunks_publish give_up clear_slot
publish_state digest m id env =
    let p = publication_state (released m) id env.removable env.publication in ground arith

pub finish_publish-SlotOk :
    (digest : Bytes → Bytes) (m : UploadManager) (id : Bytes) (env : PublishEnv)
    → SlotOk m.slot
    → SlotOk (finish_chunks_publish digest m id env).1.slot
finish_publish-SlotOk digest m id env v = kept_or m _ v (publish_state digest m id env) λ x.
    elim x [
      | inl e ↦
          subst (λ (x : UploadManager). SlotOk x.slot) (sym e) (touched-SlotOk m.slot _ _ false _ v)
      | inr e ↦ subst SlotOk (sym e) empty_slot-SlotOk
    ]

pub cancel_state :
    (m : UploadManager) (id : Bytes) (client authorization : Option Bytes) (removable : Bool)
    → ((cancel_locked m id client authorization removable).1 ≡ m)
      ⊎ ((cancel_locked m id client authorization removable).1 ≡ clear_slot m)
unfolding cancel_locked
cancel_state m id client authorization removable = ground arith

pub abort_state :
    (m : UploadManager) (id : Option Bytes)
    → (upload_abort m id ≡ m) ⊎ (upload_abort m id ≡ clear_slot m)
unfolding upload_abort
abort_state m none = inl refl
abort_state m (some id) = ground arith
