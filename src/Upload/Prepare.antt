-- ===== src/Upload/Prepare.antt =====
-- src/upload.c: preparing, beginning, finishing and leaving an upload keep the slot right.
use ps5_localsend.Base.{
  ℕ, zero, suc, ◌+◌, ◌-◌, ◌*◌, ◌≤◌, ◌<◌, min, ◌≡◌, refl, sym, ap, subst, ◌∙◌, ◌⊎◌, inl, inr, false,
  Option, none, some, arith, Bytes, replicate, All,
}
use ps5_localsend.Upload.Invariant.{Pending, total_progress, completed_count, buffer_count, free}
use ps5_localsend.Upload.Ops.{
  prepared_slot, open_part, named, name_part, count_session, prepare_free, supersede,
  prepare_locked, Metadata, PrepareEnv,
}
use ps5_localsend.Upload.State.{
  chunk_bytes, empty_chunk, with_slot, clear_slot, chunk_count_for, Slot, UploadManager,
}
use ps5_localsend.Upload.Steps.{is_streaming, kept_or, cleared-SlotOk, SlotOk}
use ps5_localsend.Upload.StepsMore.{touched-SlotOk}

-- The chunks that `upload_prepare` allocates are those of the size.
fresh-Pending :
    (n left : ℕ)
    → left ≤ n * chunk_bytes
    → n * chunk_bytes < left + chunk_bytes
    → Pending left (replicate n empty_chunk)
fresh-Pending zero left h k = omega arith
fresh-Pending (suc n) left h k = (
  omega arith,
  free refl refl refl,
  fresh-Pending n (left - min left chunk_bytes) (omega arith) (omega arith),
)

chunk_count_for-bounds :
    (size : ℕ)
    → (size ≤ chunk_count_for size * chunk_bytes)
      × (chunk_count_for size * chunk_bytes < size + chunk_bytes)
unfolding chunk_count_for
chunk_count_for-bounds size = ground arith

blank_totals :
    (n : ℕ)
    → (total_progress (replicate n empty_chunk) ≡ 0)
      × (completed_count (replicate n empty_chunk) ≡ 0)
      × (buffer_count (replicate n empty_chunk) ≡ 0)
      × All (λ c. c ≡ empty_chunk) (replicate n empty_chunk)
blank_totals zero = (refl, refl, refl, tt)
blank_totals (suc n) =
    let (a, b, c, d) = blank_totals n in
    (omega (arith, a), omega (arith, b), omega (arith, c), (refl, d))

-- A free slot becomes a prepared one.
prepared-SlotOk :
    (s : Slot) (client authorization : Bytes) (meta : Metadata) (now : ℕ)
    → SlotOk s
    → s.occupied ≡ false
    → SlotOk (prepared_slot s client authorization meta now)
prepared-SlotOk s client authorization meta now v f =
    let e = v.free_empty f in
    let still : is_streaming s ≡ false = ground arith in
    let k = v.chunked still e.2 in
    let b = chunk_count_for-bounds meta.size in
    let t = blank_totals (chunk_count_for meta.size) in
    record {
      free_empty = λ h. absurd (cc);
      streamed = λ h. t.3;
      chunked = λ h z. record {
        layout = (refl, fresh-Pending (chunk_count_for meta.size) meta.size b.0 b.1);
        received_is = k.received_is ∙ ap total_progress e.0 ∙ sym t.0;
        completed_is = sym t.1;
        buffers_is = sym t.2;
        buffers_bounded = omega arith;
      };
    }

open_part_state :
    (m : UploadManager) (client authorization : Bytes) (meta : Metadata) (env : PrepareEnv)
    (now : ℕ)
    → ((open_part m client authorization meta env now).1 ≡ m)
      ⊎ ((open_part m client authorization meta env now).1 ≡ clear_slot m)
      ⊎ ((open_part m client authorization meta env now).1
          ≡ with_slot m (prepared_slot m.slot client authorization meta now))
unfolding open_part
open_part_state m client authorization meta env now = ground arith

open_part-SlotOk :
    (m : UploadManager) (client authorization : Bytes) (meta : Metadata) (env : PrepareEnv)
    (now : ℕ)
    → SlotOk m.slot
    → m.slot.occupied ≡ false
    → SlotOk (open_part m client authorization meta env now).1.slot
open_part-SlotOk m client authorization meta env now v f =
    kept_or m _ v (open_part_state m client authorization meta env now) λ x. elim x [
      | inl e ↦ cleared-SlotOk m _ e
      | inr e ↦
          subst (λ (x : UploadManager). SlotOk x.slot) (sym e)
            (prepared-SlotOk m.slot client authorization meta now v f)
    ]

fits_or :
    (m : UploadManager) (client authorization : Bytes) (meta : Metadata) (env : PrepareEnv)
    (name id : Bytes) (now : ℕ)
    → ((name_part m client authorization meta env (some name) (some id) now).1 ≡ named m name id)
      ⊎ ((name_part m client authorization meta env (some name) (some id) now).1
          ≡ (open_part (named m name id) client authorization meta env now).1)
unfolding name_part
fits_or m client authorization meta env name id now = ground arith

name_part-SlotOk :
    (m : UploadManager) (client authorization : Bytes) (meta : Metadata) (env : PrepareEnv)
    (name id : Option Bytes) (now : ℕ)
    → SlotOk m.slot
    → m.slot.occupied ≡ false
    → SlotOk (name_part m client authorization meta env name id now).1.slot
unfolding name_part
name_part-SlotOk m client authorization meta env none id now v f = v
name_part-SlotOk m client authorization meta env (some name) none now v f =
    touched-SlotOk m.slot name _ _ _ v
name_part-SlotOk m client authorization meta env (some name) (some id) now v f =
    let v' = touched-SlotOk m.slot name id _ _ v in
    kept_or (named m name id) _ v' (fits_or m client authorization meta env name id now) λ e.
      subst (λ (x : UploadManager). SlotOk x.slot) (sym e)
        (open_part-SlotOk (named m name id) client authorization meta env now v' f)

prepare_free_state :
    (m : UploadManager) (client authorization : Bytes) (meta : Metadata) (env : PrepareEnv)
    (now : ℕ)
    → ((prepare_free m client authorization meta env now).1 ≡ m)
      ⊎ ((prepare_free m client authorization meta env now).1
          ≡ (name_part m client authorization meta env env.unique_name env.random_id now).1)
unfolding prepare_free
prepare_free_state m client authorization meta env now = ground arith

prepare_free-SlotOk :
    (m : UploadManager) (client authorization : Bytes) (meta : Metadata) (env : PrepareEnv)
    (now : ℕ)
    → SlotOk m.slot
    → m.slot.occupied ≡ false
    → SlotOk (prepare_free m client authorization meta env now).1.slot
prepare_free-SlotOk m client authorization meta env now v f =
    kept_or m _ v (prepare_free_state m client authorization meta env now) λ e.
      subst (λ (x : UploadManager). SlotOk x.slot) (sym e)
        (name_part-SlotOk m client authorization meta env env.unique_name env.random_id now v f)

supersede_state :
    (m : UploadManager) (authorization : Bytes)
    → (supersede m authorization ≡ m) ⊎ (supersede m authorization ≡ clear_slot m)
unfolding supersede
supersede_state m authorization = ground arith

pub count_session_slot :
    (m : UploadManager) (authorization : Bytes) → (count_session m authorization).slot ≡ m.slot
unfolding count_session
count_session_slot m authorization = ground arith

prepare_locked_state :
    (m : UploadManager) (client authorization : Bytes) (meta : Metadata) (env : PrepareEnv)
    (now : ℕ)
    → ((prepare_locked m client authorization meta env now).1 ≡ supersede m authorization)
      ⊎ (((supersede m authorization).slot.occupied ≡ false)
          × ((prepare_locked m client authorization meta env now).1
              ≡ (prepare_free
                  (count_session (supersede m authorization) authorization)
                  client
                  authorization
                  meta
                  env
                  now).1))
unfolding prepare_locked
prepare_locked_state m client authorization meta env now = ground arith

pub prepare_locked-SlotOk :
    (m : UploadManager) (client authorization : Bytes) (meta : Metadata) (env : PrepareEnv)
    (now : ℕ)
    → SlotOk m.slot
    → SlotOk (prepare_locked m client authorization meta env now).1.slot
prepare_locked-SlotOk m client authorization meta env now v =
    let m' = supersede m authorization in
    let v' = kept_or m m' v (supersede_state m authorization) (cleared-SlotOk m m') in
    kept_or m' _ v' (prepare_locked_state m client authorization meta env now) λ (f, e).
      subst (λ (x : UploadManager). SlotOk x.slot) (sym e)
        (prepare_free-SlotOk (count_session m' authorization) client authorization meta env now
          (subst SlotOk (sym (count_session_slot m' authorization)) v')
          (ap (λ (x : Slot). x.occupied) (count_session_slot m' authorization) ∙ f))
