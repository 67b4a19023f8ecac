-- ===== src/Upload/StreamPublish.antt =====
-- src/upload.c: what `upload_prepare` leaves in a slot that was empty.
use ps5_localsend.Base.{
  ℕ, ◌≡◌, refl, sym, ap, subst, ◌∙◌, ◌⊎◌, inl, inr, true, false, not, Option, none, some, arith,
  if◌then◌else◌, Bool-cases, Bytes,
}
use ps5_localsend.Upload.Flow.{Fresh}
use ps5_localsend.Upload.Ops.{
  Replied, prepared_slot, open_part, named, name_part, count_session, prepare_free, supersede,
  prepare_locked, Metadata, PrepareEnv,
}
use ps5_localsend.Upload.Prepare.{count_session_slot}
use ps5_localsend.Upload.State.{ok, empty_slot, with_slot, Slot, UploadManager, io_error}

open_part_ok :
    (m : UploadManager) (client authorization : Bytes) (meta : Metadata) (env : PrepareEnv)
    (now : ℕ)
    → (open_part m client authorization meta env now).0 ≡ ok
    → (open_part m client authorization meta env now).1
      ≡ with_slot m (prepared_slot m.slot client authorization meta now)
unfolding open_part
open_part_ok m client authorization meta env now h = ground arith

prepared-Fresh :
    (s : Slot) (name id client authorization : Bytes) (meta : Metadata) (now : ℕ)
    → s ≡ empty_slot
    → Fresh (
        prepared_slot
          (record s { final_name = name; upload_id = id })
          client
          authorization
          meta
          now)
prepared-Fresh s name id client authorization meta now e = record {
  no_file = refl;
  no_queue = ap (λ (x : Slot). x.write_queue) e;
  no_buffer = ap (λ (x : Slot). x.buffered) e;
  none_received = ap (λ (x : Slot). x.received) e;
  no_error = ap (λ (x : Slot). x.writer_error) e;
}

name_part-Fresh :
    (m : UploadManager) (client authorization : Bytes) (meta : Metadata) (env : PrepareEnv)
    (name id : Option Bytes) (now : ℕ)
    → m.slot ≡ empty_slot
    → (name_part m client authorization meta env name id now).0 ≡ ok
    → Fresh (name_part m client authorization meta env name id now).1.slot
unfolding name_part
name_part-Fresh m client authorization meta env none id now e h = absurd (cc)
name_part-Fresh m client authorization meta env (some name) none now e h = absurd (cc)
name_part-Fresh m client authorization meta env (some name) (some id) now e h =
    go (Bool-cases (not env.part_path_fits)) h
  where
    opened : UploadManager
    opened = named m name id

    go :
        (not env.part_path_fits ≡ true) ⊎ (not env.part_path_fits ≡ false)
        → (if not env.part_path_fits
            then (io_error, opened)
            else open_part opened client authorization meta env now).0
          ≡ ok
        → Fresh
            (if not env.part_path_fits
              then (io_error, opened)
              else open_part opened client authorization meta env now).1.slot
    go (inl t) k = absurd (ground arith)
    go (inr f) k = simp f (
        subst (λ (x : UploadManager). Fresh x.slot)
          (sym (open_part_ok opened client authorization meta env now (ground arith)))
          (prepared-Fresh m.slot name id client authorization meta now e))

pub prepare_ok :
    (m : UploadManager) (client authorization : Bytes) (meta : Metadata) (env : PrepareEnv)
    (now : ℕ)
    → m.slot.occupied ≡ false
    → (prepare_locked m client authorization meta env now).0 ≡ ok
    → prepare_locked m client authorization meta env now
      ≡ name_part
          (count_session m authorization)
          client
          authorization
          meta
          env
          env.unique_name
          env.random_id
          now
unfolding prepare_locked supersede prepare_free
prepare_ok m client authorization meta env now f h = ground arith

-- Preparing on a free slot leaves one to which nothing was written.
pub prepare-Fresh :
    (m : UploadManager) (client authorization : Bytes) (meta : Metadata) (env : PrepareEnv)
    (now : ℕ)
    → m.slot ≡ empty_slot
    → (prepare_locked m client authorization meta env now).0 ≡ ok
    → Fresh (prepare_locked m client authorization meta env now).1.slot
prepare-Fresh m client authorization meta env now e h =
    let same = prepare_ok m client authorization meta env now (ap (λ (x : Slot). x.occupied) e) h in
    subst (λ (r : Replied). Fresh r.1.slot) (sym same)
      (name_part-Fresh (count_session m authorization) client authorization meta env env.unique_name
        env.random_id now (count_session_slot m authorization ∙ e)
        (ap (λ (r : Replied). r.0) (sym same) ∙ h))
