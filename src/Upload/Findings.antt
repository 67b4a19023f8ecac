-- ===== src/Upload/Findings.antt =====
-- src/upload.c: what happens to an upload when a call for another one comes late.
use ps5_localsend.Base.{
  ℕ, ◌+◌, ◌<◌, ◌≡◌, sym, ap, ap₂, ◌∙◌, Bool, false, Option, none, some, [], arith, ◌==◌,
  if◌then◌else◌, Bytes, equal, length, take, take_all, drop_all,
}
use ps5_localsend.Upload.Ops.{
  Replied, open_part, name_part, count_session, prepare_locked, upload_prepare, Metadata,
  PrepareEnv,
}
use ps5_localsend.Upload.Prepare.{count_session_slot}
use ps5_localsend.Upload.State.{
  ok, write_buffer_bytes, empty_slot, with_slot, clear_slot, reap, UploadResult, Slot,
  UploadManager, not_found, io_error,
}
use ps5_localsend.Upload.Stream.{
  enqueue_write_buffer, write_count, buffer_bytes, after_enqueue, write_round, finish_failed,
  finish_check, finish_checked, upload_finish_begin, finish_ended,
}
use ps5_localsend.Upload.StreamPublish.{prepare_ok}

-- A finalization for an id that the slot does not hold is refused, and the upload that the slot
-- does hold is cleared, in whatever state it is and whichever session it belongs to, if its lease
-- is not over.
pub finish_clears_other :
    (m : UploadManager) (id : Bytes) (now : ℕ) (discard removable : Bool)
    → reap m now ≡ m
    → equal m.slot.upload_id id ≡ false
    → upload_finish_begin m (some id) now discard removable
      ≡ finish_ended (if removable then not_found else io_error, clear_slot m)
unfolding upload_finish_begin
finish_clears_other m id now discard removable r h =
    ap (λ x. finish_checked x (finish_check x id) discard removable) r
    ∙ refused m id discard removable h
  where
    refused :
        (m : UploadManager) (id : Bytes) (discard removable : Bool)
        → equal m.slot.upload_id id ≡ false
        → finish_checked m (finish_check m id) discard removable
          ≡ finish_ended (if removable then not_found else io_error, clear_slot m)
    refused m id discard removable h =
        unfold finish_checked finish_check finish_failed in ground arith

stale_buffer :
    (m : UploadManager) (bytes : Bytes) (now : ℕ)
    → take (write_count empty_slot bytes) bytes ≡ bytes
    → buffer_bytes (clear_slot m) (take (write_count (clear_slot m).slot bytes) bytes) now
      ≡ with_slot m (record empty_slot {
        buffered = bytes;
        hashed = bytes;
        received = length bytes;
        last_activity = now;
      })
unfolding buffer_bytes clear_slot
stale_buffer m bytes now e =
    ap
      (λ (x : Bytes). with_slot m (record empty_slot {
        buffered = x;
        hashed = x;
        received = 0 + length x;
        last_activity = now;
      }))
      e
    ∙ ap
        (λ n. with_slot m (record empty_slot {
          buffered = bytes;
          hashed = bytes;
          received = n;
          last_activity = now;
        }))
        (omega arith)

stale_round :
    (m : UploadManager) (bytes : Bytes) (now : ℕ) (discard : Bool)
    → length bytes < write_buffer_bytes
    → write_round (clear_slot m) bytes now discard ≡ (
      none,
      with_slot m (record empty_slot {
        buffered = bytes;
        hashed = bytes;
        received = length bytes;
        last_activity = now;
      }),
      [],
    )
unfolding write_round clear_slot
stale_round m bytes now discard lt =
    let count = write_count empty_slot bytes in
    let all_of = take_all count bytes (omega arith) in
    let none_left = drop_all count bytes (omega arith) in
    let after : (b : UploadManager) → Bytes → Option UploadResult × UploadManager × Bytes =
      λ b rest.
        if length b.slot.buffered == write_buffer_bytes
        then after_enqueue (enqueue_write_buffer b discard) rest
        else (none, b, rest) in
    ap₂ after (stale_buffer m bytes now all_of) none_left ∙ ground arith

name_part_keeps :
    (m : UploadManager) (client authorization : Bytes) (meta : Metadata) (env : PrepareEnv)
    (name id : Option Bytes) (now : ℕ)
    → (name_part m client authorization meta env name id now).0 ≡ ok
    → ((name_part m client authorization meta env name id now).1.slot.received ≡ m.slot.received)
      × ((name_part m client authorization meta env name id now).1.slot.buffered ≡ m.slot.buffered)
unfolding name_part open_part
name_part_keeps m client authorization meta env none id now h = absurd (cc)
name_part_keeps m client authorization meta env (some name) none now h = absurd (cc)
name_part_keeps m client authorization meta env (some name) (some id) now h = ground arith

prepare_locked_keeps :
    (m : UploadManager) (client authorization : Bytes) (meta : Metadata) (env : PrepareEnv)
    (now : ℕ)
    → m.slot.occupied ≡ false
    → (prepare_locked m client authorization meta env now).0 ≡ ok
    → ((prepare_locked m client authorization meta env now).1.slot.received ≡ m.slot.received)
      × ((prepare_locked m client authorization meta env now).1.slot.buffered ≡ m.slot.buffered)
prepare_locked_keeps m client authorization meta env now f h =
    let same = prepare_ok m client authorization meta env now f h in
    let slot_is = count_session_slot m authorization in
    let k =
      name_part_keeps (count_session m authorization) client authorization meta env env.unique_name
        env.random_id now (ap (λ (r : Replied). r.0) (sym same) ∙ h) in
    (
      ap (λ (r : Replied). r.1.slot.received) same ∙ k.0 ∙ ap (λ (s : Slot). s.received) slot_is,
      ap (λ (r : Replied). r.1.slot.buffered) same ∙ k.1 ∙ ap (λ (s : Slot). s.buffered) slot_is,
    )

reap_unoccupied : (m : UploadManager) (now : ℕ) → m.slot.occupied ≡ false → reap m now ≡ m
unfolding reap
reap_unoccupied m now h = ground arith

upload_prepare_locked :
    (m : UploadManager) (client authorization : Bytes) (meta : Metadata) (env : PrepareEnv)
    (now : ℕ)
    → (upload_prepare m (some client) (some authorization) (some meta) env now).0 ≡ ok
    → upload_prepare m (some client) (some authorization) (some meta) env now
      ≡ prepare_locked (reap m now) client authorization meta env now
unfolding upload_prepare
upload_prepare_locked m client authorization meta env now h = ground arith

prepared_keeps :
    (m : UploadManager) (client authorization : Bytes) (meta : Metadata) (env : PrepareEnv)
    (now : ℕ)
    → m.slot.occupied ≡ false
    → (upload_prepare m (some client) (some authorization) (some meta) env now).0 ≡ ok
    → ((upload_prepare m (some client) (some authorization) (some meta) env now).1.slot.received
        ≡ m.slot.received)
      × ((upload_prepare m (some client) (some authorization) (some meta) env now).1.slot.buffered
          ≡ m.slot.buffered)
prepared_keeps m client authorization meta env now f h =
    let same =
      upload_prepare_locked m client authorization meta env now h
      ∙ ap (λ x. prepare_locked x client authorization meta env now) (reap_unoccupied m now f) in
    let k =
      prepare_locked_keeps m client authorization meta env now f
        (ap (λ (r : Replied). r.0) (sym same) ∙ h) in
    (
      ap (λ (r : Replied). r.1.slot.received) same ∙ k.0,
      ap (λ (r : Replied). r.1.slot.buffered) same ∙ k.1,
    )

-- When the slot is cleared while `upload_write` waits for a place in the queue, the loop goes on:
-- less than 4 MiB of data that are left are copied into the free slot, and counted in `received`;
-- and the next upload that `upload_prepare` accepts still has both, since preparing resets neither.
pub stale_bytes_kept :
    (m : UploadManager) (bytes : Bytes) (now : ℕ) (discard : Bool) (client authorization : Bytes)
    (meta : Metadata) (env : PrepareEnv) (later : ℕ)
    → length bytes < write_buffer_bytes
    → (upload_prepare
        (write_round (clear_slot m) bytes now discard).1
        (some client)
        (some authorization)
        (some meta)
        env
        later).0
      ≡ ok
    → let left = (write_round (clear_slot m) bytes now discard).1 in
      let next = (upload_prepare left (some client) (some authorization) (some meta) env later).1 in
      (left.slot.occupied ≡ false)
      × (next.slot.received ≡ length bytes)
      × (next.slot.buffered ≡ bytes)
stale_bytes_kept m bytes now discard client authorization meta env later lt h =
    let left = (write_round (clear_slot m) bytes now discard).1 in
    let same =
      ap (λ (r : Option UploadResult × UploadManager × Bytes). r.1)
        (stale_round m bytes now discard lt) in
    let unoccupied = ap (λ (x : UploadManager). x.slot.occupied) same in
    let (received_is, buffered_is) =
      prepared_keeps left client authorization meta env later unoccupied h in
    (
      unoccupied,
      received_is ∙ ap (λ (x : UploadManager). x.slot.received) same,
      buffered_is ∙ ap (λ (x : UploadManager). x.slot.buffered) same,
    )
