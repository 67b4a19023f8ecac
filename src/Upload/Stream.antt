-- ===== src/Upload/Stream.antt =====
-- src/upload.c: an upload in one stream, through the queue of write buffers or directly, and its
-- finalization.
use ps5_localsend.Base.{
  ℕ, ◌+◌, ◌-◌, ◌%◌, ◌^◌, min, Bool, true, not, ◌&&◌, ◌||◌, Option, none, some, List, [], ◌∷◌, ◌++◌,
  ltb, ◌==◌, if◌then◌else◌, Bytes, length, take, drop,
}
use ps5_localsend.Upload.Ops.{
  failed, Replied, publish, hash_differs, Publication, PublishEnv, linked, renamed, exists,
}
use ps5_localsend.Upload.State.{
  ok, invalid, write_buffer_bytes, with_slot, clear_slot, reap, is_current, is_receiving,
  write_failure, UploadResult, Slot, UploadManager, not_found, busy, io_error, size_mismatch,
  hash_mismatch,
}

-- An error number of `enqueue_write_buffer_locked` that is not ENOSPC.
abbrev pub ecanceled : ℕ
ecanceled = 125

-- `enqueue_write_buffer_locked`, once its wait is over: 0 or an error. `discard` is
-- `writer_discard`, which another thread sets while it clears the slot.
unfoldable pub enqueue_write_buffer : UploadManager → Bool → ℕ × UploadManager
enqueue_write_buffer m discard =
    let s = m.slot in
    if length s.buffered == 0
    then (0, m)
    else if not (s.writer_error == 0)
    then (s.writer_error, m)
    else if discard || m.writer_shutdown
    then (ecanceled, m)
    else (
      0,
      with_slot m (record s { write_queue = s.write_queue ++ (s.buffered ∷ []); buffered = [] }),
    )

-- The checks of `upload_write` before its loop. The subtraction is that of `uint64_t`.
unfoldable pub write_check : UploadManager → Bytes → ℕ → Option UploadResult
write_check m id size =
    let s = m.slot in
    if not (is_receiving s id)
    then some not_found
    else if ltb ((s.expected_size + 2 ^ 64 - s.received) % 2 ^ 64) size
    then some size_mismatch
    else none

-- `upload_write` up to its loop, which starts if there is no result yet.
unfoldable pub upload_write_begin :
    UploadManager → Option Bytes → ℕ → ℕ → Option UploadResult × UploadManager
upload_write_begin m none size now = (some invalid, m)
upload_write_begin m (some id) size now = let m' = reap m now in (write_check m' id size, m')

-- How much of the data one round copies.
abbrev pub write_count : Slot → Bytes → ℕ
write_count s bytes = min (length bytes) (write_buffer_bytes - length s.buffered)

unfoldable pub buffer_bytes : UploadManager → Bytes → ℕ → UploadManager
buffer_bytes m bytes now =
    let s = m.slot in
    with_slot m (record s {
      buffered = s.buffered ++ bytes;
      hashed = s.hashed ++ bytes;
      received = s.received + length bytes;
      last_activity = now;
    })

unfoldable pub after_enqueue :
    ℕ × UploadManager → Bytes → Option UploadResult × UploadManager × Bytes
after_enqueue (error, m) rest = (if error == 0 then none else some (write_failure error), m, rest)

-- A round of the loop of `upload_write`, once its wait is over: the result if the loop ends early,
-- and the data that are left.
unfoldable pub write_round :
    UploadManager → Bytes → ℕ → Bool → Option UploadResult × UploadManager × Bytes
write_round m bytes now discard =
    let count = write_count m.slot bytes in
    let m' = buffer_bytes m (take count bytes) now in
    let rest = drop count bytes in
    if not (m.slot.writer_error == 0)
    then (some (write_failure m.slot.writer_error), m, bytes)
    else if length m'.slot.buffered == write_buffer_bytes
    then after_enqueue (enqueue_write_buffer m' discard) rest
    else (none, m', rest)

-- A round of `upload_writer_main` on the head of the queue; `partial` is what reached the file when
-- `write_all` returns an error.
unfoldable pub writer_queue_round : UploadManager → List Bytes → ℕ → Bytes → UploadManager
writer_queue_round m [] error partial = m
writer_queue_round m (b ∷ queue) error partial =
    let s = m.slot in
    if m.writer_shutdown || not (s.writer_error == 0)
    then m
    else with_slot m (record s {
      write_queue = queue;
      part = s.part ++ (if error == 0 then b else partial);
      writer_error = error;
    })

unfoldable pub upload_enable_direct_stream :
    UploadManager → Option Bytes → UploadResult × UploadManager
upload_enable_direct_stream m none = (invalid, m)
upload_enable_direct_stream m (some id) =
    let s = m.slot in
    if not (is_receiving s id)
    then (not_found, m)
    else if s.chunk_transport
        || not (s.received == 0)
        || not (length s.buffered == 0)
        || not (length s.write_queue == 0)
        || m.writer_active
    then (busy, m)
    else (ok, with_slot m (record s { fast_direct_stream = true }))

-- The two critical sections of `upload_write_direct`, before and after the write.
unfoldable pub write_direct_begin : UploadManager → Bytes → ℕ → ℕ → UploadResult × UploadManager
write_direct_begin m id size now =
    let s = m.slot in
    if not (is_receiving s id)
    then (not_found, m)
    else if not s.fast_direct_stream
    then (busy, m)
    else if ltb ((s.expected_size + 2 ^ 64 - s.received) % 2 ^ 64) size
    then (size_mismatch, m)
    else if not (s.active_chunk_writes == 0)
    then (busy, m)
    else (
      ok,
      with_slot m
          (record s { active_chunk_writes = s.active_chunk_writes + 1; last_activity = now }),
    )

unfoldable pub upload_write_direct_begin :
    UploadManager → Option Bytes → ℕ → ℕ → UploadResult × UploadManager
upload_write_direct_begin m none size now = (invalid, m)
upload_write_direct_begin m (some id) size now =
    if size == 0 then (ok, m) else write_direct_begin (reap m now) id size now

-- `partial` is what reached the file if `error` is not 0.
unfoldable pub write_direct_end :
    UploadManager → Bytes → ℕ → Bytes → ℕ → UploadResult × UploadManager
write_direct_end m bytes error partial now =
    let s = m.slot in
    let writes = if ltb 0 s.active_chunk_writes then s.active_chunk_writes - 1 else 0 in
    if not (error == 0)
    then (
      write_failure error,
      with_slot m (record s {
        active_chunk_writes = writes;
        writer_error = error;
        part = s.part ++ partial;
      }),
    )
    else (
      ok,
      with_slot m (record s {
        active_chunk_writes = writes;
        received = s.received + length bytes;
        last_activity = now;
        part = s.part ++ bytes;
      }),
    )

-- The end of `upload_finish_with_metrics` that is not `UPLOAD_OK`: it clears the slot, whichever
-- upload holds it.
unfoldable pub finish_failed : UploadManager → Bool → UploadResult → Replied
finish_failed m removable result = (if removable then result else io_error, clear_slot m)

-- The first checks of `upload_finish_with_metrics`.
unfoldable pub finish_check : UploadManager → Bytes → Option UploadResult
finish_check m id =
    let s = m.slot in
    if not (is_receiving s id)
    then some not_found
    else if not (s.received == s.expected_size)
    then some size_mismatch
    else if not (s.writer_error == 0)
    then some (write_failure s.writer_error)
    else none

-- What it does next: end, flush the last buffer and wait for the writer, or hash the part file.
pub data Finishing : Type 0 where
  finish_ended : Replied → Finishing
  finish_waits : UploadManager → Finishing
  finish_hashes : UploadManager → Finishing

unfoldable pub flush_or_fail : ℕ × UploadManager → Bool → Finishing
flush_or_fail (error, m) removable =
    if error == 0
    then finish_waits m
    else finish_ended (finish_failed m removable (write_failure error))

unfoldable pub finish_accepted : UploadManager → Bool → Bool → Finishing
finish_accepted m discard removable =
    if m.slot.fast_direct_stream
    then finish_hashes (with_slot m (record m.slot { finalizing_chunks = true }))
    else flush_or_fail (enqueue_write_buffer m discard) removable

unfoldable pub finish_checked : UploadManager → Option UploadResult → Bool → Bool → Finishing
finish_checked m (some result) discard removable = finish_ended (finish_failed m removable result)
finish_checked m none discard removable = finish_accepted m discard removable

-- `upload_finish_with_metrics` up to where it waits.
unfoldable pub upload_finish_begin : UploadManager → Option Bytes → ℕ → Bool → Bool → Finishing
upload_finish_begin m none now discard removable = finish_ended (invalid, m)
upload_finish_begin m (some id) now discard removable =
    let m' = reap m now in finish_checked m' (finish_check m' id) discard removable

unfoldable pub stream_published : UploadManager → Bool → Publication → Replied
stream_published m removable linked = publish m
stream_published m removable renamed = publish m
stream_published m removable exists = finish_failed m removable busy
stream_published m removable failed = finish_failed m removable io_error

-- From the comparison of the hashes on.
unfoldable pub publish_stream : UploadManager → Bytes → PublishEnv → Replied
publish_stream m digest env =
    if hash_differs m.slot.expected_hash digest
    then finish_failed m env.removable hash_mismatch
    else if not (env.sync_error == 0)
    then finish_failed m env.removable (write_failure env.sync_error)
    else if not env.closed
    then finish_failed m env.removable io_error
    else stream_published m env.removable env.publication

-- `wait_for_write_queue_locked` is over.
abbrev pub queue_done : UploadManager → Bool
queue_done m =
    not (m.slot.writer_error == 0) || (length m.slot.write_queue == 0 && not m.writer_active)

-- After the wait for the writer: the hash is that of the bytes that `sha256_update` was given.
unfoldable pub finish_stream : (Bytes → Bytes) → UploadManager → PublishEnv → Replied
finish_stream digest m env =
    if not (m.slot.writer_error == 0)
    then finish_failed m env.removable (write_failure m.slot.writer_error)
    else publish_stream m (digest m.slot.hashed) env

-- After the pass over the part file of a direct stream.
unfoldable pub finish_direct : (Bytes → Bytes) → UploadManager → Bytes → PublishEnv → Replied
finish_direct digest m id env =
    if not (is_current m.slot id) || not m.slot.finalizing_chunks
    then finish_failed m env.removable not_found
    else if not env.readable
    then finish_failed m env.removable io_error
    else publish_stream m (digest m.slot.part) env
