-- ===== src/Upload/Chunks.antt =====
-- src/upload.c: the four operations of a chunk, and the writer that appends finished chunks in
-- order. Each is what happens under the mutex, after `reap_locked`.
use ps5_localsend.Base.{
  ℕ, ◌+◌, ◌-◌, ◌*◌, ◌/◌, ◌%◌, Bool, true, false, not, ◌&&◌, ◌||◌, Option, none, some, [], ◌++◌, ltb,
  leb, ◌==◌, if◌then◌else◌, Bytes, length, get_or, set, take, drop,
}
use ps5_localsend.Upload.State.{
  ok, invalid, chunk_bytes, chunk_buffer_slots, empty_chunk, with_slot, reap, binding_matches,
  chunk_length_for, is_current, is_receiving, UploadResult, Chunk, Slot, UploadManager, not_found,
  forbidden, busy, io_error, size_mismatch, backpressure,
}

-- What becomes of the chunk at `index`.
abbrev pub with_chunk : UploadManager → ℕ → Chunk → UploadManager
with_chunk m index c = with_slot m (record m.slot { chunks = set m.slot.chunks index c })

abbrev pub chunk_at : Slot → ℕ → Chunk
chunk_at s index = get_or s.chunks index empty_chunk

-- `++active_chunk_buffers` and the lines after it in `upload_chunk_begin`.
unfoldable pub take_chunk : UploadManager → ℕ → ℕ → UploadManager
take_chunk m index now =
    let s = m.slot in
    with_slot m (record s {
      chunks = set s.chunks index (record { state = 1; progress = 0; buffer = some [] });
      active_chunk_buffers = s.active_chunk_buffers + 1;
      chunk_transport = if s.started then s.chunk_transport else true;
      started = true;
      last_activity = now;
    })

-- The inner tests of `upload_chunk_begin`; `allocated` is whether `malloc` succeeds.
unfoldable pub begin_index : UploadManager → ℕ → ℕ → ℕ → Bool → UploadResult × UploadManager
begin_index m index chunk_size now allocated =
    if leb (length m.slot.chunks) index
      || not (chunk_length_for m.slot.expected_size index == chunk_size)
    then (size_mismatch, m)
    else if not ((chunk_at m.slot index).state == 0)
    then (busy, m)
    else if leb chunk_buffer_slots m.slot.active_chunk_buffers
    then (backpressure, m)
    else if not allocated
    then (io_error, m)
    else (ok, take_chunk m index now)

unfoldable pub chunk_begin_locked :
    UploadManager → Bytes → Bytes → Bytes → ℕ → ℕ → ℕ → ℕ → Bool → UploadResult × UploadManager
chunk_begin_locked m id client authorization total offset chunk_size now allocated =
    let s = m.slot in
    if not (is_current s id)
    then (not_found, m)
    else if not (binding_matches s (some client) (some authorization))
    then (forbidden, m)
    else if s.finalizing_chunks
    then (busy, m)
    else if s.started && not s.chunk_transport
    then (busy, m)
    else if not (total == s.expected_size)
        || leb total offset
        || ltb (total - offset) chunk_size
        || not (offset % chunk_bytes == 0)
        || (not (chunk_size == chunk_bytes) && not (offset + chunk_size == total))
    then (size_mismatch, m)
    else begin_index m (offset / chunk_bytes) chunk_size now allocated

-- `upload_chunk_begin`; `none` is a null pointer.
unfoldable pub upload_chunk_begin :
    UploadManager
    → Option Bytes
    → Option Bytes
    → Option Bytes
    → ℕ
    → ℕ
    → ℕ
    → ℕ
    → Bool
    → UploadResult × UploadManager
upload_chunk_begin m (some id) (some client) (some authorization) total offset chunk_size now
      allocated =
    if chunk_size == 0
    then (invalid, m)
    else chunk_begin_locked (reap m now) id client authorization total offset chunk_size now
        allocated
upload_chunk_begin m _ _ _ total offset chunk_size now allocated = (invalid, m)

-- `memcpy(buffer + at, bytes, size)`
abbrev pub copied : Option Bytes → ℕ → Bytes → Option Bytes
copied none at bytes = none
copied (some b) at bytes = some (take at b ++ (bytes ++ drop (at + length bytes) b))

unfoldable pub fill_chunk : UploadManager → ℕ → ℕ → Bytes → ℕ → UploadManager
fill_chunk m index relative bytes now =
    let s = m.slot in
    let c = chunk_at s index in
    with_slot m (record s {
      chunks = set s.chunks index (record c {
        progress = c.progress + length bytes;
        buffer = copied c.buffer relative bytes;
      });
      received = s.received + length bytes;
      last_activity = now;
    })

abbrev pub is_null : Option Bytes → Bool
is_null none = true
is_null (some b) = false

-- The chunk cannot be written or finished.
abbrev pub not_receiving : Slot → ℕ → Bool
not_receiving s index =
    leb (length s.chunks) index
    || is_null (chunk_at s index).buffer
    || not ((chunk_at s index).state == 1)

unfoldable pub write_index : UploadManager → ℕ → ℕ → Bytes → ℕ → UploadResult × UploadManager
write_index m index relative bytes now =
    let size = chunk_length_for m.slot.expected_size index in
    if not_receiving m.slot index
    then (busy, m)
    else if not (relative == (chunk_at m.slot index).progress)
        || ltb size relative
        || ltb (size - relative) (length bytes)
    then (size_mismatch, m)
    else (ok, fill_chunk m index relative bytes now)

unfoldable pub chunk_write_locked :
    UploadManager → Bytes → ℕ → Bytes → ℕ → UploadResult × UploadManager
chunk_write_locked m id offset bytes now =
    let s = m.slot in
    if not (is_receiving s id)
    then (not_found, m)
    else if leb s.expected_size offset || ltb (s.expected_size - offset) (length bytes)
    then (size_mismatch, m)
    else write_index m (offset / chunk_bytes) (offset - offset / chunk_bytes * chunk_bytes) bytes
        now

-- `upload_chunk_write`; the data are `none` where the pointer is null and `size` is not 0.
unfoldable pub upload_chunk_write :
    UploadManager → Option Bytes → ℕ → Option Bytes → ℕ → UploadResult × UploadManager
upload_chunk_write m (some id) offset (some bytes) now =
    if length bytes == 0 then (ok, m) else chunk_write_locked (reap m now) id offset bytes now
upload_chunk_write m _ offset _ now = (invalid, m)

-- The chunk is given up: its bytes no longer count, and its buffer is freed.
unfoldable pub drop_chunk : Slot → ℕ → Slot
drop_chunk s index =
    let progress = (chunk_at s index).progress in
    record s {
      received = if leb progress s.received then s.received - progress else 0;
      chunks = set s.chunks index empty_chunk;
      active_chunk_buffers =
          if ltb 0 s.active_chunk_buffers
          then s.active_chunk_buffers - 1
          else s.active_chunk_buffers;
    }

unfoldable pub complete_chunk : Slot → ℕ → ℕ → Slot
complete_chunk s index now = record s {
  chunks = set s.chunks index (record (chunk_at s index) { state = 2 });
  chunks_completed = s.chunks_completed + 1;
  last_activity = now;
}

unfoldable pub finish_index : UploadManager → ℕ → ℕ → ℕ → UploadResult × UploadManager
finish_index m index chunk_size now =
    if not_receiving m.slot index
    then (busy, m)
    else if not (chunk_length_for m.slot.expected_size index == chunk_size)
        || not ((chunk_at m.slot index).progress == chunk_size)
    then (size_mismatch, with_slot m (drop_chunk m.slot index))
    else (ok, with_slot m (complete_chunk m.slot index now))

unfoldable pub chunk_finish_locked :
    UploadManager → Bytes → ℕ → ℕ → ℕ → UploadResult × UploadManager
chunk_finish_locked m id offset chunk_size now =
    let s = m.slot in
    if not (is_receiving s id)
    then (not_found, m)
    else if leb s.expected_size offset || not (offset % chunk_bytes == 0)
    then (size_mismatch, m)
    else finish_index m (offset / chunk_bytes) chunk_size now

unfoldable pub upload_chunk_finish :
    UploadManager → Option Bytes → ℕ → ℕ → ℕ → UploadResult × UploadManager
upload_chunk_finish m none offset chunk_size now = (invalid, m)
upload_chunk_finish m (some id) offset chunk_size now =
    if chunk_size == 0
    then (invalid, m)
    else chunk_finish_locked (reap m now) id offset chunk_size now

-- `upload_chunk_abort`, which does not reap.
unfoldable pub upload_chunk_abort : UploadManager → Option Bytes → ℕ → ℕ → UploadManager
upload_chunk_abort m none offset now = m
upload_chunk_abort m (some id) offset now =
    let s = m.slot in
    let index = offset / chunk_bytes in
    if is_receiving s id
      && ltb offset s.expected_size
      && offset % chunk_bytes == 0
      && ltb index (length s.chunks)
      && (chunk_at s index).state == 1
    then with_slot m (record (drop_chunk s index) { last_activity = now })
    else m

-- `chunk_ready_for_writer_locked`
unfoldable pub chunk_ready : Slot → Bool
chunk_ready s =
    s.chunk_transport
    && ltb s.next_chunk_to_write (length s.chunks)
    && (chunk_at s s.next_chunk_to_write).state == 2
    && not (is_null (chunk_at s s.next_chunk_to_write).buffer)

abbrev pub bytes_of : Option Bytes → Bytes
bytes_of none = []
bytes_of (some b) = b

-- The chunk is in the file: its buffer is freed, and the writer goes on to the next.
unfoldable pub chunk_written : Slot → Slot
chunk_written s =
    let index = s.next_chunk_to_write in
    let c = chunk_at s index in
    record s {
      part = s.part ++ bytes_of c.buffer;
      chunks = set s.chunks index (record c { state = 3; buffer = none });
      next_chunk_to_write = index + 1;
      active_chunk_buffers =
          if ltb 0 s.active_chunk_buffers
          then s.active_chunk_buffers - 1
          else s.active_chunk_buffers;
    }

-- One round of `upload_writer_main` on a chunk. The write itself runs outside the mutex; until it is
-- over `writer_active` holds off `clear_slot`, and no operation touches a chunk in state 2. `error` is what `write_all` returns: 0, or an error
-- number, after which the file holds some part of the buffer, `partial`. No round starts after an
-- error.
unfoldable pub writer_chunk_round : UploadManager → ℕ → Bytes → UploadManager
writer_chunk_round m error partial =
    let s = m.slot in
    if m.writer_shutdown
      || not (s.writer_error == 0)
      || not (length s.write_queue == 0)
      || not (chunk_ready s)
    then m
    else if error == 0
    then with_slot m (chunk_written s)
    else with_slot m (record s { writer_error = error; part = s.part ++ partial })
