-- ===== src/Upload/State.antt =====
-- src/upload.c, src/upload.h: the upload manager. The mutex, the condition and the clocks that only
-- feed the timing report are left out; `now` is what `current_seconds` returns. A `char` array
-- holds a C string, and one that was cleared is the empty string. Where the source waits on the
-- condition, a step of the model happens when the wait is over; `clear_slot` waits until the writer
-- is not active.
use ps5_localsend.Base.{
  ℕ, ◌+◌, ◌-◌, ◌*◌, ◌/◌, Bool, false, not, ◌&&◌, Option, none, some, List, [], ltb, leb, ◌==◌,
  if◌then◌else◌, Bytes, equal,
}

pub data UploadResult : Type 0 where
  ok invalid not_found forbidden busy too_large storage_full io_error : UploadResult
  size_mismatch hash_mismatch limit_reached backpressure : UploadResult

abbrev pub chunk_bytes : ℕ
chunk_bytes = 8 * 1024 * 1024

abbrev pub chunk_buffer_slots : ℕ
chunk_buffer_slots = 6 * 2

abbrev pub write_buffer_bytes : ℕ
write_buffer_bytes = 4 * 1024 * 1024

abbrev pub write_queue_depth : ℕ
write_queue_depth = 4

abbrev pub enospc : ℕ
enospc = 28

-- One extent: an entry of `chunk_states`, of `chunk_progress` and of `chunk_buffers`. A buffer
-- holds the bytes that were copied into it; it is `none` where the pointer is null.
pub record Chunk : Type 0 where
  pub state : ℕ
  pub progress : ℕ
  pub buffer : Option Bytes

-- What `clear_slot` resets. `part` is the content of the file at `part_path`, as far as it was
-- written, and `fd_open` says that `fd` is not -1.
pub record Slot : Type 0 where
  pub occupied : Bool
  pub started : Bool
  pub fd_open : Bool
  pub expected_size : ℕ
  pub received : ℕ
  pub last_activity : ℕ
  pub upload_id : Bytes
  pub client : Bytes
  pub authorization : Bytes
  pub final_name : Bytes
  pub expected_hash : Bytes
  pub part : Bytes
  pub chunks : List Chunk
  pub chunks_completed : ℕ
  pub next_chunk_to_write : ℕ
  pub active_chunk_buffers : ℕ
  pub chunk_transport : Bool
  pub finalizing_chunks : Bool
  pub active_chunk_writes : ℕ
  pub fast_direct_stream : Bool
  pub writer_error : ℕ
  -- the ring of write buffers: those enqueued, oldest first, and the one being filled
  pub write_queue : List Bytes
  pub buffered : Bytes
  -- every byte that was hashed by `sha256_update`
  pub hashed : Bytes

pub record UploadManager : Type 0 where
  pub slot : Slot
  pub writer_active : Bool
  pub writer_shutdown : Bool
  pub destination : Bytes
  pub max_file_bytes : ℕ
  pub max_files : ℕ
  pub lease_seconds : ℕ
  pub completed_files : ℕ
  pub completed_authorization : Bytes
  pub last_completed_size : Option ℕ
  -- the files that `publish_part` has put into the destination, with their names
  pub published : List (Bytes × Bytes)

-- The slot after `clear_slot`.
abbrev pub empty_slot : Slot
empty_slot = record {
  occupied = false;
  started = false;
  fd_open = false;
  expected_size = 0;
  received = 0;
  last_activity = 0;
  upload_id = [];
  client = [];
  authorization = [];
  final_name = [];
  expected_hash = [];
  part = [];
  chunks = [];
  chunks_completed = 0;
  next_chunk_to_write = 0;
  active_chunk_buffers = 0;
  chunk_transport = false;
  finalizing_chunks = false;
  active_chunk_writes = 0;
  fast_direct_stream = false;
  writer_error = 0;
  write_queue = [];
  buffered = [];
  hashed = [];
}

abbrev pub empty_chunk : Chunk
empty_chunk = record { state = 0; progress = 0; buffer = none }

abbrev pub with_slot : UploadManager → Slot → UploadManager
with_slot m s = record m { slot = s }

unfoldable pub clear_slot : UploadManager → UploadManager
clear_slot m = record m { slot = empty_slot }

-- `reap_locked`: an idle slot whose lease is over is cleared.
unfoldable pub reap : UploadManager → ℕ → UploadManager
reap m now =
    let s = m.slot in
    if not s.finalizing_chunks
      && s.active_chunk_writes == 0
      && s.occupied
      && not (s.last_activity == 0)
      && leb s.last_activity now
      && leb m.lease_seconds (now - s.last_activity)
    then clear_slot m
    else m

-- `binding_matches`, for pointers that may be null.
unfoldable pub binding_matches : Slot → Option Bytes → Option Bytes → Bool
binding_matches s (some client) (some authorization) =
    equal s.client client && equal s.authorization authorization
binding_matches s _ _ = false

-- `chunk_length_for`; offsets are below 2^64, so the product is not reduced.
unfoldable pub chunk_length_for : ℕ → ℕ → ℕ
chunk_length_for expected_size index =
    let offset = index * chunk_bytes in
    if leb expected_size offset
    then 0
    else if ltb (expected_size - offset) chunk_bytes
    then expected_size - offset
    else chunk_bytes

-- The chunks of a file of `size` bytes.
unfoldable pub chunk_count_for : ℕ → ℕ
chunk_count_for size = if size == 0 then 0 else (size - 1) / chunk_bytes + 1

-- The slot holds this upload.
abbrev pub is_current : Slot → Bytes → Bool
is_current s id = s.occupied && equal s.upload_id id

abbrev pub is_receiving : Slot → Bytes → Bool
is_receiving s id = s.occupied && s.started && equal s.upload_id id

abbrev pub write_failure : ℕ → UploadResult
write_failure error = if error == enospc then storage_full else io_error
