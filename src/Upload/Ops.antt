-- ===== src/Upload/Ops.antt =====
-- src/upload.c: how a slot is taken, given up, and published from its chunks.
use ps5_localsend.Base.{
  ℕ, ◌+◌, ◌-◌, ◌/◌, ◌%◌, ◌^◌, Bool, true, false, not, ◌&&◌, ◌||◌, Option, none, some, [], ◌∷◌, ltb,
  leb, ◌==◌, if◌then◌else◌, Bytes, equal, length, replicate,
}
use ps5_localsend.Upload.State.{
  ok, invalid, empty_chunk, with_slot, clear_slot, reap, binding_matches, chunk_count_for,
  is_current, is_receiving, write_failure, UploadResult, Slot, UploadManager, not_found, forbidden,
  busy, too_large, storage_full, io_error, size_mismatch, hash_mismatch, limit_reached,
}

-- What `parse_metadata` returns.
pub record Metadata : Type 0 where
  pub name : Bytes
  pub size : ℕ
  pub hash : Bytes

-- The answers that `upload_prepare` gets: `statvfs` (fragment size and free fragments), the free
-- name and its path, the random id, whether the part path fits its buffer, the errors of
-- `open_part_file` and `reserve_upload_space` (0 for none), and whether `calloc` succeeds.
pub record PrepareEnv : Type 0 where
  pub space : Option (ℕ × ℕ)
  pub unique_name : Option Bytes
  pub random_id : Option Bytes
  pub part_path_fits : Bool
  pub open_error : ℕ
  pub reserve_error : ℕ
  pub allocated : Bool

abbrev pub Replied : Type 0
Replied = UploadResult × UploadManager

unfoldable pub no_space : ℕ → Option (ℕ × ℕ) → Bool
no_space size none = true
no_space size (some (frsize, bavail)) =
    not (frsize == 0) && ltb bavail ((size + frsize - 1) % 2 ^ 64 / frsize)

-- The fields that are assigned on success.
abbrev pub prepared_slot : Slot → Bytes → Bytes → Metadata → ℕ → Slot
prepared_slot s client authorization meta now = record s {
  occupied = true;
  fd_open = true;
  expected_size = meta.size;
  chunks = replicate (chunk_count_for meta.size) empty_chunk;
  chunks_completed = 0;
  next_chunk_to_write = 0;
  active_chunk_buffers = 0;
  last_activity = now;
  client = client;
  authorization = authorization;
  expected_hash = meta.hash;
  part = [];
}

unfoldable pub open_part : UploadManager → Bytes → Bytes → Metadata → PrepareEnv → ℕ → Replied
open_part m client authorization meta env now =
    if not (env.open_error == 0)
    then (write_failure env.open_error, m)
    else if not (env.reserve_error == 0)
    then (write_failure env.reserve_error, clear_slot m)
    else if not (meta.size == 0) && not env.allocated
    then (io_error, clear_slot m)
    else (ok, with_slot m (prepared_slot m.slot client authorization meta now))

abbrev pub named : UploadManager → Bytes → Bytes → UploadManager
named m name id = with_slot m (record m.slot { final_name = name; upload_id = id })

unfoldable pub name_part :
    UploadManager
    → Bytes
    → Bytes
    → Metadata
    → PrepareEnv
    → Option Bytes
    → Option Bytes
    → ℕ
    → Replied
name_part m client authorization meta env none id now = (io_error, m)
name_part m client authorization meta env (some name) none now =
    (io_error, with_slot m (record m.slot { final_name = name }))
name_part m client authorization meta env (some name) (some id) now =
    if not env.part_path_fits
    then (io_error, named m name id)
    else open_part (named m name id) client authorization meta env now

-- A new session starts counting its files from zero.
unfoldable pub count_session : UploadManager → Bytes → UploadManager
count_session m authorization =
    if not (equal m.completed_authorization authorization)
    then record m { completed_files = 0; completed_authorization = authorization }
    else m

unfoldable pub prepare_free : UploadManager → Bytes → Bytes → Metadata → PrepareEnv → ℕ → Replied
prepare_free m client authorization meta env now =
    if leb m.max_files m.completed_files
    then (limit_reached, m)
    else if no_space meta.size env.space
    then (storage_full, m)
    else name_part m client authorization meta env env.unique_name env.random_id now

-- An upload that was prepared by another session and has not started is superseded.
unfoldable pub supersede : UploadManager → Bytes → UploadManager
supersede m authorization =
    let s = m.slot in
    if s.occupied && not s.started && not (equal s.authorization authorization)
    then clear_slot m
    else m

unfoldable pub prepare_locked : UploadManager → Bytes → Bytes → Metadata → PrepareEnv → ℕ → Replied
prepare_locked m client authorization meta env now =
    let m' = supersede m authorization in
    if m'.slot.occupied
    then (busy, m')
    else prepare_free (count_session m' authorization) client authorization meta env now

-- `upload_prepare`; the metadata are `none` where `parse_metadata` refuses the body.
unfoldable pub upload_prepare :
    UploadManager → Option Bytes → Option Bytes → Option Metadata → PrepareEnv → ℕ → Replied
upload_prepare m (some client) (some authorization) (some meta) env now =
    if leb 64 (length client) || leb 80 (length authorization)
    then (invalid, m)
    else if ltb m.max_file_bytes meta.size
    then (too_large, m)
    else prepare_locked (reap m now) client authorization meta env now
upload_prepare m _ _ _ env now = (invalid, m)

unfoldable pub begin_locked : UploadManager → Bytes → Option Bytes → Option Bytes → ℕ → ℕ → Replied
begin_locked m id client authorization size now =
    let s = m.slot in
    if not (is_current s id)
    then (not_found, m)
    else if not (binding_matches s client authorization)
    then (forbidden, m)
    else if s.started || s.chunk_transport
    then (busy, m)
    else if not (size == s.expected_size)
    then (size_mismatch, m)
    else (
      ok,
      with_slot m
          (record s { chunk_transport = false; started = true; last_activity = now; hashed = [] }),
    )

unfoldable pub upload_begin :
    UploadManager → Option Bytes → Option Bytes → Option Bytes → ℕ → ℕ → Replied
upload_begin m none client authorization size now = (invalid, m)
upload_begin m (some id) client authorization size now =
    begin_locked (reap m now) id client authorization size now

-- The first critical section of `upload_finish_chunks_with_metrics`. Without a result the caller
-- owns the finalization, and waits until the writer has failed or has written every chunk.
unfoldable pub finish_chunks_begin :
    UploadManager → Bytes → Option Bytes → Option Bytes → Option UploadResult × UploadManager
finish_chunks_begin m id client authorization =
    let s = m.slot in
    if not (is_current s id)
    then (some not_found, m)
    else if not (binding_matches s client authorization)
    then (some forbidden, m)
    else if s.finalizing_chunks
    then (some busy, m)
    else if not s.started
    then (some size_mismatch, m)
    else if not (s.chunks_completed == length s.chunks) || not (s.received == s.expected_size)
    then (some size_mismatch, m)
    else (none, with_slot m (record s { finalizing_chunks = true }))

-- `upload_finish_chunks_with_metrics` up to its wait.
unfoldable pub upload_finish_chunks_begin :
    UploadManager
    → Option Bytes
    → Option Bytes
    → Option Bytes
    → ℕ
    → Option UploadResult × UploadManager
upload_finish_chunks_begin m (some id) (some client) (some authorization) now =
    finish_chunks_begin (reap m now) id (some client) (some authorization)
upload_finish_chunks_begin m _ _ _ now = (some invalid, m)

pub data Publication : Type 0 where
  linked renamed exists failed : Publication

-- The answers of the second half: whether the part file can be read and hashed, the error of
-- `sync_for_publication`, whether `close` succeeds, `publish_part`, and whether `clear_slot` can
-- remove what is left.
pub record PublishEnv : Type 0 where
  pub readable : Bool
  pub sync_error : ℕ
  pub closed : Bool
  pub publication : Publication
  pub removable : Bool

-- The end of a finalization that did not publish.
unfoldable pub give_up : UploadManager → Bytes → Bool → UploadResult → Replied
give_up m id removable result =
    if is_current m.slot id
    then (if removable then result else io_error, clear_slot m)
    else (result, m)

-- The part file is under its final name: it counts for the session, and the slot is free.
unfoldable pub publish : UploadManager → Replied
publish m = (
  ok,
  clear_slot (record m {
    last_completed_size = some m.slot.expected_size;
    completed_files = m.completed_files + 1;
    published = (m.slot.final_name, m.slot.part) ∷ m.published;
  }),
)

unfoldable pub published_as : UploadManager → Bytes → Bool → Publication → Replied
published_as m id removable linked = publish m
published_as m id removable renamed = publish m
published_as m id removable exists = give_up m id removable busy
published_as m id removable failed = give_up m id removable io_error

-- `expected_hash[0] != '\0' && strcmp(expected_hash, digest) != 0`
unfoldable pub hash_differs : Bytes → Bytes → Bool
hash_differs [] digest = false
hash_differs (c ∷ cs) digest = not (equal (c ∷ cs) digest)

abbrev pub released : UploadManager → UploadManager
released m = with_slot m (record m.slot { finalizing_chunks = false })

-- From the end of the wait on; `digest` is the hash of a file's bytes in hexadecimal.
unfoldable pub finish_chunks_publish :
    (Bytes → Bytes) → UploadManager → Bytes → PublishEnv → Replied
finish_chunks_publish digest m id env =
    let s = m.slot in
    let m' = released m in
    if not (s.writer_error == 0)
    then give_up m id env.removable (write_failure s.writer_error)
    else if not (is_current s id) || not s.finalizing_chunks
    then give_up m' id env.removable not_found
    else if not env.readable
    then give_up m' id env.removable io_error
    else if hash_differs s.expected_hash (digest s.part)
    then give_up m' id env.removable hash_mismatch
    else if not (env.sync_error == 0)
    then give_up m' id env.removable (write_failure env.sync_error)
    else if not env.closed
    then give_up m' id env.removable io_error
    else published_as m' id env.removable env.publication

-- The wait of `upload_finish_chunks_with_metrics` is over.
abbrev pub writer_done : Slot → Bool
writer_done s = not (s.writer_error == 0) || s.next_chunk_to_write == length s.chunks

unfoldable pub cancel_locked : UploadManager → Bytes → Option Bytes → Option Bytes → Bool → Replied
cancel_locked m id client authorization removable =
    let s = m.slot in
    if not (is_current s id)
    then (not_found, m)
    else if not (binding_matches s client authorization)
    then (forbidden, m)
    else if s.finalizing_chunks
    then (busy, m)
    else (if removable then ok else io_error, clear_slot m)

-- `upload_cancel`, once no direct write is under way.
unfoldable pub upload_cancel :
    UploadManager → Option Bytes → Option Bytes → Option Bytes → Bool → ℕ → Replied
upload_cancel m (some id) (some client) (some authorization) removable now =
    cancel_locked (reap m now) id (some client) (some authorization) removable
upload_cancel m _ _ _ removable now = (invalid, m)

-- `upload_abort`, once no direct write is under way.
unfoldable pub upload_abort : UploadManager → Option Bytes → UploadManager
upload_abort m none = m
upload_abort m (some id) =
    if not m.slot.finalizing_chunks && is_receiving m.slot id then clear_slot m else m
