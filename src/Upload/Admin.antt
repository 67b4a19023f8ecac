-- ===== src/Upload/Admin.antt =====
-- src/upload.c: the change of the destination, and what the status page is told.
use ps5_localsend.Base.{
  ℕ, Bool, false, not, ◌||◌, Option, none, some, [], leb, ◌==◌, if◌then◌else◌, Bytes, length,
  get_or,
}
use ps5_localsend.Config.State.{AppConfig}
use ps5_localsend.Upload.State.{
  ok, invalid, empty_slot, reap, write_failure, UploadResult, UploadManager, busy,
}

-- `upload_manager_set_destination` of a build for the console; `directory_error` is 0 or the error
-- of `ensure_destination_directory`. Stale part files in the new directory are deleted.
unfoldable pub set_destination_locked : UploadManager → Bytes → ℕ → UploadResult × UploadManager
set_destination_locked m destination directory_error =
    if m.slot.occupied
    then (busy, m)
    else if not (directory_error == 0)
    then (write_failure directory_error, m)
    else (ok, record m { destination = destination })

unfoldable pub upload_manager_set_destination :
    UploadManager → Option Bytes → ℕ → ℕ → UploadResult × UploadManager
upload_manager_set_destination m none now directory_error = (invalid, m)
upload_manager_set_destination m (some destination) now directory_error =
    if not (get_or destination 0 0 == b'/') || leb 1024 (length destination)
    then (invalid, m)
    else set_destination_locked (reap m now) destination directory_error

-- The metrics of the last upload are left out.
pub record Snapshot : Type 0 where
  pub active : Bool
  pub started : Bool
  pub name : Bytes
  pub received : ℕ
  pub expected : ℕ
  pub last_completed_size : Option ℕ

unfoldable pub snapshot_of : UploadManager → Snapshot
snapshot_of m = record {
  active = m.slot.occupied;
  started = m.slot.started;
  name = if m.slot.occupied then m.slot.final_name else [];
  received = m.slot.received;
  expected = m.slot.expected_size;
  last_completed_size = m.last_completed_size;
}

unfoldable pub upload_snapshot : UploadManager → ℕ → Snapshot × UploadManager
upload_snapshot m now = let m' = reap m now in (snapshot_of m', m')

-- `UPLOAD_LEASE_SECONDS`
abbrev pub lease_seconds_default : ℕ
lease_seconds_default = 60

-- Which of the steps of `upload_manager_create` succeed.
pub record CreateEnv : Type 0 where
  pub allocated : Bool
  pub directory_made : Bool
  pub mutex_ready : Bool
  pub condition_ready : Bool
  pub buffer_allocated : Bool
  pub thread_started : Bool

-- `upload_manager_create` of a build for the console; stale part files in the directory are
-- deleted.
unfoldable pub upload_manager_create : AppConfig → CreateEnv → Option UploadManager
upload_manager_create config env =
    if not env.allocated
    then none
    else if leb 1024 (length config.destination) || not env.directory_made || not env.mutex_ready
    then none
    else if not env.condition_ready
    then none
    else if not env.buffer_allocated
    then none
    else if not env.thread_started
    then none
    else some (record {
      slot = empty_slot;
      writer_active = false;
      writer_shutdown = false;
      destination = config.destination;
      max_file_bytes = config.max_file_bytes;
      max_files = config.max_files_per_session;
      lease_seconds = lease_seconds_default;
      completed_files = 0;
      completed_authorization = [];
      last_completed_size = none;
      published = [];
    })
