-- ===== src/Upload/Tests.antt =====
-- src/upload.c: the theorems at concrete inputs: an upload of three bytes in one chunk.
use ps5_localsend.Base.{
  ℕ, ◌+◌, ◌*◌, ◌/◌, ◌≡◌, refl, subst, true, false, none, some, [], ◌∷◌, ◌++◌, Bytes, codes, equal,
  length, get_or, set, concat,
}
use ps5_localsend.Upload.Chunks.{
  take_chunk, begin_index, chunk_begin_locked, fill_chunk, write_index, chunk_write_locked,
  drop_chunk, complete_chunk, finish_index, chunk_finish_locked, chunk_ready, chunk_written,
  writer_chunk_round,
}
use ps5_localsend.Upload.Complete.{complete_published}
use ps5_localsend.Upload.Content.{content}
use ps5_localsend.Upload.Ops.{
  no_space, open_part, name_part, count_session, prepare_free, supersede, prepare_locked,
  finish_chunks_begin, publish, published_as, hash_differs, finish_chunks_publish, writer_done,
  Metadata, PrepareEnv, PublishEnv, linked,
}
use ps5_localsend.Upload.Publish.{publish_intact}
use ps5_localsend.Upload.Reach.{
  Reach-SlotOk, Reach, prepare, chunk_begin, chunk_write, chunk_finish, writer_round, finish_begin,
  start, then_step,
}
use ps5_localsend.Upload.State.{
  ok, chunk_bytes, empty_slot, with_slot, clear_slot, binding_matches, chunk_length_for,
  chunk_count_for, Chunk, UploadManager,
}
use ps5_localsend.Upload.Steps.{SlotOk}
use ps5_localsend.Upload.Writer.{rounds}
use ps5_localsend.Upload.Written.{write_appends}

abbrev pub client_a : Bytes
client_a = codes "10.0.0.2"

abbrev pub bearer_a : Bytes
bearer_a = codes "Bearer 0"

abbrev pub abc : Bytes
abc = codes "abc"

-- A stand-in for the hash.
abbrev pub same_bytes : Bytes → Bytes
same_bytes b = b

abbrev pub meta_a : Metadata
meta_a = record { name = codes "a.txt"; size = 3; hash = abc }

abbrev pub env_a : PrepareEnv
env_a = record {
  space = some (4096, 100);
  unique_name = some (codes "a.txt");
  random_id = some (codes "00");
  part_path_fits = true;
  open_error = 0;
  reserve_error = 0;
  allocated = true;
}

abbrev pub well : PublishEnv
well = record {
  readable = true;
  sync_error = 0;
  closed = true;
  publication = linked;
  removable = true;
}

abbrev pub idle : UploadManager
idle = record {
  slot = empty_slot;
  writer_active = false;
  writer_shutdown = false;
  destination = codes "/data";
  max_file_bytes = 1000;
  max_files = 10;
  lease_seconds = 60;
  completed_files = 0;
  completed_authorization = [];
  last_completed_size = none;
  published = [];
}

abbrev holding : Chunk → ℕ → ℕ → ℕ → UploadManager
holding c received completed now = record idle {
  completed_authorization = bearer_a;
  slot = record empty_slot {
    occupied = true;
    started = true;
    fd_open = true;
    expected_size = 3;
    received = received;
    last_activity = now;
    upload_id = codes "00";
    client = client_a;
    authorization = bearer_a;
    final_name = codes "a.txt";
    expected_hash = abc;
    chunks = c ∷ [];
    chunks_completed = completed;
    active_chunk_buffers = 1;
    chunk_transport = true;
  };
}

-- Two of the three bytes are there.
abbrev partial : UploadManager
partial = holding (record { state = 1; progress = 2; buffer = some (codes "ab") }) 2 0 7

-- All of them are, and the chunk is finished.
abbrev full : UploadManager
full = holding (record { state = 2; progress = 3; buffer = some abc }) 3 1 9

prepared_to : Reach same_bytes (prepare_locked idle client_a bearer_a meta_a env_a 5).1
prepared_to = then_step (start refl) (prepare client_a bearer_a meta_a env_a 5)

begun_to :
    Reach same_bytes
      (chunk_begin_locked
        (prepare_locked idle client_a bearer_a meta_a env_a 5).1
        (codes "00")
        client_a
        bearer_a
        3
        0
        3
        6
        true).1
begun_to = then_step prepared_to (chunk_begin (codes "00") client_a bearer_a 3 0 3 6 true)

partial_is :
    (chunk_write_locked
      (chunk_begin_locked
        (prepare_locked idle client_a bearer_a meta_a env_a 5).1
        (codes "00")
        client_a
        bearer_a
        3
        0
        3
        6
        true).1
      (codes "00")
      0
      (codes "ab")
      7).1
    ≡ partial
unfolding prepare_locked supersede count_session prepare_free no_space name_part open_part
    chunk_count_for chunk_begin_locked begin_index take_chunk binding_matches chunk_length_for
    chunk_write_locked write_index fill_chunk equal clear_slot
partial_is = refl

partial_reached : Reach same_bytes partial
partial_reached =
    subst (Reach same_bytes) partial_is
      (then_step begun_to (chunk_write (codes "00") 0 (codes "ab") 7))

full_is :
    (chunk_finish_locked
      (chunk_write_locked partial (codes "00") 2 (codes "c") 8).1
      (codes "00")
      0
      3
      9).1
    ≡ full
unfolding chunk_write_locked write_index fill_chunk chunk_length_for chunk_finish_locked
    finish_index complete_chunk equal drop_chunk
full_is = refl

full_reached : Reach same_bytes full
full_reached = subst (Reach same_bytes) full_is (
    then_step (then_step partial_reached (chunk_write (codes "00") 2 (codes "c") 8))
      (chunk_finish (codes "00") 0 3 9))

Reach-SlotOk_example : SlotOk full.slot
Reach-SlotOk_example = Reach-SlotOk same_bytes full full_reached

write_appends_example :
    (content (chunk_write_locked partial (codes "00") 2 (codes "c") 8).1.slot
      ≡ set
          (content partial.slot)
          (2 / chunk_bytes)
          (get_or (content partial.slot) (2 / chunk_bytes) [] ++ codes "c"))
    × (2
        ≡ 2 / chunk_bytes * chunk_bytes
          + length (get_or (content partial.slot) (2 / chunk_bytes) []))
unfolding chunk_write_locked write_index fill_chunk chunk_length_for equal
write_appends_example =
    write_appends same_bytes partial (codes "00") 2 (codes "c") 8 partial_reached refl refl

complete_published_example :
    let n = rounds 1 (with_slot full (record full.slot { finalizing_chunks = true })) in
    (writer_done n.slot ≡ true)
    × ((finish_chunks_publish same_bytes n (codes "00") well).0 ≡ ok)
    × ((finish_chunks_publish same_bytes n (codes "00") well).1.published
        ≡ (codes "a.txt", concat (content full.slot)) ∷ [])
unfolding finish_chunks_begin binding_matches equal content hash_differs
complete_published_example =
    complete_published same_bytes full
      (with_slot full (record full.slot { finalizing_chunks = true })) (codes "00") (some client_a)
      (some bearer_a) well full_reached refl refl refl refl refl
      (record { readable_is = refl; synced = refl; closed_is = refl; linked_is = refl }) refl

-- The writer has written the chunk, and the caller may publish.
abbrev flushed : UploadManager
flushed =
    writer_chunk_round (finish_chunks_begin full (codes "00") (some client_a) (some bearer_a)).1 0
      []

flushed_reached : Reach same_bytes flushed
flushed_reached =
    then_step (then_step full_reached (finish_begin (codes "00") (some client_a) (some bearer_a)))
      (writer_round 0 [])

publish_intact_example :
    ((finish_chunks_publish same_bytes flushed (codes "00") well).1.published
      ≡ (flushed.slot.final_name, concat (content flushed.slot)) ∷ flushed.published)
    × (length (concat (content flushed.slot)) ≡ flushed.slot.expected_size)
    × (hash_differs flushed.slot.expected_hash (same_bytes (concat (content flushed.slot))) ≡ false)
unfolding finish_chunks_begin binding_matches equal writer_chunk_round chunk_ready chunk_written
    finish_chunks_publish hash_differs published_as publish
publish_intact_example =
    publish_intact same_bytes flushed (codes "00") well flushed_reached refl refl refl
