-- ===== src/Upload/StreamTests.antt =====
-- src/upload.c: the theorems on streams at concrete inputs: three bytes in two writes.
use ps5_localsend.Base.{
  ◌≡◌, refl, subst, inl, true, false, some, [], ◌∷◌, arith, Bytes, codes, equal, starts_with,
  skip_space, expect, length,
}
use ps5_localsend.SafePath.Names.{
  lead_byte, bad_code, next_byte, utf8_end, valid_utf8, is_forbidden, has_forbidden,
  safe_path_validate_filename,
}
use ps5_localsend.Upload.Findings.{finish_clears_other, stale_bytes_kept}
use ps5_localsend.Upload.Flow.{Fresh, FlowOk, Flow, flow_begun, flow_wrote}
use ps5_localsend.Upload.FlowSteps.{Flow-FlowOk}
use ps5_localsend.Upload.Metadata.{
  json_loop, json_string, u64_loop, u64_of, json_u64, store_name, store_size, store_type,
  read_value, after_separator, after_entry, read_entry, read_or_close, read_entries,
  managed_part_name, metadata_of, finish_entries, read_object, parse_metadata, read,
}
use ps5_localsend.Upload.MetadataLoop.{ReadOk, parse_metadata-ReadOk}
use ps5_localsend.Upload.Ops.{
  no_space, open_part, name_part, count_session, prepare_free, supersede, prepare_locked,
  upload_prepare, begin_locked, publish, hash_differs,
}
use ps5_localsend.Upload.State.{
  ok, empty_slot, empty_chunk, clear_slot, reap, binding_matches, chunk_count_for, Slot,
  UploadManager, not_found,
}
use ps5_localsend.Upload.Stream.{
  enqueue_write_buffer, buffer_bytes, write_round, writer_queue_round, finish_check, flush_or_fail,
  finish_accepted, finish_checked, upload_finish_begin, stream_published, publish_stream,
  queue_done, finish_stream, finish_ended,
}
use ps5_localsend.Upload.StreamComplete.{stream_complete}
use ps5_localsend.Upload.StreamFinish.{queue_rounds}
use ps5_localsend.Upload.StreamIntact.{writer_rounds, stream_intact}
use ps5_localsend.Upload.StreamPublish.{prepare-Fresh}
use ps5_localsend.Upload.Tests.{client_a, bearer_a, abc, same_bytes, meta_a, env_a, well, idle}

abbrev prepared_a : UploadManager
prepared_a = (prepare_locked idle client_a bearer_a meta_a env_a 5).1

abbrev streaming_a : UploadManager
streaming_a = (begin_locked prepared_a (codes "00") (some client_a) (some bearer_a) 3 6).1

at_start : Fresh prepared_a.slot
unfolding prepare_locked supersede count_session prepare_free no_space name_part open_part equal
at_start = prepare-Fresh idle client_a bearer_a meta_a env_a 5 refl refl

begun_a : Flow streaming_a
unfolding prepare_locked supersede count_session prepare_free no_space name_part open_part equal
    begin_locked binding_matches
begun_a = flow_begun prepared_a (codes "00") (some client_a) (some bearer_a) 3 6 at_start refl

abbrev slot_a : Bytes → Slot
slot_a bytes = record empty_slot {
  occupied = true;
  started = true;
  fd_open = true;
  expected_size = 3;
  received = length bytes;
  last_activity = 8;
  upload_id = codes "00";
  client = client_a;
  authorization = bearer_a;
  final_name = codes "a.txt";
  expected_hash = abc;
  chunks = empty_chunk ∷ [];
  buffered = bytes;
  hashed = bytes;
}

abbrev received_a : UploadManager
received_a = record idle { completed_authorization = bearer_a; slot = slot_a abc }

received_is :
    (write_round (write_round streaming_a (codes "ab") 7 false).1 (codes "c") 8 false).1
    ≡ received_a
unfolding prepare_locked supersede count_session prepare_free no_space name_part open_part equal
    begin_locked binding_matches chunk_count_for write_round buffer_bytes
received_is = refl

received_reached : Flow received_a
unfolding prepare_locked supersede count_session prepare_free no_space name_part open_part equal
    begin_locked binding_matches chunk_count_for write_round buffer_bytes
received_reached = subst Flow received_is (
    flow_wrote _ (codes "c") 8 false
      (flow_wrote streaming_a (codes "ab") 7 false begun_a (inl (omega arith))) (inl (omega arith)))

Flow-FlowOk_example : FlowOk received_a.slot
Flow-FlowOk_example = Flow-FlowOk received_a received_reached

-- The last buffer is queued.
abbrev flushed_a : UploadManager
flushed_a = (enqueue_write_buffer received_a false).1

-- One round of the writer puts it into the file.
stream_intact_example :
    ((finish_stream same_bytes (writer_rounds ((0, []) ∷ []) flushed_a) well).1.published
      ≡ (codes "a.txt", abc) ∷ [])
    × (length abc ≡ 3)
    × (hash_differs abc abc ≡ false)
unfolding upload_finish_begin reap finish_checked finish_check finish_accepted flush_or_fail
    enqueue_write_buffer equal writer_rounds writer_queue_round finish_stream publish_stream
    hash_differs stream_published publish
stream_intact_example =
    stream_intact same_bytes received_a flushed_a (codes "00") 9 false true ((0, []) ∷ []) well
      received_reached (inl (omega arith)) refl refl refl

stream_complete_example :
    let n = queue_rounds (length flushed_a.slot.write_queue) flushed_a in
    (queue_done n ≡ true)
    × ((finish_stream same_bytes n well).0 ≡ ok)
    × ((finish_stream same_bytes n well).1.published ≡ (codes "a.txt", abc) ∷ [])
    × (length abc ≡ 3)
unfolding upload_finish_begin reap finish_checked finish_check finish_accepted flush_or_fail
    enqueue_write_buffer equal hash_differs
stream_complete_example =
    stream_complete same_bytes received_a flushed_a (codes "00") 9 false true well received_reached
      (inl (omega arith)) refl refl refl refl
      (record { readable_is = refl; synced = refl; closed_is = refl; linked_is = refl })

finish_clears_other_example :
    upload_finish_begin received_a (some (codes "11")) 9 false true
    ≡ finish_ended (not_found, clear_slot received_a)
unfolding reap equal
finish_clears_other_example = finish_clears_other received_a (codes "11") 9 false true refl refl

stale_bytes_kept_example :
    let left = (write_round (clear_slot received_a) abc 9 false).1 in
    let next = (upload_prepare left (some client_a) (some bearer_a) (some meta_a) env_a 10).1 in
    (left.slot.occupied ≡ false) × (next.slot.received ≡ 3) × (next.slot.buffered ≡ abc)
unfolding upload_prepare reap prepare_locked supersede count_session prepare_free no_space name_part
    open_part equal write_round buffer_bytes clear_slot
stale_bytes_kept_example =
    stale_bytes_kept received_a abc 9 false client_a bearer_a meta_a env_a 10 (omega arith) refl

abbrev body_a : Bytes
body_a = codes "{\"name\":\"a.txt\",\"size\":3,\"type\":\"text/plain\"}"

parse_metadata_test :
    parse_metadata body_a ≡ read (some (record { name = codes "a.txt"; size = 3; hash = [] }))
unfolding parse_metadata read_object finish_entries read_entries read_or_close read_entry read_value
    store_name store_size store_type json_string json_loop json_u64 u64_of u64_loop after_entry
    after_separator metadata_of managed_part_name equal expect skip_space starts_with
    safe_path_validate_filename valid_utf8 utf8_end next_byte lead_byte has_forbidden is_forbidden
    bad_code
parse_metadata_test = refl

parse_metadata-ReadOk_example : ReadOk (parse_metadata body_a)
parse_metadata-ReadOk_example = parse_metadata-ReadOk body_a
