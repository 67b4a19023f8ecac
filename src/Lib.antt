-- ===== src/Lib.antt =====
-- PS5-localsend: a web server on the console that receives files from browsers in the local network.
-- A client asks for a challenge, reads the PIN on the console, and verifies it for a bearer token;
-- with the token it prepares an upload, sends the file in chunks of 8 MiB or as one stream, and has
-- it published under a free name in the destination directory.
--
-- Parts and files:
--   src/auth.c    Auth: State (the manager, its slots, cleanup_expired, constant_time_equal),
--                 Secrets (generate_hex, generate_pin), Ops (auth_create_challenge_at,
--                 auth_verify_challenge_at, auth_validate_bearer_at), Json
--                 (auth_parse_verify_json). The other files below Auth hold proofs.
--   src/upload.c  Upload: State (the manager and its slot, clear_slot, reap_locked), Chunks
--                 (upload_chunk_begin, _write, _finish, _abort and the writer thread), Ops
--                 (upload_prepare, upload_begin, upload_finish_chunks_with_metrics, upload_cancel,
--                 upload_abort), Stream (upload_write with the queue of write buffers,
--                 upload_enable_direct_stream, upload_write_direct, upload_finish_with_metrics),
--                 Metadata (parse_metadata), Admin (upload_manager_create,
--                 upload_manager_set_destination, upload_snapshot). The other files below
--                 Upload hold proofs; Flow orders the steps of a stream.
--   src/sha256.c  Sha256: Compress (transform), Context (sha256_init, _update, _final, _hex). The
--                 other files below Sha256 hold proofs; Padding has the hash as the standard
--                 describes it, on the whole text.
--   src/safe_path.c  SafePath: Names (safe_path_validate_filename, safe_path_join,
--                 safe_path_unique_name). The other files below SafePath hold proofs.
--   src/config.c  Config: State (the configuration, its defaults, the checks of numbers,
--                 destinations and storage targets), Load (apply_value and the loop over lines),
--                 File (config_load_file).
--                 The other files below Config hold proofs.
--   src/router.c  Router: Text (the tests of headers and paths), Json (escaping, the token reader,
--                 parse_storage_target), Range (Content-Range), Numbers (printed numbers), State
--                 (the router, requests, responses, errors, authorized), Sessions (challenge and
--                 verify), Uploads (prepare, delete, complete), Storage, Dispatch (the status page
--                 and router_dispatch), Streams (the functions for streams and chunks),
--                 Setup (router_init and the ports). The other files below Router hold proofs.
--   Base          Boolean tests, byte strings and lists that the parts share.
--
-- Each C function is a function of the same name that takes the manager and returns its result with
-- the new manager; a function `..._locked` is what happens under the mutex, after the checks of the
-- arguments and after reap_locked. C strings are lists of bytes, null pointers are `none`, results
-- of system calls and of the random source are arguments. Concurrency: every operation is one
-- critical section of the manager's mutex, and Upload.Reach orders the critical sections of all
-- threads in any way, except that a write to a stream does not go on after its slot was cleared.
-- Where upload.c waits on its condition, the step happens when the wait is over; clear_slot waits
-- until the writer is not active, so it does not fall between a write and the update after it.
--
-- Machine integers: a sum of uint64_t that can overflow is reduced modulo 2^64 (add_u64, no_space);
-- offsets and sizes within a file stay below 2^64, and the arithmetic on them does not overflow.
--
-- Fuel: the loop of auth_parse_verify_json gets three rounds. Each round but the last stores
-- one of two fields, and a field that is already stored is refused, so three are enough.
-- The loop of parse_metadata gets five rounds, as it has four fields. The loop of sha256_update gets
-- as many rounds as there are bytes, and each round takes at least one. generate_pin draws until a
-- word is below its limit; the words are a list, and a call that has used up the list is still
-- drawing, which Router calls unending. A printed number has at most twenty digits.
-- safe_path_unique_name tries 9999 counters, as its loop does.
--
-- The router calls the other parts as the code does, and its state holds theirs. A request is one
-- step, except that the completion of an upload waits for the writer: dispatch_upload_complete goes
-- up to the wait, complete_end on from it. A write to a stream takes several steps of the upload
-- manager; router_upload_stream_write is what the router does with its result.
--
-- Not modelled: memory that is released or overwritten, the measurement of times (the times of a
-- response are arguments), the end of the upload manager and of the router, the deletion of stale
-- part files, the servers (src/server.c, src/fast_upload_server.c), which use sockets and
-- libmicrohttpd, the platform files, the writing of the configuration file, and the making of
-- directories; the hash function is a parameter of both finalizations, so that their theorems hold
-- of any, and which paths exist is a parameter of safe_path_unique_name. The embedded assets are a parameter of router_dispatch. Where a build for
-- the host differs from one for the console, the console's is modelled. parse_u64 is modelled for
-- texts that do not begin with a space, which trimmed values never do.
pub mod Base
pub mod Auth
pub mod Config
pub mod Router
pub mod SafePath
pub mod Sha256
pub mod Upload
