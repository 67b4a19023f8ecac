-- ===== src/Router/Tests.antt =====
-- src/router.c: the theorems at concrete inputs.
use ps5_localsend.Auth.Bearer.{bearer}
use ps5_localsend.Auth.Invariant.{IsValid}
use ps5_localsend.Auth.Json.{
  literal_loop, parse_literal_string, store_pair, after_comma, after_value, read_pair, read_item,
  read_items, all_read, finish_parse, parse_object, auth_parse_verify_json,
}
use ps5_localsend.Auth.JsonAccepts.{verify_body}
use ps5_localsend.Auth.Ops.{
  held_by, scan, create_in, create_locked, find_challenge, open_session, verify_slot, verify_found,
  verify_locked, auth_verify_challenge_at, auth_validate_bearer_at,
}
use ps5_localsend.Auth.Preserve.{create_locked-IsValid}
use ps5_localsend.Auth.Run.{run, run-IsValid}
use ps5_localsend.Auth.Secrets.{hex_digit, bytes_to_hex, generate_hex}
use ps5_localsend.Auth.State.{
  cleared_challenge, cleared_session, differences, constant_time_equal, valid_client_address,
  cleanup_challenge, cleanup_session, cleanup_expired, auth_manager_create, AuthManager,
}
use ps5_localsend.Base.{
  ◌+◌, ◌<◌, ◌≡◌, refl, subst, ◌↔◌, true, false, Option, none, some, [], ◌∷◌, ◌++◌, arith, Bytes,
  codes, equal, starts_with, skip_space, expect, replicate, all,
}
use ps5_localsend.Config.State.{read_digits, default_config, auth_pin, auth_none}
use ps5_localsend.Router.Access.{Spared, router_dispatch-Spared}
use ps5_localsend.Router.Admits.{Admitted, router_upload_stream_begin_ex-Admitted}
use ps5_localsend.Router.Begins.{has_begun, Measured}
use ps5_localsend.Router.Destinations.{Agrees, dispatch_storage-Agrees}
use ps5_localsend.Router.Dispatch.{router_dispatch, Asset}
use ps5_localsend.Router.EscapeLaws.{
  Escaped, json_escape_string-Escaped, json_escape_filename-json_escape_string,
}
use ps5_localsend.Router.Guards.{settled, Untouched, router_dispatch-Untouched}
use ps5_localsend.Router.Json.{json_escape_filename, json_escape_string}
use ps5_localsend.Router.Login.{status_of, verified_as, authorized-dispatch_verify}
use ps5_localsend.Router.Numbers.{print_digits}
use ps5_localsend.Router.Range.{
  range_number_of, parse_range_number, range_of, parse_range_end, parse_content_range, ContentRange,
}
use ps5_localsend.Router.RangeLaws.{
  content_range_text, WithinOr, parse_content_range-Within, parse_content_range-text,
}
use ps5_localsend.Router.Sessions.{verify_response, verify_body_read, dispatch_verify}
use ps5_localsend.Router.Setup.{with_managers, router_init, router_init-Ready, InitEnv, Ready}
use ps5_localsend.Router.State.{
  printed, authorized_in, authorized, request_authorization, Router, Request, UploadMetrics, Env,
}
use ps5_localsend.Router.Storage.{dispatch_storage}
use ps5_localsend.Router.Streams.{
  chunk_replied, begin_chunk, begin_body, begin_authorized, begin_found,
  router_upload_stream_begin_ex,
}
use ps5_localsend.Router.Text.{valid_host, same_origin, is_json_content_type, upload_id_from_path}
use ps5_localsend.Upload.Admin.{upload_manager_create}
use ps5_localsend.Upload.Chunks.{take_chunk, begin_index, chunk_begin_locked, upload_chunk_begin}
use ps5_localsend.Upload.State.{
  empty_slot, empty_chunk, reap, binding_matches, chunk_length_for, chunk_count_for, UploadManager,
}

abbrev client_a : Bytes
client_a = codes "10.0.0.2"

abbrev id_a : Bytes
id_a = replicate 32 b'a'

abbrev pin_a : Bytes
pin_a = codes "123456"

abbrev token_a : Bytes
token_a = replicate 64 b'0'

abbrev sessions_a : AuthManager
sessions_a = record {
  pin_ttl_seconds = 20;
  session_ttl_seconds = 7200;
  challenges = replicate 8 cleared_challenge;
  sessions = replicate 4 cleared_session;
}

-- A challenge was granted at time 100.
abbrev granted : AuthManager
granted = record sessions_a {
  challenges =
      record {
        occupied = true;
        used = false;
        attempts = 0;
        expires_at = 120;
        rate_limited_until = 0;
        client_address = client_a;
        challenge_id = id_a;
        pin = pin_a;
      }
      ∷ replicate 7 cleared_challenge;
}

granted_is : IsValid granted
unfolding create_locked cleanup_expired cleanup_challenge cleanup_session scan held_by create_in run
    auth_manager_create
granted_is = subst IsValid {x = (create_locked sessions_a client_a 100 id_a pin_a).1} refl (
    create_locked-IsValid sessions_a client_a 100 id_a pin_a refl
      (run-IsValid 20 7200 true true sessions_a [] refl tt))

abbrev uploads_a : UploadManager
uploads_a = record {
  slot = empty_slot;
  writer_active = false;
  writer_shutdown = false;
  destination = codes "/data";
  max_file_bytes = 1000;
  max_files = 10;
  lease_seconds = 60;
  completed_files = 0;
  completed_authorization = [];
  last_completed_size = none;
  published = [];
}

abbrev router_a : Router
router_a = record {
  config = default_config;
  auth_mode = auth_pin;
  fast_upload_port = 53318;
  auth = granted;
  uploads = uploads_a;
}

abbrev times_a : UploadMetrics
times_a = record { preparation_ms = 1; transfer_ms = 2; write_ms = 3; direct_io = false }

abbrev env_a : Env
env_a = record {
  now = 110;
  error_number = 0;
  strerror = λ n. none;
  prepare = record {
    space = some (4096, 100);
    unique_name = some (codes "a.txt");
    random_id = some (codes "00");
    part_path_fits = true;
    open_error = 0;
    reserve_error = 0;
    allocated = true;
  };
  removable = true;
  id_bytes = some (replicate 16 0);
  pin_draws = some 5 ∷ [];
  token_bytes = some (replicate 32 0);
  notified = true;
  directory_error = 0;
  restore_error = 0;
  saved = true;
  last_metrics = times_a;
}

abbrev verify_request : Request
verify_request = record {
  method = codes "POST";
  path = codes "/api/v1/auth/verify";
  body = verify_body id_a pin_a;
  client_address = some client_a;
  host = some (codes "ps5");
  origin = some (codes "http://ps5");
  content_type = some (codes "application/json");
  authorization = none;
  content_range = none;
}

abbrev no_assets : Bytes → Option Asset
no_assets path = none

-- The same request from another page.
abbrev foreign_request : Request
foreign_request = record verify_request { origin = some (codes "http://other") }

router_dispatch-Untouched_example :
    Untouched router_a 110 (settled (router_dispatch no_assets router_a foreign_request env_a))
unfolding same_origin valid_host all equal
router_dispatch-Untouched_example =
    router_dispatch-Untouched no_assets router_a foreign_request env_a refl

-- A request to prepare an upload, without a session.
abbrev stranger_request : Request
stranger_request = record verify_request { path = codes "/api/v1/uploads"; body = codes "{}" }

router_dispatch-Spared_example :
    Spared router_a 110 (router_dispatch no_assets router_a stranger_request env_a)
unfolding authorized_in auth_validate_bearer_at
router_dispatch-Spared_example =
    router_dispatch-Spared no_assets router_a stranger_request env_a refl

verified_sent : status_of (dispatch_verify router_a verify_request env_a) ≡ 200
unfolding status_of dispatch_verify equal same_origin valid_host all is_json_content_type
    starts_with verify_body_read auth_parse_verify_json expect skip_space read_items read_item
    read_pair store_pair parse_literal_string literal_loop after_comma after_value finish_parse
    all_read parse_object auth_verify_challenge_at valid_client_address find_challenge verify_locked
    verify_found verify_slot open_session constant_time_equal differences generate_hex bytes_to_hex
    hex_digit verify_response printed print_digits
verified_sent = refl

abbrev later_request : Request
later_request = record stranger_request { authorization = some (bearer token_a) }

abbrev session_opened : Router
session_opened = record router_a {
  auth = (verified_as router_a verify_request env_a (id_a, pin_a)).1;
}

opened_is : settled (dispatch_verify router_a verify_request env_a) ≡ some session_opened
unfolding settled dispatch_verify equal same_origin valid_host all is_json_content_type starts_with
    verify_body_read auth_parse_verify_json expect skip_space read_items read_item read_pair
    store_pair parse_literal_string literal_loop after_comma after_value finish_parse all_read
    parse_object auth_verify_challenge_at valid_client_address find_challenge verify_locked
    verify_found verify_slot open_session constant_time_equal differences generate_hex bytes_to_hex
    hex_digit verify_response printed print_digits
opened_is = refl

authorized-dispatch_verify_example :
    ((authorized session_opened later_request 200).0 ≡ true)
    ↔ ((client_a ≡ client_a) × (token_a ≡ token_a) × (200 < 110 + 7200))
unfolding generate_hex bytes_to_hex hex_digit valid_client_address
authorized-dispatch_verify_example =
    authorized-dispatch_verify router_a session_opened verify_request later_request env_a client_a
      client_a token_a token_a 200 granted_is verified_sent opened_is refl refl refl (omega arith)
      refl refl refl refl

json_escape_string-Escaped_example :
    Escaped (codes "a\"\n") 16 (json_escape_string (codes "a\"\n") 16)
json_escape_string-Escaped_example = json_escape_string-Escaped (codes "a\"\n") 16

json_escape_filename-json_escape_string_example :
    json_escape_filename (codes "a\"b") 511 ≡ json_escape_string (codes "a\"b") 511
unfolding all
json_escape_filename-json_escape_string_example =
    json_escape_filename-json_escape_string (codes "a\"b") 511 refl

abbrev range_a : ContentRange
range_a = record { offset = 8388608; size = 100; total = 8388708 }

parse_content_range-Within_example : WithinOr (parse_content_range (codes "bytes 0-99/200"))
parse_content_range-Within_example = parse_content_range-Within (codes "bytes 0-99/200")

parse_content_range-text_example : parse_content_range (content_range_text range_a) ≡ some range_a
parse_content_range-text_example =
    parse_content_range-text range_a
      (record { not_empty = omega arith; inside = omega arith; total_in = omega arith })

-- A chunk of a stream without an upload is refused; one of an upload that was prepared begins.
abbrev chunk_request : Request
chunk_request = record verify_request {
  method = codes "PUT";
  path = codes "/api/v1/uploads/" ++ replicate 32 b'0';
  body = [];
  content_type = some (codes "application/octet-stream");
  content_range = some (codes "bytes 0-2/3");
}

abbrev open_router : Router
open_router = record router_a {
  auth_mode = auth_none;
  uploads = record uploads_a {
    slot = record empty_slot {
      occupied = true;
      fd_open = true;
      expected_size = 3;
      last_activity = 105;
      upload_id = replicate 32 b'0';
      client = client_a;
      authorization = codes "NoAuth";
      final_name = codes "a.txt";
      chunks = empty_chunk ∷ [];
    };
  };
}

chunk_begins :
    has_begun (router_upload_stream_begin_ex open_router chunk_request (some 3) env_a true) ≡ true
unfolding has_begun router_upload_stream_begin_ex begin_found upload_id_from_path starts_with all
    equal same_origin valid_host begin_authorized authorized_in begin_body begin_chunk
    parse_content_range parse_range_end parse_range_number range_number_of read_digits expect
    range_of chunk_replied upload_chunk_begin reap chunk_begin_locked begin_index take_chunk
    binding_matches chunk_length_for chunk_count_for request_authorization
chunk_begins = refl

router_upload_stream_begin_ex-Admitted_example :
    Admitted open_router chunk_request env_a
      (router_upload_stream_begin_ex open_router chunk_request (some 3) env_a true)
    × Measured chunk_request
        (some 3)
        (router_upload_stream_begin_ex open_router chunk_request (some 3) env_a true)
router_upload_stream_begin_ex-Admitted_example =
    router_upload_stream_begin_ex-Admitted open_router chunk_request (some 3) env_a true

abbrev storage_request : Request
storage_request = record verify_request {
  path = codes "/api/v1/storage";
  body = codes "{\"target\":\"usb\"}";
}

abbrev agreeing_router : Router
agreeing_router = record router_a {
  auth_mode = auth_none;
  uploads = record uploads_a { destination = default_config.destination };
}

dispatch_storage-Agrees_example :
    Agrees (settled (dispatch_storage agreeing_router storage_request env_a))
dispatch_storage-Agrees_example =
    dispatch_storage-Agrees agreeing_router storage_request env_a (refl, omega arith) refl refl

abbrev init_env : InitEnv
init_env = record {
  mutex_ready = true;
  path_fits = true;
  auth_allocated = true;
  auth_mutex_ready = true;
  uploads = record {
    allocated = true;
    directory_made = true;
    mutex_ready = true;
    condition_ready = true;
    buffer_allocated = true;
    thread_started = true;
  };
}

abbrev new_router_a : Router
new_router_a = record {
  config = default_config;
  auth_mode = auth_pin;
  fast_upload_port = 0;
  auth = record {
    pin_ttl_seconds = 120;
    session_ttl_seconds = 900;
    challenges = replicate 8 cleared_challenge;
    sessions = replicate 4 cleared_session;
  };
  uploads = record uploads_a {
    destination = default_config.destination;
    max_file_bytes = 21474836480;
    max_files = 100;
  };
}

new_router_is : router_init default_config init_env ≡ some new_router_a
unfolding router_init with_managers auth_manager_create upload_manager_create
new_router_is = refl

router_init-Ready_example : Ready default_config new_router_a
router_init-Ready_example = router_init-Ready default_config init_env new_router_a new_router_is
