-- ===== src/Router/State.antt =====
-- src/router.c, src/router.h: the router, requests, responses, and the answers that are shared.
use ps5_localsend.Auth.Ops.{auth_validate_bearer_at}
use ps5_localsend.Auth.State.{AuthResult, AuthManager}
use ps5_localsend.Base.{
  ℕ, Bool, true, false, Option, none, some, List, [], ◌++◌, ltb, leb, if◌then◌else◌, Bytes, codes,
  length,
}
use ps5_localsend.Config.State.{AuthMode, AppConfig, auth_pin, auth_none}
use ps5_localsend.Router.Numbers.{print_u64}
use ps5_localsend.Router.Text.{same_origin}
use ps5_localsend.Upload.Ops.{PrepareEnv}
use ps5_localsend.Upload.State.{
  UploadResult, UploadManager, not_found, forbidden, busy, too_large, storage_full, io_error,
  size_mismatch, hash_mismatch, limit_reached, backpressure,
}

pub record Router : Type 0 where
  pub config : AppConfig
  pub auth_mode : AuthMode
  pub fast_upload_port : ℕ
  pub auth : AuthManager
  pub uploads : UploadManager

-- A null pointer is `none`; a body is as long as `body_size` says.
pub record Request : Type 0 where
  pub method : Bytes
  pub path : Bytes
  pub body : Bytes
  pub client_address : Option Bytes
  pub host : Option Bytes
  pub origin : Option Bytes
  pub content_type : Option Bytes
  pub authorization : Option Bytes
  pub content_range : Option Bytes

pub record Response : Type 0 where
  pub status : ℕ
  pub content_type : Bytes
  pub cache_control : Bytes
  pub allow : Bytes
  pub body : Bytes

pub record UploadMetrics : Type 0 where
  pub preparation_ms : ℕ
  pub transfer_ms : ℕ
  pub write_ms : ℕ
  pub direct_io : Bool

-- What other code and the system answer during one request: the clock, `errno` and its text, random
-- bytes, `platform_notify`, the directory of a destination (and of the one that is restored), and
-- `config_save_file`.
pub record Env : Type 0 where
  pub now : ℕ
  pub error_number : ℕ
  pub strerror : ℕ → Option Bytes
  pub prepare : PrepareEnv
  pub removable : Bool
  pub id_bytes : Option Bytes
  pub pin_draws : List (Option ℕ)
  pub token_bytes : Option Bytes
  pub notified : Bool
  pub directory_error : ℕ
  pub restore_error : ℕ
  pub saved : Bool
  pub last_metrics : UploadMetrics

abbrev pub storage_size : ℕ
storage_size = 16384

abbrev pub json_type : Bytes
json_type = codes "application/json; charset=utf-8"

abbrev pub json_response : ℕ → Bytes → Response
json_response status body = record {
  status = status;
  content_type = json_type;
  cache_control = codes "no-store";
  allow = [];
  body = body;
}

abbrev pub error_text : Bytes → Bytes → Bytes
error_text code message =
    codes "{\"error\":{\"code\":\""
    ++ (code ++ (codes "\",\"message\":\"" ++ (message ++ codes "\"}}\n")))

-- `set_json_error` on a response that was reset.
unfoldable pub set_json_error : ℕ → Bytes → Bytes → Response
set_json_error status code message =
    let text = error_text code message in
    json_response status (if leb storage_size (length text) then [] else text)

abbrev pub unable_to_respond : Response
unable_to_respond = set_json_error 500 (codes "internal_error") (codes "Unable to create response")

-- A response with a printed text, if it fits.
unfoldable pub printed : ℕ → Bytes → Response
printed status text =
    if leb storage_size (length text) then unable_to_respond else json_response status text

-- `method_not_allowed`, with what is allowed.
abbrev pub only : Bytes → Bytes → Response
only message methods = record (set_json_error 405 (codes "method_not_allowed") message) {
  allow = methods;
}

abbrev pub only_post : Response
only_post = only (codes "Only POST is allowed for this resource") (codes "POST")

abbrev pub no_body : Response
no_body =
    set_json_error 413 (codes "body_too_large")
      (codes "This resource does not accept a request body")

abbrev pub origin_forbidden : Response
origin_forbidden =
    set_json_error 403 (codes "origin_forbidden") (codes "Origin and Host must match this server")

abbrev pub unauthorized : Response
unauthorized =
    set_json_error 401 (codes "unauthorized") (codes "A valid bearer session is required")

abbrev pub not_json : Response
not_json =
    set_json_error 415 (codes "unsupported_media_type")
      (codes "Content-Type must be application/json")

abbrev pub bad_stream : Response
bad_stream = set_json_error 400 (codes "bad_request") (codes "Malformed upload stream")

-- The text of a failed write, with the error number and its description.
abbrev pub errno_text : ℕ → Bytes → Bytes
errno_text error_number description =
    codes "Unable to write destination storage (errno "
    ++ (print_u64 error_number ++ (codes ": " ++ (description ++ codes ")")))

unfoldable pub storage_message : ℕ → Option Bytes → Bytes
storage_message error_number none = codes "Unable to write destination storage"
storage_message error_number (some description) =
    if leb 256 (length (errno_text error_number description))
    then codes "Unable to write destination storage"
    else errno_text error_number description

-- `set_upload_error`
unfoldable pub set_upload_error : UploadResult → Env → Response
set_upload_error UploadResult.ok env =
    set_json_error 500 (codes "internal_error") (codes "Upload failed")
set_upload_error UploadResult.invalid env =
    set_json_error 400 (codes "invalid_upload") (codes "Upload request is malformed")
set_upload_error not_found env =
    set_json_error 404 (codes "upload_not_found") (codes "Upload does not exist")
set_upload_error forbidden env =
    set_json_error 403 (codes "upload_forbidden") (codes "Upload belongs to another session")
set_upload_error busy env =
    set_json_error 409 (codes "upload_busy") (codes "Another upload is active")
set_upload_error too_large env =
    set_json_error 413 (codes "file_too_large") (codes "File exceeds the configured limit")
set_upload_error storage_full env =
    set_json_error 507 (codes "insufficient_storage")
      (codes "Destination does not have enough space")
set_upload_error size_mismatch env =
    set_json_error 400 (codes "size_mismatch")
      (codes "Content-Length or received size does not match metadata")
set_upload_error hash_mismatch env =
    set_json_error 422 (codes "hash_mismatch") (codes "SHA-256 does not match metadata")
set_upload_error limit_reached env =
    set_json_error 429 (codes "file_limit_reached") (codes "Session file limit reached")
set_upload_error backpressure env =
    set_json_error 429 (codes "upload_backpressure")
      (codes "Upload staging window is full; retry this chunk")
set_upload_error io_error env = set_json_error 500 (codes "storage_error") (
    storage_message env.error_number
      (if ltb 0 env.error_number then env.strerror env.error_number else none))

abbrev pub json_bool : Bool → Bytes
json_bool value = if value then codes "true" else codes "false"

abbrev pub timing_text : UploadMetrics → Bytes
timing_text metrics =
    codes "\"timing\":{\"preparationMs\":"
    ++ (print_u64 metrics.preparation_ms
        ++ (codes ",\"transferMs\":"
            ++ (print_u64 metrics.transfer_ms
                ++ (codes ",\"writeMs\":"
                    ++ (print_u64 metrics.write_ms
                        ++ (codes ",\"directIO\":"
                            ++ (json_bool metrics.direct_io ++ codes "}}")))))))

unfoldable pub set_upload_completed_response : Bytes → UploadMetrics → Response
set_upload_completed_response digest metrics = printed 201 (
    codes "{\"completed\":true,\"sha256\":\""
    ++ (digest ++ (codes "\"," ++ (timing_text metrics ++ codes "\n"))))

abbrev pub is_same_origin : Request → Bool
is_same_origin q = same_origin q.host q.origin

abbrev pub is_ok : AuthResult → Bool
is_ok result = elim result [ AuthResult.ok ↦ true | _ ↦ false ]

unfoldable pub authorized_in : AuthMode → Router → Request → ℕ → Bool × Router
authorized_in auth_none r q now = (true, r)
authorized_in auth_pin r q now =
    let a = auth_validate_bearer_at r.auth q.client_address q.authorization now in
    (is_ok a.0, record r { auth = a.1 })

-- `authorized`, and the router, whose expired slots of the session manager are cleared.
abbrev pub authorized : Router → Request → ℕ → Bool × Router
authorized r q now = authorized_in r.auth_mode r q now

unfoldable pub request_authorization : Router → Request → Option Bytes
request_authorization r q = elim r.auth_mode [
  | auth_none ↦ some (codes "NoAuth")
  | auth_pin ↦ q.authorization
]

-- A request is answered; or it waits, with the upload that it completes, until the writer is done;
-- or it never ends.
pub data Reply : Type 0 where
  answered : Response → Router → Reply
  completes : Bytes → Router → Reply
  unending : Reply

abbrev pub with_uploads : Router → UploadManager → Router
with_uploads r m = record r { uploads = m }

-- The string that a pointer points to.
abbrev pub text_of : Option Bytes → Bytes
text_of none = []
text_of (some text) = text
