-- ===== src/Router/Streams.antt =====
-- src/router.c: the uploads that are streamed to the server.
use ps5_localsend.Base.{
  ℕ, Bool, false, not, Option, none, some, [], ◌∷◌, ◌++◌, ◌==◌, if◌then◌else◌, Bytes, codes, equal,
}
use ps5_localsend.Router.Numbers.{print_u64}
use ps5_localsend.Router.Range.{parse_content_range, ContentRange}
use ps5_localsend.Router.State.{
  set_json_error, printed, origin_forbidden, unauthorized, bad_stream, set_upload_error,
  set_upload_completed_response, is_same_origin, authorized, request_authorization, with_uploads,
  Router, Request, Response, UploadMetrics, Env,
}
use ps5_localsend.Router.Text.{upload_id_from_path}
use ps5_localsend.Router.Uploads.{cancelled}
use ps5_localsend.Upload.Chunks.{
  upload_chunk_begin, upload_chunk_write, upload_chunk_finish, upload_chunk_abort,
}
use ps5_localsend.Upload.Ops.{upload_begin, upload_abort}
use ps5_localsend.Upload.State.{UploadResult, UploadManager, size_mismatch}
use ps5_localsend.Upload.Stream.{upload_enable_direct_stream}

-- The caller's error response, or an upload that takes its bytes in one stream or in a chunk.
pub data Begun : Type 0 where
  refused : Response → Router → Begun
  stream_begun : Bytes → Router → Begun
  chunk_begun : Bytes → ContentRange → Router → Begun

unfoldable pub chunk_replied :
    Router → Env → Bytes → ContentRange → UploadResult × UploadManager → Begun
chunk_replied r env id range (UploadResult.ok, m) = chunk_begun id range (with_uploads r m)
chunk_replied r env id range (result, m) = refused (set_upload_error result env) (with_uploads r m)

-- Without a `Content-Length` the range says how long the chunk is.
abbrev pub content_length_or : Option ℕ → ℕ → ℕ
content_length_or none range_length = range_length
content_length_or (some content_length) range_length = content_length

unfoldable pub begin_chunk :
    Router → Request → Option ℕ → Env → Bytes → Bool → Option ContentRange → Begun
begin_chunk r q content_length env id allocated none =
    refused
      (set_json_error 400 (codes "invalid_range")
        (codes "Content-Range must be bytes start-end/total"))
      r
begin_chunk r q content_length env id allocated (some range) =
    if not (content_length_or content_length range.size == range.size)
    then refused
        (set_json_error 400 (codes "size_mismatch")
          (codes "Content-Length does not match Content-Range"))
        r
    else chunk_replied r env id range (
        upload_chunk_begin r.uploads (some id) q.client_address (request_authorization r q)
          range.total range.offset range.size env.now allocated)

-- A size that differs from the announced one ends the upload.
unfoldable pub stream_replied :
    Router → Request → Env → Bytes → UploadResult × UploadManager → Begun
stream_replied r q env id (UploadResult.ok, m) = stream_begun id (with_uploads r m)
stream_replied r q env id (size_mismatch, m) =
    refused (set_upload_error size_mismatch env) (cancelled r q env m id)
stream_replied r q env id (result, m) = refused (set_upload_error result env) (with_uploads r m)

unfoldable pub begin_stream : Router → Request → Option ℕ → Env → Bytes → Begun
begin_stream r q none env id =
    refused (set_json_error 411 (codes "length_required") (codes "Content-Length is required"))
      (cancelled r q env r.uploads id)
begin_stream r q (some content_length) env id = stream_replied r q env id (
    upload_begin r.uploads (some id) q.client_address (request_authorization r q) content_length
      env.now)

-- `none` or an empty `Content-Range` is a stream.
unfoldable pub begin_body : Router → Request → Option ℕ → Env → Bytes → Bool → Option Bytes → Begun
begin_body r q content_length env id allocated none = begin_stream r q content_length env id
begin_body r q content_length env id allocated (some []) = begin_stream r q content_length env id
begin_body r q content_length env id allocated (some (c ∷ cs)) =
    begin_chunk r q content_length env id allocated (parse_content_range (c ∷ cs))

abbrev pub is_octet_stream : Option Bytes → Bool
is_octet_stream none = false
is_octet_stream (some content_type) = equal content_type (codes "application/octet-stream")

unfoldable pub begin_authorized : Bool × Router → Request → Option ℕ → Env → Bytes → Bool → Begun
begin_authorized (accepted, r) q content_length env id allocated =
    if not accepted
    then refused unauthorized r
    else if not (is_octet_stream q.content_type)
    then refused
        (set_json_error 415 (codes "unsupported_media_type")
          (codes "Content-Type must be application/octet-stream"))
        r
    else begin_body r q content_length env id allocated q.content_range

abbrev pub no_upload : Response
no_upload = set_json_error 404 (codes "upload_not_found") (codes "Upload does not exist")

unfoldable pub begin_found :
    Router → Request → Option ℕ → Env → Bool → Option Bytes → Option Bytes → Begun
begin_found r q content_length env allocated (some client) (some id) =
    if not (equal q.method (codes "PUT"))
    then refused no_upload r
    else if not (is_same_origin q)
    then refused origin_forbidden r
    else begin_authorized (authorized r q env.now) q content_length env id allocated
begin_found r q content_length env allocated _ _ = refused no_upload r

-- `router_upload_stream_begin_ex`; `allocated` says whether the buffer of a chunk can be had.
unfoldable pub router_upload_stream_begin_ex : Router → Request → Option ℕ → Env → Bool → Begun
router_upload_stream_begin_ex r q content_length env allocated =
    begin_found r q content_length env allocated q.client_address (upload_id_from_path q.path)

-- The end of the calls that pass bytes on: an error gives the upload up, once no direct write is
-- under way.
unfoldable pub stream_result :
    Router → Env → Bytes → UploadResult × UploadManager → Option Response × Router
stream_result r env id (UploadResult.ok, m) = (none, with_uploads r m)
stream_result r env id (result, m) =
    (some (set_upload_error result env), with_uploads r (upload_abort m (some id)))

unfoldable pub router_upload_stream_enable_direct :
    Router → Env → Option Bytes → Option Response × Router
router_upload_stream_enable_direct r env none = (some bad_stream, r)
router_upload_stream_enable_direct r env (some id) =
    stream_result r env id (upload_enable_direct_stream r.uploads (some id))

-- `router_upload_stream_write` and `router_upload_stream_write_direct`, with what the write
-- returned after its steps.
unfoldable pub router_upload_stream_write :
    Router → Env → Option Bytes → UploadResult × UploadManager → Option Response × Router
router_upload_stream_write r env none written = (some bad_stream, r)
router_upload_stream_write r env (some id) written = stream_result r env id written

-- `none` is a null pointer; for the data, one with a size that is not 0.
unfoldable pub router_upload_stream_write_chunk :
    Router → Env → Option Bytes → ℕ → Option Bytes → Option Response × Router
router_upload_stream_write_chunk r env (some id) offset (some bytes) =
    stream_result r env id (upload_chunk_write r.uploads (some id) offset (some bytes) env.now)
router_upload_stream_write_chunk r env _ offset _ = (some bad_stream, r)

-- `router_upload_stream_finish`, with what `upload_finish_with_metrics` returned.
unfoldable pub router_upload_stream_finish :
    Router → Env → Bytes → UploadMetrics → UploadResult × UploadManager → Response × Router
router_upload_stream_finish r env digest metrics (UploadResult.ok, m) =
    (set_upload_completed_response digest metrics, with_uploads r m)
router_upload_stream_finish r env digest metrics (result, m) =
    (set_upload_error result env, with_uploads r m)

abbrev pub chunk_text : ℕ → ℕ → Bytes
chunk_text offset size =
    codes "{\"chunk\":true,\"offset\":"
    ++ (print_u64 offset ++ (codes ",\"size\":" ++ (print_u64 size ++ codes "}\n")))

unfoldable pub chunk_finished :
    Router → Env → ℕ → ℕ → UploadResult × UploadManager → Response × Router
chunk_finished r env offset size (UploadResult.ok, m) =
    (printed 201 (chunk_text offset size), with_uploads r m)
chunk_finished r env offset size (result, m) = (set_upload_error result env, with_uploads r m)

unfoldable pub router_upload_stream_finish_chunk :
    Router → Env → Option Bytes → ℕ → ℕ → Response × Router
router_upload_stream_finish_chunk r env none offset size = (bad_stream, r)
router_upload_stream_finish_chunk r env (some id) offset size =
    chunk_finished r env offset size (upload_chunk_finish r.uploads (some id) offset size env.now)

unfoldable pub router_upload_stream_abort_chunk : Router → Env → Option Bytes → ℕ → Router
router_upload_stream_abort_chunk r env id offset =
    with_uploads r (upload_chunk_abort r.uploads id offset env.now)

unfoldable pub router_upload_stream_abort : Router → Option Bytes → Router
router_upload_stream_abort r id = with_uploads r (upload_abort r.uploads id)
