-- ===== src/Router/Uploads.antt =====
-- src/router.c: the requests that prepare, delete and complete an upload.
use ps5_localsend.Base.{
  ℕ, Bool, not, Option, none, some, ◌++◌, ltb, leb, ◌==◌, if◌then◌else◌, Bytes, codes, equal,
  length,
}
use ps5_localsend.Router.Json.{json_escape_string}
use ps5_localsend.Router.Numbers.{print_u64}
use ps5_localsend.Router.State.{
  storage_size, json_response, set_json_error, unable_to_respond, only, only_post, no_body,
  origin_forbidden, unauthorized, not_json, set_upload_error, set_upload_completed_response,
  is_same_origin, authorized, request_authorization, with_uploads, Router, Request, UploadMetrics,
  Env, Reply, answered, completes, unending,
}
use ps5_localsend.Router.Text.{is_json_content_type}
use ps5_localsend.Upload.Metadata.{parse_metadata, Read, reading, read}
use ps5_localsend.Upload.Ops.{
  Replied, upload_prepare, upload_finish_chunks_begin, finish_chunks_publish, upload_cancel,
  PublishEnv,
}
use ps5_localsend.Upload.State.{UploadResult, Slot, UploadManager}

abbrev pub max_metadata_bytes : ℕ
max_metadata_bytes = 1024

-- The text for a prepared upload; the sizes are the constants of the upload component.
abbrev pub prepared_text : Slot → Bytes → ℕ → Bytes
prepared_text s name port =
    codes "{\"uploadId\":\""
    ++ (s.upload_id
        ++ (codes "\",\"name\":\""
            ++ (name
                ++ (codes "\",\"size\":"
                    ++ (print_u64 s.expected_size
                        ++ (codes
                              ",\"chunkSize\":8388608,\"chunkParallelism\":6,\"fastUploadPort\":"
                            ++ (print_u64 port ++ codes ",\"fastUploadMode\":\"direct\"}\n")))))))

abbrev pub cancelled : Router → Request → Env → UploadManager → Bytes → Router
cancelled r q env m id =
    with_uploads r
      (upload_cancel m (some id) q.client_address (request_authorization r q) env.removable
        env.now).1

-- The name did not fit, or the text: the upload is given up again.
unfoldable pub prepared_reply : Router → Request → Env → UploadManager → Option Bytes → Reply
prepared_reply r q env m none = answered unable_to_respond (cancelled r q env m m.slot.upload_id)
prepared_reply r q env m (some name) =
    let text = prepared_text m.slot name r.fast_upload_port in
    if leb storage_size (length text)
    then answered unable_to_respond (cancelled r q env m m.slot.upload_id)
    else answered (json_response 201 text) (with_uploads r m)

unfoldable pub prepare_reply : Router → Request → Env → Replied → Reply
prepare_reply r q env (UploadResult.ok, m) =
    prepared_reply r q env m (json_escape_string m.slot.final_name storage_size)
prepare_reply r q env (result, m) = answered (set_upload_error result env) (with_uploads r m)

-- `upload_prepare`, whose checks of the arguments come before and after the body is read.
unfoldable pub prepare_read : Router → Request → Env → Read → Reply
prepare_read r q env reading = unending
prepare_read r q env (read meta) =
    prepare_reply r q env (
      upload_prepare r.uploads q.client_address (request_authorization r q) meta env.prepare
        env.now)

unfoldable pub prepare_authorized : Bool × Router → Request → Env → Reply
prepare_authorized (accepted, r) q env =
    if not accepted
    then answered unauthorized r
    else if ltb max_metadata_bytes (length q.body)
    then answered
        (set_json_error 413 (codes "body_too_large") (codes "Upload metadata is too large")) r
    else if not (is_json_content_type q.content_type)
    then answered not_json r
    else prepare_read r q env (parse_metadata q.body)

unfoldable pub dispatch_upload_prepare : Router → Request → Env → Reply
dispatch_upload_prepare r q env =
    if not (equal q.method (codes "POST"))
    then answered only_post r
    else if not (is_same_origin q)
    then answered origin_forbidden r
    else prepare_authorized (authorized r q env.now) q env

unfoldable pub delete_reply : Router → Env → Replied → Reply
delete_reply r env (UploadResult.ok, m) =
    answered (json_response 200 (codes "{\"cancelled\":true}\n")) (with_uploads r m)
delete_reply r env (result, m) = answered (set_upload_error result env) (with_uploads r m)

unfoldable pub delete_authorized : Bool × Router → Request → Env → Bytes → Reply
delete_authorized (accepted, r) q env id =
    if not accepted
    then answered unauthorized r
    else delete_reply r env (
        upload_cancel r.uploads (some id) q.client_address (request_authorization r q) env.removable
          env.now)

unfoldable pub dispatch_upload_delete : Router → Request → Env → Bytes → Reply
dispatch_upload_delete r q env id =
    if not (equal q.method (codes "DELETE"))
    then answered
        (only (codes "Only PUT and DELETE are allowed for this resource") (codes "PUT, DELETE")) r
    else if not (length q.body == 0)
    then answered no_body r
    else if not (is_same_origin q)
    then answered origin_forbidden r
    else delete_authorized (authorized r q env.now) q env id

-- Up to the wait for the writer.
unfoldable pub complete_reply : Router → Env → Bytes → Option UploadResult × UploadManager → Reply
complete_reply r env id (none, m) = completes id (with_uploads r m)
complete_reply r env id (some result, m) = answered (set_upload_error result env) (with_uploads r m)

unfoldable pub complete_authorized : Bool × Router → Request → Env → Bytes → Reply
complete_authorized (accepted, r) q env id =
    if not accepted
    then answered unauthorized r
    else complete_reply r env id (
        upload_finish_chunks_begin r.uploads (some id) q.client_address (request_authorization r q)
          env.now)

unfoldable pub dispatch_upload_complete : Router → Request → Env → Bytes → Reply
dispatch_upload_complete r q env id =
    if not (equal q.method (codes "POST"))
    then answered only_post r
    else if not (length q.body == 0)
    then answered no_body r
    else if not (is_same_origin q)
    then answered origin_forbidden r
    else complete_authorized (authorized r q env.now) q env id

-- After the wait: the answer carries the hash and the times.
unfoldable pub completed_reply : Router → Env → Bytes → UploadMetrics → Replied → Reply
completed_reply r env digest metrics (UploadResult.ok, m) =
    answered (set_upload_completed_response digest metrics) (with_uploads r m)
completed_reply r env digest metrics (result, m) =
    answered (set_upload_error result env) (with_uploads r m)

unfoldable pub complete_end :
    (Bytes → Bytes) → Router → Env → Bytes → PublishEnv → UploadMetrics → Reply
complete_end digest r env id publish_env metrics =
    completed_reply r env (digest r.uploads.slot.part) metrics
      (finish_chunks_publish digest r.uploads id publish_env)
