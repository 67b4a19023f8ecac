-- ===== src/Router/Dispatch.antt =====
-- src/router.c: the status page and `router_dispatch`. The assets are files that the build embeds:
-- `assets_find` is a parameter.
use ps5_localsend.Base.{
  ℕ, ◌+◌, ◌-◌, ◌*◌, Bool, true, false, not, ◌||◌, Option, none, some, List, [], ◌∷◌, ◌++◌, ltb, leb,
  ◌==◌, if◌then◌else◌, Bytes, codes, equal, length,
}
use ps5_localsend.Config.State.{
  config_storage_by_path, StorageTarget, AuthMode, Language, AppConfig, auth_pin, auth_none,
  language_en, language_ru,
}
use ps5_localsend.Router.Json.{json_escape_filename}
use ps5_localsend.Router.Numbers.{print_u64}
use ps5_localsend.Router.Sessions.{dispatch_challenge, dispatch_verify}
use ps5_localsend.Router.State.{
  set_json_error, printed, only, no_body, json_bool, timing_text, with_uploads, Router, Request,
  Response, UploadMetrics, Env, Reply, answered,
}
use ps5_localsend.Router.Storage.{dispatch_storage}
use ps5_localsend.Router.Text.{upload_id_from_path, upload_complete_from_path}
use ps5_localsend.Router.Uploads.{
  dispatch_upload_prepare, dispatch_upload_delete, dispatch_upload_complete,
}
use ps5_localsend.SafePath.Names.{name_bytes}
use ps5_localsend.Upload.Admin.{upload_snapshot, Snapshot}

pub record Asset : Type 0 where
  pub content_type : Bytes
  pub content : Bytes

abbrev pub targets_size : ℕ
targets_size = 12288

abbrev pub target_text : Bool → StorageTarget → Bytes
target_text first t =
    (if first then [] else codes ",")
    ++ (codes "{\"id\":\""
        ++ (t.id
            ++ (codes "\",\"label\":\""
                ++ (t.label ++ (codes "\",\"path\":\"" ++ (t.path ++ codes "\"}"))))))

-- The loop over the targets behind `text`.
unfoldable pub print_targets : Bytes → Bool → List StorageTarget → Option Bytes
print_targets text first [] =
    if ltb targets_size (length text + 2) then none else some (text ++ codes "]")
print_targets text first (t ∷ ts) =
    let rest = print_targets (text ++ target_text first t) false ts in
    if leb (targets_size - length text) (length (target_text first t)) then none else rest

-- `storage_target_for_path`
unfoldable pub first_target : List StorageTarget → Bytes
first_target [] = codes "internal"
first_target (t ∷ ts) = t.id

unfoldable pub storage_target_for_path : AppConfig → Bytes → Bytes
storage_target_for_path config path = elim (config_storage_by_path config.storage_targets path) [
  | none ↦ first_target config.storage_targets
  | some entry ↦ entry.id
]

-- `lastUpload`
unfoldable pub last_upload_text : Option ℕ → UploadMetrics → Bytes
last_upload_text none metrics = codes "null"
last_upload_text (some bytes) metrics =
    codes "{\"bytes\":" ++ (print_u64 bytes ++ (codes "," ++ timing_text metrics))

abbrev pub transfer_state : Snapshot → Bytes
transfer_state s =
    if not s.active
    then codes "idle"
    else if not s.started
    then codes "preparing"
    else codes "receiving"

abbrev pub auth_mode_name : AuthMode → Bytes
auth_mode_name mode = elim mode [ auth_none ↦ codes "none" | auth_pin ↦ codes "pin" ]

abbrev pub language_name : Language → Bytes
language_name language = elim language [ language_ru ↦ codes "ru" | language_en ↦ codes "en" ]

-- The transfer and the limits.
abbrev pub limits_text : AppConfig → Snapshot → Bytes → Bytes
limits_text config s name =
    codes "\"limits\":{\"maxFileBytes\":"
    ++ (print_u64 config.max_file_bytes
        ++ (codes ",\"maxFilesPerSession\":"
            ++ (print_u64 config.max_files_per_session
                ++ (codes "},\"transfer\":{\"state\":\""
                    ++ (transfer_state s
                        ++ (codes "\",\"active\":"
                            ++ (json_bool s.active
                                ++ (codes ",\"name\":\""
                                    ++ (name
                                        ++ (codes "\",\"receivedBytes\":"
                                            ++ (print_u64 s.received
                                                ++ (codes ",\"expectedBytes\":"
                                                    ++ (print_u64 s.expected
                                                        ++ codes "},")))))))))))))

abbrev pub storage_part : AppConfig → ℕ → Bytes → Bytes → Bytes
storage_part config port targets last_upload =
    codes "\"capabilities\":{\"chunkUpload\":true,\"chunkSize\":8388608,\"chunkParallelism\":6,"
    ++ (codes "\"fastUploadPort\":"
        ++ (print_u64 port
            ++ (codes ",\"fastUploadMode\":\"direct\"},\"storage\":{\"target\":\""
                ++ (storage_target_for_path config config.destination
                    ++ (codes "\",\"path\":\""
                        ++ (config.destination
                            ++ (codes "\",\"targets\":"
                                ++ (targets
                                    ++ (codes "},\"lastUpload\":"
                                        ++ (last_upload ++ codes "}\n"))))))))))

abbrev pub status_text : AppConfig → ℕ → Snapshot → Bytes → Bytes → Bytes → Bytes
status_text config port s name targets last_upload =
    codes "{\"version\":\"1.0\",\"authMode\":\""
    ++ (auth_mode_name config.auth_mode
        ++ (codes "\",\"language\":\""
            ++ (language_name config.language
                ++ (codes "\",\"ready\":true,"
                    ++ (limits_text config s name
                        ++ storage_part config port targets last_upload)))))

unfoldable pub status_response : Router → Env → Bytes → Snapshot → Option Bytes → Response
status_response r env targets s none =
    set_json_error 500 (codes "internal_error") (codes "Unable to read transfer status")
status_response r env targets s (some name) =
    let last_upload = last_upload_text s.last_completed_size env.last_metrics in
    if leb 256 (length last_upload)
    then set_json_error 500 (codes "internal_error") (codes "Unable to create transfer diagnostics")
    else printed 200 (status_text r.config r.fast_upload_port s name targets last_upload)

abbrev pub escaped_name_size : ℕ
escaped_name_size = name_bytes * 2 + 1

unfoldable pub status_reply : Router → Env → Option Bytes → Reply
status_reply r env none =
    answered
      (set_json_error 500 (codes "internal_error") (codes "Configured storage list is too large")) r
status_reply r env (some targets) =
    let (s, m) = upload_snapshot r.uploads env.now in
    answered (status_response r env targets s (json_escape_filename s.name escaped_name_size))
      (with_uploads r m)

abbrev pub only_get : Response
only_get = only (codes "Only GET is allowed for this resource") (codes "GET")

abbrev pub asset_cache : Bytes → Bytes
asset_cache path =
    if equal path (codes "/")
    then codes "no-cache"
    else if equal path (codes "/assets/app.css") || equal path (codes "/assets/app.js")
    then codes "no-store"
    else codes "public, max-age=3600"

abbrev pub asset_response : Bytes → Asset → Response
asset_response path asset = record {
  status = 200;
  content_type = asset.content_type;
  cache_control = asset_cache path;
  allow = [];
  body = asset.content;
}

-- The tests that an asset and the status page share, before `reply`.
abbrev pub only_get_without_body : Router → Request → Reply → Reply
only_get_without_body r q reply =
    if not (equal q.method (codes "GET"))
    then answered only_get r
    else if not (length q.body == 0)
    then answered no_body r
    else reply

unfoldable pub dispatch_page : Router → Request → Env → Option Asset → Reply
dispatch_page r q env (some asset) =
    only_get_without_body r q (answered (asset_response q.path asset) r)
dispatch_page r q env none =
    if equal q.path (codes "/api/v1/status")
    then only_get_without_body r q
        (status_reply r env (print_targets (codes "[") true r.config.storage_targets))
    else answered (set_json_error 404 (codes "not_found") (codes "Resource not found")) r

-- A path that names an upload, or else a page.
unfoldable pub dispatch_upload_id :
    (Bytes → Option Asset) → Router → Request → Env → Option Bytes → Reply
dispatch_upload_id assets_find r q env none = dispatch_page r q env (assets_find q.path)
dispatch_upload_id assets_find r q env (some id) =
    if equal q.method (codes "PUT")
    then answered
        (set_json_error 400 (codes "stream_required")
          (codes "PUT must use the streaming transport"))
        r
    else dispatch_upload_delete r q env id

unfoldable pub dispatch_upload_path :
    (Bytes → Option Asset) → Router → Request → Env → Option Bytes → Reply
dispatch_upload_path assets_find r q env (some id) = dispatch_upload_complete r q env id
dispatch_upload_path assets_find r q env none =
    dispatch_upload_id assets_find r q env (upload_id_from_path q.path)

-- Of a router with both managers, and a request with a method and a path.
unfoldable pub router_dispatch : (Bytes → Option Asset) → Router → Request → Env → Reply
router_dispatch assets_find r q env =
    if ltb 16 (length q.method) || ltb 2048 (length q.path)
    then answered (set_json_error 400 (codes "bad_request") (codes "Malformed request")) r
    else if equal q.path (codes "/api/v1/auth/challenge")
    then dispatch_challenge r q env
    else if equal q.path (codes "/api/v1/auth/verify")
    then dispatch_verify r q env
    else if equal q.path (codes "/api/v1/uploads")
    then dispatch_upload_prepare r q env
    else if equal q.path (codes "/api/v1/storage")
    then dispatch_storage r q env
    else dispatch_upload_path assets_find r q env (upload_complete_from_path q.path)
