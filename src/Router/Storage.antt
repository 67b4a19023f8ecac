-- ===== src/Router/Storage.antt =====
-- src/router.c: the change of the storage target.
use ps5_localsend.Base.{
  Bool, not, Option, none, some, ◌++◌, ltb, if◌then◌else◌, Bytes, codes, equal, length,
}
use ps5_localsend.Config.State.{config_storage_by_id, AppConfig}
use ps5_localsend.Router.Json.{parse_storage_target}
use ps5_localsend.Router.State.{
  set_json_error, printed, only_post, origin_forbidden, unauthorized, not_json, is_same_origin,
  authorized, with_uploads, Router, Request, Response, Env, Reply, answered,
}
use ps5_localsend.Router.Text.{is_json_content_type}
use ps5_localsend.Router.Uploads.{max_metadata_bytes}
use ps5_localsend.Upload.Admin.{upload_manager_set_destination}
use ps5_localsend.Upload.State.{UploadResult, UploadManager, busy, storage_full}

-- `storage_path_for_target`
unfoldable pub storage_path_for_target : AppConfig → Bytes → Option Bytes
storage_path_for_target config target = elim (config_storage_by_id config.storage_targets target) [
  | none ↦ none
  | some entry ↦ some entry.path
]

unfoldable pub set_storage_error : UploadResult → Response
set_storage_error busy =
    set_json_error 409 (codes "storage_busy")
      (codes "Finish or cancel the active upload before changing storage")
set_storage_error storage_full =
    set_json_error 507 (codes "storage_unavailable")
      (codes "The selected storage does not have enough space")
set_storage_error _ =
    set_json_error 503 (codes "storage_unavailable")
      (codes "The selected storage is not mounted or cannot be created")

abbrev pub storage_text : Bytes → Bytes → Bytes
storage_text target destination =
    codes "{\"target\":\"" ++ (target ++ (codes "\",\"path\":\"" ++ (destination ++ codes "\"}\n")))

-- The destination of the uploads is changed; the configuration follows if it can be saved.
unfoldable pub storage_changed : Router → Env → Bytes → Bytes → UploadResult × UploadManager → Reply
storage_changed r env target destination (UploadResult.ok, m) =
    if not env.saved
    then answered
        (set_json_error 500 (codes "storage_config_error")
          (codes "Unable to persist the storage setting"))
        (with_uploads r
          (upload_manager_set_destination m (some r.config.destination) env.now
            env.restore_error).1)
    else answered (printed 200 (storage_text target destination))
        (record r { config = record r.config { destination = destination }; uploads = m })
storage_changed r env target destination (result, m) =
    answered (set_storage_error result) (with_uploads r m)

unfoldable pub storage_found : Router → Env → Bytes → Option Bytes → Reply
storage_found r env target none =
    answered
      (set_json_error 400 (codes "invalid_storage") (codes "Unknown configured storage target")) r
storage_found r env target (some destination) =
    storage_changed r env target destination
      (upload_manager_set_destination r.uploads (some destination) env.now env.directory_error)

unfoldable pub storage_parsed : Router → Env → Option Bytes → Reply
storage_parsed r env none =
    answered
      (set_json_error 400 (codes "invalid_storage")
        (codes "Expected a configured storage target ID"))
      r
storage_parsed r env (some target) =
    storage_found r env target (storage_path_for_target r.config target)

unfoldable pub storage_authorized : Bool × Router → Request → Env → Reply
storage_authorized (accepted, r) q env =
    if not accepted
    then answered unauthorized r
    else if ltb max_metadata_bytes (length q.body)
    then answered
        (set_json_error 413 (codes "body_too_large") (codes "Storage settings are too large")) r
    else if not (is_json_content_type q.content_type)
    then answered not_json r
    else storage_parsed r env (parse_storage_target q.body)

unfoldable pub dispatch_storage : Router → Request → Env → Reply
dispatch_storage r q env =
    if not (equal q.method (codes "POST"))
    then answered only_post r
    else if not (is_same_origin q)
    then answered origin_forbidden r
    else storage_authorized (authorized r q env.now) q env
