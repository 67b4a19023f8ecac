-- ===== src/Router/Access.antt =====
-- src/router.c: what a request without a session changes.
use ps5_localsend.Auth.Json.{auth_parse_verify_json, Parsed, running, parsed}
use ps5_localsend.Auth.Ops.{Created, auth_create_challenge_at}
use ps5_localsend.Base.{
  ℕ, ◌≡◌, refl, ◌⊎◌, inl, inr, true, false, Option, none, some, arith, Bytes, codes,
}
use ps5_localsend.Config.State.{AuthMode, AppConfig, auth_pin, auth_none}
use ps5_localsend.Router.Dispatch.{
  print_targets, status_reply, dispatch_page, dispatch_upload_id, dispatch_upload_path,
  router_dispatch, Asset,
}
use ps5_localsend.Router.Sessions.{
  challenge_reply, dispatch_challenge, verify_body_read, dispatch_verify,
}
use ps5_localsend.Router.State.{
  unauthorized, authorized_in, authorized, Router, Request, Env, Reply, answered, completes,
  unending,
}
use ps5_localsend.Router.Storage.{storage_authorized, dispatch_storage}
use ps5_localsend.Router.Text.{upload_id_from_path, upload_complete_from_path}
use ps5_localsend.Router.Uploads.{
  prepare_authorized, dispatch_upload_prepare, delete_authorized, dispatch_upload_delete,
  complete_authorized, dispatch_upload_complete,
}
use ps5_localsend.Upload.Admin.{upload_snapshot}
use ps5_localsend.Upload.State.{reap, UploadManager}

-- The configuration and the uploads after a request that was answered.
unfoldable pub held : Reply → Option (AppConfig × UploadManager)
held (answered response r) = some (r.config, r.uploads)
held (completes id r) = none
held unending = none

-- Both are as they were, except for an upload whose lease is over; or there is no answer.
abbrev pub Spared : Router → ℕ → Reply → Type 0
Spared r now reply =
    (held reply ≡ some (r.config, r.uploads))
    ⊎ ((held reply ≡ some (r.config, reap r.uploads now)) ⊎ (reply ≡ unending))

-- `authorized` clears expired slots of the sessions and nothing else.
authorized_parts :
    (mode : AuthMode) (r : Router) (q : Request) (now : ℕ)
    → held (answered unauthorized (authorized_in mode r q now).1) ≡ some (r.config, r.uploads)
unfolding authorized_in held
authorized_parts auth_none r q now = refl
authorized_parts auth_pin r q now = refl

held-challenge_reply :
    (r : Router) (q : Request) (env : Env) (o : Option Created)
    → Spared r env.now (challenge_reply r q env o)
unfolding challenge_reply held
held-challenge_reply r q env none = inr (inr refl)
held-challenge_reply r q env (some created) = inl refl

held-verify_body_read :
    (r : Router) (q : Request) (env : Env) (p : Parsed)
    → Spared r env.now (verify_body_read r q env p)
unfolding verify_body_read held
held-verify_body_read r q env running = inr (inr refl)
held-verify_body_read r q env (parsed none) = inl refl
held-verify_body_read r q env (parsed (some (id, pin))) = inl refl

held-challenge :
    (r : Router) (q : Request) (env : Env) → Spared r env.now (dispatch_challenge r q env)
unfolding dispatch_challenge held
held-challenge r q env = ground (
  arith,
  held-challenge_reply r q env
      (auth_create_challenge_at r.auth q.client_address env.now env.id_bytes env.pin_draws),
)

held-verify : (r : Router) (q : Request) (env : Env) → Spared r env.now (dispatch_verify r q env)
unfolding dispatch_verify held
held-verify r q env = ground (arith, held-verify_body_read r q env (auth_parse_verify_json q.body))

-- Each other handler asks `authorized` before it does anything.
module _ (r : Router) (q : Request) (env : Env) (h : (authorized r q env.now).0 ≡ false) where
  held-prepare : held (dispatch_upload_prepare r q env) ≡ some (r.config, r.uploads)
  unfolding dispatch_upload_prepare prepare_authorized held
  held-prepare = ground (arith, authorized_parts r.auth_mode r q env.now)

  held-storage : held (dispatch_storage r q env) ≡ some (r.config, r.uploads)
  unfolding dispatch_storage storage_authorized held
  held-storage = ground (arith, authorized_parts r.auth_mode r q env.now)

  held-dispatch_upload_complete :
      (id : Bytes) → held (dispatch_upload_complete r q env id) ≡ some (r.config, r.uploads)
  unfolding dispatch_upload_complete complete_authorized held
  held-dispatch_upload_complete id = ground (arith, authorized_parts r.auth_mode r q env.now)

  held-delete : (id : Bytes) → held (dispatch_upload_delete r q env id) ≡ some (r.config, r.uploads)
  unfolding dispatch_upload_delete delete_authorized held
  held-delete id = ground (arith, authorized_parts r.auth_mode r q env.now)

held-status :
    (r : Router) (env : Env) (targets : Option Bytes)
    → Spared r env.now (status_reply r env targets)
unfolding status_reply upload_snapshot held
held-status r env none = inl refl
held-status r env (some targets) = inr (inl refl)

held-page :
    (r : Router) (q : Request) (env : Env) (asset : Option Asset)
    → Spared r env.now (dispatch_page r q env asset)
unfolding dispatch_page held
held-page r q env (some asset) = ground arith
held-page r q env none =
    ground (arith, held-status r env (print_targets (codes "[") true r.config.storage_targets))

held-upload_id :
    (assets_find : Bytes → Option Asset) (r : Router) (q : Request) (env : Env) (id : Option Bytes)
    → (authorized r q env.now).0 ≡ false
    → Spared r env.now (dispatch_upload_id assets_find r q env id)
unfolding dispatch_upload_id held
held-upload_id assets_find r q env none h = held-page r q env (assets_find q.path)
held-upload_id assets_find r q env (some id) h = ground (arith, held-delete r q env h id)

held-upload_path :
    (assets_find : Bytes → Option Asset) (r : Router) (q : Request) (env : Env) (id : Option Bytes)
    → (authorized r q env.now).0 ≡ false
    → Spared r env.now (dispatch_upload_path assets_find r q env id)
unfolding dispatch_upload_path
held-upload_path assets_find r q env none h =
    held-upload_id assets_find r q env (upload_id_from_path q.path) h
held-upload_path assets_find r q env (some id) h = inl (held-dispatch_upload_complete r q env h id)

-- A request that `authorized` refuses leaves the configuration and the uploads as they were, or, on
-- the status page, clears an upload whose lease is over, or has no end; the sessions may change.
pub router_dispatch-Spared :
    (assets_find : Bytes → Option Asset) (r : Router) (q : Request) (env : Env)
    → (authorized r q env.now).0 ≡ false
    → Spared r env.now (router_dispatch assets_find r q env)
unfolding router_dispatch held
router_dispatch-Spared assets_find r q env h = ground (
  arith,
  held-challenge r q env,
  held-verify r q env,
  held-prepare r q env h,
  held-storage r q env h,
  held-upload_path assets_find r q env (upload_complete_from_path q.path) h,
)
