-- ===== src/Router/Guards.antt =====
-- src/router.c: what a request changes that does not come from the server's own page.
use ps5_localsend.Base.{
  ℕ, ◌≡◌, refl, ◌⊎◌, inl, inr, true, false, Option, none, some, arith, Bytes, codes,
}
use ps5_localsend.Router.Dispatch.{
  print_targets, status_reply, dispatch_page, dispatch_upload_id, dispatch_upload_path,
  router_dispatch, Asset,
}
use ps5_localsend.Router.Sessions.{dispatch_challenge, dispatch_verify}
use ps5_localsend.Router.State.{
  is_same_origin, with_uploads, Router, Request, Env, Reply, answered, completes, unending,
}
use ps5_localsend.Router.Storage.{dispatch_storage}
use ps5_localsend.Router.Text.{upload_id_from_path, upload_complete_from_path}
use ps5_localsend.Router.Uploads.{
  dispatch_upload_prepare, dispatch_upload_delete, dispatch_upload_complete,
}
use ps5_localsend.Upload.Admin.{upload_snapshot}
use ps5_localsend.Upload.State.{reap}

-- The router after a request that was answered.
unfoldable pub settled : Reply → Option Router
settled (answered response r) = some r
settled (completes id r) = none
settled unending = none

-- Each handler checks the origin before it does anything.
module _ (r : Router) (q : Request) (env : Env) (h : is_same_origin q ≡ false) where
  settled-challenge : settled (dispatch_challenge r q env) ≡ some r
  unfolding dispatch_challenge settled
  settled-challenge = ground arith

  settled-verify : settled (dispatch_verify r q env) ≡ some r
  unfolding dispatch_verify settled
  settled-verify = ground arith

  settled-prepare : settled (dispatch_upload_prepare r q env) ≡ some r
  unfolding dispatch_upload_prepare settled
  settled-prepare = ground arith

  settled-storage : settled (dispatch_storage r q env) ≡ some r
  unfolding dispatch_storage settled
  settled-storage = ground arith

  settled-dispatch_upload_complete :
      (id : Bytes) → settled (dispatch_upload_complete r q env id) ≡ some r
  unfolding dispatch_upload_complete settled
  settled-dispatch_upload_complete id = ground arith

  settled-delete : (id : Bytes) → settled (dispatch_upload_delete r q env id) ≡ some r
  unfolding dispatch_upload_delete settled
  settled-delete id = ground arith

-- The router as it was, or without an upload whose lease is over.
abbrev pub Untouched : Router → ℕ → Option Router → Type 0
Untouched r now after = (after ≡ some r) ⊎ (after ≡ some (with_uploads r (reap r.uploads now)))

settled-status :
    (r : Router) (env : Env) (targets : Option Bytes)
    → Untouched r env.now (settled (status_reply r env targets))
unfolding status_reply upload_snapshot settled
settled-status r env none = inl refl
settled-status r env (some targets) = inr refl

settled-page :
    (r : Router) (q : Request) (env : Env) (asset : Option Asset)
    → Untouched r env.now (settled (dispatch_page r q env asset))
unfolding dispatch_page settled
settled-page r q env (some asset) = ground arith
settled-page r q env none =
    ground (arith, settled-status r env (print_targets (codes "[") true r.config.storage_targets))

settled-upload_id :
    (assets_find : Bytes → Option Asset) (r : Router) (q : Request) (env : Env) (id : Option Bytes)
    → is_same_origin q ≡ false
    → Untouched r env.now (settled (dispatch_upload_id assets_find r q env id))
unfolding dispatch_upload_id settled
settled-upload_id assets_find r q env none h = settled-page r q env (assets_find q.path)
settled-upload_id assets_find r q env (some id) h = ground (arith, settled-delete r q env h id)

settled-upload_path :
    (assets_find : Bytes → Option Asset) (r : Router) (q : Request) (env : Env) (id : Option Bytes)
    → is_same_origin q ≡ false
    → Untouched r env.now (settled (dispatch_upload_path assets_find r q env id))
unfolding dispatch_upload_path
settled-upload_path assets_find r q env none h =
    settled-upload_id assets_find r q env (upload_id_from_path q.path) h
settled-upload_path assets_find r q env (some id) h =
    inl (settled-dispatch_upload_complete r q env h id)

-- A request whose `Origin` is not the server's own, or whose `Host` is not valid, is answered and
-- changes nothing: the router stays as it was, or, on the status page, loses an upload whose lease
-- is over.
pub router_dispatch-Untouched :
    (assets_find : Bytes → Option Asset) (r : Router) (q : Request) (env : Env)
    → is_same_origin q ≡ false
    → Untouched r env.now (settled (router_dispatch assets_find r q env))
unfolding router_dispatch settled
router_dispatch-Untouched assets_find r q env h = ground (
  arith,
  settled-challenge r q env h,
  settled-verify r q env h,
  settled-prepare r q env h,
  settled-storage r q env h,
  settled-upload_path assets_find r q env (upload_complete_from_path q.path) h,
)
