-- ===== src/Router/Destinations.antt =====
-- src/router.c: the destination in the configuration and the one of the uploads.
use ps5_localsend.Base.{
  ℕ, ◌<◌, ◌≡◌, refl, ap, ◌∙◌, ◌≢◌, inl, inr, Bool, true, false, Option, none, some, arith, ltb,
  ◌==◌, Bool-cases, Bytes, codes, equal, length, get_or, set,
}
use ps5_localsend.Config.State.{AuthMode, auth_pin, auth_none}
use ps5_localsend.Router.Guards.{settled}
use ps5_localsend.Router.Json.{parse_storage_target}
use ps5_localsend.Router.State.{is_same_origin, authorized_in, Router, Request, Env}
use ps5_localsend.Router.Storage.{
  storage_path_for_target, storage_changed, storage_found, storage_parsed, storage_authorized,
  dispatch_storage,
}
use ps5_localsend.Router.Text.{is_json_content_type}
use ps5_localsend.Router.Uploads.{max_metadata_bytes}
use ps5_localsend.Upload.Admin.{set_destination_locked, upload_manager_set_destination}
use ps5_localsend.Upload.State.{clear_slot, reap, UploadResult, UploadManager}

reap-destination : (m : UploadManager) (now : ℕ) → (reap m now).destination ≡ m.destination
unfolding reap clear_slot
reap-destination m now = ground arith

-- A destination that is set.
set_destination_ok :
    (m : UploadManager) (destination : Bytes) (now error : ℕ)
    → (upload_manager_set_destination m (some destination) now error).0 ≡ UploadResult.ok
    → ((upload_manager_set_destination m (some destination) now error).1.destination ≡ destination)
      × ((upload_manager_set_destination m (some destination) now error).1.slot.occupied ≡ false)
unfolding upload_manager_set_destination set_destination_locked
set_destination_ok m destination now error h = (ground arith, ground arith)

-- One that stays.
set_destination_kept :
    (m : UploadManager) (destination : Bytes) (now error : ℕ)
    → (upload_manager_set_destination m (some destination) now error).0 ≢ UploadResult.ok
    → (upload_manager_set_destination m (some destination) now error).1.destination ≡ m.destination
unfolding upload_manager_set_destination set_destination_locked
set_destination_kept m destination now error h = ground (arith, reap-destination m now)

reap_free : (m : UploadManager) (now : ℕ) → m.slot.occupied ≡ false → reap m now ≡ m
unfolding reap
reap_free m now h = ground arith

-- An absolute path that is not too long can be set while no upload is in the slot.
abbrev pub IsSettable : Bytes → Type 0
IsSettable destination = ((get_or destination 0 0 == b'/') ≡ true) × (length destination < 1024)

set_again :
    (m : UploadManager) (destination : Bytes) (now : ℕ)
    → IsSettable destination
    → m.slot.occupied ≡ false
    → (upload_manager_set_destination m (some destination) now 0).1.destination ≡ destination
unfolding upload_manager_set_destination set_destination_locked
set_again m destination now w h = simp (reap_free m now h) (ground (arith, w.0, w.1))

-- The uploads and the configuration have the same destination.
abbrev pub Agrees : Option Router → Type 0
Agrees none = ⊥
Agrees (some r) = r.uploads.destination ≡ r.config.destination

storage_changed-Agrees :
    (r : Router) (env : Env) (target destination : Bytes) (result : UploadResult)
    (m : UploadManager)
    → IsSettable r.config.destination
    → env.restore_error ≡ 0
    → Agrees (some r)
    → (result ≡ UploadResult.ok → (m.destination ≡ destination) × (m.slot.occupied ≡ false))
    → (result ≢ UploadResult.ok → m.destination ≡ r.uploads.destination)
    → Agrees (settled (storage_changed r env target destination (result, m)))
unfolding storage_changed settled
storage_changed-Agrees r env target destination UploadResult.ok m w zero_error same set kept =
    elim (Bool-cases env.saved) [
      | inl saved ↦ simp saved ((set refl).0)
      | inr lost ↦ simp lost (
          ap
            (λ n.
              (upload_manager_set_destination m (some r.config.destination) env.now
                n).1.destination)
            zero_error
          ∙ set_again m r.config.destination env.now w (set refl).1)
    ]
storage_changed-Agrees r env target destination _ m w zero_error same set kept =
    kept (λ e. absurd (cc)) ∙ same

storage_parsed-Agrees :
    (r : Router) (env : Env) (target : Option Bytes)
    → IsSettable r.config.destination
    → env.restore_error ≡ 0
    → Agrees (some r)
    → Agrees (settled (storage_parsed r env target))
unfolding storage_parsed storage_found settled
storage_parsed-Agrees r env none w zero_error same = same
storage_parsed-Agrees r env (some target) w zero_error same =
    found (storage_path_for_target r.config target)
  where
    found : (destination : Option Bytes) → Agrees (settled (storage_found r env target destination))
    found none = same
    found (some destination) =
        storage_changed-Agrees r env target destination _ _ w zero_error same
          (set_destination_ok r.uploads destination env.now env.directory_error)
          (set_destination_kept r.uploads destination env.now env.directory_error)

storage_authorized-Agrees :
    (accepted : Bool) (r : Router) (q : Request) (env : Env)
    → IsSettable r.config.destination
    → env.restore_error ≡ 0
    → Agrees (some r)
    → Agrees (settled (storage_authorized (accepted, r) q env))
unfolding storage_authorized settled
storage_authorized-Agrees false r q env w zero_error same = same
storage_authorized-Agrees true r q env w zero_error same =
    elim (Bool-cases (ltb max_metadata_bytes (length q.body))) [
      | inl long ↦ simp long same
      | inr short ↦ elim (Bool-cases (is_json_content_type q.content_type)) [
        | inr other ↦ simp (short, other) same
        | inl json ↦
            simp (short, json)
              (storage_parsed-Agrees r env (parse_storage_target q.body) w zero_error same)
      ]
    ]

authorized-Agrees :
    (mode : AuthMode) (r : Router) (q : Request) (env : Env)
    → IsSettable r.config.destination
    → env.restore_error ≡ 0
    → Agrees (some r)
    → Agrees (settled (storage_authorized (authorized_in mode r q env.now) q env))
unfolding authorized_in
authorized-Agrees auth_none r q env w zero_error same =
    storage_authorized-Agrees true r q env w zero_error same
authorized-Agrees auth_pin r q env w zero_error same =
    storage_authorized-Agrees _ _ q env w zero_error same

-- A request to change the storage target keeps the destination of the uploads equal to the one in
-- the configuration, whether it succeeds, is refused, or cannot save the configuration and restores
-- the old destination; if the old one is an absolute path of less than 1024 bytes, and its directory
-- can be opened again.
pub dispatch_storage-Agrees :
    (r : Router) (q : Request) (env : Env)
    → IsSettable r.config.destination
    → env.restore_error ≡ 0
    → Agrees (some r)
    → Agrees (settled (dispatch_storage r q env))
unfolding dispatch_storage settled
dispatch_storage-Agrees r q env w zero_error same =
    elim (Bool-cases (equal q.method (codes "POST"))) [
      | inr other ↦ simp other same
      | inl post ↦ elim (Bool-cases (is_same_origin q)) [
        | inr foreign_origin ↦ simp (post, foreign_origin) same
        | inl own_origin ↦
            simp (post, own_origin) (authorized-Agrees r.auth_mode r q env w zero_error same)
      ]
    ]
