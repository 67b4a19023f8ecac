-- ===== src/Router/Setup.antt =====
-- src/router.c: the set-up of the router, and what holds of a new one.
use ps5_localsend.Auth.Invariant.{IsValid}
use ps5_localsend.Auth.Run.{run, run-IsValid}
use ps5_localsend.Auth.State.{auth_manager_create, AuthManager}
use ps5_localsend.Base.{
  ℕ, ◌<◌, ◌≡◌, refl, subst, Bool, not, Option, none, some, [], arith, if◌then◌else◌, length,
}
use ps5_localsend.Config.State.{AppConfig}
use ps5_localsend.Router.Destinations.{Agrees}
use ps5_localsend.Router.State.{Router}
use ps5_localsend.Upload.Admin.{upload_manager_create, CreateEnv}
use ps5_localsend.Upload.State.{empty_slot, UploadManager}

-- Which steps succeed: the mutex, the path of the configuration file, and the two of
-- `auth_manager_create`, with those of `upload_manager_create`.
pub record InitEnv : Type 0 where
  pub mutex_ready : Bool
  pub path_fits : Bool
  pub auth_allocated : Bool
  pub auth_mutex_ready : Bool
  pub uploads : CreateEnv

-- The managers are both there, or the router is given up.
unfoldable pub with_managers : AppConfig → Option AuthManager → Option UploadManager → Option Router
with_managers config (some auth) (some uploads) = some (record {
  config = config;
  auth_mode = config.auth_mode;
  fast_upload_port = 0;
  auth = auth;
  uploads = uploads;
})
with_managers config _ _ = none

unfoldable pub router_init : AppConfig → InitEnv → Option Router
router_init config env =
    if not env.mutex_ready
    then none
    else if not env.path_fits
    then none
    else with_managers config
        (auth_manager_create config.pin_ttl_seconds config.session_ttl_seconds env.auth_allocated
          env.auth_mutex_ready)
        (upload_manager_create config env.uploads)

unfoldable pub router_set_port : Router → ℕ → Router
router_set_port r port = record r { config = record r.config { port = port } }

unfoldable pub router_set_fast_upload_port : Router → ℕ → Router
router_set_fast_upload_port r port = record r { fast_upload_port = port }

-- A router that has just been set up.
pub record Ready (config : AppConfig) (r : Router) : Type 0 where
  pub sessions : IsValid r.auth
  pub agrees : Agrees (some r)
  pub no_upload : r.uploads.slot ≡ empty_slot
  pub mode : r.auth_mode ≡ config.auth_mode
  pub short : length r.config.destination < 1024

first_sessions :
    (pin_ttl session_ttl : ℕ) (allocated mutex_ready : Bool) (m : AuthManager)
    → auth_manager_create pin_ttl session_ttl allocated mutex_ready ≡ some m
    → IsValid m
unfolding run
first_sessions pin_ttl session_ttl allocated mutex_ready m h =
    run-IsValid pin_ttl session_ttl allocated mutex_ready m [] h tt

new_uploads :
    (config : AppConfig) (env : CreateEnv) (m : UploadManager)
    → upload_manager_create config env ≡ some m
    → (m.slot ≡ empty_slot)
      × (m.destination ≡ config.destination)
      × (length config.destination < 1024)
unfolding upload_manager_create
new_uploads config env m h = (ground arith, ground arith, ground arith)

new_router :
    (config : AppConfig) (auth : Option AuthManager) (uploads : Option UploadManager) (r : Router)
    → ((m : AuthManager) → auth ≡ some m → IsValid m)
    → ((m : UploadManager)
        → uploads ≡ some m
        → (m.slot ≡ empty_slot)
          × (m.destination ≡ config.destination)
          × (length config.destination < 1024))
    → with_managers config auth uploads ≡ some r
    → Ready config r
unfolding with_managers
new_router config (some auth) (some uploads) r valid facts h =
    subst (λ (o : Option Router). ReadyOr config o) h
      (record {
        sessions = valid auth refl;
        agrees = (facts uploads refl).1;
        no_upload = (facts uploads refl).0;
        mode = refl;
        short = (facts uploads refl).2;
      })
  where
    ReadyOr : AppConfig → Option Router → Type 0
    ReadyOr config none = Unit
    ReadyOr config (some r) = Ready config r
new_router config (some auth) none r valid facts h = absurd (cc)
new_router config none uploads r valid facts h = absurd (cc)

init_managers :
    (config : AppConfig) (env : InitEnv) (r : Router)
    → router_init config env ≡ some r
    → with_managers config
        (auth_manager_create config.pin_ttl_seconds config.session_ttl_seconds env.auth_allocated
          env.auth_mutex_ready)
        (upload_manager_create config env.uploads)
      ≡ some r
unfolding router_init
init_managers config env r h = ground arith

-- A router that `router_init` sets up has a valid state of its sessions, no upload, the
-- authentication mode of the configuration, and a destination of the uploads that is the one of the
-- configuration and shorter than 1024 bytes.
pub router_init-Ready :
    (config : AppConfig) (env : InitEnv) (r : Router)
    → router_init config env ≡ some r
    → Ready config r
router_init-Ready config env r h =
    new_router config _ _ r
      (first_sessions config.pin_ttl_seconds config.session_ttl_seconds env.auth_allocated
        env.auth_mutex_ready)
      (new_uploads config env.uploads) (init_managers config env r h)
