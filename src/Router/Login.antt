-- ===== src/Router/Login.antt =====
-- src/router.c: a verified PIN opens the other requests.
use ps5_localsend.Auth.Bearer.{bearer, validate-verify}
use ps5_localsend.Auth.Invariant.{IsValid}
use ps5_localsend.Auth.Json.{auth_parse_verify_json, Parsed, running, parsed}
use ps5_localsend.Auth.Ops.{
  Verified, auth_verify_challenge_at, auth_validate_bearer_at, SessionResult,
}
use ps5_localsend.Auth.Secrets.{generate_hex}
use ps5_localsend.Auth.State.{
  token_hex_bytes, valid_client_address, AuthResult, expired, used_up, rate_limited, capacity,
  random_failure,
}
use ps5_localsend.Base.{
  ℕ, ◌+◌, ◌/◌, ◌^◌, ◌<◌, ◌≡◌, refl, sym, ap, subst, ◌∙◌, ◌↔◌, Bool, true, false, Option, none, some,
  arith, Bytes, length,
}
use ps5_localsend.Router.Guards.{settled}
use ps5_localsend.Router.Sessions.{
  pin_auth_enabled, verify_response, verify_body_read, dispatch_verify,
}
use ps5_localsend.Router.State.{
  set_json_error, is_ok, authorized_in, authorized, Router, Request, Env, Reply, answered,
  completes, unending,
}

unfoldable pub status_of : Reply → ℕ
status_of (answered response r) = response.status
status_of (completes id r) = 0
status_of unending = 0

verify_sent :
    (result : AuthResult) (session : Option SessionResult)
    → (verify_response result session).status ≡ 200
    → result ≡ AuthResult.ok
unfolding verify_response set_json_error
verify_sent AuthResult.ok session h = refl
verify_sent AuthResult.invalid session h = absurd (omega (arith, h))
verify_sent expired session h = absurd (omega (arith, h))
verify_sent used_up session h = absurd (omega (arith, h))
verify_sent rate_limited session h = absurd (omega (arith, h))
verify_sent capacity session h = absurd (omega (arith, h))
verify_sent random_failure session h = absurd (omega (arith, h))

-- The verification of the id and the PIN of the body.
abbrev pub verified_as : Router → Request → Env → Bytes × Bytes → Verified
verified_as r q env (id, pin) =
    auth_verify_challenge_at r.auth q.client_address (some id) (some pin) env.now env.token_bytes

verify_body_sent :
    (r : Router) (q : Request) (env : Env) (p : Parsed)
    → status_of (verify_body_read r q env p) ≡ 200
    → (body : Bytes × Bytes) × ((verified_as r q env body).0 ≡ AuthResult.ok)
      × (settled (verify_body_read r q env p)
          ≡ some (record r { auth = (verified_as r q env body).1 }))
unfolding verify_body_read status_of settled set_json_error
verify_body_sent r q env running h = absurd (omega (arith, h))
verify_body_sent r q env (parsed none) h = absurd (omega (arith, h))
verify_body_sent r q env (parsed (some (id, pin))) h = ((id, pin), verify_sent _ _ h, refl)

dispatch_verify_sent :
    (r : Router) (q : Request) (env : Env)
    → status_of (dispatch_verify r q env) ≡ 200
    → (dispatch_verify r q env ≡ verify_body_read r q env (auth_parse_verify_json q.body))
      × (pin_auth_enabled r ≡ true)
unfolding dispatch_verify status_of set_json_error
dispatch_verify_sent r q env h = ground arith

authorized_pin :
    (r : Router) (q : Request) (t : ℕ)
    → pin_auth_enabled r ≡ true
    → (authorized r q t).0
      ≡ is_ok (auth_validate_bearer_at r.auth q.client_address q.authorization t).0
unfolding authorized_in
authorized_pin r q t h = ground arith

is_ok_iff : (result : AuthResult) → (is_ok result ≡ true) ↔ (result ≡ AuthResult.ok)
is_ok_iff result = ground arith

-- The two requests, with their headers written out.
authorized_after :
    (r : Router) (q q' : Request) (env : Env) (body : Bytes × Bytes)
    (client client' token token' : Bytes) (t : ℕ)
    → IsValid r.auth
    → pin_auth_enabled r ≡ true
    → (verified_as r q env body).0 ≡ AuthResult.ok
    → q.client_address ≡ some client
    → generate_hex (token_hex_bytes / 2) env.token_bytes ≡ some token
    → length token ≡ token_hex_bytes
    → env.now + r.auth.session_ttl_seconds < 2 ^ 64
    → q'.client_address ≡ some client'
    → q'.authorization ≡ some (bearer token')
    → valid_client_address (some client') ≡ true
    → length token' ≡ token_hex_bytes
    → ((authorized (record r { auth = (verified_as r q env body).1 }) q' t).0 ≡ true)
      ↔ ((client ≡ client') × (token ≡ token') × (t < env.now + r.auth.session_ttl_seconds))
authorized_after r q q' env (id, pin) client client' token token' t valid mode passed c g l wrap c'
      a known l' =
    let v = λ (o : Option Bytes).
      auth_verify_challenge_at r.auth o (some id) (some pin) env.now env.token_bytes in
    let answer = λ (o o' a' : Option Bytes). (auth_validate_bearer_at (v o).1 o' a' t).0 in
    let same : (authorized (record r { auth = (v q.client_address).1 }) q' t).0
        ≡ is_ok (answer (some client) (some client') (some (bearer token'))) =
      authorized_pin (record r { auth = (v q.client_address).1 }) q' t mode
      ∙ ap (λ o. is_ok (answer o q'.client_address q'.authorization)) c
      ∙ ap (λ o. is_ok (answer (some client) o q'.authorization)) c'
      ∙ ap (λ o. is_ok (answer (some client) (some client') o)) a in
    let exact =
      validate-verify r.auth client id pin env.now env.token_bytes token client' token' t valid
        (subst (λ (o : Option Bytes). (v o).0 ≡ AuthResult.ok) c passed) g l wrap known l' in
    let meant = is_ok_iff (answer (some client) (some client') (some (bearer token'))) in
    (λ h. exact.0 (meant.0 (sym same ∙ h)), λ h. same ∙ meant.1 (exact.1 h))

-- After a request to verify a PIN was answered with status 200, in a valid state of the sessions,
-- `authorized` accepts a well-formed bearer token from a well-formed address exactly if the client
-- is the one that verified, the token is the one that was generated, and the session has not
-- expired.
pub authorized-dispatch_verify :
    (r r' : Router) (q q' : Request) (env : Env) (client client' token token' : Bytes) (t : ℕ)
    → IsValid r.auth
    → status_of (dispatch_verify r q env) ≡ 200
    → settled (dispatch_verify r q env) ≡ some r'
    → q.client_address ≡ some client
    → generate_hex (token_hex_bytes / 2) env.token_bytes ≡ some token
    → length token ≡ token_hex_bytes
    → env.now + r.auth.session_ttl_seconds < 2 ^ 64
    → q'.client_address ≡ some client'
    → q'.authorization ≡ some (bearer token')
    → valid_client_address (some client') ≡ true
    → length token' ≡ token_hex_bytes
    → ((authorized r' q' t).0 ≡ true)
      ↔ ((client ≡ client') × (token ≡ token') × (t < env.now + r.auth.session_ttl_seconds))
authorized-dispatch_verify r r' q q' env client client' token token' t valid sent after c g l wrap
      c' a known l' =
    let passed = dispatch_verify_sent r q env sent in
    let (body, verified, now_is) =
      verify_body_sent r q env (auth_parse_verify_json q.body)
        (ap status_of (sym passed.0) ∙ sent) in
    let same : some (record r { auth = (verified_as r q env body).1 }) ≡ some r' =
      sym now_is ∙ ap settled (sym passed.0) ∙ after in
    subst
      (λ (o : Option Router).
        (authorized_of o q' t ≡ true)
        ↔ ((client ≡ client') × (token ≡ token') × (t < env.now + r.auth.session_ttl_seconds)))
      same
      (authorized_after r q q' env body client client' token token' t valid passed.1 verified c g l
        wrap c' a known l')
  where
    authorized_of : Option Router → Request → ℕ → Bool
    authorized_of none q t = false
    authorized_of (some r) q t = (authorized r q t).0
