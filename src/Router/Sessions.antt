-- ===== src/Router/Sessions.antt =====
-- src/router.c: the two requests that open a session.
use ps5_localsend.Auth.Json.{auth_parse_verify_json, Parsed, running, parsed}
use ps5_localsend.Auth.Ops.{
  Created, auth_create_challenge_at, Verified, auth_verify_challenge_at, ChallengeResult,
  SessionResult,
}
use ps5_localsend.Auth.State.{AuthResult, expired, used_up, rate_limited, capacity}
use ps5_localsend.Base.{
  Bool, true, false, not, ◌||◌, Option, none, some, ◌++◌, ltb, leb, ◌==◌, if◌then◌else◌, Bytes,
  codes, equal, length,
}
use ps5_localsend.Config.State.{auth_pin, auth_none}
use ps5_localsend.Router.Numbers.{print_u64}
use ps5_localsend.Router.State.{
  set_json_error, printed, only_post, no_body, origin_forbidden, not_json, is_same_origin, text_of,
  Router, Request, Response, Env, Reply, answered, unending,
}
use ps5_localsend.Router.Text.{is_json_content_type}

abbrev pub auth_disabled : Response
auth_disabled =
    set_json_error 409 (codes "auth_disabled")
      (codes "PIN authentication is disabled by configuration")

abbrev pub pin_auth_enabled : Router → Bool
pin_auth_enabled r = elim r.auth_mode [ auth_pin ↦ true | auth_none ↦ false ]

abbrev pub notification : Bytes → Bytes → Bytes
notification pin client = codes "PS5 LocalSend PIN " ++ (pin ++ (codes " for " ++ client))

-- The PIN is shown, and the id is sent.
unfoldable pub challenge_created : ChallengeResult → Bytes → Bool → Response
challenge_created challenge client notified =
    if leb 192 (length (notification challenge.pin client)) || not notified
    then set_json_error 500 (codes "notification_failed") (codes "Unable to show the PIN on PS5")
    else printed 201 (
        codes "{\"challengeId\":\""
        ++ (challenge.challenge_id
            ++ (codes "\",\"expiresIn\":"
                ++ (print_u64 challenge.expires_in_seconds ++ codes "}\n"))))

unfoldable pub challenge_response : AuthResult → Option ChallengeResult → Bytes → Bool → Response
challenge_response capacity challenge client notified =
    set_json_error 429 (codes "too_many_challenges")
      (codes "Too many authentication challenges are active")
challenge_response rate_limited challenge client notified =
    set_json_error 429 (codes "challenge_rate_limited") (codes "Wait before requesting another PIN")
challenge_response AuthResult.ok (some challenge) client notified =
    challenge_created challenge client notified
challenge_response _ _ client notified =
    set_json_error 500 (codes "auth_unavailable")
      (codes "Unable to create an authentication challenge")

unfoldable pub challenge_reply : Router → Request → Env → Option Created → Reply
challenge_reply r q env none = unending
challenge_reply r q env (some (result, auth, challenge)) =
    answered (challenge_response result challenge (text_of q.client_address) env.notified)
      (record r { auth = auth })

unfoldable pub dispatch_challenge : Router → Request → Env → Reply
dispatch_challenge r q env =
    if not (pin_auth_enabled r)
    then answered auth_disabled r
    else if not (equal q.method (codes "POST"))
    then answered only_post r
    else if not (length q.body == 0)
    then answered no_body r
    else if not (is_same_origin q)
    then answered origin_forbidden r
    else challenge_reply r q env
        (auth_create_challenge_at r.auth q.client_address env.now env.id_bytes env.pin_draws)

unfoldable pub verify_response : AuthResult → Option SessionResult → Response
verify_response rate_limited session =
    set_json_error 429 (codes "too_many_attempts")
      (codes "This challenge has reached its attempt limit")
verify_response expired session =
    set_json_error 401 (codes "challenge_expired")
      (codes "This authentication challenge has expired")
verify_response used_up session =
    set_json_error 401 (codes "challenge_used")
      (codes "This authentication challenge was already used")
verify_response AuthResult.ok (some session) = printed 200 (
    codes "{\"token\":\""
    ++ (session.token
        ++ (codes "\",\"tokenType\":\"Bearer\",\"expiresIn\":"
            ++ (print_u64 session.expires_in_seconds ++ codes "}\n"))))
verify_response _ _ =
    set_json_error 401 (codes "invalid_credentials") (codes "The challenge or PIN is invalid")

abbrev pub verify_reply : Router → Verified → Reply
verify_reply r v = answered (verify_response v.0 v.2) (record r { auth = v.1 })

unfoldable pub verify_body_read : Router → Request → Env → Parsed → Reply
verify_body_read r q env running = unending
verify_body_read r q env (parsed none) =
    answered
      (set_json_error 400 (codes "invalid_json")
        (codes "Expected exactly challengeId and a six-digit pin"))
      r
verify_body_read r q env (parsed (some (id, pin))) =
    verify_reply r (
      auth_verify_challenge_at r.auth q.client_address (some id) (some pin) env.now env.token_bytes)

unfoldable pub dispatch_verify : Router → Request → Env → Reply
dispatch_verify r q env =
    if not (pin_auth_enabled r)
    then answered auth_disabled r
    else if not (equal q.method (codes "POST"))
    then answered only_post r
    else if ltb 512 (length q.body)
    then answered
        (set_json_error 413 (codes "body_too_large") (codes "Authentication JSON is too large")) r
    else if not (is_same_origin q)
    then answered origin_forbidden r
    else if not (is_json_content_type q.content_type)
    then answered not_json r
    else verify_body_read r q env (auth_parse_verify_json q.body)
