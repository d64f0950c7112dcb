-- ===== src/Routing/Table.antt =====
-- The routes of app/worker/index.ts, `handleApi`: which handler a request is for.
use ctf_website.Base.{
  ℕ, String, Bool, ◌&&◌, Option, none, some, List, [], ◌∷◌, str_eq, if◌then◌else◌,
}
use ctf_website.Base.Texts.{split_on, starts_with, is_empty, join_text, drop_text, text_length}
use ctf_website.Http.{Exec, pure, throw, require, ◌>>=◌, ◌>>◌, not_found}
use ctf_website.RateLimit.{enforce, two_factor_rule}
use ctf_website.TwoFactor.{internal_error}
use ctf_website.Auth.{AuthContext}
use ctf_website.Routing.{Door, Request, assert_trusted_origin, clear, webhook_rule, too_many}

-- What answers without a session, and what answers a signed-in user.
pub data OpenHandler : Type 0 where
  health vapi_webhook legal_documents google_availability google_start google_callback login
        signup_start challenge_verify challenge_resend :
      OpenHandler

pub data Handler : Type 0 where
  me accept_terms two_factor_status totp_enroll_start totp_enroll_confirm email_factor_enable
        two_factor_disable regenerate_backup_codes admin_overview admin_accounts admin_activity
        admin_notices admin_notices_read admin_step_up logout change_password metrics list_calls
        live_call list_team create_team_member :
      Handler
  admin_org_action admin_account_action update_team_member : String → Handler
  get_call transcript takeover end_call : String → Handler

-- `methodNotAllowed`, or the handler that the request is for.
pub data Dispatch : Type 0 where
  method_not_allowed : String → Dispatch
  public : OpenHandler → Dispatch
  signed : AuthContext → Handler → Dispatch

-- The first of the tests, each with its outcome, that holds.
unfoldable pub first_of : List (Bool × Dispatch) → Option Dispatch
first_of [] = none
first_of ((test, dispatch) ∷ rows) = if test then some dispatch else first_of rows

unfoldable pub otherwise : Option Dispatch → Exec Dispatch → Exec Dispatch
otherwise (some dispatch) rest = pure dispatch
otherwise none rest = rest

abbrev pub only_method : (allow method : String) → Dispatch → Dispatch
only_method allow method dispatch =
    if str_eq method allow then dispatch else method_not_allowed allow

-- `/^…\/([^/]+)$/`: what stands behind the prefix, where it is one segment.
abbrev one_segment : List String → Option String
one_segment (segment ∷ []) = if is_empty segment then none else some segment
one_segment _ = none

abbrev pub segment_behind : (prefix path : String) → Option String
segment_behind prefix path =
    if starts_with prefix path
    then one_segment (split_on b'/' (drop_text (text_length prefix) path))
    else none

abbrev segments_of : List String → List String
segments_of [] = []
segments_of (part ∷ parts) =
    let rest = segments_of parts in if is_empty part then rest else part ∷ rest

pub data CallAction : Type 0 where
  call_detail call_transcript call_takeover call_end : CallAction

abbrev pub action_named : String → Option CallAction
action_named name =
    if str_eq name "transcript"
    then some call_transcript
    else if str_eq name "takeover"
    then some call_takeover
    else if str_eq name "end"
    then some call_end
    else none

abbrev pub action_of : List String → Option CallAction
action_of [] = some call_detail
action_of (name ∷ []) = action_named name
action_of _ = none

module _ (door : Door) (now : ℕ) (request : Request) where
  abbrev at : String → Bool
  at path = str_eq request.path path

  abbrev gets : String → Bool
  gets path = str_eq request.path path && str_eq request.method "GET"

  -- decodeURIComponent throws where a segment is malformed, which is answered as an internal error.
  abbrev pub decode_uri : String → Exec String
  decode_uri segment = require (door.decode_uri_component segment) internal_error

  abbrev pub public_rows : List (Bool × Dispatch)
  public_rows =
      (gets "/api/legal", public legal_documents)
      ∷ (gets "/api/auth/methods", public google_availability)
      ∷ (at "/api/auth/google/start", only_method "GET" request.method (public google_start))
      ∷ (at "/api/auth/google/callback", only_method "GET" request.method (public google_callback))
      ∷ []

  abbrev pub sign_in_rows : List (Bool × Dispatch)
  sign_in_rows =
      (at "/api/auth/login", only_method "POST" request.method (public login))
      ∷ (at "/api/auth/signup/start", only_method "POST" request.method (public signup_start))
      ∷ []

  module _ (auth : AuthContext) where
    abbrev posts : Handler → Dispatch
    posts handler = only_method "POST" request.method (signed auth handler)

    abbrev pub account_rows : List (Bool × Dispatch)
    account_rows =
        (gets "/api/me", signed auth me)
        ∷ (at "/api/auth/accept-terms", posts accept_terms)
        ∷ (gets "/api/auth/2fa", signed auth two_factor_status)
        ∷ (at "/api/auth/2fa/totp/start", posts totp_enroll_start)
        ∷ (at "/api/auth/2fa/totp/confirm", posts totp_enroll_confirm)
        ∷ (at "/api/auth/2fa/email/enable", posts email_factor_enable)
        ∷ (at "/api/auth/2fa/disable", posts two_factor_disable)
        ∷ (at "/api/auth/2fa/backup-codes", posts regenerate_backup_codes)
        ∷ (gets "/api/platform/overview", signed auth admin_overview)
        ∷ (gets "/api/platform/accounts", signed auth admin_accounts)
        ∷ (gets "/api/platform/activity", signed auth admin_activity)
        ∷ (gets "/api/platform/notifications", signed auth admin_notices)
        ∷ (at "/api/platform/notifications/read", posts admin_notices_read)
        ∷ []

    abbrev pub client_rows : List (Bool × Dispatch)
    client_rows =
        (at "/api/auth/logout", posts logout)
        ∷ (at "/api/auth/password", posts change_password)
        ∷ (gets "/api/metrics", signed auth metrics)
        ∷ (gets "/api/calls", signed auth list_calls)
        ∷ (gets "/api/calls/live", signed auth live_call)
        ∷ (gets "/api/users", signed auth list_team)
        ∷ (at "/api/users" && str_eq request.method "POST", signed auth create_team_member)
        ∷ (at "/api/users", method_not_allowed "GET, POST")
        ∷ []

    unfoldable pub step_up_route : Exec Dispatch
    step_up_route =
        if str_eq request.method "POST"
        then (enforce (join_text "step-up:" auth.user.id) two_factor_rule
              "Too many code attempts. Please wait and try again." now
            >>= λ _. pure (signed auth admin_step_up))
        else pure (method_not_allowed "POST")

    -- A handler for the row that one segment of the path names.
    unfoldable pub row_route :
        (allow : String) → (String → Handler) → Option String → Exec Dispatch → Exec Dispatch
    row_route allow handler none rest = rest
    row_route allow handler (some segment) rest =
        if str_eq request.method allow
        then (decode_uri segment >>= λ id. pure (signed auth (handler id)))
        else pure (method_not_allowed allow)

    abbrev pub route_call : String → CallAction → Dispatch
    route_call call_id call_detail =
        only_method "GET" request.method (signed auth (get_call call_id))
    route_call call_id call_transcript =
        only_method "GET" request.method (signed auth (transcript call_id))
    route_call call_id call_takeover =
        only_method "POST" request.method (signed auth (takeover call_id))
    route_call call_id call_end = only_method "POST" request.method (signed auth (end_call call_id))

    abbrev pub with_action : String → Option CallAction → Exec Dispatch
    with_action call_id none = throw (not_found "That endpoint does not exist.")
    with_action call_id (some action) = pure (route_call call_id action)

    unfoldable pub match_call_route : List String → Exec Dispatch
    match_call_route (api ∷ calls ∷ segment ∷ rest) =
        if str_eq api "api" && str_eq calls "calls"
        then (decode_uri segment >>= λ call_id.
            with_action call_id (if is_empty call_id then none else action_of rest))
        else throw (not_found "That endpoint does not exist.")
    match_call_route _ = throw (not_found "That endpoint does not exist.")

    unfoldable pub signed_in_route : Exec Dispatch
    signed_in_route = otherwise (first_of account_rows) (
        if at "/api/platform/step-up"
        then step_up_route
        else row_route "POST" admin_org_action
            (segment_behind "/api/platform/organizations/" request.path)
            (row_route "POST" admin_account_action
              (segment_behind "/api/platform/accounts/" request.path)
              (otherwise (first_of client_rows) (
                row_route "PATCH" update_team_member (segment_behind "/api/users/" request.path)
                  (match_call_route (segments_of (split_on b'/' request.path)))))))

  unfoldable pub webhook_route : Exec Dispatch
  webhook_route =
      if str_eq request.method "POST"
      then (enforce (join_text "ip:" request.ip) webhook_rule too_many now >>= λ _.
          pure (public vapi_webhook))
      else pure (method_not_allowed "POST")

  unfoldable pub challenge_route : OpenHandler → Exec Dispatch
  challenge_route handler =
      if str_eq request.method "POST"
      then (enforce (join_text "ip:" request.ip) two_factor_rule
            "Too many code attempts from this connection. Please wait and try again." now
          >>= λ _. pure (public handler))
      else pure (method_not_allowed "POST")

  -- The pruning of the tables that one request in a hundred starts runs behind the answer.
  unfoldable pub behind_session : Exec Dispatch
  behind_session = clear door now request >>= signed_in_route

  unfoldable pub sign_in_route : Exec Dispatch
  sign_in_route = otherwise (first_of sign_in_rows) (
      if at "/api/auth/2fa/verify"
      then challenge_route challenge_verify
      else if at "/api/auth/2fa/resend"
      then challenge_route challenge_resend
      else behind_session)

  unfoldable pub handle_api : Exec Dispatch
  handle_api =
      if at "/api/health"
      then pure (public health)
      else if at "/api/vapi/webhook"
      then webhook_route
      else otherwise (first_of public_rows) (assert_trusted_origin door request >> sign_in_route)
