-- ===== src/GoogleAuth.antt =====
-- app/worker/routes/googleAuth.ts: sign-in with Google, and the first sign-in of a new organization.
pub mod Keeps
pub mod Single
pub mod Vouched
pub mod Opens
mod Tests
use ctf_website.Base.{
  ℕ, ◌+◌, ◌*◌, String, Bool, true, false, not, ◌&&◌, ◌||◌, Option, none, some, List, [], ◌∷◌, ◌++◌,
  str_eq, ltb, if◌then◌else◌, or_else, is_some, find_first, delete_where,
}
use ctf_website.Base.Texts.{present, join_text}
use ctf_website.Schema.{Db, OrgRow, UserRow, OauthStateRow}
use ctf_website.Http.{Exec, pure, throw_if, select, write, ◌>>=◌, ◌>>◌, not_found, try_catch}
use ctf_website.Audit.{write_audit}
use ctf_website.Auth.Session.{NewSession, create_session, org_id_is, user_id_is}
use ctf_website.Auth.Login.{audit_login, set_user, method_text, Drawn}
use ctf_website.TwoFactor.{Started, start_challenge, FactorHost, requires_second_factor}
use ctf_website.Platform.Address.{is_reserved_ctf_address}
use ctf_website.Platform.Batches.{is_blocked_email}
use ctf_website.Signup.{
  SignupPayload, JsonHost, parse_signup_payload, create_pending_organization, NewIds,
}
use ctf_website.Google.{
  GoogleHost, GoogleIdentity, GoogleFailureReason, Failure, google_auth_error, unexpected, Outcome,
  success, failure, google_configured, RequestUrl, redirect_uri_for, AuthorizeUrl,
  build_authorize_url, exchange_code_for_identity,
}

abbrev pub state_ttl_ms : ℕ
state_ttl_ms = 10 * 60 * 1000

abbrev pub state_is : String → OauthStateRow → Bool
state_is state row = str_eq row.state state

unfoldable pub handle_google_start :
    GoogleHost → (now : ℕ) → (state one_time : String) → RequestUrl → Exec AuthorizeUrl
handle_google_start google now state one_time url = do
  throw_if (not (google_configured google))
      (not_found "Google sign-in is not configured for this deployment.")
  write (λ db. record db {
    oauth_states =
        db.oauth_states
        ++ record {
          state = state;
          nonce = one_time;
          created_at = now;
          expires_at = now + state_ttl_ms;
          signup_payload = none;
        }
          ∷ [];
  })
  write (λ db. record db {
    oauth_states = delete_where (λ row. ltb row.expires_at now) db.oauth_states;
  })
  pure (build_authorize_url google state one_time (redirect_uri_for url))

-- The redirects of the callback: to the sign-in screen with a reason, to the second factor, and to
-- the dashboard with a session's cookie.
pub data CallbackReply : Type 0 where
  auth_error : String → CallbackReply
  second_factor : Started → CallbackReply
  signed_in : NewSession → CallbackReply

-- `?error=…&code=…&state=…`
pub record CallbackQuery : Type 0 where
  pub error : Option String
  pub code : Option String
  pub state : Option String

-- What the deployment brings, and the values that a request draws.
pub record GoogleSignIn : Type 0 where
  pub google : GoogleHost
  pub js : JsonHost
  pub factors : FactorHost
  pub drawn : Drawn
  pub ids : NewIds
  pub url : RequestUrl

abbrev pub reason_text : Failure → String
reason_text (google_auth_error GoogleFailureReason.token_exchange) = "google_token_exchange"
reason_text (google_auth_error GoogleFailureReason.token_malformed) = "google_token_malformed"
reason_text (google_auth_error GoogleFailureReason.issuer) = "google_issuer"
reason_text (google_auth_error GoogleFailureReason.audience) = "google_audience"
reason_text (google_auth_error GoogleFailureReason.nonce) = "google_nonce"
reason_text (google_auth_error GoogleFailureReason.expired) = "google_expired"
reason_text (google_auth_error GoogleFailureReason.missing_email) = "google_missing_email"
reason_text unexpected = "google_failed"

-- google_sub = ?1 OR (google_sub IS NULL AND email = ?2)
abbrev pub matches : GoogleIdentity → UserRow → Bool
matches identity user = elim (user.google_sub) [
  | some sub ↦ str_eq sub identity.sub
  | none ↦ str_eq user.email identity.email
]

abbrev pub linked : ℕ → GoogleIdentity → UserRow → UserRow
linked now identity user = record user {
  google_sub = some identity.sub;
  google_linked_at = some now;
  updated_at = now;
}

abbrev pub unflagged : UserRow → UserRow
unflagged user = record user { must_change_password = false }

unfoldable pub if_so : Bool → (Db → Db) → Exec (Unit {0})
if_so true change = write change
if_so false change = pure tt

module _ (host : GoogleSignIn) (now : ℕ) (ip : String) (user_agent : Option String) where
  unfoldable pub open_challenge : UserRow → OrgRow → Exec CallbackReply
  open_challenge user org = do
    started ← start_challenge host.factors now host.drawn.challenge_id host.drawn.digits user
    write_audit
        (record (audit_login user "auth.second_factor_required"
          (some (join_text "google, " (method_text started.method))) ip now) {
            org_id = some org.id;
          })
    pure (second_factor started)

  unfoldable pub open_session : GoogleIdentity → UserRow → OrgRow → Exec CallbackReply
  open_session identity user org = do
    write (set_user user.id (λ row. record row { last_login_at = some now }))
    session ← create_session host.factors.digests now host.drawn.token user.id user_agent ip
    write_audit (record (audit_login user "auth.login.google" (some identity.email) ip now) {
      org_id = some org.id;
    })
    pure (signed_in session)

  unfoldable pub admit : GoogleIdentity → UserRow → Option OrgRow → Exec CallbackReply
  admit identity user none = pure (auth_error "no_org")
  admit identity user (some org) = do
    if_so (not (is_some (present user.google_sub))) (set_user user.id (linked now identity))
    if_so user.must_change_password (set_user user.id unflagged)
    if requires_second_factor user then open_challenge user org else open_session identity user org

  unfoldable pub sign_in : GoogleIdentity → Option UserRow → Exec CallbackReply
  sign_in identity none = pure (auth_error "google_no_account")
  sign_in identity (some user) =
      if user.disabled
      then pure (auth_error "account_disabled")
      else (select (λ db. find_first (org_id_is user.org_id) db.organizations)
          >>= admit identity user)

  unfoldable pub signed_up : GoogleIdentity → Option UserRow → Exec CallbackReply
  signed_up identity (some user) = sign_in identity (some user)
  signed_up identity none = pure (auth_error "signup_failed")

  unfoldable pub sign_up : GoogleIdentity → SignupPayload → Exec CallbackReply
  sign_up identity payload = do
    blocked ← select (is_blocked_email identity.email)
    if is_reserved_ctf_address identity.email || blocked
        then pure (auth_error "signup_refused")
        else (try_catch
              (create_pending_organization host.ids now ip user_agent identity payload >>= λ user.
                pure (some user))
              (λ error. pure none)
            >>= signed_up identity)

  unfoldable pub identified :
      GoogleIdentity → Option UserRow → Option SignupPayload → Exec CallbackReply
  identified identity (some user) payload = sign_in identity (some user)
  identified identity none (some payload) = sign_up identity payload
  identified identity none none = sign_in identity none

  unfoldable pub with_identity : OauthStateRow → Outcome GoogleIdentity → Exec CallbackReply
  with_identity row (failure why) = pure (auth_error (reason_text why))
  with_identity row (success identity) =
      if not identity.email_verified
      then pure (auth_error "google_unverified")
      else (select (λ db. find_first (matches identity) db.users) >>= λ user.
          identified identity user (parse_signup_payload host.js row.signup_payload))

  unfoldable pub redeemed : String → Option OauthStateRow → Exec CallbackReply
  redeemed code none = pure (auth_error "google_expired")
  redeemed code (some row) =
      if ltb row.expires_at now
      then pure (auth_error "google_expired")
      else with_identity row
          (exchange_code_for_identity host.google now code (redirect_uri_for host.url) row.nonce)

  -- DELETE … RETURNING: the row is read and taken out in one statement.
  unfoldable pub redeem : (code state : String) → Exec CallbackReply
  redeem code state = do
    row ← select (λ db. find_first (state_is state) db.oauth_states)
    write (λ db. record db { oauth_states = delete_where (state_is state) db.oauth_states })
    redeemed code row

  unfoldable pub with_code : Option String → Option String → Exec CallbackReply
  with_code (some code) (some state) = redeem code state
  with_code _ _ = pure (auth_error "google_failed")

  abbrev refused_by_google : String → String
  refused_by_google error =
      if str_eq error "access_denied" then "google_cancelled" else "google_failed"

  unfoldable pub unless_error : Option String → CallbackQuery → Exec CallbackReply
  unless_error (some error) query = pure (auth_error (refused_by_google error))
  unless_error none query = with_code (present query.code) (present query.state)

  unfoldable pub handle_google_callback : CallbackQuery → Exec CallbackReply
  handle_google_callback query =
      if not (google_configured host.google)
      then pure (auth_error "google_unavailable")
      else unless_error (present query.error) query
