-- ===== src/Routing.antt =====
-- app/worker/index.ts: who gets past the door. The handlers behind it are named, and a request ends
-- in the choice of one.
pub mod Table
pub mod Gates
pub mod Cleared
mod Tests
use ctf_website.Base.{
  ℕ, ◌*◌, String, Bool, true, false, not, ◌&&◌, ◌||◌, Option, none, some, List, [], ◌∷◌, str_eq,
  if◌then◌else◌,
}
use ctf_website.Base.Texts.{present, trim, split_on, starts_with, is_empty, join_text}
use ctf_website.Schema.{Db, UserRow, OrgRow, OrgStatus, PlatformRole, TwoFactorMethod}
use ctf_website.Http.{Exec, pure, throw_if, require, select, ◌>>=◌, ◌>>◌, forbidden, not_found}
use ctf_website.Crypto.{Digests}
use ctf_website.RateLimit.{RateLimitRule, enforce}
use ctf_website.Auth.{AuthContext}
use ctf_website.Auth.Session.{require_auth}
use ctf_website.TwoFactor.{method_for}
use ctf_website.Signup.Terms.{has_current_consent}

abbrev pub read_rule : RateLimitRule
read_rule = record { name = "read"; limit = 600; window_ms = 60000 }

abbrev pub write_rule : RateLimitRule
write_rule = record { name = "write"; limit = 60; window_ms = 60000 }

abbrev pub webhook_rule : RateLimitRule
webhook_rule = record { name = "webhook"; limit = 3000; window_ms = 60000 }

abbrev pub too_many : String
too_many = "Too many requests. Please slow down and try again shortly."

-- `userId ? `u:${userId}` : `ip:${ip}``
abbrev pub subject_for : Option String → String → String
subject_for user_id ip = elim (present user_id) [
  | some id ↦ join_text "u:" id
  | none ↦ join_text "ip:" ip
]

-- The method is in capitals; the runtime hands over GET and HEAD so. The token is the session's
-- cookie, the own origin that of the request's address.
pub record Request : Type 0 where
  pub method : String
  pub path : String
  pub cookie : Option String
  pub origin : Option String
  pub own_origin : String
  pub ip : String

-- What the deployment brings: ALLOWED_ORIGINS, digests, decodeURIComponent (none where it throws).
pub record Door : Type 0 where
  pub allowed_origins : String
  pub digests : Digests
  pub decode_uri_component : String → Option String

abbrev pub lists : List String → String → Bool
lists [] path = false
lists (entry ∷ entries) path = str_eq entry path || lists entries path

abbrev origins_of : List String → List String
origins_of [] = []
origins_of (part ∷ parts) =
    let rest = origins_of parts in if is_empty (trim part) then rest else trim part ∷ rest

unfoldable pub allowed_origins : Door → List String
allowed_origins door = origins_of (split_on b',' door.allowed_origins)

abbrev pub is_read : Request → Bool
is_read request = str_eq request.method "GET" || str_eq request.method "HEAD"

abbrev trusts : Door → Request → String → Bool
trusts door request origin = str_eq origin request.own_origin || lists (allowed_origins door) origin

abbrev pub with_origin : Door → Request → Option String → Exec (Unit {0})
with_origin door request none = throw_if true (forbidden "Missing origin header.")
with_origin door request (some origin) =
    throw_if (not (trusts door request origin)) (forbidden "Request origin is not allowed.")

unfoldable pub assert_trusted_origin : Door → Request → Exec (Unit {0})
assert_trusted_origin door request =
    if is_read request then pure tt else with_origin door request (present request.origin)

abbrev pub password_rotation_allowlist : List String
password_rotation_allowlist =
    "/api/me" ∷ "/api/auth/password" ∷ "/api/auth/logout" ∷ "/api/auth/accept-terms" ∷ []

abbrev pub inactive_org_allowlist : List String
inactive_org_allowlist = "/api/me" ∷ "/api/auth/logout" ∷ "/api/auth/accept-terms" ∷ []

abbrev pub admin_setup_allowlist : List String
admin_setup_allowlist =
    "/api/me" ∷ "/api/auth/logout" ∷ "/api/auth/accept-terms" ∷ "/api/auth/password"
    ∷ "/api/auth/2fa" ∷ "/api/auth/2fa/totp/start" ∷ "/api/auth/2fa/totp/confirm"
    ∷ "/api/auth/2fa/backup-codes" ∷ []

abbrev pub consent_allowlist : List String
consent_allowlist = "/api/me" ∷ "/api/auth/logout" ∷ "/api/auth/accept-terms" ∷ []

abbrev pub is_platform_admin : UserRow → Bool
is_platform_admin user = elim (user.platform_role) [
  | PlatformRole.ctf_admin ↦ true
  | PlatformRole.no_role ↦ false
]

abbrev pub has_active_status : OrgRow → Bool
has_active_status org = elim (org.status) [
  | OrgStatus.active ↦ true
  | OrgStatus.pending ↦ false
  | OrgStatus.suspended ↦ false
]

abbrev standing_message : OrgRow → String
standing_message org = elim (org.status) [
  | OrgStatus.pending ↦ "Your account is waiting to be activated by Cut Through Faster."
  | OrgStatus.active ↦ "This account has been suspended. Please contact Cut Through Faster."
  | OrgStatus.suspended ↦ "This account has been suspended. Please contact Cut Through Faster."
]

abbrev pub has_totp : TwoFactorMethod → Bool
has_totp TwoFactorMethod.totp = true
has_totp method = false

unfoldable pub past_role : AuthContext → String → Exec (Unit {0})
past_role auth path =
    if is_platform_admin auth.user
    then (throw_if (not (has_totp (method_for auth.user)) && not (lists admin_setup_allowlist path))
          (forbidden "Set up an authenticator app before using the CTF console.")
        >> throw_if
            (not (lists admin_setup_allowlist path) && not (starts_with "/api/platform/" path))
            (not_found "That endpoint does not exist."))
    else throw_if (auth.org.is_platform && not (lists ("/api/me" ∷ "/api/auth/logout" ∷ []) path))
        (forbidden "This login has no access. CTF accounts are admin accounts only.")

-- From `requireAuth` to the last gate.
unfoldable pub past_gates : Door → ℕ → Request → AuthContext → Exec AuthContext
past_gates door now request auth = do
  _ ←
      enforce (subject_for (some auth.user.id) request.ip)
        (if str_eq request.method "GET" then read_rule else write_rule) too_many now
  throw_if (auth.user.must_change_password && not (lists password_rotation_allowlist request.path))
      (forbidden "Please choose a new password before continuing.")
  throw_if
      (not (is_platform_admin auth.user)
        && not (has_active_status auth.org)
        && not (lists inactive_org_allowlist request.path))
      (forbidden (standing_message auth.org))
  consent ← select (has_current_consent auth.user.id)
  throw_if (not (lists consent_allowlist request.path) && not consent)
      (forbidden "Please accept the updated terms and privacy policy to continue.")
  past_role auth request.path
  pure auth

unfoldable pub clear : Door → ℕ → Request → Exec AuthContext
clear door now request =
    require_auth door.digests now request.cookie >>= past_gates door now request
