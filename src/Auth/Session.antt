-- ===== src/Auth/Session.antt =====
-- Sessions (app/worker/lib/auth.ts, app/worker/lib/platform.ts): their lifetimes, their creation,
-- and the check in front of every signed-in request. The token is the value of the session cookie.
pub mod Admission
mod Tests
use ctf_website.Base.Texts.{present}
use ctf_website.Schema.{
  OrgRow, SessionRow, PlatformHold, PlatformRole, Db, UserRow, no_role, ctf_admin, hold_blocked,
}
use ctf_website.Crypto.{Digests}
use ctf_website.Auth.{AuthContext}
use ctf_website.Base.{
  ℕ, suc, zero, ◌+◌, ◌-◌, ◌*◌, ◌/◌, ◌%◌, ◌≤◌, ◌<◌, min, max, ◌≡◌, ◌≢◌, ◌↔◌, ◌⊎◌, inl, inr, refl,
  sym, ap, subst, String, Bool, true, false, not, ◌&&◌, ◌||◌, Option, none, some, List, [], ◌∷◌,
  ◌++◌, map, arith, eq_iff, eq_refl, ltb, leb, ◌==◌, if◌then◌else◌, Bool-cases, Option-cases,
  coalesce, or_else, is_some, str_eq, length, All, find_first, update_where, delete_where,
  filter_where, count_where, OnSome, some_inj, find_first_sound, ◌∙◌, if_cases,
}
use ctf_website.Http.{
  Exec, Result, ok, err, pure, throw, throw_if, require, select, write, lift, ◌>>=◌, ◌>>◌,
  unauthorized, exec,
}

abbrev pub admin_idle_ttl_ms : ℕ
admin_idle_ttl_ms = 30 * 60 * 1000

abbrev pub admin_absolute_ttl_ms : ℕ
admin_absolute_ttl_ms = 12 * 60 * 60 * 1000

abbrev pub idle_ttl_ms : ℕ
idle_ttl_ms = 12 * 60 * 60 * 1000

abbrev pub absolute_ttl_ms : ℕ
absolute_ttl_ms = 30 * 24 * 60 * 60 * 1000

pub record Limits : Type 0 where
  pub idle : ℕ
  pub absolute : ℕ

unfoldable pub session_limits : PlatformRole → Limits
session_limits ctf_admin = record { idle = admin_idle_ttl_ms; absolute = admin_absolute_ttl_ms }
session_limits no_role = record { idle = idle_ttl_ms; absolute = absolute_ttl_ms }

abbrev pub session_id_is : String → SessionRow → Bool
session_id_is id session = str_eq session.id id

abbrev pub user_id_is : String → UserRow → Bool
user_id_is id user = str_eq user.id id

abbrev pub org_id_is : String → OrgRow → Bool
org_id_is id org = str_eq org.id id

abbrev pub role_of : Option UserRow → PlatformRole
role_of none = no_role
role_of (some user) = user.platform_role

pub record NewSession : Type 0 where
  pub token : String
  pub max_age_seconds : ℕ

abbrev pub new_session :
    Digests → ℕ → (token user_id : String) → Option String → String → Option UserRow → SessionRow
new_session digests now token user_id user_agent ip who = record {
  id = digests.sha256_hex token;
  user_id = user_id;
  created_at = now;
  expires_at = now + (session_limits (role_of who)).idle;
  last_seen_at = some now;
  user_agent = user_agent;
  ip = ip;
  stepped_up_until = none;
}

-- The alert that an administrator is mailed of a sign-in changes no state.
unfoldable pub create_session :
    Digests
    → (now : ℕ) → (token user_id : String) → (user_agent : Option String) → (ip : String)
    → Exec NewSession
create_session digests now token user_id user_agent ip = do
  who ← select (λ db. find_first (user_id_is user_id) db.users)
  write (λ db. record db {
    sessions = db.sessions ++ new_session digests now token user_id user_agent ip who ∷ [];
  })
  pure (record { token = token; max_age_seconds = (session_limits (role_of who)).idle / 1000 })

unfoldable pub destroy_session : String → Exec (Unit {0})
destroy_session id =
    write (λ db. record db { sessions = delete_where (session_id_is id) db.sessions })

-- The row of sessions JOIN users JOIN organizations.
pub record SignedIn : Type 0 where
  pub session : SessionRow
  pub user : UserRow
  pub org : OrgRow

abbrev pub with_org : SessionRow → UserRow → Option OrgRow → Option SignedIn
with_org session user none = none
with_org session user (some org) = some (record { session = session; user = user; org = org })

abbrev pub with_user : SessionRow → List OrgRow → Option UserRow → Option SignedIn
with_user session orgs none = none
with_user session orgs (some user) = with_org session user (find_first (org_id_is user.org_id) orgs)

abbrev pub with_session : Db → Option SessionRow → Option SignedIn
with_session db none = none
with_session db (some session) =
    with_user session db.organizations (find_first (user_id_is session.user_id) db.users)

unfoldable pub signed_in : String → Db → Option SignedIn
signed_in id db = with_session db (find_first (session_id_is id) db.sessions)

abbrev pub disabled_message : Option PlatformHold → String
disabled_message (some hold_blocked) = "This account has been closed by Cut Through Faster."
disabled_message hold = "This account has been disabled."

abbrev pub is_expired : ℕ → SignedIn → Bool
is_expired now row =
    leb row.session.expires_at now
    || leb (row.session.created_at + (session_limits row.user.platform_role).absolute) now

abbrev pub must_slide : ℕ → SignedIn → Bool
must_slide now row =
    let idle = (session_limits row.user.platform_role).idle in
    ltb 60000 (now - or_else row.session.last_seen_at 0)
    || (ltb (2 * (row.session.expires_at - now)) idle || ltb idle (row.session.expires_at - now))

abbrev pub slid : (now idle : ℕ) → SessionRow → SessionRow
slid now idle session = record session { last_seen_at = some now; expires_at = now + idle }

unfoldable pub slide : Bool → ℕ → String → SignedIn → Exec (Unit {0})
slide false now id row = pure tt
slide true now id row = write (λ db. record db {
  sessions =
      update_where (session_id_is id) (slid now (session_limits row.user.platform_role).idle)
        db.sessions;
})

abbrev pub context_of : String → SignedIn → AuthContext
context_of id row = record {
  user = row.user;
  org = row.org;
  session_id = id;
  stepped_up_until = row.session.stepped_up_until;
}

unfoldable pub check_session : ℕ → String → SignedIn → Exec AuthContext
check_session now id row =
    if is_expired now row
    then (destroy_session id >> throw (unauthorized "Your session has expired."))
    else if row.user.disabled
    then (destroy_session id >> throw (unauthorized (disabled_message row.user.platform_hold)))
    else (slide (must_slide now row) now id row >> pure (context_of id row))

unfoldable pub require_auth : Digests → ℕ → Option String → Exec AuthContext
require_auth digests now cookie = do
  token ← require (present cookie) (unauthorized "You are not signed in.")
  found ← select (signed_in (digests.sha256_hex token))
  row ← require found (unauthorized "Your session has expired.")
  check_session now (digests.sha256_hex token) row
