-- ===== src/Auth/Login.antt =====
-- app/worker/routes/auth.ts: sign-in by password, sign-out, and the change of a password.
mod Tests
pub mod Sessions
use ctf_website.Audit.{write_audit}
use ctf_website.Auth.Session.{org_id_is, NewSession, create_session, user_id_is}
use ctf_website.Auth.Limiter.{
  record_login_attempt, assert_login_allowed, is_limited, too_many_sign_ins,
}
use ctf_website.Base.Texts.{present, to_lower, trim, is_empty}
use ctf_website.TwoFactor.{Started, start_challenge, FactorHost, requires_second_factor}
use ctf_website.Crypto.Password.{PasswordHost, verify_password, needs_rehash}
use ctf_website.Schema.{TwoFactorMethod, UserRow, OrgRow, Db, AuditRow}
use ctf_website.Base.{
  ℕ, suc, zero, ◌+◌, ◌-◌, ◌*◌, ◌/◌, ◌%◌, ◌≤◌, ◌<◌, min, max, ◌≡◌, ◌≢◌, ◌↔◌, ◌⊎◌, inl, inr, refl,
  sym, ap, subst, String, Bool, true, false, not, ◌&&◌, ◌||◌, Option, none, some, List, [], ◌∷◌,
  ◌++◌, map, arith, eq_iff, eq_refl, ltb, leb, ◌==◌, if◌then◌else◌, Bool-cases, Option-cases,
  coalesce, or_else, is_some, str_eq, length, All, find_first, update_where, delete_where,
  filter_where, count_where,
}
use ctf_website.Http.{
  Exec, Result, ok, err, pure, throw, throw_if, require, select, write, lift, ◌>>=◌, ◌>>◌,
  HttpError, unauthorized, bad_request, exec,
}

-- What the deployment brings, and the values that a request draws: the ids of a session's token and
-- of a challenge, and the digits of a code.
pub record SignInHost : Type 0 where
  pub passwords : PasswordHost
  pub factors : FactorHost
  pub iterations : Option ℕ

pub record Drawn : Type 0 where
  pub token : String
  pub challenge_id : String
  pub digits : String

pub data LoginReply : Type 0 where
  second_factor : Started → LoginReply
  signed_in_as : UserRow → OrgRow → NewSession → LoginReply

abbrev pub email_is : String → UserRow → Bool
email_is address user = str_eq user.email address

abbrev pub no_match : HttpError
no_match = unauthorized "That email address and password do not match."

abbrev pub audit_login : UserRow → (action : String) → Option String → (ip : String) → ℕ → AuditRow
audit_login user action detail ip now = record {
  org_id = some user.org_id;
  user_id = some user.id;
  action = action;
  target = none;
  detail = detail;
  ip = some ip;
  created_at = now;
}

abbrev pub set_user : String → (UserRow → UserRow) → Db → Db
set_user id change db = record db { users = update_where (user_id_is id) change db.users }

abbrev pub method_text : TwoFactorMethod → String
method_text TwoFactorMethod.off = "none"
method_text TwoFactorMethod.totp = "totp"
method_text TwoFactorMethod.email = "email"

module _ (host : SignInHost) (now : ℕ) (drawn : Drawn) (ip : String)
    (user_agent : Option String) where
  unfoldable pub upgrade_hash : Bool → String → UserRow → Exec (Unit {0})
  upgrade_hash false password user = pure tt
  upgrade_hash true password user = write (
      set_user user.id (λ row. record row {
        password_hash = host.passwords.hash_password password host.iterations;
        updated_at = now;
      }))

  unfoldable pub open_challenge : UserRow → Exec LoginReply
  open_challenge user = do
    started ← start_challenge host.factors now drawn.challenge_id drawn.digits user
    write_audit
        (audit_login user "auth.second_factor_required" (some (method_text started.method)) ip now)
    pure (second_factor started)

  unfoldable pub open_session : UserRow → OrgRow → Exec LoginReply
  open_session user org = do
    write (set_user user.id (λ row. record row { last_login_at = some now }))
    session ← create_session host.factors.digests now drawn.token user.id user_agent ip
    write_audit (audit_login user "auth.login" none ip now)
    pure (signed_in_as user org session)

  unfoldable pub admit : (email password : String) → UserRow → Exec LoginReply
  admit email password user = do
    found ← select (λ db. find_first (org_id_is user.org_id) db.organizations)
    org ← require found (unauthorized "Your account is not linked to a business yet.")
    upgrade_hash (needs_rehash host.passwords user.password_hash host.iterations) password user
    record_login_attempt now email ip true
    if requires_second_factor user then open_challenge user else open_session user org

  unfoldable pub refuse : String → Exec LoginReply
  refuse email = do record_login_attempt now email ip false; throw no_match

  unfoldable pub judge : (email password : String) → Option UserRow → Exec LoginReply
  judge email password none = refuse email
  judge email password (some user) =
      if verify_password host.passwords password user.password_hash && not user.disabled
      then admit email password user
      else refuse email

  unfoldable pub handle_login : (email password : Option String) → Exec LoginReply
  handle_login email password = do
    address ←
        require (present (some (to_lower (trim (or_else email "")))))
          (bad_request "Enter your email address and password.")
    secret ← require (present password) (bad_request "Enter your email address and password.")
    assert_login_allowed now address ip
    user ← select (λ db. find_first (email_is address) db.users)
    judge address secret user

-- Once the failed sign-ins for an address or from an IP address have reached their limit, every
-- further one is refused, whatever the password, and changes nothing.
pub handle_login_limited :
    (host : SignInHost) (now : ℕ) (drawn : Drawn) (ip : String) (user_agent : Option String)
    (email password : String) (db : Db)
    → is_empty (to_lower (trim email)) ≡ false
    → is_empty password ≡ false
    → is_limited now (to_lower (trim email)) ip db ≡ true
    → handle_login host now drawn ip user_agent (some email) (some password) db
      ≡ (err too_many_sign_ins, db)
unfolding handle_login assert_login_allowed exec
handle_login_limited host now drawn ip user_agent email password db named typed limited =
    rw named (rw typed (rw limited refl))
