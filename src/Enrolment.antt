-- ===== src/Enrolment.antt =====
-- app/worker/routes/twoFactor.ts: a second factor is set up and switched off.
pub mod Proof
mod Tests
use ctf_website.Base.{
  ℕ, String, Bool, true, false, not, Option, none, some, List, map, if◌then◌else◌, update_where,
  delete_where, str_eq, is_some,
}
use ctf_website.Base.Texts.{present}
use ctf_website.Schema.{Db, UserRow, AuditRow, TwoFactorMethod}
use ctf_website.Http.{
  Exec, pure, throw, throw_if, require, select, write, lift, ◌>>=◌, ◌>>◌, bad_request, forbidden,
  not_found,
}
use ctf_website.Audit.{write_audit}
use ctf_website.Auth.{AuthContext}
use ctf_website.Auth.Session.{user_id_is}
use ctf_website.Totp.{verify_totp, TotpVerification}
use ctf_website.TwoFactor.{FactorHost, method_for, is_off}
use ctf_website.TwoFactor.Backup.{replace_backup_codes, consume_backup_code}
use ctf_website.Routing.{is_platform_admin, has_totp}

-- What the deployment brings, and the secret and the backup codes that a request draws.
pub record EnrolmentHost : Type 0 where
  pub factors : FactorHost
  pub encryption_configured : Bool
  pub email_configured : Bool
  pub encrypt_secret : String → String
  pub secret : String
  pub backup_codes : List String

abbrev pub audited : AuthContext → ℕ → (ip action : String) → Option String → AuditRow
audited auth now ip action detail = record {
  org_id = some auth.org.id;
  user_id = some auth.user.id;
  action = action;
  target = some auth.user.id;
  detail = detail;
  ip = some ip;
  created_at = now;
}

abbrev pub pending_secret : ℕ → String → UserRow → UserRow
pending_secret now stored user = record user {
  totp_secret = some stored;
  totp_confirmed_at = none;
  updated_at = now;
}

abbrev pub confirmed : ℕ → Option ℕ → UserRow → UserRow
confirmed now counter user = record user {
  two_factor_method = TwoFactorMethod.totp;
  totp_confirmed_at = some now;
  totp_last_counter = counter;
  updated_at = now;
}

abbrev pub by_email : ℕ → UserRow → UserRow
by_email now user = record user { two_factor_method = TwoFactorMethod.email; updated_at = now }

abbrev pub switched_off : ℕ → UserRow → UserRow
switched_off now user = record user {
  two_factor_method = TwoFactorMethod.off;
  totp_secret = none;
  totp_confirmed_at = none;
  totp_last_counter = none;
  updated_at = now;
}

abbrev used_message : String
used_message = "That code has already been used. Wait for the next one."

abbrev pub method_word : TwoFactorMethod → String
method_word TwoFactorMethod.off = "none"
method_word TwoFactorMethod.totp = "totp"
method_word TwoFactorMethod.email = "email"

module _ (host : EnrolmentHost) (now : ℕ) (ip : String) (auth : AuthContext) where
  abbrev pub change_own : (UserRow → UserRow) → Exec (Unit {0})
  change_own change =
      write (λ db. record db { users = update_where (user_id_is auth.user.id) change db.users })

  abbrev pub code_hashes : List String
  code_hashes = map host.factors.digests.sha256_hex host.backup_codes

  unfoldable pub handle_totp_enroll_start : Exec String
  handle_totp_enroll_start = do
    throw_if (not host.encryption_configured)
        (not_found "Two-factor authentication is not available on this deployment yet.")
    throw_if (has_totp (method_for auth.user))
        (bad_request "An authenticator app is already set up. Turn it off first to re-enrol.")
    change_own (pending_secret now (host.encrypt_secret host.secret))
    write_audit (audited auth now ip "2fa.totp.enroll_started" none)
    pure host.secret

  unfoldable pub handle_totp_enroll_confirm : (code : String) → Exec (List String)
  handle_totp_enroll_confirm code = do
    stored ←
        require (present auth.user.totp_secret)
          (bad_request "Start setting up your authenticator app first.")
    secret ← lift (host.factors.decrypt_secret stored)
    let result = verify_totp host.factors.mac secret code now none
    throw_if (not result.valid) (
        bad_request (
          if result.reused
          then used_message
          else "That code is not correct. Check your app and try again."))
    change_own (confirmed now result.counter)
    replace_backup_codes now auth.user.id code_hashes
    write_audit (audited auth now ip "2fa.enabled" (some "authenticator app"))
    pure host.backup_codes

  unfoldable pub handle_email_factor_enable : Exec (List String)
  handle_email_factor_enable = do
    throw_if (is_platform_admin auth.user)
        (forbidden "CTF admin accounts must use an authenticator app.")
    throw_if (not host.email_configured)
        (not_found "Email codes are not available on this deployment yet.")
    throw_if (has_totp (method_for auth.user))
        (bad_request "You already use an authenticator app, which is stronger than email codes.")
    change_own (by_email now)
    replace_backup_codes now auth.user.id code_hashes
    write_audit (audited auth now ip "2fa.enabled" (some "email codes"))
    pure host.backup_codes

  -- A backup code will do where the app's code does not.
  unfoldable pub prove_by : (code : String) → TotpVerification → Exec (Unit {0})
  prove_by code result =
      if result.valid
      then pure tt
      else (consume_backup_code host.factors.digests now ip auth.user code >>= λ spent.
          throw_if (not spent)
            (bad_request (if result.reused then used_message else "That code is not correct.")))

  unfoldable pub prove_by_app : (code : String) → Option String → Exec (Unit {0})
  prove_by_app code none = throw (bad_request "There is no authenticator app to turn off.")
  prove_by_app code (some stored) = do
    secret ← lift (host.factors.decrypt_secret stored)
    prove_by code (verify_totp host.factors.mac secret code now auth.user.totp_last_counter)

  unfoldable pub prove : (code : String) → TwoFactorMethod → Exec (Unit {0})
  prove code TwoFactorMethod.totp = prove_by_app code (present auth.user.totp_secret)
  prove code TwoFactorMethod.email = pure tt
  prove code TwoFactorMethod.off = pure tt

  unfoldable pub switch_off : Exec (Unit {0})
  switch_off = do
    write (λ db. record db {
      users = update_where (user_id_is auth.user.id) (switched_off now) db.users;
      backup_codes = delete_where (λ row. str_eq row.user_id auth.user.id) db.backup_codes;
    })
    write_audit (audited auth now ip "2fa.disabled" (some (method_word (method_for auth.user))))

  unfoldable pub handle_two_factor_disable : (code : String) → Exec (Unit {0})
  handle_two_factor_disable code = do
    throw_if (is_platform_admin auth.user)
        (forbidden "Two-factor sign-in cannot be turned off on a CTF admin account.")
    throw_if (is_off (method_for auth.user))
        (bad_request "Two-factor authentication is not switched on.")
    prove code (method_for auth.user)
    switch_off

  unfoldable pub handle_regenerate_backup_codes : Exec (List String)
  handle_regenerate_backup_codes = do
    throw_if (is_off (method_for auth.user))
        (bad_request "Backup codes are only useful once two-factor is switched on.")
    replace_backup_codes now auth.user.id code_hashes
    write_audit (audited auth now ip "2fa.backup_codes_regenerated" none)
    pure host.backup_codes
