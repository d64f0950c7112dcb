-- ===== src/Password/Change.antt =====
-- app/worker/routes/auth.ts: `handleChangePassword` and `handleLogout`.
use ctf_website.Base.{
  ℕ, String, Bool, not, ◌&&◌, Option, none, some, str_eq, update_where, delete_where, false,
}
use ctf_website.Schema.{UserRow, SessionRow, AuditRow}
use ctf_website.Http.{Exec, pure, throw, throw_if, write, ◌>>◌, bad_request, unauthorized}
use ctf_website.Audit.{write_audit}
use ctf_website.Auth.{AuthContext}
use ctf_website.Auth.Session.{user_id_is, destroy_session}
use ctf_website.Crypto.Password.{PasswordHost, verify_password}
use ctf_website.Password.{Unicode, password_rejection_message}

abbrev pub audit_own : AuthContext → ℕ → (ip action : String) → AuditRow
audit_own auth now ip action = record {
  org_id = some auth.org.id;
  user_id = some auth.user.id;
  action = action;
  target = none;
  detail = none;
  ip = some ip;
  created_at = now;
}

unfoldable pub handle_logout : (now : ℕ) → (ip : String) → AuthContext → Exec (Unit {0})
handle_logout now ip auth = do
  destroy_session auth.session_id
  write_audit (audit_own auth now ip "auth.logout")

abbrev pub changed_password : ℕ → String → UserRow → UserRow
changed_password now hash user = record user {
  password_hash = hash;
  must_change_password = false;
  updated_at = now;
}

-- The user's sessions but for the one of the request.
abbrev pub other_sessions : AuthContext → SessionRow → Bool
other_sessions auth session =
    str_eq session.user_id auth.user.id && not (str_eq session.id auth.session_id)

abbrev pub refuse_password : Option String → Exec (Unit {0})
refuse_password none = pure tt
refuse_password (some message) = throw (bad_request message)

unfoldable pub handle_change_password :
    PasswordHost
    → Unicode
    → (iterations : Option ℕ) → (now : ℕ) → (ip : String) → AuthContext
    → (current_password new_password : String) → Exec (Unit {0})
handle_change_password passwords unicode iterations now ip auth current_password new_password = do
  throw_if (not (verify_password passwords current_password auth.user.password_hash))
      (unauthorized "Your current password is not correct.")
  refuse_password (password_rejection_message unicode new_password)
  throw_if (str_eq new_password current_password)
      (bad_request "Choose a password you have not used here before.")
  write (λ db. record db {
    users =
        update_where (user_id_is auth.user.id)
          (changed_password now (passwords.hash_password new_password iterations)) db.users;
    sessions = delete_where (other_sessions auth) db.sessions;
  })
  write_audit (audit_own auth now ip "auth.password_changed")
