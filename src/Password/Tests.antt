-- ===== src/Password/Tests.antt =====
-- An owner whose password is its own hash, and who changes it.
use ctf_website.Base.{
  String, refl, true, none, some, [], ◌∷◌, update_where, delete_where, filter_where,
}
use ctf_website.Base.Texts.{split_on}
use ctf_website.Schema.{Db, UserRow, SessionRow}
use ctf_website.Http.{exec}
use ctf_website.Audit.{write_audit}
use ctf_website.Auth.{AuthContext}
use ctf_website.Crypto.{timing_safe_equal}
use ctf_website.Crypto.Password.{verify_password}
use ctf_website.Password.{Unicode, is_met, check_password, password_rejection_message}
use ctf_website.Password.Change.{handle_change_password}
use ctf_website.Password.Changed.{IsChanged, handle_change_password-IsChanged}
use ctf_website.Samples.{naledi, naledi_auth, clinic_db, sign_in_host}

abbrev holder : UserRow
holder = record naledi { password_hash = "pbkdf2$sha256$210000$salt$old" }

abbrev holder_auth : AuthContext
holder_auth = record naledi_auth { user = holder }

abbrev session_named : String → SessionRow
session_named id = record {
  id = id;
  user_id = "usr_1";
  created_at = 1000;
  expires_at = 43201000;
  last_seen_at = some 1000;
  user_agent = none;
  ip = "::1";
  stepped_up_until = none;
}

abbrev holder_db : Db
holder_db = record clinic_db {
  users = holder ∷ [];
  sessions = session_named "ses_1" ∷ session_named "ses_2" ∷ [];
}

abbrev every_class : Unicode
every_class = record {
  count_points = λ s. 9;
  has_lower = λ s. true;
  has_upper = λ s. true;
  has_number = λ s. true;
  has_symbol = λ s. true;
}

abbrev changed_db : Db
changed_db =
    (handle_change_password sign_in_host.passwords every_class none 2000 "::1" holder_auth "old"
      "Passw0rd!" holder_db).1

handle_change_password-IsChanged_example :
    IsChanged sign_in_host.passwords every_class none 2000 "::1" holder_auth "old" "Passw0rd!"
      holder_db changed_db
unfolding handle_change_password password_rejection_message check_password is_met verify_password
    timing_safe_equal split_on write_audit exec update_where delete_where filter_where
handle_change_password-IsChanged_example =
    handle_change_password-IsChanged sign_in_host.passwords every_class none 2000 "::1" holder_auth
      "old" "Passw0rd!" holder_db changed_db refl
