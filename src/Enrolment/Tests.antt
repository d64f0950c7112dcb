-- ===== src/Enrolment/Tests.antt =====
-- A second factor by mail, and one by an authenticator app, that are switched off.
use ctf_website.Base.{◌≡◌, refl, true, some, [], ◌∷◌, update_where, delete_where}
use ctf_website.Schema.{Db, UserRow, TwoFactorMethod}
use ctf_website.Http.{exec, ok}
use ctf_website.Audit.{write_audit}
use ctf_website.Auth.{AuthContext}
use ctf_website.TwoFactor.{method_for}
use ctf_website.Enrolment.{EnrolmentHost, handle_two_factor_disable, prove, switch_off}
use ctf_website.Enrolment.Proof.{Answers, handle_two_factor_disable-Answers}
use ctf_website.Samples.{naledi, naledi_auth, clinic_db, factor_host}

abbrev with_app : UserRow
with_app = record naledi {
  two_factor_method = TwoFactorMethod.totp;
  totp_secret = some "secret";
  totp_confirmed_at = some 1000;
}

abbrev app_auth : AuthContext
app_auth = record naledi_auth { user = with_app }

abbrev app_db : Db
app_db = record clinic_db { users = with_app ∷ [] }

abbrev enrolment : EnrolmentHost
enrolment = record {
  factors = factor_host;
  encryption_configured = true;
  email_configured = true;
  encrypt_secret = λ s. s;
  secret = "secret";
  backup_codes = "abcdefghij" ∷ [];
}

-- The factor by mail goes with an empty code.
abbrev mail_auth : AuthContext
mail_auth = record naledi_auth {
  user = record naledi { two_factor_method = TwoFactorMethod.email };
}

mail_off_test : (handle_two_factor_disable enrolment 90000 "::1" mail_auth "" clinic_db).0 ≡ ok tt
unfolding handle_two_factor_disable prove switch_off method_for write_audit exec update_where
    delete_where
mail_off_test = refl

handle_two_factor_disable-Answers_example :
    Answers enrolment 90000 "::1" app_auth "000001" app_db
      (handle_two_factor_disable enrolment 90000 "::1" app_auth "000001" app_db)
handle_two_factor_disable-Answers_example =
    handle_two_factor_disable-Answers enrolment 90000 "::1" app_auth "000001" app_db
