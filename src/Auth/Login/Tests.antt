-- ===== src/Auth/Login/Tests.antt =====
-- A sign-in with the right password, and one when the limit has been reached.
use ctf_website.Auth.Limiter.{too_many_sign_ins}
use ctf_website.Auth.Login.{handle_login, handle_login_limited}
use ctf_website.Samples.{sign_in_host, clinic_db, drawn}
use ctf_website.Auth.Login.Sessions.{Opens, handle_login-Opens}
use ctf_website.Base.Texts.{to_lower, trim, trim_start, trim_end, is_space}
use ctf_website.Schema.{Db, LoginAttemptRow}
use ctf_website.Base.{ℕ, ◌≡◌, refl, false, none, some, [], ◌∷◌, count_where}
use ctf_website.Http.{err}

handle_login-Opens_example :
    Opens sign_in_host
      (to_lower (trim " Naledi@clinic.co.za "))
      "secret"
      clinic_db
      (handle_login sign_in_host 1000 drawn "::1" none
        (some " Naledi@clinic.co.za ")
        (some "secret")
        clinic_db).1
handle_login-Opens_example =
    handle_login-Opens sign_in_host 1000 drawn "::1" none " Naledi@clinic.co.za " "secret" clinic_db

abbrev failure : ℕ → LoginAttemptRow
failure at = record {
  email = "naledi@clinic.co.za";
  ip = "::2";
  successful = false;
  created_at = at;
}

abbrev guessed_db : Db
guessed_db = record clinic_db {
  login_attempts = failure 1000 ∷ failure 2000 ∷ failure 3000 ∷ failure 4000 ∷ failure 5000 ∷ [];
}

handle_login_limited_example :
    handle_login sign_in_host 70000 drawn "::1" none
      (some "Naledi@clinic.co.za")
      (some "secret")
      guessed_db
    ≡ (err too_many_sign_ins, guessed_db)
unfolding to_lower trim trim_start trim_end is_space count_where
handle_login_limited_example =
    handle_login_limited sign_in_host 70000 drawn "::1" none "Naledi@clinic.co.za" "secret"
      guessed_db refl refl refl
