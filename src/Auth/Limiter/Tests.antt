-- ===== src/Auth/Limiter/Tests.antt =====
-- Five failed sign-ins, and the housekeeping a minute later.
use ctf_website.Samples.{clinic_db}
use ctf_website.Schema.{Db, LoginAttemptRow}
use ctf_website.Auth.Limiter.{is_limited, prune_expired, is_limited-prune_expired}
use ctf_website.Base.{ℕ, ◌≡◌, false, [], ◌∷◌, arith}

abbrev failure : ℕ → LoginAttemptRow
failure at = record {
  email = "naledi@clinic.co.za";
  ip = "::1";
  successful = false;
  created_at = at;
}

abbrev pub guessed_db : Db
guessed_db = record clinic_db {
  login_attempts = failure 1000 ∷ failure 2000 ∷ failure 3000 ∷ failure 4000 ∷ failure 5000 ∷ [];
}

is_limited-prune_expired_example :
    is_limited 70000 "naledi@clinic.co.za" "::1" (prune_expired 65000 guessed_db).1
    ≡ is_limited 70000 "naledi@clinic.co.za" "::1" guessed_db
is_limited-prune_expired_example =
    is_limited-prune_expired 65000 70000 "naledi@clinic.co.za" "::1" guessed_db (omega arith)
