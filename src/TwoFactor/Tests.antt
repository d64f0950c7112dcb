-- ===== src/TwoFactor/Tests.antt =====
-- A backup code that is typed three times.
use ctf_website.Samples.{clinic_db, plain_digests, naledi}
use ctf_website.Schema.{Db}
use ctf_website.Base.Texts.{remove, to_lower, trim}
use ctf_website.Http.{exec}
use ctf_website.TwoFactor.Backup.{consume_backup_code, spend, spend_first}
use ctf_website.TwoFactor.Backup.Once.{
  Attempt, accepted, asked, stored_copies, consume_backup_code_accepts,
}
use ctf_website.Base.{refl, String, List, min, find_first, ◌≡◌, none, [], ◌∷◌}

abbrev coded_db : Db
coded_db = record clinic_db {
  backup_codes =
      record {
        user_id = "usr_1";
        code_hash = "bcdfghjkmn";
        created_at = 1000;
        used_at = none;
        used_ip = none;
      }
      ∷ [];
}

abbrev try_code : (submitted : String) → Attempt
try_code submitted = record { user = naledi; at = 2000; ip = "::1"; submitted = submitted }

abbrev three_tries : List Attempt
three_tries = try_code "BCDFG-HJKMN" ∷ try_code "zzzzz-zzzzz" ∷ try_code "bcdfghjkmn" ∷ []

consume_backup_code_accepts_example :
    accepted plain_digests "usr_1" "bcdfghjkmn" three_tries coded_db
    ≡ min
        (asked plain_digests "usr_1" "bcdfghjkmn" three_tries)
        (stored_copies plain_digests "usr_1" "bcdfghjkmn" coded_db)
consume_backup_code_accepts_example =
    consume_backup_code_accepts plain_digests "usr_1" "bcdfghjkmn" three_tries coded_db

-- Of the three tries, the first is accepted.
one_accepted_test : accepted plain_digests "usr_1" "bcdfghjkmn" three_tries coded_db ≡ 1
unfolding consume_backup_code spend spend_first find_first remove to_lower trim exec
one_accepted_test = refl
