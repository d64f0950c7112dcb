-- ===== src/Signup/Tests.antt =====
-- The theorem on consent at an owner of the clinic.
use ctf_website.Base.{String, ◌≡◌, ◌≢◌, true, none}
use ctf_website.Signup.Terms.{has_current_consent, handle_accept_terms}
use ctf_website.Signup.Consent.{handle_accept_terms-has_current_consent}
use ctf_website.Samples.{clinic_db, naledi_auth}

handle_accept_terms-has_current_consent_example :
    (has_current_consent "usr_1" (handle_accept_terms naledi_auth 2000 "::1" none clinic_db).1
      ≡ true)
    × ((other : String)
        → other ≢ "usr_1"
        → has_current_consent other (handle_accept_terms naledi_auth 2000 "::1" none clinic_db).1
          ≡ has_current_consent other clinic_db)
handle_accept_terms-has_current_consent_example =
    handle_accept_terms-has_current_consent naledi_auth 2000 "::1" none clinic_db
