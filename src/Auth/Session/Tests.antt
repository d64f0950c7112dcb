-- ===== src/Auth/Session/Tests.antt =====
-- A session that is an hour old, and a request with its cookie.
use ctf_website.Auth.Session.Admission.{IsSentBy, IsAdmitted, require_auth-IsAdmitted}
use ctf_website.Samples.{naledi, clinic_db, clinic, plain_digests}
use ctf_website.Auth.Session.{require_auth, check_session, slid, slide, signed_in, session_limits}
use ctf_website.Auth.{AuthContext}
use ctf_website.Schema.{Db, SessionRow}
use ctf_website.Base.{refl, none, some, [], ◌∷◌, find_first, update_where}
use ctf_website.Http.{exec}

abbrev hour_old : SessionRow
hour_old = record {
  id = "token";
  user_id = "usr_1";
  created_at = 1000;
  expires_at = 43201000;
  last_seen_at = some 1000;
  user_agent = none;
  ip = "::1";
  stepped_up_until = none;
}

abbrev signed_db : Db
signed_db = record clinic_db { sessions = hour_old ∷ [] }

abbrev signed_auth : AuthContext
signed_auth = record { user = naledi; org = clinic; session_id = "token"; stepped_up_until = none }

abbrev slid_db : Db
slid_db = record signed_db { sessions = slid 3601000 43200000 hour_old ∷ [] }

require_auth-IsAdmitted_example :
    IsSentBy plain_digests (some "token") signed_auth
    × IsAdmitted 3601000 signed_db slid_db signed_auth
unfolding require_auth check_session slide signed_in session_limits exec find_first update_where
require_auth-IsAdmitted_example =
    require_auth-IsAdmitted plain_digests 3601000 (some "token") signed_db slid_db signed_auth refl
