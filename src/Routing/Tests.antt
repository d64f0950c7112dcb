-- ===== src/Routing/Tests.antt =====
-- An owner who lists the calls of the clinic.
use ctf_website.Base.{◌≡◌, ◌⊎◌, refl, true, none, some, [], ◌∷◌, find_first, update_where}
use ctf_website.Base.Texts.{split_on, starts_with}
use ctf_website.Schema.{Db, SessionRow, terms, privacy, operator}
use ctf_website.Http.{exec}
use ctf_website.Auth.{AuthContext}
use ctf_website.Auth.Session.{require_auth, check_session, slide, signed_in, session_limits}
use ctf_website.RateLimit.{enforce, consume, count_hit, stored_hits, same_bucket}
use ctf_website.Signup.Terms.{acceptance, has_current_consent, count_accepted, current_version}
use ctf_website.Routing.{
  Door, Request, is_read, clear, past_gates, past_role, assert_trusted_origin,
}
use ctf_website.Routing.Table.{
  handle_api, sign_in_route, behind_session, signed_in_route, first_of, otherwise, list_calls,
  row_route,
}
use ctf_website.Routing.Gates.{IsCleared}
use ctf_website.Routing.Cleared.{IsFromHere, handle_api-IsCleared}
use ctf_website.Samples.{naledi, clinic, clinic_db, plain_digests}

abbrev fresh_session : SessionRow
fresh_session = record {
  id = "token";
  user_id = "usr_1";
  created_at = 1000;
  expires_at = 43201000;
  last_seen_at = some 1000;
  user_agent = none;
  ip = "::1";
  stepped_up_until = none;
}

abbrev consenting_db : Db
consenting_db = record clinic_db {
  sessions = fresh_session ∷ [];
  terms_acceptances =
      acceptance 1000 "::1" none "usr_1" "org_1" terms
      ∷ acceptance 1000 "::1" none "usr_1" "org_1" privacy
      ∷ acceptance 1000 "::1" none "usr_1" "org_1" operator
      ∷ [];
}

abbrev door : Door
door = record { allowed_origins = ""; digests = plain_digests; decode_uri_component = λ s. some s }

abbrev get_calls : Request
get_calls = record {
  method = "GET";
  path = "/api/calls";
  cookie = some "token";
  origin = none;
  own_origin = "https://app.example";
  ip = "::1";
}

abbrev caller : AuthContext
caller = record { user = naledi; org = clinic; session_id = "token"; stepped_up_until = none }

handle_api-IsCleared_example :
    ((is_read get_calls ≡ true) ⊎ IsFromHere door get_calls)
    × IsCleared door 2000 get_calls consenting_db caller
unfolding handle_api sign_in_route behind_session signed_in_route first_of otherwise row_route clear
    past_gates past_role assert_trusted_origin require_auth check_session slide signed_in
    session_limits enforce consume count_hit stored_hits same_bucket acceptance has_current_consent
    count_accepted current_version exec find_first update_where starts_with split_on
handle_api-IsCleared_example =
    handle_api-IsCleared door 2000 get_calls consenting_db _ caller list_calls refl
