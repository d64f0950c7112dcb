-- ===== src/GoogleAuth/Tests.antt =====
-- The theorems on the sign-in with Google at one owner who signs in.
use ctf_website.Base.{◌≡◌, refl, true, none, some, [], ◌∷◌}
use ctf_website.Schema.{Db}
use ctf_website.Http.{ok}
use ctf_website.Vapi.Json.{Json, object, field, end, text, number, bool}
use ctf_website.Base.Texts.{split_on, trim, to_lower}
use ctf_website.Google.{
  parse_id_token, check_claims, GoogleHost, GoogleIdentity, granted, exchange_code_for_identity,
  google_configured, parse_id_token, check_claims,
}
use ctf_website.Google.Genuine.{IsGenuine, exchange_code_for_identity-IsGenuine}
use ctf_website.GoogleAuth.{GoogleSignIn, CallbackQuery, handle_google_callback, auth_error}
use ctf_website.GoogleAuth.Single.{Carries, handle_google_callback_replay}
use ctf_website.GoogleAuth.Vouched.{Opens}
use ctf_website.GoogleAuth.Opens.{handle_google_callback-Opens}
use ctf_website.Samples.{clinic_db, factor_host, drawn}

abbrev claims : Json
claims = object (
    field "iss" (text "accounts.google.com") (
      field "aud" (text "client") (
        field "nonce" (text "nonce") (
          field "exp" (number 100) (
            field "sub" (text "sub_1") (
              field "email" (text "owner@clinic.co.za")
                (field "email_verified" (bool true) end)))))))

abbrev google_host : GoogleHost
google_host = record {
  client_id = "client";
  client_secret = "secret";
  token_endpoint = λ code redirect_uri. granted (some "head.claims.tail");
  decode_segment = λ segment. some claims;
}

abbrev clinic_sign_in : GoogleSignIn
clinic_sign_in = record {
  google = google_host;
  js = record { stringify = λ payload. payload.org_name; parse_json = λ s. none };
  factors = factor_host;
  drawn = drawn;
  ids = record { org_id = "org_2"; user_id = "usr_2"; slug_ending = "abc" };
  url = record { scheme = "https"; hostname = "app.example"; host = "app.example" };
}

abbrev callback : CallbackQuery
callback = record { error = none; code = some "code"; state = some "state" }

abbrev begun_db : Db
begun_db = record clinic_db {
  oauth_states =
      record {
        state = "state";
        nonce = "nonce";
        created_at = 1000;
        expires_at = 601000;
        signup_payload = none;
      }
      ∷ [];
}

abbrev owner_identity : GoogleIdentity
owner_identity = record {
  sub = "sub_1";
  email = "owner@clinic.co.za";
  email_verified = true;
  name = none;
}

exchange_code_for_identity-IsGenuine_example :
    IsGenuine google_host 90000 "code" "https://app.example/api/auth/google/callback" "nonce"
      owner_identity
unfolding exchange_code_for_identity parse_id_token check_claims split_on trim to_lower
exchange_code_for_identity-IsGenuine_example =
    exchange_code_for_identity-IsGenuine google_host 90000 "code"
      "https://app.example/api/auth/google/callback" "nonce" owner_identity refl

callback-Carries : Carries clinic_sign_in callback "code" "state"
unfolding google_configured trim
callback-Carries = record { configured = refl; no_error = refl; has_code = refl; has_state = refl }

handle_google_callback_replay_example :
    let after = (handle_google_callback clinic_sign_in 90000 "::1" none callback begun_db).1 in
    handle_google_callback clinic_sign_in 91000 "::2" none callback after
    ≡ (ok (auth_error "google_expired"), after)
handle_google_callback_replay_example =
    handle_google_callback_replay clinic_sign_in clinic_sign_in 90000 91000 "::1" "::2" none none
      callback callback "code" "code" "state" begun_db callback-Carries callback-Carries

handle_google_callback-Opens_example :
    Opens clinic_sign_in 90000 begun_db
      (handle_google_callback clinic_sign_in 90000 "::1" none callback begun_db).1
handle_google_callback-Opens_example =
    handle_google_callback-Opens clinic_sign_in 90000 "::1" none callback begun_db
