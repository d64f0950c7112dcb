-- ===== src/Samples.antt =====
-- A small database for the tests: one organization with an owner and a live call.
use ctf_website.Http.{ok}
use ctf_website.TwoFactor.{FactorHost}
use ctf_website.Auth.Login.{Drawn, SignInHost}
use ctf_website.Base.{String, false, none, some, [], ◌∷◌}
use ctf_website.Schema.{
  Db, OrgRow, UserRow, CallRow, UserRole, owner, active, no_role, off, in_progress, ChallengeRow,
  email,
}
use ctf_website.Auth.{AuthContext}
use ctf_website.Vapi.Json.{Json, Runtime, object, field, end, text, number}
use ctf_website.Crypto.{Digests}
use ctf_website.Webhook.{Deployment}

abbrev pub clinic : OrgRow
clinic = record {
  id = "org_1";
  name = "Clinic";
  slug = "clinic";
  timezone = "Africa/Johannesburg";
  services = "[]";
  vapi_assistant_id = some "asst_1";
  vapi_phone_number_id = none;
  takeover_number = some "0825550134";
  status = active;
  activated_at = some 1000;
  activated_by = none;
  billing_email = none;
  plan = "standard";
  signup_note = none;
  plan_minutes = 150;
  subscription_zar = 1999;
  overage_rate_zar = 8;
  setup_fee_zar = 0;
  is_platform = false;
  blocked_at = none;
  stats_version = 0;
  status_reason = none;
  created_at = 1000;
  updated_at = 1000;
}

abbrev pub user_named : String → UserRole → UserRow
user_named id role = record {
  id = id;
  org_id = "org_1";
  email = "owner@clinic.co.za";
  name = "Naledi";
  role = role;
  phone = none;
  password_hash = "!";
  must_change_password = false;
  disabled = false;
  last_login_at = none;
  google_sub = none;
  google_linked_at = none;
  platform_role = no_role;
  two_factor_method = off;
  totp_secret = none;
  totp_confirmed_at = none;
  totp_last_counter = none;
  platform_hold = none;
  platform_hold_at = none;
  platform_hold_reason = none;
  created_at = 1000;
  updated_at = 1000;
}

abbrev pub naledi : UserRow
naledi = user_named "usr_1" owner

abbrev pub live_call : CallRow
live_call = record {
  id = "call_1";
  org_id = "org_1";
  vapi_call_id = "vapi_1";
  control_url = some "https://control";
  listen_url = none;
  status = in_progress;
  caller_name = none;
  caller_number = none;
  started_at = 60000;
  answered_at = none;
  ended_at = none;
  duration_s = none;
  intent = none;
  outcome = none;
  service = none;
  booking_when = none;
  summary = none;
  recording_url = none;
  ended_reason = none;
  taken_over_by = none;
  taken_over_at = none;
  transfer_to = none;
  updated_at = 60000;
}

abbrev pub empty_db : Db
empty_db = record {
  organizations = [];
  users = [];
  sessions = [];
  calls = [];
  transcript_lines = [];
  webhook_events = [];
  audit_log = [];
  login_attempts = [];
  login_challenges = [];
  backup_codes = [];
  rate_limits = [];
  blocked_emails = [];
  platform_notifications = [];
  oauth_states = [];
  terms_acceptances = [];
}

abbrev pub clinic_db : Db
clinic_db = record empty_db {
  organizations = clinic ∷ [];
  users = naledi ∷ [];
  calls = live_call ∷ [];
}

abbrev pub naledi_auth : AuthContext
naledi_auth = record { user = naledi; org = clinic; session_id = "ses_1"; stepped_up_until = none }

-- Digests that are the text itself, a runtime that reads no text as a number, and a JSON.parse that
-- gives one report for every text.
abbrev pub plain_digests : Digests
plain_digests = record { sha256_hex = λ s. s; hmac_sha256_hex = λ key s. s }

abbrev pub plain_js : Runtime
plain_js = record { number_of = λ s. none; parse_date = λ s. none }

abbrev pub report : Json
report = object (
    field "message"
      (object (
        field "type" (text "end-of-call-report") (
          field "endedReason" (text "customer-ended-call") (
            field "durationSeconds" (number 61)
              (field "call" (object (field "id" (text "vapi_1") end)) end)))))
      end)

abbrev pub host : Deployment
host = record {
  js = plain_js;
  parse_json = λ s. some report;
  digests = plain_digests;
  secrets = record { webhook_secret = some "shhh"; hmac_secret = none };
}

-- Codes that are all 000001, and a password hash that is the password itself.
abbrev pub factor_host : FactorHost
factor_host = record {
  digests = plain_digests;
  mac = λ secret counter. 0 ∷ 0 ∷ 0 ∷ 1 ∷ 0 ∷ [];
  decrypt_secret = λ s. ok s;
  send_code = λ to code. ok tt;
}

abbrev pub sign_in_host : SignInHost
sign_in_host = record {
  passwords = record {
    digests = plain_digests;
    parse_int = λ s. some 210000;
    pbkdf2 = λ password salt iterations. some password;
    hash_password = λ password iterations. password;
  };
  factors = factor_host;
  iterations = none;
}

abbrev pub drawn : Drawn
drawn = record { token = "token"; challenge_id = "chl_1"; digits = "000001" }

abbrev pub open_challenge_row : ChallengeRow
open_challenge_row = record {
  id = "chl_1";
  user_id = "usr_1";
  method = email;
  code_hash = some "000001";
  attempts = 0;
  created_at = 1000;
  expires_at = 301000;
}

abbrev pub challenged_db : Db
challenged_db = record clinic_db { login_challenges = open_challenge_row ∷ [] }
