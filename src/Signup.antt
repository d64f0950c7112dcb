-- ===== src/Signup.antt =====
-- app/worker/routes/signup.ts: sign-up of an organization, and consent to the legal documents.
pub mod Slug
pub mod Terms
pub mod Consent
pub mod Made
mod Tests
use Prim.Native.Char.{code}
use ctf_website.Base.{
  ℕ, ◌+◌, ◌*◌, String, Bool, true, false, not, ◌&&◌, ◌||◌, Option, none, some, List, [], ◌∷◌, ◌++◌,
  str_eq, ltb, leb, ◌==◌, if◌then◌else◌, or_else, is_some, find_first,
}
use ctf_website.Base.Texts.{trim, to_lower, is_empty, present, take_text, text_length, join_text}
use ctf_website.Schema.{
  Db, OrgRow, UserRow, OauthStateRow, TermsRow, LegalDocument, terms, privacy, operator, UserRole,
  OrgStatus, no_role, off,
}
use ctf_website.Http.{
  Exec, pure, throw_if, require, select, write, ◌>>=◌, ◌>>◌, bad_request, not_found,
}
use ctf_website.Audit.{write_audit}
use ctf_website.RateLimit.{RateLimitRule, enforce}
use ctf_website.Auth.{AuthContext}
use ctf_website.Auth.Session.{org_id_is, user_id_is}
use ctf_website.TwoFactor.{internal_error}
use ctf_website.Vapi.Json.{Json, Fields, get, as_record, bool, text}
use ctf_website.Google.{
  GoogleHost, GoogleIdentity, google_configured, RequestUrl, redirect_uri_for, AuthorizeUrl,
  build_authorize_url, is_true, text_of,
}
use ctf_website.Signup.Slug.{slugify}
use ctf_website.Signup.Terms.{record_consent}

abbrev pub signup_state_ttl_ms : ℕ
signup_state_ttl_ms = 30 * 60 * 1000

abbrev max_org_name : ℕ
max_org_name = 80

abbrev pub signup_rule : RateLimitRule
signup_rule = record { name = "signup"; limit = 5; window_ms = 60 * 60000 }

pub record SignupPayload : Type 0 where
  pub org_name : String
  pub note : Option String

-- JSON.stringify of a payload, and JSON.parse.
pub record JsonHost : Type 0 where
  pub stringify : SignupPayload → String
  pub parse_json : String → Option Json

-- `body.note.trim().slice(0, 500)`, where there is a note.
abbrev note_of : Json → Option String
note_of (text s) = present (some (take_text 500 (trim s)))
note_of _ = none

unfoldable pub handle_signup_start :
    GoogleHost
    → JsonHost
    → (now : ℕ) → (state one_time ip : String) → RequestUrl
    → Fields
    → Exec AuthorizeUrl
handle_signup_start google js now state one_time ip url body = do
  throw_if (not (google_configured google))
      (not_found "Signing up is not available on this deployment yet.")
  _ ←
      enforce (join_text "ip:" ip) signup_rule
        "Too many signup attempts from this connection. Please try again later." now
  let org_name = trim (text_of (get body "orgName"))
  throw_if (ltb (text_length org_name) 2) (bad_request "Enter the name of your business.")
  throw_if (ltb max_org_name (text_length org_name)) (bad_request "That business name is too long.")
  throw_if (not (is_true (get body "accept"))) (
      bad_request
        "You need to accept the terms, the privacy policy and the operator agreement to continue.")
  write (λ db. record db {
    oauth_states =
        db.oauth_states
        ++ record {
          state = state;
          nonce = one_time;
          created_at = now;
          expires_at = now + signup_state_ttl_ms;
          signup_payload =
              some
                (js.stringify (record { org_name = org_name; note = note_of (get body "note") }));
        }
          ∷ [];
  })
  pure (build_authorize_url google state one_time (redirect_uri_for url))

abbrev plain_text : Json → Option String
plain_text (text s) = some s
plain_text _ = none

abbrev payload_of : Fields → Option SignupPayload
payload_of fields =
    if is_empty (trim (text_of (get fields "orgName")))
    then none
    else some (record {
      org_name = trim (text_of (get fields "orgName"));
      note = plain_text (get fields "note");
    })

abbrev payload_in : Option Fields → Option SignupPayload
payload_in none = none
payload_in (some fields) = payload_of fields

abbrev parsed : Option Json → Option SignupPayload
parsed none = none
parsed (some value) = payload_in (as_record value)

abbrev parse_present : JsonHost → Option String → Option SignupPayload
parse_present js none = none
parse_present js (some raw) = parsed (js.parse_json raw)

unfoldable pub parse_signup_payload : JsonHost → Option String → Option SignupPayload
parse_signup_payload js raw = parse_present js (present raw)

-- The ids and the ending of a slug that are drawn.
pub record NewIds : Type 0 where
  pub org_id : String
  pub user_id : String
  pub slug_ending : String

abbrev pub slug_is : String → OrgRow → Bool
slug_is slug org = str_eq org.slug slug

abbrev pub unusable_password_hash : String
unusable_password_hash = "!"

-- The columns that the statement leaves out take their defaults.
unfoldable pub pending_org : NewIds → ℕ → (slug billing_email : String) → SignupPayload → OrgRow
pending_org ids now slug billing_email payload = record {
  id = ids.org_id;
  name = payload.org_name;
  slug = slug;
  timezone = "Africa/Johannesburg";
  services = "[]";
  vapi_assistant_id = none;
  vapi_phone_number_id = none;
  takeover_number = none;
  status = OrgStatus.pending;
  activated_at = none;
  activated_by = none;
  billing_email = some billing_email;
  plan = "standard";
  signup_note = payload.note;
  plan_minutes = 150;
  subscription_zar = 149900;
  overage_rate_zar = 799;
  setup_fee_zar = 199900;
  is_platform = false;
  blocked_at = none;
  stats_version = 0;
  status_reason = none;
  created_at = now;
  updated_at = now;
}

unfoldable pub first_owner : NewIds → ℕ → GoogleIdentity → UserRow
first_owner ids now identity = record {
  id = ids.user_id;
  org_id = ids.org_id;
  email = identity.email;
  name = or_else identity.name identity.email;
  role = UserRole.owner;
  phone = none;
  password_hash = unusable_password_hash;
  must_change_password = false;
  disabled = false;
  last_login_at = none;
  google_sub = some identity.sub;
  google_linked_at = some now;
  platform_role = no_role;
  two_factor_method = off;
  totp_secret = none;
  totp_confirmed_at = none;
  totp_last_counter = none;
  platform_hold = none;
  platform_hold_at = none;
  platform_hold_reason = none;
  created_at = now;
  updated_at = now;
}

-- The notice to the administrators is one row; the mail that announces it changes no state.
unfoldable pub record_platform_notice : (now : ℕ) → (kind org_id summary : String) → Exec (Unit {0})
record_platform_notice now kind org_id summary = write (λ db. record db {
  platform_notifications =
      db.platform_notifications
      ++ record {
        kind = kind;
        org_id = org_id;
        summary = summary;
        created_at = now;
        read_at = none;
      }
        ∷ [];
})

abbrev free_slug : NewIds → String → Bool → String
free_slug ids base taken =
    if taken then join_text base (join_text "-" (to_lower ids.slug_ending)) else base

abbrev pub address_is : String → UserRow → Bool
address_is address user = str_eq user.email address

-- The unique index on addresses refuses the batch where the address has a login already.
unfoldable pub create_pending_organization :
    NewIds
    → (now : ℕ) → (ip : String) → Option String
    → GoogleIdentity
    → SignupPayload
    → Exec UserRow
create_pending_organization ids now ip agent identity payload = do
  let base = slugify payload.org_name
  taken ← select (λ db. is_some (find_first (slug_is base) db.organizations))
  twice ← select (λ db. is_some (find_first (address_is identity.email) db.users))
  throw_if twice internal_error
  write (λ db. record db {
    organizations =
        db.organizations
        ++ pending_org ids now (free_slug ids base taken) identity.email payload ∷ [];
    users = db.users ++ first_owner ids now identity ∷ [];
  })
  record_consent now ip agent ids.user_id ids.org_id
  write_audit (record {
    org_id = some ids.org_id;
    user_id = some ids.user_id;
    action = "org.signup";
    target = some ids.org_id;
    detail = some (
        join_text payload.org_name
          (join_text " (" (join_text identity.email ") — pending approval")));
    ip = some ip;
    created_at = now;
  })
  record_platform_notice now "org_signup" ids.org_id
      (join_text payload.org_name " signed up and is waiting for approval")
  org ← select (λ db. find_first (org_id_is ids.org_id) db.organizations)
  user ← select (λ db. find_first (user_id_is ids.user_id) db.users)
  _ ← require org internal_error
  require user internal_error
