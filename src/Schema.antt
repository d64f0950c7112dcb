-- ===== src/Schema.antt =====
-- The rows of the database (app/worker/lib/db.ts, app/migrations) and the state that the handlers
-- share: one list of rows for each table. A flag column holds 0 or 1 and is a Bool here; a time is
-- in milliseconds since the epoch, a length of time in whole seconds, which may be negative, and an
-- amount of rand a number of cents.
use ctf_website.Base.{ℕ, String, Bool, Option, List}
use ctf_website.Base.Int.{ℤ}

pub data OrgStatus : Type 0 where
  pending active suspended : OrgStatus

pub data UserRole : Type 0 where
  owner staff : UserRole

pub data PlatformRole : Type 0 where
  no_role ctf_admin : PlatformRole

pub data TwoFactorMethod : Type 0 where
  off totp email : TwoFactorMethod

pub data PlatformHold : Type 0 where
  hold_disabled hold_blocked : PlatformHold

pub data CallStatus : Type 0 where
  ringing in_progress transferring ended : CallStatus

pub data CallOutcome : Type 0 where
  booked inquiry escalated missed resolved : CallOutcome

pub data Speaker : Type 0 where
  ai caller human system : Speaker

pub record OrgRow : Type 0 where
  pub id : String
  pub name : String
  pub slug : String
  pub timezone : String
  pub services : String
  pub vapi_assistant_id : Option String
  pub vapi_phone_number_id : Option String
  pub takeover_number : Option String
  pub status : OrgStatus
  pub activated_at : Option ℕ
  pub activated_by : Option String
  pub billing_email : Option String
  pub plan : String
  pub signup_note : Option String
  pub plan_minutes : ℕ
  pub subscription_zar : ℕ
  pub overage_rate_zar : ℕ
  pub setup_fee_zar : ℕ
  pub is_platform : Bool
  pub blocked_at : Option ℕ
  pub stats_version : ℕ
  pub status_reason : Option String
  pub created_at : ℕ
  pub updated_at : ℕ

pub record UserRow : Type 0 where
  pub id : String
  pub org_id : String
  pub email : String
  pub name : String
  pub role : UserRole
  pub phone : Option String
  pub password_hash : String
  pub must_change_password : Bool
  pub disabled : Bool
  pub last_login_at : Option ℕ
  pub google_sub : Option String
  pub google_linked_at : Option ℕ
  pub platform_role : PlatformRole
  pub two_factor_method : TwoFactorMethod
  pub totp_secret : Option String
  pub totp_confirmed_at : Option ℕ
  pub totp_last_counter : Option ℕ
  pub platform_hold : Option PlatformHold
  pub platform_hold_at : Option ℕ
  pub platform_hold_reason : Option String
  pub created_at : ℕ
  pub updated_at : ℕ

pub record CallRow : Type 0 where
  pub id : String
  pub org_id : String
  pub vapi_call_id : String
  pub control_url : Option String
  pub listen_url : Option String
  pub status : CallStatus
  pub caller_name : Option String
  pub caller_number : Option String
  pub started_at : ℕ
  pub answered_at : Option ℕ
  pub ended_at : Option ℕ
  pub duration_s : Option ℤ
  pub intent : Option String
  pub outcome : Option CallOutcome
  pub service : Option String
  pub booking_when : Option String
  pub summary : Option String
  pub recording_url : Option String
  pub ended_reason : Option String
  pub taken_over_by : Option String
  pub taken_over_at : Option ℕ
  pub transfer_to : Option String
  pub updated_at : ℕ

pub record TranscriptRow : Type 0 where
  pub call_id : String
  pub org_id : String
  pub seq : ℕ
  pub speaker : Speaker
  pub text : String
  pub at : ℕ

pub record SessionRow : Type 0 where
  pub id : String
  pub user_id : String
  pub created_at : ℕ
  pub expires_at : ℕ
  pub last_seen_at : Option ℕ
  pub user_agent : Option String
  pub ip : String
  pub stepped_up_until : Option ℕ

pub record AuditRow : Type 0 where
  pub org_id : Option String
  pub user_id : Option String
  pub action : String
  pub target : Option String
  pub detail : Option String
  pub ip : Option String
  pub created_at : ℕ

pub record LoginAttemptRow : Type 0 where
  pub email : String
  pub ip : String
  pub successful : Bool
  pub created_at : ℕ

pub record ChallengeRow : Type 0 where
  pub id : String
  pub user_id : String
  pub method : TwoFactorMethod
  pub code_hash : Option String
  pub attempts : ℕ
  pub created_at : ℕ
  pub expires_at : ℕ

pub record BackupCodeRow : Type 0 where
  pub user_id : String
  pub code_hash : String
  pub created_at : ℕ
  pub used_at : Option ℕ
  pub used_ip : Option String

pub record RateLimitRow : Type 0 where
  pub bucket : String × String × ℕ
  pub hits : ℕ
  pub window_start : ℕ
  pub expires_at : ℕ

pub record BlockedEmailRow : Type 0 where
  pub email : String
  pub reason : String
  pub org_id : String
  pub blocked_by : String
  pub blocked_at : ℕ

pub record WebhookEventRow : Type 0 where
  pub id : String
  pub received_at : ℕ

pub record NoticeRow : Type 0 where
  pub kind : String
  pub org_id : String
  pub summary : String
  pub created_at : ℕ
  pub read_at : Option ℕ

-- A sign-in with Google under way; `signup_payload` is JSON.
pub record OauthStateRow : Type 0 where
  pub state : String
  pub nonce : String
  pub created_at : ℕ
  pub expires_at : ℕ
  pub signup_payload : Option String

pub data LegalDocument : Type 0 where
  terms privacy operator : LegalDocument

pub record TermsRow : Type 0 where
  pub user_id : String
  pub org_id : String
  pub document : LegalDocument
  pub version : String
  pub accepted_at : ℕ
  pub ip : String
  pub user_agent : Option String

pub record Db : Type 0 where
  pub organizations : List OrgRow
  pub users : List UserRow
  pub sessions : List SessionRow
  pub calls : List CallRow
  pub transcript_lines : List TranscriptRow
  pub webhook_events : List WebhookEventRow
  pub audit_log : List AuditRow
  pub login_attempts : List LoginAttemptRow
  pub login_challenges : List ChallengeRow
  pub backup_codes : List BackupCodeRow
  pub rate_limits : List RateLimitRow
  pub blocked_emails : List BlockedEmailRow
  pub platform_notifications : List NoticeRow
  pub oauth_states : List OauthStateRow
  pub terms_acceptances : List TermsRow
