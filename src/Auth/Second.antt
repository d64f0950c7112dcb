-- ===== src/Auth/Second.antt =====
-- app/worker/routes/twoFactor.ts: the answer to a challenge, which opens the session of a sign-in
-- with two factors.
mod Tests
pub mod Guesses
use ctf_website.Auth.Login.{set_user, method_text}
use ctf_website.Audit.{write_audit}
use ctf_website.Auth.Session.{NewSession, org_id_is, create_session, user_id_is}
use ctf_website.TwoFactor.Backup.{count_unused_backup_codes, consume_backup_code}
use ctf_website.Base.Texts.{present}
use ctf_website.Schema.{UserRow, ChallengeRow, AuditRow, OrgRow}
use ctf_website.TwoFactor.{
  passed, FactorHost, discard_challenge, sign_in_expired, CodeAnswer, verify_challenge,
  load_challenge, failed, is_email, start_challenge, Started,
}
use ctf_website.Base.{
  ℕ, suc, zero, ◌+◌, ◌-◌, ◌*◌, ◌/◌, ◌%◌, ◌≤◌, ◌<◌, min, max, ◌≡◌, ◌≢◌, ◌↔◌, ◌⊎◌, inl, inr, refl,
  sym, ap, subst, String, Bool, true, false, not, ◌&&◌, ◌||◌, Option, none, some, List, [], ◌∷◌,
  ◌++◌, map, arith, eq_iff, eq_refl, ltb, leb, ◌==◌, if◌then◌else◌, Bool-cases, Option-cases,
  coalesce, or_else, is_some, str_eq, length, All, find_first, update_where, delete_where,
  filter_where, count_where,
}
use ctf_website.Http.{
  Exec, Result, ok, err, pure, throw, throw_if, require, select, write, lift, ◌>>=◌, ◌>>◌,
  HttpError, unauthorized, bad_request,
}
use Prim.Native.String.{◌++◌ as append_text}

pub data SecondReply : Type 0 where
  not_yet : (message : String) → (attempts_left : ℕ) → SecondReply
  bad_backup_code : SecondReply
  signed_in_by : UserRow → OrgRow → NewSession → SecondReply

abbrev pub no_longer_valid : HttpError
no_longer_valid = unauthorized "That sign-in is no longer valid."

abbrev pub audit_second : UserRow → (action : String) → Option String → (ip : String) → ℕ → AuditRow
audit_second user action detail ip now = record {
  org_id = some user.org_id;
  user_id = some user.id;
  action = action;
  target = some user.id;
  detail = detail;
  ip = some ip;
  created_at = now;
}

-- `remaining` prints a number.
module _ (host : FactorHost) (remaining : ℕ → String) (now : ℕ) (token ip : String)
    (user_agent : Option String) where
  unfoldable pub finish : ChallengeRow → UserRow → Exec SecondReply
  finish challenge user = do
    found ← select (λ db. find_first (org_id_is user.org_id) db.organizations)
    org ← require found (unauthorized "Your account is not linked to a business yet.")
    write (set_user user.id (λ row. record row { last_login_at = some now }))
    session ← create_session host.digests now token user.id user_agent ip
    write_audit (
        audit_second user "auth.login"
          (some (append_text "second factor: " (method_text challenge.method))) ip now)
    pure (signed_in_by user org session)

  unfoldable pub after_backup : ChallengeRow → UserRow → Bool → Exec SecondReply
  after_backup challenge user false = pure bad_backup_code
  after_backup challenge user true = do
    discard_challenge challenge.id
    unused ← select (count_unused_backup_codes user.id)
    write_audit (
        audit_second user "2fa.backup_code_used"
          (some (append_text (remaining unused) " remaining")) ip now)
    finish challenge user

  unfoldable pub after_code : ChallengeRow → UserRow → CodeAnswer → Exec SecondReply
  after_code challenge user (failed message attempts_left) = pure (not_yet message attempts_left)
  after_code challenge user passed = finish challenge user

  unfoldable pub second_step :
      ChallengeRow → UserRow → (code : String) → Option String → Exec SecondReply
  second_step challenge user code none = do
    answer ← verify_challenge host now challenge user code
    after_code challenge user answer
  second_step challenge user code (some backup_code) = do
    spent ← consume_backup_code host.digests now ip user backup_code
    after_backup challenge user spent

  unfoldable pub reject_challenge : String → Exec SecondReply
  reject_challenge id = do discard_challenge id; throw no_longer_valid

  unfoldable pub for_user :
      ChallengeRow → (code : String) → Option String → Option UserRow → Exec SecondReply
  for_user challenge code backup_code none = reject_challenge challenge.id
  for_user challenge code backup_code (some user) =
      if user.disabled
      then reject_challenge challenge.id
      else second_step challenge user code backup_code

  unfoldable pub handle_challenge_verify :
      (challenge_id : Option String)
      → (code : String) → (backup_code : Option String) → Exec SecondReply
  handle_challenge_verify challenge_id code backup_code = do
    id ← require (present challenge_id) sign_in_expired
    challenge ← load_challenge now id
    user ← select (λ db. find_first (user_id_is challenge.user_id) db.users)
    for_user challenge code (present backup_code) user

-- The old challenge is discarded, and a new one has a new id and a new code.
module _ (host : FactorHost) (now : ℕ) (new_id code : String) where
  unfoldable pub resend_to : ChallengeRow → Option UserRow → Exec Started
  resend_to challenge none = throw no_longer_valid
  resend_to challenge (some user) =
      if user.disabled
      then throw no_longer_valid
      else (discard_challenge challenge.id >> start_challenge host now new_id code user)

  unfoldable pub handle_challenge_resend : (challenge_id : Option String) → Exec Started
  handle_challenge_resend challenge_id = do
    id ← require (present challenge_id) sign_in_expired
    challenge ← load_challenge now id
    throw_if (not (is_email challenge.method))
        (bad_request "This sign-in does not use email codes.")
    user ← select (λ db. find_first (user_id_is challenge.user_id) db.users)
    resend_to challenge user
