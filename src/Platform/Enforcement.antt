-- ===== src/Platform/Enforcement.antt =====
-- app/worker/routes/platform.ts: what an administrator may do to an organization and to a login.
use ctf_website.Platform.Batches.{
  hold_batch, is_user, org_is, activated, released, block_account_batch, suspend_org_batch,
  block_org_batch,
}
use ctf_website.Audit.{write_audit}
use ctf_website.TwoFactor.{method_for}
use ctf_website.Auth.{AuthContext}
use ctf_website.Platform.Address.{parse_reason}
use ctf_website.Schema.{
  PlatformRole, PlatformHold, OrgRow, UserRow, hold_blocked, hold_disabled, OrgStatus, AuditRow,
  TwoFactorMethod,
}
use ctf_website.Base.{
  ℕ, String, Bool, true, false, not, ◌||◌, Option, none, some, ltb, if◌then◌else◌, is_some, str_eq,
  find_first, update_where,
}
use ctf_website.Http.{
  Exec, pure, throw_if, require, select, write, ◌>>=◌, ◌>>◌, bad_request, conflict, HttpError,
  not_found, forbidden,
}
use Prim.Native.String.{◌++◌ as append_text}

pub data OrgAction : Type 0 where
  activate suspend block_org : OrgAction

pub data AccountAction : Type 0 where
  disable enable block_account : AccountAction

abbrev pub is_ctf_admin : PlatformRole → Bool
is_ctf_admin PlatformRole.ctf_admin = true
is_ctf_admin role = false

abbrev pub is_totp : TwoFactorMethod → Bool
is_totp TwoFactorMethod.totp = true
is_totp method = false

abbrev pub stepped_up : ℕ → Option ℕ → Bool
stepped_up now none = false
stepped_up now (some until) = ltb now until

unfoldable pub require_reason : Option String → Exec String
require_reason value =
    require (parse_reason value) (bad_request "Give a reason, between 3 and 300 characters.")

abbrev pub step_up_required : HttpError
step_up_required = record {
  status = 403;
  code = "step_up_required";
  message = "Enter a code from your authenticator app to confirm this action.";
  retry_after = none;
}

unfoldable pub require_platform_admin : AuthContext → Exec (Unit {0})
require_platform_admin auth = do
  throw_if (not (is_ctf_admin auth.user.platform_role)) (not_found "That endpoint does not exist.")
  throw_if (not (is_totp (method_for auth.user)))
      (forbidden "Set up an authenticator app before using the CTF console.")

unfoldable pub require_step_up : ℕ → AuthContext → Exec (Unit {0})
require_step_up now auth = throw_if (not (stepped_up now auth.stepped_up_until)) step_up_required

abbrev pub parse_org_action : String → Option OrgAction
parse_org_action action =
    if str_eq action "activate"
    then some activate
    else if str_eq action "suspend"
    then some suspend
    else if str_eq action "block"
    then some block_org
    else none

abbrev pub parse_account_action : String → Option AccountAction
parse_account_action action =
    if str_eq action "disable"
    then some disable
    else if str_eq action "enable"
    then some enable
    else if str_eq action "block"
    then some block_account
    else none

abbrev pub is_active : OrgStatus → Bool
is_active OrgStatus.active = true
is_active status = false

abbrev pub is_suspended : OrgStatus → Bool
is_suspended OrgStatus.suspended = true
is_suspended status = false

abbrev pub is_hold : PlatformHold → Option PlatformHold → Bool
is_hold PlatformHold.hold_disabled (some PlatformHold.hold_disabled) = true
is_hold PlatformHold.hold_blocked (some PlatformHold.hold_blocked) = true
is_hold hold stored = false

-- What is done, with the reason for the audit log.
unfoldable pub act_on_org :
    ℕ → (admin_id : String) → Option String → OrgRow → OrgAction → Exec (Option String)
act_on_org now admin_id reason org activate = do
  throw_if (is_active org.status) (conflict "This organization is already active.")
  write (λ db. record db {
    organizations = update_where (org_is org.id) (activated now admin_id) db.organizations;
  })
  pure (parse_reason reason)
act_on_org now admin_id reason org suspend = do
  throw_if (is_suspended org.status) (conflict "This organization is already suspended.")
  given ← require_reason reason
  write (suspend_org_batch now given org.id)
  pure (some given)
act_on_org now admin_id reason org block_org = do
  given ← require_reason reason
  write (block_org_batch now given org.id admin_id)
  pure (some given)

abbrev pub org_verb : OrgAction → String
org_verb activate = "active"
org_verb suspend = "suspended"
org_verb block_org = "blocked"

abbrev pub audit_admin :
    (org_id user_id action target : String) → Option String → String → ℕ → AuditRow
audit_admin org_id user_id action target detail ip now = record {
  org_id = some org_id;
  user_id = some user_id;
  action = action;
  target = some target;
  detail = detail;
  ip = some ip;
  created_at = now;
}

unfoldable pub handle_admin_org_action :
    AuthContext → ℕ → (ip org_id action : String) → (reason : Option String) → Exec String
handle_admin_org_action auth now ip org_id action reason = do
  require_platform_admin auth
  require_step_up now auth
  act ← require (parse_org_action action) (bad_request "Action must be activate, suspend or block.")
  found ← select (λ db. find_first (org_is org_id) db.organizations)
  org ← require found (not_found "That organization could not be found.")
  throw_if org.is_platform
      (forbidden "Cut Through Faster’s own organization cannot be changed from the console.")
  throw_if (is_some org.blocked_at)
      (conflict "This organization is blocked. A block cannot be undone from the console.")
  given ← act_on_org now auth.user.id reason org act
  write_audit (
      audit_admin org_id auth.user.id (append_text "platform.org_" (org_verb act)) org_id given ip
        now)
  pure (org_verb act)

unfoldable pub act_on_account :
    ℕ → (admin_id : String) → Option String → UserRow → AccountAction → Exec (Option String)
act_on_account now admin_id reason target disable = do
  throw_if (is_hold hold_disabled target.platform_hold)
      (conflict "CTF has already disabled this login.")
  given ← require_reason reason
  write (hold_batch now given target.id)
  pure (some given)
act_on_account now admin_id reason target enable = do
  throw_if (not (is_hold hold_disabled target.platform_hold)) (
      conflict
        "Only a login CTF disabled can be re-enabled here. A login its own organization disabled is theirs to re-enable.")
  write (λ db. record db { users = update_where (is_user target.id) (released now) db.users })
  pure (parse_reason reason)
act_on_account now admin_id reason target block_account = do
  given ← require_reason reason
  write (block_account_batch now given admin_id target)
  pure (some given)

abbrev pub account_verb : AccountAction → String
account_verb disable = "disabled"
account_verb enable = "enabled"
account_verb block_account = "blocked"

unfoldable pub handle_admin_account_action :
    AuthContext → ℕ → (ip user_id action : String) → (reason : Option String) → Exec String
handle_admin_account_action auth now ip user_id action reason = do
  require_platform_admin auth
  require_step_up now auth
  act ←
      require (parse_account_action action) (bad_request "Action must be disable, enable or block.")
  found ← select (λ db. find_first (is_user user_id) db.users)
  target ← require found (not_found "That login could not be found.")
  own ← select (λ db. find_first (org_is target.org_id) db.organizations)
  org ← require own (not_found "That login could not be found.")
  throw_if (is_ctf_admin target.platform_role || org.is_platform)
      (forbidden "CTF accounts cannot be changed from the console.")
  throw_if (is_hold hold_blocked target.platform_hold)
      (conflict "This login is blocked. A block cannot be undone from the console.")
  given ← act_on_account now auth.user.id reason target act
  write_audit (
      audit_admin target.org_id auth.user.id (append_text "platform.user_" (account_verb act))
        user_id given ip now)
  pure (account_verb act)
