-- ===== src/Platform/Batches.antt =====
-- The statements by which an administrator changes organizations and logins
-- (app/worker/routes/platform.ts).
use ctf_website.Platform.Address.{canonical_email}
use ctf_website.Schema.{
  Db, BlockedEmailRow, PlatformHold, UserRow, OrgRow, hold_blocked, hold_disabled, SessionRow,
  active, suspended,
}
use ctf_website.Base.{
  ℕ, String, Bool, true, false, ◌&&◌, none, some, List, [], ◌∷◌, ◌++◌, if◌then◌else◌, coalesce,
  is_some, str_eq, find_first, update_where, delete_where,
}

abbrev pub org_is : String → OrgRow → Bool
org_is id org = str_eq org.id id

abbrev pub member_of : String → UserRow → Bool
member_of org_id user = str_eq user.org_id org_id

abbrev pub is_user : String → UserRow → Bool
is_user id user = str_eq user.id id

-- WHERE user_id IN (SELECT id FROM users WHERE org_id = ?)
abbrev pub session_in : String → List UserRow → SessionRow → Bool
session_in org_id users session =
    is_some (find_first (λ user. member_of org_id user && str_eq user.id session.user_id) users)

abbrev pub held : PlatformHold → ℕ → String → UserRow → UserRow
held hold now reason user = record user {
  disabled = true;
  platform_hold = some hold;
  platform_hold_at = some now;
  platform_hold_reason = some reason;
  updated_at = now;
}

abbrev pub released : ℕ → UserRow → UserRow
released now user = record user {
  disabled = false;
  platform_hold = none;
  platform_hold_at = none;
  platform_hold_reason = none;
  updated_at = now;
}

abbrev pub activated : ℕ → String → OrgRow → OrgRow
activated now user_id org = record org {
  status = active;
  status_reason = none;
  activated_at = coalesce org.activated_at (some now);
  activated_by = some user_id;
  updated_at = now;
}

abbrev pub suspended_for : ℕ → String → OrgRow → OrgRow
suspended_for now reason org = record org {
  status = suspended;
  status_reason = some reason;
  updated_at = now;
}

abbrev pub blocked_for : ℕ → String → OrgRow → OrgRow
blocked_for now reason org = record org {
  status = suspended;
  blocked_at = some now;
  status_reason = some reason;
  updated_at = now;
}

-- INSERT OR IGNORE INTO blocked_emails: the address is the table's key.
abbrev pub bars : String → BlockedEmailRow → Bool
bars address row = str_eq row.email address

unfoldable pub bar_email :
    (reason org_id blocked_by : String)
    → ℕ
    → (address : String) → List BlockedEmailRow
    → List BlockedEmailRow
bar_email reason org_id blocked_by now address rows =
    if is_some (find_first (bars address) rows)
    then rows
    else rows
      ++ record {
        email = address;
        reason = reason;
        org_id = org_id;
        blocked_by = blocked_by;
        blocked_at = now;
      }
        ∷ []

unfoldable pub bar_members :
    (reason org_id blocked_by : String)
    → ℕ
    → List UserRow
    → List BlockedEmailRow
    → List BlockedEmailRow
bar_members reason org_id blocked_by now [] rows = rows
bar_members reason org_id blocked_by now (user ∷ users) rows =
    let others = bar_members reason org_id blocked_by now users rows in
    if member_of org_id user
    then bar_email reason org_id blocked_by now (canonical_email user.email) others
    else others

unfoldable pub is_blocked_email : String → Db → Bool
is_blocked_email address db =
    is_some (find_first (bars (canonical_email address)) db.blocked_emails)

-- One batch of statements is one transaction.
unfoldable pub block_org_batch : ℕ → (reason org_id user_id : String) → Db → Db
block_org_batch now reason org_id user_id db = record db {
  organizations = update_where (org_is org_id) (blocked_for now reason) db.organizations;
  users = update_where (member_of org_id) (held hold_blocked now reason) db.users;
  blocked_emails = bar_members reason org_id user_id now db.users db.blocked_emails;
  sessions = delete_where (session_in org_id db.users) db.sessions;
}

unfoldable pub suspend_org_batch : ℕ → (reason org_id : String) → Db → Db
suspend_org_batch now reason org_id db = record db {
  organizations = update_where (org_is org_id) (suspended_for now reason) db.organizations;
  sessions = delete_where (session_in org_id db.users) db.sessions;
}

unfoldable pub hold_batch : ℕ → (reason user_id : String) → Db → Db
hold_batch now reason user_id db = record db {
  users = update_where (is_user user_id) (held hold_disabled now reason) db.users;
  sessions = delete_where (λ s. str_eq s.user_id user_id) db.sessions;
}

unfoldable pub block_account_batch : ℕ → (reason admin_id : String) → UserRow → Db → Db
block_account_batch now reason admin_id target db = record db {
  users = update_where (is_user target.id) (held hold_blocked now reason) db.users;
  blocked_emails =
      bar_email reason target.org_id admin_id now (canonical_email target.email) db.blocked_emails;
  sessions = delete_where (λ s. str_eq s.user_id target.id) db.sessions;
}
