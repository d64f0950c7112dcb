-- ===== src/Team.antt =====
-- app/worker/routes/users.ts: the logins of an organization, managed by its owners.
pub mod Tenancy
pub mod Counts
pub mod Owners
mod Tests
use ctf_website.Permissions.{require_permission, users_manage}
use ctf_website.Audit.{write_audit}
use ctf_website.Base.Texts.{present, trim}
use ctf_website.Schema.{UserRole, PlatformHold, UserRow, AuditRow, owner, staff}
use ctf_website.Auth.{AuthContext}
use ctf_website.Base.{
  ℕ, suc, zero, ◌+◌, ◌-◌, ◌*◌, ◌/◌, ◌%◌, ◌≤◌, ◌<◌, min, max, ◌≡◌, ◌≢◌, ◌↔◌, ◌⊎◌, inl, inr, refl,
  sym, ap, subst, String, Bool, true, false, not, ◌&&◌, ◌||◌, Option, none, some, List, [], ◌∷◌,
  ◌++◌, map, arith, eq_iff, eq_refl, ltb, leb, ◌==◌, if◌then◌else◌, Bool-cases, Option-cases,
  coalesce, or_else, is_some, str_eq, length, All, find_first, update_where, delete_where,
  filter_where, count_where,
}
use ctf_website.Http.{
  Exec, Result, ok, err, pure, throw, throw_if, require, select, write, lift, ◌>>=◌, ◌>>◌,
  bad_request, HttpError, not_found, forbidden,
}
use Prim.Native.String.{◌++◌ as append_text}

-- The fields of a request's body that are there: a text, a flag, and whether a field is there at
-- all but of another type.
pub data Field (A : Type 0) : Type 0 where
  absent : Field A
  other_type : Field A
  given : A → Field A

pub record MemberUpdate : Type 0 where
  pub role : Field String
  pub disabled : Field Bool
  pub name : Field String
  pub phone : Field String
  pub reset_password : Field Bool

abbrev pub role_error : HttpError
role_error = bad_request "Role must be either owner or staff."

unfoldable pub parse_role : Field String → Result UserRole
parse_role (given role) =
    if str_eq role "owner"
    then ok owner
    else if str_eq role "staff"
    then ok staff
    else err role_error
parse_role field = err role_error

abbrev pub is_absent : {A : Type 0} → Field A → Bool
is_absent absent = true
is_absent field = false

unfoldable pub next_role : UserRow → Field String → Result UserRole
next_role target field = if is_absent field then ok target.role else parse_role field

-- `body.disabled === true`
unfoldable pub next_disabled : UserRow → Field Bool → Bool
next_disabled target absent = target.disabled
next_disabled target (given b) = b
next_disabled target other_type = false

abbrev pub name_or_error : Option String → Result String
name_or_error none = err (bad_request "Name cannot be empty.")
name_or_error (some name) = ok name

abbrev pub trimmed : Field String → Option String
trimmed (given s) = present (some (trim s))
trimmed field = none

unfoldable pub next_name : UserRow → Field String → Result String
next_name target field = if is_absent field then ok target.name else name_or_error (trimmed field)

unfoldable pub next_phone : UserRow → Field String → Option String
next_phone target field = if is_absent field then target.phone else trimmed field

abbrev pub is_owner : UserRole → Bool
is_owner UserRole.owner = true
is_owner UserRole.staff = false

abbrev pub owned_user : (id org_id : String) → UserRow → Bool
owned_user id org_id user = str_eq user.id id && str_eq user.org_id org_id

-- WHERE org_id = ? AND role = 'owner' AND disabled = 0
abbrev pub active_owner : String → UserRow → Bool
active_owner org_id user = str_eq user.org_id org_id && (is_owner user.role && not user.disabled)

abbrev pub hold_message : Option PlatformHold → String
hold_message (some PlatformHold.hold_blocked) =
    "Cut Through Faster has closed this login. It cannot be changed."
hold_message hold = "Cut Through Faster has disabled this login. Please contact CTF."

abbrev pub is_reset : Field Bool → Bool
is_reset (given true) = true
is_reset field = false

abbrev pub role_text : UserRole → String
role_text UserRole.owner = "owner"
role_text UserRole.staff = "staff"

abbrev pub flag_text : Bool → String
flag_text true = "true"
flag_text false = "false"

abbrev pub audit_team :
    AuthContext → (action target : String) → Option String → String → ℕ → AuditRow
audit_team auth action target detail ip now = record {
  org_id = some auth.org.id;
  user_id = some auth.user.id;
  action = action;
  target = some target;
  detail = detail;
  ip = some ip;
  created_at = now;
}

abbrev pub with_password : ℕ → String → UserRow → UserRow
with_password now password_hash user = record user {
  password_hash = password_hash;
  must_change_password = true;
  updated_at = now;
}

abbrev pub edited : UserRole → Bool → String → Option String → ℕ → UserRow → UserRow
edited role disabled name phone now user = record user {
  role = role;
  disabled = disabled;
  name = name;
  phone = phone;
  updated_at = now;
}

unfoldable pub set_users : (UserRow → Bool) → (UserRow → UserRow) → Exec (Unit {0})
set_users test change = write (λ db. record db { users = update_where test change db.users })

unfoldable pub revoke_sessions : String → Exec (Unit {0})
revoke_sessions user_id =
    write (λ db. record db { sessions = delete_where (λ s. str_eq s.user_id user_id) db.sessions })

unfoldable pub revoke_if : Bool → String → Exec (Unit {0})
revoke_if true user_id = revoke_sessions user_id
revoke_if false user_id = pure tt

unfoldable pub reload : String → Exec UserRow
reload id = do
  found ← select (λ db. find_first (λ user. str_eq user.id id) db.users)
  require found (not_found "That login could not be found.")

-- The last guard: an active owner must remain.
unfoldable pub keep_an_owner : String → (lost : Bool) → Exec (Unit {0})
keep_an_owner org_id lost = do
  owners ← select (λ db. count_where (active_owner org_id) db.users)
  throw_if (lost && leb owners 1) (bad_request "This business must keep at least one active owner.")

-- `password_hash` is the hash of the password that is drawn.
module _ (auth : AuthContext) (now : ℕ) (ip password_hash : String) where
  unfoldable pub reset_member : UserRow → Exec UserRow
  reset_member target = do
    set_users (owned_user target.id auth.org.id) (with_password now password_hash)
    revoke_sessions target.id
    write_audit (audit_team auth "users.reset_password" target.id none ip now)
    reload target.id

  unfoldable pub edit_member : UserRow → UserRole → Bool → String → Option String → Exec UserRow
  edit_member target role disabled name phone = do
    throw_if (str_eq target.id auth.user.id && disabled)
        (bad_request "You cannot disable your own login.")
    throw_if (str_eq target.id auth.user.id && not (is_owner role))
        (bad_request "You cannot remove your own owner access.")
    keep_an_owner auth.org.id (is_owner target.role && (not (is_owner role) || disabled))
    set_users (owned_user target.id auth.org.id) (edited role disabled name phone now)
    revoke_if (disabled && not target.disabled) target.id
    write_audit (
        audit_team auth
          (if disabled && not target.disabled then "users.disable" else "users.update") target.id
          (some (
            append_text "role="
              (append_text (role_text role) (append_text " disabled=" (flag_text disabled)))))
          ip now)
    reload target.id

  unfoldable pub change_member : UserRow → MemberUpdate → Exec UserRow
  change_member target body = do
    role ← lift (next_role target body.role)
    name ← lift (next_name target body.name)
    edit_member target role (next_disabled target body.disabled) name (next_phone target body.phone)

  unfoldable pub handle_update_team_member : (user_id : String) → MemberUpdate → Exec UserRow
  handle_update_team_member user_id body = do
    require_permission auth.user.role users_manage
    found ← select (λ db. find_first (owned_user user_id auth.org.id) db.users)
    target ← require found (not_found "That login could not be found.")
    throw_if (is_some target.platform_hold) (forbidden (hold_message target.platform_hold))
    if is_reset body.reset_password then reset_member target else change_member target body
