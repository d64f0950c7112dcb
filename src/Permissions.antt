-- ===== src/Permissions.antt =====
-- app/worker/lib/permissions.ts: what a role may do inside its own organization.
mod Tests
use ctf_website.Base.{
  ◌≡◌, ◌↔◌, ◌⊎◌, refl, String, Bool, true, false, not, List, [], ◌∷◌, arith, ◌||◌,
}
use ctf_website.Schema.{UserRole, owner, staff}
use ctf_website.Http.{Exec, forbidden, throw_if}

pub data Permission : Type 0 where
  calls_read calls_control users_manage org_manage : Permission

unfoldable pub permissions_for : UserRole → List Permission
permissions_for owner = calls_read ∷ calls_control ∷ users_manage ∷ org_manage ∷ []
permissions_for staff = calls_read ∷ calls_control ∷ []

abbrev same_permission : Permission → Permission → Bool
same_permission calls_read calls_read = true
same_permission calls_control calls_control = true
same_permission users_manage users_manage = true
same_permission org_manage org_manage = true
same_permission _ _ = false

includes : Permission → List Permission → Bool
includes permission [] = false
includes permission (p ∷ ps) = same_permission p permission || includes permission ps

unfoldable pub can : UserRole → Permission → Bool
unfolding permissions_for includes
can role permission = includes permission (permissions_for role)

unfoldable pub denial_message : Permission → String
denial_message calls_read = "You do not have access to call history."
denial_message calls_control = "You do not have permission to take over or end calls."
denial_message users_manage = "Only an owner can manage logins for this business."
denial_message org_manage = "Only an owner can change these settings."

unfoldable pub require_permission : UserRole → Permission → Exec (Unit {0})
require_permission role permission =
    throw_if (not (can role permission)) (forbidden (denial_message permission))

-- An owner may do everything, and staff everything but manage logins and settings.
pub can_iff :
    (role : UserRole) (permission : Permission)
    → (can role permission ≡ true)
      ↔ ((role ≡ owner) ⊎ ((permission ≡ calls_read) ⊎ (permission ≡ calls_control)))
unfolding can
can_iff role permission = ground arith
