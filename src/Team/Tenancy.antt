-- ===== src/Team/Tenancy.antt =====
-- The logins of the other organizations when a login is changed (app/worker/routes/users.ts).
use ctf_website.Http.Keeps.{
  Keeps, Keeps-write, Keeps-then, Keeps-bind, Keeps-pure, Keeps-throw_if, Keeps-select, Keeps-lift,
  Keeps-require, Keeps-if,
}
use ctf_website.Permissions.{require_permission}
use ctf_website.Audit.{write_audit}
use ctf_website.Team.{
  set_users, reload, edit_member, keep_an_owner, change_member, owned_user, MemberUpdate,
  handle_update_team_member, reset_member, revoke_sessions, revoke_if, with_password, edited,
}
use ctf_website.Auth.{AuthContext}
use ctf_website.Schema.{UserRow, Db, AuditRow, UserRole}
use ctf_website.Base.{
  ℕ, ◌≡◌, inl, inr, refl, ap, String, Bool, true, false, not, Option, List, [], ◌∷◌, arith,
  if◌then◌else◌, Bool-cases, str_eq, update_where, filter_where, ◌∙◌,
}

abbrev pub foreign : String → UserRow → Bool
foreign org_id user = not (str_eq user.org_id org_id)

-- The logins of all other organizations.
abbrev pub foreigners : String → Db → List UserRow
foreigners org_id db = filter_where (foreign org_id) db.users

filter_where-update_where :
    {A : Type 0} (keep test : A → Bool) (change : A → A) (xs : List A)
    → ((x : A) → test x ≡ true → (keep x ≡ false) × (keep (change x) ≡ false))
    → filter_where keep (update_where test change xs) ≡ filter_where keep xs
unfolding filter_where update_where
filter_where-update_where keep test change [] h = refl
filter_where-update_where keep test change (x ∷ xs) h = elim (Bool-cases (test x)) [
  | inl hit ↦
      let (out, out') = h x hit in
      rw hit (rw out (rw out' (filter_where-update_where keep test change xs h)))
  | inr miss ↦
      rw miss
        (ap (λ r. if keep x then x ∷ r else r) (filter_where-update_where keep test change xs h))
]

module _ (auth : AuthContext) (before : List UserRow) where
  Same : Db → Type 0
  Same db = foreigners auth.org.id db ≡ before

  owned_is_own :
      (id : String) (user : UserRow)
      → owned_user id auth.org.id user ≡ true
      → foreign auth.org.id user ≡ false
  owned_is_own id user hit = ground arith

  Keeps-set_users :
      (id : String) (change : UserRow → UserRow)
      → ((user : UserRow) → (change user).org_id ≡ user.org_id)
      → Keeps Same (set_users (owned_user id auth.org.id) change)
  unfolding set_users Same
  Keeps-set_users id change same_org = Keeps-write _ (λ db h.
      filter_where-update_where (foreign auth.org.id) (owned_user id auth.org.id) change db.users
        (λ user hit. (
          owned_is_own id user hit,
          ap (λ o. not (str_eq o auth.org.id)) (same_org user) ∙ owned_is_own id user hit,
        ))
      ∙ h)

  Keeps-audited : (entry : AuditRow) → Keeps Same (write_audit entry)
  unfolding write_audit Same
  Keeps-audited entry = Keeps-write _ (λ db h. h)

  Keeps-revoked : (id : String) → Keeps Same (revoke_sessions id)
  unfolding revoke_sessions Same
  Keeps-revoked id = Keeps-write _ (λ db h. h)

  Keeps-revoked_if : (b : Bool) (id : String) → Keeps Same (revoke_if b id)
  unfolding revoke_if
  Keeps-revoked_if true id = Keeps-revoked id
  Keeps-revoked_if false id = Keeps-pure _

  Keeps-reloaded : (id : String) → Keeps Same (reload id)
  unfolding reload
  Keeps-reloaded id = Keeps-bind _ _ (Keeps-select _) (λ found. Keeps-require _ _)

  Keeps-owner_check : (lost : Bool) → Keeps Same (keep_an_owner auth.org.id lost)
  unfolding keep_an_owner
  Keeps-owner_check lost = Keeps-bind _ _ (Keeps-select _) (λ owners. Keeps-throw_if _ _)

  module _ (now : ℕ) (ip password_hash : String) where
    Keeps-reset : (target : UserRow) → Keeps Same (reset_member auth now ip password_hash target)
    unfolding reset_member
    Keeps-reset target =
        Keeps-then _ _ (Keeps-set_users target.id (with_password now password_hash) (λ user. refl))
          (Keeps-then _ _ (Keeps-revoked target.id)
            (Keeps-then _ _ (Keeps-audited _) (Keeps-reloaded target.id)))

    Keeps-edit :
        (target : UserRow) (role : UserRole) (disabled : Bool) (name : String)
        (phone : Option String)
        → Keeps Same (edit_member auth now ip password_hash target role disabled name phone)
    unfolding edit_member
    Keeps-edit target role disabled name phone = Keeps-then _ _ (Keeps-throw_if _ _) (
        Keeps-then _ _ (Keeps-throw_if _ _) (
          Keeps-then _ _ (Keeps-owner_check _) (
            Keeps-then _ _
              (Keeps-set_users target.id (edited role disabled name phone now) (λ user. refl))
              (Keeps-then _ _ (Keeps-revoked_if _ target.id)
                (Keeps-then _ _ (Keeps-audited _) (Keeps-reloaded target.id))))))

    Keeps-change :
        (target : UserRow) (body : MemberUpdate)
        → Keeps Same (change_member auth now ip password_hash target body)
    unfolding change_member
    Keeps-change target body =
        Keeps-bind _ _ (Keeps-lift _)
          (λ role. Keeps-bind _ _ (Keeps-lift _) (λ name. Keeps-edit target role _ name _))

    Keeps-update :
        (user_id : String) (body : MemberUpdate)
        → Keeps Same (handle_update_team_member auth now ip password_hash user_id body)
    unfolding handle_update_team_member require_permission
    Keeps-update user_id body = Keeps-then _ _ (Keeps-throw_if _ _) (
        Keeps-bind _ _ (Keeps-select _) (λ found. Keeps-bind _ _ (Keeps-require _ _) (λ target.
          Keeps-then _ _ (Keeps-throw_if _ _)
            (Keeps-if _ _ _ (Keeps-reset target) (Keeps-change target body)))))

-- A change to a login, whatever id is asked for, leaves the logins of every other organization
-- exactly as they are.
pub handle_update_team_member-foreigners :
    (auth : AuthContext) (now : ℕ) (ip password_hash user_id : String) (body : MemberUpdate)
    (db : Db)
    → foreigners auth.org.id (handle_update_team_member auth now ip password_hash user_id body db).1
      ≡ foreigners auth.org.id db
unfolding Same
handle_update_team_member-foreigners auth now ip password_hash user_id body db =
    (Keeps-update auth (foreigners auth.org.id db) now ip password_hash user_id body).at db refl
