-- ===== src/Team/Owners.antt =====
-- The active owners of an organization when a login is changed (app/worker/routes/users.ts).
use ctf_website.Team.Counts.{count_kept, count_loses_one, All-map, only_row}
use ctf_website.Permissions.{require_permission}
use ctf_website.Http.Post.{throw_if_post, write_post, lift_post, select_post, require_post}
use ctf_website.Http.Keeps.{
  Keeps, Keeps-pure, Keeps-write, Keeps-bind, Keeps-then, Keeps-select, Keeps-require,
}
use ctf_website.Audit.{write_audit}
use ctf_website.Auth.{AuthContext}
use ctf_website.Team.{
  owned_user, active_owner, reset_member, is_owner, edit_member, reload, edited, revoke_if,
  revoke_sessions, set_users, keep_an_owner, with_password, handle_update_team_member,
  change_member, MemberUpdate, next_disabled, next_phone, is_reset,
}
use ctf_website.Schema.{UserRow, Db, UserRole, AuditRow}
use ctf_website.Base.{
  ℕ, ◌≤◌, ◌≡◌, inl, inr, sym, subst, String, Bool, true, false, not, ◌&&◌, ◌||◌, Option, some, List,
  [], ◌∷◌, arith, eq_iff, leb, Bool-cases, All, find_first, update_where, count_where,
  find_first_sound, if_cases,
}
use ctf_website.Http.{Exec, select, ◌>>=◌, ◌>>◌, bad_request}

abbrev pub owners_of : String → List UserRow → ℕ
owners_of org_id users = count_where (active_owner org_id) users

-- The ids of users are the table's primary key.
abbrev pub HasUniqueIds : String → List UserRow → Type 0
HasUniqueIds org_id users = (id : String) → count_where (owned_user id org_id) users ≤ 1

abbrev HasOwner : String → Db → Type 0
HasOwner org_id db = 1 ≤ owners_of org_id db.users

abbrev loses : UserRow → UserRole → Bool → Bool
loses target role disabled = is_owner target.role && (not (is_owner role) || disabled)

edited_active :
    (org_id : String) (target : UserRow) (role : UserRole) (disabled : Bool) (name : String)
    (phone : Option String) (now : ℕ)
    → loses target role disabled ≡ false
    → active_owner org_id target ≡ true
    → active_owner org_id (edited role disabled name phone now target) ≡ true
edited_active org_id target role disabled name phone now safe was = ground arith

edited_keeps :
    (org_id : String) (users : List UserRow) (target : UserRow) (role : UserRole) (disabled : Bool)
    (name : String) (phone : Option String) (now : ℕ)
    → count_where (owned_user target.id org_id) users ≤ 1
    → find_first (owned_user target.id org_id) users ≡ some target
    → (loses target role disabled && leb (owners_of org_id users) 1) ≡ false
    → 1 ≤ owners_of org_id users
    → 1
      ≤ owners_of org_id
          (update_where (owned_user target.id org_id) (edited role disabled name phone now) users)
edited_keeps org_id users target role disabled name phone now unique found guard has =
    elim (Bool-cases (loses target role disabled)) [
      | inl lost ↦
          let many : leb (owners_of org_id users) 1 ≡ false = rw lost at guard in
          let two : 2 ≤ owners_of org_id users = ground (arith, many) in
          omega (
            arith,
            two,
            count_loses_one (owned_user target.id org_id) (active_owner org_id)
                (edited role disabled name phone now) users unique,
          )
      | inr safe ↦ omega (
        arith,
        has,
        count_kept (owned_user target.id org_id) (active_owner org_id)
            (edited role disabled name phone now) users
            (All-map (owned_user target.id org_id) target
              (λ x same hit.
                subst
                  (λ u.
                    active_owner org_id u ≡ true
                    → active_owner org_id (edited role disabled name phone now u) ≡ true)
                  (sym (same hit)) (edited_active org_id target role disabled name phone now safe))
              users (only_row (owned_user target.id org_id) target users unique found)),
      )
    ]

keep_an_owner_post :
    {B : Type 0} (P : Db → Type 0) (org_id : String) (lost : Bool) (k : Exec B) (db : Db)
    → P db
    → ((lost && leb (owners_of org_id db.users) 1) ≡ false → P (k db).1)
    → P ((keep_an_owner org_id lost >> k) db).1
unfolding keep_an_owner select ◌>>=◌ ◌>>◌
keep_an_owner_post P org_id lost k db here later =
    throw_if_post P (lost && leb (owners_of org_id db.users) 1)
      (bad_request "This business must keep at least one active owner.") k db here later

module _ (auth : AuthContext) (now : ℕ) (ip password_hash : String) where
  abbrev Owned : Db → Type 0
  Owned db = HasOwner auth.org.id db

  Keeps-team_audit : (entry : AuditRow) → Keeps Owned (write_audit entry)
  unfolding write_audit
  Keeps-team_audit entry = Keeps-write _ (λ db h. h)

  Keeps-revoke_sessions : (id : String) → Keeps Owned (revoke_sessions id)
  unfolding revoke_sessions
  Keeps-revoke_sessions id = Keeps-write _ (λ db h. h)

  Keeps-revoke_if : (b : Bool) (id : String) → Keeps Owned (revoke_if b id)
  unfolding revoke_if
  Keeps-revoke_if true id = Keeps-revoke_sessions id
  Keeps-revoke_if false id = Keeps-pure _

  Keeps-reload : (id : String) → Keeps Owned (reload id)
  unfolding reload
  Keeps-reload id = Keeps-bind _ _ (Keeps-select _) (λ found. Keeps-require _ _)

  Keeps-reset_member :
      (target : UserRow) → Keeps Owned (reset_member auth now ip password_hash target)
  unfolding reset_member set_users
  Keeps-reset_member target =
      Keeps-then _ _
        (Keeps-write _ (λ db h. omega (
          arith,
          h,
          count_kept (owned_user target.id auth.org.id) (active_owner auth.org.id)
              (with_password now password_hash) db.users (every db.users),
        )))
        (Keeps-then _ _ (Keeps-revoke_sessions target.id)
          (Keeps-then _ _ (Keeps-team_audit _) (Keeps-reload target.id)))
    where
      every :
          (users : List UserRow)
          → All
              (λ x.
                owned_user target.id auth.org.id x ≡ true
                → active_owner auth.org.id x ≡ true
                → active_owner auth.org.id (with_password now password_hash x) ≡ true)
              users
      every [] = tt
      every (user ∷ users) = (λ hit was. was, every users)

  edit_member_keeps :
      (target : UserRow) (role : UserRole) (disabled : Bool) (name : String) (phone : Option String)
      (db : Db)
      → count_where (owned_user target.id auth.org.id) db.users ≤ 1
      → find_first (owned_user target.id auth.org.id) db.users ≡ some target
      → Owned db
      → Owned (edit_member auth now ip password_hash target role disabled name phone db).1
  unfolding edit_member set_users
  edit_member_keeps target role disabled name phone db unique found has =
      throw_if_post Owned _ _ _ db has (λ _. throw_if_post Owned _ _ _ db has (λ _.
        keep_an_owner_post Owned auth.org.id (loses target role disabled) _ db has (λ guard.
          write_post Owned _ _ db (
            (Keeps-then _ _ (Keeps-revoke_if _ target.id)
                (Keeps-then _ _ (Keeps-team_audit _) (Keeps-reload target.id))).at
              _
              (edited_keeps auth.org.id db.users target role disabled name phone now unique found
                guard has)))))

  change_member_keeps :
      (target : UserRow) (body : MemberUpdate) (db : Db)
      → count_where (owned_user target.id auth.org.id) db.users ≤ 1
      → find_first (owned_user target.id auth.org.id) db.users ≡ some target
      → Owned db
      → Owned (change_member auth now ip password_hash target body db).1
  unfolding change_member
  change_member_keeps target body db unique found has = lift_post Owned _ _ db has (λ role _.
      lift_post Owned _ _ db has (λ name _.
        edit_member_keeps target role (next_disabled target body.disabled) name
          (next_phone target body.phone) db unique found has))

  -- An organization that has an active owner still has one after any change that an owner makes to
  -- one of its logins: whatever the request asks for, and whether it is answered or refused.
  pub handle_update_team_member-HasOwner :
      (user_id : String) (body : MemberUpdate) (db : Db)
      → HasUniqueIds auth.org.id db.users
      → 1 ≤ owners_of auth.org.id db.users
      → 1
        ≤ owners_of auth.org.id
            (handle_update_team_member auth now ip password_hash user_id body db).1.users
  unfolding handle_update_team_member require_permission
  handle_update_team_member-HasOwner user_id body db unique has =
      throw_if_post Owned _ _ _ db has (λ _. select_post Owned _ _ db (
        require_post Owned _ _ _ db has (λ target found. throw_if_post Owned _ _ _ db has (λ free.
          if_cases (λ (m : Exec UserRow). Owned (m db).1) (is_reset body.reset_password)
            (λ reset. (Keeps-reset_member target).at db has)
            (λ edit.
              change_member_keeps target body db (unique target.id)
                (subst (λ x. find_first (owned_user x auth.org.id) db.users ≡ some target)
                  (sym (own_id user_id target db found)) found)
                has)))))
    where
      own_id :
          (id : String) (target : UserRow) (d : Db)
          → find_first (owned_user id auth.org.id) d.users ≡ some target
          → target.id ≡ id
      own_id id target d found =
          let hit : owned_user id auth.org.id target ≡ true = find_first_sound _ _ _ found in
          ground (arith, eq_iff target.id id, hit)
