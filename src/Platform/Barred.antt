-- ===== src/Platform/Barred.antt =====
-- Blocked logins under the actions of the console (app/worker/routes/platform.ts).
use ctf_website.Platform.Batches.{
  hold_batch, is_user, suspend_org_batch, block_account_batch, block_org_batch, held, member_of,
  released,
}
use ctf_website.Http.Post.{throw_if_post, require_post, select_post}
use ctf_website.Auth.{AuthContext}
use ctf_website.Http.Keeps.{
  Keeps, Keeps-require, Keeps-then, Keeps-write, Keeps-throw_if, Keeps-bind, Keeps-pure,
  Keeps-select, then_after,
}
use ctf_website.Audit.{write_audit}
use ctf_website.Schema.{UserRow, Db, hold_blocked, AuditRow, hold_disabled, PlatformHold, OrgRow}
use ctf_website.Platform.Enforcement.{
  disable, enable, block_account, activate, suspend, block_org, act_on_account,
  require_platform_admin, require_reason, AccountAction, is_hold, act_on_org,
  handle_admin_org_action, handle_admin_account_action, require_step_up, OrgAction,
}
use ctf_website.Base.{
  ℕ, ◌≡◌, ◌≢◌, refl, sym, subst, String, Bool, true, false, Option, some, List, arith, eq_iff, All,
  find_first, update_where, All-update_where, ◌∙◌, All-find_first,
}

abbrev pub IsHeld : String → UserRow → Type 0
IsHeld id user = user.id ≡ id → (user.disabled ≡ true) × (user.platform_hold ≡ some hold_blocked)

-- Every row of that id is disabled and blocked.
pub record IsBarred (id : String) (db : Db) : Type 0 where
  pub rows : All (IsHeld id) db.users

Keeps-require_platform_admin :
    {P : Db → Type 0} (auth : AuthContext) → Keeps P (require_platform_admin auth)
unfolding require_platform_admin
Keeps-require_platform_admin auth = Keeps-then _ _ (Keeps-throw_if _ _) (Keeps-throw_if _ _)

Keeps-require_reason : {P : Db → Type 0} (reason : Option String) → Keeps P (require_reason reason)
unfolding require_reason
Keeps-require_reason reason = Keeps-require _ _

module _ (id : String) where
  Keeps-audit : (entry : AuditRow) → Keeps (IsBarred id) (write_audit entry)
  unfolding write_audit
  Keeps-audit entry = Keeps-write _ (λ db h. record { rows = h.rows })

  changed :
      (test : UserRow → Bool) (change : UserRow → UserRow) (db db' : Db)
      → ((user : UserRow) → IsHeld id user → test user ≡ true → IsHeld id (change user))
      → IsBarred id db
      → db'.users ≡ update_where test change db.users
      → IsBarred id db'
  changed test change db db' keep h e = record {
    rows =
        subst (All (IsHeld id)) (sym e)
          (All-update_where (IsHeld id) test change db.users keep h.rows);
  }

  elsewhere :
      (target_id : String) (user : UserRow)
      → target_id ≢ id
      → is_user target_id user ≡ true
      → user.id ≢ id
  elsewhere target_id user other hit e = other (sym ((eq_iff user.id target_id).0 hit) ∙ e)

  Keeps-act_on_account :
      (now : ℕ) (admin_id : String) (reason : Option String) (target : UserRow)
      (act : AccountAction)
      → target.id ≢ id
      → Keeps (IsBarred id) (act_on_account now admin_id reason target act)
  unfolding act_on_account hold_batch block_account_batch
  Keeps-act_on_account now admin_id reason target disable other =
      Keeps-then _ _ (Keeps-throw_if _ _) (
        Keeps-bind _ _ (Keeps-require_reason reason) (λ given.
          Keeps-then _ _
            (Keeps-write _ (λ db h.
              changed (is_user target.id) (held hold_disabled now given) db _
                (λ user _ hit e. absurd (elsewhere target.id user other hit e)) h refl))
            (Keeps-pure _)))
  Keeps-act_on_account now admin_id reason target enable other =
      Keeps-then _ _ (Keeps-throw_if _ _) (
        Keeps-then _ _
          (Keeps-write _ (λ db h.
            changed (is_user target.id) (released now) db _
              (λ user _ hit e. absurd (elsewhere target.id user other hit e)) h refl))
          (Keeps-pure _))
  Keeps-act_on_account now admin_id reason target block_account other =
      Keeps-bind _ _ (Keeps-require_reason reason) (λ given.
        Keeps-then _ _
          (Keeps-write _ (λ db h.
            changed (is_user target.id) (held hold_blocked now given) db _
              (λ user _ hit e. absurd (elsewhere target.id user other hit e)) h refl))
          (Keeps-pure _))

  Keeps-act_on_org :
      (now : ℕ) (admin_id : String) (reason : Option String) (org : OrgRow) (act : OrgAction)
      → Keeps (IsBarred id) (act_on_org now admin_id reason org act)
  unfolding act_on_org suspend_org_batch block_org_batch
  Keeps-act_on_org now admin_id reason org activate =
      Keeps-then _ _ (Keeps-throw_if _ _)
        (Keeps-then _ _ (Keeps-write _ (λ db h. record { rows = h.rows })) (Keeps-pure _))
  Keeps-act_on_org now admin_id reason org suspend = Keeps-then _ _ (Keeps-throw_if _ _) (
      Keeps-bind _ _ (Keeps-require_reason reason)
        (λ given. Keeps-then _ _ (Keeps-write _ (λ db h. record { rows = h.rows })) (Keeps-pure _)))
  Keeps-act_on_org now admin_id reason org block_org =
      Keeps-bind _ _ (Keeps-require_reason reason) (λ given.
        Keeps-then _ _
          (Keeps-write _ (λ db h.
            changed (member_of org.id) (held hold_blocked now given) db _
              (λ user _ hit e. (refl, refl)) h refl))
          (Keeps-pure _))

  -- The target of an action is another login where it is not blocked itself.
  unblocked :
      (users : List UserRow) (user_id : String) (target : UserRow)
      → All (IsHeld id) users
      → find_first (is_user user_id) users ≡ some target
      → is_hold hold_blocked target.platform_hold ≡ false
      → target.id ≢ id
  unblocked users user_id target h found free e =
      let barred = All-find_first (IsHeld id) (is_user user_id) users target h found e in
      clash target.platform_hold barred.1 free
    where
      clash :
          (hold : Option PlatformHold)
          → hold ≡ some hold_blocked
          → is_hold hold_blocked hold ≡ false
          → ⊥
      clash hold held_so open_so = ground arith

module _ (id : String) (auth : AuthContext) (now : ℕ) (ip : String) where
  -- Whatever an administrator does to a login from the console, a login that is disabled and blocked
  -- stays so.
  pub handle_admin_account_action-IsBarred :
      (user_id action : String) (reason : Option String) (db : Db)
      → IsBarred id db
      → IsBarred id (handle_admin_account_action auth now ip user_id action reason db).1
  unfolding handle_admin_account_action require_step_up
  handle_admin_account_action-IsBarred user_id action reason db start =
      let P = IsBarred id in
      then_after P P _ _ (Keeps-require_platform_admin auth) (λ d h. h)
        (λ d h. throw_if_post P _ _ _ d h (λ _. require_post P _ _ _ d h (λ act _.
          select_post P _ _ d (
            require_post P _ _ _ d h (λ target found. select_post P _ _ d (
              require_post P _ _ _ d h (λ org _. throw_if_post P _ _ _ d h (λ _.
                throw_if_post P _ _ _ d h (λ free.
                  (Keeps-bind _ _
                      (Keeps-act_on_account id now auth.user.id reason target act
                        (unblocked id d.users user_id target h.rows found free))
                      (λ given. Keeps-then _ _ (Keeps-audit id _) (Keeps-pure _))).at
                    d h)))))))))
        db start

  -- Whatever an administrator does to an organization from the console, a login that is disabled and
  -- blocked stays so.
  pub handle_admin_org_action-IsBarred :
      (org_id action : String) (reason : Option String) (db : Db)
      → IsBarred id db
      → IsBarred id (handle_admin_org_action auth now ip org_id action reason db).1
  unfolding handle_admin_org_action require_step_up
  handle_admin_org_action-IsBarred org_id action reason db start =
      (Keeps-then _ _ (Keeps-require_platform_admin auth) (
          Keeps-then _ _ (Keeps-throw_if _ _) (
            Keeps-bind _ _ (Keeps-require _ _) (λ act. Keeps-bind _ _ (Keeps-select _) (λ found.
              Keeps-bind _ _ (Keeps-require _ _) (λ org. Keeps-then _ _ (Keeps-throw_if _ _) (
                Keeps-then _ _ (Keeps-throw_if _ _) (
                  Keeps-bind _ _ (Keeps-act_on_org id now auth.user.id reason org act)
                    (λ given. Keeps-then _ _ (Keeps-audit id _) (Keeps-pure _)))))))))).at
        db start
