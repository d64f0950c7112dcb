-- ===== src/Signup/Made.antt =====
-- Whom a sign-up makes (app/worker/routes/signup.ts).
use ctf_website.Base.{ℕ, ◌≡◌, String, Option, none, some, [], ◌∷◌, ◌++◌, find_first, OnSome}
use ctf_website.Schema.{Db, UserRow}
use ctf_website.Http.{Exec, Result, ok, err, pure, try_catch, recovered, continue, ◌>>=◌}
use ctf_website.Http.Returns.{
  OnOk, bind_returns, select_returns, write_returns, throw_if_returns, require_returns,
}
use ctf_website.Audit.{write_audit}
use ctf_website.Auth.Session.{user_id_is}
use ctf_website.Google.{GoogleIdentity}
use ctf_website.Signup.{
  NewIds, SignupPayload, create_pending_organization, first_owner, record_platform_notice,
}
use ctf_website.Signup.Terms.{record_consent}

-- The row of the new id once the new owner is added.
abbrev pub Made : NewIds → ℕ → GoogleIdentity → Db → UserRow → Type 0
Made ids now identity db user =
    find_first (user_id_is ids.user_id) (db.users ++ first_owner ids now identity ∷ []) ≡ some user

caught_returns :
    (Q : UserRow → Type 0) (m : Exec UserRow) (db : Db)
    → OnOk Q (m db).0
    → OnOk (OnSome Q) (try_catch (m >>= λ user. pure (some user)) (λ error. pure none) db).0
unfolding try_catch ◌>>=◌ pure
caught_returns Q m db h = go (m db).0 (m db).1 h
  where
    go :
        (r : Result UserRow) (db' : Db)
        → OnOk Q r
        → OnOk
            (OnSome Q)
            (recovered (continue (r, db') (λ user. pure (some user))) (λ error. pure none)).0
    go (ok user) db' h = h
    go (err e) db' h = tt

module _ (ids : NewIds) (now : ℕ) (ip : String) (agent : Option String) (identity : GoogleIdentity)
    (payload : SignupPayload) (db : Db) where
  create_pending_organization-Made :
      OnOk
        (Made ids now identity db)
        (create_pending_organization ids now ip agent identity payload db).0
  unfolding create_pending_organization record_consent write_audit record_platform_notice
  create_pending_organization-Made =
      let Q = Made ids now identity db in
      select_returns Q _ _ db (
        select_returns Q _ _ db (
          throw_if_returns Q _ _ _ db (
            write_returns Q _ _ db (
              write_returns Q _ _ _ (
                write_returns Q _ _ _ (
                  write_returns Q _ _ _ (
                    select_returns Q _ _ _ (
                      select_returns Q _ _ _ (
                        bind_returns Q _ _ _
                          (λ org db'. require_returns Q _ _ db' (λ user h. h)))))))))))

  pub sign_up-Made :
      OnOk
        (OnSome (Made ids now identity db))
        (try_catch
          (create_pending_organization ids now ip agent identity payload >>= λ user.
            pure (some user))
          (λ error. pure none)
          db).0
  sign_up-Made = caught_returns (Made ids now identity db) _ db create_pending_organization-Made
