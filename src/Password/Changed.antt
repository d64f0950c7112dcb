-- ===== src/Password/Changed.antt =====
-- What the change of a password takes and does (app/worker/routes/auth.ts).
use ctf_website.Base.{
  ℕ, ◌≡◌, ◌≢◌, refl, String, Bool, true, false, ◌&&◌, Option, none, some, List, [], ◌∷◌, arith,
  str_eq, eq_iff, subst, update_where, delete_where, filter_where,
}
use ctf_website.Schema.{Db, SessionRow}
use ctf_website.Http.{Exec, ok, throw, pure, ◌>>◌, write}
use ctf_website.Audit.{write_audit}
use ctf_website.Auth.{AuthContext}
use ctf_website.Auth.Session.{user_id_is}
use ctf_website.Crypto.Password.{PasswordHost, verify_password}
use ctf_website.Http.Ends.{OnEnd, test_end}
use ctf_website.Password.{
  Unicode, RuleId, long_enough, lowercase, uppercase, number, symbol, is_met, all_rules,
  password_rules, check_password, password_rejection_message,
}
use ctf_website.Password.Change.{
  handle_change_password, refuse_password, changed_password, other_sessions,
}

every_met :
    (test : RuleId → Bool)
    → all_rules test password_rules ≡ true
    → (rule : RuleId) → test rule ≡ true
every_met test h long_enough = ground arith
every_met test h lowercase = ground arith
every_met test h uppercase = ground arith
every_met test h number = ground arith
every_met test h symbol = ground arith

accepted_met :
    (unicode : Unicode) (password : String)
    → password_rejection_message unicode password ≡ none
    → all_rules (is_met unicode password) password_rules ≡ true
unfolding password_rejection_message check_password
accepted_met unicode password h = ground arith

only_own :
    (auth : AuthContext) (id : String) (rows : List SessionRow)
    → auth.session_id ≢ id
    → filter_where
        (λ s. str_eq s.user_id auth.user.id && str_eq s.id id)
        (delete_where (other_sessions auth) rows)
      ≡ []
unfolding filter_where delete_where
only_own auth id [] other = refl
only_own auth id (s ∷ rows) other =
    ground (arith, only_own auth id rows other, eq_iff s.id id, eq_iff s.id auth.session_id)

own_kept :
    (auth : AuthContext) (rows : List SessionRow)
    → filter_where (λ s. str_eq s.id auth.session_id) (delete_where (other_sessions auth) rows)
      ≡ filter_where (λ s. str_eq s.id auth.session_id) rows
unfolding filter_where delete_where
own_kept auth [] = refl
own_kept auth (s ∷ rows) = ground (arith, own_kept auth rows)

others_kept :
    (auth : AuthContext) (user_id : String) (rows : List SessionRow)
    → auth.user.id ≢ user_id
    → filter_where (λ s. str_eq s.user_id user_id) (delete_where (other_sessions auth) rows)
      ≡ filter_where (λ s. str_eq s.user_id user_id) rows
unfolding filter_where delete_where
others_kept auth user_id [] other = refl
others_kept auth user_id (s ∷ rows) other = ground (
  arith,
  others_kept auth user_id rows other,
  eq_iff s.user_id user_id,
  eq_iff s.user_id auth.user.id,
)

refused_end :
    (V : Db → Type 0) (message : Option String) (n : Exec (Unit {0})) (db : Db)
    → (message ≡ none → OnEnd V (n db))
    → OnEnd V ((refuse_password message >> n) db)
unfolding throw pure ◌>>◌
refused_end V none n db h = h refl
refused_end V (some message) n db h = tt

module _ (passwords : PasswordHost) (unicode : Unicode) (iterations : Option ℕ) (now : ℕ)
    (ip : String) (auth : AuthContext) (current_password new_password : String) (before : Db) where
  pub record IsChanged (after : Db) : Type 0 where
    pub knew : verify_password passwords current_password auth.user.password_hash ≡ true
    pub met : (rule : RuleId) → is_met unicode new_password rule ≡ true
    pub differs : str_eq new_password current_password ≡ false
    pub stored :
        after.users
        ≡ update_where
            (user_id_is auth.user.id)
            (changed_password now (passwords.hash_password new_password iterations))
            before.users
    pub out_elsewhere :
        (id : String)
        → auth.session_id ≢ id
        → filter_where (λ s. str_eq s.user_id auth.user.id && str_eq s.id id) after.sessions ≡ []
    pub here :
        filter_where (λ s. str_eq s.id auth.session_id) after.sessions
        ≡ filter_where (λ s. str_eq s.id auth.session_id) before.sessions
    pub others :
        (user_id : String)
        → auth.user.id ≢ user_id
        → filter_where (λ s. str_eq s.user_id user_id) after.sessions
          ≡ filter_where (λ s. str_eq s.user_id user_id) before.sessions

  change-IsChanged : OnEnd IsChanged (
      handle_change_password passwords unicode iterations now ip auth current_password new_password
        before)
  unfolding handle_change_password write_audit write ◌>>◌
  change-IsChanged = test_end IsChanged _ _ _ before (λ knew.
      refused_end IsChanged _ _ before (λ accepted. test_end IsChanged _ _ _ before (λ differs.
        record {
          knew = ground arith;
          met =
              every_met (is_met unicode new_password) (accepted_met unicode new_password accepted);
          differs = differs;
          stored = refl;
          out_elsewhere = λ id. only_own auth id before.sessions;
          here = own_kept auth before.sessions;
          others = λ user_id. others_kept auth user_id before.sessions;
        })))

-- A password is changed for a user who gave the current one, to one that meets each of the rules and
-- is not the current one. Behind it the hash of the new one is stored, the session of the request is
-- as before, every other session of the user is gone, and the sessions of all other users are as
-- before.
pub handle_change_password-IsChanged :
    (passwords : PasswordHost) (unicode : Unicode) (iterations : Option ℕ) (now : ℕ) (ip : String)
    (auth : AuthContext) (current_password new_password : String) (before after : Db)
    → handle_change_password passwords unicode iterations now ip auth current_password new_password
        before
      ≡ (ok tt, after)
    → IsChanged passwords unicode iterations now ip auth current_password new_password before after
handle_change_password-IsChanged passwords unicode iterations now ip auth current_password
      new_password before after h =
    subst
      (OnEnd
        (IsChanged passwords unicode iterations now ip auth current_password new_password before))
      h
      (change-IsChanged passwords unicode iterations now ip auth current_password new_password
        before)
