-- ===== src/Auth/Login/Sessions.antt =====
-- Which sessions a sign-in by password opens (app/worker/routes/auth.ts).
-- The one session that a sign-in with the right password opens.
use ctf_website.Base.Texts.{present, to_lower, trim}
use ctf_website.Crypto.Password.{verify_password}
use ctf_website.Auth.Session.{create_session, new_session, user_id_is}
use ctf_website.Http.Post.{select_post, require_post, quiet_then_post}
use ctf_website.Http.Keeps.{
  Keeps, keeps_rules, Keeps-write, Keeps-then, Keeps-pure, Keeps-bind, Keeps-throw_if, Keeps-throw,
  then_after,
}
use ctf_website.Audit.{write_audit}
use ctf_website.TwoFactor.{mail_if, start_challenge, FactorHost, requires_second_factor}
use ctf_website.Auth.Limiter.{record_login_attempt, assert_login_allowed, is_limited}
use ctf_website.Schema.{SessionRow, Db, AuditRow, UserRow, OrgRow}
use ctf_website.Auth.Login.{
  SignInHost, Drawn, open_challenge, judge, upgrade_hash, admit, refuse, open_session, email_is,
  LoginReply, handle_login,
}
use ctf_website.Base.{
  ℕ, ◌≡◌, ◌⊎◌, inl, inr, refl, sym, ap, subst, String, Bool, true, false, not, ◌&&◌, Option, none,
  some, List, [], ◌∷◌, ◌++◌, arith, Bool-cases, find_first, update_where, if_cases, some_inj,
}
use ctf_website.Http.{Exec, exec}

pub record OpensOne (host : SignInHost) (address password : String) (before after : Db)
    : Type 0 where
  pub user : UserRow
  pub known : find_first (email_is address) before.users ≡ some user
  pub proved : verify_password host.passwords password user.password_hash ≡ true
  pub enabled : user.disabled ≡ false
  pub one_factor : requires_second_factor user ≡ false
  pub session : SessionRow
  pub own : session.user_id ≡ user.id
  pub added : after.sessions ≡ before.sessions ++ session ∷ []

abbrev Same : List SessionRow → Db → Type 0
Same sessions db = db.sessions ≡ sessions

abbrev pub Opens : SignInHost → (address password : String) → (before after : Db) → Type 0
Opens host address password before after =
    (after.sessions ≡ before.sessions) ⊎ OpensOne host address password before after

Keeps-record_login_attempt :
    (sessions : List SessionRow) (now : ℕ) (email ip : String) (successful : Bool)
    → Keeps (Same sessions) (record_login_attempt now email ip successful)
unfolding record_login_attempt
Keeps-record_login_attempt sessions now email ip successful = Keeps-write _ (λ db h. h)

Keeps-write_audit :
    (sessions : List SessionRow) (entry : AuditRow) → Keeps (Same sessions) (write_audit entry)
unfolding write_audit
Keeps-write_audit sessions entry = Keeps-write _ (λ db h. h)

Keeps-mail_if :
    (sessions : List SessionRow) (host : FactorHost) (b : Bool) (to code : String)
    → Keeps (Same sessions) (mail_if host b to code)
unfolding mail_if
Keeps-mail_if sessions host true to code = search keeps_rules
Keeps-mail_if sessions host false to code = search keeps_rules

Keeps-start_challenge :
    (sessions : List SessionRow) (host : FactorHost) (now : ℕ) (id code : String) (user : UserRow)
    → Keeps (Same sessions) (start_challenge host now id code user)
unfolding start_challenge
Keeps-start_challenge sessions host now id code user = Keeps-then _ _ (Keeps-throw_if _ _) (
    Keeps-then _ _ (Keeps-write _ (λ db h. h))
      (Keeps-then _ _ (Keeps-mail_if sessions host _ _ _) (Keeps-pure _)))

module _ (host : SignInHost) (now : ℕ) (drawn : Drawn) (ip : String) (user_agent : Option String)
    (address password : String) where
  module _ (sessions : List SessionRow) where
    Keeps-refuse : Keeps (Same sessions) (refuse host now drawn ip user_agent address)
    unfolding refuse
    Keeps-refuse = Keeps-then _ _ (Keeps-record_login_attempt sessions _ _ _ _) (Keeps-throw _)

    Keeps-upgrade_hash :
        (b : Bool) (user : UserRow)
        → Keeps (Same sessions) (upgrade_hash host now drawn ip user_agent b password user)
    unfolding upgrade_hash
    Keeps-upgrade_hash true user = Keeps-write _ (λ db h. h)
    Keeps-upgrade_hash false user = Keeps-pure _

    Keeps-open_challenge :
        (user : UserRow) → Keeps (Same sessions) (open_challenge host now drawn ip user_agent user)
    unfolding open_challenge
    Keeps-open_challenge user =
        Keeps-bind _ _ (Keeps-start_challenge sessions _ _ _ _ user)
          (λ started. Keeps-then _ _ (Keeps-write_audit sessions _) (Keeps-pure _))

  module _ (before : Db) (user : UserRow) where
    record IsProved : Type 0 where
      pub known : find_first (email_is address) before.users ≡ some user
      pub proved : verify_password host.passwords password user.password_hash ≡ true
      pub enabled : user.disabled ≡ false

  open_session-Opens :
      (before : Db) (user : UserRow) (org : OrgRow) (db : Db)
      → IsProved before user
      → requires_second_factor user ≡ false
      → db.sessions ≡ before.sessions
      → Opens host address password before (open_session host now drawn ip user_agent user org db).1
  unfolding open_session create_session write_audit exec
  open_session-Opens before user org db p single h =
      let opened = new_session host.factors.digests now drawn.token user.id user_agent ip (
        find_first (user_id_is user.id) (
          update_where (user_id_is user.id) (λ row. record row { last_login_at = some now })
            db.users)) in
      inr (record {
        user = user;
        known = p.known;
        proved = p.proved;
        enabled = p.enabled;
        one_factor = single;
        session = opened;
        own = refl;
        added = ap (λ s. s ++ opened ∷ []) h;
      })

  admit-Opens :
      (before : Db) (user : UserRow)
      → IsProved before user
      → Opens host address password before
          (admit host now drawn ip user_agent address password user before).1
  unfolding admit
  admit-Opens before user p =
      let P = Opens host address password before in
      let S = Same before.sessions in
      select_post P _ _ before (
        require_post P _ _ _ before (inl refl) (λ org found.
          then_after S P _ _ (Keeps-upgrade_hash before.sessions _ user) (λ db h. inl h)
            (λ db h.
              then_after S P _ _ (Keeps-record_login_attempt before.sessions _ _ _ _)
                (λ db' h'. inl h')
                (λ db' h'.
                  if_cases (λ (m : Exec LoginReply). P (m db').1) (requires_second_factor user)
                    (λ two. inl ((Keeps-open_challenge before.sessions user).at db' h'))
                    (λ single. open_session-Opens before user org db' p single h'))
                db h)
            before refl))

  judge-Opens :
      (before : Db) (found : Option UserRow)
      → find_first (email_is address) before.users ≡ found
      → Opens host address password before
          (judge host now drawn ip user_agent address password found before).1
  unfolding judge
  judge-Opens before none e = inl ((Keeps-refuse before.sessions).at before refl)
  judge-Opens before (some user) e =
      if_cases (λ (m : Exec LoginReply). Opens host address password before (m before).1)
        (verify_password host.passwords password user.password_hash && not user.disabled)
        (λ right.
          admit-Opens before user
            (record { known = e; proved = ground arith; enabled = ground arith }))
        (λ wrong. inl ((Keeps-refuse before.sessions).at before refl))

assert_login_allowed_quiet :
    (now : ℕ) (email ip : String) (db : Db) → (assert_login_allowed now email ip db).1 ≡ db
unfolding assert_login_allowed exec
assert_login_allowed_quiet now email ip db = elim (Bool-cases (is_limited now email ip db)) [
  | inl limited ↦ rw limited refl
  | inr free ↦ rw free refl
]

present_same : (s t : String) → present (some s) ≡ some t → s ≡ t
present_same String.[] t h = cc
present_same (String.◌∷◌ c s) t h = some_inj h

Opens-same :
    (host : SignInHost) (before after : Db) {a a' s s' : String}
    → a ≡ a'
    → s ≡ s'
    → Opens host a' s' before after
    → Opens host a s before after
Opens-same host before after {a} {a'} {s} {s'} ea es h =
    subst (λ x. Opens host x s before after) (sym ea)
      (subst (λ y. Opens host a' y before after) (sym es) h)

-- A sign-in opens no session, or one: then it is for the enabled user of that address, the password
-- is right by the stored hash, and the account has no second factor.
pub handle_login-Opens :
    (host : SignInHost) (now : ℕ) (drawn : Drawn) (ip : String) (user_agent : Option String)
    (email password : String) (db : Db)
    → Opens host
        (to_lower (trim email))
        password
        db
        (handle_login host now drawn ip user_agent (some email) (some password) db).1
unfolding handle_login
handle_login-Opens host now drawn ip user_agent email password db =
    let P = Opens host (to_lower (trim email)) password db in
    require_post P (present (some (to_lower (trim email)))) _ _ db (inl refl) (λ address sent.
      require_post P (present (some password)) _ _ db (inl refl) (λ secret typed.
        quiet_then_post P (assert_login_allowed now address ip) _ db
          (assert_login_allowed_quiet now address ip db) (inl refl)
          (select_post P _ _ db (
            Opens-same host db _ (present_same _ address sent) (present_same password secret typed)
              (judge-Opens host now drawn ip user_agent address secret db _ refl)))))
