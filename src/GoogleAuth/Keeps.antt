-- ===== src/GoogleAuth/Keeps.antt =====
-- What the parts of a sign-in with Google keep (app/worker/routes/googleAuth.ts, signup.ts).
use ctf_website.Base.{ℕ, ◌≡◌, refl, String, Bool, true, false, Option}
use ctf_website.Schema.{Db, UserRow, OrgRow, AuditRow}
use ctf_website.Http.{Exec, Result, ok, err, try_catch, recovered, HttpError, write}
use ctf_website.Http.Keeps.{
  Keeps, keeps_rules, Keeps-write, Keeps-then, Keeps-bind, Keeps-pure, Keeps-throw_if,
  Keeps-require, Keeps-select,
}
use ctf_website.Audit.{write_audit}
use ctf_website.TwoFactor.{start_challenge, mail_if, FactorHost}
use ctf_website.Signup.{create_pending_organization, record_platform_notice, NewIds, SignupPayload}
use ctf_website.Signup.Terms.{record_consent}
use ctf_website.Google.{GoogleIdentity}
use ctf_website.GoogleAuth.{if_so, GoogleSignIn, open_challenge}

-- A property of the sessions and the states of sign-ins only.
pub record IsOfSignIns (P : Db → Type 0) : Type 0 where
  pub from :
      (db db' : Db) → db'.sessions ≡ db.sessions → db'.oauth_states ≡ db.oauth_states → P db → P db'

module _ (P : Db → Type 0) (of : IsOfSignIns P) where
  pub Keeps-quiet_write :
      (change : Db → Db)
      → ((db : Db) → (change db).sessions ≡ db.sessions)
      → ((db : Db) → (change db).oauth_states ≡ db.oauth_states)
      → Keeps P (write change)
  Keeps-quiet_write change sessions states =
      Keeps-write change (λ db h. of.from db (change db) (sessions db) (states db) h)

  pub Keeps-write_audit : (entry : AuditRow) → Keeps P (write_audit entry)
  unfolding write_audit
  Keeps-write_audit entry = Keeps-quiet_write _ (λ _. refl) (λ _. refl)

  Keeps-mail_if :
      (host : FactorHost) (b : Bool) (to code : String) → Keeps P (mail_if host b to code)
  unfolding mail_if
  Keeps-mail_if host true to code = search keeps_rules
  Keeps-mail_if host false to code = search keeps_rules

  Keeps-start_challenge :
      (host : FactorHost) (now : ℕ) (id code : String) (user : UserRow)
      → Keeps P (start_challenge host now id code user)
  unfolding start_challenge
  Keeps-start_challenge host now id code user = Keeps-then _ _ (Keeps-throw_if _ _) (
      Keeps-then _ _ (Keeps-quiet_write _ (λ _. refl) (λ _. refl))
        (Keeps-then _ _ (Keeps-mail_if host _ _ _) (Keeps-pure _)))

  pub Keeps-open_challenge :
      (host : GoogleSignIn) (now : ℕ) (ip : String) (user_agent : Option String) (user : UserRow)
      (org : OrgRow)
      → Keeps P (open_challenge host now ip user_agent user org)
  unfolding open_challenge
  Keeps-open_challenge host now ip user_agent user org =
      Keeps-bind _ _ (Keeps-start_challenge host.factors now _ _ user)
        (λ started. Keeps-then _ _ (Keeps-write_audit _) (Keeps-pure _))

  pub Keeps-if_so :
      (b : Bool) (change : Db → Db)
      → ((db : Db) → (change db).sessions ≡ db.sessions)
      → ((db : Db) → (change db).oauth_states ≡ db.oauth_states)
      → Keeps P (if_so b change)
  unfolding if_so
  Keeps-if_so true change sessions states = Keeps-quiet_write change sessions states
  Keeps-if_so false change sessions states = Keeps-pure tt

  pub Keeps-create_pending_organization :
      (ids : NewIds) (now : ℕ) (ip : String) (agent : Option String) (identity : GoogleIdentity)
      (payload : SignupPayload)
      → Keeps P (create_pending_organization ids now ip agent identity payload)
  unfolding create_pending_organization record_consent record_platform_notice
  Keeps-create_pending_organization ids now ip agent identity payload =
      Keeps-bind _ _ (Keeps-select _) (λ taken. Keeps-bind _ _ (Keeps-select _) (λ twice.
        Keeps-then _ _ (Keeps-throw_if _ _) (
          Keeps-then _ _ (Keeps-quiet_write _ (λ _. refl) (λ _. refl)) (
            Keeps-then _ _ (Keeps-quiet_write _ (λ _. refl) (λ _. refl)) (
              Keeps-then _ _ (Keeps-write_audit _) (
                Keeps-then _ _ (Keeps-quiet_write _ (λ _. refl) (λ _. refl)) (
                  Keeps-bind _ _ (Keeps-select _) (λ org.
                    Keeps-bind _ _ (Keeps-select _)
                      (λ user. Keeps-bind _ _ (Keeps-require _ _) (λ _. Keeps-require _ _))))))))))

pub Keeps-try_catch :
    {P : Db → Type 0} {A : Type 0} (m : Exec A) (handler : HttpError → Exec A)
    → Keeps P m
    → ((e : HttpError) → Keeps P (handler e))
    → Keeps P (try_catch m handler)
unfolding try_catch
Keeps-try_catch {P} {A} m handler km kh = record { at = λ db h. go (m db).0 (m db).1 (km.at db h) }
  where
    go : (r : Result A) (db : Db) → P db → P (recovered (r, db) handler).1
    go (ok a) db h = h
    go (err e) db h = (kh e).at db h
