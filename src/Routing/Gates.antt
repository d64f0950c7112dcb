-- ===== src/Routing/Gates.antt =====
-- What a request of a signed-in user has passed (app/worker/index.ts, `handleApi`).
use ctf_website.Base.{
  ℕ, ◌≡◌, ◌⊎◌, inl, inr, refl, ap, sym, ◌∙◌, String, Bool, true, false, not, ◌&&◌, Option, List, [],
  ◌∷◌, if_cases, subst,
}
use ctf_website.Base.Texts.{starts_with}
use ctf_website.Schema.{Db, TermsRow}
use ctf_website.Http.{Exec, Result, pure, throw_if, ◌>>◌, write, HttpError}
use ctf_website.Http.Returns.{OnOk, bind_at, select_returns, throw_if_passes}
use ctf_website.Http.Keeps.{
  Keeps, Keeps-write, Keeps-bind, Keeps-then, Keeps-if, Keeps-pure, Keeps-throw, Keeps-require,
  Keeps-select, Keeps-throw_if,
}
use ctf_website.Auth.{AuthContext}
use ctf_website.Auth.Session.{
  require_auth, check_session, slide, destroy_session, is_expired, SignedIn,
}
use ctf_website.Auth.Session.Admission.{IsSentBy, IsAdmitted, require_auth-IsAdmitted}
use ctf_website.RateLimit.{RateLimitRule, enforce, consume, RateLimitResult}
use ctf_website.Crypto.{Digests}
use ctf_website.TwoFactor.{method_for}
use ctf_website.Signup.Terms.{has_current_consent}
use ctf_website.Routing.{
  Door, Request, lists, password_rotation_allowlist, inactive_org_allowlist, admin_setup_allowlist,
  consent_allowlist, is_platform_admin, has_active_status, has_totp, past_role, past_gates, clear,
}

record IsTerms (rows : List TermsRow) (db : Db) : Type 0 where
  same : db.terms_acceptances ≡ rows

module _ (rows : List TermsRow) where
  Keeps-quiet :
      (change : Db → Db)
      → ((db : Db) → (change db).terms_acceptances ≡ db.terms_acceptances)
      → Keeps (IsTerms rows) (write change)
  Keeps-quiet change quiet = Keeps-write change (λ db h. record { same = quiet db ∙ h.same })

  Keeps-slide :
      (b : Bool) (now : ℕ) (id : String) (row : SignedIn)
      → Keeps (IsTerms rows) (slide b now id row)
  unfolding slide
  Keeps-slide false now id row = Keeps-pure _
  Keeps-slide true now id row = Keeps-quiet _ (λ _. refl)

  Keeps-destroy_session : (id : String) → Keeps (IsTerms rows) (destroy_session id)
  unfolding destroy_session
  Keeps-destroy_session id = Keeps-quiet _ (λ _. refl)

  Keeps-check_session :
      (now : ℕ) (id : String) (row : SignedIn) → Keeps (IsTerms rows) (check_session now id row)
  unfolding check_session
  Keeps-check_session now id row =
      Keeps-if (is_expired now row) _ _ (Keeps-then _ _ (Keeps-destroy_session id) (Keeps-throw _))
        (Keeps-if row.user.disabled _ _ (Keeps-then _ _ (Keeps-destroy_session id) (Keeps-throw _))
          (Keeps-then _ _ (Keeps-slide _ now id row) (Keeps-pure _)))

  Keeps-require_auth :
      (digests : Digests) (now : ℕ) (cookie : Option String)
      → Keeps (IsTerms rows) (require_auth digests now cookie)
  unfolding require_auth
  Keeps-require_auth digests now cookie = Keeps-bind _ _ (Keeps-require _ _) (λ token.
      Keeps-bind _ _ (Keeps-select _)
        (λ found. Keeps-bind _ _ (Keeps-require _ _) (λ row. Keeps-check_session now _ row)))

  Keeps-enforce :
      (subject : String) (rule : RateLimitRule) (message : String) (now : ℕ)
      → Keeps (IsTerms rows) (enforce subject rule message now)
  unfolding enforce consume
  Keeps-enforce subject rule message now =
      Keeps-bind _ _
        (Keeps-then _ _ (Keeps-quiet _ (λ _. refl))
          (Keeps-bind _ _ (Keeps-select _) (λ hits. Keeps-pure _)))
        (λ result. Keeps-then _ _ (Keeps-throw_if _ _) (Keeps-pure _))

-- The gates for the two kinds of user: an administrator of the platform has an authenticator app,
-- but to set one up, and has nothing but the console; a client's login is no login of the platform's
-- own organization.
pub record PastRole (auth : AuthContext) (path : String) : Type 0 where
  pub admin_factor :
      is_platform_admin auth.user ≡ true
      → (has_totp (method_for auth.user) ≡ true) ⊎ (lists admin_setup_allowlist path ≡ true)
  pub admin_console :
      is_platform_admin auth.user ≡ true
      → (lists admin_setup_allowlist path ≡ true) ⊎ (starts_with "/api/platform/" path ≡ true)
  pub client_org :
      is_platform_admin auth.user ≡ false
      → (auth.org.is_platform ≡ false) ⊎ (lists ("/api/me" ∷ "/api/auth/logout" ∷ []) path ≡ true)

-- What is asked of a signed-in user, each with the paths that are open without it.
pub record IsCleared (door : Door) (now : ℕ) (request : Request) (before : Db) (auth : AuthContext)
    : Type 0 where
  pub behind : Db
  pub sent : IsSentBy door.digests request.cookie auth
  pub admitted : IsAdmitted now before behind auth
  pub rotated :
      (auth.user.must_change_password ≡ false)
      ⊎ (lists password_rotation_allowlist request.path ≡ true)
  pub active :
      (is_platform_admin auth.user ≡ true)
      ⊎ (has_active_status auth.org ≡ true)
      ⊎ (lists inactive_org_allowlist request.path ≡ true)
  pub consented :
      (has_current_consent auth.user.id before ≡ true)
      ⊎ (lists consent_allowlist request.path ≡ true)
  pub role : PastRole auth request.path

either : (a b : Bool) → (a && not b) ≡ false → (a ≡ false) ⊎ (b ≡ true)
either false b h = inl refl
either true true h = inr refl
either true false h = cc

either_not : (a b : Bool) → (not a && not b) ≡ false → (b ≡ true) ⊎ (a ≡ true)
either_not true b h = inr refl
either_not false true h = inl refl
either_not false false h = cc

either_of : (a b : Bool) → (not a && not b) ≡ false → (a ≡ true) ⊎ (b ≡ true)
either_of true b h = inl refl
either_of false true h = inr refl
either_of false false h = cc

one_of_three :
    (a b c : Bool) → (not a && not b && not c) ≡ false → (a ≡ true) ⊎ (b ≡ true) ⊎ (c ≡ true)
one_of_three true b c h = inl refl
one_of_three false true c h = inr (inl refl)
one_of_three false false true h = inr (inr refl)
one_of_three false false false h = cc

true_or_false : {b : Bool} → b ≡ true → b ≡ false → ⊥
true_or_false h k = cc

module _ {B : Type 0} (Q : B → Type 0) where
  two_tests :
      (a b : Bool) (e f : HttpError) (k : Exec B) (db : Db)
      → (a ≡ false → b ≡ false → OnOk Q (k db).0)
      → OnOk Q (((throw_if a e >> throw_if b f) >> k) db).0
  unfolding throw_if ◌>>◌
  two_tests true b e f k db h = tt
  two_tests false true e f k db h = tt
  two_tests false false e f k db h = h refl refl

  past_role_returns :
      (auth : AuthContext) (path : String) (k : Exec B) (db : Db)
      → (PastRole auth path → OnOk Q (k db).0)
      → OnOk Q ((past_role auth path >> k) db).0
  unfolding past_role
  past_role_returns auth path k db h =
      if_cases (λ (m : Exec (Unit {0})). OnOk Q ((m >> k) db).0) (is_platform_admin auth.user)
        (λ admin. two_tests _ _ _ _ k db (λ factor console. h (record {
          admin_factor = λ _. either_of _ _ factor;
          admin_console = λ _. either_of _ _ console;
          client_org = λ client. absurd (true_or_false admin client);
        })))
        (λ client. throw_if_passes Q _ _ k db (λ own. h (record {
          admin_factor = λ admin. absurd (true_or_false admin client);
          admin_console = λ admin. absurd (true_or_false admin client);
          client_org = λ _. either _ _ own;
        })))

consent_same :
    (id : String) (db before : Db)
    → db.terms_acceptances ≡ before.terms_acceptances
    → has_current_consent id db ≡ has_current_consent id before
unfolding has_current_consent
consent_same id db before h = rw h refl

module _ (door : Door) (now : ℕ) (request : Request) (before : Db) where
  abbrev Q : AuthContext → Type 0
  Q = IsCleared door now request before

  past_gates_returns :
      (auth : AuthContext) (db : Db)
      → IsSentBy door.digests request.cookie auth × IsAdmitted now before db auth
      → IsTerms before.terms_acceptances db
      → OnOk Q (past_gates door now request auth db).0
  unfolding past_gates pure
  past_gates_returns auth db admitted terms = bind_at Q _ _ db (λ result db' enforced.
      throw_if_passes Q _ _ _ db' (λ rotated. throw_if_passes Q _ _ _ db' (λ active.
        select_returns Q _ _ db' (
          throw_if_passes Q _ _ _ db' (λ consented.
            past_role_returns Q auth request.path _ db' (λ role. record {
              behind = db;
              sent = admitted.0;
              admitted = admitted.1;
              rotated = either _ _ rotated;
              active = one_of_three _ _ _ active;
              consented = either_not _ _ (
                  subst
                    (λ (b : Bool). (not (lists consent_allowlist request.path) && not b) ≡ false)
                    (consent_same auth.user.id db' before (
                      ap (λ (r : Result RateLimitResult × Db). r.1.terms_acceptances) (sym enforced)
                      ∙ ((Keeps-enforce before.terms_acceptances _ _ _ now).at db terms).same))
                    consented);
              role = role;
            }))))))

  pub clear_returns : OnOk Q (clear door now request before).0
  unfolding clear
  clear_returns = bind_at Q _ _ before (λ auth db admitted.
      past_gates_returns auth db
        (require_auth-IsAdmitted door.digests now request.cookie before db auth admitted)
        (record {
          same =
              ap (λ (r : Result AuthContext × Db). r.1.terms_acceptances) (sym admitted)
              ∙ ((Keeps-require_auth before.terms_acceptances door.digests now request.cookie).at
                  before (record { same = refl })).same;
        }))
