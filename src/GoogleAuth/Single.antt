-- ===== src/GoogleAuth/Single.antt =====
-- A state is redeemed once (app/worker/routes/googleAuth.ts).
use ctf_website.Base.{
  ℕ, ◌≡◌, refl, String, Bool, true, Option, none, some, List, [], ◌∷◌, find_first, delete_where,
  arith, ◌∙◌,
}
use ctf_website.Base.Texts.{present}
use ctf_website.Schema.{Db, UserRow, OrgRow, OauthStateRow}
use ctf_website.Http.{ok, exec}
use ctf_website.Http.Post.{select_post, write_post}
use ctf_website.Http.Keeps.{
  Keeps, Keeps-write, Keeps-then, Keeps-bind, Keeps-pure, Keeps-select, Keeps-if,
}
use ctf_website.Auth.Session.{create_session}
use ctf_website.Google.{google_configured, GoogleIdentity, Outcome, success, failure}
use ctf_website.Signup.{SignupPayload}
use ctf_website.GoogleAuth.{
  GoogleSignIn, CallbackQuery, auth_error, handle_google_callback, unless_error, with_code, redeem,
  redeemed, with_identity, identified, sign_in, sign_up, admit, open_session, state_is, signed_up,
}
use ctf_website.GoogleAuth.Keeps.{
  IsOfSignIns, Keeps-open_challenge, Keeps-if_so, Keeps-create_pending_organization,
  Keeps-try_catch, Keeps-write_audit, Keeps-quiet_write,
}

-- No sign-in with the state is under way.
pub record IsSpent (state : String) (db : Db) : Type 0 where
  pub gone : find_first (state_is state) db.oauth_states ≡ none

module _ (test : OauthStateRow → Bool) where
  find_first-delete_where :
      (rows : List OauthStateRow) → find_first test (delete_where test rows) ≡ none
  unfolding find_first delete_where
  find_first-delete_where [] = refl
  find_first-delete_where (row ∷ rows) = ground (arith, find_first-delete_where rows)

  delete_where_absent :
      (rows : List OauthStateRow) → find_first test rows ≡ none → delete_where test rows ≡ rows
  unfolding find_first delete_where
  delete_where_absent [] h = refl
  delete_where_absent (row ∷ rows) h = ground (arith, delete_where_absent rows)

IsSpent-IsOfSignIns : (state : String) → IsOfSignIns (IsSpent state)
IsSpent-IsOfSignIns state = record {
  from = λ db db' sessions states h. record { gone = rw states h.gone };
}

module _ (host : GoogleSignIn) (now : ℕ) (ip : String) (user_agent : Option String)
    (state : String) where
  abbrev P : Db → Type 0
  P = IsSpent state

  abbrev of : IsOfSignIns P
  of = IsSpent-IsOfSignIns state

  Keeps-open_session :
      (identity : GoogleIdentity) (user : UserRow) (org : OrgRow)
      → Keeps P (open_session host now ip user_agent identity user org)
  unfolding open_session create_session
  Keeps-open_session identity user org =
      Keeps-then _ _ (Keeps-quiet_write P of _ (λ _. refl) (λ _. refl)) (
        Keeps-bind _ _
          (Keeps-bind _ _ (Keeps-select _) (λ who.
            Keeps-then _ _ (Keeps-write _ (λ db h. record { gone = h.gone })) (Keeps-pure _)))
          (λ session. Keeps-then _ _ (Keeps-write_audit P of _) (Keeps-pure _)))

  Keeps-admit :
      (identity : GoogleIdentity) (user : UserRow) (org : Option OrgRow)
      → Keeps P (admit host now ip user_agent identity user org)
  unfolding admit
  Keeps-admit identity user none = Keeps-pure _
  Keeps-admit identity user (some org) =
      Keeps-then _ _ (Keeps-if_so P of _ _ (λ _. refl) (λ _. refl)) (
        Keeps-then _ _ (Keeps-if_so P of _ _ (λ _. refl) (λ _. refl)) (
          Keeps-if _ _ _ (Keeps-open_challenge P of host now ip user_agent user org)
            (Keeps-open_session identity user org)))

  Keeps-sign_in :
      (identity : GoogleIdentity) (user : Option UserRow)
      → Keeps P (sign_in host now ip user_agent identity user)
  unfolding sign_in
  Keeps-sign_in identity none = Keeps-pure _
  Keeps-sign_in identity (some user) =
      Keeps-if _ _ _ (Keeps-pure _) (Keeps-bind _ _ (Keeps-select _) (Keeps-admit identity user))

  Keeps-sign_up :
      (identity : GoogleIdentity) (payload : SignupPayload)
      → Keeps P (sign_up host now ip user_agent identity payload)
  unfolding sign_up signed_up
  Keeps-sign_up identity payload = Keeps-bind _ _ (Keeps-select _) (λ blocked.
      Keeps-if _ _ _ (Keeps-pure _) (
        Keeps-bind _ _
          (Keeps-try_catch _ _
            (Keeps-bind _ _
              (Keeps-create_pending_organization P of host.ids now ip user_agent identity payload)
              (λ user. Keeps-pure _))
            (λ e. Keeps-pure _))
          created))
    where
      created : (o : Option UserRow) → Keeps P (signed_up host now ip user_agent identity o)
      created none = Keeps-pure _
      created (some user) = Keeps-sign_in identity (some user)

  Keeps-identified :
      (identity : GoogleIdentity) (user : Option UserRow) (payload : Option SignupPayload)
      → Keeps P (identified host now ip user_agent identity user payload)
  unfolding identified
  Keeps-identified identity (some user) payload = Keeps-sign_in identity (some user)
  Keeps-identified identity none (some payload) = Keeps-sign_up identity payload
  Keeps-identified identity none none = Keeps-sign_in identity none

  Keeps-with_identity :
      (row : OauthStateRow) (outcome : Outcome GoogleIdentity)
      → Keeps P (with_identity host now ip user_agent row outcome)
  unfolding with_identity
  Keeps-with_identity row (failure why) = Keeps-pure _
  Keeps-with_identity row (success identity) =
      Keeps-if _ _ _ (Keeps-pure _)
        (Keeps-bind _ _ (Keeps-select _) (λ user. Keeps-identified identity user _))

  Keeps-redeemed :
      (code : String) (row : Option OauthStateRow)
      → Keeps P (redeemed host now ip user_agent code row)
  unfolding redeemed
  Keeps-redeemed code none = Keeps-pure _
  Keeps-redeemed code (some row) = Keeps-if _ _ _ (Keeps-pure _) (Keeps-with_identity row _)

  redeem-IsSpent :
      (code : String) (db : Db) → IsSpent state (redeem host now ip user_agent code state db).1
  unfolding redeem
  redeem-IsSpent code db = select_post P _ _ db (
      write_post P _ _ db (
        (Keeps-redeemed code _).at _
          (record { gone = find_first-delete_where (state_is state) db.oauth_states })))

-- A callback that gets as far as its state.
pub record Carries (host : GoogleSignIn) (query : CallbackQuery) (code state : String)
    : Type 0 where
  pub configured : google_configured host.google ≡ true
  pub no_error : present query.error ≡ none
  pub has_code : present query.code ≡ some code
  pub has_state : present query.state ≡ some state

module _ (host : GoogleSignIn) (now : ℕ) (ip : String) (user_agent : Option String) where
  callback-redeem :
      (query : CallbackQuery) (code state : String) (db : Db)
      → Carries host query code state
      → handle_google_callback host now ip user_agent query db
        ≡ redeem host now ip user_agent code state db
  unfolding handle_google_callback unless_error with_code
  callback-redeem query code state db c =
      rw c.configured (rw c.no_error (rw c.has_code (rw c.has_state refl)))

  redeem_spent :
      (code state : String) (db : Db)
      → IsSpent state db
      → redeem host now ip user_agent code state db ≡ (ok (auth_error "google_expired"), db)
  unfolding redeem redeemed exec
  redeem_spent code state db h =
      rw h.gone (rw (delete_where_absent (state_is state) db.oauth_states h.gone) refl)

-- A state is good for one callback: whatever came of the first one that carried it, each later one is
-- answered as expired and changes nothing, whatever code it brings.
pub handle_google_callback_replay :
    (host again : GoogleSignIn) (now later : ℕ) (ip ip' : String) (agent agent' : Option String)
    (query query' : CallbackQuery) (code code' state : String) (db : Db)
    → Carries host query code state
    → Carries again query' code' state
    → let after = (handle_google_callback host now ip agent query db).1 in
      handle_google_callback again later ip' agent' query' after
      ≡ (ok (auth_error "google_expired"), after)
handle_google_callback_replay host again now later ip ip' agent agent' query query' code code' state
      db c c' =
    callback-redeem again later ip' agent' query' code' state _ c'
    ∙ redeem_spent again later ip' agent' code' state _ (
        rw (callback-redeem host now ip agent query code state db c)
          (redeem-IsSpent host now ip agent state code db))
