-- ===== src/GoogleAuth/Opens.antt =====
-- What a session opened with Google shows (app/worker/routes/googleAuth.ts).
use ctf_website.Signup.Made.{Made, sign_up-Made}
use ctf_website.Http.Returns.{OnOk}
use ctf_website.Base.{
  ℕ, ◌≡◌, ◌⊎◌, inl, inr, refl, ap, String, false, not, ◌||◌, Option, none, some, List, [], ◌∷◌,
  ◌++◌, find_first, update_where, arith, if_cases, ltb, OnSome, ◌∙◌, sym, delete_where, subst,
}
use ctf_website.Schema.{Db, UserRow, OrgRow, OauthStateRow}
use ctf_website.Http.{Exec, Result, ok, err, pure, continue, ◌>>=◌, exec, HttpError}
use ctf_website.Http.Post.{select_post, write_post}
use ctf_website.Http.Keeps.{Keeps, then_after, Keeps-bind, Keeps-pure}
use ctf_website.Audit.{write_audit}
use ctf_website.Auth.Session.{create_session, new_session, user_id_is}
use ctf_website.TwoFactor.{requires_second_factor}
use ctf_website.Platform.Address.{is_reserved_ctf_address}
use ctf_website.Platform.Batches.{is_blocked_email}
use ctf_website.Google.{
  GoogleIdentity, Outcome, success, failure, exchange_code_for_identity, redirect_uri_for,
  google_configured,
}
use ctf_website.Signup.{SignupPayload, create_pending_organization}
use ctf_website.GoogleAuth.{
  GoogleSignIn, CallbackQuery, CallbackReply, handle_google_callback, unless_error, with_code,
  redeem, redeemed, with_identity, identified, sign_in, sign_up, signed_up, admit, open_session,
  state_is, matches, try_catch,
}
use ctf_website.GoogleAuth.Keeps.{
  IsOfSignIns, Keeps-open_challenge, Keeps-if_so, Keeps-create_pending_organization,
  Keeps-try_catch,
}
use ctf_website.GoogleAuth.Vouched.{
  IsVouched, MaySignUp, IsNew, Opens, Same, Same-IsOfSignIns, free_of,
}

module _ (host : GoogleSignIn) (now : ℕ) (ip : String) (user_agent : Option String)
    (before : Db) where
  abbrev P : Db → Type 0
  P = Opens host now before

  abbrev S : Db → Type 0
  S = Same before.sessions

  abbrev of : IsOfSignIns S
  of = Same-IsOfSignIns before.sessions

  module _ (identity : GoogleIdentity) (vouched : IsVouched host now before identity) where
    open_session-Opens :
        (user : UserRow) (org : OrgRow) (db : Db)
        → (find_first (matches identity) before.users ≡ some user)
          ⊎ IsNew host now before identity user
        → user.disabled ≡ false
        → requires_second_factor user ≡ false
        → S db
        → P (open_session host now ip user_agent identity user org db).1
    unfolding open_session create_session write_audit exec
    open_session-Opens user org db known enabled single h =
        let opened = new_session host.factors.digests now host.drawn.token user.id user_agent ip (
          find_first (user_id_is user.id) (
            update_where (user_id_is user.id) (λ row. record row { last_login_at = some now })
              db.users)) in
        inr (record {
          identity = identity;
          vouched = vouched;
          user = user;
          known = known;
          enabled = enabled;
          one_factor = single;
          session = opened;
          own = refl;
          added = ap (λ s. s ++ opened ∷ []) h.same;
        })

    admit-Opens :
        (user : UserRow) (org : Option OrgRow) (db : Db)
        → (find_first (matches identity) before.users ≡ some user)
          ⊎ IsNew host now before identity user
        → user.disabled ≡ false
        → S db
        → P (admit host now ip user_agent identity user org db).1
    unfolding admit pure
    admit-Opens user none db known enabled h = inl h.same
    admit-Opens user (some org) db known enabled h =
        then_after S P _ _ (Keeps-if_so S of _ _ (λ _. refl) (λ _. refl)) (λ d k. inl k.same)
          (λ d k.
            then_after S P _ _ (Keeps-if_so S of _ _ (λ _. refl) (λ _. refl)) (λ d' k'. inl k'.same)
              (λ d' k'.
                if_cases (λ (m : Exec CallbackReply). P (m d').1) (requires_second_factor user)
                  (λ two.
                    inl ((Keeps-open_challenge S of host now ip user_agent user org).at d' k').same)
                  (λ single. open_session-Opens user org d' known enabled single k'))
              d k)
          db h

    sign_in-Opens :
        (user : Option UserRow) (db : Db)
        → OnSome
            (λ u.
              (find_first (matches identity) before.users ≡ some u)
              ⊎ IsNew host now before identity u)
            user
        → S db
        → P (sign_in host now ip user_agent identity user db).1
    unfolding sign_in pure
    sign_in-Opens none db known h = inl h.same
    sign_in-Opens (some user) db known h =
        if_cases (λ (m : Exec CallbackReply). P (m db).1) user.disabled (λ _. inl h.same)
          (λ enabled. select_post P _ _ db (admit-Opens user _ db known enabled h))

    signed_up-Opens :
        (created : Result (Option UserRow)) (db : Db)
        → OnOk (OnSome (IsNew host now before identity)) created
        → S db
        → P (continue (created, db) (signed_up host now ip user_agent identity)).1
    unfolding signed_up pure
    signed_up-Opens (err e) db new h = inl h.same
    signed_up-Opens (ok none) db new h = inl h.same
    signed_up-Opens (ok (some user)) db new h = sign_in-Opens (some user) db (inr new) h

    IsNew-created :
        (created : Result (Option UserRow))
        → MaySignUp before identity
        → OnOk (OnSome (Made host.ids now identity before)) created
        → OnOk (OnSome (IsNew host now before identity)) created
    IsNew-created (err e) may made = tt
    IsNew-created (ok none) may made = tt
    IsNew-created (ok (some user)) may made = record { may = may; made = made }

    made-Opens :
        (m : Exec (Option UserRow)) (handler : HttpError → Exec (Option UserRow)) (db : Db)
        → OnOk (OnSome (IsNew host now before identity)) (try_catch m handler db).0
        → Keeps S (try_catch m handler)
        → S db
        → P ((try_catch m handler >>= signed_up host now ip user_agent identity) db).1
    unfolding ◌>>=◌
    made-Opens m handler db new keeps h =
        signed_up-Opens (try_catch m handler db).0 (try_catch m handler db).1 new (keeps.at db h)

    sign_up-Opens :
        (payload : SignupPayload) (db : Db)
        → find_first (matches identity) before.users ≡ none
        → is_blocked_email identity.email db ≡ is_blocked_email identity.email before
        → db.users ≡ before.users
        → S db
        → P (sign_up host now ip user_agent identity payload db).1
    unfolding sign_up pure
    sign_up-Opens payload db unknown blocked users h = select_post P _ _ db (
        if_cases (λ (m : Exec CallbackReply). P (m db).1)
          (is_reserved_ctf_address identity.email || is_blocked_email identity.email db)
          (λ _. inl h.same)
          (λ free.
            made-Opens
              (create_pending_organization host.ids now ip user_agent identity payload >>= λ user.
                pure (some user))
              (λ error. pure none) db
              (IsNew-created _
                (record {
                  unknown = unknown;
                  not_reserved = (free_of _ _ free).0;
                  not_blocked = sym blocked ∙ (free_of _ _ free).1;
                })
                (subst
                  (λ (rows : List UserRow).
                    OnOk (OnSome (Made host.ids now identity (record before { users = rows })))
                      (try_catch
                        (create_pending_organization host.ids now ip user_agent identity payload
                          >>= λ user. pure (some user))
                        (λ error. pure none) db).0)
                  users (sign_up-Made host.ids now ip user_agent identity payload db)))
              (Keeps-try_catch _ _
                (Keeps-bind _ _
                  (Keeps-create_pending_organization S of host.ids now ip user_agent identity
                    payload)
                  (λ user. Keeps-pure _))
                (λ error. Keeps-pure _))
              h))

    identified-Opens :
        (user : Option UserRow) (payload : Option SignupPayload) (db : Db)
        → find_first (matches identity) before.users ≡ user
        → is_blocked_email identity.email db ≡ is_blocked_email identity.email before
        → db.users ≡ before.users
        → S db
        → P (identified host now ip user_agent identity user payload db).1
    unfolding identified
    identified-Opens (some user) payload db known blocked users h =
        sign_in-Opens (some user) db (inl known) h
    identified-Opens none (some payload) db unknown blocked users h =
        sign_up-Opens payload db unknown blocked users h
    identified-Opens none none db unknown blocked users h = sign_in-Opens none db tt h

  -- The database once the state is taken out.
  abbrev taken : String → Db
  taken state = record before { oauth_states = delete_where (state_is state) before.oauth_states }

  module _ (code state : String) where
    with_identity-Opens :
        (row : OauthStateRow) (outcome : Outcome GoogleIdentity)
        → find_first (state_is state) before.oauth_states ≡ some row
        → ltb row.expires_at now ≡ false
        → exchange_code_for_identity host.google now code (redirect_uri_for host.url) row.nonce
          ≡ outcome
        → P (with_identity host now ip user_agent row outcome (taken state)).1
    unfolding with_identity pure is_blocked_email
    with_identity-Opens row (failure why) begun in_time given = inl refl
    with_identity-Opens row (success identity) begun in_time given =
        if_cases (λ (m : Exec CallbackReply). P (m (taken state)).1) (not identity.email_verified)
          (λ _. inl refl)
          (λ verified. select_post P _ _ (taken state) (
            identified-Opens identity
              (record {
                code = code;
                state = state;
                row = row;
                begun = begun;
                in_time = in_time;
                given = given;
                verified = ground arith;
              })
              _ _ (taken state) refl refl refl (record { same = refl })))

    redeemed-Opens :
        (row : Option OauthStateRow)
        → find_first (state_is state) before.oauth_states ≡ row
        → P (redeemed host now ip user_agent code row (taken state)).1
    unfolding redeemed pure
    redeemed-Opens none begun = inl refl
    redeemed-Opens (some row) begun =
        if_cases (λ (m : Exec CallbackReply). P (m (taken state)).1) (ltb row.expires_at now)
          (λ _. inl refl) (λ in_time. with_identity-Opens row _ begun in_time refl)

    redeem-Opens : P (redeem host now ip user_agent code state before).1
    unfolding redeem
    redeem-Opens = select_post P _ _ before (write_post P _ _ before (redeemed-Opens _ refl))

  with_code-Opens :
      (code state : Option String) → P (with_code host now ip user_agent code state before).1
  unfolding with_code pure
  with_code-Opens (some code) (some state) = redeem-Opens code state
  with_code-Opens (some code) none = inl refl
  with_code-Opens none state = inl refl

  unless_error-Opens :
      (error : Option String) (query : CallbackQuery)
      → P (unless_error host now ip user_agent error query before).1
  unfolding unless_error pure
  unless_error-Opens (some error) query = inl refl
  unless_error-Opens none query = with_code-Opens _ _

-- A callback adds no session, or it adds one session after those there are. That one belongs to a
-- user who is not disabled and has no second factor to pass, and Google vouched for the identity
-- with a verified address, in answer to a sign-in that was begun here and had not expired. The user
-- is the one whom the identity matches by Google's subject, or by address where no subject is bound,
-- or else the new owner of a sign-up, which needs an address that is neither reserved nor barred.
pub handle_google_callback-Opens :
    (host : GoogleSignIn) (now : ℕ) (ip : String) (user_agent : Option String)
    (query : CallbackQuery) (before : Db)
    → Opens host now before (handle_google_callback host now ip user_agent query before).1
unfolding handle_google_callback pure
handle_google_callback-Opens host now ip user_agent query before =
    if_cases (λ (m : Exec CallbackReply). Opens host now before (m before).1)
      (not (google_configured host.google)) (λ _. inl refl)
      (λ _. unless_error-Opens host now ip user_agent before _ query)
