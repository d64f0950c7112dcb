-- ===== src/Enrolment/Proof.antt =====
-- What switching a second factor off takes (app/worker/routes/twoFactor.ts).
use ctf_website.Base.{
  ℕ, ◌≡◌, ◌⊎◌, inl, inr, refl, ap, String, Bool, true, false, not, Option, none, some, List, [],
  ◌∷◌, update_where, delete_where, count_where, str_eq, if_cases, arith, ◌≢◌,
}
use ctf_website.Base.Texts.{present}
use ctf_website.Schema.{Db, BackupCodeRow, TwoFactorMethod}
use ctf_website.Http.{
  Exec, Result, ok, err, continue, pure, throw, lift, throw_if, ◌>>=◌, exec, HttpError,
}
use ctf_website.Http.Ends.{Settles, then-Settles, test-Settles, Settles-map}
use ctf_website.Audit.{write_audit}
use ctf_website.Auth.{AuthContext}
use ctf_website.Auth.Session.{user_id_is}
use ctf_website.Totp.{verify_totp, TotpVerification}
use ctf_website.TwoFactor.{method_for, is_off}
use ctf_website.TwoFactor.Backup.{consume_backup_code, count_unused_backup_codes, unused_of, spend}
use ctf_website.Routing.{is_platform_admin}
use ctf_website.Enrolment.{
  EnrolmentHost, handle_two_factor_disable, prove, prove_by, prove_by_app, switch_off, switched_off,
}

module _ (host : EnrolmentHost) (now : ℕ) (ip : String) (auth : AuthContext) (code : String)
    (before : Db) where
  -- A code of the app that has not been used before, or a backup code that is spent.
  pub record ByApp : Type 0 where
    pub stored : String
    pub secret : String
    pub enrolled : present auth.user.totp_secret ≡ some stored
    pub read : host.factors.decrypt_secret stored ≡ ok secret
    pub proved :
        ((verify_totp host.factors.mac secret code now auth.user.totp_last_counter).valid ≡ true)
        ⊎ ((consume_backup_code host.factors.digests now ip auth.user code before).0 ≡ ok true)

  -- How a method is proved: codes by mail are not asked for.
  abbrev pub IsProved : TwoFactorMethod → Type 0
  IsProved TwoFactorMethod.totp = ByApp
  IsProved TwoFactorMethod.email = Unit
  IsProved TwoFactorMethod.off = Unit

  pub record IsSwitchedOff (after : Db) : Type 0 where
    pub no_admin : is_platform_admin auth.user ≡ false
    pub was_on : is_off (method_for auth.user) ≡ false
    pub proved : IsProved (method_for auth.user)
    pub off : after.users ≡ update_where (user_id_is auth.user.id) (switched_off now) before.users
    pub no_codes : count_unused_backup_codes auth.user.id after ≡ 0

  -- Neither the app's code nor a backup code was given.
  pub record WrongCode (stored : String) : Type 0 where
    pub secret : String
    pub read : host.factors.decrypt_secret stored ≡ ok secret
    pub wrong :
        (verify_totp host.factors.mac secret code now auth.user.totp_last_counter).valid ≡ false
    pub unspent :
        (consume_backup_code host.factors.digests now ip auth.user code before).0 ≢ ok true

  -- The stored secret does not decrypt.
  pub record Unreadable (stored : String) : Type 0 where
    pub error : HttpError
    pub unread : host.factors.decrypt_secret stored ≡ err error

  -- A stored secret that is of no avail.
  pub record Unavailing : Type 0 where
    pub stored : String
    pub enrolled : present auth.user.totp_secret ≡ some stored
    pub fails : Unreadable stored ⊎ WrongCode stored

  -- Only a factor by app can lack its proof.
  abbrev pub IsUnproved : TwoFactorMethod → Type 0
  IsUnproved TwoFactorMethod.totp = (present auth.user.totp_secret ≡ none) ⊎ Unavailing
  IsUnproved TwoFactorMethod.email = ⊥
  IsUnproved TwoFactorMethod.off = ⊥

  pub record IsRefused (after : Db) : Type 0 where
    pub why :
        (is_platform_admin auth.user ≡ true)
        ⊎ (is_off (method_for auth.user) ≡ true)
        ⊎ IsUnproved (method_for auth.user)
    pub kept : after.users ≡ before.users

  -- Whatever the handler answers.
  abbrev pub Answers : Result (Unit {0}) × Db → Type 0
  Answers = Settles IsSwitchedOff IsRefused

  record Same (db : Db) : Type 0 where
    same : db.users ≡ before.users

  no_unused :
      (rows : List BackupCodeRow)
      → count_where
          (unused_of auth.user.id)
          (delete_where (λ row. str_eq row.user_id auth.user.id) rows)
        ≡ 0
  unfolding count_where delete_where
  no_unused [] = refl
  no_unused (row ∷ rows) = ground (arith, no_unused rows)

  consume_same :
      (consume_backup_code host.factors.digests now ip auth.user code before).1.users ≡ before.users
  unfolding consume_backup_code spend exec
  consume_same = ground arith

  abbrev Spent : Type 0
  Spent = (consume_backup_code host.factors.digests now ip auth.user code before).0 ≡ ok true

  ok_false : (r : Result Bool) → r ≡ ok false → r ≢ ok true
  ok_false r e h = cc

  err_ok : (r : Result Bool) (x : HttpError) → r ≡ err x → r ≢ ok true
  err_ok r x e h = cc

  spent-Settles :
      (r : Result Bool) (db : Db) (e : HttpError)
      → db.users ≡ before.users
      → Settles
          (λ db'. (r ≡ ok true) × Same db')
          (λ db'. (r ≢ ok true) × Same db')
          (continue (r, db) (λ spent. throw_if (not spent) e))
  unfolding throw_if
  spent-Settles (err x) db e h = (err_ok (err x) x refl, record { same = h })
  spent-Settles (ok true) db e h = (refl, record { same = h })
  spent-Settles (ok false) db e h = (ok_false (ok false) refl, record { same = h })

  abbrev Proves : Bool → Db → Type 0
  Proves valid db' = ((valid ≡ true) ⊎ Spent) × Same db'

  abbrev Fails : Bool → Db → Type 0
  Fails valid db' = (valid ≡ false) × (Spent → ⊥) × Same db'

  prove_by-Proves :
      (result : TotpVerification)
      → Settles
          (Proves result.valid)
          (Fails result.valid)
          (prove_by host now ip auth code result before)
  unfolding prove_by pure ◌>>=◌
  prove_by-Proves result =
      if_cases
        (λ (m : Exec (Unit {0})). Settles (Proves result.valid) (Fails result.valid) (m before))
        result.valid (λ valid. (inl valid, record { same = refl }))
        (λ other.
          Settles-map (λ db'. Spent × Same db') (Proves result.valid)
            (λ db'. (Spent → ⊥) × Same db') (Fails result.valid) _ (λ db' h. (inr h.0, h.1))
            (λ db' h. (other, h.0, h.1)) (spent-Settles _ _ _ consume_same))

  abbrev Refuses : TwoFactorMethod → Db → Type 0
  Refuses method db' = IsUnproved method × Same db'

  read-ByApp :
      (stored : String) (read : Result String)
      → present auth.user.totp_secret ≡ some stored
      → host.factors.decrypt_secret stored ≡ read
      → Settles
          (λ db'. ByApp × Same db')
          (Refuses TwoFactorMethod.totp)
          (continue
            (read, before)
            (λ secret.
              prove_by host now ip auth code
                (verify_totp host.factors.mac secret code now auth.user.totp_last_counter)))
  read-ByApp stored (err e) enrolled unread = (
    inr (record {
      stored = stored;
      enrolled = enrolled;
      fails = inl (record { error = e; unread = unread });
    }),
    record { same = refl },
  )
  read-ByApp stored (ok secret) enrolled read =
      let valid =
        (verify_totp host.factors.mac secret code now auth.user.totp_last_counter).valid in
      Settles-map (Proves valid) (λ db'. ByApp × Same db') (Fails valid)
        (Refuses TwoFactorMethod.totp) _
        (λ db' h. (
          record {
            stored = stored;
            secret = secret;
            enrolled = enrolled;
            read = read;
            proved = h.0;
          },
          h.1,
        ))
        (λ db' h. (
          inr (record {
            stored = stored;
            enrolled = enrolled;
            fails = inr (record { secret = secret; read = read; wrong = h.0; unspent = h.1 });
          }),
          h.2,
        ))
        (prove_by-Proves _)

  prove_by_app-ByApp :
      (stored : Option String)
      → present auth.user.totp_secret ≡ stored
      → Settles
          (λ db'. ByApp × Same db')
          (Refuses TwoFactorMethod.totp)
          (prove_by_app host now ip auth code stored before)
  unfolding prove_by_app throw lift ◌>>=◌
  prove_by_app-ByApp none e = (inl e, record { same = refl })
  prove_by_app-ByApp (some stored) e = read-ByApp stored (host.factors.decrypt_secret stored) e refl

  prove-IsProved :
      (method : TwoFactorMethod)
      → Settles
          (λ db'. IsProved method × Same db')
          (Refuses method)
          (prove host now ip auth code method before)
  unfolding prove pure
  prove-IsProved TwoFactorMethod.totp = prove_by_app-ByApp _ refl
  prove-IsProved TwoFactorMethod.email = (tt, record { same = refl })
  prove-IsProved TwoFactorMethod.off = (tt, record { same = refl })

  switch_off-IsSwitchedOff :
      (db : Db)
      → is_platform_admin auth.user ≡ false
      → is_off (method_for auth.user) ≡ false
      → IsProved (method_for auth.user)
      → Same db
      → Answers (switch_off host now ip auth db)
  unfolding switch_off write_audit count_unused_backup_codes exec
  switch_off-IsSwitchedOff db no_admin was_on proved same = record {
    no_admin = no_admin;
    was_on = was_on;
    proved = proved;
    off = ap (update_where (user_id_is auth.user.id) (switched_off now)) same.same;
    no_codes = no_unused db.backup_codes;
  }

  disable-Answers : Answers (handle_two_factor_disable host now ip auth code before)
  unfolding handle_two_factor_disable
  disable-Answers =
      test-Settles IsSwitchedOff IsRefused _ _ _ before
        (λ admin. record { why = inl admin; kept = refl })
        (λ no_admin.
          test-Settles IsSwitchedOff IsRefused _ _ _ before
            (λ off. record { why = inr (inl off); kept = refl })
            (λ was_on.
              then-Settles (λ db'. IsProved (method_for auth.user) × Same db') IsSwitchedOff
                IsRefused _ _ before
                (Settles-map (λ db'. IsProved (method_for auth.user) × Same db')
                  (λ db'. IsProved (method_for auth.user) × Same db')
                  (Refuses (method_for auth.user)) IsRefused _ (λ db' h. h)
                  (λ db' h. record { why = inr (inr h.0); kept = h.1.same })
                  (prove-IsProved (method_for auth.user)))
                (λ db' h. switch_off-IsSwitchedOff db' no_admin was_on h.0 h.1)))

-- A second factor is switched off unless the user is an administrator, has none, or has an
-- authenticator app and no stored secret, one that does not decrypt, or gives neither a code of it that
-- the check accepts after the last one used nor a backup code that is spent; so a factor by mail is
-- switched off whatever code the request brings or lacks. Behind it the user's row has no factor, the
-- other rows of users are as before, and no backup code of the user is left; where the request is
-- refused, all rows of users are as before.
pub handle_two_factor_disable-Answers :
    (host : EnrolmentHost) (now : ℕ) (ip : String) (auth : AuthContext) (code : String)
    (before : Db)
    → Answers host now ip auth code before (handle_two_factor_disable host now ip auth code before)
handle_two_factor_disable-Answers host now ip auth code before =
    disable-Answers host now ip auth code before
