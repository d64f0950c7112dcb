-- ===== src/Auth/Second/Guesses.antt =====
-- How many wrong codes a challenge takes, through the handler that checks them
-- (app/worker/routes/twoFactor.ts).
use ctf_website.Audit.{write_audit}
use ctf_website.TwoFactor.Bounds.{
  count_if, answers_left, discard_challenge-left, is_failed, verify_challenge-UsesOne, left_to,
}
use ctf_website.Auth.Session.{create_session, org_id_is, user_id_is}
use ctf_website.Schema.{Db, ChallengeRow, UserRow}
use ctf_website.TwoFactor.{
  passed, failed, FactorHost, discard_challenge, max_challenge_attempts, CodeAnswer, failed,
  load_challenge, unless_expired, challenge_id_is, sign_in_expired,
}
use ctf_website.Auth.Second.{
  SecondReply, reject_challenge, after_code, for_user, finish, not_yet, second_step,
  handle_challenge_verify,
}
use ctf_website.Base.{
  ℕ, ◌+◌, ◌-◌, ◌≤◌, ◌≡◌, inl, inr, refl, ap, subst, String, Bool, true, false, Option, none, some,
  List, [], ◌∷◌, arith, eq_iff, leb, Option-cases, find_first, if_cases, find_first_sound, ◌∙◌,
}
use ctf_website.Http.{Exec, Result, ok, err, pure, require, select, ◌>>=◌, exec, continue}

abbrev pub is_not_yet : Result SecondReply → Bool
is_not_yet (ok (not_yet message attempts_left)) = true
is_not_yet answer = false

-- A wrong code, if that is the answer, and what is left are within what was left.
abbrev Spends : ℕ → String → Result SecondReply × Db → Type 0
Spends left id (answer, db') = count_if (is_not_yet answer) + answers_left id db' ≤ left

module _ (host : FactorHost) (remaining : ℕ → String) (now : ℕ) (token ip : String)
    (user_agent : Option String) where
  finish-Spends :
      (challenge : ChallengeRow) (user : UserRow) (left : ℕ) (id : String) (db : Db)
      → answers_left id db ≤ left
      → Spends left id (finish host remaining now token ip user_agent challenge user db)
  unfolding finish create_session write_audit exec
  finish-Spends challenge user left id db h =
      elim (Option-cases (find_first (org_id_is user.org_id) db.organizations)) [
        | inl unlinked ↦ rw unlinked (omega arith)
        | inr (org, found) ↦ rw found (omega arith)
      ]

  after_code-Spends :
      (challenge : ChallengeRow) (user : UserRow) (left : ℕ) (id : String)
      (answer : Result CodeAnswer) (db : Db)
      → count_if (is_failed answer) + answers_left id db ≤ left
      → Spends left id
          (continue (answer, db) (after_code host remaining now token ip user_agent challenge user))
  unfolding after_code pure
  after_code-Spends challenge user left id (ok passed) db h =
      finish-Spends challenge user left id db (omega arith)
  after_code-Spends challenge user left id (ok (failed message attempts_left)) db h = h
  after_code-Spends challenge user left id (err e) db h = h

  reject-Spends :
      (left : ℕ) (id : String) (db : Db)
      → Spends left id (reject_challenge host remaining now token ip user_agent id db)
  unfolding reject_challenge exec discard_challenge
  reject-Spends left id db = omega (arith, discard_challenge-left id db)

  for_user-Spends :
      (challenge : ChallengeRow) (code : String) (user : Option UserRow) (db : Db)
      → answers_left challenge.id db ≤ max_challenge_attempts - challenge.attempts
      → Spends
          (max_challenge_attempts - challenge.attempts)
          challenge.id
          (for_user host remaining now token ip user_agent challenge code none user db)
  unfolding for_user second_step ◌>>=◌
  for_user-Spends challenge code none db h = reject-Spends _ challenge.id db
  for_user-Spends challenge code (some user) db h =
      if_cases
        (λ (m : Exec SecondReply).
          Spends (max_challenge_attempts - challenge.attempts) challenge.id (m db))
        user.disabled (λ off. reject-Spends _ challenge.id db)
        (λ on.
          after_code-Spends challenge user _ challenge.id _ _
            (verify_challenge-UsesOne host now challenge user code db h))

  checked-Spends :
      (expired : Bool) (challenge : ChallengeRow) (code : String) (db : Db)
      → answers_left challenge.id db ≡ max_challenge_attempts - challenge.attempts
      → Spends (max_challenge_attempts - challenge.attempts) challenge.id (
          (unless_expired expired challenge >>= (λ row.
              select (λ d. find_first (user_id_is row.user_id) d.users)
              >>= (λ user. for_user host remaining now token ip user_agent row code none user)))
            db)
  unfolding unless_expired exec discard_challenge
  checked-Spends true challenge code db h = omega (arith, discard_challenge-left challenge.id db)
  checked-Spends false challenge code db h = for_user-Spends challenge code _ db (omega (arith, h))

  abbrev rest : String → ChallengeRow → Exec SecondReply
  rest code row =
      select (λ d. find_first (user_id_is row.user_id) d.users)
      >>= (λ user. for_user host remaining now token ip user_agent row code none user)

  found-Spends :
      (id code : String) (found : Option ChallengeRow) (db : Db)
      → find_first (challenge_id_is id) db.login_challenges ≡ found
      → Spends (left_to found) id (
          (require found sign_in_expired
              >>= (λ row. unless_expired (leb row.expires_at now) row)
              >>= rest code)
            db)
  unfolding require ◌>>=◌
  found-Spends id code none db h = omega (arith, ap left_to h)
  found-Spends id code (some challenge) db h =
      let same : challenge.id ≡ id = (eq_iff challenge.id id).0 (find_first_sound _ _ _ h) in
      subst
        (λ x.
          Spends (max_challenge_attempts - challenge.attempts) x
            ((unless_expired (leb challenge.expires_at now) challenge >>= rest code) db))
        same
        (checked-Spends (leb challenge.expires_at now) challenge code db
          (ap (λ x. answers_left x db) same ∙ ap left_to h))

  loaded-Spends :
      (id code : String) (db : Db)
      → Spends (answers_left id db) id ((load_challenge now id >>= rest code) db)
  unfolding load_challenge select ◌>>=◌
  loaded-Spends id code db =
      found-Spends id code (find_first (challenge_id_is id) db.login_challenges) db refl

  handle_challenge_verify-Spends :
      (id code : String) (db : Db)
      → Spends
          (answers_left id db)
          id
          (handle_challenge_verify host remaining now token ip user_agent (some id) code none db)
  unfolding handle_challenge_verify require ◌>>=◌
  handle_challenge_verify-Spends String.[] code db = omega arith
  handle_challenge_verify-Spends (String.◌∷◌ c s) code db = loaded-Spends (String.◌∷◌ c s) code db

-- A code sent for a challenge: when, the token that a session would get, and the code.
pub record Guess : Type 0 where
  pub at : ℕ
  pub token : String
  pub code : String

module _ (host : FactorHost) (remaining : ℕ → String) (ip : String) (user_agent : Option String)
    (id : String) where
  -- How many of the codes are answered as wrong, one after the other, and the database then.
  abbrev pub wrong_codes : List Guess → Db → ℕ × Db
  wrong_codes [] db = (0, db)
  wrong_codes (guess ∷ guesses) db =
      let (answer, db') =
        handle_challenge_verify host remaining guess.at guess.token ip user_agent (some id)
          guess.code none db in
      let (wrong, last) = wrong_codes guesses db' in (count_if (is_not_yet answer) + wrong, last)

  -- However many codes are sent for a challenge, the wrong ones that are answered as such and the
  -- tries that are then left are together no more than the tries that were left at first.
  pub wrong_codes_lem :
      (guesses : List Guess) (db : Db)
      → (wrong_codes guesses db).0 + answers_left id (wrong_codes guesses db).1 ≤ answers_left id db
  wrong_codes_lem [] db = omega arith
  wrong_codes_lem (guess ∷ guesses) db = omega (
    arith,
    handle_challenge_verify-Spends host remaining guess.at guess.token ip user_agent id guess.code
        db,
    wrong_codes_lem guesses _,
  )
