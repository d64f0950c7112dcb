-- ===== src/TwoFactor/Bounds.antt =====
-- How often a challenge of the second factor may be answered (app/worker/lib/twoFactor.ts).
-- How many answers are left to the challenge: none once it is gone.
use ctf_website.Crypto.{timing_safe_equal}
use ctf_website.Base.Texts.{codes, remove}
use ctf_website.Totp.{is_six_digits, TotpVerification}
use ctf_website.Schema.{Db, ChallengeRow, UserRow}
use ctf_website.TwoFactor.{
  discard_challenge, fail_challenge, CodeAnswer, challenge_id_is, max_challenge_attempts, failed,
  with_attempts, give_up, pass, strike, FactorHost, settle_totp, answer_totp, answer_email,
  verify_challenge, is_separator, is_email, wrong_code,
}
use ctf_website.Base.{
  ℕ, suc, ◌+◌, ◌-◌, ◌≤◌, ◌≡◌, inl, inr, refl, ap, String, Bool, true, false, not, Option, none,
  some, List, [], ◌∷◌, arith, leb, Bool-cases, find_first, update_where, delete_where, if_cases,
}
use ctf_website.Http.{Exec, Result, ok, err, write, lift, ◌>>=◌, ◌>>◌, exec}

abbrev pub left_to : Option ChallengeRow → ℕ
left_to none = 0
left_to (some challenge) = max_challenge_attempts - challenge.attempts

abbrev pub answers_left : String → Db → ℕ
answers_left id db = left_to (find_first (challenge_id_is id) db.login_challenges)

abbrev pub is_failed : Result CodeAnswer → Bool
is_failed (ok (failed message attempts_left)) = true
is_failed answer = false

abbrev pub count_if : Bool → ℕ
count_if true = 1
count_if false = 0

find_first-delete_where :
    {A : Type 0} (test : A → Bool) (xs : List A) → find_first test (delete_where test xs) ≡ none
unfolding find_first delete_where
find_first-delete_where test [] = refl
find_first-delete_where test (x ∷ xs) = elim (Bool-cases (test x)) [
  | inl hit ↦ rw hit (find_first-delete_where test xs)
  | inr miss ↦ rw miss (rw miss (find_first-delete_where test xs))
]

find_first-with_attempts :
    (id : String) (attempts : ℕ) (challenges : List ChallengeRow)
    → left_to (
        find_first
          (challenge_id_is id)
          (update_where (challenge_id_is id) (with_attempts attempts) challenges))
      ≤ max_challenge_attempts - attempts
unfolding find_first update_where
find_first-with_attempts id attempts [] = omega arith
find_first-with_attempts id attempts (challenge ∷ challenges) =
    ground (arith, find_first-with_attempts id attempts challenges)

-- Every answer to a challenge that has some left uses one up, or the challenge is gone.
abbrev UsesOne : ℕ → String → Result CodeAnswer × Db → Type 0
UsesOne left id (answer, db') = count_if (is_failed answer) + answers_left id db' ≤ left

pub discard_challenge-left :
    (id : String) (db : Db) → answers_left id (discard_challenge id db).1 ≡ 0
unfolding discard_challenge write
discard_challenge-left id db =
    ap left_to (find_first-delete_where (challenge_id_is id) db.login_challenges)

give_up-UsesOne : (left : ℕ) (id : String) (db : Db) → UsesOne left id (give_up id db)
unfolding give_up exec discard_challenge
give_up-UsesOne left id db = omega (arith, discard_challenge-left id db)

pass-UsesOne : (left : ℕ) (id : String) (db : Db) → UsesOne left id (pass id db)
unfolding pass exec discard_challenge
pass-UsesOne left id db = omega (arith, discard_challenge-left id db)

strike-UsesOne :
    (left : ℕ) (id message : String) (attempts : ℕ) (db : Db)
    → suc (max_challenge_attempts - attempts) ≤ left
    → UsesOne left id (strike id message attempts db)
unfolding strike exec
strike-UsesOne left id message attempts db h =
    omega (arith, find_first-with_attempts id attempts db.login_challenges)

-- The answers to a challenge that has taken `attempts` wrong ones.
module _ (challenge : ChallengeRow) (db : Db) where
  abbrev left : ℕ
  left = max_challenge_attempts - challenge.attempts

  record Fair (m : Exec CodeAnswer) : Type 0 where
    pub at : UsesOne left challenge.id (m db)

  fail_challenge-UsesOne : (message : String) → Fair (fail_challenge challenge message)
  unfolding fail_challenge
  fail_challenge-UsesOne message =
      if_cases Fair (leb max_challenge_attempts (suc challenge.attempts))
        (λ over. record { at = give_up-UsesOne left challenge.id db })
        (λ under. record {
          at = strike-UsesOne left challenge.id message (suc challenge.attempts) db (ground arith);
        })

module _ (host : FactorHost) (now : ℕ) (challenge : ChallengeRow) (user : UserRow) where
  answer_email-UsesOne :
      (code : String) (hash : Option String) (db : Db)
      → Fair challenge db (answer_email host challenge code hash)
  unfolding answer_email
  answer_email-UsesOne code none db = fail_challenge-UsesOne challenge db _
  answer_email-UsesOne code (some hash) db =
      if_cases (Fair challenge db)
        (timing_safe_equal host.digests (host.digests.sha256_hex code) hash)
        (λ same. record { at = pass-UsesOne (left challenge db) challenge.id db })
        (λ other. fail_challenge-UsesOne challenge db wrong_code)

  settle_totp-UsesOne :
      (result : TotpVerification) (counter : Option ℕ) (db : Db)
      → Fair challenge db (settle_totp challenge user result counter)
  unfolding settle_totp write ◌>>◌
  settle_totp-UsesOne result none db = fail_challenge-UsesOne challenge db _
  settle_totp-UsesOne result (some counter) db = record {
    at = pass-UsesOne (left challenge db) challenge.id _;
  }

  lifted-UsesOne :
      (secret : Result String) (k : String → Exec CodeAnswer) (db : Db)
      → answers_left challenge.id db ≤ left challenge db
      → ((s : String) → Fair challenge db (k s))
      → Fair challenge db (lift secret >>= k)
  unfolding lift ◌>>=◌
  lifted-UsesOne (ok s) k db h fair = record { at = (fair s).at }
  lifted-UsesOne (err e) k db h fair = record { at = omega (arith, h) }

  answer_totp-UsesOne :
      (code : String) (stored : Option String) (db : Db)
      → answers_left challenge.id db ≤ left challenge db
      → Fair challenge db (answer_totp host now challenge user code stored)
  unfolding answer_totp
  answer_totp-UsesOne code none db h = fail_challenge-UsesOne challenge db _
  answer_totp-UsesOne code (some stored) db h =
      lifted-UsesOne _ _ db h (λ secret. settle_totp-UsesOne _ _ db)

  -- A code that is called wrong uses up one of the answers that the challenge had left, and no code
  -- adds to them.
  pub verify_challenge-UsesOne :
      (submitted : String) (db : Db)
      → answers_left challenge.id db ≤ max_challenge_attempts - challenge.attempts
      → count_if (is_failed (verify_challenge host now challenge user submitted db).0)
          + answers_left challenge.id (verify_challenge host now challenge user submitted db).1
        ≤ max_challenge_attempts - challenge.attempts
  unfolding verify_challenge
  verify_challenge-UsesOne submitted db h =
      (if_cases (Fair challenge db) (not (is_six_digits (codes (remove is_separator submitted))))
        (λ malformed. fail_challenge-UsesOne challenge db _)
        (λ six.
          if_cases (Fair challenge db) (is_email challenge.method)
            (λ by_email. answer_email-UsesOne _ _ db) (λ by_app. answer_totp-UsesOne _ _ db h))).at
