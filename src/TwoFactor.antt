-- ===== src/TwoFactor.antt =====
-- app/worker/lib/twoFactor.ts: challenges of the second factor, and backup codes.
mod Tests
pub mod Bounds
pub mod Backup
use Prim.Native.String.{◌++◌ as append_text}
use ctf_website.Totp.{verify_totp, Mac, TotpVerification, is_six_digits}
use ctf_website.Base.Texts.{split_on, is_space, remove, codes, present, take_text, drop_text}
use ctf_website.Crypto.{Digests, timing_safe_equal}
use ctf_website.Schema.{ChallengeRow, UserRow, TwoFactorMethod, totp, off}
use ctf_website.Base.{
  ℕ, suc, zero, ◌+◌, ◌-◌, ◌*◌, ◌/◌, ◌%◌, ◌≤◌, ◌<◌, min, max, ◌≡◌, ◌≢◌, ◌↔◌, ◌⊎◌, inl, inr, refl,
  sym, ap, subst, String, Bool, true, false, not, ◌&&◌, ◌||◌, Option, none, some, List, [], ◌∷◌,
  ◌++◌, map, arith, eq_iff, eq_refl, ltb, leb, ◌==◌, if◌then◌else◌, Bool-cases, Option-cases,
  coalesce, or_else, is_some, str_eq, length, All, find_first, update_where, delete_where,
  filter_where, count_where,
}
use ctf_website.Http.{
  Exec, Result, ok, err, pure, throw, throw_if, require, select, write, lift, ◌>>=◌, ◌>>◌,
  HttpError, unauthorized, too_many_requests,
}

abbrev pub challenge_ttl_ms : ℕ
challenge_ttl_ms = 5 * 60 * 1000

abbrev pub max_challenge_attempts : ℕ
max_challenge_attempts = 5

-- What the deployment brings: digests, the codes' HMAC, the decryption of stored secrets
-- (app/worker/lib/secretbox.ts over WebCrypto's AES-GCM) and the mail service, which both may fail.
pub record FactorHost : Type 0 where
  pub digests : Digests
  pub mac : Mac
  pub decrypt_secret : String → Result String
  pub send_code : (to code : String) → Result (Unit {0})

-- `throw new Error`, which is answered as an internal error.
abbrev pub internal_error : HttpError
internal_error = record {
  status = 500;
  code = "internal_error";
  message = "Something went wrong on our side. Please try again.";
  retry_after = none;
}

abbrev pub truthy : Option ℕ → Bool
truthy none = false
truthy (some n) = not (n == 0)

abbrev pub live_method : TwoFactorMethod → Option ℕ → TwoFactorMethod
live_method TwoFactorMethod.totp confirmed_at = if truthy confirmed_at then totp else off
live_method method confirmed_at = method

unfoldable pub method_for : UserRow → TwoFactorMethod
method_for user = live_method user.two_factor_method user.totp_confirmed_at

abbrev pub is_off : TwoFactorMethod → Bool
is_off TwoFactorMethod.off = true
is_off method = false

abbrev pub is_email : TwoFactorMethod → Bool
is_email TwoFactorMethod.email = true
is_email method = false

unfoldable pub requires_second_factor : UserRow → Bool
requires_second_factor user = not (is_off (method_for user))

-- The first two characters, and a star for each further one.
abbrev pub stars : String → String
stars String.[] = String.[]
stars (String.◌∷◌ c s) = append_text "*" (stars s)

abbrev pub masked : String → String
masked s = append_text (take_text 2 s) (stars (drop_text 2 s))

abbrev pub part : ℕ → List String → String
part n [] = ""
part zero (p ∷ ps) = p
part (suc n) (p ∷ ps) = part n ps

abbrev pub dotted : List String → String
dotted [] = ""
dotted (p ∷ ps) = append_text (append_text "." p) (dotted ps)

abbrev pub mask_domain : List String → String
mask_domain [] = masked ""
mask_domain (name ∷ rest) = append_text (masked name) (dotted rest)

unfoldable pub mask_email : String → String
mask_email address =
    let parts = split_on b'@' address in
    append_text (masked (part 0 parts))
      (append_text "@" (mask_domain (split_on b'.' (part 1 parts))))

pub record Started : Type 0 where
  pub challenge_id : String
  pub method : TwoFactorMethod
  pub sent_to : Option String

abbrev pub challenge_id_is : String → ChallengeRow → Bool
challenge_id_is id challenge = str_eq challenge.id id

-- `code` is the six digits that are drawn.
abbrev pub hash_if : Digests → Bool → String → Option String
hash_if digests true code = some (digests.sha256_hex code)
hash_if digests false code = none

unfoldable pub mail_if : FactorHost → Bool → (to code : String) → Exec (Unit {0})
mail_if host true to code = lift (host.send_code to code)
mail_if host false to code = pure tt

abbrev pub sent_if : Bool → String → Option String
sent_if true to = some (mask_email to)
sent_if false to = none

unfoldable pub start_challenge : FactorHost → ℕ → (id code : String) → UserRow → Exec Started
start_challenge host now id code user = do
  throw_if (is_off (method_for user)) internal_error
  write (λ db. record db {
    login_challenges =
        db.login_challenges
        ++ record {
          id = id;
          user_id = user.id;
          method = method_for user;
          code_hash = hash_if host.digests (is_email (method_for user)) code;
          attempts = 0;
          created_at = now;
          expires_at = now + challenge_ttl_ms;
        }
          ∷ [];
  })
  mail_if host (is_email (method_for user)) user.email code
  pure (record {
    challenge_id = id;
    method = method_for user;
    sent_to = sent_if (is_email (method_for user)) user.email;
  })

unfoldable pub discard_challenge : String → Exec (Unit {0})
discard_challenge id =
    write
      (λ db. record db { login_challenges = delete_where (challenge_id_is id) db.login_challenges })

abbrev pub sign_in_expired : HttpError
sign_in_expired = unauthorized "That sign-in has expired. Please start again."

unfoldable pub unless_expired : Bool → ChallengeRow → Exec ChallengeRow
unless_expired true row = do discard_challenge row.id; throw sign_in_expired
unless_expired false row = pure row

unfoldable pub load_challenge : ℕ → String → Exec ChallengeRow
load_challenge now id = do
  found ← select (λ db. find_first (challenge_id_is id) db.login_challenges)
  row ← require found sign_in_expired
  unless_expired (leb row.expires_at now) row

pub data CodeAnswer : Type 0 where
  passed : CodeAnswer
  failed : (message : String) → (attempts_left : ℕ) → CodeAnswer

abbrev pub with_attempts : ℕ → ChallengeRow → ChallengeRow
with_attempts attempts challenge = record challenge { attempts = attempts }

abbrev pub too_many_codes : HttpError
too_many_codes =
    too_many_requests "Too many incorrect codes. Please sign in again." (challenge_ttl_ms / 1000)

unfoldable pub give_up : String → Exec CodeAnswer
give_up id = do discard_challenge id; throw too_many_codes

unfoldable pub strike : String → (message : String) → (attempts : ℕ) → Exec CodeAnswer
strike id message attempts = do
  write (λ db. record db {
    login_challenges =
        update_where (challenge_id_is id) (with_attempts attempts) db.login_challenges;
  })
  pure (failed message (max_challenge_attempts - attempts))

unfoldable pub fail_challenge : ChallengeRow → String → Exec CodeAnswer
fail_challenge challenge message =
    let attempts = suc challenge.attempts in
    if leb max_challenge_attempts attempts
    then give_up challenge.id
    else strike challenge.id message attempts

unfoldable pub pass : String → Exec CodeAnswer
pass id = do discard_challenge id; pure passed

abbrev pub is_separator : ℕ → Bool
is_separator c = is_space c || c == b'-'

abbrev pub wrong_code : String
wrong_code = "That code is not correct."

abbrev pub totp_message : Bool → String
totp_message true = "That code has already been used. Wait for your app to show the next one."
totp_message false = wrong_code

unfoldable pub answer_email : FactorHost → ChallengeRow → String → Option String → Exec CodeAnswer
answer_email host challenge code none = fail_challenge challenge wrong_code
answer_email host challenge code (some code_hash) =
    if timing_safe_equal host.digests (host.digests.sha256_hex code) code_hash
    then pass challenge.id
    else fail_challenge challenge wrong_code

unfoldable pub settle_totp : ChallengeRow → UserRow → TotpVerification → Option ℕ → Exec CodeAnswer
settle_totp challenge user result none = fail_challenge challenge (totp_message result.reused)
settle_totp challenge user result (some counter) = do
  write (λ db. record db {
    users =
        update_where (λ row. str_eq row.id user.id)
          (λ row. record row { totp_last_counter = some counter }) db.users;
  })
  pass challenge.id

unfoldable pub answer_totp :
    FactorHost → ℕ → ChallengeRow → UserRow → String → Option String → Exec CodeAnswer
answer_totp host now challenge user code none = fail_challenge challenge wrong_code
answer_totp host now challenge user code (some stored) = do
  secret ← lift (host.decrypt_secret stored)
  let result = verify_totp host.mac secret code now user.totp_last_counter
  settle_totp challenge user result result.counter

unfoldable pub verify_challenge : FactorHost → ℕ → ChallengeRow → UserRow → String → Exec CodeAnswer
verify_challenge host now challenge user submitted =
    let code = remove is_separator submitted in
    if not (is_six_digits (codes code))
    then fail_challenge challenge "Enter the six-digit code."
    else if is_email challenge.method
    then answer_email host challenge code (present challenge.code_hash)
    else answer_totp host now challenge user code (present user.totp_secret)
