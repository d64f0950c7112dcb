-- ===== src/Auth/Limiter.antt =====
-- app/worker/lib/auth.ts: the limit on failed sign-ins, and the housekeeping of the tables.
mod Tests
use ctf_website.Schema.{Db, LoginAttemptRow}
use ctf_website.Base.{
  ℕ, suc, zero, ◌+◌, ◌-◌, ◌*◌, ◌/◌, ◌%◌, ◌≤◌, ◌<◌, min, max, ◌≡◌, ◌≢◌, ◌↔◌, ◌⊎◌, inl, inr, refl,
  sym, ap, subst, String, Bool, true, false, not, ◌&&◌, ◌||◌, Option, none, some, List, [], ◌∷◌,
  ◌++◌, map, arith, eq_iff, eq_refl, ltb, leb, ◌==◌, if◌then◌else◌, Bool-cases, Option-cases,
  coalesce, or_else, is_some, str_eq, length, All, find_first, update_where, delete_where,
  filter_where, count_where, ◌∙◌,
}
use ctf_website.Http.{
  Exec, Result, ok, err, pure, throw, throw_if, require, select, write, lift, ◌>>=◌, ◌>>◌,
  HttpError, too_many_requests,
}

abbrev pub login_window_ms : ℕ
login_window_ms = 15 * 60 * 1000

abbrev pub max_failures_per_email : ℕ
max_failures_per_email = 5

abbrev pub max_failures_per_ip : ℕ
max_failures_per_ip = 30

-- WHERE successful = 0 AND created_at > ?3
abbrev pub counts_since : ℕ → LoginAttemptRow → Bool
counts_since now attempt = not attempt.successful && ltb now (attempt.created_at + login_window_ms)

abbrev pub failed_as : ℕ → String → LoginAttemptRow → Bool
failed_as now email attempt = counts_since now attempt && str_eq attempt.email email

abbrev pub failed_from : ℕ → String → LoginAttemptRow → Bool
failed_from now ip attempt = counts_since now attempt && str_eq attempt.ip ip

abbrev pub too_many_sign_ins : HttpError
too_many_sign_ins =
    too_many_requests "Too many sign-in attempts. Please wait 15 minutes and try again."
      (login_window_ms / 1000)

abbrev pub is_limited : ℕ → (email ip : String) → Db → Bool
is_limited now email ip db =
    leb max_failures_per_email (count_where (failed_as now email) db.login_attempts)
    || leb max_failures_per_ip (count_where (failed_from now ip) db.login_attempts)

unfoldable pub assert_login_allowed : ℕ → (email ip : String) → Exec (Unit {0})
assert_login_allowed now email ip = do
  limited ← select (is_limited now email ip)
  throw_if limited too_many_sign_ins

unfoldable pub record_login_attempt : ℕ → (email ip : String) → Bool → Exec (Unit {0})
record_login_attempt now email ip successful = write (λ db. record db {
  login_attempts =
      db.login_attempts
      ++ record { email = email; ip = ip; successful = successful; created_at = now } ∷ [];
})

unfoldable pub prune_expired : ℕ → Exec (Unit {0})
prune_expired now = write (λ db. record db {
  sessions = delete_where (λ s. ltb s.expires_at now) db.sessions;
  login_attempts =
      delete_where (λ a. ltb (a.created_at + login_window_ms * 4) now) db.login_attempts;
  webhook_events =
      delete_where (λ e. ltb (e.received_at + 24 * 60 * 60 * 1000) now) db.webhook_events;
  oauth_states = delete_where (λ s. ltb s.expires_at now) db.oauth_states;
  rate_limits = delete_where (λ r. ltb r.expires_at now) db.rate_limits;
  login_challenges = delete_where (λ c. ltb c.expires_at now) db.login_challenges;
})

count_where-delete_where :
    {A : Type 0} (test gone : A → Bool) (xs : List A)
    → ((a : A) → gone a ≡ true → test a ≡ false)
    → count_where test (delete_where gone xs) ≡ count_where test xs
unfolding count_where delete_where
count_where-delete_where test gone [] h = refl
count_where-delete_where test gone (x ∷ xs) h =
    ground (arith, count_where-delete_where test gone xs h, h x)

-- Pruning the tables at one time does not lift the limit on sign-ins then or at any later time.
pub is_limited-prune_expired :
    (pruned now : ℕ) (email ip : String) (db : Db)
    → pruned ≤ now
    → is_limited now email ip (prune_expired pruned db).1 ≡ is_limited now email ip db
unfolding prune_expired write
is_limited-prune_expired pruned now email ip db h =
    ap
      (λ n.
        leb max_failures_per_email n
        || leb max_failures_per_ip (count_where (failed_from now ip) kept))
      (count_where-delete_where (failed_as now email) old db.login_attempts
        (λ attempt gone. ground arith))
    ∙ ap
        (λ n.
          leb max_failures_per_email (count_where (failed_as now email) db.login_attempts)
          || leb max_failures_per_ip n)
        (count_where-delete_where (failed_from now ip) old db.login_attempts
          (λ attempt gone. ground arith))
  where
    old : LoginAttemptRow → Bool
    old attempt = ltb (attempt.created_at + login_window_ms * 4) pruned

    kept : List LoginAttemptRow
    kept = delete_where old db.login_attempts
