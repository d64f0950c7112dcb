-- ===== src/RateLimit.antt =====
-- app/worker/lib/rateLimit.ts: counters of requests over fixed windows. A bucket's key is the
-- triple whose parts the source joins with colons.
mod Tests
use ctf_website.Schema.{RateLimitRow, Db}
use ctf_website.Base.{
  ℕ, suc, zero, ◌+◌, ◌-◌, ◌*◌, ◌/◌, ◌%◌, ◌≤◌, ◌<◌, min, max, ◌≡◌, ◌≢◌, ◌↔◌, ◌⊎◌, inl, inr, refl,
  sym, ap, subst, String, Bool, true, false, not, ◌&&◌, ◌||◌, Option, none, some, List, [], ◌∷◌,
  ◌++◌, map, arith, eq_iff, eq_refl, ltb, leb, ◌==◌, if◌then◌else◌, Bool-cases, Option-cases,
  coalesce, or_else, is_some, str_eq, length, All, find_first, update_where, delete_where,
  filter_where, count_where, ◌∙◌,
}
use ctf_website.Http.{
  Exec, Result, ok, err, pure, throw, throw_if, require, select, write, lift, ◌>>=◌, ◌>>◌,
  too_many_requests, exec, HttpError,
}

pub record RateLimitRule : Type 0 where
  pub name : String
  pub limit : ℕ
  pub window_ms : ℕ

pub record RateLimitResult : Type 0 where
  pub allowed : Bool
  pub remaining : ℕ
  pub retry_after_seconds : ℕ

abbrev pub two_factor_rule : RateLimitRule
two_factor_rule = record { name = "2fa"; limit = 5; window_ms = 15 * 60000 }

abbrev pub Bucket : Type 0
Bucket = String × String × ℕ

unfoldable pub same_bucket : Bucket → Bucket → Bool
same_bucket (name, subject, start) (name', subject', start') =
    str_eq name name' && (str_eq subject subject' && start == start')

-- INSERT INTO rate_limits … ON CONFLICT (bucket) DO UPDATE SET hits = hits + 1.
unfoldable pub count_hit :
    Bucket → (window_start expires_at : ℕ) → List RateLimitRow → List RateLimitRow
count_hit bucket window_start expires_at [] =
    record { bucket = bucket; hits = 1; window_start = window_start; expires_at = expires_at } ∷ []
count_hit bucket window_start expires_at (row ∷ rows) =
    let rest = count_hit bucket window_start expires_at rows in
    if same_bucket row.bucket bucket then record row { hits = row.hits + 1 } ∷ rows else row ∷ rest

-- The hits that the statement returns for the bucket that it has written.
unfoldable pub stored_hits : Bucket → List RateLimitRow → ℕ
stored_hits bucket [] = 0
stored_hits bucket (row ∷ rows) =
    let rest = stored_hits bucket rows in if same_bucket row.bucket bucket then row.hits else rest

abbrev pub window_of : RateLimitRule → ℕ → ℕ
window_of rule now = now / rule.window_ms * rule.window_ms

abbrev pub bucket_of : String → RateLimitRule → ℕ → Bucket
bucket_of subject rule now = (rule.name, subject, window_of rule now)

abbrev pub result_of : RateLimitRule → (now hits : ℕ) → RateLimitResult
result_of rule now hits = record {
  allowed = leb hits rule.limit;
  remaining = rule.limit - hits;
  retry_after_seconds = max 1 ((window_of rule now + rule.window_ms - now + 999) / 1000);
}

unfoldable pub consume : String → RateLimitRule → ℕ → Exec RateLimitResult
consume subject rule now = do
  write (λ db. record db {
    rate_limits =
        count_hit (bucket_of subject rule now) (window_of rule now)
          (window_of rule now + rule.window_ms) db.rate_limits;
  })
  hits ← select (λ db. stored_hits (bucket_of subject rule now) db.rate_limits)
  pure (result_of rule now hits)

unfoldable pub enforce : String → RateLimitRule → String → ℕ → Exec RateLimitResult
enforce subject rule message now = do
  result ← consume subject rule now
  throw_if (not result.allowed) (too_many_requests message result.retry_after_seconds)
  pure result

same_bucket_iff : (a b : Bucket) → (same_bucket a b ≡ true) ↔ (a ≡ b)
unfolding same_bucket
same_bucket_iff (name, subject, start) (name', subject', start') =
    ground (arith, eq_iff name name', eq_iff subject subject')

abbrev hit_of : Bool → ℕ
hit_of true = 1
hit_of false = 0

stored_hits-count_hit :
    (mine other : Bucket) (window_start expires_at : ℕ) (rows : List RateLimitRow)
    → stored_hits other (count_hit mine window_start expires_at rows)
      ≡ stored_hits other rows + hit_of (same_bucket mine other)
unfolding stored_hits count_hit
stored_hits-count_hit mine other window_start expires_at [] = ground arith
stored_hits-count_hit mine other window_start expires_at (row ∷ rows) = ground (
  arith,
  stored_hits-count_hit mine other window_start expires_at rows,
  same_bucket_iff row.bucket mine,
  same_bucket_iff row.bucket other,
  same_bucket_iff mine other,
)

abbrev pub granted : {A : Type 0} → Result A → Bool
granted (ok a) = true
granted (err e) = false

guarded-quiet :
    {A : Type 0} (b : Bool) (e : HttpError) (a : A) (db : Db) → ((throw_if b e >> pure a) db).1 ≡ db
unfolding exec
guarded-quiet true e a db = refl
guarded-quiet false e a db = refl

guarded-granted :
    {A : Type 0} (b : Bool) (e : HttpError) (a : A) (db : Db)
    → granted ((throw_if (not b) e >> pure a) db).0 ≡ b
unfolding exec
guarded-granted true e a db = refl
guarded-granted false e a db = refl

same_bucket_refl : (bucket : Bucket) → same_bucket bucket bucket ≡ true
same_bucket_refl bucket = (same_bucket_iff bucket bucket).1 refl

-- A sequence of requests under one rule, each by a subject and at a time.
abbrev pub Requests : Type 0
Requests = List (String × ℕ)

abbrev in_window :
    RateLimitRule → (subject : String) → (start : ℕ) → (who : String) → (now : ℕ) → Bool
in_window rule subject start who now =
    same_bucket (bucket_of who rule now) (rule.name, subject, start)

module _ (rule : RateLimitRule) (message subject : String) (start : ℕ) where
  -- How many requests of the subject fall in the window, and how many of these are let through.
  abbrev pub asked : Requests → ℕ
  asked [] = 0
  asked ((who, now) ∷ requests) = hit_of (in_window rule subject start who now) + asked requests

  abbrev pub admitted : Requests → Db → ℕ
  admitted [] db = 0
  admitted ((who, now) ∷ requests) db =
      let (answer, db') = enforce who rule message now db in
      hit_of (granted answer && in_window rule subject start who now) + admitted requests db'

  abbrev pub hits_before : Db → ℕ
  hits_before db = stored_hits (rule.name, subject, start) db.rate_limits

  enforce-hits :
      (who : String) (now : ℕ) (db : Db)
      → hits_before (enforce who rule message now db).1
        ≡ hits_before db + hit_of (in_window rule subject start who now)
  unfolding enforce consume exec
  enforce-hits who now db =
      ap hits_before (guarded-quiet _ _ _ _)
      ∙ stored_hits-count_hit (bucket_of who rule now) (rule.name, subject, start) _ _
          db.rate_limits

  enforce-granted :
      (who : String) (now : ℕ) (db : Db)
      → granted (enforce who rule message now db).0
        ≡ leb (suc (stored_hits (bucket_of who rule now) db.rate_limits)) rule.limit
  unfolding enforce consume exec
  enforce-granted who now db =
      guarded-granted (leb _ rule.limit) _ _ _
      ∙ ap (λ hits. leb hits rule.limit)
          (stored_hits-count_hit (bucket_of who rule now) (bucket_of who rule now) _ _
              db.rate_limits
            ∙ one_more)
    where
      one_more :
          stored_hits (bucket_of who rule now) db.rate_limits
            + hit_of (same_bucket (bucket_of who rule now) (bucket_of who rule now))
          ≡ suc (stored_hits (bucket_of who rule now) db.rate_limits)
      one_more = ground (arith, same_bucket_refl (bucket_of who rule now))

  -- Whatever requests come in whatever order, also of others and in other windows: of those that a
  -- subject sends within one window, the limiter lets through as many as the limit leaves, and
  -- refuses the rest.
  pub admitted_lem :
      (requests : Requests) (db : Db)
      → min (hits_before db) rule.limit + admitted requests db
        ≡ min (hits_before db + asked requests) rule.limit
  admitted_lem [] db = omega arith
  admitted_lem ((who, now) ∷ requests) db = ground (
    arith,
    admitted_lem requests (enforce who rule message now db).1,
    enforce-hits who now db,
    enforce-granted who now db,
    same_bucket_iff (bucket_of who rule now) (rule.name, subject, start),
  )
