-- ===== src/Totp.antt =====
-- app/worker/lib/totp.ts: the codes of authenticator apps. The authentication code of a counter's
-- eight bytes under the decoded secret is WebCrypto's, a list of bytes. A counter is at least 1,
-- which it is from thirty seconds behind the epoch on.
mod Tests
use ctf_website.Base.Texts.{is_digit, codes, remove, is_space}
use ctf_website.Base.{
  ℕ, suc, zero, ◌+◌, ◌-◌, ◌*◌, ◌/◌, ◌%◌, ◌≤◌, ◌<◌, min, max, ◌≡◌, ◌≢◌, ◌↔◌, ◌⊎◌, inl, inr, refl,
  sym, ap, subst, String, Bool, true, false, not, ◌&&◌, ◌||◌, Option, none, some, List, [], ◌∷◌,
  ◌++◌, map, arith, eq_iff, eq_refl, ltb, leb, ◌==◌, if◌then◌else◌, Bool-cases, Option-cases,
  coalesce, or_else, is_some, str_eq, length, All, find_first, update_where, delete_where,
  filter_where, count_where, ◌^◌, OnSome, if_cases, OnSome-some,
}
use ctf_website.Http.{
  Exec, Result, ok, err, pure, throw, throw_if, require, select, write, lift, ◌>>=◌, ◌>>◌,
}

abbrev pub totp_step_seconds : ℕ
totp_step_seconds = 30

-- HMAC with SHA-1 of a counter under a secret in base 32.
abbrev pub Mac : Type 0
Mac = String → ℕ → List ℕ

unfoldable pub counter_at : ℕ → ℕ
counter_at at_ms = at_ms / 1000 / totp_step_seconds

abbrev pub nth : List ℕ → ℕ → ℕ
nth [] i = 0
nth (b ∷ bs) zero = b
nth (b ∷ bs) (suc i) = nth bs i

-- RFC 4226, section 5.3.
unfoldable pub truncated : List ℕ → ℕ
truncated mac =
    let offset = nth mac (length mac - 1) % 16 in
    nth mac offset % 128 * 2 ^ 24
    + nth mac (offset + 1) % 256 * 2 ^ 16
    + nth mac (offset + 2) % 256 * 2 ^ 8
    + nth mac (offset + 3) % 256

-- The decimal digits of `n` modulo a million, padded to six, as code units.
abbrev pub six_digits : ℕ → List ℕ
six_digits n =
    (48 + n / 100000 % 10)
    ∷ (48 + n / 10000 % 10)
    ∷ (48 + n / 1000 % 10)
    ∷ (48 + n / 100 % 10)
    ∷ (48 + n / 10 % 10)
    ∷ (48 + n % 10)
    ∷ []

abbrev pub is_six_digits : List ℕ → Bool
is_six_digits (a ∷ b ∷ c ∷ d ∷ e ∷ f ∷ []) =
    is_digit a && (is_digit b && (is_digit c && (is_digit d && (is_digit e && is_digit f))))
is_six_digits cs = false

-- The digits, compared over their full length.
unfoldable pub same_digits : List ℕ → List ℕ → Bool
same_digits [] [] = true
same_digits (a ∷ as') (b ∷ bs) = a == b && same_digits as' bs
same_digits (a ∷ as') [] = false
same_digits [] (b ∷ bs) = false

-- `counter` is none where the source has -1.
pub record TotpVerification : Type 0 where
  pub valid : Bool
  pub reused : Bool
  pub counter : Option ℕ

abbrev pub is_spent : Option ℕ → ℕ → Bool
is_spent none counter = false
is_spent (some last_used) counter = leb counter last_used

module _ (mac : Mac) where
  unfoldable pub hotp : String → ℕ → List ℕ
  unfolding truncated
  hotp secret counter = six_digits (truncated (mac secret counter) % 1000000)

  -- One turn of the loop over the accepted steps.
  unfoldable pub try_step : String → List ℕ → Option ℕ → ℕ → Option ℕ × Bool → Option ℕ × Bool
  try_step secret code last_used counter (found, reused) =
      if same_digits (hotp secret counter) code
      then (if is_spent last_used counter then (found, true) else (some counter, reused))
      else (found, reused)

  abbrev verdict : Option ℕ × Bool → TotpVerification
  verdict (some counter, reused) = record { valid = true; reused = false; counter = some counter }
  verdict (none, reused) = record { valid = false; reused = reused; counter = none }

  unfoldable pub verify_totp : String → String → ℕ → Option ℕ → TotpVerification
  unfolding try_step
  verify_totp secret submitted at_ms last_used =
      let code = codes (remove is_space submitted) in
      let current = counter_at at_ms in
      if not (is_six_digits code)
      then record { valid = false; reused = false; counter = none }
      else verdict (
          try_step secret code last_used (current + 1) (
            try_step secret code last_used current
              (try_step secret code last_used (current - 1) (none, false))))

  -- The code of a step that lies in the window around the time and that no accepted code has spent.
  pub record IsFresh (secret submitted : String) (at_ms : ℕ) (last_used : Option ℕ) (counter : ℕ)
      : Type 0 where
    pub digits : same_digits (hotp secret counter) (codes (remove is_space submitted)) ≡ true
    pub unspent : is_spent last_used counter ≡ false
    pub no_earlier : counter_at at_ms ≤ counter + 1
    pub no_later : counter ≤ counter_at at_ms + 1

  try_step_sound :
      (secret submitted : String) (at_ms : ℕ) (last_used : Option ℕ) (counter : ℕ)
      (state : Option ℕ × Bool)
      → counter_at at_ms ≤ counter + 1
      → counter ≤ counter_at at_ms + 1
      → OnSome (IsFresh secret submitted at_ms last_used) state.0
      → OnSome
          (IsFresh secret submitted at_ms last_used)
          (try_step secret (codes (remove is_space submitted)) last_used counter state).0
  unfolding try_step
  try_step_sound secret submitted at_ms last_used counter (found, reused) early late h =
      let Q = λ (s : Option ℕ × Bool). OnSome (IsFresh secret submitted at_ms last_used) s.0 in
      if_cases Q (same_digits (hotp secret counter) (codes (remove is_space submitted)))
        (λ same.
          if_cases Q (is_spent last_used counter) {one = (found, true)}
            {other = (some counter, reused)} (λ spent. h)
            (λ fresh. record {
              digits = same;
              unspent = fresh;
              no_earlier = early;
              no_later = late;
            }))
        (λ other. h)

  try_step_complete :
      (secret : String) (code : List ℕ) (last_used : Option ℕ) (counter tried : ℕ)
      (state : Option ℕ × Bool)
      → (is_some state.0 ≡ true)
        ⊎ ((tried ≡ counter)
            × (same_digits (hotp secret counter) code ≡ true)
            × (is_spent last_used counter ≡ false))
      → is_some (try_step secret code last_used tried state).0 ≡ true
  unfolding try_step
  try_step_complete secret code last_used counter tried (found, reused) h = ground arith

  verdict-counter :
      (state : Option ℕ × Bool) (counter : ℕ)
      → (verdict state).counter ≡ some counter
      → state.0 ≡ some counter
  verdict-counter (none, reused) counter h = h
  verdict-counter (some found, reused) counter h = h

  verdict-valid : (state : Option ℕ × Bool) → is_some state.0 ≡ true → (verdict state).valid ≡ true
  verdict-valid (none, reused) h = cc
  verdict-valid (some found, reused) h = refl

  -- A code that is accepted is the code of a step at most one away from the time, and of a later
  -- step than any that the account has used.
  pub verify_totp-IsFresh :
      (secret submitted : String) (at_ms : ℕ) (last_used : Option ℕ) (counter : ℕ)
      → 1 ≤ counter_at at_ms
      → (verify_totp secret submitted at_ms last_used).counter ≡ some counter
      → IsFresh secret submitted at_ms last_used counter
  unfolding verify_totp
  verify_totp-IsFresh secret submitted at_ms last_used counter late h =
      elim (Bool-cases (is_six_digits (codes (remove is_space submitted)))) [
        | inr other ↦ absurd (refused (rw other at h))
        | inl six ↦
            OnSome-some (IsFresh secret submitted at_ms last_used) _ counter found
              (verdict-counter _ counter (rw six at h))
      ]
    where
      refused : none ≡ some counter → ⊥
      refused e = cc

      found :
          OnSome
            (IsFresh secret submitted at_ms last_used)
            (try_step secret (codes (remove is_space submitted)) last_used (counter_at at_ms + 1) (
              try_step secret (codes (remove is_space submitted)) last_used (counter_at at_ms) (
                try_step secret
                  (codes (remove is_space submitted))
                  last_used
                  (counter_at at_ms - 1)
                  (none, false)))).0
      found = try_step_sound secret submitted at_ms last_used _ _ (omega arith) (omega arith) (
          try_step_sound secret submitted at_ms last_used _ _ (omega arith) (omega arith)
            (try_step_sound secret submitted at_ms last_used _ _ (omega arith) (omega arith) tt))

  -- Six digits that are the code of a step of the window, one later than the last that was used,
  -- are accepted.
  pub verify_totp_accepts :
      (secret submitted : String) (at_ms : ℕ) (last_used : Option ℕ) (counter : ℕ)
      → is_six_digits (codes (remove is_space submitted)) ≡ true
      → IsFresh secret submitted at_ms last_used counter
      → (verify_totp secret submitted at_ms last_used).valid ≡ true
  unfolding verify_totp
  verify_totp_accepts secret submitted at_ms last_used counter six fresh = rw six (
      verdict-valid _ (elim (window (counter_at at_ms) fresh.no_earlier fresh.no_later) [
        | inl last ↦ hit _ _ last
        | inr (inl middle) ↦ keep _ _ (hit _ _ middle)
        | inr (inr first) ↦ keep _ _ (keep _ _ (hit _ _ first))
      ]))
    where
      window :
          (current : ℕ)
          → current ≤ counter + 1
          → counter ≤ current + 1
          → (current + 1 ≡ counter) ⊎ ((current ≡ counter) ⊎ (current - 1 ≡ counter))
      window current early late = ground arith

      keep :
          (tried : ℕ) (state : Option ℕ × Bool)
          → is_some state.0 ≡ true
          → is_some (try_step secret (codes (remove is_space submitted)) last_used tried state).0
            ≡ true
      keep tried state h = try_step_complete secret _ last_used counter tried state (inl h)

      hit :
          (tried : ℕ) (state : Option ℕ × Bool)
          → tried ≡ counter
          → is_some (try_step secret (codes (remove is_space submitted)) last_used tried state).0
            ≡ true
      hit tried state e =
          try_step_complete secret _ last_used counter tried state
            (inr (e, fresh.digits, fresh.unspent))
