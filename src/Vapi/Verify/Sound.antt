-- ===== src/Vapi/Verify/Sound.antt =====
-- What a verified delivery has shown (app/worker/lib/vapi.ts, `verifyWebhook`).
use ctf_website.Base.Texts.{present}
use ctf_website.Http.Returns.{OnOk, OnOk-ok}
use ctf_website.Vapi.Verify.{
  verify_webhook, WebhookSecrets, check_signature, with_secret, some_match, WebhookHeaders,
  verify_against, without_scheme, presented_secrets, check_hmac, is_nil,
}
use ctf_website.Crypto.{Digests, timing_safe_equal}
use ctf_website.Base.{
  ◌≡◌, ◌⊎◌, inl, inr, refl, subst, String, true, Option, none, some, List, [], ◌∷◌, arith,
  Bool-cases, if_cases,
}
use ctf_website.Http.{Result, ok, err}

abbrev pub IsShown : (candidate : String) → List String → Type 0
IsShown candidate [] = ⊥
IsShown candidate (first ∷ rest) = (first ≡ candidate) ⊎ IsShown candidate rest

-- The secret is configured, one of the presented secrets is equal to it, and where a signing key is
-- configured too, the body is signed with it.
pub record IsVerified (digests : Digests) (secrets : WebhookSecrets) (headers : WebhookHeaders)
    (raw_body : String) : Type 0 where
  pub secret : String
  pub configured : present secrets.webhook_secret ≡ some secret
  pub candidate : String
  pub shown : IsShown candidate (presented_secrets headers)
  pub equal : timing_safe_equal digests candidate secret ≡ true
  pub signed :
      (key : String)
      → present secrets.hmac_secret ≡ some key
      → (signature : String) × (present headers.vapi_signature ≡ some signature)
        × (timing_safe_equal digests
              (without_scheme signature)
              (digests.hmac_sha256_hex key raw_body)
            ≡ true)

module _ (digests : Digests) where
  some_match-IsShown :
      (secret : String) (candidates : List String)
      → some_match digests secret candidates ≡ true
      → (candidate : String) × IsShown candidate candidates
        × (timing_safe_equal digests candidate secret ≡ true)
  unfolding some_match
  some_match-IsShown secret [] h = absurd (ground arith)
  some_match-IsShown secret (first ∷ rest) h =
      elim (Bool-cases (timing_safe_equal digests first secret)) [
        | inl same ↦ (first, inl refl, same)
        | inr other ↦
            let (candidate, shown, equal) = some_match-IsShown secret rest (rw other at h) in
            (candidate, inr shown, equal)
      ]

  abbrev IsSigned : Option String → Option String → String → Type 0
  IsSigned none signature raw_body = Unit
  IsSigned (some key) signature raw_body =
      (s : String) × (signature ≡ some s)
      × (timing_safe_equal digests (without_scheme s) (digests.hmac_sha256_hex key raw_body) ≡ true)

  check_hmac-IsSigned :
      (key signature : Option String) (raw_body : String)
      → OnOk (λ _. IsSigned key signature raw_body) (check_hmac digests key signature raw_body)
  unfolding check_signature
  check_hmac-IsSigned none signature raw_body = tt
  check_hmac-IsSigned (some key) none raw_body = tt
  check_hmac-IsSigned (some key) (some s) raw_body =
      if_cases (OnOk (λ _. IsSigned (some key) (some s) raw_body))
        (timing_safe_equal digests (without_scheme s) (digests.hmac_sha256_hex key raw_body))
        (λ same. (s, refl, same)) (λ other. tt)

  key_in_use :
      (stored : Option String) (signature : Option String) (raw_body key : String)
      → IsSigned stored signature raw_body
      → stored ≡ some key
      → IsSigned (some key) signature raw_body
  key_in_use stored signature raw_body key h e = subst (λ k. IsSigned k signature raw_body) e h

  finished_check :
      (secrets : WebhookSecrets) (headers : WebhookHeaders) (raw_body secret : String)
      (answer : Result (Unit {0}))
      → present secrets.webhook_secret ≡ some secret
      → some_match digests secret (presented_secrets headers) ≡ true
      → OnOk
          (λ _. IsSigned (present secrets.hmac_secret) (present headers.vapi_signature) raw_body)
          answer
      → OnOk (λ _. IsVerified digests secrets headers raw_body) answer
  finished_check secrets headers raw_body secret (err e) configured match_so h = tt
  finished_check secrets headers raw_body secret (ok done) configured match_so h =
      let (candidate, shown, equal) =
        some_match-IsShown secret (presented_secrets headers) match_so in
      record {
        secret = secret;
        configured = configured;
        candidate = candidate;
        shown = shown;
        equal = equal;
        signed = λ key e.
            key_in_use (present secrets.hmac_secret) (present headers.vapi_signature) raw_body key h
              e;
      }

  verify_against-IsVerified :
      (secrets : WebhookSecrets) (headers : WebhookHeaders) (raw_body secret : String)
      → present secrets.webhook_secret ≡ some secret
      → OnOk
          (λ _. IsVerified digests secrets headers raw_body)
          (verify_against digests secret secrets headers raw_body)
  unfolding verify_against
  verify_against-IsVerified secrets headers raw_body secret configured =
      let Q = OnOk (λ (_ : Unit {0}). IsVerified digests secrets headers raw_body) in
      if_cases Q (is_nil (presented_secrets headers)) (λ none_shown. tt)
        (λ some_shown. elim (Bool-cases (some_match digests secret (presented_secrets headers))) [
          | inr other ↦ rw other tt
          | inl same ↦ rw same (
              finished_check secrets headers raw_body secret _ configured same (
                check_hmac-IsSigned (present secrets.hmac_secret) (present headers.vapi_signature)
                  raw_body))
        ])

  with_secret-IsVerified :
      (secrets : WebhookSecrets) (headers : WebhookHeaders) (raw_body : String)
      (stored : Option String)
      → present secrets.webhook_secret ≡ stored
      → OnOk
          (λ _. IsVerified digests secrets headers raw_body)
          (with_secret digests stored secrets headers raw_body)
  unfolding with_secret
  with_secret-IsVerified secrets headers raw_body none e = tt
  with_secret-IsVerified secrets headers raw_body (some secret) e =
      verify_against-IsVerified secrets headers raw_body secret e

  -- A delivery is let in only with the configured secret, and with the body's signature where a
  -- signing key is configured: never because a secret is missing.
  pub verify_webhook-IsVerified :
      (secrets : WebhookSecrets) (headers : WebhookHeaders) (raw_body : String)
      → verify_webhook digests secrets headers raw_body ≡ ok tt
      → IsVerified digests secrets headers raw_body
  unfolding verify_webhook
  verify_webhook-IsVerified secrets headers raw_body h =
      OnOk-ok (λ _. IsVerified digests secrets headers raw_body) _ tt
        (with_secret-IsVerified secrets headers raw_body (present secrets.webhook_secret) refl) h
