-- ===== src/Vapi/Verify.antt =====
-- `verifyWebhook` of app/worker/lib/vapi.ts. The header values are what `headers.get` returns.
pub mod Sound
use Prim.Native.Char.{code}
use ctf_website.Base.{
  String, Bool, true, false, not, ◌&&◌, ◌||◌, Option, none, some, List, [], ◌∷◌, ◌++◌,
  if◌then◌else◌,
}
use ctf_website.Base.Texts.{present, trim, is_space, drop_text, starts_with, to_lower}
use ctf_website.Http.{Result, ok, err, forbidden}
use ctf_website.Crypto.{Digests, timing_safe_equal}

pub record WebhookHeaders : Type 0 where
  pub vapi_secret : Option String
  pub authorization : Option String
  pub vapi_signature : Option String

pub record WebhookSecrets : Type 0 where
  pub webhook_secret : Option String
  pub hmac_secret : Option String

abbrev one : Option String → List String
one none = []
one (some s) = trim s ∷ []

abbrev starts_with_space : String → Bool
starts_with_space String.[] = false
starts_with_space (String.◌∷◌ c s) = is_space (code c)

-- /^Bearer\s+(.+)$/i on a trimmed text.
bearer_token : String → Option String
unfolding is_space
bearer_token s =
    if starts_with "bearer" (to_lower s) && starts_with_space (drop_text 6 s)
    then some (drop_text 6 s)
    else none

abbrev bearer : Option String → List String
bearer none = []
bearer (some s) = one (bearer_token (trim s))

unfoldable pub presented_secrets : WebhookHeaders → List String
unfolding bearer_token
presented_secrets headers =
    one (present headers.vapi_secret) ++ bearer (present headers.authorization)

abbrev is_nil : List String → Bool
is_nil [] = true
is_nil (x ∷ xs) = false

abbrev without_scheme : String → String
without_scheme s = if starts_with "sha256=" s then drop_text 7 s else s

module _ (digests : Digests) where
  some_match : String → List String → Bool
  some_match secret [] = false
  some_match secret (candidate ∷ candidates) =
      timing_safe_equal digests candidate secret || some_match secret candidates

  check_signature : String → Option String → String → Result (Unit {0})
  check_signature hmac_secret none raw_body = err (forbidden "Missing webhook signature.")
  check_signature hmac_secret (some signature) raw_body =
      if timing_safe_equal digests (without_scheme signature)
        (digests.hmac_sha256_hex hmac_secret raw_body)
      then ok tt
      else err (forbidden "Invalid webhook signature.")

  abbrev check_hmac : Option String → Option String → String → Result (Unit {0})
  check_hmac none signature raw_body = ok tt
  check_hmac (some hmac_secret) signature raw_body = check_signature hmac_secret signature raw_body

  verify_against : String → WebhookSecrets → WebhookHeaders → String → Result (Unit {0})
  unfolding some_match check_signature
  verify_against expected secrets headers raw_body =
      let candidates = presented_secrets headers in
      if is_nil candidates
      then err (forbidden "Missing webhook credential.")
      else if not (some_match expected candidates)
      then err (forbidden "Invalid webhook secret.")
      else check_hmac (present secrets.hmac_secret) (present headers.vapi_signature) raw_body

  with_secret : Option String → WebhookSecrets → WebhookHeaders → String → Result (Unit {0})
  unfolding verify_against
  with_secret none secrets headers raw_body = err (forbidden "Webhook secret is not configured.")
  with_secret (some expected) secrets headers raw_body =
      verify_against expected secrets headers raw_body

  unfoldable pub verify_webhook : WebhookSecrets → WebhookHeaders → String → Result (Unit {0})
  unfolding with_secret
  verify_webhook secrets headers raw_body =
      with_secret (present secrets.webhook_secret) secrets headers raw_body
