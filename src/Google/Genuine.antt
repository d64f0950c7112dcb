-- ===== src/Google/Genuine.antt =====
-- What an accepted identity token says (app/worker/lib/google.ts).
use ctf_website.Base.{
  none, ltb, if◌then◌else◌, not, subst, ◌||◌, ℕ, ◌≡◌, ◌≤◌, ◌+◌, String, true, false, arith, some,
  refl, Option, Bool,
}
use ctf_website.Base.Texts.{trim, is_empty, split_on, present}
use ctf_website.Vapi.Json.{bool, number, text, array, object, Json, Fields, get}
use ctf_website.Google.{
  rejected, aborted, broken, granted, GoogleFailureReason, google_auth_error, expired,
  missing_email, GoogleHost, GoogleIdentity, success, failure, check_claims, granted,
  is_valid_issuer, text_of, is_audience, is_text, expiry, clock_skew_ms, identity_of,
  middle_segment, claims_of, parse_id_token, with_claims, TokenAnswer, exchange_code_for_identity,
  with_token, with_segment, with_answer,
}

-- The claims are Google's, for this application and this sign-in, not expired, and name the identity.
pub record SaysClaims (now : ℕ) (expected_audience expected_nonce : String) (claims : Fields)
    (identity : GoogleIdentity) : Type 0 where
  pub issuer : is_valid_issuer (text_of (get claims "iss")) ≡ true
  pub audience : is_audience expected_audience (get claims "aud") ≡ true
  pub nonce : is_text expected_nonce (get claims "nonce") ≡ true
  pub fresh : now ≤ expiry (get claims "exp") + clock_skew_ms
  pub has_sub : is_empty identity.sub ≡ false
  pub has_email : is_empty identity.email ≡ false
  pub same : identity_of claims ≡ identity

-- The middle segment of a token decodes to such claims.
pub record Reads (host : GoogleHost) (now : ℕ) (token expected_audience expected_nonce : String)
    (identity : GoogleIdentity) : Type 0 where
  pub segment : String
  pub middle : middle_segment (split_on b'.' token) ≡ some segment
  pub value : Json
  pub decoded : host.decode_segment segment ≡ some value
  pub says : SaysClaims now expected_audience expected_nonce (claims_of value) identity

-- Google's token endpoint handed out such a token.
pub record IsGenuine (host : GoogleHost) (now : ℕ) (code redirect_uri expected_nonce : String)
    (identity : GoogleIdentity) : Type 0 where
  pub token : String
  pub handed_out : host.token_endpoint code redirect_uri ≡ granted (some token)
  pub reads : Reads host now token (trim host.client_id) expected_nonce identity

ltb-le : (a b : ℕ) → ltb a b ≡ false → b ≤ a
ltb-le a b h = ground arith

-- The tests of `check_claims`, in its order.
passed :
    (iss aud own old unnamed : Bool) (found identity : GoogleIdentity)
    → (if not iss
        then failure (google_auth_error GoogleFailureReason.issuer)
        else if not aud
        then failure (google_auth_error GoogleFailureReason.audience)
        else if not own
        then failure (google_auth_error GoogleFailureReason.nonce)
        else if old
        then failure (google_auth_error expired)
        else if unnamed
        then failure (google_auth_error missing_email)
        else success found)
      ≡ success identity
    → (iss ≡ true)
      × (aud ≡ true)
      × (own ≡ true)
      × (old ≡ false)
      × (unnamed ≡ false)
      × (found ≡ identity)
passed iss aud own old unnamed found identity h =
    (ground arith, ground arith, ground arith, ground arith, ground arith, ground arith)

or_false : (a b : Bool) → (a || b) ≡ false → (a ≡ false) × (b ≡ false)
or_false a b h = (ground arith, ground arith)

module _ (now : ℕ) (expected_audience expected_nonce : String) where
  check_claims-SaysClaims :
      (claims : Fields) (identity : GoogleIdentity)
      → check_claims now expected_audience expected_nonce claims ≡ success identity
      → SaysClaims now expected_audience expected_nonce claims identity
  unfolding check_claims
  check_claims-SaysClaims claims identity h =
      let facts = passed _ _ _ _ _ _ identity h in
      let named = or_false _ _ facts.4 in
      record {
        issuer = facts.0;
        audience = facts.1;
        nonce = facts.2;
        fresh = ltb-le _ _ facts.3;
        has_sub = subst (λ (i : GoogleIdentity). is_empty i.sub ≡ false) facts.5 named.0;
        has_email = subst (λ (i : GoogleIdentity). is_empty i.email ≡ false) facts.5 named.1;
        same = facts.5;
      }

  with_claims-SaysClaims :
      (value : Json) (identity : GoogleIdentity)
      → with_claims now expected_audience expected_nonce (some value) ≡ success identity
      → SaysClaims now expected_audience expected_nonce (claims_of value) identity
  with_claims-SaysClaims Json.null identity h = absurd (ground arith)
  with_claims-SaysClaims (bool b) identity h = check_claims-SaysClaims _ identity h
  with_claims-SaysClaims (number n) identity h = check_claims-SaysClaims _ identity h
  with_claims-SaysClaims (text s) identity h = check_claims-SaysClaims _ identity h
  with_claims-SaysClaims (array xs) identity h = check_claims-SaysClaims _ identity h
  with_claims-SaysClaims (object fs) identity h = check_claims-SaysClaims _ identity h

module _ (host : GoogleHost) (now : ℕ) (expected_nonce : String) (identity : GoogleIdentity) where
  module _ (token expected_audience segment : String)
      (middle : middle_segment (split_on b'.' token) ≡ some segment) where
    decoded-Reads :
        (value : Option Json)
        → host.decode_segment segment ≡ value
        → with_claims now expected_audience expected_nonce value ≡ success identity
        → Reads host now token expected_audience expected_nonce identity
    decoded-Reads none e h = absurd (ground arith)
    decoded-Reads (some value) e h = record {
      segment = segment;
      middle = middle;
      value = value;
      decoded = e;
      says = with_claims-SaysClaims now expected_audience expected_nonce value identity h;
    }

  segment-Reads :
      (token expected_audience : String) (segment : Option String)
      → middle_segment (split_on b'.' token) ≡ segment
      → with_segment host now expected_audience expected_nonce segment ≡ success identity
      → Reads host now token expected_audience expected_nonce identity
  segment-Reads token expected_audience none e h = absurd (ground arith)
  segment-Reads token expected_audience (some segment) e h =
      decoded-Reads token expected_audience segment e (host.decode_segment segment) refl h

  module _ (code redirect_uri : String) where
    token-IsGenuine :
        (id_token : Option String)
        → host.token_endpoint code redirect_uri ≡ granted id_token
        → with_token host now expected_nonce (present id_token) ≡ success identity
        → IsGenuine host now code redirect_uri expected_nonce identity
    unfolding parse_id_token
    token-IsGenuine none e h = absurd (ground arith)
    token-IsGenuine (some String.[]) e h = absurd (ground arith)
    token-IsGenuine (some (String.◌∷◌ c s)) e h = record {
      token = String.◌∷◌ c s;
      handed_out = e;
      reads = segment-Reads (String.◌∷◌ c s) (trim host.client_id) _ refl h;
    }

    answer-IsGenuine :
        (answer : TokenAnswer)
        → host.token_endpoint code redirect_uri ≡ answer
        → with_answer host now expected_nonce answer ≡ success identity
        → IsGenuine host now code redirect_uri expected_nonce identity
    answer-IsGenuine rejected e h = absurd (ground arith)
    answer-IsGenuine aborted e h = absurd (ground arith)
    answer-IsGenuine broken e h = absurd (ground arith)
    answer-IsGenuine (granted id_token) e h = token-IsGenuine id_token e h

-- An identity is accepted only from a token that Google's endpoint handed out for the code, whose
-- claims name Google as the issuer, this application as the audience and the nonce of this sign-in,
-- are not expired by more than a minute, and hold the identity, with a subject and an address.
pub exchange_code_for_identity-IsGenuine :
    (host : GoogleHost) (now : ℕ) (code redirect_uri expected_nonce : String)
    (identity : GoogleIdentity)
    → exchange_code_for_identity host now code redirect_uri expected_nonce ≡ success identity
    → IsGenuine host now code redirect_uri expected_nonce identity
unfolding exchange_code_for_identity
exchange_code_for_identity-IsGenuine host now code redirect_uri expected_nonce identity h =
    answer-IsGenuine host now expected_nonce identity code redirect_uri
      (host.token_endpoint code redirect_uri) refl h
