-- ===== src/Google.antt =====
-- app/worker/lib/google.ts: the identity that Google vouches for. Google's token endpoint and the
-- decoding of a token's middle segment (base64, UTF-8, JSON.parse) are parameters.
pub mod Genuine
use ctf_website.Base.{
  ℕ, ◌+◌, ◌*◌, String, Bool, true, false, not, ◌&&◌, ◌||◌, Option, none, some, List, [], ◌∷◌,
  str_eq, ltb, if◌then◌else◌, or_else, is_some,
}
use ctf_website.Base.Texts.{trim, to_lower, split_on, is_empty, present, join_text}
use ctf_website.Vapi.Json.{Json, Fields, Items, get, as_record, text, number, bool, array, items}

pub data GoogleFailureReason : Type 0 where
  token_exchange token_malformed issuer audience nonce expired missing_email : GoogleFailureReason

-- A `GoogleAuthError`, or any other error.
pub data Failure : Type 0 where
  google_auth_error : GoogleFailureReason → Failure
  unexpected : Failure

pub data Outcome (A : Type 0) : Type 0 where
  success : A → Outcome A
  failure : Failure → Outcome A

pub record GoogleIdentity : Type 0 where
  pub sub : String
  pub email : String
  pub email_verified : Bool
  pub name : Option String

-- What the exchange of a code brings: an error status, no answer in time, another network error,
-- or a body with or without an identity token.
pub data TokenAnswer : Type 0 where
  rejected : TokenAnswer
  aborted : TokenAnswer
  broken : TokenAnswer
  granted : Option String → TokenAnswer

pub record GoogleHost : Type 0 where
  pub client_id : String
  pub client_secret : String
  pub token_endpoint : (code redirect_uri : String) → TokenAnswer
  pub decode_segment : String → Option Json

unfoldable pub google_configured : GoogleHost → Bool
google_configured host =
    not (is_empty (trim host.client_id)) && not (is_empty (trim host.client_secret))

abbrev pub fail : {A : Type 0} → GoogleFailureReason → Outcome A
fail reason = failure (google_auth_error reason)

-- `typeof value === 'string' ? value : ''`
abbrev pub text_of : Json → String
text_of (text s) = s
text_of _ = ""

abbrev pub is_valid_issuer : String → Bool
is_valid_issuer iss = str_eq iss "accounts.google.com" || str_eq iss "https://accounts.google.com"

abbrev pub is_text : String → Json → Bool
is_text expected (text s) = str_eq s expected
is_text expected _ = false

abbrev pub has_text : String → List Json → Bool
has_text expected [] = false
has_text expected (v ∷ vs) = is_text expected v || has_text expected vs

abbrev pub is_audience : String → Json → Bool
is_audience expected (array xs) = has_text expected (items xs)
is_audience expected value = is_text expected value

abbrev pub clock_skew_ms : ℕ
clock_skew_ms = 60000

-- `typeof claims.exp === 'number' ? claims.exp * 1000 : 0`
abbrev pub expiry : Json → ℕ
expiry (number n) = n * 1000
expiry _ = 0

abbrev pub is_true : Json → Bool
is_true (bool b) = b
is_true _ = false

abbrev pub middle_segment : List String → Option String
middle_segment (head ∷ middle ∷ tail ∷ []) = some middle
middle_segment _ = none

abbrev pub identity_of : Fields → GoogleIdentity
identity_of claims = record {
  sub = text_of (get claims "sub");
  email = to_lower (trim (text_of (get claims "email")));
  email_verified = is_true (get claims "email_verified");
  name = present (some (trim (text_of (get claims "name"))));
}

unfoldable pub check_claims :
    ℕ → (expected_audience expected_nonce : String) → Fields → Outcome GoogleIdentity
check_claims now expected_audience expected_nonce claims =
    if not (is_valid_issuer (text_of (get claims "iss")))
    then fail issuer
    else if not (is_audience expected_audience (get claims "aud"))
    then fail audience
    else if not (is_text expected_nonce (get claims "nonce"))
    then fail nonce
    else if ltb (expiry (get claims "exp") + clock_skew_ms) now
    then fail expired
    else if is_empty (identity_of claims).sub || is_empty (identity_of claims).email
    then fail missing_email
    else success (identity_of claims)

-- A token whose segment reads as no object has none of the claims, and reading one of `null` throws.
abbrev pub claims_of : Json → Fields
claims_of value = or_else (as_record value) Fields.end

abbrev pub with_claims :
    ℕ → (expected_audience expected_nonce : String) → Option Json → Outcome GoogleIdentity
with_claims now expected_audience expected_nonce none = fail token_malformed
with_claims now expected_audience expected_nonce (some Json.null) = failure unexpected
with_claims now expected_audience expected_nonce (some value) =
    check_claims now expected_audience expected_nonce (claims_of value)

abbrev pub with_segment :
    GoogleHost
    → ℕ
    → (expected_audience expected_nonce : String) → Option String
    → Outcome GoogleIdentity
with_segment host now expected_audience expected_nonce none = fail token_malformed
with_segment host now expected_audience expected_nonce (some segment) =
    with_claims now expected_audience expected_nonce (host.decode_segment segment)

unfoldable pub parse_id_token :
    GoogleHost → ℕ → (id_token expected_audience expected_nonce : String) → Outcome GoogleIdentity
parse_id_token host now id_token expected_audience expected_nonce =
    with_segment host now expected_audience expected_nonce (middle_segment (split_on b'.' id_token))

abbrev pub with_token : GoogleHost → ℕ → String → Option String → Outcome GoogleIdentity
with_token host now expected_nonce none = fail token_exchange
with_token host now expected_nonce (some id_token) =
    parse_id_token host now id_token (trim host.client_id) expected_nonce

abbrev pub with_answer : GoogleHost → ℕ → String → TokenAnswer → Outcome GoogleIdentity
with_answer host now expected_nonce rejected = fail token_exchange
with_answer host now expected_nonce aborted = fail token_exchange
with_answer host now expected_nonce broken = failure unexpected
with_answer host now expected_nonce (granted id_token) =
    with_token host now expected_nonce (present id_token)

unfoldable pub exchange_code_for_identity :
    GoogleHost → ℕ → (code redirect_uri expected_nonce : String) → Outcome GoogleIdentity
exchange_code_for_identity host now code redirect_uri expected_nonce =
    with_answer host now expected_nonce (host.token_endpoint code redirect_uri)

-- The parts of the request's address that the callback is made of.
pub record RequestUrl : Type 0 where
  pub scheme : String
  pub hostname : String
  pub host : String

abbrev is_loopback : String → Bool
is_loopback hostname =
    str_eq hostname "localhost"
    || str_eq hostname "127.0.0.1"
    || str_eq hostname "[::1]"
    || str_eq hostname "::1"

unfoldable pub redirect_uri_for : RequestUrl → String
redirect_uri_for url =
    join_text (if is_loopback url.hostname then url.scheme else "https")
      (join_text "://" (join_text url.host "/api/auth/google/callback"))

-- The parameters of the address that the browser is sent to, but for the fixed ones.
pub record AuthorizeUrl : Type 0 where
  pub client_id : String
  pub redirect_uri : String
  pub state : String
  pub nonce : String

unfoldable pub build_authorize_url :
    GoogleHost → (state one_time redirect_uri : String) → AuthorizeUrl
build_authorize_url host state one_time redirect_uri = record {
  client_id = trim host.client_id;
  redirect_uri = redirect_uri;
  state = state;
  nonce = one_time;
}
