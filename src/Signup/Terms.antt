-- ===== src/Signup/Terms.antt =====
-- Consent to the legal documents: `recordConsent`, `hasCurrentConsent` and `handleAcceptTerms` of
-- app/worker/routes/signup.ts.
use ctf_website.Base.{
  ℕ, ◌+◌, String, Bool, true, false, ◌&&◌, Option, none, some, List, [], ◌∷◌, ◌++◌, str_eq, ◌==◌,
  if◌then◌else◌, is_some, find_first,
}
use ctf_website.Base.Texts.{take_text}
use ctf_website.Schema.{Db, TermsRow, LegalDocument, terms, privacy, operator}
use ctf_website.Http.{Exec, write}
use ctf_website.Auth.{AuthContext}

unfoldable pub current_version : LegalDocument → String
current_version terms = "2026-09-24"
current_version privacy = "2026-09-24"
current_version operator = "2026-08-11"

abbrev short_agent : Option String → Option String
short_agent none = none
short_agent (some agent) = some (take_text 256 agent)

unfoldable pub acceptance :
    (now : ℕ) → (ip : String) → Option String → (user_id org_id : String) → LegalDocument → TermsRow
acceptance now ip agent user_id org_id document = record {
  user_id = user_id;
  org_id = org_id;
  document = document;
  version = current_version document;
  accepted_at = now;
  ip = ip;
  user_agent = short_agent agent;
}

-- One row for each document.
unfoldable pub record_consent :
    (now : ℕ) → (ip : String) → Option String → (user_id org_id : String) → Exec (Unit {0})
record_consent now ip agent user_id org_id = write (λ db. record db {
  terms_acceptances =
      db.terms_acceptances
      ++ acceptance now ip agent user_id org_id terms
        ∷ acceptance now ip agent user_id org_id privacy
        ∷ acceptance now ip agent user_id org_id operator
        ∷ [];
})

abbrev pub same_document : LegalDocument → LegalDocument → Bool
same_document terms terms = true
same_document privacy privacy = true
same_document operator operator = true
same_document _ _ = false

abbrev pub accepts : String → LegalDocument → TermsRow → Bool
accepts user_id document row =
    str_eq row.user_id user_id
    && same_document row.document document
    && str_eq row.version (current_version document)

abbrev pub accepted_of : String → List TermsRow → LegalDocument → ℕ
accepted_of user_id rows document =
    if is_some (find_first (accepts user_id document) rows) then 1 else 0

-- COUNT(DISTINCT document) over the rows of the current versions.
unfoldable pub count_accepted : String → List TermsRow → ℕ
count_accepted user_id rows =
    accepted_of user_id rows terms
    + accepted_of user_id rows privacy
    + accepted_of user_id rows operator

unfoldable pub has_current_consent : String → Db → Bool
has_current_consent user_id db = count_accepted user_id db.terms_acceptances == 3

unfoldable pub handle_accept_terms :
    AuthContext → (now : ℕ) → (ip : String) → Option String → Exec (Unit {0})
handle_accept_terms auth now ip agent = record_consent now ip agent auth.user.id auth.org.id
