-- ===== src/Signup/Consent.antt =====
-- Consent that is recorded is found (app/worker/routes/signup.ts).
use ctf_website.Base.{
  ℕ, ◌≡◌, ◌≢◌, refl, String, Bool, true, false, Option, List, [], ◌∷◌, ◌++◌, find_first, is_some,
  arith, eq_refl, eq_iff, if◌then◌else◌, ap,
}
use ctf_website.Schema.{Db, TermsRow, LegalDocument, terms, privacy, operator}
use ctf_website.Http.{exec}
use ctf_website.Auth.{AuthContext}
use ctf_website.Signup.Terms.{
  accepts, accepted_of, acceptance, has_current_consent, handle_accept_terms, record_consent,
  count_accepted, same_document,
}

find_first-append_some :
    (test : TermsRow → Bool) (rows later : List TermsRow)
    → is_some (find_first test later) ≡ true
    → is_some (find_first test (rows ++ later)) ≡ true
unfolding find_first
find_first-append_some test [] later h = h
find_first-append_some test (x ∷ rows) later h =
    ground (arith, find_first-append_some test rows later h)

find_first_here :
    (test : TermsRow → Bool) (row : TermsRow) (later : List TermsRow)
    → test row ≡ true
    → is_some (find_first test (row ∷ later)) ≡ true
unfolding find_first
find_first_here test row later h = rw h refl

find_first-append_none :
    (test : TermsRow → Bool) (rows later : List TermsRow)
    → is_some (find_first test later) ≡ false
    → is_some (find_first test (rows ++ later)) ≡ is_some (find_first test rows)
unfolding find_first
find_first-append_none test [] later h = h
find_first-append_none test (x ∷ rows) later h =
    ground (arith, find_first-append_none test rows later h)

same_document_refl : (document : LegalDocument) → same_document document document ≡ true
same_document_refl terms = refl
same_document_refl privacy = refl
same_document_refl operator = refl

module _ (auth : AuthContext) (now : ℕ) (ip : String) (agent : Option String) where
  abbrev row_for : LegalDocument → TermsRow
  row_for document = acceptance now ip agent auth.user.id auth.org.id document

  accepts-row_for :
      (document : LegalDocument) → accepts auth.user.id document (row_for document) ≡ true
  unfolding acceptance
  accepts-row_for document = simp (eq_refl, same_document_refl)

  accepts-row_for_other :
      (other : String) (document wanted : LegalDocument)
      → other ≢ auth.user.id
      → accepts other wanted (row_for document) ≡ false
  unfolding acceptance
  accepts-row_for_other other document wanted h = ground (arith, eq_iff auth.user.id other)

  abbrev added : List TermsRow
  added = row_for terms ∷ row_for privacy ∷ row_for operator ∷ []

  found :
      (document : LegalDocument) → is_some (find_first (accepts auth.user.id document) added) ≡ true
  found terms = find_first_here _ _ _ (accepts-row_for terms)
  found privacy =
      find_first-append_some _ (row_for terms ∷ []) _
        (find_first_here _ _ _ (accepts-row_for privacy))
  found operator =
      find_first-append_some _ (row_for terms ∷ row_for privacy ∷ []) _
        (find_first_here _ _ _ (accepts-row_for operator))

  module _ (other : String) (different : other ≢ auth.user.id) (wanted : LegalDocument) where
    not_found : is_some (find_first (accepts other wanted) added) ≡ false
    unfolding find_first
    not_found = rw (
      accepts-row_for_other other terms wanted different,
      accepts-row_for_other other privacy wanted different,
      accepts-row_for_other other operator wanted different,
    )

    same_count :
        (rows : List TermsRow)
        → accepted_of other (rows ++ added) wanted ≡ accepted_of other rows wanted
    same_count rows =
        ap (λ (b : Bool). if b then 1 else 0) (find_first-append_none _ rows added not_found)

  full_count :
      (rows : List TermsRow) (document : LegalDocument)
      → accepted_of auth.user.id (rows ++ added) document ≡ 1
  full_count rows document =
      ap (λ (b : Bool). if b then 1 else 0) (find_first-append_some _ rows added (found document))

  full : (rows : List TermsRow) → count_accepted auth.user.id (rows ++ added) ≡ 3
  unfolding count_accepted
  full rows =
      omega (arith, full_count rows terms, full_count rows privacy, full_count rows operator)

  others_same :
      (other : String) (rows : List TermsRow)
      → other ≢ auth.user.id
      → count_accepted other (rows ++ added) ≡ count_accepted other rows
  unfolding count_accepted
  others_same other rows different = omega (
    arith,
    same_count other different terms rows,
    same_count other different privacy rows,
    same_count other different operator rows,
  )

  -- Once a user has accepted the documents, the check for the current versions of all of them
  -- passes for that user, and for every other user it answers as before.
  pub handle_accept_terms-has_current_consent :
      (db : Db)
      → (has_current_consent auth.user.id (handle_accept_terms auth now ip agent db).1 ≡ true)
        × ((other : String)
            → other ≢ auth.user.id
            → has_current_consent other (handle_accept_terms auth now ip agent db).1
              ≡ has_current_consent other db)
  unfolding handle_accept_terms record_consent has_current_consent exec
  handle_accept_terms-has_current_consent db = (
    rw (full db.terms_acceptances) refl,
    λ other different. rw (others_same other db.terms_acceptances different) refl,
  )
