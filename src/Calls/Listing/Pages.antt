-- ===== src/Calls/Listing/Pages.antt =====
-- What stands on a page of the list of calls (app/worker/routes/calls.ts, `handleListCalls`).
use ctf_website.Http.Returns.{OnOk, OnOk-ok, bind_returns}
use ctf_website.Calls.Listing.{
  list_page, Cursor, page_of, CallsPage, place, newest_first, Numerals, max_page_size, goes_first,
  page_limit, default_page_size, wanted, handle_list_calls,
}
use ctf_website.Schema.{CallRow, CallOutcome, Db}
use ctf_website.Base.{
  ℕ, suc, zero, ◌≤◌, ◌≡◌, inl, inr, String, Bool, true, Option, none, some, List, [], ◌∷◌, arith,
  eq_iff, Bool-cases, length, All, filter_where, take, if_cases,
}
use ctf_website.Http.{Result, ok, err, select}

module _ {A : Type 0} where
  All-filter_where :
      (P : A → Type 0) (test : A → Bool) (xs : List A)
      → All P xs
      → All (λ x. P x × (test x ≡ true)) (filter_where test xs)
  unfolding filter_where
  All-filter_where P test [] h = tt
  All-filter_where P test (x ∷ xs) h = elim (Bool-cases (test x)) [
    | inl hit ↦ rw hit ((h.0, hit), All-filter_where P test xs h.1)
    | inr miss ↦ rw miss (All-filter_where P test xs h.1)
  ]

  All-take : (P : A → Type 0) (n : ℕ) (xs : List A) → All P xs → All P (take n xs)
  All-take P zero xs h = tt
  All-take P (suc n) [] h = tt
  All-take P (suc n) (x ∷ xs) h = (h.0, All-take P n xs h.1)

  length-take : (n : ℕ) (xs : List A) → length (take n xs) ≤ n
  length-take zero xs = omega arith
  length-take (suc n) [] = omega arith
  length-take (suc n) (x ∷ xs) = omega (arith, length-take n xs)

module _ (P : CallRow → Type 0) where
  All-place :
      (call : CallRow) (calls : List CallRow) → P call → All P calls → All P (place call calls)
  unfolding place
  All-place call [] p h = (p, tt)
  All-place call (first ∷ calls) p h =
      if_cases (All P) (goes_first call first) {one = call ∷ first ∷ calls}
        {other = first ∷ place call calls} (λ before. (p, h))
        (λ after. (h.0, All-place call calls p h.1))

  All-newest_first : (calls : List CallRow) → All P calls → All P (newest_first calls)
  unfolding newest_first
  All-newest_first [] h = tt
  All-newest_first (call ∷ calls) h =
      All-place call (newest_first calls) h.0 (All-newest_first calls h.1)

pub All-weaken :
    {A : Type 0} (P Q : A → Type 0) (xs : List A) → ((x : A) → P x → Q x) → All P xs → All Q xs
All-weaken P Q [] weaken h = tt
All-weaken P Q (x ∷ xs) weaken h = (weaken x h.0, All-weaken P Q xs weaken h.1)

-- What holds of every stored call holds of a page's, and the query wants them.
pub list_page-All :
    (P : CallRow → Type 0) (numerals : Numerals) (org_id : String) (outcome : Option CallOutcome)
    (limit : Option ℕ) (cursor : Option Cursor) (db : Db)
    → All P db.calls
    → OnOk
        (λ page. All (λ call. P call × (wanted org_id outcome cursor call ≡ true)) page.calls)
        (list_page numerals org_id outcome limit cursor db).0
unfolding list_page page_of select
list_page-All P numerals org_id outcome limit cursor db h =
    let Q = λ (call : CallRow). P call × (wanted org_id outcome cursor call ≡ true) in
    All-take Q (page_limit limit) _ (
      All-take Q (suc (page_limit limit)) _
        (All-newest_first Q _ (All-filter_where P (wanted org_id outcome cursor) db.calls h)))

list_page_bounded :
    (numerals : Numerals) (org_id : String) (outcome : Option CallOutcome) (limit : Option ℕ)
    (cursor : Option Cursor) (db : Db)
    → OnOk
        (λ page. length page.calls ≤ max_page_size)
        (list_page numerals org_id outcome limit cursor db).0
unfolding list_page page_of select
list_page_bounded numerals org_id outcome none cursor db =
    omega (arith, length-take default_page_size _)
list_page_bounded numerals org_id outcome (some n) cursor db =
    omega (arith, length-take (page_limit (some n)) _)

every_call : (calls : List CallRow) → All (λ call. Unit {0}) calls
every_call [] = tt
every_call (call ∷ calls) = (tt, every_call calls)

-- A page of the list holds calls of the asking organization only, and at most a hundred.
pub record IsOwnPage (org_id : String) (page : CallsPage) : Type 0 where
  pub own : All (λ call. call.org_id ≡ org_id) page.calls
  pub bounded : length page.calls ≤ max_page_size

own_page :
    (org_id : String) (outcome : Option CallOutcome) (cursor : Option Cursor)
    (answer : Result CallsPage)
    → OnOk
        (λ page. All (λ call. Unit {0} × (wanted org_id outcome cursor call ≡ true)) page.calls)
        answer
    → OnOk (λ page. length page.calls ≤ max_page_size) answer
    → OnOk (IsOwnPage org_id) answer
own_page org_id outcome cursor (ok page) all bound = record {
  own =
      All-weaken _ _ _ (λ call h. let w = h.1 in (eq_iff call.org_id org_id).0 (ground (arith, w)))
        all;
  bounded = bound;
}
own_page org_id outcome cursor (err e) all bound = tt

-- Whatever filter, limit and cursor a request names, a page that is answered holds calls of the
-- asking organization only, and at most a hundred of them.
pub handle_list_calls-IsOwnPage :
    (numerals : Numerals) (org_id : String) (filter : Option String) (limit : Option ℕ)
    (cursor : Option String) (db : Db) (page : CallsPage)
    → (handle_list_calls numerals org_id filter limit cursor db).0 ≡ ok page
    → IsOwnPage org_id page
unfolding handle_list_calls
handle_list_calls-IsOwnPage numerals org_id filter limit cursor db page h =
    OnOk-ok (IsOwnPage org_id) _ page
      (bind_returns (IsOwnPage org_id) _ _ db (λ outcome d.
        bind_returns (IsOwnPage org_id) _ _ d (λ position d'.
          own_page org_id outcome position _
            (list_page-All (λ call. Unit {0}) numerals org_id outcome limit position d'
              (every_call d'.calls))
            (list_page_bounded numerals org_id outcome limit position d'))))
      h
