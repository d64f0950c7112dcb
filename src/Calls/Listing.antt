-- ===== src/Calls/Listing.antt =====
-- app/worker/routes/calls.ts, `handleListCalls`: the list of calls, page by page. `show` prints a
-- number and `parse_int` is `Number.parseInt`.
use ctf_website.Base.Texts.{split_on, present, join_text}
use ctf_website.Schema.{CallOutcome, CallRow, booked, escalated, missed}
use ctf_website.Base.{
  ℕ, suc, zero, ◌+◌, ◌-◌, ◌*◌, ◌/◌, ◌%◌, ◌≤◌, ◌<◌, min, max, ◌≡◌, ◌≢◌, ◌↔◌, ◌⊎◌, inl, inr, refl,
  sym, ap, subst, String, Bool, true, false, not, ◌&&◌, ◌||◌, Option, none, some, List, [], ◌∷◌,
  ◌++◌, map, arith, eq_iff, eq_refl, ltb, leb, ◌==◌, if◌then◌else◌, Bool-cases, Option-cases,
  coalesce, or_else, is_some, str_eq, length, All, find_first, update_where, delete_where,
  filter_where, count_where, take, last?,
}
use ctf_website.Http.{
  Exec, Result, ok, err, pure, throw, throw_if, require, select, write, lift, ◌>>=◌, ◌>>◌,
  bad_request,
}
pub mod Pages
pub mod Skips
mod Tests
use Prim.Native.Char.{Char, code}

pub record Numerals : Type 0 where
  pub show : ℕ → String
  pub parse_int : String → Option ℕ

abbrev pub default_page_size : ℕ
default_page_size = 20

abbrev pub max_page_size : ℕ
max_page_size = 100

pub record Cursor : Type 0 where
  pub started_at : ℕ
  pub id : String

pub record CallsPage : Type 0 where
  pub calls : List CallRow
  pub next_cursor : Option String

abbrev pub page_limit : Option ℕ → ℕ
page_limit none = default_page_size
page_limit (some limit) = min (max limit 1) max_page_size

abbrev pub second_part : List String → Option String
second_part [] = none
second_part (a ∷ []) = none
second_part (a ∷ b ∷ rest) = present (some b)

abbrev pub first_part : List String → String
first_part [] = ""
first_part (a ∷ rest) = a

abbrev pub cursor_from : Option ℕ → Option String → Result Cursor
cursor_from (some started_at) (some id) = ok (record { started_at = started_at; id = id })
cursor_from started_at id = err (bad_request "Invalid cursor.")

-- `const [startedAtRaw, cursorId] = cursor.split('_')`
unfoldable pub parse_cursor : Numerals → String → Result Cursor
parse_cursor numerals cursor =
    let parts = split_on b'_' cursor in
    cursor_from (numerals.parse_int (first_part parts)) (second_part parts)

unfoldable pub print_cursor : Numerals → CallRow → String
print_cursor numerals call = join_text (numerals.show call.started_at) (join_text "_" call.id)

-- The order of texts by their code units.
unfoldable pub text_before : String → String → Bool
text_before String.[] String.[] = false
text_before String.[] (String.◌∷◌ d t) = true
text_before (String.◌∷◌ c s) String.[] = false
text_before (String.◌∷◌ c s) (String.◌∷◌ d t) =
    ltb (code c) (code d) || (code c == code d && text_before s t)

-- (started_at < ? OR (started_at = ? AND id < ?))
abbrev pub behind : Option Cursor → CallRow → Bool
behind none call = true
behind (some cursor) call =
    ltb call.started_at cursor.started_at
    || (call.started_at == cursor.started_at && text_before call.id cursor.id)

abbrev pub outcome_is : CallOutcome → Option CallOutcome → Bool
outcome_is CallOutcome.booked (some CallOutcome.booked) = true
outcome_is CallOutcome.escalated (some CallOutcome.escalated) = true
outcome_is CallOutcome.missed (some CallOutcome.missed) = true
outcome_is outcome stored = false

abbrev pub has_outcome : Option CallOutcome → CallRow → Bool
has_outcome none call = true
has_outcome (some outcome) call = outcome_is outcome call.outcome

abbrev pub parse_filter : String → Result (Option CallOutcome)
parse_filter filter =
    if str_eq filter "booked"
    then ok (some booked)
    else if str_eq filter "escalated"
    then ok (some escalated)
    else if str_eq filter "missed"
    then ok (some missed)
    else if str_eq filter "all"
    then ok none
    else err (bad_request "Unknown filter.")

-- ORDER BY started_at DESC, id DESC
abbrev pub goes_first : CallRow → CallRow → Bool
goes_first a b = behind (some (record { started_at = a.started_at; id = a.id })) b

unfoldable pub place : CallRow → List CallRow → List CallRow
place call [] = call ∷ []
place call (first ∷ calls) =
    let rest = place call calls in
    if goes_first call first then call ∷ first ∷ calls else first ∷ rest

unfoldable pub newest_first : List CallRow → List CallRow
newest_first [] = []
newest_first (call ∷ calls) = place call (newest_first calls)

abbrev pub cursor_behind : Numerals → Option CallRow → Option String
cursor_behind numerals none = none
cursor_behind numerals (some call) = some (print_cursor numerals call)

abbrev pub wanted : String → Option CallOutcome → Option Cursor → CallRow → Bool
wanted org_id outcome cursor call =
    str_eq call.org_id org_id && (has_outcome outcome call && behind cursor call)

unfoldable pub page_of : Numerals → ℕ → List CallRow → CallsPage
page_of numerals limit results = record {
  calls = take limit results;
  next_cursor =
      if ltb limit (length results)
      then cursor_behind numerals (last? (take limit results))
      else none;
}

unfoldable pub list_page :
    Numerals → String → Option CallOutcome → Option ℕ → Option Cursor → Exec CallsPage
list_page numerals org_id outcome limit cursor = select (λ db. page_of numerals (page_limit limit) (
    take (suc (page_limit limit))
      (newest_first (filter_where (wanted org_id outcome cursor) db.calls))))

unfoldable pub cursor_of : Numerals → Option String → Exec (Option Cursor)
cursor_of numerals none = pure none
cursor_of numerals (some text) = do cursor ← lift (parse_cursor numerals text); pure (some cursor)

unfoldable pub handle_list_calls :
    Numerals
    → (org_id : String) → (filter : Option String) → (limit : Option ℕ) → (cursor : Option String)
    → Exec CallsPage
handle_list_calls numerals org_id filter limit cursor = do
  outcome ← lift (parse_filter (or_else filter "all"))
  position ← cursor_of numerals (present cursor)
  list_page numerals org_id outcome limit position
