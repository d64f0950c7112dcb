-- ===== src/Calls/Listing/Skips.antt =====
-- The cursor behind a page (app/worker/routes/calls.ts, `handleListCalls`): the id of a call has an
-- underscore itself (app/worker/lib/crypto.ts, `newId`), and the cursor is split at every one.
use ctf_website.Calls.Listing.Pages.{All-weaken, list_page-All}
use ctf_website.Http.Returns.{OnOk, OnOk-ok}
use ctf_website.Schema.{CallRow, CallOutcome, Db}
use ctf_website.Calls.Listing.{
  parse_cursor, text_before, print_cursor, Cursor, Numerals, cursor_from, first_part, second_part,
  CallsPage, handle_list_calls, wanted, cursor_of, list_page,
}
use ctf_website.Base.Texts.{present, split_on, join_text, on_head}
use ctf_website.Base.{
  ℕ, ◌<◌, ◌≡◌, refl, ap, String, Bool, true, false, not, ◌&&◌, Option, some, List, ◌∷◌, arith, ◌==◌,
  All, ◌∙◌,
}
use ctf_website.Http.{Result, ok, err, lift, ◌>>=◌, exec}
use Prim.Native.Char.{code}

abbrev pub free_of : ℕ → String → Bool
free_of sep String.[] = true
free_of sep (String.◌∷◌ c s) = not (code c == sep) && free_of sep s

-- newId('call')
abbrev pub call_id_with : String → String
call_id_with token = join_text "call_" token

split_printed :
    (digits token : String)
    → free_of b'_' digits ≡ true
    → split_on b'_' (join_text digits (join_text "_" (call_id_with token)))
      ≡ digits ∷ "call" ∷ split_on b'_' token
unfolding split_on
split_printed String.[] token h = refl
split_printed (String.◌∷◌ c s) token h =
    let other : (code c == b'_') ≡ false = ground arith in
    rw other (ap (on_head c) (split_printed s token (ground arith)))

present_printed :
    (digits rest : String)
    → present (some (join_text digits (join_text "_" rest)))
      ≡ some (join_text digits (join_text "_" rest))
present_printed String.[] rest = refl
present_printed (String.◌∷◌ c s) rest = refl

-- The cursor that is read back has the first part of the id only.
read_back : CallRow → Cursor
read_back last = record { started_at = last.started_at; id = "call" }

parse_cursor-print_cursor :
    (numerals : Numerals) (last : CallRow) (token : String)
    → numerals.parse_int (numerals.show last.started_at) ≡ some last.started_at
    → free_of b'_' (numerals.show last.started_at) ≡ true
    → last.id ≡ call_id_with token
    → parse_cursor numerals (print_cursor numerals last) ≡ ok (read_back last)
unfolding parse_cursor print_cursor read_back
parse_cursor-print_cursor numerals last token reads free named =
    ap (λ id. cursor_from (numerals.parse_int (first_part (parts id))) (second_part (parts id)))
      named
    ∙ ap (λ p. cursor_from (numerals.parse_int (first_part p)) (second_part p))
        (split_printed (numerals.show last.started_at) token free)
    ∙ ap (λ n. cursor_from n (some "call")) reads
  where
    parts : String → List String
    parts id = split_on b'_' (join_text (numerals.show last.started_at) (join_text "_" id))

abbrev pub IsNamed : CallRow → Type 0
IsNamed call = (token : String) × (call.id ≡ call_id_with token)

not_before_prefix : (token : String) → text_before (call_id_with token) "call" ≡ false
unfolding text_before
not_before_prefix token = refl

-- A call that is wanted behind the cursor read back has started earlier.
wanted_earlier :
    (org_id : String) (outcome : Option CallOutcome) (last call : CallRow)
    → IsNamed call × (wanted org_id outcome (some (read_back last)) call ≡ true)
    → call.started_at < last.started_at
unfolding read_back
wanted_earlier org_id outcome last call ((token, named), want) =
    let late : text_before call.id "call" ≡ false =
      ap (λ id. text_before id "call") named ∙ not_before_prefix token in
    ground (arith, want, late)

AreEarlier : CallRow → CallsPage → Type 0
AreEarlier last page = All (λ call. call.started_at < last.started_at) page.calls

earlier_page :
    (org_id : String) (outcome : Option CallOutcome) (last : CallRow) (answer : Result CallsPage)
    → OnOk
        (λ page.
          All
            (λ call. IsNamed call × (wanted org_id outcome (some (read_back last)) call ≡ true))
            page.calls)
        answer
    → OnOk (AreEarlier last) answer
unfolding AreEarlier
earlier_page org_id outcome last (ok page) h =
    All-weaken _ _ page.calls (wanted_earlier org_id outcome last) h
earlier_page org_id outcome last (err e) h = tt

present_cursor :
    (numerals : Numerals) (last : CallRow)
    → present (some (print_cursor numerals last)) ≡ some (print_cursor numerals last)
unfolding print_cursor
present_cursor numerals last = present_printed (numerals.show last.started_at) last.id

listed :
    (numerals : Numerals) (org_id : String) (limit : Option ℕ) (last : CallRow) (db : Db)
    (filter : Result (Option CallOutcome))
    → parse_cursor numerals (print_cursor numerals last) ≡ ok (read_back last)
    → All IsNamed db.calls
    → OnOk
        (AreEarlier last)
        ((lift filter >>= (λ outcome.
            cursor_of numerals (some (print_cursor numerals last))
            >>= (λ position. list_page numerals org_id outcome limit position)))
          db).0
unfolding exec cursor_of
listed numerals org_id limit last db (err e) back named = tt
listed numerals org_id limit last db (ok outcome) back named = rw back (
    earlier_page org_id outcome last _
      (list_page-All IsNamed numerals org_id outcome limit (some (read_back last)) db named))

-- The page that the cursor behind `last` asks for holds only calls that started before `last`: a
-- call that started in the same millisecond and stands behind it in the list is not on it.
pub handle_list_calls-skips :
    (numerals : Numerals) (org_id : String) (filter : Option String) (limit : Option ℕ)
    (last : CallRow) (token : String) (db : Db) (page : CallsPage)
    → numerals.parse_int (numerals.show last.started_at) ≡ some last.started_at
    → free_of b'_' (numerals.show last.started_at) ≡ true
    → last.id ≡ call_id_with token
    → All IsNamed db.calls
    → (handle_list_calls numerals org_id filter limit (some (print_cursor numerals last)) db).0
      ≡ ok page
    → All (λ call. call.started_at < last.started_at) page.calls
unfolding handle_list_calls AreEarlier
handle_list_calls-skips numerals org_id filter limit last token db page reads free named all_named
      h =
    OnOk-ok (AreEarlier last) _ page
      (rw (present_cursor numerals last) (
        listed numerals org_id limit last db _
          (parse_cursor-print_cursor numerals last token reads free named) all_named))
      h
