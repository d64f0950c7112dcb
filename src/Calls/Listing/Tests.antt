-- ===== src/Calls/Listing/Tests.antt =====
-- Two calls that started in the same millisecond, and a third one, in pages of one call.
use ctf_website.Calls.Listing.Pages.{IsOwnPage, handle_list_calls-IsOwnPage}
use ctf_website.Base.Texts.{split_on}
use ctf_website.Samples.{live_call, clinic_db}
use ctf_website.Schema.{CallRow, Db}
use ctf_website.Calls.Listing.{
  CallsPage, handle_list_calls, Numerals, cursor_of, parse_cursor, print_cursor, list_page, page_of,
  newest_first, place, text_before,
}
use ctf_website.Calls.Listing.Skips.{IsNamed, handle_list_calls-skips}
use ctf_website.Base.{ℕ, ◌<◌, refl, String, none, some, [], ◌∷◌, All, filter_where}
use ctf_website.Http.{exec}

abbrev call_named : String → ℕ → CallRow
call_named id started_at = record live_call { id = id; vapi_call_id = id; started_at = started_at }

abbrev three_db : Db
three_db = record clinic_db {
  calls = call_named "call_b" 7000 ∷ call_named "call_a" 7000 ∷ call_named "call_c" 5000 ∷ [];
}

abbrev one_number : Numerals
one_number = record { show = λ n. "7000"; parse_int = λ s. some 7000 }

abbrev second_page : CallsPage
second_page = record { calls = call_named "call_c" 5000 ∷ []; next_cursor = none }

three_calls-All : All IsNamed three_db.calls
three_calls-All = (("b", refl), (("a", refl), (("c", refl), tt)))

handle_list_calls-skips_example : All (λ call. call.started_at < 7000) second_page.calls
unfolding handle_list_calls cursor_of parse_cursor print_cursor list_page page_of newest_first place
    text_before filter_where split_on exec
handle_list_calls-skips_example =
    handle_list_calls-skips one_number "org_1" none (some 1) (call_named "call_b" 7000) "b" three_db
      second_page refl refl refl three_calls-All refl

handle_list_calls-IsOwnPage_example : IsOwnPage "org_1" second_page
unfolding handle_list_calls cursor_of parse_cursor print_cursor list_page page_of newest_first place
    text_before filter_where split_on exec
handle_list_calls-IsOwnPage_example =
    handle_list_calls-IsOwnPage one_number "org_1" none (some 1) (some "7000_call_b") three_db
      second_page refl
