-- ===== src/Calls/Tests.antt =====
-- The transcript of a call whose lines stand between another call's.
use ctf_website.Schema.{transferring, ai, TranscriptRow, caller, in_progress}
use ctf_website.Calls.Status.{MayFollow, merge_status, merge_status-MayFollow}
use ctf_website.Base.{List, String, ℕ, ◌∷◌, [], refl}
use ctf_website.Calls.Transcript.{IsNumbered, append_line, append_line-IsNumbered}

abbrev line : String → ℕ → TranscriptRow
line call_id seq = record {
  call_id = call_id;
  org_id = "org_1";
  seq = seq;
  speaker = caller;
  text = "Hello";
  at = 1;
}

abbrev two_calls : List TranscriptRow
two_calls = line "call_1" 1 ∷ line "call_2" 1 ∷ line "call_1" 2 ∷ []

append_line-IsNumbered_example :
    IsNumbered "call_1" 1 (append_line "call_1" "org_1" ai "Goodbye" 9 two_calls)
append_line-IsNumbered_example =
    append_line-IsNumbered "call_1" "org_1" ai "Goodbye" 9 two_calls "call_1" (refl, (refl, tt))

merge_status-MayFollow_example : MayFollow transferring (merge_status transferring in_progress)
merge_status-MayFollow_example = merge_status-MayFollow transferring in_progress
