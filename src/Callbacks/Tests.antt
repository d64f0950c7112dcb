-- ===== src/Callbacks/Tests.antt =====
-- Runs of the call-back worker at a small table (demo/heartbeat/src/callbacks.ts).
use ctf_website.Base.Texts.{join_text}
use ctf_website.Base.{ℕ, ◌≡◌, refl, String, Option, none, some, [], ◌∷◌, All}
use ctf_website.Callbacks.Execution.{run_worker}
use ctf_website.Callbacks.World.{World, LeadRow, Status, CallbackEnv, VapiCall, told, served}
use ctf_website.Callbacks.Number.Spellings.{Dials, south_african_number_spellings}
use ctf_website.Callbacks.Clean.{clean}
use ctf_website.Callbacks.Clean.Plain.{IsPlain, clean-IsPlain}
use ctf_website.Callbacks.Moves.{Moves, Moves-refl}
use ctf_website.Callbacks.Run.{run_callbacks}
use ctf_website.Callbacks.Run.Course.{run_callbacks-Moves}
use ctf_website.Callbacks.Run.Hours.{Dialled, run_callbacks-Dialled}

abbrev env : CallbackEnv
env = record {
  vapi_private_key = some "key";
  vapi_phone_number_id = some "number";
  vapi_assistant_id = some "assistant";
  email_api_key = some "mail";
}

abbrev label : ℕ → String
label at = "1 Oct 2026, 10:00"

abbrev lead_at : String → Option Status → LeadRow
lead_at id status = record {
  id = id;
  name = "Thandi";
  business_type = some "Dentist";
  phone = some "082 400 1234";
  message = none;
  created_at = 1790580000000;
  contacted_at = none;
  callback_status = status;
  callback_attempts = 0;
  callback_number = none;
  callback_call_id = none;
  callback_attempted_at = none;
  callback_next_at = none;
  callback_ended_reason = none;
  callback_summary = none;
}

-- One lead that waits, and one from before the column was added; the first answer is lost.
abbrev start : World
start = record {
  leads = lead_at "a" (some Status.pending) ∷ lead_at "b" none ∷ [];
  turns = record { others = λ rows. rows; fate = served } ∷ [];
  gets = [];
  posts = told "call_1" ∷ [];
  dialled = [];
  emails = [];
  notes = [];
}

run_log : (run_callbacks env label 1790582400000 start).1.notes ≡ "lead a: calling (attempt 1)" ∷ []
unfolding run_worker
run_log = refl

-- A call that nobody answered goes back in the queue for an hour, and is written off the second time.
abbrev in_call : ℕ → LeadRow
in_call attempts = record (lead_at "a" (some Status.calling)) {
  callback_call_id = some "call_1";
  callback_attempts = attempts;
  callback_attempted_at = some 1790582300000;
}

abbrev unanswered : VapiCall
unanswered = record {
  id = "call_1";
  status = some "ended";
  ended_reason = some "customer-did-not-answer";
  started_at = none;
  ended_at = none;
  summary = none;
  transcript = none;
  recording_url = none;
  messages = none;
}

abbrev after_call : ℕ → World
after_call attempts = record start { leads = in_call attempts ∷ []; gets = told unanswered ∷ [] }

first_time :
    (run_callbacks env label 1790500000000 (after_call 1)).1.notes
    ≡ "lead a: no answer, trying again later" ∷ []
unfolding run_worker
first_time = refl

second_time :
    (run_callbacks env label 1790500000000 (after_call 2)).1.notes ≡ "lead a: no answer twice" ∷ []
unfolding run_worker
second_time = refl

run_callbacks-Moves_example :
    Moves start.leads (run_callbacks env label 1790582400000 start).1.leads
run_callbacks-Moves_example =
    run_callbacks-Moves env label 1790582400000 start
      (record { orderly = λ rows. Moves-refl rows }, tt)

run_callbacks-Dialled_example :
    Dialled 1790582400000 [] (run_callbacks env label 1790582400000 start).1
run_callbacks-Dialled_example = run_callbacks-Dialled env label 1790582400000 start

south_african_number_spellings_example :
    All
      (λ prefix. Dials (join_text prefix "824001234") "824001234")
      ("" ∷ "0" ∷ "27" ∷ "0027" ∷ "+27" ∷ [])
south_african_number_spellings_example = south_african_number_spellings "824001234" refl

clean-IsPlain_example : IsPlain 80 (clean (some "{{ Thandi }}\n") 80)
clean-IsPlain_example = clean-IsPlain (some "{{ Thandi }}\n") 80
