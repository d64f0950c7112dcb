-- ===== src/Vapi/Event.antt =====
-- `normalizeEvent` and `extractTranscript` of app/worker/lib/vapi.ts.
use ctf_website.Base.{
  ℕ, String, str_eq, Bool, ◌||◌, Option, none, some, List, [], ◌∷◌, coalesce, or_else,
  if◌then◌else◌,
}
use ctf_website.Schema.{Speaker, ai, caller, system}
use ctf_website.Vapi.Json.{
  Json, Fields, Runtime, null, array, items, get, as_record, str, num, to_millis,
}

pub record TranscriptLine : Type 0 where
  pub speaker : Speaker
  pub text : String
  pub at : ℕ

pub record Event : Type 0 where
  pub message_id : Option String
  pub kind : String
  pub vapi_call_id : Option String
  pub assistant_id : Option String
  pub phone_number_id : Option String
  pub status : Option String
  pub ended_reason : Option String
  pub control_url : Option String
  pub listen_url : Option String
  pub caller_number : Option String
  pub caller_name : Option String
  pub started_at : Option ℕ
  pub ended_at : Option ℕ
  pub duration_s : Option ℕ
  pub recording_url : Option String
  pub summary : Option String
  pub transcript : List TranscriptLine
  pub structured : Option Fields
  pub timestamp : ℕ

-- `record ? record.key : null`
abbrev pub prop : Option Fields → String → Json
prop none key = null
prop (some fs) key = get fs key

-- `asRecord(message.key) ?? (call ? asRecord(call.key) : null)`
abbrev either_record : Fields → Option Fields → String → Option Fields
either_record message call key = coalesce (as_record (get message key)) (as_record (prop call key))

role_named : String → Option Speaker
role_named role =
    if str_eq role "assistant" || str_eq role "bot"
    then some ai
    else if str_eq role "user" || str_eq role "customer"
    then some caller
    else if str_eq role "system"
    then some system
    else none

unfoldable pub role_to_speaker : Option String → Option Speaker
unfolding role_named
role_to_speaker none = none
role_to_speaker (some role) = role_named role

-- `if (!speaker || !text) …` around one line.
abbrev line_of : Option Speaker → Option String → ℕ → List TranscriptLine → List TranscriptLine
line_of (some speaker) (some text) at rest =
    record { speaker = speaker; text = text; at = at } ∷ rest
line_of (some speaker) none at rest = rest
line_of none text at rest = rest

abbrev is_kind : Option String → String → Bool
is_kind kind name = str_eq (or_else kind "") name

module _ (js : Runtime) where
  -- One entry of the message list of a report.
  entry_line : ℕ → Option Fields → List TranscriptLine → List TranscriptLine
  unfolding role_to_speaker to_millis
  entry_line at none rest = rest
  entry_line at (some entry) rest =
      line_of (role_to_speaker (str (get entry "role")))
        (coalesce (str (get entry "message")) (str (get entry "content")))
        (or_else (to_millis js (get entry "time")) at) rest

  entry_lines : ℕ → List Json → List TranscriptLine
  unfolding entry_line
  entry_lines at [] = []
  entry_lines at (entry ∷ entries) = entry_line at (as_record entry) (entry_lines at entries)

  report_lines : ℕ → Json → List TranscriptLine
  unfolding entry_lines
  report_lines at (array entries) = entry_lines at (items entries)
  report_lines at _ = []

  -- The `type` is never the empty text here, nor is `final`.
  unfoldable pub extract_transcript : ℕ → Fields → Option Fields → List TranscriptLine
  unfolding report_lines
  extract_transcript now message artifact =
      let at = or_else (to_millis js (get message "timestamp")) now in
      if is_kind (str (get message "type")) "transcript"
      then if is_kind (str (get message "transcriptType")) "final"
        then line_of (role_to_speaker (str (get message "role"))) (str (get message "transcript"))
            at []
        else []
      else report_lines at (prop artifact "messages")

  unfoldable pub build_event : ℕ → Fields → String → Event
  unfolding extract_transcript
  build_event now message kind =
      let call = as_record (get message "call") in
      let monitor = as_record (prop call "monitor") in
      let customer = either_record message call "customer" in
      let artifact = either_record message call "artifact" in
      let analysis = either_record message call "analysis" in
      let recording = as_record (prop artifact "recording") in
      let assistant = either_record message call "assistant" in
      let phone_number = either_record message call "phoneNumber" in
      let structured = as_record (prop analysis "structuredData") in
      record {
        message_id = str (get message "id");
        kind = kind;
        vapi_call_id = str (prop call "id");
        assistant_id = coalesce (str (prop call "assistantId")) (str (prop assistant "id"));
        phone_number_id = coalesce (str (prop call "phoneNumberId")) (str (prop phone_number "id"));
        status = coalesce (str (get message "status")) (str (prop call "status"));
        ended_reason = coalesce (str (get message "endedReason")) (str (prop call "endedReason"));
        control_url = str (prop monitor "controlUrl");
        listen_url = str (prop monitor "listenUrl");
        caller_number = str (prop customer "number");
        caller_name = coalesce (str (prop customer "name")) (str (prop structured "callerName"));
        started_at = to_millis js (prop call "startedAt");
        ended_at = to_millis js (prop call "endedAt");
        duration_s =
            coalesce (num js (get message "durationSeconds"))
              (num js (prop call "durationSeconds"));
        recording_url =
            coalesce (coalesce (str (prop recording "stereoUrl")) (str (prop recording "url")))
              (str (prop artifact "recordingUrl"));
        summary = str (prop analysis "summary");
        transcript = extract_transcript now message artifact;
        structured = structured;
        timestamp = or_else (to_millis js (get message "timestamp")) now;
      }

  unfoldable pub typed_event : ℕ → Fields → Option String → Option Event
  typed_event now message none = none
  typed_event now message (some kind) = some (build_event now message kind)

  unfoldable pub rooted_event : ℕ → Option Fields → Option Event
  rooted_event now none = none
  rooted_event now (some root) =
      let message = or_else (as_record (get root "message")) root in
      typed_event now message (str (get message "type"))

  unfoldable pub normalize_event : ℕ → Json → Option Event
  normalize_event now payload = rooted_event now (as_record payload)
