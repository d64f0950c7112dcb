-- ===== src/Webhook.antt =====
-- app/worker/routes/webhook.ts: the handler of the voice provider's server messages. The readings
-- of the clock within one delivery are one value, `now`.
pub mod Keeps
pub mod Once
pub mod Replay
mod Tests
use ctf_website.Base.{
  ℕ, ◌*◌, String, str_eq, Bool, true, false, ◌&&◌, ◌||◌, Option, none, some, List, [], ◌∷◌, ◌++◌,
  coalesce, or_else, is_some, find_first, count_where, ltb, if◌then◌else◌,
}
use ctf_website.Schema.{
  Db, OrgRow, CallRow, CallStatus, TranscriptRow, Speaker, ai, caller, human, system,
}
use ctf_website.Http.{Exec, pure, select, write, lift, ◌>>=◌, ◌>>◌}
use ctf_website.Http.Body.{Body, read_body}
use ctf_website.Crypto.{Digests}
use ctf_website.Vapi.Json.{Json, Runtime}
use ctf_website.Vapi.Event.{Event, TranscriptLine, normalize_event}
use ctf_website.Vapi.Verify.{WebhookHeaders, WebhookSecrets, verify_webhook}
use ctf_website.Calls.Status.{map_status, is_ended}
use ctf_website.Calls.Transcript.{append_transcript_line}
use ctf_website.Calls.Upsert.{of_vapi_call, upsert_call}
use ctf_website.Calls.Finalize.{finalize_call}

abbrev pub max_webhook_body_bytes : ℕ
max_webhook_body_bytes = 8 * 1024 * 1024

-- The bodies of the answers.
pub data Reply : Type 0 where
  accepted ignored duplicate unknown_org invalid_json : Reply

abbrev pub org_by : Option String → (String → OrgRow → Bool) → Db → Option OrgRow
org_by none test db = none
org_by (some id) test db = find_first (test id) db.organizations

abbrev pub has : Option String → String → Bool
has none id = false
has (some linked) id = str_eq linked id

abbrev pub org_of_call : Option CallRow → Db → Option OrgRow
org_of_call none db = none
org_of_call (some call) db = find_first (λ org. str_eq org.id call.org_id) db.organizations

unfoldable pub resolve_org : String → Event → Db → Option OrgRow
resolve_org vapi_call_id event db =
    coalesce (org_by event.assistant_id (λ id org. has org.vapi_assistant_id id) db) (
      coalesce (org_by event.phone_number_id (λ id org. has org.vapi_phone_number_id id) db)
        (org_of_call (find_first (of_vapi_call vapi_call_id) db.calls) db))

unfoldable pub append_lines : CallRow → List TranscriptLine → Exec (Unit {0})
append_lines call [] = pure tt
append_lines call (line ∷ lines) = do
  append_transcript_line call line.speaker line.text line.at
  append_lines call lines

abbrev pub is_spoken : Speaker → Bool
is_spoken ai = true
is_spoken caller = true
is_spoken human = false
is_spoken system = false

-- WHERE call_id = ? AND speaker IN ('ai', 'caller')
abbrev pub spoken_in : String → TranscriptRow → Bool
spoken_in call_id line = str_eq line.call_id call_id && is_spoken line.speaker

unfoldable pub backfill : ℕ → CallRow → List TranscriptLine → Exec (Unit {0})
backfill existing call lines = if ltb 0 existing then pure tt else append_lines call lines

unfoldable pub persist_transcript : CallRow → Event → Exec (Unit {0})
persist_transcript call event =
    if str_eq event.kind "transcript" then append_lines call event.transcript else do
      existing ← select (λ db. count_where (spoken_in call.id) db.transcript_lines)
      backfill existing call event.transcript

abbrev pub persist_some : CallRow → Event → List TranscriptLine → Exec (Unit {0})
persist_some call event [] = pure tt
persist_some call event (line ∷ lines) = persist_transcript call event

abbrev pub ends : Option CallStatus → Bool
ends none = false
ends (some status) = is_ended status

abbrev pub finished : Event → Bool
finished event = str_eq event.kind "end-of-call-report" || ends (map_status event.status)

abbrev pub finalize_if : Bool → ℕ → (call_id org_id : String) → Event → Exec (Unit {0})
finalize_if true now call_id org_id event = finalize_call now call_id org_id event
finalize_if false now call_id org_id event = pure tt

unfoldable pub for_org : ℕ → (fresh_id vapi_call_id : String) → Event → Option OrgRow → Exec Reply
for_org now fresh_id vapi_call_id event none = pure unknown_org
for_org now fresh_id vapi_call_id event (some org) = do
  call ← upsert_call fresh_id vapi_call_id now org event
  persist_some call event event.transcript
  finalize_if (finished event) now call.id org.id event
  pure accepted

-- INSERT OR IGNORE INTO webhook_events, and whether a row was added.
abbrev pub seen : String → Db → Bool
seen event_id db = is_some (find_first (λ row. str_eq row.id event_id) db.webhook_events)

unfoldable pub first_delivery : ℕ → (fresh_id vapi_call_id event_id : String) → Event → Exec Reply
first_delivery now fresh_id vapi_call_id event_id event = do
  write (λ db. record db {
    webhook_events = db.webhook_events ++ record { id = event_id; received_at = now } ∷ [];
  })
  org ← select (resolve_org vapi_call_id event)
  for_org now fresh_id vapi_call_id event org

unfoldable pub unless_seen :
    Bool → ℕ → (fresh_id vapi_call_id event_id : String) → Event → Exec Reply
unless_seen true now fresh_id vapi_call_id event_id event = pure duplicate
unless_seen false now fresh_id vapi_call_id event_id event =
    first_delivery now fresh_id vapi_call_id event_id event

unfoldable pub deliver : ℕ → (fresh_id vapi_call_id event_id : String) → Event → Exec Reply
deliver now fresh_id vapi_call_id event_id event = do
  old ← select (seen event_id)
  unless_seen old now fresh_id vapi_call_id event_id event

-- What the deployment brings: the JavaScript runtime, its JSON.parse, WebCrypto and the secrets.
pub record Deployment : Type 0 where
  pub js : Runtime
  pub parse_json : String → Option Json
  pub digests : Digests
  pub secrets : WebhookSecrets

module _ (host : Deployment) where
  unfoldable pub deliver_call : ℕ → String → String → Event → Option String → Exec Reply
  deliver_call now fresh_id raw_body event none = pure ignored
  deliver_call now fresh_id raw_body event (some vapi_call_id) =
      deliver now fresh_id vapi_call_id
        (or_else event.message_id (host.digests.sha256_hex raw_body)) event

  unfoldable pub deliver_event : ℕ → String → String → Option Event → Exec Reply
  deliver_event now fresh_id raw_body none = pure ignored
  deliver_event now fresh_id raw_body (some event) =
      deliver_call now fresh_id raw_body event event.vapi_call_id

  unfoldable pub deliver_payload : ℕ → String → String → Option Json → Exec Reply
  deliver_payload now fresh_id raw_body none = pure invalid_json
  deliver_payload now fresh_id raw_body (some payload) =
      deliver_event now fresh_id raw_body (normalize_event host.js now payload)

  -- `fresh_id` is the id that `newId('call')` draws.
  unfoldable pub handle_vapi_webhook : ℕ → String → WebhookHeaders → Body → Exec Reply
  handle_vapi_webhook now fresh_id headers body = do
    raw_body ← lift (read_body max_webhook_body_bytes body)
    lift (verify_webhook host.digests host.secrets headers raw_body)
    deliver_payload now fresh_id raw_body (host.parse_json raw_body)
