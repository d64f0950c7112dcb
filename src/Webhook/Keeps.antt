-- ===== src/Webhook/Keeps.antt =====
-- What every write of a delivery keeps, the whole delivery keeps.
use ctf_website.Base.{
  ℕ, String, Bool, true, false, Option, none, some, List, [], ◌∷◌, ◌++◌, update_where,
}
use ctf_website.Schema.{Db, CallRow, OrgRow, Speaker, WebhookEventRow}
use ctf_website.Http.Keeps.{Keeps, keeps_rules, Keeps-write, Keeps-then, Keeps-bind}
use ctf_website.Http.Body.{Body}
use ctf_website.Vapi.Verify.{WebhookHeaders}
use ctf_website.Vapi.Json.{Json}
use ctf_website.Vapi.Event.{Event, TranscriptLine}
use ctf_website.Vapi.Outcome.{Outcome}
use ctf_website.Calls.Transcript.{append_line, append_transcript_line}
use ctf_website.Calls.Upsert.{excluded_call, upsert_row, upsert_call, bump_if}
use ctf_website.Calls.Finalize.{owned_call, final_call, finalize_call, finalize_found}
use ctf_website.Stats.{bumped, bump_stats_version}
use ctf_website.Webhook.{
  append_lines, backfill, persist_transcript, persist_some, finalize_if, for_org, first_delivery,
  unless_seen, deliver, deliver_call, deliver_event, deliver_payload, handle_vapi_webhook,
  Deployment,
}

-- `P` outlasts each statement of a delivery.
pub record IsStable (P : Db → Type 0) : Type 0 where
  pub bump : (org_id : String) (db : Db) → P db → P (bumped org_id db)
  pub line :
      (call_id org_id : String) (speaker : Speaker) (text : String) (at : ℕ) (db : Db)
      → P db
      → P (record db {
        transcript_lines = append_line call_id org_id speaker text at db.transcript_lines;
      })
  pub upsert :
      (id org_id vapi_call_id : String) (now : ℕ) (event : Event) (db : Db)
      → P db
      → P (record db {
        calls = upsert_row (excluded_call id org_id vapi_call_id now event) db.calls;
      })
  pub final :
      (call_id org_id : String) (now ended_at duration_s : ℕ) (outcome : Outcome) (event : Event)
      (db : Db)
      → P db
      → P (record db {
        calls =
            update_where
              (owned_call call_id org_id)
              (final_call now ended_at duration_s outcome event)
              db.calls;
      })
  pub deliver :
      (row : WebhookEventRow) (db : Db)
      → P db
      → P (record db { webhook_events = db.webhook_events ++ row ∷ [] })

module _ {P : Db → Type 0} (stable : IsStable P) where
  pub Keeps-bump : (org_id : String) → Keeps P (bump_stats_version org_id)
  unfolding bump_stats_version
  Keeps-bump org_id = Keeps-write _ (stable.bump org_id)

  pub Keeps-line :
      (call : CallRow) (speaker : Speaker) (text : String) (at : ℕ)
      → Keeps P (append_transcript_line call speaker text at)
  unfolding append_transcript_line
  Keeps-line call speaker text at = Keeps-write _ (stable.line call.id call.org_id speaker text at)

  Keeps-lines : (call : CallRow) (lines : List TranscriptLine) → Keeps P (append_lines call lines)
  unfolding append_lines
  Keeps-lines call [] = search keeps_rules
  Keeps-lines call (line ∷ lines) =
      search (keeps_rules, Keeps-line call line.speaker line.text line.at, Keeps-lines call lines)

  Keeps-backfill :
      (existing : ℕ) (call : CallRow) (lines : List TranscriptLine)
      → Keeps P (backfill existing call lines)
  unfolding backfill
  Keeps-backfill existing call lines = search (keeps_rules, Keeps-lines)

  Keeps-persist : (call : CallRow) (event : Event) → Keeps P (persist_transcript call event)
  unfolding persist_transcript
  Keeps-persist call event = search (keeps_rules, Keeps-lines, Keeps-backfill)

  Keeps-persist_some :
      (call : CallRow) (event : Event) (lines : List TranscriptLine)
      → Keeps P (persist_some call event lines)
  Keeps-persist_some call event [] = search keeps_rules
  Keeps-persist_some call event (line ∷ lines) = Keeps-persist call event

  Keeps-bump_if : (b : Bool) (org_id : String) → Keeps P (bump_if b org_id)
  Keeps-bump_if true org_id = Keeps-bump org_id
  Keeps-bump_if false org_id = search keeps_rules

  Keeps-upsert :
      (id vapi_call_id : String) (now : ℕ) (org : OrgRow) (event : Event)
      → Keeps P (upsert_call id vapi_call_id now org event)
  unfolding upsert_call
  Keeps-upsert id vapi_call_id now org event =
      Keeps-then _ _ (Keeps-write _ (stable.upsert id org.id vapi_call_id now event)) (
        Keeps-bind _ _ (search keeps_rules) (λ found.
          Keeps-bind _ _ (search keeps_rules)
            (λ row. Keeps-then _ _ (Keeps-bump_if _ org.id) (search keeps_rules))))

  Keeps-finalize_found :
      (now : ℕ) (call_id org_id : String) (event : Event) (found : Option CallRow)
      → Keeps P (finalize_found now call_id org_id event found)
  unfolding finalize_found
  Keeps-finalize_found now call_id org_id event none = search keeps_rules
  Keeps-finalize_found now call_id org_id event (some call) =
      search (keeps_rules, Keeps-bump, Keeps-write _ (stable.final call_id org_id now _ _ _ event))

  Keeps-finalize :
      (now : ℕ) (call_id org_id : String) (event : Event)
      → Keeps P (finalize_call now call_id org_id event)
  unfolding finalize_call
  Keeps-finalize now call_id org_id event = search (keeps_rules, Keeps-finalize_found)

  Keeps-finalize_if :
      (b : Bool) (now : ℕ) (call_id org_id : String) (event : Event)
      → Keeps P (finalize_if b now call_id org_id event)
  Keeps-finalize_if true now call_id org_id event = Keeps-finalize now call_id org_id event
  Keeps-finalize_if false now call_id org_id event = search keeps_rules

  pub Keeps-for_org :
      (now : ℕ) (fresh_id vapi_call_id : String) (event : Event) (org : Option OrgRow)
      → Keeps P (for_org now fresh_id vapi_call_id event org)
  unfolding for_org
  Keeps-for_org now fresh_id vapi_call_id event none = search keeps_rules
  Keeps-for_org now fresh_id vapi_call_id event (some org) =
      search (keeps_rules, Keeps-upsert, Keeps-persist_some, Keeps-finalize_if)

  Keeps-first_delivery :
      (now : ℕ) (fresh_id vapi_call_id event_id : String) (event : Event)
      → Keeps P (first_delivery now fresh_id vapi_call_id event_id event)
  unfolding first_delivery
  Keeps-first_delivery now fresh_id vapi_call_id event_id event =
      search (keeps_rules, Keeps-write _ (stable.deliver _), Keeps-for_org)

  Keeps-unless_seen :
      (old : Bool) (now : ℕ) (fresh_id vapi_call_id event_id : String) (event : Event)
      → Keeps P (unless_seen old now fresh_id vapi_call_id event_id event)
  unfolding unless_seen
  Keeps-unless_seen true now fresh_id vapi_call_id event_id event = search keeps_rules
  Keeps-unless_seen false now fresh_id vapi_call_id event_id event =
      Keeps-first_delivery now fresh_id vapi_call_id event_id event

  Keeps-deliver :
      (now : ℕ) (fresh_id vapi_call_id event_id : String) (event : Event)
      → Keeps P (deliver now fresh_id vapi_call_id event_id event)
  unfolding deliver
  Keeps-deliver now fresh_id vapi_call_id event_id event = search (keeps_rules, Keeps-unless_seen)

  Keeps-deliver_call :
      (host : Deployment) (now : ℕ) (fresh_id raw_body : String) (event : Event)
      (call : Option String)
      → Keeps P (deliver_call host now fresh_id raw_body event call)
  unfolding deliver_call
  Keeps-deliver_call host now fresh_id raw_body event none = search keeps_rules
  Keeps-deliver_call host now fresh_id raw_body event (some call) =
      Keeps-deliver now fresh_id call _ event

  Keeps-deliver_event :
      (host : Deployment) (now : ℕ) (fresh_id raw_body : String) (event : Option Event)
      → Keeps P (deliver_event host now fresh_id raw_body event)
  unfolding deliver_event
  Keeps-deliver_event host now fresh_id raw_body none = search keeps_rules
  Keeps-deliver_event host now fresh_id raw_body (some event) =
      Keeps-deliver_call host now fresh_id raw_body event event.vapi_call_id

  Keeps-deliver_payload :
      (host : Deployment) (now : ℕ) (fresh_id raw_body : String) (payload : Option Json)
      → Keeps P (deliver_payload host now fresh_id raw_body payload)
  unfolding deliver_payload
  Keeps-deliver_payload host now fresh_id raw_body none = search keeps_rules
  Keeps-deliver_payload host now fresh_id raw_body (some payload) =
      Keeps-deliver_event host now fresh_id raw_body _

  pub Keeps-handle_vapi_webhook :
      (host : Deployment) (now : ℕ) (fresh_id : String) (headers : WebhookHeaders) (body : Body)
      → Keeps P (handle_vapi_webhook host now fresh_id headers body)
  unfolding handle_vapi_webhook
  Keeps-handle_vapi_webhook host now fresh_id headers body =
      search (keeps_rules, Keeps-deliver_payload)
