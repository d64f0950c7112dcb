-- ===== src/Calls/Finalize.antt =====
-- `finalizeCall` of app/worker/routes/webhook.ts.
use ctf_website.Base.{
  ℕ, ◌+◌, ◌-◌, ◌/◌, String, str_eq, Bool, ◌&&◌, Option, none, some, coalesce, or_else, is_some,
  find_first, update_where,
}
use ctf_website.Base.Int.{pos}
use ctf_website.Schema.{CallRow, CallOutcome, booked, inquiry, escalated, missed, resolved, ended}
use ctf_website.Http.{Exec, pure, select, write, ◌>>=◌, ◌>>◌}
use ctf_website.Vapi.Event.{Event}
use ctf_website.Vapi.Outcome.{Outcome, derive_outcome}
use ctf_website.Stats.{bump_stats_version}

-- WHERE id = ? AND org_id = ?
abbrev pub owned_call : String → String → CallRow → Bool
owned_call id org_id call = str_eq call.id id && str_eq call.org_id org_id

unfoldable pub intent_of : CallOutcome → String
intent_of booked = "New Appointment"
intent_of escalated = "Urgent / Escalation"
intent_of missed = "No answer"
intent_of inquiry = "General Inquiry"
intent_of resolved = "General Inquiry"

-- Seconds from the start to the end, rounded half up; 0 where the end is before the start.
unfoldable pub rounded_seconds : (started_at ended_at : ℕ) → ℕ
rounded_seconds started_at ended_at = (ended_at - started_at + 500) / 1000

unfoldable pub final_call : ℕ → ℕ → ℕ → Outcome → Event → CallRow → CallRow
unfolding intent_of
final_call now ended_at duration_s outcome event call = record call {
  status = ended;
  control_url = none;
  ended_at = coalesce call.ended_at (some ended_at);
  duration_s = some (pos duration_s);
  outcome = some outcome.outcome;
  service = coalesce outcome.service call.service;
  booking_when = coalesce outcome.booking_when call.booking_when;
  intent = coalesce call.intent (some (intent_of outcome.outcome));
  summary = coalesce event.summary call.summary;
  recording_url = coalesce event.recording_url call.recording_url;
  ended_reason = coalesce event.ended_reason call.ended_reason;
  updated_at = now;
}

unfoldable pub finalize_found :
    ℕ → (call_id org_id : String) → Event → Option CallRow → Exec (Unit {0})
finalize_found now call_id org_id event none = pure tt
finalize_found now call_id org_id event (some call) = do
  let ended_at = or_else event.ended_at now
  let duration_s = or_else event.duration_s (rounded_seconds call.started_at ended_at)
  let outcome =
      derive_outcome event.structured event.ended_reason (is_some call.taken_over_by)
        (some (pos duration_s))
  write (λ db. record db {
    calls =
        update_where (owned_call call_id org_id) (final_call now ended_at duration_s outcome event)
          db.calls;
  })
  bump_stats_version org_id

unfoldable pub finalize_call : ℕ → (call_id org_id : String) → Event → Exec (Unit {0})
finalize_call now call_id org_id event = do
  found ← select (λ db. find_first (owned_call call_id org_id) db.calls)
  finalize_found now call_id org_id event found
