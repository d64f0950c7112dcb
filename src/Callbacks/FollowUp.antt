-- ===== src/Callbacks/FollowUp.antt =====
-- `followUp` of demo/heartbeat/src/callbacks.ts: what becomes of a call in progress.
use ctf_website.Base.{
  ℕ, ◌+◌, ◌*◌, String, Bool, not, ◌&&◌, ◌||◌, Option, none, some, if◌then◌else◌, or_else, is_some,
  ltb, ◌==◌, str_eq,
}
use ctf_website.Base.Texts.{trim, present}
use ctf_website.Callbacks.World.{
  LeadRow, VapiCall, Reply, told, refused, silent, Task, ◌>>=◌, ◌>>◌, pure, note, update_lead,
  get_call, tell_kamva, is_older, is_newer, CallbackEnv,
}
use ctf_website.Callbacks.World.{Status}
use ctf_website.Callbacks.Outcome.{CallOutcome, outcome_of}
use ctf_website.Callbacks.Letters.{
  ◌⊕◌, decimal, who_is, gave_up_lines, unreached_lines, spoke_lines,
}

abbrev pub max_attempts : ℕ
max_attempts = 2

abbrev pub retry_after_minutes : ℕ
retry_after_minutes = 60

abbrev pub stuck_after_minutes : ℕ
stuck_after_minutes = 30

abbrev pub summary_wait_minutes : ℕ
summary_wait_minutes = 3

-- `isoIn(now, minutes)`
abbrev pub minutes_on : ℕ → ℕ → ℕ
minutes_on now minutes = now + minutes * 60000

-- The message of a `VapiError`.
abbrev pub vapi_answered : ℕ → String → String
vapi_answered status detail = "Vapi answered " ⊕ decimal status ⊕ ": " ⊕ detail

unfoldable pub note_lead : LeadRow → String → Task (Unit {0})
note_lead lead text = note ("lead " ⊕ lead.id ⊕ ": " ⊕ text)

-- What a change of status is followed by, if the lead had not moved on.
unfoldable pub then_if : Bool → Task (Unit {0}) → Task (Unit {0})
then_if moved rest = if moved then rest else pure tt

abbrev pub gave_up : String → LeadRow → LeadRow
gave_up reason row = record row {
  callback_status = some Status.failed;
  callback_ended_reason = some reason;
}

abbrev pub requeued : ℕ → String → LeadRow → LeadRow
requeued next_at reason row = record row {
  callback_status = some Status.pending;
  callback_next_at = some next_at;
  callback_ended_reason = some reason;
  callback_call_id = none;
}

abbrev pub unreached : String → LeadRow → LeadRow
unreached reason row = record row {
  callback_status = some Status.no_answer;
  callback_ended_reason = some reason;
}

abbrev pub spoken_to : String → Option String → LeadRow → LeadRow
spoken_to reason summary row = record row {
  callback_status = some Status.completed;
  callback_ended_reason = some reason;
  callback_summary = summary;
}

module _ (env : CallbackEnv) (sast_label : ℕ → String) (now : ℕ) where
  unfoldable pub give_up : LeadRow → String → Task (Unit {0})
  give_up lead reason = do
    moved ← update_lead lead (gave_up reason)
    then_if moved (do
      note_lead lead ("failed (" ⊕ reason ⊕ ")")
      tell_kamva env
          ("Hope's call to " ⊕ who_is lead ⊕ " may not have gone through — please call them")
          (gave_up_lines sast_label lead (who_is lead) reason))

  unfoldable pub retry_later : LeadRow → String → Task (Unit {0})
  retry_later lead reason = do
    moved ← update_lead lead (requeued (minutes_on now retry_after_minutes) reason)
    then_if moved (note_lead lead "no answer, trying again later")

  unfoldable pub write_off : LeadRow → String → Task (Unit {0})
  write_off lead reason = do
    moved ← update_lead lead (unreached reason)
    then_if moved (do
      note_lead lead "no answer twice"
      tell_kamva env ("Hope couldn't reach " ⊕ who_is lead ⊕ " — please call them")
          (unreached_lines sast_label lead (who_is lead) reason))

  unfoldable pub complete : LeadRow → VapiCall → String → Option String → Task (Unit {0})
  complete lead call reason summary = do
    moved ← update_lead lead (spoken_to reason summary)
    then_if moved (do
      note_lead lead "completed"
      tell_kamva env ("Hope spoke to " ⊕ who_is lead)
          (spoke_lines sast_label lead call (who_is lead) reason summary))

  -- A call that has ended, by its outcome.
  unfoldable pub close_call : LeadRow → VapiCall → CallOutcome → Task (Unit {0})
  close_call lead call CallOutcome.no_answer =
      if ltb lead.callback_attempts max_attempts
      then retry_later lead (or_else call.ended_reason "unknown")
      else write_off lead (or_else call.ended_reason "unknown")
  close_call lead call CallOutcome.failed =
      give_up lead ("the call ended with \"" ⊕ or_else call.ended_reason "unknown" ⊕ "\"")
  close_call lead call CallOutcome.completed =
      let summary = present (some (trim (or_else call.summary ""))) in
      if not (is_some summary) && is_newer summary_wait_minutes call.ended_at now
      then pure tt
      else complete lead call (or_else call.ended_reason "unknown") summary

  unfoldable pub report : LeadRow → Reply VapiCall → Task (Unit {0})
  report lead (refused status detail) =
      if status == 404 || is_older stuck_after_minutes lead.callback_attempted_at now
      then give_up lead ("Vapi could not report on the call (" ⊕ vapi_answered status detail ⊕ ")")
      else pure tt
  report lead (silent e) =
      if is_older stuck_after_minutes lead.callback_attempted_at now
      then give_up lead ("Vapi could not report on the call (" ⊕ e ⊕ ")")
      else pure tt
  report lead (told call) =
      if str_eq (or_else call.status "") "ended"
      then close_call lead call (outcome_of call)
      else if is_older stuck_after_minutes lead.callback_attempted_at now
      then give_up lead (
          "the call was still \""
          ⊕ or_else call.status "unknown"
          ⊕ "\" after "
          ⊕ decimal stuck_after_minutes
          ⊕ " minutes")
      else pure tt

  unfoldable pub follow_up_by : LeadRow → Option String → Task (Unit {0})
  follow_up_by lead none =
      if is_older 10 lead.callback_attempted_at now
      then give_up lead "the call was started but never recorded"
      else pure tt
  follow_up_by lead (some id) = get_call id >>= report lead

  unfoldable pub follow_up : LeadRow → Task (Unit {0})
  follow_up lead = follow_up_by lead (present lead.callback_call_id)
