-- ===== src/Callbacks/Start.antt =====
-- `skip` and `startCall` of demo/heartbeat/src/callbacks.ts.
use ctf_website.Callbacks.Clean.{clean}
use ctf_website.Base.{
  ℕ, ◌+◌, ◌-◌, ◌*◌, max, String, Bool, true, false, not, ◌&&◌, ◌||◌, Option, none, some, List, [],
  ◌∷◌, ◌++◌, leb, ◌==◌, if◌then◌else◌, or_else, is_some, str_eq,
}
use ctf_website.Base.Texts.{take_text, present}
use ctf_website.Callbacks.Number.{south_african_number}
use ctf_website.Callbacks.World.{
  LeadRow, Status, Reply, told, refused, silent, Task, ◌>>=◌, ◌>>◌, pure, update_lead, read_leads,
  post_call, tell_kamva, CallbackEnv, same_status,
}
use ctf_website.Callbacks.FollowUp.{note_lead, then_if, minutes_on, vapi_answered}
use ctf_website.Callbacks.Letters.{◌⊕◌, decimal, who_is, lead_details, supabase_note}

abbrev pub spoke_recently_days : ℕ
spoke_recently_days = 7

abbrev pub vapi_down_retry_minutes : ℕ
vapi_down_retry_minutes = 15

-- `isoIn(now, -minutes)`
abbrev pub minutes_back : ℕ → ℕ → ℕ
minutes_back now minutes = now - minutes * 60000

-- `column=gte.time`, which no row without a time passes.
abbrev pub is_since : ℕ → Option ℕ → Bool
is_since time none = false
is_since time (some at) = leb time at

abbrev pub skipped_as : String → LeadRow → LeadRow
skipped_as reason row = record row {
  callback_status = some Status.skipped;
  callback_ended_reason = some reason;
}

abbrev pub claimed : ℕ → String → LeadRow → LeadRow
claimed now number row = record row {
  callback_status = some Status.calling;
  callback_attempted_at = some now;
  callback_number = some number;
  callback_call_id = none;
  callback_ended_reason = none;
}

abbrev pub put_back : ℕ → String → LeadRow → LeadRow
put_back next_at reason row = record row {
  callback_status = some Status.pending;
  callback_next_at = some next_at;
  callback_ended_reason = some (take_text 500 reason);
}

abbrev pub not_started : ℕ → String → LeadRow → LeadRow
not_started attempt reason row = record row {
  callback_status = some Status.failed;
  callback_attempts = attempt;
  callback_ended_reason = some (take_text 500 reason);
}

abbrev pub under_way : String → ℕ → LeadRow → LeadRow
under_way id attempt row = record row { callback_call_id = some id; callback_attempts = attempt }

-- The latest time that Hope spoke to a number since `since`, another lead's calls only.
abbrev is_spoken_to : String → ℕ → String → LeadRow → Bool
is_spoken_to number since id row =
    same_status row.callback_status (some Status.completed)
    && is_since since row.callback_attempted_at
    && not (str_eq row.id id)
    && str_eq (or_else row.callback_number "") number

abbrev later : Option ℕ → Option ℕ → Option ℕ
later none b = b
later (some a) none = some a
later (some a) (some b) = some (max a b)

unfoldable pub last_spoken : String → ℕ → String → List LeadRow → Option ℕ
last_spoken number since id [] = none
last_spoken number since id (row ∷ rows) =
    later (if is_spoken_to number since id row then row.callback_attempted_at else none)
      (last_spoken number since id rows)

abbrev pub as_calling : ℕ → LeadRow → LeadRow
as_calling now lead = record lead {
  callback_status = some Status.calling;
  callback_attempted_at = some now;
}

module _ (env : CallbackEnv) (sast_label : ℕ → String) where
  unfoldable pub skip : LeadRow → String → Option (String × List String) → Task (Unit {0})
  skip lead reason email = do
    moved ← update_lead lead (skipped_as reason)
    then_if moved (do
      note_lead lead ("skipped (" ⊕ reason ⊕ ")")
      elim email [
        | none ↦ pure tt
        | some (subject, lines) ↦
            tell_kamva env subject
              (lines ++ "" ∷ (lead_details sast_label lead ++ "" ∷ supabase_note ∷ []))
      ])

  module _ (now : ℕ) where
    unfoldable pub back_in_queue : LeadRow → String → Task Bool
    back_in_queue lead message = do
      _ ←
          update_lead (as_calling now lead)
            (put_back (minutes_on now vapi_down_retry_minutes) ("Vapi unavailable: " ⊕ message))
      note_lead lead "Vapi unavailable, trying again later"
      pure false

    unfoldable pub hand_over : LeadRow → ℕ → String → String → Task Bool
    hand_over lead attempt reason advice = do
      moved ← update_lead (as_calling now lead) (not_started attempt reason)
      then_if moved (do
        note_lead lead "failed to start"
        tell_kamva env ("Hope couldn't call " ⊕ who_is lead ⊕ " — please call them") (
            ("Hope tried to return "
              ⊕ who_is lead
              ⊕ "'s callback request, but the call could not be started.")
            ∷ ""
            ∷ reason
            ∷ ""
            ∷ advice
            ∷ ""
            ∷ (lead_details sast_label lead ++ "" ∷ supabase_note ∷ [])))
      pure false

    unfoldable pub placed : LeadRow → ℕ → Reply String → Task Bool
    placed lead attempt (told id) = do
      _ ← update_lead (as_calling now lead) (under_way id attempt)
      note_lead lead ("calling (attempt " ⊕ decimal attempt ⊕ ")")
      pure true
    placed lead attempt (refused status detail) =
        if leb 500 status || status == 429
        then back_in_queue lead (vapi_answered status detail)
        else hand_over lead attempt ("Vapi refused the call: " ⊕ vapi_answered status detail)
            "This usually means a Vapi setting needs attention (the key, the phone number, or credit). Until it is fixed, every callback will fail the same way."
    placed lead attempt (silent e) =
        hand_over lead attempt
          ("no answer from Vapi, so the call may or may not have gone out (" ⊕ e ⊕ ")") ""

    unfoldable pub claim_and_call : LeadRow → String → Task Bool
    claim_and_call lead number = do
      mine ← update_lead lead (claimed now number)
      if mine
          then (do
            reply ← post_call (record {
              lead_id = lead.id;
              number = number;
              name = present (some (clean (some lead.name) 40));
              attempt = lead.callback_attempts + 1;
            })
            placed lead (lead.callback_attempts + 1) reply)
          else pure false

    abbrev then_false : Task (Unit {0}) → Task Bool
    then_false m = m >> pure false

    unfoldable pub after_spoken : LeadRow → String → Option ℕ → Task Bool
    after_spoken lead number none = claim_and_call lead number
    after_spoken lead number (some at) = then_false (
        skip lead ("Hope spoke to this number on " ⊕ sast_label at) (
          some (
            "Hope didn't call " ⊕ who_is lead ⊕ " again — they asked for another callback",
            (who_is lead
                  ⊕ " asked for a callback again. Hope already spoke to this number on "
                  ⊕ sast_label at
                  ⊕ ", so she did not call a second time.")
                ∷ "Her notes from that call were emailed then. They are probably waiting to hear from you."
                ∷ [],
          )))

    unfoldable pub call_number : LeadRow → String → Task Bool
    call_number lead number =
        read_leads (last_spoken number (minutes_back now (spoke_recently_days * 24 * 60)) lead.id)
        >>= after_spoken lead number

    unfoldable pub start_with : LeadRow → Option String → Task Bool
    start_with lead (some number) = call_number lead number
    start_with lead none = then_false (
        skip lead "not a South African number" (
          some (
            "Hope didn't call " ⊕ who_is lead ⊕ " — please call them yourself",
            ("Hope only calls South African numbers, and \""
                  ⊕ or_else lead.phone ""
                  ⊕ "\" is not one she can dial.")
                ∷ [],
          )))

    unfoldable pub start_call : LeadRow → Task Bool
    start_call lead =
        if is_some lead.contacted_at
        then then_false (skip lead "already contacted by the team" none)
        else start_with lead (south_african_number lead.phone)
