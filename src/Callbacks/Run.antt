-- ===== src/Callbacks/Run.antt =====
-- `startCalls` and `runCallbacks` of demo/heartbeat/src/callbacks.ts: one run of the worker.
pub mod Course
pub mod Hours
pub mod Quiet
pub mod Keeps
pub mod Calling
use ctf_website.Base.{
  ℕ, suc, zero, ◌-◌, ◌*◌, min, String, Bool, true, false, ◌&&◌, Option, none, some, List, [], ◌∷◌,
  ltb, leb, if◌then◌else◌, is_some, length, take, filter_where,
}
use ctf_website.Callbacks.World.{
  LeadRow, Status, Task, Result, ◌>>=◌, ◌>>◌, pure, note, read_leads, try_catch, CallbackEnv,
  is_configured, same_status,
}
use ctf_website.Callbacks.FollowUp.{follow_up, note_lead}
use ctf_website.Callbacks.Letters.{◌⊕◌, decimal, who_is}
use ctf_website.Callbacks.Start.{skip, start_call, minutes_back, is_since}
use ctf_website.Sast.{is_calling_time}

abbrev pub calls_per_run : ℕ
calls_per_run = 3

abbrev pub daily_people_cap : ℕ
daily_people_cap = 20

abbrev pub max_lead_age_days : ℕ
max_lead_age_days = 5

abbrev pub is_at : Status → LeadRow → Bool
is_at status row = same_status row.callback_status (some status)

-- `order=column.asc`, nulls last, rows with one time in the table's order.
abbrev pub comes_first : Option ℕ → Option ℕ → Bool
comes_first none none = true
comes_first none (some b) = false
comes_first (some a) none = true
comes_first (some a) (some b) = leb a b

abbrev pub put_in : (LeadRow → Option ℕ) → LeadRow → List LeadRow → List LeadRow
put_in column row [] = row ∷ []
put_in column row (next ∷ rows) =
    if comes_first (column row) (column next)
    then row ∷ next ∷ rows
    else next ∷ put_in column row rows

unfoldable pub order_by : (LeadRow → Option ℕ) → List LeadRow → List LeadRow
order_by column [] = []
order_by column (row ∷ rows) = put_in column row (order_by column rows)

abbrev pub in_progress : List LeadRow → List LeadRow
in_progress rows =
    take 20 (order_by (λ row. row.callback_attempted_at) (filter_where (is_at Status.calling) rows))

-- What the queries of `startCalls` select, from the time `cutoff` before which a lead is too old.
abbrev is_stale : ℕ → LeadRow → Bool
is_stale cutoff row = is_at Status.pending row && ltb row.created_at cutoff

abbrev pub stale_leads : ℕ → List LeadRow → List LeadRow
stale_leads cutoff rows = take 20 (filter_where (is_stale cutoff) rows)

abbrev pub called_since : ℕ → List LeadRow → ℕ
called_since time rows =
    min daily_people_cap
      (length (filter_where (λ row. is_since time row.callback_attempted_at) rows))

abbrev may_be_called : Option ℕ → ℕ → Bool
may_be_called none now = true
may_be_called (some at) now = leb at now

abbrev pub is_due : ℕ → ℕ → LeadRow → Bool
is_due cutoff now row =
    is_at Status.pending row && leb cutoff row.created_at && may_be_called row.callback_next_at now

abbrev pub due_leads : ℕ → ℕ → List LeadRow → List LeadRow
due_leads cutoff now rows =
    take calls_per_run
      (order_by (λ row. some row.created_at) (filter_where (is_due cutoff now) rows))

-- `notes.push` of an error instead of the error.
unfoldable pub noted : LeadRow → Task (Unit {0}) → Task (Unit {0})
noted lead m = try_catch m (note_lead lead)

unfoldable pub noted_call : LeadRow → Task Bool → Task Bool
noted_call lead m = try_catch m (λ e. note_lead lead e >> pure false)

unfoldable pub too_old : LeadRow → Option (String × List String)
too_old lead =
    if is_some lead.contacted_at
    then none
    else some (
      "Hope didn't call " ⊕ who_is lead ⊕ " — please call them yourself",
      (who_is lead
            ⊕ "'s callback request is more than "
            ⊕ decimal max_lead_age_days
            ⊕ " days old, too old for Hope to call out of the blue.")
          ∷ [],
    )

abbrev join_notes : List String → String
join_notes [] = "nothing to do"
join_notes (line ∷ []) = line
join_notes (line ∷ next ∷ rest) = line ⊕ "; " ⊕ join_notes (next ∷ rest)

unfoldable pub no_notes : Task (Unit {0})
no_notes w = (Result.ok tt, record w { notes = [] })

abbrev pub note_if : List String → String → Task (Unit {0})
note_if [] line = note line
note_if (other ∷ others) line = pure tt

unfoldable pub unless_noted : String → Task (Unit {0})
unless_noted line w = note_if w.notes line w

unfoldable pub log_line : Task String
log_line w = (Result.ok (join_notes w.notes), w)

module _ (env : CallbackEnv) (sast_label : ℕ → String) (now : ℕ) where
  unfoldable pub follow_up_all : List LeadRow → Task (Unit {0})
  follow_up_all [] = pure tt
  follow_up_all (lead ∷ rest) = noted lead (follow_up env sast_label now lead) >> follow_up_all rest

  unfoldable pub skip_all : List LeadRow → Task (Unit {0})
  skip_all [] = pure tt
  skip_all (lead ∷ rest) =
      skip env sast_label lead ("more than " ⊕ decimal max_lead_age_days ⊕ " days old")
        (too_old lead)
      >> skip_all rest

  unfoldable pub start_each : List LeadRow → ℕ → Task (Unit {0})
  start_each [] budget = pure tt
  start_each (lead ∷ rest) zero = pure tt
  start_each (lead ∷ rest) (suc budget) =
      noted_call lead (start_call env sast_label now lead) >>= λ called.
      start_each rest (if called then budget else suc budget)

  unfoldable pub start_within : ℕ → ℕ → Task (Unit {0})
  start_within cutoff zero = note "daily cap reached"
  start_within cutoff (suc budget) =
      read_leads (due_leads cutoff now) >>= λ due. start_each due (suc budget)

  unfoldable pub start_calls : Task (Unit {0})
  start_calls = do
    let cutoff = minutes_back now (max_lead_age_days * 24 * 60)
    stale ← read_leads (stale_leads cutoff)
    skip_all stale
    called ← read_leads (called_since (minutes_back now (24 * 60)))
    start_within cutoff (daily_people_cap - called)

  unfoldable pub run_callbacks : Task String
  run_callbacks =
      if is_configured env
      then (do
        no_notes
        in_progress_now ← read_leads in_progress
        follow_up_all in_progress_now
        if is_calling_time now then start_calls else unless_noted "outside calling hours"
        log_line)
      else pure "off (the Vapi secrets are not set)"
