-- ===== src/Callbacks/Run/Keeps.antt =====
-- What a run keeps (`runCallbacks` of demo/heartbeat/src/callbacks.ts): an invariant of the requests
-- that it is made of.
use ctf_website.Callbacks.Moves.{same_status_sound}
use ctf_website.Base.{
  zero, suc, ℕ, String, Bool, true, false, Option, none, some, List, [], ◌∷◌, ◌≡◌, refl, All,
  filter_where, take, Bool-cases, inl, inr, if_cases, suc, if_both, arith,
}
use ctf_website.Base.Texts.{present}
use ctf_website.Callbacks.World.{
  pure, World, LeadRow, Status, Task, CallbackEnv, Reply, told, refused, silent, VapiCall,
}
use ctf_website.Callbacks.Keeps.{
  Keeps, Keeps-read, Keeps-then, Keeps-bind, Keeps-if, Keeps-pure, Keeps-try_catch,
}
use ctf_website.Callbacks.Outcome.{CallOutcome, outcome_of}
use ctf_website.Callbacks.Number.{south_african_number}
use ctf_website.Callbacks.FollowUp.{
  gave_up, requeued, unreached, spoken_to, give_up, retry_later, write_off, complete, close_call,
  report, follow_up, follow_up_by,
}
use ctf_website.Callbacks.Start.{
  skip, skipped_as, start_call, call_number, claim_and_call, last_spoken, after_spoken, start_with,
}
use ctf_website.Callbacks.Run.Quiet.{
  Patches, IsQuiet, Keeps-note, Keeps-note_lead, Keeps-tell_kamva, Keeps-get_call, Keeps-change,
}
use ctf_website.Callbacks.Run.{
  follow_up_all, skip_all, start_each, start_within, start_calls, run_callbacks, noted, noted_call,
  in_progress, stale_leads, due_leads, order_by, unless_noted, no_notes, log_line, note_if,
  calls_per_run, put_in, comes_first,
}
use ctf_website.Sast.{is_calling_time}

-- An invariant of each request of a run.
pub record IsStable (env : CallbackEnv) (sast_label : ℕ → String) (now : ℕ) (P : World → Type 0)
    : Type 0 where
  pub quiet : IsQuiet P
  pub gives_up :
      (lead : LeadRow) (reason : String)
      → lead.callback_status ≡ some Status.calling
      → Patches P lead (gave_up reason)
  pub retries :
      (lead : LeadRow) (next_at : ℕ) (reason : String)
      → lead.callback_status ≡ some Status.calling
      → Patches P lead (requeued next_at reason)
  pub misses :
      (lead : LeadRow) (reason : String)
      → lead.callback_status ≡ some Status.calling
      → Patches P lead (unreached reason)
  pub completes :
      (lead : LeadRow) (reason : String) (summary : Option String)
      → lead.callback_status ≡ some Status.calling
      → Patches P lead (spoken_to reason summary)
  pub skips :
      (lead : LeadRow) (reason : String)
      → lead.callback_status ≡ some Status.pending
      → Patches P lead (skipped_as reason)
  pub calls :
      (lead : LeadRow) (number : String)
      → is_calling_time now ≡ true
      → lead.callback_status ≡ some Status.pending
      → south_african_number lead.phone ≡ some number
      → Keeps P (claim_and_call env sast_label now lead number)

abbrev HasStatus : Status → LeadRow → Type 0
HasStatus status row = row.callback_status ≡ some status

module _ (P : LeadRow → Type 0) where
  All-filter_where :
      (test : LeadRow → Bool) (rows : List LeadRow)
      → ((row : LeadRow) → test row ≡ true → P row)
      → All P (filter_where test rows)
  unfolding filter_where
  All-filter_where test [] h = tt
  All-filter_where test (row ∷ rows) h = elim (Bool-cases (test row)) [
    | inl hit ↦ rw hit (h row hit, All-filter_where test rows h)
    | inr miss ↦ rw miss (All-filter_where test rows h)
  ]

  All-take : (n : ℕ) (rows : List LeadRow) → All P rows → All P (take n rows)
  All-take zero rows h = tt
  All-take (suc n) [] h = tt
  All-take (suc n) (row ∷ rows) h = (h.0, All-take n rows h.1)

  All-put_in :
      (column : LeadRow → Option ℕ) (row : LeadRow) (rows : List LeadRow)
      → P row
      → All P rows
      → All P (put_in column row rows)
  All-put_in column row [] h hs = (h, tt)
  All-put_in column row (next ∷ rows) h hs =
      if_both (All P) (comes_first (column row) (column next)) (h, hs)
        (hs.0, All-put_in column row rows h hs.1)

  All-order_by :
      (column : LeadRow → Option ℕ) (rows : List LeadRow)
      → All P rows
      → All P (order_by column rows)
  unfolding order_by
  All-order_by column [] h = tt
  All-order_by column (row ∷ rows) h = All-put_in column row _ h.0 (All-order_by column rows h.1)

in_progress-open : (rows : List LeadRow) → All (HasStatus Status.calling) (in_progress rows)
in_progress-open rows =
    All-take _ 20 _
      (All-order_by _ _ _ (All-filter_where _ _ rows (λ row h. same_status_sound _ _ h)))

stale_leads-waiting :
    (cutoff : ℕ) (rows : List LeadRow) → All (HasStatus Status.pending) (stale_leads cutoff rows)
stale_leads-waiting cutoff rows =
    All-take _ 20 _ (All-filter_where _ _ rows (λ row h. same_status_sound _ _ (ground arith)))

due_leads-waiting :
    (cutoff now : ℕ) (rows : List LeadRow)
    → All (HasStatus Status.pending) (due_leads cutoff now rows)
due_leads-waiting cutoff now rows =
    All-take _ calls_per_run _ (
      All-order_by _ _ _
        (All-filter_where _ _ rows (λ row h. same_status_sound _ _ (ground arith))))

module _ (env : CallbackEnv) (sast_label : ℕ → String) (now : ℕ) (P : World → Type 0)
    (stable : IsStable env sast_label now P) where
  module _ (lead : LeadRow) (open_call : lead.callback_status ≡ some Status.calling) where
    Keeps-give_up : (reason : String) → Keeps P (give_up env sast_label now lead reason)
    unfolding give_up
    Keeps-give_up reason =
        Keeps-change env P stable.quiet lead _ _ (stable.gives_up lead reason open_call) (
          Keeps-then _ _ (Keeps-note_lead env P stable.quiet lead _)
            (Keeps-tell_kamva env P stable.quiet _ _))

    Keeps-close_call :
        (call : VapiCall) (outcome : CallOutcome)
        → Keeps P (close_call env sast_label now lead call outcome)
    unfolding close_call retry_later write_off complete
    Keeps-close_call call CallOutcome.no_answer =
        Keeps-if _ _ _
          (Keeps-change env P stable.quiet lead _ _ (stable.retries lead _ _ open_call)
            (Keeps-note_lead env P stable.quiet lead _))
          (Keeps-change env P stable.quiet lead _ _ (stable.misses lead _ open_call) (
            Keeps-then _ _ (Keeps-note_lead env P stable.quiet lead _)
              (Keeps-tell_kamva env P stable.quiet _ _)))
    Keeps-close_call call CallOutcome.failed = Keeps-give_up _
    Keeps-close_call call CallOutcome.completed = Keeps-if _ _ _ (Keeps-pure tt) (
        Keeps-change env P stable.quiet lead _ _ (stable.completes lead _ _ open_call) (
          Keeps-then _ _ (Keeps-note_lead env P stable.quiet lead _)
            (Keeps-tell_kamva env P stable.quiet _ _)))

    Keeps-report : (reply : Reply VapiCall) → Keeps P (report env sast_label now lead reply)
    unfolding report
    Keeps-report (refused status detail) = Keeps-if _ _ _ (Keeps-give_up _) (Keeps-pure tt)
    Keeps-report (silent e) = Keeps-if _ _ _ (Keeps-give_up _) (Keeps-pure tt)
    Keeps-report (told call) =
        Keeps-if _ _ _ (Keeps-close_call call (outcome_of call))
          (Keeps-if _ _ _ (Keeps-give_up _) (Keeps-pure tt))

    Keeps-follow_up : Keeps P (follow_up env sast_label now lead)
    unfolding follow_up follow_up_by
    Keeps-follow_up = go (present lead.callback_call_id)
      where
        go : (id : Option String) → Keeps P (follow_up_by env sast_label now lead id)
        go none = Keeps-if _ _ _ (Keeps-give_up _) (Keeps-pure tt)
        go (some id) = Keeps-bind _ _ (Keeps-get_call env P stable.quiet id) Keeps-report

  module _ (lead : LeadRow) (waiting : lead.callback_status ≡ some Status.pending) where
    Keeps-skip :
        (reason : String) (email : Option (String × List String))
        → Keeps P (skip env sast_label lead reason email)
    unfolding skip
    Keeps-skip reason none =
        Keeps-change env P stable.quiet lead _ _ (stable.skips lead reason waiting)
          (Keeps-then _ _ (Keeps-note_lead env P stable.quiet lead _) (Keeps-pure tt))
    Keeps-skip reason (some (subject, lines)) =
        Keeps-change env P stable.quiet lead _ _ (stable.skips lead reason waiting) (
          Keeps-then _ _ (Keeps-note_lead env P stable.quiet lead _)
            (Keeps-tell_kamva env P stable.quiet _ _))

    Keeps-call_number :
        (number : String)
        → is_calling_time now ≡ true
        → south_african_number lead.phone ≡ some number
        → Keeps P (call_number env sast_label now lead number)
    unfolding call_number after_spoken
    Keeps-call_number number hours dialled =
        Keeps-read stable.quiet.turns _ _ (λ rows. spoken (last_spoken number _ lead.id rows))
      where
        spoken : (at : Option ℕ) → Keeps P (after_spoken env sast_label now lead number at)
        spoken none = stable.calls lead number hours waiting dialled
        spoken (some at) = Keeps-then _ _ (Keeps-skip _ _) (Keeps-pure false)

    Keeps-start_call : is_calling_time now ≡ true → Keeps P (start_call env sast_label now lead)
    unfolding start_call start_with
    Keeps-start_call hours =
        Keeps-if _ _ _ (Keeps-then _ _ (Keeps-skip _ _) (Keeps-pure false))
          (go (south_african_number lead.phone) refl)
      where
        go :
            (number : Option String)
            → south_african_number lead.phone ≡ number
            → Keeps P (start_with env sast_label now lead number)
        go none missing = Keeps-then _ _ (Keeps-skip _ _) (Keeps-pure false)
        go (some number) found = Keeps-call_number number hours found

  Keeps-noted : (lead : LeadRow) (m : Task (Unit {0})) → Keeps P m → Keeps P (noted lead m)
  unfolding noted
  Keeps-noted lead m h = Keeps-try_catch m _ h (Keeps-note_lead env P stable.quiet lead)

  Keeps-noted_call : (lead : LeadRow) (m : Task Bool) → Keeps P m → Keeps P (noted_call lead m)
  unfolding noted_call
  Keeps-noted_call lead m h =
      Keeps-try_catch m _ h
        (λ e. Keeps-then _ _ (Keeps-note_lead env P stable.quiet lead e) (Keeps-pure false))

  Keeps-follow_up_all :
      (leads : List LeadRow)
      → All (HasStatus Status.calling) leads
      → Keeps P (follow_up_all env sast_label now leads)
  unfolding follow_up_all
  Keeps-follow_up_all [] h = Keeps-pure tt
  Keeps-follow_up_all (lead ∷ rest) h =
      Keeps-then _ _ (Keeps-noted lead _ (Keeps-follow_up lead h.0)) (Keeps-follow_up_all rest h.1)

  Keeps-skip_all :
      (leads : List LeadRow)
      → All (HasStatus Status.pending) leads
      → Keeps P (skip_all env sast_label now leads)
  unfolding skip_all
  Keeps-skip_all [] h = Keeps-pure tt
  Keeps-skip_all (lead ∷ rest) h =
      Keeps-then _ _ (Keeps-skip lead h.0 _ _) (Keeps-skip_all rest h.1)

  Keeps-start_each :
      (leads : List LeadRow) (budget : ℕ)
      → is_calling_time now ≡ true
      → All (HasStatus Status.pending) leads
      → Keeps P (start_each env sast_label now leads budget)
  unfolding start_each
  Keeps-start_each [] budget hours h = Keeps-pure tt
  Keeps-start_each (lead ∷ rest) zero hours h = Keeps-pure tt
  Keeps-start_each (lead ∷ rest) (suc budget) hours h =
      Keeps-bind _ _ (Keeps-noted_call lead _ (Keeps-start_call lead h.0 hours))
        (λ called. Keeps-start_each rest _ hours h.1)

  Keeps-start_within :
      (cutoff budget : ℕ)
      → is_calling_time now ≡ true
      → Keeps P (start_within env sast_label now cutoff budget)
  unfolding start_within
  Keeps-start_within cutoff zero hours = Keeps-note env P stable.quiet _
  Keeps-start_within cutoff (suc budget) hours =
      Keeps-read stable.quiet.turns _ _
        (λ rows. Keeps-start_each _ _ hours (due_leads-waiting cutoff now rows))

  Keeps-start_calls : is_calling_time now ≡ true → Keeps P (start_calls env sast_label now)
  unfolding start_calls
  Keeps-start_calls hours = Keeps-read stable.quiet.turns _ _ (λ rows.
      Keeps-then _ _ (Keeps-skip_all _ (stale_leads-waiting _ rows))
        (Keeps-read stable.quiet.turns _ _ (λ later. Keeps-start_within _ _ hours)))

  Keeps-unless_noted : (line : String) → Keeps P (unless_noted line)
  unfolding unless_noted pure
  Keeps-unless_noted line = record { at = λ w h. go w.notes w h }
    where
      go : (notes : List String) (w : World) → P w → P (note_if notes line w).1
      go [] w h = (Keeps-note env P stable.quiet line).at w h
      go (other ∷ others) w h = h

  -- A run keeps what each of its requests keeps.
  pub Keeps-run_callbacks : Keeps P (run_callbacks env sast_label now)
  unfolding run_callbacks no_notes log_line
  Keeps-run_callbacks =
      Keeps-if _ _ _
        (Keeps-then _ _ (record { at = stable.quiet.notes [] })
          (Keeps-read stable.quiet.turns _ _ (λ rows.
            Keeps-then _ _ (Keeps-follow_up_all _ (in_progress-open rows)) (
              Keeps-then _ _
                (if_cases (Keeps P) (is_calling_time now) Keeps-start_calls
                  (λ _. Keeps-unless_noted _))
                (record { at = λ w h. h })))))
        (Keeps-pure _)
