-- ===== src/Callbacks/Execution.antt =====
-- One name for the functions of the call-back worker, for runs at concrete input
-- (demo/heartbeat/src/callbacks.ts).
use ctf_website.Base.{filter_where, find_first, update_where}
use ctf_website.Base.Texts.{is_space, remove, trim, trim_start, trim_end, starts_with}
use ctf_website.Callbacks.World.{
  ◌>>=◌, ◌>>◌, pure, note, read_leads, try_catch, update_lead, get_call, post_call, tell_kamva,
  is_configured, is_unmoved,
}
use ctf_website.Callbacks.Clean.{clean, clean_text, header_safe}
use ctf_website.Callbacks.Number.{south_african_number}
use ctf_website.Callbacks.Outcome.{outcome_of}
use ctf_website.Callbacks.Letters.{
  decimal, gave_up_lines, lead_details, spoke_lines, supabase_note, unreached_lines, who_is,
}
use ctf_website.Callbacks.FollowUp.{
  close_call, complete, follow_up, follow_up_by, give_up, note_lead, report, retry_later, then_if,
  write_off,
}
use ctf_website.Callbacks.Start.{
  start_call, start_with, after_spoken, back_in_queue, call_number, claim_and_call, hand_over,
  last_spoken, placed, skip,
}
use ctf_website.Callbacks.Run.{
  run_callbacks, follow_up_all, start_calls, start_within, start_each, skip_all, noted, noted_call,
  no_notes, log_line, unless_noted, order_by, too_old,
}
use ctf_website.Sast.{is_calling_time}

unfoldable pub run_worker : Unit {0}
unfolding filter_where find_first update_where is_space remove trim trim_start trim_end starts_with
    ◌>>=◌ ◌>>◌ pure note read_leads try_catch update_lead get_call post_call tell_kamva
    is_configured is_unmoved clean clean_text header_safe south_african_number outcome_of decimal
    gave_up_lines lead_details spoke_lines supabase_note unreached_lines who_is close_call complete
    follow_up follow_up_by give_up note_lead report retry_later then_if write_off start_call
    start_with after_spoken back_in_queue call_number claim_and_call hand_over last_spoken placed
    skip run_callbacks follow_up_all start_calls start_within start_each skip_all noted noted_call
    no_notes log_line unless_noted order_by too_old is_calling_time
run_worker = tt
