-- ===== src/Calls/Upsert.antt =====
-- `upsertCall` of app/worker/routes/webhook.ts.
use ctf_website.Base.{
  ℕ, String, str_eq, Bool, true, false, none, List, [], ◌∷◌, ◌++◌, coalesce, or_else, if◌then◌else◌,
  find_first, update_where, is_some,
}
use ctf_website.Schema.{OrgRow, CallRow, in_progress}
use ctf_website.Http.{Exec, HttpError, pure, select, write, require, ◌>>=◌, ◌>>◌}
use ctf_website.Vapi.Event.{Event}
use ctf_website.Calls.Status.{map_status, merge_status}
use ctf_website.Stats.{bump_stats_version}

abbrev pub of_vapi_call : String → CallRow → Bool
of_vapi_call vapi_call_id call = str_eq call.vapi_call_id vapi_call_id

-- The row that the statement would insert; columns that it does not name are NULL.
unfoldable pub excluded_call : (id org_id vapi_call_id : String) → ℕ → Event → CallRow
excluded_call id org_id vapi_call_id now event = record {
  id = id;
  org_id = org_id;
  vapi_call_id = vapi_call_id;
  control_url = event.control_url;
  listen_url = event.listen_url;
  status = or_else (map_status event.status) in_progress;
  caller_name = event.caller_name;
  caller_number = event.caller_number;
  started_at = or_else event.started_at now;
  answered_at = none;
  ended_at = none;
  duration_s = none;
  intent = none;
  outcome = none;
  service = none;
  booking_when = none;
  summary = none;
  recording_url = none;
  ended_reason = none;
  taken_over_by = none;
  taken_over_at = none;
  transfer_to = none;
  updated_at = now;
}

-- ON CONFLICT (vapi_call_id) DO UPDATE SET …
unfoldable pub merge_call : CallRow → CallRow → CallRow
merge_call excluded call = record call {
  control_url = coalesce excluded.control_url call.control_url;
  listen_url = coalesce excluded.listen_url call.listen_url;
  caller_name = coalesce excluded.caller_name call.caller_name;
  caller_number = coalesce excluded.caller_number call.caller_number;
  status = merge_status call.status excluded.status;
  updated_at = excluded.updated_at;
}

unfoldable pub upsert_row : CallRow → List CallRow → List CallRow
unfolding merge_call
upsert_row excluded calls =
    if is_some (find_first (of_vapi_call excluded.vapi_call_id) calls)
    then update_where (of_vapi_call excluded.vapi_call_id) (merge_call excluded) calls
    else calls ++ excluded ∷ []

abbrev missing_call : HttpError
missing_call = record {
  status = 500;
  code = "internal_error";
  message = "Something went wrong on our side. Please try again.";
  retry_after = none;
}

abbrev pub bump_if : Bool → String → Exec (Unit {0})
bump_if true org_id = bump_stats_version org_id
bump_if false org_id = pure tt

-- `id` is the fresh id of a row that may be created.
unfoldable pub upsert_call : (id vapi_call_id : String) → ℕ → OrgRow → Event → Exec CallRow
upsert_call id vapi_call_id now org event = do
  write (λ db. record db {
    calls = upsert_row (excluded_call id org.id vapi_call_id now event) db.calls;
  })
  found ← select (λ db. find_first (of_vapi_call vapi_call_id) db.calls)
  row ← require found missing_call
  bump_if (str_eq row.id id) org.id
  pure row
