-- ===== src/Execution.antt =====
-- The definitions that a run of the call handlers computes with: the tests unfold this one name.
use ctf_website.Http.{exec}
use ctf_website.Webhook.{
  handle_vapi_webhook, deliver_payload, deliver_event, deliver_call, deliver, unless_seen,
  first_delivery, for_org, persist_transcript, backfill, append_lines, resolve_org,
}
use ctf_website.Http.Body.{read_body}
use ctf_website.Stats.{bump_stats_version}
use ctf_website.Base.{find_first, update_where, count_where}
use ctf_website.Vapi.Phone.{to_e164}
use ctf_website.Crypto.{timing_safe_equal}
use ctf_website.Vapi.Verify.{verify_webhook, presented_secrets}
use ctf_website.Base.Texts.{
  trim, trim_start, trim_end, is_space, mentions, to_lower, remove, starts_with,
}
use ctf_website.Vapi.Json.{str, num, to_millis}
use ctf_website.Vapi.Event.{
  normalize_event, rooted_event, typed_event, build_event, extract_transcript, role_to_speaker,
}
use ctf_website.Vapi.Outcome.{derive_outcome, is_missed_reason, is_handed_over_reason}
use ctf_website.Calls.Finalize.{
  finalize_call, finalize_found, final_call, intent_of, rounded_seconds,
}
use ctf_website.Calls.Status.{merge_status, map_status}
use ctf_website.Calls.Upsert.{upsert_call, upsert_row, merge_call, excluded_call}
use ctf_website.Permissions.{require_permission, can, permissions_for}
use ctf_website.Audit.{write_audit}
use ctf_website.Calls.Transcript.{
  append_transcript_line, append_line, insert_line, next_line, max_seq,
}
use ctf_website.Vapi.Control.{transfer_call, post_control}
use ctf_website.Calls.Routes.{
  handle_takeover, ring, load_call, taken_over, handle_end_call, ended_by_staff, audit_call,
}

unfoldable pub run_calls : Unit {0}
unfolding handle_takeover ring load_call taken_over transfer_call post_control
    append_transcript_line append_line insert_line next_line max_seq write_audit require_permission
    can permissions_for handle_end_call ended_by_staff upsert_call upsert_row merge_call
    excluded_call merge_status map_status finalize_call finalize_found final_call intent_of
    rounded_seconds derive_outcome is_missed_reason is_handed_over_reason normalize_event
    rooted_event typed_event build_event extract_transcript role_to_speaker str num to_millis trim
    trim_start trim_end is_space mentions to_lower verify_webhook presented_secrets
    timing_safe_equal to_e164 remove starts_with find_first update_where count_where
    bump_stats_version read_body handle_vapi_webhook deliver_payload deliver_event deliver_call
    deliver unless_seen first_delivery for_org persist_transcript backfill append_lines resolve_org
    exec audit_call
run_calls = tt
