-- ===== src/Calls/Routes.antt =====
-- The handlers of app/worker/routes/calls.ts that act on one live call. `now` is the clock after
-- the provider has answered.
use Prim.Native.String.{◌++◌ as append_text}
use ctf_website.Base.{
  ℕ, suc, ◌/◌, String, Option, none, some, coalesce, or_else, is_some, find_first, update_where,
  if◌then◌else◌,
}
use ctf_website.Base.Int.{ℤ, sub_ℕ, pos, negsuc}
use ctf_website.Base.Texts.{present}
use ctf_website.Schema.{CallRow, ended, transferring, inquiry, resolved, system, AuditRow}
use ctf_website.Http.{
  Exec, throw_if, require, select, write, not_found, conflict, bad_request, ◌>>=◌, ◌>>◌,
}
use ctf_website.Auth.{AuthContext}
use ctf_website.Audit.{write_audit}
use ctf_website.Permissions.{calls_control, require_permission}
use ctf_website.Stats.{bump_stats_version}
use ctf_website.Vapi.Control.{Provider, transfer_call, end_vapi_call}
use ctf_website.Vapi.Phone.{to_e164}
use ctf_website.Calls.Status.{is_ended, is_transferring}
use ctf_website.Calls.Transcript.{append_transcript_line}
use ctf_website.Calls.Finalize.{owned_call}

unfoldable pub load_call : (org_id call_id : String) → Exec CallRow
load_call org_id call_id = do
  found ← select (λ db. find_first (owned_call call_id org_id) db.calls)
  require found (not_found "That call could not be found.")

-- SET status = 'transferring', taken_over_by = ?, taken_over_at = ?, transfer_to = ?, …
unfoldable pub taken_over : (user_id destination : String) → ℕ → CallRow → CallRow
taken_over user_id destination now call = record call {
  status = transferring;
  taken_over_by = some user_id;
  taken_over_at = some now;
  transfer_to = some destination;
  updated_at = now;
}

unfoldable pub audit_call : AuthContext → String → CallRow → Option String → String → ℕ → AuditRow
audit_call auth action call detail ip now = record {
  org_id = some auth.org.id;
  user_id = some auth.user.id;
  action = action;
  target = some call.id;
  detail = detail;
  ip = some ip;
  created_at = now;
}

abbrev handoff_line : String
handoff_line = "Let me put you through to a colleague now, please hold."

module _ (provider : Provider) where
  -- The part of the takeover that is behind the checks.
  unfoldable pub ring :
      AuthContext → ℕ → String → CallRow → (control_url destination : String) → Exec CallRow
  ring auth now ip call control_url destination = do
    transfer_call provider control_url destination handoff_line
    write (λ db. record db {
      calls =
          update_where (owned_call call.id auth.org.id) (taken_over auth.user.id destination now)
            db.calls;
    })
    append_transcript_line call system
        (append_text auth.user.name (append_text " took over — ringing " destination)) now
    write_audit (audit_call auth "call.takeover" call (some destination) ip now)
    load_call auth.org.id call.id

  -- `requested` is `body.number` where it is a text.
  unfoldable pub handle_takeover :
      AuthContext → ℕ → String → (call_id : String) → Option String → Exec CallRow
  handle_takeover auth now ip call_id requested = do
    require_permission auth.user.role calls_control
    call ← load_call auth.org.id call_id
    throw_if (is_ended call.status) (conflict "That call has already ended.")
    throw_if (is_transferring call.status)
        (conflict "This call is already being transferred to a colleague.")
    control_url ←
        require (present call.control_url)
          (conflict "This call can no longer be controlled. It may have just ended.")
    candidate ←
        require (present (coalesce requested (coalesce auth.user.phone auth.org.takeover_number))) (
          bad_request
            "No phone number to ring. Add a mobile number to your profile before taking over a call.")
    destination ←
        require (to_e164 candidate)
          (bad_request (append_text "\"" (append_text candidate "\" is not a valid phone number.")))
    ring auth now ip call control_url destination

-- CAST(… / 1000 AS INTEGER): the quotient of whole numbers, cut towards zero.
abbrev whole_seconds : ℤ → ℤ
whole_seconds (pos ms) = pos (ms / 1000)
whole_seconds (negsuc ms) = sub_ℕ 0 (suc ms / 1000)

unfoldable pub ended_by_staff : ℕ → CallRow → CallRow
ended_by_staff now call = record call {
  status = ended;
  ended_at = coalesce call.ended_at (some now);
  duration_s =
      coalesce call.duration_s
        (some (whole_seconds (sub_ℕ (or_else call.ended_at now) call.started_at)));
  outcome = coalesce call.outcome (some (if is_some call.taken_over_by then resolved else inquiry));
  ended_reason = coalesce call.ended_reason (some "ended-by-staff");
  control_url = none;
  updated_at = now;
}

module _ (provider : Provider) where
  unfoldable pub handle_end_call : AuthContext → ℕ → String → (call_id : String) → Exec CallRow
  handle_end_call auth now ip call_id = do
    require_permission auth.user.role calls_control
    call ← load_call auth.org.id call_id
    throw_if (is_ended call.status) (conflict "That call has already ended.")
    end_vapi_call provider call.vapi_call_id call.control_url
    write (λ db. record db {
      calls = update_where (owned_call call.id auth.org.id) (ended_by_staff now) db.calls;
    })
    bump_stats_version auth.org.id
    append_transcript_line call system (append_text "Call ended by " auth.user.name) now
    write_audit (audit_call auth "call.end" call none ip now)
    load_call auth.org.id call.id
