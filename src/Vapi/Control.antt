-- ===== src/Vapi/Control.antt =====
-- Commands to a live call: `postControl`, `transferCall` and `endCall` of app/worker/lib/vapi.ts.
-- `fetch` is the environment's: while a handler waits for it, other requests may write.
use ctf_website.Base.{
  ℕ, String, Bool, false, not, ◌&&◌, ◌==◌, leb, ltb, Option, none, some, if◌then◌else◌,
}
use ctf_website.Http.{
  Exec, HttpError, Result, ok, err, pure, throw_if, upstream_error, lift, ◌>>=◌, ◌>>◌,
}
use ctf_website.Base.Texts.{is_empty, present}

pub data ControlMessage : Type 0 where
  transfer : (destination content : String) → ControlMessage
  end_call : ControlMessage

-- What `fetch` gives: an answer with its status, a wait that was cut off, or another failure.
pub data Answer : Type 0 where
  answered : (status : ℕ) → Answer
  timed_out : Answer
  unreachable : HttpError → Answer

pub record Provider : Type 0 where
  pub post : String → ControlMessage → Exec Answer
  pub delete : String → Exec Answer
  pub private_key : Option String

-- `response.ok`
abbrev pub is_ok : ℕ → Bool
is_ok status = leb 200 status && ltb status 300

abbrev pub check_control : Answer → Result (Unit {0})
check_control (answered status) =
    if is_ok status then ok tt else err (upstream_error "Vapi rejected the command.")
check_control timed_out = err (upstream_error "Vapi did not respond in time.")
check_control (unreachable e) = err e

abbrev pub check_deleted : Answer → Result (Unit {0})
check_deleted (answered status) =
    if not (is_ok status) && not (status == 404)
    then err (upstream_error "Vapi could not end the call.")
    else ok tt
check_deleted timed_out =
    err (upstream_error "Vapi did not answer in time, so the call may still be running.")
check_deleted (unreachable e) =
    err (upstream_error "Vapi did not answer in time, so the call may still be running.")

abbrev pub has_key : Option String → Bool
has_key none = false
has_key (some key) = not (is_empty key)

module _ (provider : Provider) where
  unfoldable pub post_control : String → ControlMessage → Exec (Unit {0})
  post_control url message = do answer ← provider.post url message; lift (check_control answer)

  unfoldable pub transfer_call : (control_url destination content : String) → Exec (Unit {0})
  transfer_call control_url destination content =
      post_control control_url (transfer destination content)

  unfoldable pub delete_call : String → Exec (Unit {0})
  delete_call vapi_call_id = do
    throw_if (not (has_key provider.private_key))
        (upstream_error "Unable to end the call: no Vapi API key is configured.")
    answer ← provider.delete vapi_call_id
    lift (check_deleted answer)

  -- `try { …; return; } catch { … }`: the REST call is made where the control endpoint fails.
  abbrev pub or_delete : String → Answer → Exec (Unit {0})
  or_delete vapi_call_id (answered status) =
      if is_ok status then pure tt else delete_call vapi_call_id
  or_delete vapi_call_id timed_out = delete_call vapi_call_id
  or_delete vapi_call_id (unreachable e) = delete_call vapi_call_id

  abbrev pub end_at : String → Option String → Exec (Unit {0})
  end_at vapi_call_id none = delete_call vapi_call_id
  end_at vapi_call_id (some control_url) = do
    answer ← provider.post control_url end_call
    or_delete vapi_call_id answer

  unfoldable pub end_vapi_call : String → Option String → Exec (Unit {0})
  end_vapi_call vapi_call_id control_url = end_at vapi_call_id (present control_url)
