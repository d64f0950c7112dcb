-- ===== src/Lifecycle/Tests.antt =====
-- The theorems on the life of a call at a live call that is taken over, reported and hung up.
use ctf_website.Execution.{run_calls}
use ctf_website.Base.{◌≡◌, refl, none, some, List, [], ◌∷◌}
use ctf_website.Schema.{Db, CallRow, CallStatus, transferring, ended}
use ctf_website.Http.{ok, Result, err}
use ctf_website.Http.Body.{Body}
use ctf_website.Vapi.Verify.{WebhookHeaders}
use ctf_website.Vapi.Control.{Provider, answered}
use ctf_website.Calls.Advance.{Advances}
use ctf_website.Calls.Routes.{handle_takeover}
use ctf_website.Calls.Takeover.{IsQuiet}
use ctf_website.Webhook.{handle_vapi_webhook}
use ctf_website.Lifecycle.{Reach, here, next, delivery, takeover, Reach-Advances}
use ctf_website.Lifecycle.Race.{handle_takeover-IsTransferring}
use ctf_website.Samples.{clinic_db, naledi_auth, host, live_call}

abbrev shared_secret : WebhookHeaders
shared_secret = record { vapi_secret = some "shhh"; authorization = none; vapi_signature = none }

abbrev one_chunk : Body
one_chunk = record { declared = some 2; chunks = record { byte_length = 2; text = "{}" } ∷ [] }

abbrev prompt : Provider
prompt = record {
  post = λ url message db. (ok (answered 200), db);
  delete = λ id db. (ok (answered 200), db);
  private_key = some "key";
}

prompt-IsQuiet : IsQuiet prompt
prompt-IsQuiet = record { post = λ url message db. refl; delete = λ id db. refl }

-- The database behind a takeover, and behind the report that follows it.
abbrev transferred : Db
transferred = (handle_takeover prompt naledi_auth 90000 "::1" "call_1" none clinic_db).1

abbrev reported : Db
reported = (handle_vapi_webhook host 130000 "call_2" shared_secret one_chunk transferred).1

takeover_and_report : Reach host prompt clinic_db reported
takeover_and_report =
    next (next here (takeover naledi_auth 90000 "::1" "call_1" none (tt, tt)))
      (delivery 130000 "call_2" shared_secret one_chunk)

Reach-Advances_example : Advances clinic_db.calls reported.calls
Reach-Advances_example = Reach-Advances host prompt prompt-IsQuiet takeover_and_report

-- A provider that answers only after the call's report has been delivered.
abbrev racing : Provider
racing = record {
  post = λ url message db.
      (ok (answered 200), (handle_vapi_webhook host 95000 "call_2" shared_secret one_chunk db).1);
  delete = λ id db. (ok (answered 200), db);
  private_key = some "key";
}

abbrev statuses : List CallRow → List CallStatus
statuses [] = []
statuses (call ∷ calls) = call.status ∷ statuses calls

-- The report ends the call, the takeover's UPDATE sets it back.
reported_statuses :
    statuses (handle_vapi_webhook host 95000 "call_2" shared_secret one_chunk clinic_db).1.calls
    ≡ ended ∷ []
unfolding run_calls
reported_statuses = refl

abbrev call_or : CallRow → Result CallRow → CallRow
call_or call (ok answer) = answer
call_or call (err e) = call

abbrev won : CallRow
won = call_or live_call (handle_takeover racing naledi_auth 96000 "::1" "call_1" none clinic_db).0

handle_takeover-IsTransferring_example : won.status ≡ transferring
unfolding run_calls
handle_takeover-IsTransferring_example =
    handle_takeover-IsTransferring racing naledi_auth 96000 "::1" "call_1" none clinic_db won refl
