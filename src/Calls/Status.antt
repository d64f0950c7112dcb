-- ===== src/Calls/Status.antt =====
-- The status of a call: `mapStatus` of app/worker/lib/vapi.ts, and the CASE by which the webhook
-- (app/worker/routes/webhook.ts, `upsertCall`) merges the status of an event into the stored one.
use ctf_website.Base.{
  ◌≡◌, ◌⊎◌, Bool, true, false, Option, none, some, String, str_eq, ◌||◌, if◌then◌else◌, arith,
}
use ctf_website.Schema.{CallStatus, ringing, in_progress, transferring, ended}

unfoldable pub map_status : Option String → Option CallStatus
map_status none = none
map_status (some status) =
    if str_eq status "queued" || str_eq status "ringing"
    then some ringing
    else if str_eq status "in-progress"
    then some in_progress
    else if str_eq status "forwarding"
    then some transferring
    else if str_eq status "ended"
    then some ended
    else none

abbrev pub is_ended : CallStatus → Bool
is_ended ended = true
is_ended _ = false

abbrev pub is_transferring : CallStatus → Bool
is_transferring transferring = true
is_transferring _ = false

-- CASE WHEN excluded.status = 'ended' THEN … WHEN calls.status = 'transferring' THEN … END
unfoldable pub merge_status : (stored excluded : CallStatus) → CallStatus
merge_status stored ended = ended
merge_status ended _ = ended
merge_status transferring _ = transferring
merge_status _ excluded = excluded

-- The order in which a call may move: `ended` is final, and `transferring` is left for it only.
abbrev pub MayFollow : (before after : CallStatus) → Type 0
MayFollow before after =
    (before ≡ ended → after ≡ ended)
    × (before ≡ transferring → (after ≡ transferring) ⊎ (after ≡ ended))

pub merge_status-MayFollow :
    (stored excluded : CallStatus) → MayFollow stored (merge_status stored excluded)
unfolding merge_status
merge_status-MayFollow stored excluded = ground arith
