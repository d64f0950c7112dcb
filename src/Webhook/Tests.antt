-- ===== src/Webhook/Tests.antt =====
-- A report that is delivered twice, and pruning on the next day in between.
use ctf_website.Auth.Limiter.{prune_expired}
use ctf_website.Schema.{Db}
use ctf_website.Base.{◌∷◌, []}
use ctf_website.Samples.{host, clinic_db}
use ctf_website.Vapi.Verify.{WebhookHeaders}
use ctf_website.Http.Body.{Body}
use ctf_website.Webhook.{handle_vapi_webhook, some, none}

shared_secret : WebhookHeaders
shared_secret = record { vapi_secret = some "shhh"; authorization = none; vapi_signature = none }

abbrev one_chunk : Body
one_chunk = record { declared = some 2; chunks = record { byte_length = 2; text = "{}" } ∷ [] }

-- Another message was received five seconds before.
abbrev busy_db : Db
busy_db = record clinic_db {
  webhook_events = record { id = "message_0"; received_at = 90000 } ∷ [];
}

abbrev next_day : Db
next_day =
    (prune_expired 86490000
      (handle_vapi_webhook host 95000 "call_2" shared_secret one_chunk busy_db).1).1
