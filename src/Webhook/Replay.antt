-- ===== src/Webhook/Replay.antt =====
-- A request that is sent again: Vapi repeats a message, byte for byte, until it is acknowledged.
use ctf_website.Base.{◌≡◌, Option, none, some}
use ctf_website.Http.Body.{Body}
use ctf_website.Vapi.Json.{Json}
use ctf_website.Vapi.Event.{Event}

-- Two readings of one message, which only the clock tells apart.
abbrev SameMessage : Option Event → Option Event → Type 0
SameMessage none none = Unit
SameMessage (some e) (some e') = (e.message_id ≡ e'.message_id) × (e.vapi_call_id ≡ e'.vapi_call_id)
SameMessage none (some e') = ⊥
SameMessage (some e) none = ⊥
