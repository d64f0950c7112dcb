-- ===== src/Vapi/Outcome.antt =====
-- `deriveOutcome` of app/worker/lib/vapi.ts.
use ctf_website.Base.{
  ltb, String, str_eq, Bool, true, false, ◌||◌, ◌&&◌, Option, none, some, or_else, coalesce,
  is_some, if◌then◌else◌,
}
use ctf_website.Base.Int.{ℤ, pos, negsuc}
use ctf_website.Base.Texts.{mentions}
use ctf_website.Schema.{CallOutcome, booked, inquiry, escalated, missed, resolved}
use ctf_website.Vapi.Json.{Fields, str}
use ctf_website.Vapi.Event.{prop}

pub record Outcome : Type 0 where
  pub outcome : CallOutcome
  pub service : Option String
  pub booking_when : Option String

abbrev result : CallOutcome → Option String → Option String → Outcome
result outcome service booking_when = record {
  outcome = outcome;
  service = service;
  booking_when = booking_when;
}

abbrev is_text : Option String → String → Bool
is_text none name = false
is_text (some s) name = str_eq s name

unfoldable pub is_missed_reason : String → Bool
is_missed_reason reason =
    mentions "no-answer" reason
    || mentions "customer-did-not-answer" reason
    || mentions "voicemail" reason
    || mentions "busy" reason

unfoldable pub is_handed_over_reason : String → Bool
is_handed_over_reason reason = mentions "transfer" reason || mentions "forwarded" reason

-- A length below five seconds, also one below zero.
abbrev pub is_too_short : Option ℤ → Bool
is_too_short none = false
is_too_short (some (pos n)) = ltb n 5
is_too_short (some (negsuc n)) = true

unfoldable pub derive_outcome : Option Fields → Option String → Bool → Option ℤ → Outcome
derive_outcome structured ended_reason was_taken_over duration_s =
    let declared = str (prop structured "outcome") in
    let service = str (prop structured "service") in
    let booking_when =
      coalesce (str (prop structured "bookingWhen")) (str (prop structured "bookingTime")) in
    let reason = or_else ended_reason "" in
    if is_text declared "booked" || (is_some service && is_some booking_when)
    then result booked service booking_when
    else if was_taken_over
    then result resolved service booking_when
    else if is_missed_reason reason
    then result missed none none
    else if is_handed_over_reason reason
    then result escalated service booking_when
    else if is_text declared "escalated"
    then result escalated service booking_when
    else if is_text declared "missed"
    then result missed service booking_when
    else if is_text declared "inquiry"
    then result inquiry service booking_when
    else if is_too_short duration_s
    then result missed none none
    else result inquiry service booking_when
