-- ===== src/Callbacks/World.antt =====
-- The table of leads, what the worker is answered, and its requests: `db`, `updateLead`, `vapi` and
-- `tellKamva` of demo/heartbeat/src/callbacks.ts. Other runs of the worker and the website write to
-- the table between any two of its requests, and each request may fail.
use ctf_website.Base.{
  ℕ, ◌+◌, ◌*◌, String, Bool, true, false, ◌&&◌, Option, none, some, List, [], ◌∷◌, ◌++◌, ltb,
  str_eq, is_some, update_where, find_first,
}
use ctf_website.Base.Texts.{present}
use ctf_website.Callbacks.Clean.{header_safe}

pub data Status : Type 0 where
  pending calling completed no_answer failed skipped : Status

-- The columns of `leads` that the worker reads or writes. A time is in milliseconds.
pub record LeadRow : Type 0 where
  pub id : String
  pub name : String
  pub business_type : Option String
  pub phone : Option String
  pub message : Option String
  pub created_at : ℕ
  pub contacted_at : Option ℕ
  pub callback_status : Option Status
  pub callback_attempts : ℕ
  pub callback_number : Option String
  pub callback_call_id : Option String
  pub callback_attempted_at : Option ℕ
  pub callback_next_at : Option ℕ
  pub callback_ended_reason : Option String
  pub callback_summary : Option String

pub record CallMessage : Type 0 where
  pub role : Option String
  pub message : Option String

-- What Vapi says of a call. Its times are parsed.
pub record VapiCall : Type 0 where
  pub id : String
  pub status : Option String
  pub ended_reason : Option String
  pub started_at : Option ℕ
  pub ended_at : Option ℕ
  pub summary : Option String
  pub transcript : Option String
  pub recording_url : Option String
  pub messages : Option (List CallMessage)

-- An answer of Vapi: a body, a status that is no success with its detail, or no answer at all.
pub data Reply (A : Type 0) : Type 0 where
  told : A → Reply A
  refused : ℕ → String → Reply A
  silent : String → Reply A

-- How one request to the database goes: served, failed with nothing written, or served and the
-- answer lost.
pub data Fate : Type 0 where
  served : Fate
  down : String → Fate
  lost : String → Fate

-- One request's turn: what others have written since the one before, and how it goes.
pub record Turn : Type 0 where
  pub others : List LeadRow → List LeadRow
  pub fate : Fate

-- A call that Vapi was asked to place.
pub record Dial : Type 0 where
  pub lead_id : String
  pub number : String
  pub name : Option String
  pub attempt : ℕ

pub record Email : Type 0 where
  pub subject : String
  pub lines : List String

-- `turns`, `gets` and `posts` are the answers to come; behind the last of them every request to the
-- database is served and Vapi is silent.
pub record World : Type 0 where
  pub leads : List LeadRow
  pub turns : List Turn
  pub gets : List (Reply VapiCall)
  pub posts : List (Reply String)
  pub dialled : List Dial
  pub emails : List Email
  pub notes : List String

-- A `throw` carries the message that `message(error)` reads.
pub data Result (A : Type 0) : Type 0 where
  ok : A → Result A
  thrown : String → Result A

abbrev pub Task : Type 0 → Type 0
Task A = World → Result A × World

abbrev pub continue : {A B : Type 0} → Result A × World → (A → Task B) → Result B × World
continue (ok a, w) k = k a w
continue (thrown e, w) k = (thrown e, w)

infixl 5 ◌>>=◌ ◌>>◌
unfoldable pub ◌>>=◌ : {A B : Type 0} → Task A → (A → Task B) → Task B
◌>>=◌ m k w = continue (m w) k

unfoldable pub ◌>>◌ : {B : Type 0} → Task (Unit {0}) → Task B → Task B
◌>>◌ m k w = continue (m w) (λ _. k)

unfoldable pub pure : {A : Type 0} → A → Task A
pure a w = (ok a, w)

abbrev pub recover : {A : Type 0} → Result A × World → (String → Task A) → Result A × World
recover (ok a, w) handler = (ok a, w)
recover (thrown e, w) handler = handler e w

-- `try { … } catch (error) { … }`
unfoldable pub try_catch : {A : Type 0} → Task A → (String → Task A) → Task A
try_catch m handler w = recover (m w) handler

unfoldable pub note : String → Task (Unit {0})
note line w = (ok tt, record w { notes = w.notes ++ line ∷ [] })

-- The table behind what others wrote, how the request goes, and the turns left.
abbrev pub take_turn : List Turn → World → Fate × World
take_turn [] w = (served, w)
take_turn (t ∷ ts) w = (t.fate, record w { leads = t.others w.leads; turns = ts })

abbrev pub turn : World → Fate × World
turn w = take_turn w.turns w

-- `db` with GET.
abbrev pub answer : {A : Type 0} → (List LeadRow → A) → Fate × World → Result A × World
answer query (served, w) = (ok (query w.leads), w)
answer query (down e, w) = (thrown e, w)
answer query (lost e, w) = (thrown e, w)

unfoldable pub read_leads : {A : Type 0} → (List LeadRow → A) → Task A
read_leads query w = answer query (turn w)

abbrev pub same_status : Option Status → Option Status → Bool
same_status none none = true
same_status (some pending) (some pending) = true
same_status (some calling) (some calling) = true
same_status (some completed) (some completed) = true
same_status (some no_answer) (some no_answer) = true
same_status (some failed) (some failed) = true
same_status (some skipped) (some skipped) = true
same_status _ _ = false

-- The rows that `updateLead` selects.
unfoldable pub is_unmoved : LeadRow → LeadRow → Bool
is_unmoved lead row = str_eq row.id lead.id && same_status row.callback_status lead.callback_status

abbrev pub patch_in : LeadRow → (LeadRow → LeadRow) → Fate × World → Result Bool × World
patch_in lead fields (served, w) = (
  ok (is_some (find_first (is_unmoved lead) w.leads)),
  record w { leads = update_where (is_unmoved lead) fields w.leads },
)
patch_in lead fields (down e, w) = (thrown e, w)
patch_in lead fields (lost e, w) =
    (thrown e, record w { leads = update_where (is_unmoved lead) fields w.leads })

-- `fields` sets the columns of the PATCH in a row that it selects.
unfoldable pub update_lead : LeadRow → (LeadRow → LeadRow) → Task Bool
update_lead lead fields w = patch_in lead fields (turn w)

abbrev pub timeout : String
timeout = "The operation was aborted due to timeout"

abbrev pub next_get : List (Reply VapiCall) → Task (Reply VapiCall)
next_get [] w = (ok (silent timeout), w)
next_get (reply ∷ replies) w = (ok reply, record w { gets = replies })

-- GET /call/{id}
unfoldable pub get_call : String → Task (Reply VapiCall)
get_call id w = next_get w.gets w

abbrev pub next_post : List (Reply String) → Dial → Task (Reply String)
next_post [] dial w = (ok (silent timeout), record w { dialled = w.dialled ++ dial ∷ [] })
next_post (reply ∷ replies) dial w =
    (ok reply, record w { dialled = w.dialled ++ dial ∷ []; posts = replies })

-- POST /call
unfoldable pub post_call : Dial → Task (Reply String)
post_call dial w = next_post w.posts dial w

-- The secrets of the worker that its course depends on.
pub record CallbackEnv : Type 0 where
  pub vapi_private_key : Option String
  pub vapi_phone_number_id : Option String
  pub vapi_assistant_id : Option String
  pub email_api_key : Option String

unfoldable pub is_configured : CallbackEnv → Bool
is_configured env =
    is_some (present env.vapi_private_key)
    && is_some (present env.vapi_phone_number_id)
    && is_some (present env.vapi_assistant_id)

abbrev pub send : Option String → Email → Task (Unit {0})
send none email w = (ok tt, w)
send (some key) email w = (ok tt, record w { emails = w.emails ++ email ∷ [] })

-- Mail that fails is logged and nothing else, so it is what is handed over.
unfoldable pub tell_kamva : CallbackEnv → String → List String → Task (Unit {0})
unfolding header_safe
tell_kamva env subject lines =
    send (present env.email_api_key) (record { subject = header_safe subject 140; lines = lines })

-- `minutesAgo(at, now) > minutes`; a time that is missing is infinitely long ago.
abbrev pub is_older : ℕ → Option ℕ → ℕ → Bool
is_older minutes none now = true
is_older minutes (some at) now = ltb (at + minutes * 60000) now

-- `minutesAgo(at, now) < minutes`
abbrev pub is_newer : ℕ → Option ℕ → ℕ → Bool
is_newer minutes none now = false
is_newer minutes (some at) now = ltb now (at + minutes * 60000)
