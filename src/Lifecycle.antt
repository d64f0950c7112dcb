-- ===== src/Lifecycle.antt =====
-- The life of a call across the whole platform: deliveries of the voice provider
-- (app/worker/routes/webhook.ts) and the staff's takeovers and hang-ups
-- (app/worker/routes/calls.ts), in any order.
pub mod Race
mod Tests
use ctf_website.Base.{ℕ, ◌≡◌, refl, String, Bool, true, false, Option, none, some, List}
use ctf_website.Schema.{Db, CallRow, Speaker}
use ctf_website.Http.{◌>>=◌, ◌>>◌, exec}
use ctf_website.Http.Body.{Body, read_body}
use ctf_website.Http.Keeps.{Keeps, Keeps-write, keeps_rules}
use ctf_website.Auth.{AuthContext}
use ctf_website.Vapi.Json.{Json}
use ctf_website.Vapi.Event.{Event, normalize_event}
use ctf_website.Vapi.Verify.{WebhookHeaders, verify_webhook}
use ctf_website.Vapi.Control.{Provider}
use ctf_website.Calls.Advance.{
  Advances, Advances-refl, Advances-trans, Advances-update_where, upsert_row-Advances,
  final_call-IsLater,
}
use ctf_website.Calls.Routes.{handle_takeover, handle_end_call}
use ctf_website.Calls.Takeover.{
  CallsAdvance, HasDistinctIds, IsQuiet, handle_takeover-Advances, handle_end_call-Advances,
}
use ctf_website.Webhook.{Deployment, handle_vapi_webhook}
use ctf_website.Webhook.Keeps.{IsStable, Keeps-handle_vapi_webhook}

CallsAdvance-IsStable : (before : List CallRow) → IsStable (CallsAdvance before)
CallsAdvance-IsStable before = record {
  bump = λ org_id db h. h;
  line = λ call_id org_id speaker text at db h. h;
  upsert = λ id org_id vapi_call_id now event db h.
      Advances-trans before db.calls _ h (upsert_row-Advances _ db.calls);
  final = λ call_id org_id now ended_at duration_s outcome event db h.
      Advances-trans before db.calls _ h (
        Advances-update_where _ _ db.calls
          (λ call _. final_call-IsLater now ended_at duration_s outcome event call));
  deliver = λ row db h. h;
}

-- A delivery only adds calls or moves them forward, whatever it says and however it is answered.
pub handle_vapi_webhook-Advances :
    (host : Deployment) (now : ℕ) (fresh_id : String) (headers : WebhookHeaders) (body : Body)
    (db : Db)
    → Advances db.calls (handle_vapi_webhook host now fresh_id headers body db).1.calls
handle_vapi_webhook-Advances host now fresh_id headers body db =
    (Keeps-handle_vapi_webhook (CallsAdvance-IsStable db.calls) host now fresh_id headers body).at
      db (Advances-refl db.calls)

-- One request, served as a whole before the next one. The ids of calls are the table's primary key.
pub data Step (host : Deployment) (provider : Provider) (db : Db) : Db → Type 0 where
  delivery :
      (now : ℕ) (fresh_id : String) (headers : WebhookHeaders) (body : Body)
      → Step host provider db (handle_vapi_webhook host now fresh_id headers body db).1
  takeover :
      (auth : AuthContext) (now : ℕ) (ip call_id : String) (requested : Option String)
      → HasDistinctIds db.calls
      → Step host provider db (handle_takeover provider auth now ip call_id requested db).1
  hang_up :
      (auth : AuthContext) (now : ℕ) (ip call_id : String)
      → HasDistinctIds db.calls
      → Step host provider db (handle_end_call provider auth now ip call_id db).1

pub data Reach (host : Deployment) (provider : Provider) (db : Db) : Db → Type 0 where
  here : Reach host provider db db
  next :
      {db' db'' : Db}
      → Reach host provider db db'
      → Step host provider db' db''
      → Reach host provider db db''

module _ (host : Deployment) (provider : Provider) (quiet : IsQuiet provider) where
  Step-Advances : {db db' : Db} → Step host provider db db' → Advances db.calls db'.calls
  Step-Advances {db} (delivery now fresh_id headers body) =
      handle_vapi_webhook-Advances host now fresh_id headers body db
  Step-Advances {db} (takeover auth now ip call_id requested distinct) =
      handle_takeover-Advances provider quiet auth now ip call_id requested db distinct
  Step-Advances {db} (hang_up auth now ip call_id distinct) =
      handle_end_call-Advances provider quiet auth now ip call_id db distinct

  -- Through any requests, each served whole, no call is removed, none leaves `ended` or goes back
  -- from `transferring`, and an end time, an owner and an identity once stored stay.
  pub Reach-Advances : {db db' : Db} → Reach host provider db db' → Advances db.calls db'.calls
  Reach-Advances {db} here = Advances-refl db.calls
  Reach-Advances {db} (next {db' = mid} {db'' = final} r s) =
      Advances-trans db.calls mid.calls final.calls (Reach-Advances r) (Step-Advances s)
