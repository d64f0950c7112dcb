-- ===== src/Webhook/Once.antt =====
-- The table of delivered ids through deliveries and through pruning (app/worker/routes/webhook.ts,
-- and of app/worker/lib/auth.ts pruneExpired).
use ctf_website.Base.{
  ℕ, ◌+◌, ◌*◌, ◌≤◌, ◌≡◌, String, Bool, true, false, ◌&&◌, List, [], ◌∷◌, ◌++◌, is_some, find_first,
  delete_where, All, str_eq, leb, ltb, arith, eq_refl, inl, inr, Bool-cases,
}
use ctf_website.Schema.{Db, WebhookEventRow}
use ctf_website.Http.{ok, exec, write}
use ctf_website.Auth.Limiter.{prune_expired}
use ctf_website.Vapi.Event.{Event}
use ctf_website.Http.Body.{Body}
use ctf_website.Vapi.Verify.{WebhookHeaders}
use ctf_website.Webhook.{
  Deployment, duplicate, first_delivery, unless_seen, deliver, seen, handle_vapi_webhook,
}
use ctf_website.Webhook.Keeps.{IsStable, Keeps-for_org, Keeps-handle_vapi_webhook}

-- What happens to the database between two requests, where all of it is at most a day after `since`
-- as far as it prunes: deliveries of other messages or of the same, pruning, and whatever leaves
-- the table of delivered ids as it is.
pub data Meanwhile (since : ℕ) (before : Db) : Db → Type 0 where
  at_once : Meanwhile since before before
  delivery :
      {db : Db} (host : Deployment) (now : ℕ) (fresh_id : String) (headers : WebhookHeaders)
      (body : Body)
      → Meanwhile since before db
      → Meanwhile since before (handle_vapi_webhook host now fresh_id headers body db).1
  pruning :
      {db : Db} (now : ℕ)
      → now ≤ since + 24 * 60 * 60 * 1000
      → Meanwhile since before db
      → Meanwhile since before (prune_expired now db).1
  elsewhere :
      {db : Db} (after : Db)
      → after.webhook_events ≡ db.webhook_events
      → Meanwhile since before db
      → Meanwhile since before after

module _ {A : Type 0} where
  some-append_old :
      (test : A → Bool) (x : A) (xs : List A)
      → is_some (find_first test xs) ≡ true
      → is_some (find_first test (xs ++ x ∷ [])) ≡ true
  unfolding find_first
  some-append_old test x [] h = cc
  some-append_old test x (first ∷ xs) h = ground (arith, some-append_old test x xs)

  some-append :
      (test : A → Bool) (x : A) (xs : List A)
      → test x ≡ true
      → is_some (find_first test (xs ++ x ∷ [])) ≡ true
  unfolding find_first
  some-append test x [] h = ground (arith, h)
  some-append test x (first ∷ xs) h = ground (arith, some-append test x xs h)

  some-delete_where :
      (test gone : A → Bool) (xs : List A)
      → ((a : A) → test a ≡ true → gone a ≡ false)
      → is_some (find_first test xs) ≡ true
      → is_some (find_first test (delete_where gone xs)) ≡ true
  unfolding find_first delete_where
  some-delete_where test gone [] spared h = cc
  some-delete_where test gone (x ∷ xs) spared h =
      ground (arith, some-delete_where test gone xs spared, spared x)

-- The row of an id that was received at `since` or later.
abbrev row_of : String → ℕ → WebhookEventRow → Bool
row_of event_id since row = str_eq row.id event_id && leb since row.received_at

some-row_of :
    (event_id : String) (since : ℕ) (rows : List WebhookEventRow)
    → is_some (find_first (row_of event_id since) rows) ≡ true
    → is_some (find_first (λ row. str_eq row.id event_id) rows) ≡ true
unfolding find_first
some-row_of event_id since [] h = cc
some-row_of event_id since (row ∷ rows) h = ground (arith, some-row_of event_id since rows)

-- Where every row is that recent, so is the row of an id.
row_of-some :
    (event_id : String) (since : ℕ) (rows : List WebhookEventRow)
    → All (λ row. since ≤ row.received_at) rows
    → is_some (find_first (λ row. str_eq row.id event_id) rows) ≡ true
    → is_some (find_first (row_of event_id since) rows) ≡ true
unfolding find_first
row_of-some event_id since [] recent h = cc
row_of-some event_id since (row ∷ rows) (first, others) h =
    ground (arith, row_of-some event_id since rows others)

-- The table holds a recent row of the id.
abbrev pub IsKept : String → ℕ → Db → Type 0
IsKept event_id since db = is_some (find_first (row_of event_id since) db.webhook_events) ≡ true

IsKept-IsStable : (event_id : String) (since : ℕ) → IsStable (IsKept event_id since)
IsKept-IsStable event_id since = record {
  bump = λ org_id db h. h;
  line = λ call_id org_id speaker text at db h. h;
  upsert = λ id org_id vapi_call_id now event db h. h;
  final = λ call_id org_id now ended_at duration_s outcome event db h. h;
  deliver = λ row db h. some-append_old (row_of event_id since) row db.webhook_events h;
}

module _ (event_id : String) (since : ℕ) where
  spared-row_of :
      (now : ℕ)
      → now ≤ since + 24 * 60 * 60 * 1000
      → (row : WebhookEventRow) → row_of event_id since row ≡ true
      → ltb (row.received_at + 24 * 60 * 60 * 1000) now ≡ false
  spared-row_of now early row h = ground arith

  -- A recent row outlasts a day.
  pub Meanwhile-IsKept :
      (before db : Db)
      → Meanwhile since before db
      → IsKept event_id since before
      → IsKept event_id since db
  unfolding prune_expired write
  Meanwhile-IsKept before _ at_once h = h
  Meanwhile-IsKept before _ (delivery host now fresh_id headers body rest) h =
      (Keeps-handle_vapi_webhook (IsKept-IsStable event_id since) host now fresh_id headers body).at
        _ (Meanwhile-IsKept before _ rest h)
  Meanwhile-IsKept before _ (pruning now early rest) h =
      some-delete_where (row_of event_id since) _ _ (spared-row_of now early)
        (Meanwhile-IsKept before _ rest h)
  Meanwhile-IsKept before _ (elsewhere after same rest) h =
      rw same (Meanwhile-IsKept before _ rest h)

  module _ (now : ℕ) (fresh_id vapi_call_id : String) (event : Event) (db : Db) where
    first_delivery-IsKept :
        since ≤ now
        → IsKept event_id since (first_delivery now fresh_id vapi_call_id event_id event db).1
    unfolding first_delivery exec
    first_delivery-IsKept late =
        (Keeps-for_org (IsKept-IsStable event_id since) now fresh_id vapi_call_id event _).at _ (
          some-append (row_of event_id since) _ db.webhook_events
            (ground (arith, eq_refl event_id, late)))

    pub deliver-IsKept :
        since ≤ now
        → All (λ row. since ≤ row.received_at) db.webhook_events
        → IsKept event_id since (deliver now fresh_id vapi_call_id event_id event db).1
    unfolding deliver unless_seen exec
    deliver-IsKept late recent = elim (Bool-cases (seen event_id db)) [
      | inl old ↦ rw old (row_of-some event_id since db.webhook_events recent old)
      | inr new ↦ rw new (first_delivery-IsKept late)
    ]

-- Delivering a message again, whatever it says then, is answered as a duplicate and changes nothing
-- while a recent row of its id is there.
pub deliver_kept :
    (event_id : String) (since later : ℕ) (fresh_id vapi_call_id : String) (event : Event) (db : Db)
    → IsKept event_id since db
    → deliver later fresh_id vapi_call_id event_id event db ≡ (ok duplicate, db)
unfolding deliver unless_seen exec
deliver_kept event_id since later fresh_id vapi_call_id event db h =
    let old : seen event_id db ≡ true = some-row_of event_id since db.webhook_events h in rw old
