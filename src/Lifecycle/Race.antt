-- ===== src/Lifecycle/Race.antt =====
-- A takeover that overlaps another request: its UPDATE (app/worker/routes/calls.ts,
-- `handleTakeover`) does not test the status again after the provider has answered.
use ctf_website.Base.{ℕ, ◌≡◌, String, Option, some, List, [], ◌∷◌, find_first, update_where, arith}
use ctf_website.Schema.{Db, CallRow, transferring, system}
use ctf_website.Http.{ok, exec, write, ◌>>◌}
use ctf_website.Http.Returns.{OnOk, OnOk-ok, bind_returns, then_returns, require_returns}
use ctf_website.Auth.{AuthContext}
use ctf_website.Audit.{write_audit}
use ctf_website.Vapi.Control.{Provider}
use ctf_website.Calls.Finalize.{owned_call}
use ctf_website.Calls.Transcript.{append_transcript_line}
use ctf_website.Calls.Routes.{load_call, taken_over, ring, handle_takeover, audit_call}

abbrev IsTransferring : CallRow → Type 0
IsTransferring call = call.status ≡ transferring

find_first-taken_over :
    (id org_id user_id destination : String) (now : ℕ) (calls : List CallRow) (call : CallRow)
    → find_first
        (owned_call id org_id)
        (update_where (owned_call id org_id) (taken_over user_id destination now) calls)
      ≡ some call
    → IsTransferring call
unfolding find_first update_where taken_over
find_first-taken_over id org_id user_id destination now [] call h = cc
find_first-taken_over id org_id user_id destination now (first ∷ calls) call h =
    ground (arith, find_first-taken_over id org_id user_id destination now calls call)

module _ (provider : Provider) (auth : AuthContext) (now : ℕ) (ip : String) where
  -- The statements behind the provider's answer, on the table that they find.
  commit-IsTransferring :
      (call : CallRow) (destination text : String) (detail : Option String) (db : Db)
      → OnOk IsTransferring
          ((write (λ db'. record db' {
            calls =
                update_where
                  (owned_call call.id auth.org.id)
                  (taken_over auth.user.id destination now)
                  db'.calls;
          })
              >> (append_transcript_line call system text now
                  >> (write_audit (audit_call auth "call.takeover" call detail ip now)
                      >> load_call auth.org.id call.id)))
            db).0
  unfolding exec append_transcript_line write_audit load_call
  commit-IsTransferring call destination text detail db =
      require_returns IsTransferring _ _ _ (λ found e.
        find_first-taken_over call.id auth.org.id auth.user.id destination now db.calls found e)

  ring-IsTransferring :
      (call : CallRow) (control_url destination : String) (db : Db)
      → OnOk IsTransferring (ring provider auth now ip call control_url destination db).0
  unfolding ring
  ring-IsTransferring call control_url destination db =
      then_returns IsTransferring _ _ db
        (λ db'. commit-IsTransferring call destination _ (some destination) db')

  takeover_returns :
      (call_id : String) (requested : Option String) (db : Db)
      → OnOk IsTransferring (handle_takeover provider auth now ip call_id requested db).0
  unfolding handle_takeover
  takeover_returns call_id requested db =
      let Q = IsTransferring in
      then_returns Q _ _ db (λ db₁. bind_returns Q _ _ db₁ (λ call db₂.
        then_returns Q _ _ db₂ (λ db₃. then_returns Q _ _ db₃ (λ db₄.
          bind_returns Q _ _ db₄ (λ url db₅. bind_returns Q _ _ db₅ (λ candidate db₆.
            bind_returns Q _ _ db₆
              (λ destination db₇. ring-IsTransferring call url destination db₇)))))))

  -- Every takeover that answers with a call answers with one that is being transferred, whatever
  -- other requests have written while it waited for the provider: also where one of them has ended
  -- the call.
  pub handle_takeover-IsTransferring :
      (call_id : String) (requested : Option String) (db : Db) (call : CallRow)
      → (handle_takeover provider auth now ip call_id requested db).0 ≡ ok call
      → call.status ≡ transferring
  handle_takeover-IsTransferring call_id requested db call h =
      OnOk-ok IsTransferring _ call (takeover_returns call_id requested db) h
