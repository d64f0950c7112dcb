-- ===== src/Calls/Takeover.antt =====
-- The table of calls through a takeover and a hang-up (app/worker/routes/calls.ts).
use ctf_website.Base.{
  ℕ, ◌≡◌, ◌≢◌, refl, sym, subst, some_inj, if_both, find_first_sound, String, true, false, Option,
  none, some, List, [], ◌∷◌, find_first, update_where, All, arith, inl, inr, Bool-cases, eq_iff,
}
use ctf_website.Schema.{Db, AuditRow, Speaker, CallRow}
use ctf_website.Http.{Exec, Result, ◌>>=◌, ◌>>◌, select, lift, pure, write}
use ctf_website.Http.Post.{require_post, quiet_post, quiet_then_post, throw_if_post, write_post}
use ctf_website.Http.Keeps.{Keeps, Keeps-write, keeps_rules}
use ctf_website.Audit.{write_audit}
use ctf_website.Auth.{AuthContext}
use ctf_website.Base.Texts.{present}
use ctf_website.Permissions.{require_permission}
use ctf_website.Stats.{bump_stats_version}
use ctf_website.Vapi.Control.{
  Provider, ControlMessage, post_control, delete_call, check_control, check_deleted, end_vapi_call,
  transfer_call, Answer, answered, timed_out, unreachable, end_at, or_delete, is_ok, end_call,
}
use ctf_website.Calls.Status.{is_ended}
use ctf_website.Calls.Transcript.{append_transcript_line}
use ctf_website.Calls.Routes.{
  load_call, taken_over, ended_by_staff, ring, handle_takeover, handle_end_call,
}
use ctf_website.Calls.Finalize.{owned_call}
use ctf_website.Calls.Advance.{IsLater, IsLater-refl, Advances, Advances-refl}

-- `id` is the primary key: no two rows share it.
abbrev pub HasDistinctIds : List CallRow → Type 0
HasDistinctIds [] = Unit
HasDistinctIds (call ∷ calls) = All (λ other. other.id ≢ call.id) calls × HasDistinctIds calls

owned_call-id :
    (id org_id : String) (call : CallRow) → owned_call id org_id call ≡ true → call.id ≡ id
owned_call-id id org_id call h = ground (arith, eq_iff call.id id)

update_where-others :
    (id org_id : String) (change : CallRow → CallRow) (calls : List CallRow)
    → All (λ other. other.id ≢ id) calls
    → Advances calls (update_where (owned_call id org_id) change calls)
unfolding update_where
update_where-others id org_id change [] h = tt
update_where-others id org_id change (call ∷ calls) (ne, h) =
    elim (Bool-cases (owned_call id org_id call)) [
      | inl hit ↦ absurd (ne (owned_call-id id org_id call hit))
      | inr miss ↦ rw miss (IsLater-refl call, update_where-others id org_id change calls h)
    ]

-- An update of the one row that was found.
pub Advances-update_found :
    (id org_id : String) (change : CallRow → CallRow) (calls : List CallRow) (found : CallRow)
    → HasDistinctIds calls
    → find_first (owned_call id org_id) calls ≡ some found
    → IsLater found (change found)
    → Advances calls (update_where (owned_call id org_id) change calls)
unfolding update_where find_first
Advances-update_found id org_id change [] found d h later = tt
Advances-update_found id org_id change (call ∷ calls) found (ne, d) h later =
    elim (Bool-cases (owned_call id org_id call)) [
      | inl hit ↦
          let same : call ≡ found = some_inj (rw hit at h) in
          rw hit (
            subst (λ c. IsLater c (change c)) (sym same) later,
            update_where-others id org_id change calls (
                subst (λ i. All (λ other. other.id ≢ i) calls) (owned_call-id id org_id call hit)
                  ne),
          )
      | inr miss ↦ rw miss (
        IsLater-refl call,
        Advances-update_found id org_id change calls found d (rw miss at h) later,
      )
    ]

abbrev pub CallsAdvance : List CallRow → Db → Type 0
CallsAdvance before db = Advances before db.calls

-- Fetching from the provider writes nothing here, and no other request writes meanwhile.
pub record IsQuiet (provider : Provider) : Type 0 where
  pub post :
      (url : String) (message : ControlMessage) (db : Db) → (provider.post url message db).1 ≡ db
  pub delete : (vapi_call_id : String) (db : Db) → (provider.delete vapi_call_id db).1 ≡ db

CallsAdvance-line :
    (before : List CallRow) (call : CallRow) (speaker : Speaker) (text : String) (at : ℕ)
    → Keeps (CallsAdvance before) (append_transcript_line call speaker text at)
unfolding append_transcript_line
CallsAdvance-line before call speaker text at = Keeps-write _ (λ db h. h)

CallsAdvance-audit :
    (before : List CallRow) (entry : AuditRow) → Keeps (CallsAdvance before) (write_audit entry)
unfolding write_audit
CallsAdvance-audit before entry = Keeps-write _ (λ db h. h)

CallsAdvance-bump :
    (before : List CallRow) (org_id : String)
    → Keeps (CallsAdvance before) (bump_stats_version org_id)
unfolding bump_stats_version
CallsAdvance-bump before org_id = Keeps-write _ (λ db h. h)

CallsAdvance-load :
    (before : List CallRow) (org_id call_id : String)
    → Keeps (CallsAdvance before) (load_call org_id call_id)
unfolding load_call
CallsAdvance-load before org_id call_id = search keeps_rules

taken_over-IsLater :
    (user_id destination : String) (now : ℕ) (call : CallRow)
    → is_ended call.status ≡ false
    → IsLater call (taken_over user_id destination now call)
unfolding taken_over
taken_over-IsLater user_id destination now call live = record {
  same_id = refl;
  same_org = refl;
  same_vapi_call = refl;
  same_start = refl;
  forward = ground arith;
  end_kept = λ t e. e;
}

ended_by_staff-IsLater : (now : ℕ) (call : CallRow) → IsLater call (ended_by_staff now call)
unfolding ended_by_staff
ended_by_staff-IsLater now call = record {
  same_id = refl;
  same_org = refl;
  same_vapi_call = refl;
  same_start = refl;
  forward = (λ _. refl, λ _. inr refl);
  end_kept = λ t e. rw e;
}

load_call_post :
    (P : Db → Type 0) {B : Type 0} (org_id call_id : String) (k : CallRow → Exec B) (db : Db)
    → P db
    → ((call : CallRow)
        → find_first (owned_call call_id org_id) db.calls ≡ some call
        → P (k call db).1)
    → P ((load_call org_id call_id >>= k) db).1
unfolding load_call select ◌>>=◌
load_call_post P org_id call_id k db here later = require_post P _ _ k db here later

lift_same : {A : Type 0} (r : Result A) (db : Db) → (lift r db).1 ≡ db
unfolding lift
lift_same r db = refl

pure_same : (db : Db) → (pure {A = Unit {0}} tt db).1 ≡ db
unfolding pure
pure_same db = refl

module _ (provider : Provider) (quiet : IsQuiet provider) where
  post_control_quiet :
      (url : String) (message : ControlMessage) (db : Db)
      → (post_control provider url message db).1 ≡ db
  unfolding post_control
  post_control_quiet url message db =
      quiet_post (λ db'. db' ≡ db) (provider.post url message) _ db (quiet.post url message db) refl
        (λ answer _. lift_same (check_control answer) db)

  delete_call_quiet :
      (vapi_call_id : String) (db : Db) → (delete_call provider vapi_call_id db).1 ≡ db
  unfolding delete_call
  delete_call_quiet vapi_call_id db =
      throw_if_post (λ db'. db' ≡ db) _ _ _ db refl
        (λ _.
          quiet_post (λ db'. db' ≡ db) (provider.delete vapi_call_id) _ db
            (quiet.delete vapi_call_id db) refl (λ answer _. lift_same (check_deleted answer) db))

  -- The one write to the table of calls, and what follows it.
  commit-Advances :
      (call : CallRow) (org_id call_id : String) (change : CallRow → CallRow) {B : Type 0}
      (k : Exec B) (db : Db)
      → HasDistinctIds db.calls
      → find_first (owned_call call_id org_id) db.calls ≡ some call
      → IsLater call (change call)
      → Keeps (CallsAdvance db.calls) k
      → Advances db.calls
          ((write (λ db'. record db' {
            calls = update_where (owned_call call.id org_id) change db'.calls;
          })
              >> k)
            db).1.calls
  commit-Advances call org_id call_id change k db distinct found later keeps =
      let same : call.id ≡ call_id =
        owned_call-id call_id org_id call (find_first_sound _ db.calls call found) in
      write_post (CallsAdvance db.calls) _ k db (
        keeps.at _ (
          Advances-update_found call.id org_id change db.calls call distinct
            (subst (λ id. find_first (owned_call id org_id) db.calls ≡ some call) (sym same) found)
            later))

  ring-Advances :
      (auth : AuthContext) (now : ℕ) (ip : String) (call : CallRow) (url destination : String)
      (call_id : String) (db : Db)
      → HasDistinctIds db.calls
      → find_first (owned_call call_id auth.org.id) db.calls ≡ some call
      → is_ended call.status ≡ false
      → Advances db.calls (ring provider auth now ip call url destination db).1.calls
  unfolding ring transfer_call
  ring-Advances auth now ip call url destination call_id db distinct found live =
      quiet_then_post (CallsAdvance db.calls) (post_control provider url _) _ db
        (post_control_quiet url _ db) (Advances-refl db.calls)
        (commit-Advances call auth.org.id call_id _ _ db distinct found
          (taken_over-IsLater auth.user.id destination now call live)
          (search (keeps_rules, CallsAdvance-line, CallsAdvance-audit, CallsAdvance-load)))

  end_vapi_call_quiet :
      (vapi_call_id : String) (url : Option String) (db : Db)
      → (end_vapi_call provider vapi_call_id url db).1 ≡ db
  unfolding end_vapi_call
  end_vapi_call_quiet vapi_call_id url db = end_at_quiet (present url)
    where
      or_delete_quiet : (answer : Answer) → (or_delete provider vapi_call_id answer db).1 ≡ db
      or_delete_quiet (answered status) =
          if_both (λ (m : Exec (Unit {0})). (m db).1 ≡ db) (is_ok status) (pure_same db)
            (delete_call_quiet vapi_call_id db)
      or_delete_quiet timed_out = delete_call_quiet vapi_call_id db
      or_delete_quiet (unreachable e) = delete_call_quiet vapi_call_id db

      end_at_quiet : (o : Option String) → (end_at provider vapi_call_id o db).1 ≡ db
      end_at_quiet none = delete_call_quiet vapi_call_id db
      end_at_quiet (some u) =
          quiet_post (λ db'. db' ≡ db) (provider.post u end_call) _ db (quiet.post u end_call db)
            refl (λ answer _. or_delete_quiet answer)

  -- With distinct ids, and no other request while it waits for the provider, a takeover only adds
  -- to the table of calls or moves its rows forward, whatever it answers.
  pub handle_takeover-Advances :
      (auth : AuthContext) (now : ℕ) (ip call_id : String) (requested : Option String) (db : Db)
      → HasDistinctIds db.calls
      → Advances db.calls (handle_takeover provider auth now ip call_id requested db).1.calls
  unfolding handle_takeover require_permission
  handle_takeover-Advances auth now ip call_id requested db distinct =
      let P = CallsAdvance db.calls in
      let start = Advances-refl db.calls in
      throw_if_post P _ _ _ db start (λ _. load_call_post P _ _ _ db start (λ call found.
        throw_if_post P _ _ _ db start (λ live. throw_if_post P _ _ _ db start (λ _.
          require_post P _ _ _ db start (λ url _. require_post P _ _ _ db start (λ candidate _.
            require_post P _ _ _ db start (λ destination _.
              ring-Advances auth now ip call url destination call_id db distinct found live)))))))

  -- With distinct ids, and no other request while it waits for the provider, ending a call only adds
  -- to the table of calls or moves its rows forward, whatever it answers.
  pub handle_end_call-Advances :
      (auth : AuthContext) (now : ℕ) (ip call_id : String) (db : Db)
      → HasDistinctIds db.calls
      → Advances db.calls (handle_end_call provider auth now ip call_id db).1.calls
  unfolding handle_end_call require_permission
  handle_end_call-Advances auth now ip call_id db distinct =
      let P = CallsAdvance db.calls in
      let start = Advances-refl db.calls in
      throw_if_post P _ _ _ db start (λ _. load_call_post P _ _ _ db start (λ call found.
        throw_if_post P _ _ _ db start (λ live.
          quiet_then_post P _ _ db (end_vapi_call_quiet call.vapi_call_id call.control_url db) start
            (commit-Advances call auth.org.id call_id _ _ db distinct found
              (ended_by_staff-IsLater now call)
              (search
                (
                  keeps_rules, CallsAdvance-bump, CallsAdvance-line, CallsAdvance-audit,
                  CallsAdvance-load,
                )
                depth 7)))))
