-- ===== src/Auth/Session/Admission.antt =====
-- What the check in front of a signed-in request ensures (app/worker/lib/auth.ts, `requireAuth`).
-- What a signed-in request has been checked for, against the database before it and the one behind
-- it: the session is stored and within both of its lifetimes, its user is enabled, the organization
-- is the user's own, and the session ends at most an idle lifetime from now.
use ctf_website.Base.Texts.{present}
use ctf_website.Auth.{AuthContext}
use ctf_website.Crypto.{Digests}
use ctf_website.Auth.Session.{
  slide, signed_in, check_session, require_auth, SignedIn, destroy_session, session_id_is,
  with_session, session_limits, with_user, is_expired, with_org, slid, org_id_is, user_id_is,
  must_slide, context_of,
}
use ctf_website.Schema.{Db, SessionRow, UserRow, OrgRow}
use ctf_website.Base.{
  refl, ℕ, ◌+◌, ◌≤◌, ◌<◌, ◌≡◌, inl, inr, sym, ap, subst, String, false, Option, none, some, List,
  [], ◌∷◌, arith, eq_iff, Bool-cases, Option-cases, find_first, update_where, OnSome, if_cases,
  find_first_sound, some_inj, ◌∙◌,
}
use ctf_website.Http.{Exec, Result, ok, err, pure, ◌>>◌, exec}

pub record IsAdmitted (now : ℕ) (db db' : Db) (auth : AuthContext) : Type 0 where
  pub session : SessionRow
  pub stored : find_first (session_id_is auth.session_id) db.sessions ≡ some session
  pub unexpired : now < session.expires_at
  pub young : now < session.created_at + (session_limits auth.user.platform_role).absolute
  pub own_user : auth.user.id ≡ session.user_id
  pub enabled : auth.user.disabled ≡ false
  pub own_org : auth.org.id ≡ auth.user.org_id
  pub bounded :
      OnSome
        (λ s. s.expires_at ≤ now + (session_limits auth.user.platform_role).idle)
        (find_first (session_id_is auth.session_id) db'.sessions)

-- The session that the cookie's token names, by its digest.
pub record IsSentBy (digests : Digests) (cookie : Option String) (auth : AuthContext) : Type 0 where
  pub token : String
  pub sent : present cookie ≡ some token
  pub named : auth.session_id ≡ digests.sha256_hex token

abbrev Admits : ℕ → String → Db → Result AuthContext × Db → Type 0
Admits now id db (ok auth, db') = (auth.session_id ≡ id) × IsAdmitted now db db' auth
Admits now id db (err e, db') = Unit

abbrev AdmitsSender : Digests → ℕ → Option String → Db → Result AuthContext × Db → Type 0
AdmitsSender digests now cookie db (ok auth, db') =
    IsSentBy digests cookie auth × IsAdmitted now db db' auth
AdmitsSender digests now cookie db (err e, db') = Unit

sender_of :
    (digests : Digests) (now : ℕ) (cookie : Option String) (token : String) (db : Db)
    (end : Result AuthContext × Db)
    → present cookie ≡ some token
    → Admits now (digests.sha256_hex token) db end
    → AdmitsSender digests now cookie db end
sender_of digests now cookie token db (ok auth, db') sent (named, admitted) =
    (record { token = token; sent = sent; named = named }, admitted)
sender_of digests now cookie token db (err e, db') sent h = tt

find_first-slid :
    (now idle : ℕ) (id : String) (sessions : List SessionRow)
    → OnSome
        (λ s. s.expires_at ≤ now + idle)
        (find_first (session_id_is id) (update_where (session_id_is id) (slid now idle) sessions))
unfolding find_first update_where
find_first-slid now idle id [] = tt
find_first-slid now idle id (session ∷ sessions) =
    ground (arith, find_first-slid now idle id sessions)

bounded_by :
    (idle : ℕ) (id : String) (sessions : List SessionRow) (session : SessionRow)
    → find_first (session_id_is id) sessions ≡ some session
    → session.expires_at ≤ idle
    → OnSome (λ s. s.expires_at ≤ idle) (find_first (session_id_is id) sessions)
bounded_by idle id sessions session found h = rw found h

record IsJoined (id : String) (db : Db) (row : SignedIn) : Type 0 where
  pub stored : find_first (session_id_is id) db.sessions ≡ some row.session
  pub own_user : row.user.id ≡ row.session.user_id
  pub own_org : row.org.id ≡ row.user.org_id

with_org_joined :
    (session : SessionRow) (user : UserRow) (org : Option OrgRow) (row : SignedIn)
    → with_org session user org ≡ some row
    → (row.session ≡ session) × (row.user ≡ user) × (org ≡ some row.org)
with_org_joined session user none row h = cc
with_org_joined session user (some org) row h =
    let same = some_inj h in
    (ap (λ r. r.session) (sym same), ap (λ r. r.user) (sym same), ap (λ r. some r.org) same)

with_user_joined :
    (session : SessionRow) (orgs : List OrgRow) (user : Option UserRow) (row : SignedIn)
    → with_user session orgs user ≡ some row
    → (row.session ≡ session)
      × (user ≡ some row.user)
      × (find_first (org_id_is row.user.org_id) orgs ≡ some row.org)
with_user_joined session orgs none row h = cc
with_user_joined session orgs (some user) row h =
    let (s, u, o) = with_org_joined session user _ row h in
    (s, ap some (sym u), ap (λ v. find_first (org_id_is v.org_id) orgs) u ∙ o)

with_session_joined :
    (db : Db) (session : Option SessionRow) (row : SignedIn)
    → with_session db session ≡ some row
    → (session ≡ some row.session)
      × (find_first (user_id_is row.session.user_id) db.users ≡ some row.user)
      × (find_first (org_id_is row.user.org_id) db.organizations ≡ some row.org)
with_session_joined db none row h = cc
with_session_joined db (some session) row h =
    let (s, u, o) = with_user_joined session db.organizations _ row h in
    (ap some (sym s), ap (λ v. find_first (user_id_is v.user_id) db.users) s ∙ u, o)

signed_in-IsJoined :
    (id : String) (db : Db) (row : SignedIn) → signed_in id db ≡ some row → IsJoined id db row
unfolding signed_in
signed_in-IsJoined id db row h =
    let (s, u, o) = with_session_joined db (find_first (session_id_is id) db.sessions) row h in
    record {
      stored = s;
      own_user = (eq_iff row.user.id row.session.user_id).0 (find_first_sound _ _ _ u);
      own_org = (eq_iff row.org.id row.user.org_id).0 (find_first_sound _ _ _ o);
    }

slide-Admits :
    (now : ℕ) (id : String) (db : Db) (row : SignedIn)
    → IsJoined id db row
    → is_expired now row ≡ false
    → row.user.disabled ≡ false
    → Admits now id db ((slide (must_slide now row) now id row >> pure (context_of id row)) db)
unfolding slide exec
slide-Admits now id db row joined live on = elim (Bool-cases (must_slide now row)) [
  | inl due ↦ rw due (refl, admitted (find_first-slid now _ id db.sessions))
  | inr recent ↦
      rw recent
        (refl, admitted (bounded_by _ id db.sessions row.session joined.stored (ground arith)))
]
  where
    admitted :
        {db' : Db}
        → OnSome
            (λ s. s.expires_at ≤ now + (session_limits row.user.platform_role).idle)
            (find_first (session_id_is id) db'.sessions)
        → IsAdmitted now db db' (context_of id row)
    admitted {db'} h = record {
      session = row.session;
      stored = joined.stored;
      unexpired = ground arith;
      young = ground arith;
      own_user = joined.own_user;
      enabled = on;
      own_org = joined.own_org;
      bounded = h;
    }

check_session-Admits :
    (now : ℕ) (id : String) (db : Db) (row : SignedIn)
    → IsJoined id db row
    → Admits now id db (check_session now id row db)
unfolding check_session slide destroy_session exec
check_session-Admits now id db row joined =
    let Q = λ (m : Exec AuthContext). Admits now id db (m db) in
    if_cases Q (is_expired now row) (λ expired. tt)
      (λ live.
        if_cases Q row.user.disabled (λ off. tt) (λ on. slide-Admits now id db row joined live on))

require_auth-Admits :
    (digests : Digests) (now : ℕ) (cookie : Option String) (db : Db)
    → AdmitsSender digests now cookie db (require_auth digests now cookie db)
unfolding require_auth exec
require_auth-Admits digests now cookie db = elim (Option-cases (present cookie)) [
  | inl missing ↦ rw missing tt
  | inr (token, sent) ↦ rw sent (elim (Option-cases (signed_in (digests.sha256_hex token) db)) [
    | inl unknown ↦ rw unknown tt
    | inr (row, found) ↦ rw found (
        sender_of digests now cookie token db (check_session now (digests.sha256_hex token) row db)
          sent
          (check_session-Admits now (digests.sha256_hex token) db row
            (signed_in-IsJoined (digests.sha256_hex token) db row found)))
  ])
]

-- A request that is let in as signed in was sent with a cookie whose token's digest names a stored
-- session, within its idle and its absolute lifetime, of an enabled user who is given his own
-- organization; and behind it the session ends no later than the idle lifetime of the user's role from
-- now.
pub require_auth-IsAdmitted :
    (digests : Digests) (now : ℕ) (cookie : Option String) (db db' : Db) (auth : AuthContext)
    → require_auth digests now cookie db ≡ (ok auth, db')
    → IsSentBy digests cookie auth × IsAdmitted now db db' auth
require_auth-IsAdmitted digests now cookie db db' auth h =
    subst (AdmitsSender digests now cookie db) h (require_auth-Admits digests now cookie db)
