-- ===== src/Platform/Closed.antt =====
-- What the permanent block of an organization does (app/worker/routes/platform.ts,
-- `handleAdminOrgAction`).
use ctf_website.Platform.Batches.{
  bar_email, bar_members, block_org_batch, org_is, member_of, session_in, bars, held,
  is_blocked_email, blocked_for,
}
use ctf_website.Platform.Address.{canonical_email}
use ctf_website.Schema.{Db, BlockedEmailRow, UserRow, OrgRow, hold_blocked}
use ctf_website.Base.{
  ℕ, ◌≡◌, inl, inr, refl, String, Bool, true, false, some, List, [], ◌∷◌, ◌++◌, arith, eq_refl,
  Bool-cases, is_some, All, find_first, update_where, delete_where, OnSome, if_cases,
}

abbrev pub IsClosedTo : String → UserRow → Type 0
IsClosedTo org_id user =
    member_of org_id user ≡ true → (user.disabled ≡ true) × (user.platform_hold ≡ some hold_blocked)

-- Against the users before: every login of the organization is disabled and blocked, none of them
-- has a session, every address of theirs is barred, and the organization is blocked.
pub record IsClosed (org_id : String) (before after : Db) : Type 0 where
  pub logins : All (IsClosedTo org_id) after.users
  pub no_sessions : All (λ s. session_in org_id before.users s ≡ false) after.sessions
  pub addresses :
      All
        (λ user. member_of org_id user ≡ true → is_blocked_email user.email after ≡ true)
        before.users
  pub marked :
      OnSome (λ org. is_some org.blocked_at ≡ true) (find_first (org_is org_id) after.organizations)

closed_logins :
    (org_id reason : String) (now : ℕ) (users : List UserRow)
    → All (IsClosedTo org_id) (update_where (member_of org_id) (held hold_blocked now reason) users)
unfolding update_where
closed_logins org_id reason now [] = tt
closed_logins org_id reason now (user ∷ users) = (
  if_cases (IsClosedTo org_id) (member_of org_id user) (λ mine _. (refl, refl))
      (λ other mine. absurd (ground arith)),
  closed_logins org_id reason now users,
)

All-delete_where_test :
    {A : Type 0} (test : A → Bool) (xs : List A) → All (λ x. test x ≡ false) (delete_where test xs)
unfolding delete_where
All-delete_where_test test [] = tt
All-delete_where_test test (x ∷ xs) = elim (Bool-cases (test x)) [
  | inl gone ↦ rw gone (All-delete_where_test test xs)
  | inr kept ↦ rw kept (kept, All-delete_where_test test xs)
]

marked_org :
    (org_id reason : String) (now : ℕ) (orgs : List OrgRow)
    → OnSome
        (λ org. is_some org.blocked_at ≡ true)
        (find_first (org_is org_id) (update_where (org_is org_id) (blocked_for now reason) orgs))
unfolding find_first update_where
marked_org org_id reason now [] = tt
marked_org org_id reason now (org ∷ orgs) = ground (arith, marked_org org_id reason now orgs)

abbrev is_barred : String → List BlockedEmailRow → Bool
is_barred address rows = is_some (find_first (bars address) rows)

find_first-append_left :
    {A : Type 0} (test : A → Bool) (xs ys : List A)
    → is_some (find_first test xs) ≡ true
    → is_some (find_first test (xs ++ ys)) ≡ true
unfolding find_first
find_first-append_left test [] ys h = absurd (ground arith)
find_first-append_left test (x ∷ xs) ys h = ground (arith, find_first-append_left test xs ys)

find_first-append_right :
    {A : Type 0} (test : A → Bool) (xs : List A) (y : A)
    → test y ≡ true
    → is_some (find_first test (xs ++ y ∷ [])) ≡ true
unfolding find_first
find_first-append_right test [] y h = ground arith
find_first-append_right test (x ∷ xs) y h = ground (arith, find_first-append_right test xs y)

module _ (reason org_id blocked_by : String) (now : ℕ) where
  bar_email-bars :
      (address : String) (rows : List BlockedEmailRow)
      → is_barred address (bar_email reason org_id blocked_by now address rows) ≡ true
  unfolding bar_email
  bar_email-bars address rows =
      if_cases (λ r. is_barred address r ≡ true) (is_some (find_first (bars address) rows))
        (λ there. there) (λ new. find_first-append_right (bars address) rows _ (eq_refl address))

  bar_email_keeps :
      (address other : String) (rows : List BlockedEmailRow)
      → is_barred other rows ≡ true
      → is_barred other (bar_email reason org_id blocked_by now address rows) ≡ true
  unfolding bar_email
  bar_email_keeps address other rows h =
      if_cases (λ r. is_barred other r ≡ true) (is_some (find_first (bars address) rows))
        (λ there. h) (λ new. find_first-append_left (bars other) rows _ h)

  bar_members_step :
      (user : UserRow) (users : List UserRow) (rows : List BlockedEmailRow) (other : String)
      → is_barred other (bar_members reason org_id blocked_by now users rows) ≡ true
      → is_barred other (bar_members reason org_id blocked_by now (user ∷ users) rows) ≡ true
  unfolding bar_members
  bar_members_step user users rows other h =
      if_cases (λ r. is_barred other r ≡ true) (member_of org_id user)
        (λ mine. bar_email_keeps (canonical_email user.email) other _ h) (λ not_mine. h)

  abbrev Bars : List BlockedEmailRow → UserRow → Type 0
  Bars rows user = member_of org_id user ≡ true → is_barred (canonical_email user.email) rows ≡ true

  All-Bars :
      (users : List UserRow) (rows rows' : List BlockedEmailRow)
      → ((other : String) → is_barred other rows ≡ true → is_barred other rows' ≡ true)
      → All (Bars rows) users
      → All (Bars rows') users
  All-Bars [] rows rows' more h = tt
  All-Bars (user ∷ users) rows rows' more h =
      (λ mine. more _ (h.0 mine), All-Bars users rows rows' more h.1)

  bar_members-Bars :
      (users : List UserRow) (rows : List BlockedEmailRow)
      → All (Bars (bar_members reason org_id blocked_by now users rows)) users
  unfolding bar_members
  bar_members-Bars [] rows = tt
  bar_members-Bars (user ∷ users) rows = (
    λ mine. rw mine (bar_email-bars (canonical_email user.email) _),
    All-Bars users (bar_members reason org_id blocked_by now users rows) _
        (bar_members_step user users rows) (bar_members-Bars users rows),
  )

-- The permanent block of an organization, whatever was in the tables before, leaves each of its
-- logins disabled under a block, none of its sessions, each of its addresses on the list of blocked
-- ones, and its row marked as blocked.
pub block_org_batch-IsClosed :
    (now : ℕ) (reason org_id admin_id : String) (db : Db)
    → IsClosed org_id db (block_org_batch now reason org_id admin_id db)
unfolding block_org_batch is_blocked_email
block_org_batch-IsClosed now reason org_id admin_id db = record {
  logins = closed_logins org_id reason now db.users;
  no_sessions = All-delete_where_test (session_in org_id db.users) db.sessions;
  addresses = bar_members-Bars reason org_id admin_id now db.users db.blocked_emails;
  marked = marked_org org_id reason now db.organizations;
}
