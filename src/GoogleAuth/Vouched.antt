-- ===== src/GoogleAuth/Vouched.antt =====
-- Whom a sign-in with Google opens a session for (app/worker/routes/googleAuth.ts).
use ctf_website.Signup.Made.{Made}
use ctf_website.Base.{
  ℕ, ◌≡◌, ◌⊎◌, String, Bool, true, false, ◌||◌, none, some, List, [], ◌∷◌, ◌++◌, find_first, arith,
  ltb, ◌∙◌,
}
use ctf_website.Schema.{Db, UserRow, SessionRow, OauthStateRow}
use ctf_website.TwoFactor.{requires_second_factor}
use ctf_website.Platform.Address.{is_reserved_ctf_address}
use ctf_website.Platform.Batches.{is_blocked_email}
use ctf_website.Google.{GoogleIdentity, success, exchange_code_for_identity, redirect_uri_for}
use ctf_website.GoogleAuth.{GoogleSignIn, state_is, matches}
use ctf_website.GoogleAuth.Keeps.{IsOfSignIns}

-- The identity that Google gave for the code of a sign-in that this deployment began and that had not
-- expired.
pub record IsVouched (host : GoogleSignIn) (now : ℕ) (before : Db) (identity : GoogleIdentity)
    : Type 0 where
  pub code : String
  pub state : String
  pub row : OauthStateRow
  pub begun : find_first (state_is state) before.oauth_states ≡ some row
  pub in_time : ltb row.expires_at now ≡ false
  pub given :
      exchange_code_for_identity host.google now code (redirect_uri_for host.url) row.nonce
      ≡ success identity
  pub verified : identity.email_verified ≡ true

-- A sign-up that is not refused.
pub record MaySignUp (before : Db) (identity : GoogleIdentity) : Type 0 where
  pub unknown : find_first (matches identity) before.users ≡ none
  pub not_reserved : is_reserved_ctf_address identity.email ≡ false
  pub not_blocked : is_blocked_email identity.email before ≡ false

-- The owner whom such a sign-up made.
pub record IsNew (host : GoogleSignIn) (now : ℕ) (before : Db) (identity : GoogleIdentity)
    (user : UserRow) : Type 0 where
  pub may : MaySignUp before identity
  pub made : Made host.ids now identity before user

-- The one session that is opened, and for whom.
pub record OpensOne (host : GoogleSignIn) (now : ℕ) (before after : Db) : Type 0 where
  pub identity : GoogleIdentity
  pub vouched : IsVouched host now before identity
  pub user : UserRow
  pub known :
      (find_first (matches identity) before.users ≡ some user) ⊎ IsNew host now before identity user
  pub enabled : user.disabled ≡ false
  pub one_factor : requires_second_factor user ≡ false
  pub session : SessionRow
  pub own : session.user_id ≡ user.id
  pub added : after.sessions ≡ before.sessions ++ session ∷ []

abbrev pub Opens : GoogleSignIn → ℕ → (before after : Db) → Type 0
Opens host now before after = (after.sessions ≡ before.sessions) ⊎ OpensOne host now before after

pub record Same (sessions : List SessionRow) (db : Db) : Type 0 where
  pub same : db.sessions ≡ sessions

pub Same-IsOfSignIns : (sessions : List SessionRow) → IsOfSignIns (Same sessions)
Same-IsOfSignIns sessions = record { from = λ db db' s states h. record { same = s ∙ h.same } }

pub free_of : (a b : Bool) → (a || b) ≡ false → (a ≡ false) × (b ≡ false)
free_of a b h = (ground arith, ground arith)
