-- ===== src/Auth.antt =====
-- The signed-in user and organization that a handler is given (app/worker/lib/auth.ts).
pub mod Session
pub mod Limiter
pub mod Login
pub mod Second
use ctf_website.Base.{ℕ, String, Option}
use ctf_website.Schema.{OrgRow, UserRow}

pub record AuthContext : Type 0 where
  pub user : UserRow
  pub org : OrgRow
  pub session_id : String
  pub stepped_up_until : Option ℕ
