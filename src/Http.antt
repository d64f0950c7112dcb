-- ===== src/Http.antt =====
-- The errors of app/worker/lib/http.ts, and handlers as actions on the database: a handler that
-- throws keeps what it has already written.
pub mod Body
pub mod Keeps
pub mod Post
pub mod Ends
pub mod Returns
mod Tests
use ctf_website.Base.{ℕ, String, Bool, true, false, Option, none, some}
use ctf_website.Schema.{Db}

pub record HttpError : Type 0 where
  pub status : ℕ
  pub code : String
  pub message : String
  pub retry_after : Option ℕ

abbrev http_error : ℕ → String → String → HttpError
http_error status code message = record {
  status = status;
  code = code;
  message = message;
  retry_after = none;
}

abbrev pub bad_request : String → HttpError
bad_request message = http_error 400 "bad_request" message

abbrev pub unauthorized : String → HttpError
unauthorized message = http_error 401 "unauthorized" message

abbrev pub forbidden : String → HttpError
forbidden message = http_error 403 "forbidden" message

abbrev pub not_found : String → HttpError
not_found message = http_error 404 "not_found" message

abbrev pub conflict : String → HttpError
conflict message = http_error 409 "conflict" message

abbrev pub too_many_requests : String → ℕ → HttpError
too_many_requests message seconds = record {
  status = 429;
  code = "rate_limited";
  message = message;
  retry_after = some seconds;
}

abbrev pub upstream_error : String → HttpError
upstream_error message = http_error 502 "upstream_error" message

pub data Result (A : Type 0) : Type 0 where
  ok : A → Result A
  err : HttpError → Result A

abbrev pub Exec : Type 0 → Type 0
Exec A = Db → Result A × Db

unfoldable pub pure : {A : Type 0} → A → Exec A
pure a db = (ok a, db)

unfoldable pub throw : {A : Type 0} → HttpError → Exec A
throw e db = (err e, db)

abbrev pub continue : {A B : Type 0} → Result A × Db → (A → Exec B) → Result B × Db
continue (ok a, db) k = k a db
continue (err e, db) k = (err e, db)

infixl 5 ◌>>=◌ ◌>>◌
unfoldable pub ◌>>=◌ : {A B : Type 0} → Exec A → (A → Exec B) → Exec B
◌>>=◌ m k db = continue (m db) k

unfoldable pub ◌>>◌ : {B : Type 0} → Exec (Unit {0}) → Exec B → Exec B
◌>>◌ m k db = continue (m db) (λ _. k)

-- `if (test) throw error`
unfoldable pub throw_if : Bool → HttpError → Exec (Unit {0})
throw_if true e db = (err e, db)
throw_if false e db = (ok tt, db)

-- `if (!row) throw error`
unfoldable pub require : {A : Type 0} → Option A → HttpError → Exec A
require none e db = (err e, db)
require (some a) e db = (ok a, db)

-- A query, and a statement that writes.
unfoldable pub select : {A : Type 0} → (Db → A) → Exec A
select query db = (ok (query db), db)

unfoldable pub write : (Db → Db) → Exec (Unit {0})
write change db = (ok tt, change db)

-- What has been computed already: a result that may be an error.
unfoldable pub lift : {A : Type 0} → Result A → Exec A
lift r db = (r, db)

abbrev pub recovered : {A : Type 0} → Result A × Db → (HttpError → Exec A) → Result A × Db
recovered (ok a, db) handler = (ok a, db)
recovered (err e, db) handler = handler e db

-- `try { … } catch (error) { … }`
unfoldable pub try_catch : {A : Type 0} → Exec A → (HttpError → Exec A) → Exec A
try_catch m handler db = recovered (m db) handler

-- One name for the operations above, for `unfolding` lines.
unfoldable pub exec : Unit {0}
unfolding pure throw ◌>>=◌ ◌>>◌ throw_if require select write lift try_catch
exec = tt
