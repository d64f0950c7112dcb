-- ===== src/Http/Returns.antt =====
-- What holds of the value that a handler returns, where it returns one.
use ctf_website.Base.{◌≡◌, refl, subst, Bool, true, false, Option, none, some}
use ctf_website.Schema.{Db}
use ctf_website.Http.{
  Exec, HttpError, Result, ok, err, continue, require, throw_if, write, select, ◌>>=◌, ◌>>◌,
}

abbrev pub OnOk : {A : Type 0} → (A → Type 0) → Result A → Type 0
OnOk Q (ok a) = Q a
OnOk Q (err e) = Unit

module _ {B : Type 0} (Q : B → Type 0) where
  pub bind_returns :
      {A : Type 0} (m : Exec A) (k : A → Exec B) (db : Db)
      → ((a : A) (db' : Db) → OnOk Q (k a db').0)
      → OnOk Q ((m >>= k) db).0
  unfolding ◌>>=◌
  bind_returns {A} m k db h = go (m db).0 (m db).1
    where
      go : (r : Result A) (db' : Db) → OnOk Q (continue (r, db') k).0
      go (ok a) db' = h a db'
      go (err e) db' = tt

  pub then_returns :
      (m : Exec (Unit {0})) (k : Exec B) (db : Db)
      → ((db' : Db) → OnOk Q (k db').0)
      → OnOk Q ((m >> k) db).0
  unfolding ◌>>◌
  then_returns m k db h = go (m db).0 (m db).1
    where
      go : (r : Result (Unit {0})) (db' : Db) → OnOk Q (continue (r, db') (λ _. k)).0
      go (ok a) db' = h db'
      go (err e) db' = tt

  pub throw_if_returns :
      (test : Bool) (e : HttpError) (k : Exec B) (db : Db)
      → OnOk Q (k db).0
      → OnOk Q ((throw_if test e >> k) db).0
  unfolding throw_if ◌>>◌
  throw_if_returns true e k db h = tt
  throw_if_returns false e k db h = h

  pub write_returns :
      (change : Db → Db) (k : Exec B) (db : Db)
      → OnOk Q (k (change db)).0
      → OnOk Q ((write change >> k) db).0
  unfolding write ◌>>◌
  write_returns change k db h = h

  pub select_returns :
      {A : Type 0} (query : Db → A) (k : A → Exec B) (db : Db)
      → OnOk Q (k (query db) db).0
      → OnOk Q ((select query >>= k) db).0
  unfolding select ◌>>=◌
  select_returns query k db h = h

  -- The same, with what the first action did.
  pub bind_at :
      {A : Type 0} (m : Exec A) (k : A → Exec B) (db : Db)
      → ((a : A) (db' : Db) → m db ≡ (ok a, db') → OnOk Q (k a db').0)
      → OnOk Q ((m >>= k) db).0
  unfolding ◌>>=◌
  bind_at {A} m k db h = go (m db).0 (m db).1 refl
    where
      go : (r : Result A) (db' : Db) → m db ≡ (r, db') → OnOk Q (continue (r, db') k).0
      go (ok a) db' e = h a db' e
      go (err x) db' e = tt

  -- A test that throws was false where the handler returns.
  pub throw_if_passes :
      (test : Bool) (e : HttpError) (k : Exec B) (db : Db)
      → (test ≡ false → OnOk Q (k db).0)
      → OnOk Q ((throw_if test e >> k) db).0
  unfolding throw_if ◌>>◌
  throw_if_passes true e k db h = tt
  throw_if_passes false e k db h = h refl

pub require_returns :
    {A : Type 0} (Q : A → Type 0) (o : Option A) (e : HttpError) (db : Db)
    → ((a : A) → o ≡ some a → Q a)
    → OnOk Q (require o e db).0
unfolding require
require_returns Q none e db h = tt
require_returns Q (some a) e db h = h a refl

ok_inj : {A : Type 0} {a b : A} → ok a ≡ ok b → a ≡ b
ok_inj h = cc

pub OnOk-ok : {A : Type 0} (Q : A → Type 0) (r : Result A) (a : A) → OnOk Q r → r ≡ ok a → Q a
OnOk-ok Q (ok b) a h e = let same : b ≡ a = ok_inj e in subst Q same h
OnOk-ok Q (err x) a h e = cc
