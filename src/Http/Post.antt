-- ===== src/Http/Post.antt =====
-- What holds of the database behind a handler, one rule for each first step of the handler: a test
-- that throws leaves the database as it is, and hands its outcome to what follows.
use ctf_website.Base.{◌≡◌, refl, Bool, true, false, Option, none, some}
use ctf_website.Schema.{Db}
use ctf_website.Http.{
  Exec, HttpError, Result, ok, err, continue, ◌>>=◌, ◌>>◌, throw_if, require, select, write, lift,
}

module _ (P : Db → Type 0) {B : Type 0} where
  pub throw_if_post :
      (test : Bool) (e : HttpError) (k : Exec B) (db : Db)
      → P db
      → (test ≡ false → P (k db).1)
      → P ((throw_if test e >> k) db).1
  unfolding throw_if ◌>>◌
  throw_if_post true e k db here later = here
  throw_if_post false e k db here later = later refl

  pub write_post :
      (change : Db → Db) (k : Exec B) (db : Db) → P (k (change db)).1 → P ((write change >> k) db).1
  unfolding write ◌>>◌
  write_post change k db h = h

  pub quiet_then_post :
      (m : Exec (Unit {0})) (k : Exec B) (db : Db)
      → (m db).1 ≡ db
      → P db
      → P (k db).1
      → P ((m >> k) db).1
  unfolding ◌>>◌
  quiet_then_post m k db same here later = go (m db).0 (m db).1 same
    where
      go : (r : Result (Unit {0})) (db' : Db) → db' ≡ db → P (continue (r, db') (λ _. k)).1
      go (ok a) db' s = rw s later
      go (err x) db' s = rw s here

  module _ {A : Type 0} where
    pub require_post :
        (o : Option A) (e : HttpError) (k : A → Exec B) (db : Db)
        → P db
        → ((a : A) → o ≡ some a → P (k a db).1)
        → P ((require o e >>= k) db).1
    unfolding require ◌>>=◌
    require_post none e k db here later = here
    require_post (some a) e k db here later = later a refl

    pub lift_post :
        (r : Result A) (k : A → Exec B) (db : Db)
        → P db
        → ((a : A) → r ≡ ok a → P (k a db).1)
        → P ((lift r >>= k) db).1
    unfolding lift ◌>>=◌
    lift_post (err e) k db here later = here
    lift_post (ok a) k db here later = later a refl

    pub select_post :
        (query : Db → A) (k : A → Exec B) (db : Db)
        → P (k (query db) db).1
        → P ((select query >>= k) db).1
    unfolding select ◌>>=◌
    select_post query k db h = h

    -- An action that leaves the database as it is.
    pub quiet_post :
        (m : Exec A) (k : A → Exec B) (db : Db)
        → (m db).1 ≡ db
        → P db
        → ((a : A) → (m db).0 ≡ ok a → P (k a db).1)
        → P ((m >>= k) db).1
    unfolding ◌>>=◌
    quiet_post m k db same here later = go (m db).0 (m db).1 refl same
      where
        go : (r : Result A) (db' : Db) → (m db).0 ≡ r → db' ≡ db → P (continue (r, db') k).1
        go (ok a) db' e s = rw s (later a e)
        go (err x) db' e s = rw s here
