-- ===== src/Http/Keeps.antt =====
-- Invariants of handlers: what holds of the database before holds after, whether the handler
-- returns or throws. One rule for each way to build a handler.
use ctf_website.Base.{Bool, true, false, Option, none, some, if◌then◌else◌}
use ctf_website.Schema.{Db}
use ctf_website.Http.{
  Exec, HttpError, Result, ok, err, pure, throw, ◌>>=◌, ◌>>◌, throw_if, require, select, write,
  lift, continue,
}

pub record Keeps {A : Type 0} (P : Db → Type 0) (m : Exec A) : Type 0 where
  pub at : (db : Db) → P db → P (m db).1

module _ {P : Db → Type 0} where
  pub Keeps-throw_if : (b : Bool) (e : HttpError) → Keeps P (throw_if b e)
  unfolding throw_if
  Keeps-throw_if true e = record { at = λ db h. h }
  Keeps-throw_if false e = record { at = λ db h. h }

  pub Keeps-write : (change : Db → Db) → ((db : Db) → P db → P (change db)) → Keeps P (write change)
  unfolding write
  Keeps-write change keep = record { at = keep }

module _ {P : Db → Type 0} {A : Type 0} where
  pub Keeps-lift : (result : Result A) → Keeps P (lift result)
  unfolding lift
  Keeps-lift result = record { at = λ found held. held }

  pub Keeps-pure : (a : A) → Keeps P (pure a)
  unfolding pure
  Keeps-pure a = record { at = λ db h. h }

  pub Keeps-throw : (e : HttpError) → Keeps P (throw {A = A} e)
  unfolding throw
  Keeps-throw e = record { at = λ db h. h }

  pub Keeps-require : (o : Option A) (e : HttpError) → Keeps P (require o e)
  unfolding require
  Keeps-require none e = record { at = λ db h. h }
  Keeps-require (some a) e = record { at = λ db h. h }

  pub Keeps-select : (query : Db → A) → Keeps P (select query)
  unfolding select
  Keeps-select query = record { at = λ db h. h }

  pub Keeps-if : (b : Bool) (m n : Exec A) → Keeps P m → Keeps P n → Keeps P (if b then m else n)
  Keeps-if true m n km kn = km
  Keeps-if false m n km kn = kn

module _ {P : Db → Type 0} {A B : Type 0} where
  pub Keeps-bind :
      (m : Exec A) (k : A → Exec B) → Keeps P m → ((a : A) → Keeps P (k a)) → Keeps P (m >>= k)
  unfolding ◌>>=◌
  Keeps-bind m k km kk = record { at = λ db h. let (r, db') = m db in go r db' (km.at db h) }
    where
      go : (r : Result A) (db : Db) → P db → P (continue (r, db) k).1
      go (ok a) db h = (kk a).at db h
      go (err e) db h = h

module _ {P : Db → Type 0} {B : Type 0} where
  pub Keeps-then : (m : Exec (Unit {0})) (n : Exec B) → Keeps P m → Keeps P n → Keeps P (m >> n)
  unfolding ◌>>◌
  Keeps-then m n km kn = record { at = λ db h. let (r, db') = m db in go r db' (km.at db h) }
    where
      go : (r : Result (Unit {0})) (db : Db) → P db → P (continue (r, db) (λ _. n)).1
      go (ok a) db h = kn.at db h
      go (err e) db h = h

-- An action that keeps `P`, followed by one that leads from `P` to `Q`.
pub then_after :
    {B : Type 0} (P Q : Db → Type 0) (m : Exec (Unit {0})) (n : Exec B)
    → Keeps P m
    → ((db : Db) → P db → Q db)
    → ((db : Db) → P db → Q (n db).1)
    → (db : Db) → P db
    → Q ((m >> n) db).1
unfolding ◌>>◌
then_after P Q m n keeps stop next db h = go (m db).0 (m db).1 (keeps.at db h)
  where
    go : (r : Result (Unit {0})) (db' : Db) → P db' → Q (continue (r, db') (λ _. n)).1
    go (ok a) db' h' = next db' h'
    go (err e) db' h' = stop db' h'

pub ruleset keeps_rules = (
  Keeps-pure, Keeps-throw, Keeps-throw_if, Keeps-require, Keeps-select, Keeps-lift, Keeps-if,
  Keeps-bind, Keeps-then,
)
