-- ===== src/Http/Ends.antt =====
-- What holds of the database where a handler returns.
use ctf_website.Base.{◌≡◌, refl, Bool, true, false}
use ctf_website.Schema.{Db}
use ctf_website.Http.{Exec, HttpError, Result, ok, err, continue, throw_if, ◌>>◌}

abbrev pub OnEnd : {A : Type 0} → (Db → Type 0) → Result A × Db → Type 0
OnEnd W (ok a, db) = W db
OnEnd W (err e, db) = Unit

pub test_end :
    (V : Db → Type 0) (test : Bool) (e : HttpError) (n : Exec (Unit {0})) (db : Db)
    → (test ≡ false → OnEnd V (n db))
    → OnEnd V ((throw_if test e >> n) db)
unfolding throw_if ◌>>◌
test_end V true e n db h = tt
test_end V false e n db h = h refl

-- What holds where a handler returns, and what holds where it throws.
abbrev pub Settles : {A : Type 0} → (W V : Db → Type 0) → Result A × Db → Type 0
Settles W V (ok a, db) = W db
Settles W V (err e, db) = V db

pub then-Settles :
    (U W V : Db → Type 0) (m n : Exec (Unit {0})) (db : Db)
    → Settles U V (m db)
    → ((db' : Db) → U db' → Settles W V (n db'))
    → Settles W V ((m >> n) db)
unfolding ◌>>◌
then-Settles U W V m n db h k = go (m db).0 (m db).1 h
  where
    go :
        (r : Result (Unit {0})) (db' : Db)
        → Settles U V (r, db')
        → Settles W V (continue (r, db') (λ _. n))
    go (ok a) db' h = k db' h
    go (err e) db' h = h

pub test-Settles :
    (W V : Db → Type 0) (test : Bool) (e : HttpError) (n : Exec (Unit {0})) (db : Db)
    → (test ≡ true → V db)
    → (test ≡ false → Settles W V (n db))
    → Settles W V ((throw_if test e >> n) db)
unfolding throw_if ◌>>◌
test-Settles W V true e n db h k = h refl
test-Settles W V false e n db h k = k refl

pub Settles-map :
    (U W S V : Db → Type 0) (end : Result (Unit {0}) × Db)
    → ((db : Db) → U db → W db)
    → ((db : Db) → S db → V db)
    → Settles U S end
    → Settles W V end
Settles-map U W S V (ok a, db) f g h = f db h
Settles-map U W S V (err e, db) f g h = g db h
