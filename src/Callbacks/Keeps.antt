-- ===== src/Callbacks/Keeps.antt =====
-- Invariants of the tasks of the call-back worker (demo/heartbeat/src/callbacks.ts): what holds
-- before holds after, whether the task returns or throws.
use ctf_website.Base.{update_where, Bool, true, false, List, if◌then◌else◌, String}
use ctf_website.Callbacks.World.{
  World, Task, Result, ok, thrown, continue, recover, update_lead, patch_in, is_unmoved, ◌>>=◌,
  ◌>>◌, pure, try_catch, LeadRow, read_leads, answer, turn, Fate, served, down, lost,
}

pub record Keeps {A : Type 0} (P : World → Type 0) (m : Task A) : Type 0 where
  pub at : (w : World) → P w → P (m w).1

module _ {P : World → Type 0} {A B : Type 0} where
  pub Keeps-bind :
      (m : Task A) (k : A → Task B) → Keeps P m → ((a : A) → Keeps P (k a)) → Keeps P (m >>= k)
  unfolding ◌>>=◌
  Keeps-bind m k km kk = record { at = λ w h. go (m w) (km.at w h) }
    where
      go : (r : Result A × World) → P r.1 → P (continue r k).1
      go (ok a, w) h = (kk a).at w h
      go (thrown e, w) h = h

module _ {P : World → Type 0} {B : Type 0} where
  pub Keeps-then : (m : Task (Unit {0})) (n : Task B) → Keeps P m → Keeps P n → Keeps P (m >> n)
  unfolding ◌>>◌
  Keeps-then m n km kn = record { at = λ w h. go (m w) (km.at w h) }
    where
      go : (r : Result (Unit {0}) × World) → P r.1 → P (continue r (λ _. n)).1
      go (ok a, w) h = kn.at w h
      go (thrown e, w) h = h

module _ {P : World → Type 0} {A : Type 0} where
  pub Keeps-pure : (a : A) → Keeps P (pure a)
  unfolding pure
  Keeps-pure a = record { at = λ w h. h }

  pub Keeps-if : (b : Bool) (m n : Task A) → Keeps P m → Keeps P n → Keeps P (if b then m else n)
  Keeps-if true m n km kn = km
  Keeps-if false m n km kn = kn

  pub Keeps-try_catch :
      (m : Task A) (handler : String → Task A)
      → Keeps P m
      → ((e : String) → Keeps P (handler e))
      → Keeps P (try_catch m handler)
  unfolding try_catch
  Keeps-try_catch m handler km kh = record { at = λ w h. go (m w) (km.at w h) }
    where
      go : (r : Result A × World) → P r.1 → P (recover r handler).1
      go (ok a, w) h = h
      go (thrown e, w) h = (kh e).at w h

-- Requests to the database, where what others write keeps `P` too.
module _ {P : World → Type 0} (quiet : (w : World) → P w → P (turn w).1) where
  pub Keeps-read :
      {A B : Type 0} (query : List LeadRow → A) (k : A → Task B)
      → ((rows : List LeadRow) → Keeps P (k (query rows)))
      → Keeps P (read_leads query >>= k)
  unfolding read_leads ◌>>=◌
  Keeps-read query k kk = record { at = λ w h. go (turn w) (quiet w h) }
    where
      go : (t : Fate × World) → P t.1 → P (continue (answer query t) k).1
      go (served, w) h = (kk w.leads).at w h
      go (down e, w) h = h
      go (lost e, w) h = h

  pub Keeps-update_lead :
      (lead : LeadRow) (fields : LeadRow → LeadRow)
      → ((w : World) → P w → P (record w { leads = update_where (is_unmoved lead) fields w.leads }))
      → Keeps P (update_lead lead fields)
  unfolding update_lead
  Keeps-update_lead lead fields patches = record { at = λ w h. go (turn w) (quiet w h) }
    where
      go : (t : Fate × World) → P t.1 → P (patch_in lead fields t).1
      go (served, w) h = patches w h
      go (down e, w) h = h
      go (lost e, w) h = patches w h

pub ruleset keeps_rules = (Keeps-pure, Keeps-if, Keeps-bind, Keeps-then, Keeps-try_catch)
