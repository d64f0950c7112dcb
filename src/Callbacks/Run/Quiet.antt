-- ===== src/Callbacks/Run/Quiet.antt =====
-- The requests of a run that leave the leads alone, and changes of a lead
-- (demo/heartbeat/src/callbacks.ts).
use ctf_website.Base.{String, Bool, Option, none, some, List, [], ◌∷◌, ◌++◌, update_where}
use ctf_website.Base.Texts.{present}
use ctf_website.Callbacks.World.{
  ◌>>=◌, update_lead, World, LeadRow, Task, turn, CallbackEnv, Reply, VapiCall, Email, note,
  tell_kamva, send, get_call, next_get, is_unmoved, update_lead,
}
use ctf_website.Callbacks.Keeps.{Keeps, Keeps-update_lead, Keeps-bind, Keeps-if, Keeps-pure}
use ctf_website.Callbacks.FollowUp.{note_lead, then_if}

abbrev pub Patches : (World → Type 0) → LeadRow → (LeadRow → LeadRow) → Type 0
Patches P lead fields =
    (w : World) → P w → P (record w { leads = update_where (is_unmoved lead) fields w.leads })

-- An invariant of the requests that leave the leads alone.
pub record IsQuiet (P : World → Type 0) : Type 0 where
  pub turns : (w : World) → P w → P (turn w).1
  pub notes : (lines : List String) (w : World) → P w → P (record w { notes = lines })
  pub mail : (emails : List Email) (w : World) → P w → P (record w { emails = emails })
  pub gets : (gets : List (Reply VapiCall)) (w : World) → P w → P (record w { gets = gets })

module _ (env : CallbackEnv) (P : World → Type 0) (quiet : IsQuiet P) where
  pub Keeps-note : (line : String) → Keeps P (note line)
  unfolding note
  Keeps-note line = record { at = λ w h. quiet.notes (w.notes ++ line ∷ []) w h }

  pub Keeps-note_lead : (lead : LeadRow) (text : String) → Keeps P (note_lead lead text)
  unfolding note_lead
  Keeps-note_lead lead text = Keeps-note _

  pub Keeps-tell_kamva :
      (subject : String) (lines : List String) → Keeps P (tell_kamva env subject lines)
  unfolding tell_kamva
  Keeps-tell_kamva subject lines = record { at = λ w h. go (present env.email_api_key) _ w h }
    where
      go : (key : Option String) (email : Email) (w : World) → P w → P (send key email w).1
      go none email w h = h
      go (some key) email w h = quiet.mail (w.emails ++ email ∷ []) w h

  pub Keeps-get_call : (id : String) → Keeps P (get_call id)
  unfolding get_call
  Keeps-get_call id = record { at = λ w h. go w.gets w h }
    where
      go : (gets : List (Reply VapiCall)) (w : World) → P w → P (next_get gets w).1
      go [] w h = h
      go (reply ∷ replies) w h = quiet.gets replies w h

  pub Keeps-then_if :
      (moved : Bool) (rest : Task (Unit {0})) → Keeps P rest → Keeps P (then_if moved rest)
  unfolding then_if
  Keeps-then_if moved rest h = Keeps-if moved _ _ h (Keeps-pure tt)

  -- A change of a lead, and what it is followed by where the lead had not moved on.
  pub Keeps-change :
      (lead : LeadRow) (fields : LeadRow → LeadRow) (rest : Task (Unit {0}))
      → Patches P lead fields
      → Keeps P rest
      → Keeps P (update_lead lead fields >>= λ moved. then_if moved rest)
  Keeps-change lead fields rest patches h =
      Keeps-bind _ _ (Keeps-update_lead quiet.turns lead fields patches)
        (λ moved. Keeps-then_if moved rest h)
