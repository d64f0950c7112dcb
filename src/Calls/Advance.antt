-- ===== src/Calls/Advance.antt =====
-- The order on tables of calls that grow and whose rows move forward (app/worker/routes/calls.ts,
-- app/worker/routes/webhook.ts).
use ctf_website.Base.{
  ℕ, ◌≡◌, refl, ◌∙◌, Bool, true, some, List, [], ◌∷◌, ◌++◌, arith, update_where, inl, inr,
  Bool-cases, if_both,
}
use ctf_website.Schema.{CallRow, CallStatus}
use ctf_website.Calls.Status.{MayFollow, merge_status-MayFollow}
use ctf_website.Calls.Upsert.{merge_call, upsert_row}
use ctf_website.Calls.Finalize.{final_call}
use ctf_website.Vapi.Event.{Event}
use ctf_website.Vapi.Outcome.{Outcome}

-- A later state of a call: its identity and start stay, its status moves forward, and an end time
-- that is set once stays.
pub record IsLater (before after : CallRow) : Type 0 where
  pub same_id : after.id ≡ before.id
  pub same_org : after.org_id ≡ before.org_id
  pub same_vapi_call : after.vapi_call_id ≡ before.vapi_call_id
  pub same_start : after.started_at ≡ before.started_at
  pub forward : MayFollow before.status after.status
  pub end_kept : (t : ℕ) → before.ended_at ≡ some t → after.ended_at ≡ some t

pub IsLater-refl : (call : CallRow) → IsLater call call
IsLater-refl call = record {
  same_id = refl;
  same_org = refl;
  same_vapi_call = refl;
  same_start = refl;
  forward = (λ e. e, λ e. inl e);
  end_kept = λ t e. e;
}

MayFollow-trans : (a b c : CallStatus) → MayFollow a b → MayFollow b c → MayFollow a c
MayFollow-trans a b c f g = ground arith

pub IsLater-trans : (a b c : CallRow) → IsLater a b → IsLater b c → IsLater a c
IsLater-trans a b c f g = record {
  same_id = g.same_id ∙ f.same_id;
  same_org = g.same_org ∙ f.same_org;
  same_vapi_call = g.same_vapi_call ∙ f.same_vapi_call;
  same_start = g.same_start ∙ f.same_start;
  forward = MayFollow-trans a.status b.status c.status f.forward g.forward;
  end_kept = λ t e. g.end_kept t (f.end_kept t e);
}

-- Each row of the first table has its later state at the same place of the second.
abbrev pub Advances : List CallRow → List CallRow → Type 0
Advances [] after = Unit
Advances (call ∷ calls) [] = ⊥
Advances (call ∷ calls) (call' ∷ calls') = IsLater call call' × Advances calls calls'

pub Advances-refl : (calls : List CallRow) → Advances calls calls
Advances-refl [] = tt
Advances-refl (call ∷ calls) = (IsLater-refl call, Advances-refl calls)

pub Advances-trans : (as' bs cs : List CallRow) → Advances as' bs → Advances bs cs → Advances as' cs
Advances-trans [] bs cs f g = tt
Advances-trans (a ∷ as') [] cs f g = absurd f
Advances-trans (a ∷ as') (b ∷ bs) [] f g = absurd g
Advances-trans (a ∷ as') (b ∷ bs) (c ∷ cs) (f, fs) (g, gs) =
    (IsLater-trans a b c f g, Advances-trans as' bs cs fs gs)

pub Advances-append : (calls new : List CallRow) → Advances calls (calls ++ new)
Advances-append [] new = tt
Advances-append (call ∷ calls) new = (IsLater-refl call, Advances-append calls new)

pub Advances-update_where :
    (test : CallRow → Bool) (change : CallRow → CallRow) (calls : List CallRow)
    → ((call : CallRow) → test call ≡ true → IsLater call (change call))
    → Advances calls (update_where test change calls)
unfolding update_where
Advances-update_where test change [] later = tt
Advances-update_where test change (call ∷ calls) later = elim (Bool-cases (test call)) [
  | inl hit ↦ rw hit (later call hit, Advances-update_where test change calls later)
  | inr miss ↦ rw miss (IsLater-refl call, Advances-update_where test change calls later)
]

merge_call-IsLater : (excluded call : CallRow) → IsLater call (merge_call excluded call)
unfolding merge_call
merge_call-IsLater excluded call = record {
  same_id = refl;
  same_org = refl;
  same_vapi_call = refl;
  same_start = refl;
  forward = merge_status-MayFollow call.status excluded.status;
  end_kept = λ t e. e;
}

pub upsert_row-Advances :
    (excluded : CallRow) (calls : List CallRow) → Advances calls (upsert_row excluded calls)
unfolding upsert_row
upsert_row-Advances excluded calls =
    if_both (Advances calls) _
      (Advances-update_where _ _ calls (λ call _. merge_call-IsLater excluded call))
      (Advances-append calls (excluded ∷ []))

pub final_call-IsLater :
    (now ended_at duration_s : ℕ) (outcome : Outcome) (event : Event) (call : CallRow)
    → IsLater call (final_call now ended_at duration_s outcome event call)
unfolding final_call
final_call-IsLater now ended_at duration_s outcome event call = record {
  same_id = refl;
  same_org = refl;
  same_vapi_call = refl;
  same_start = refl;
  forward = (λ _. refl, λ _. inr refl);
  end_kept = λ t e. rw e;
}
