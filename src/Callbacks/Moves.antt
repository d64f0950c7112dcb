-- ===== src/Callbacks/Moves.antt =====
-- The course of a lead, as demo/heartbeat/src/callbacks.ts draws it above its code, and tables whose
-- leads follow it.
use ctf_website.Base.{
  true, Option, none, some, List, [], ◌∷◌, ◌≡◌, refl, ◌∙◌, update_where, Bool-cases, inl, inr,
  arith,
}
use ctf_website.Callbacks.World.{
  LeadRow, Status, pending, calling, completed, no_answer, failed, skipped, is_unmoved, same_status,
}

-- One arrow of the drawing. A call that is recorded stays `calling`.
pub data Arrow : Status → Status → Type 0 where
  claim : Arrow pending calling
  skip : Arrow pending skipped
  record_call : Arrow calling calling
  finish : Arrow calling completed
  retry : Arrow calling pending
  miss : Arrow calling no_answer
  fail : Arrow calling failed

-- Any number of arrows; a lead without a status never gets one.
pub data Course (from : Option Status) : Option Status → Type 0 where
  here : Course from from
  next : {s t : Status} → Course from (some s) → Arrow s t → Course from (some t)

pub Course-trans : {a b c : Option Status} → Course a b → Course b c → Course a c
Course-trans first here = first
Course-trans first (next second arrow) = next (Course-trans first second) arrow

-- The same request, further on its course.
pub record RowMoves (row row' : LeadRow) : Type 0 where
  pub same_id : row'.id ≡ row.id
  pub same_name : row'.name ≡ row.name
  pub same_phone : row'.phone ≡ row.phone
  pub same_message : row'.message ≡ row.message
  pub same_time : row'.created_at ≡ row.created_at
  pub course : Course row.callback_status row'.callback_status

RowMoves-refl : (row : LeadRow) → RowMoves row row
RowMoves-refl row = record {
  same_id = refl;
  same_name = refl;
  same_phone = refl;
  same_message = refl;
  same_time = refl;
  course = here;
}

RowMoves-trans : (a b c : LeadRow) → RowMoves a b → RowMoves b c → RowMoves a c
RowMoves-trans a b c first second = record {
  same_id = second.same_id ∙ first.same_id;
  same_name = second.same_name ∙ first.same_name;
  same_phone = second.same_phone ∙ first.same_phone;
  same_message = second.same_message ∙ first.same_message;
  same_time = second.same_time ∙ first.same_time;
  course = Course-trans first.course second.course;
}

-- Every row is still there, further on its course; new rows stand behind.
abbrev pub Moves : List LeadRow → List LeadRow → Type 0
Moves [] rows' = Unit
Moves (row ∷ rows) [] = ⊥
Moves (row ∷ rows) (row' ∷ rows') = RowMoves row row' × Moves rows rows'

pub Moves-refl : (rows : List LeadRow) → Moves rows rows
Moves-refl [] = tt
Moves-refl (row ∷ rows) = (RowMoves-refl row, Moves-refl rows)

pub Moves-trans : (a b c : List LeadRow) → Moves a b → Moves b c → Moves a c
Moves-trans [] b c h k = tt
Moves-trans (x ∷ a) [] c h k = absurd h
Moves-trans (x ∷ a) (y ∷ b) [] h k = absurd k
Moves-trans (x ∷ a) (y ∷ b) (z ∷ c) h k = (RowMoves-trans x y z h.0 k.0, Moves-trans a b c h.1 k.1)

-- A change that takes an arrow in each row that it is made in.
abbrev pub TakesArrow : LeadRow → (LeadRow → LeadRow) → Type 0
TakesArrow lead fields = (row : LeadRow) → is_unmoved lead row ≡ true → RowMoves row (fields row)

pub Moves-update_where :
    (lead : LeadRow) (fields : LeadRow → LeadRow) (rows : List LeadRow)
    → TakesArrow lead fields
    → Moves rows (update_where (is_unmoved lead) fields rows)
unfolding update_where
Moves-update_where lead fields [] takes = tt
Moves-update_where lead fields (row ∷ rows) takes = elim (Bool-cases (is_unmoved lead row)) [
  | inl hit ↦ rw hit (takes row hit, Moves-update_where lead fields rows takes)
  | inr other ↦ rw other (RowMoves-refl row, Moves-update_where lead fields rows takes)
]

pub same_status_sound : (a b : Option Status) → same_status a b ≡ true → a ≡ b
same_status_sound none none h = refl
same_status_sound (some a) (some b) h = ground arith
same_status_sound none (some b) h = ground arith
same_status_sound (some a) none h = ground arith

pub is_unmoved_status :
    (lead row : LeadRow) → is_unmoved lead row ≡ true → row.callback_status ≡ lead.callback_status
unfolding is_unmoved
is_unmoved_status lead row h = same_status_sound _ _ (ground arith)

one_arrow : {s t : Status} (a b : Option Status) → a ≡ some s → b ≡ some t → Arrow s t → Course a b
one_arrow a b from to arrow = rw (from, to) (next here arrow)

-- A change of the status from `s` to `t`, and of nothing that the visitor sent.
pub record Sets (s t : Status) (fields : LeadRow → LeadRow) : Type 0 where
  pub arrow : Arrow s t
  pub status :
      (row : LeadRow) → row.callback_status ≡ some s → (fields row).callback_status ≡ some t
  pub id : (row : LeadRow) → (fields row).id ≡ row.id
  pub name : (row : LeadRow) → (fields row).name ≡ row.name
  pub phone : (row : LeadRow) → (fields row).phone ≡ row.phone
  pub message : (row : LeadRow) → (fields row).message ≡ row.message
  pub time : (row : LeadRow) → (fields row).created_at ≡ row.created_at

pub Sets-TakesArrow :
    (s t : Status) (lead : LeadRow) (fields : LeadRow → LeadRow)
    → Sets s t fields
    → lead.callback_status ≡ some s
    → TakesArrow lead fields
Sets-TakesArrow s t lead fields sets at row hit = record {
  same_id = sets.id row;
  same_name = sets.name row;
  same_phone = sets.phone row;
  same_message = sets.message row;
  same_time = sets.time row;
  course =
      let was = is_unmoved_status lead row hit ∙ at in
      one_arrow _ _ was (sets.status row was) sets.arrow;
}
