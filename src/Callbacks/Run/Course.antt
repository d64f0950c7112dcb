-- ===== src/Callbacks/Run/Course.antt =====
-- Runs of the worker keep every lead on its course (demo/heartbeat/src/callbacks.ts), whatever
-- other runs and the website do meanwhile, as long as they keep to it too.
use ctf_website.Callbacks.Run.Keeps.{Keeps-run_callbacks, IsStable}
use ctf_website.Callbacks.Run.Calling.{AllowsCall, Keeps-claim_and_call}
use ctf_website.Callbacks.Run.{run_callbacks}
use ctf_website.Callbacks.Start.{put_back, skipped_as, claimed, under_way, not_started}
use ctf_website.Callbacks.Run.Quiet.{Patches, IsQuiet}
use ctf_website.Base.{ℕ, String, Option, some, List, [], ◌∷◌, ◌≡◌, refl, All}
use ctf_website.Callbacks.World.{World, Turn, LeadRow, Status, turn, CallbackEnv, take_turn}
use ctf_website.Callbacks.Moves.{
  Moves, Moves-refl, Moves-trans, Moves-update_where, Sets, Sets-TakesArrow, claim, skip,
  record_call, finish, retry, miss, fail,
}
use ctf_website.Callbacks.FollowUp.{gave_up, requeued, unreached, spoken_to}

-- Others keep to the course.
pub record IsOrderly (t : Turn) : Type 0 where
  pub orderly : (rows : List LeadRow) → Moves rows (t.others rows)

pub record Follows (start : List LeadRow) (w : World) : Type 0 where
  pub moved : Moves start w.leads
  pub others : All IsOrderly w.turns

Sets-gave_up : (reason : String) → Sets Status.calling Status.failed (gave_up reason)
Sets-gave_up reason = record {
  arrow = fail;
  status = λ _ _. refl;
  id = λ _. refl;
  name = λ _. refl;
  phone = λ _. refl;
  message = λ _. refl;
  time = λ _. refl;
}

Sets-requeued :
    (next_at : ℕ) (reason : String) → Sets Status.calling Status.pending (requeued next_at reason)
Sets-requeued next_at reason = record {
  arrow = retry;
  status = λ _ _. refl;
  id = λ _. refl;
  name = λ _. refl;
  phone = λ _. refl;
  message = λ _. refl;
  time = λ _. refl;
}

Sets-unreached : (reason : String) → Sets Status.calling Status.no_answer (unreached reason)
Sets-unreached reason = record {
  arrow = miss;
  status = λ _ _. refl;
  id = λ _. refl;
  name = λ _. refl;
  phone = λ _. refl;
  message = λ _. refl;
  time = λ _. refl;
}

Sets-spoken_to :
    (reason : String) (summary : Option String)
    → Sets Status.calling Status.completed (spoken_to reason summary)
Sets-spoken_to reason summary = record {
  arrow = finish;
  status = λ _ _. refl;
  id = λ _. refl;
  name = λ _. refl;
  phone = λ _. refl;
  message = λ _. refl;
  time = λ _. refl;
}

Sets-skipped_as : (reason : String) → Sets Status.pending Status.skipped (skipped_as reason)
Sets-skipped_as reason = record {
  arrow = skip;
  status = λ _ _. refl;
  id = λ _. refl;
  name = λ _. refl;
  phone = λ _. refl;
  message = λ _. refl;
  time = λ _. refl;
}

Sets-claimed : (now : ℕ) (number : String) → Sets Status.pending Status.calling (claimed now number)
Sets-claimed now number = record {
  arrow = claim;
  status = λ _ _. refl;
  id = λ _. refl;
  name = λ _. refl;
  phone = λ _. refl;
  message = λ _. refl;
  time = λ _. refl;
}

Sets-put_back :
    (next_at : ℕ) (reason : String) → Sets Status.calling Status.pending (put_back next_at reason)
Sets-put_back next_at reason = record {
  arrow = retry;
  status = λ _ _. refl;
  id = λ _. refl;
  name = λ _. refl;
  phone = λ _. refl;
  message = λ _. refl;
  time = λ _. refl;
}

Sets-not_started :
    (attempt : ℕ) (reason : String) → Sets Status.calling Status.failed (not_started attempt reason)
Sets-not_started attempt reason = record {
  arrow = fail;
  status = λ _ _. refl;
  id = λ _. refl;
  name = λ _. refl;
  phone = λ _. refl;
  message = λ _. refl;
  time = λ _. refl;
}

Sets-under_way :
    (id : String) (attempt : ℕ) → Sets Status.calling Status.calling (under_way id attempt)
Sets-under_way id attempt = record {
  arrow = record_call;
  status = λ _ at. at;
  id = λ _. refl;
  name = λ _. refl;
  phone = λ _. refl;
  message = λ _. refl;
  time = λ _. refl;
}

module _ (start : List LeadRow) where
  Follows-turn : (w : World) → Follows start w → Follows start (turn w).1
  Follows-turn w h = go w.turns h.others
    where
      go : (ts : List Turn) → All IsOrderly ts → Follows start (take_turn ts w).1
      go [] others = h
      go (t ∷ ts) others = record {
        moved = Moves-trans start w.leads _ h.moved (others.0.orderly w.leads);
        others = others.1;
      }

  Follows-IsQuiet : IsQuiet (Follows start)
  Follows-IsQuiet = record {
    turns = Follows-turn;
    notes = λ lines w h. record { moved = h.moved; others = h.others };
    mail = λ emails w h. record { moved = h.moved; others = h.others };
    gets = λ gets w h. record { moved = h.moved; others = h.others };
  }

  module _ {s t : Status} (lead : LeadRow) (fields : LeadRow → LeadRow) where
    Follows-patch :
        Sets s t fields → lead.callback_status ≡ some s → Patches (Follows start) lead fields
    Follows-patch sets at w h = record {
      moved =
          Moves-trans start w.leads _ h.moved
            (Moves-update_where lead fields w.leads (Sets-TakesArrow _ _ lead fields sets at));
      others = h.others;
    }

  Follows-AllowsCall :
      (now : ℕ) (lead : LeadRow) (number : String)
      → lead.callback_status ≡ some Status.pending
      → AllowsCall now (Follows start) lead number
  Follows-AllowsCall now lead number waiting = record {
    quiet = Follows-IsQuiet;
    posts = λ posts w h. record { moved = h.moved; others = h.others };
    claims = Follows-patch lead _ (Sets-claimed now number) waiting;
    starts = λ id attempt. Follows-patch _ _ (Sets-under_way id attempt) refl;
    returns = λ next_at reason. Follows-patch _ _ (Sets-put_back next_at reason) refl;
    fails = λ attempt reason. Follows-patch _ _ (Sets-not_started attempt reason) refl;
  }

  Follows-IsStable :
      (env : CallbackEnv) (sast_label : ℕ → String) (now : ℕ)
      → IsStable env sast_label now (Follows start)
  Follows-IsStable env sast_label now = record {
    quiet = Follows-IsQuiet;
    gives_up = λ lead reason at. Follows-patch lead _ (Sets-gave_up reason) at;
    retries = λ lead next_at reason at. Follows-patch lead _ (Sets-requeued next_at reason) at;
    misses = λ lead reason at. Follows-patch lead _ (Sets-unreached reason) at;
    completes = λ lead reason summary at. Follows-patch lead _ (Sets-spoken_to reason summary) at;
    skips = λ lead reason at. Follows-patch lead _ (Sets-skipped_as reason) at;
    calls = λ lead number _ waiting _.
        Keeps-claim_and_call env sast_label now _ lead number
          (Follows-AllowsCall now lead number waiting);
  }

-- Through a run every lead keeps what its visitor sent, and its status follows the arrows that the
-- code draws for it: one that is completed, skipped, failed, without an answer or without a status
-- stays so. Others may write to the table between any two requests, as long as they keep to this as
-- well, and any request may fail.
pub run_callbacks-Moves :
    (env : CallbackEnv) (sast_label : ℕ → String) (now : ℕ) (w : World)
    → All IsOrderly w.turns
    → Moves w.leads (run_callbacks env sast_label now w).1.leads
run_callbacks-Moves env sast_label now w others =
    ((Keeps-run_callbacks env sast_label now (Follows w.leads)
        (Follows-IsStable w.leads env sast_label now)).at
      w (record { moved = Moves-refl w.leads; others = others })).moved
