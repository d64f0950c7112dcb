-- ===== src/Callbacks/Run/Hours.antt =====
-- When and whom a run calls (demo/heartbeat/src/callbacks.ts, sast.ts).
use mathlib.Core.List.{append_assoc, append-nil}
use ctf_website.Base.{sym, ℕ, String, true, List, [], ◌∷◌, ◌++◌, ◌≡◌, All, All-append}
use ctf_website.Callbacks.World.{World, Turn, LeadRow, turn, take_turn, CallbackEnv, Dial}
use ctf_website.Callbacks.Number.{IsSouthAfrican, south_african_number-IsSouthAfrican}
use ctf_website.Callbacks.Run.{run_callbacks}
use ctf_website.Callbacks.Run.Quiet.{IsQuiet}
use ctf_website.Callbacks.Run.Keeps.{IsStable, Keeps-run_callbacks}
use ctf_website.Callbacks.Run.Calling.{dial_of, AllowsCall, Keeps-claim_and_call}
use ctf_website.Sast.{is_calling_time}

-- A call that may be placed at `now`.
pub record IsProper (now : ℕ) (dial : Dial) : Type 0 where
  pub hours : is_calling_time now ≡ true
  pub number : IsSouthAfrican dial.number

-- Calls behind those of `before`, each of them proper.
pub record Dialled (now : ℕ) (before : List Dial) (w : World) : Type 0 where
  pub added : List Dial
  pub all : w.dialled ≡ before ++ added
  pub proper : All (IsProper now) added

module _ (now : ℕ) (before : List Dial) where
  Dialled-turn : (w : World) → Dialled now before w → Dialled now before (turn w).1
  Dialled-turn w h = go w.turns
    where
      go : (ts : List Turn) → Dialled now before (take_turn ts w).1
      go [] = h
      go (t ∷ ts) = record { added = h.added; all = h.all; proper = h.proper }

  Dialled-IsQuiet : IsQuiet (Dialled now before)
  Dialled-IsQuiet = record {
    turns = Dialled-turn;
    notes = λ lines w h. record { added = h.added; all = h.all; proper = h.proper };
    mail = λ emails w h. record { added = h.added; all = h.all; proper = h.proper };
    gets = λ gets w h. record { added = h.added; all = h.all; proper = h.proper };
  }

  Dialled-leads :
      (leads : List LeadRow) (w : World)
      → Dialled now before w
      → Dialled now before (record w { leads = leads })
  Dialled-leads leads w h = record { added = h.added; all = h.all; proper = h.proper }

  Dialled-AllowsCall :
      (lead : LeadRow) (number : String)
      → is_calling_time now ≡ true
      → IsSouthAfrican number
      → AllowsCall now (Dialled now before) lead number
  Dialled-AllowsCall lead number hours good = record {
    quiet = Dialled-IsQuiet;
    posts = λ posts w h. record {
      added = h.added ++ dial_of lead number ∷ [];
      all = rw h.all (append_assoc before h.added (dial_of lead number ∷ []));
      proper =
          All-append (IsProper now) h.added (dial_of lead number ∷ [])
            (h.proper, (record { hours = hours; number = good }, tt));
    };
    claims = λ w h. Dialled-leads _ w h;
    starts = λ id attempt w h. Dialled-leads _ w h;
    returns = λ next_at reason w h. Dialled-leads _ w h;
    fails = λ attempt reason w h. Dialled-leads _ w h;
  }

  Dialled-IsStable :
      (env : CallbackEnv) (sast_label : ℕ → String)
      → IsStable env sast_label now (Dialled now before)
  Dialled-IsStable env sast_label = record {
    quiet = Dialled-IsQuiet;
    gives_up = λ lead reason at w h. Dialled-leads _ w h;
    retries = λ lead next_at reason at w h. Dialled-leads _ w h;
    misses = λ lead reason at w h. Dialled-leads _ w h;
    completes = λ lead reason summary at w h. Dialled-leads _ w h;
    skips = λ lead reason at w h. Dialled-leads _ w h;
    calls = λ lead number hours _ dialled. Keeps-claim_and_call env sast_label now _ lead number (
        Dialled-AllowsCall lead number hours
          (south_african_number-IsSouthAfrican lead.phone number dialled));
  }

-- Every call that a run asks Vapi for is asked for in calling hours and goes to a South African
-- number, and no earlier one is forgotten, whatever others write meanwhile and whichever requests
-- fail.
pub run_callbacks-Dialled :
    (env : CallbackEnv) (sast_label : ℕ → String) (now : ℕ) (w : World)
    → Dialled now w.dialled (run_callbacks env sast_label now w).1
run_callbacks-Dialled env sast_label now w =
    (Keeps-run_callbacks env sast_label now (Dialled now w.dialled)
        (Dialled-IsStable now w.dialled env sast_label)).at
      w (record { added = []; all = sym (append-nil w.dialled); proper = tt })
