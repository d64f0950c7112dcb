-- ===== src/Callbacks/Run/Calling.antt =====
-- What a call keeps (the second half of `startCall` of demo/heartbeat/src/callbacks.ts): an invariant
-- of the claim, the request to Vapi and the change that follows.
use ctf_website.Base.{ℕ, String, true, false, some, List, [], ◌∷◌, ◌++◌, ◌+◌}
use ctf_website.Base.Texts.{present}
use ctf_website.Callbacks.Clean.{clean}
use ctf_website.Callbacks.World.{
  World, LeadRow, CallbackEnv, Reply, told, refused, silent, Dial, post_call, next_post,
}
use ctf_website.Callbacks.Keeps.{
  Keeps, Keeps-then, Keeps-bind, Keeps-if, Keeps-pure, Keeps-update_lead,
}
use ctf_website.Callbacks.Letters.{◌⊕◌}
use ctf_website.Callbacks.Start.{
  claim_and_call, placed, back_in_queue, hand_over, as_calling, claimed, put_back, not_started,
  under_way,
}
use ctf_website.Callbacks.Run.Quiet.{
  Patches, Keeps-note_lead, Keeps-tell_kamva, Keeps-then_if, IsQuiet,
}

-- The request that `startCall` sends.
abbrev pub dial_of : LeadRow → String → Dial
dial_of lead number = record {
  lead_id = lead.id;
  number = number;
  name = present (some (clean (some lead.name) 40));
  attempt = lead.callback_attempts + 1;
}

-- What a call needs of an invariant.
pub record AllowsCall (now : ℕ) (P : World → Type 0) (lead : LeadRow) (number : String)
    : Type 0 where
  pub quiet : IsQuiet P
  pub posts :
      (posts : List (Reply String)) (w : World)
      → P w
      → P (record w { dialled = w.dialled ++ dial_of lead number ∷ []; posts = posts })
  pub claims : Patches P lead (claimed now number)
  pub starts : (id : String) (attempt : ℕ) → Patches P (as_calling now lead) (under_way id attempt)
  pub returns :
      (next_at : ℕ) (reason : String) → Patches P (as_calling now lead) (put_back next_at reason)
  pub fails :
      (attempt : ℕ) (reason : String) → Patches P (as_calling now lead) (not_started attempt reason)

module _ (env : CallbackEnv) (sast_label : ℕ → String) (now : ℕ) (P : World → Type 0)
    (lead : LeadRow) (number : String) (allows : AllowsCall now P lead number) where
  Keeps-post_call : Keeps P (post_call (dial_of lead number))
  unfolding post_call
  Keeps-post_call = record { at = λ w h. go w.posts w h }
    where
      go :
          (posts : List (Reply String)) (w : World)
          → P w
          → P (next_post posts (dial_of lead number) w).1
      go [] w h = allows.posts w.posts w h
      go (reply ∷ replies) w h = allows.posts replies w h

  Keeps-hand_over :
      (attempt : ℕ) (reason advice : String)
      → Keeps P (hand_over env sast_label now lead attempt reason advice)
  unfolding hand_over
  Keeps-hand_over attempt reason advice =
      Keeps-bind _ _ (Keeps-update_lead allows.quiet.turns _ _ (allows.fails attempt reason))
        (λ moved.
          Keeps-then _ _
            (Keeps-then_if env P allows.quiet moved _ (
              Keeps-then _ _ (Keeps-note_lead env P allows.quiet lead _)
                (Keeps-tell_kamva env P allows.quiet _ _)))
            (Keeps-pure false))

  Keeps-back_in_queue : (message : String) → Keeps P (back_in_queue env sast_label now lead message)
  unfolding back_in_queue
  Keeps-back_in_queue message =
      Keeps-bind _ _
        (Keeps-update_lead allows.quiet.turns _ _
          (allows.returns _ ("Vapi unavailable: " ⊕ message)))
        (λ _. Keeps-then _ _ (Keeps-note_lead env P allows.quiet lead _) (Keeps-pure false))

  Keeps-placed :
      (attempt : ℕ) (reply : Reply String) → Keeps P (placed env sast_label now lead attempt reply)
  unfolding placed
  Keeps-placed attempt (told id) =
      Keeps-bind _ _ (Keeps-update_lead allows.quiet.turns _ _ (allows.starts id attempt))
        (λ _. Keeps-then _ _ (Keeps-note_lead env P allows.quiet lead _) (Keeps-pure true))
  Keeps-placed attempt (refused status detail) =
      Keeps-if _ _ _ (Keeps-back_in_queue _) (Keeps-hand_over attempt _ _)
  Keeps-placed attempt (silent e) = Keeps-hand_over attempt _ _

  pub Keeps-claim_and_call : Keeps P (claim_and_call env sast_label now lead number)
  unfolding claim_and_call
  Keeps-claim_and_call =
      Keeps-bind _ _ (Keeps-update_lead allows.quiet.turns _ _ allows.claims) (λ mine.
        Keeps-if mine _ _ (Keeps-bind _ _ Keeps-post_call (λ reply. Keeps-placed _ reply))
          (Keeps-pure false))
