-- ===== src/Callbacks/Outcome.antt =====
-- `outcomeOf` of demo/heartbeat/src/callbacks.ts: how a finished call went.
use ctf_website.Base.{
  ℕ, String, Bool, true, false, not, ◌||◌, ◌&&◌, Option, none, some, List, [], ◌∷◌, str_eq, or_else,
  if◌then◌else◌, ◌==◌,
}
use ctf_website.Base.Texts.{codes, trim, is_empty, lower_code}
use ctf_website.Callbacks.World.{VapiCall, CallMessage}

pub data CallOutcome : Type 0 where
  completed no_answer failed : CallOutcome

is_prefix : List ℕ → List ℕ → Bool
is_prefix [] cs = true
is_prefix (w ∷ ws) [] = false
is_prefix (w ∷ ws) (c ∷ cs) = c == w && is_prefix ws cs

occurs : List ℕ → List ℕ → Bool
unfolding is_prefix
occurs ws [] = is_prefix ws []
occurs ws (c ∷ cs) = is_prefix ws (c ∷ cs) || occurs ws cs

-- `/word/.test(s)`
contains : String → String → Bool
unfolding occurs
contains word s = occurs (codes word) (codes s)

any_of : List String → String → Bool
unfolding contains
any_of [] s = false
any_of (word ∷ words) s = contains word s || any_of words s

abbrev no_answer_words : List String
no_answer_words = "no-answer" ∷ "temporarily-unavailable" ∷ []

abbrev failure_words : List String
failure_words =
    "error" ∷ "fault" ∷ "failed" ∷ "not-found" ∷ "not-valid" ∷ "misdialed" ∷ "rejected"
    ∷ "disconnected" ∷ "closed-websocket" ∷ "worker-shutdown" ∷ "canceled" ∷ "deleted" ∷ []

is_no_answer : String → Bool
unfolding any_of
is_no_answer reason =
    str_eq reason "customer-did-not-answer"
    || str_eq reason "customer-busy"
    || str_eq reason "voicemail"
    || any_of no_answer_words reason

is_failure : String → Bool
unfolding any_of
is_failure reason = any_of failure_words reason

abbrev spoken : Option String → Bool
spoken role = str_eq (or_else role "") "user"

some_spoke : List CallMessage → Bool
some_spoke [] = false
some_spoke (m ∷ ms) =
    (spoken m.role && not (is_empty (trim (or_else m.message "")))) || some_spoke ms

is_line_end : ℕ → Bool
is_line_end c = c == 10 || c == 13 || c == 0x2028 || c == 0x2029

is_prefix_any_case : List ℕ → List ℕ → Bool
is_prefix_any_case [] cs = true
is_prefix_any_case (w ∷ ws) [] = false
is_prefix_any_case (w ∷ ws) (c ∷ cs) = lower_code c == w && is_prefix_any_case ws cs

-- The same after a line's end.
at_a_line : List ℕ → List ℕ → Bool
unfolding is_line_end is_prefix_any_case
at_a_line ws [] = false
at_a_line ws (c ∷ cs) = (is_line_end c && is_prefix_any_case ws cs) || at_a_line ws cs

-- `/^user:/im`
has_user_line : String → Bool
unfolding at_a_line is_prefix_any_case
has_user_line transcript =
    is_prefix_any_case (codes "user:") (codes transcript)
    || at_a_line (codes "user:") (codes transcript)

customer_spoke : VapiCall → Bool
unfolding some_spoke has_user_line
customer_spoke call = elim (call.messages) [
  | some messages ↦ some_spoke messages
  | none ↦ has_user_line (or_else call.transcript "")
]

unfoldable pub outcome_of : VapiCall → CallOutcome
unfolding is_no_answer is_failure customer_spoke
outcome_of call =
    let reason = or_else call.ended_reason "" in
    if is_no_answer reason
    then no_answer
    else if is_failure reason
    then failed
    else if customer_spoke call
    then completed
    else no_answer
