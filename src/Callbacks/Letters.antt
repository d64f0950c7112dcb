-- ===== src/Callbacks/Letters.antt =====
-- The mail to Kamva, demo/heartbeat/src/callbacks.ts. How `Intl` writes a time is a parameter.
use ctf_website.Base.{
  ℕ, zero, suc, ◌+◌, ◌-◌, ◌/◌, ◌%◌, max, String, Option, none, some, List, [], ◌∷◌, ◌++◌, or_else,
  if◌then◌else◌, ltb, ◌==◌, ◌<◌, ◌≡◌, arith, false, Bool-cases, inl, inr, refl,
}
use ctf_website.Base.Texts.{join_text, take_text, text_length, trim, is_empty, present}
use ctf_website.Callbacks.World.{LeadRow, VapiCall}
use ctf_website.Callbacks.Clean.{clean}

infixr 66 ◌⊕◌
abbrev pub ◌⊕◌ : String → String → String
s ⊕ t = join_text s t

-- A number in decimal digits.
abbrev digit : ℕ → String
digit n =
    if n == 0
    then "0"
    else if n == 1
    then "1"
    else if n == 2
    then "2"
    else if n == 3
    then "3"
    else if n == 4
    then "4"
    else if n == 5
    then "5"
    else if n == 6
    then "6"
    else if n == 7
    then "7"
    else if n == 8
    then "8"
    else "9"

decimal_of : ℕ → ℕ → String
decimal_of zero n = ""
decimal_of (suc fuel) n =
    let front = decimal_of fuel (n / 10) in if ltb n 10 then digit n else front ⊕ digit (n % 10)

tenth_lt : (n : ℕ) → ltb n 10 ≡ false → n / 10 < n
tenth_lt n h = ground arith

-- Whatever fuel above the number is given, the spelling is the same.
decimal_of_fuel : (f g n : ℕ) → n < f → n < g → decimal_of f n ≡ decimal_of g n
unfolding decimal_of
decimal_of_fuel zero g n h k = absurd (omega arith)
decimal_of_fuel (suc f) zero n h k = absurd (omega arith)
decimal_of_fuel (suc f) (suc g) n h k = elim (Bool-cases (ltb n 10)) [
  | inl small ↦ rw small refl
  | inr large ↦ rw (
    large,
    decimal_of_fuel f g (n / 10) (omega (arith, tenth_lt n large))
        (omega (arith, tenth_lt n large)),
  )
]

unfoldable pub decimal : ℕ → String
unfolding decimal_of
decimal n = decimal_of (suc n) n

-- `clean(lead.name, 80) || 'someone'`
unfoldable pub who_is : LeadRow → String
who_is lead = or_else (present (some (clean (some lead.name) 80))) "someone"

unfoldable pub supabase_note : String
supabase_note =
    "The request is in Supabase → Table Editor → leads; set contacted_at once you have called them."

module _ (sast_label : ℕ → String) where
  unfoldable pub lead_details : LeadRow → List String
  lead_details lead =
      ("Name:      " ⊕ lead.name)
      ∷ ("Business:  " ⊕ or_else lead.business_type "not given")
      ∷ ("Phone:     " ⊕ or_else lead.phone "not given")
      ∷ ("Message:   " ⊕ or_else lead.message "(none)")
      ∷ ("Asked:     " ⊕ sast_label lead.created_at ⊕ " (South African time)")
      ∷ []

  unfoldable pub gave_up_lines : LeadRow → String → String → List String
  unfolding lead_details supabase_note
  gave_up_lines lead who reason =
      ("Hope tried to return " ⊕ who ⊕ "'s callback request, but something went wrong: " ⊕ reason
        ⊕ ".")
      ∷ ""
      ∷ "She may or may not have spoken to them. Please call them yourself."
      ∷ ""
      ∷ (lead_details lead
          ++ (elim (present lead.callback_call_id) [ some id ↦ "Vapi call:  " ⊕ id | none ↦ "" ])
            ∷ ""
            ∷ supabase_note
            ∷ [])

  unfoldable pub unreached_lines : LeadRow → String → String → List String
  unfolding lead_details supabase_note
  unreached_lines lead who reason =
      ("Hope called " ⊕ who ⊕ " twice about their callback request and nobody answered (last: "
        ⊕ reason ⊕ ").")
      ∷ "If voicemail picked up, she left a message saying you'd be in touch."
      ∷ ""
      ∷ (lead_details lead ++ "" ∷ supabase_note ∷ [])

  -- The length of the call in minutes, at least 1.
  abbrev minutes_of : VapiCall → Option ℕ
  minutes_of call = elim (call.started_at) [
    | none ↦ none
    | some from ↦ elim (call.ended_at) [
      | none ↦ none
      | some to ↦ some (max 1 ((to - from + 30000) / 60000))
    ]
  ]

  abbrev call_line : VapiCall → String → String
  call_line call reason =
      "Call:      "
      ⊕ (elim (call.started_at) [ some at ↦ sast_label at | none ↦ "time unknown" ])
      ⊕ (elim (minutes_of call) [ some n ↦ ", about " ⊕ decimal n ⊕ " min" | none ↦ "" ])
      ⊕ ", ended: "
      ⊕ reason

  abbrev max_transcript_chars : ℕ
  max_transcript_chars = 12000

  abbrev transcript_line : String → String
  transcript_line transcript =
      if is_empty transcript
      then "(none)"
      else if ltb max_transcript_chars (text_length transcript)
      then take_text max_transcript_chars transcript
        ⊕ "\n[cut short; the full transcript is in Vapi]"
      else transcript

  unfoldable pub spoke_lines : LeadRow → VapiCall → String → String → Option String → List String
  unfolding lead_details supabase_note decimal
  spoke_lines lead call who reason summary =
      ("Hope returned " ⊕ who
        ⊕ "'s callback request from the website and told them you would call to take it further.")
      ∷ ""
      ∷ "Hope's notes:"
      ∷ or_else summary "(Vapi sent no summary. The transcript is below.)"
      ∷ ""
      ∷ (lead_details lead
          ++ ""
            ∷ call_line call reason
            ∷ (elim (present call.recording_url) [ some url ↦ "Recording: " ⊕ url | none ↦ "" ])
            ∷ ""
            ∷ "Transcript:"
            ∷ transcript_line (trim (or_else call.transcript ""))
            ∷ ""
            ∷ supabase_note
            ∷ [])
