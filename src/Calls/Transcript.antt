-- ===== src/Calls/Transcript.antt =====
-- `appendTranscriptLine` of app/worker/routes/calls.ts: one statement, which takes the next `seq`
-- of its call, and is ignored where the unique index on (call_id, seq) refuses it.
use mathlib.Core.Bool.{◌&&◌}
use ctf_website.Base.{
  ℕ, suc, ◌+◌, ◌<◌, max, ◌≡◌, refl, Bool, String, str_eq, List, [], ◌∷◌, ◌++◌, ◌==◌, if◌then◌else◌,
  is_some, arith, find_first, count_where, none, eq_iff, inl, inr, Bool-cases,
}
use ctf_website.Schema.{TranscriptRow, Speaker, CallRow}
use ctf_website.Http.{Exec, write}

-- COALESCE(MAX(seq), 0) over the lines of the call.
unfoldable pub max_seq : String → List TranscriptRow → ℕ
max_seq call_id [] = 0
max_seq call_id (line ∷ lines) =
    if str_eq line.call_id call_id
    then max line.seq (max_seq call_id lines)
    else max_seq call_id lines

abbrev same_place : String → ℕ → TranscriptRow → Bool
same_place call_id seq line = str_eq line.call_id call_id && line.seq == seq

-- INSERT OR IGNORE
unfoldable pub insert_line : TranscriptRow → List TranscriptRow → List TranscriptRow
insert_line line lines =
    if is_some (find_first (same_place line.call_id line.seq) lines)
    then lines
    else lines ++ line ∷ []

unfoldable pub next_line :
    String → String → Speaker → String → ℕ → List TranscriptRow → TranscriptRow
next_line call_id org_id speaker text at lines = record {
  call_id = call_id;
  org_id = org_id;
  seq = max_seq call_id lines + 1;
  speaker = speaker;
  text = text;
  at = at;
}

unfoldable pub append_line :
    String → String → Speaker → String → ℕ → List TranscriptRow → List TranscriptRow
unfolding insert_line next_line
append_line call_id org_id speaker text at lines =
    insert_line (next_line call_id org_id speaker text at lines) lines

unfoldable pub append_transcript_line : CallRow → Speaker → String → ℕ → Exec (Unit {0})
append_transcript_line call speaker text at = write (λ db. record db {
  transcript_lines = append_line call.id call.org_id speaker text at db.transcript_lines;
})

find_first-same_place :
    (call_id : String) (seq : ℕ) (lines : List TranscriptRow)
    → max_seq call_id lines < seq
    → find_first (same_place call_id seq) lines ≡ none
unfolding max_seq find_first
find_first-same_place call_id seq [] h = refl
find_first-same_place call_id seq (line ∷ lines) h =
    ground (arith, find_first-same_place call_id seq lines)

-- The index never refuses the line: it is stored at the end, one place behind the last of its call.
pub append_line_lem :
    (call_id org_id : String) (speaker : Speaker) (text : String) (at : ℕ)
    (lines : List TranscriptRow)
    → append_line call_id org_id speaker text at lines
      ≡ lines ++ next_line call_id org_id speaker text at lines ∷ []
unfolding append_line
append_line_lem call_id org_id speaker text at lines =
    ground (arith, find_first-same_place call_id (max_seq call_id lines + 1) lines)

-- The lines of a call bear the numbers `next`, `next + 1` and so on, in the order of the table.
abbrev pub IsNumbered : String → ℕ → List TranscriptRow → Type 0
IsNumbered call_id next [] = Unit
IsNumbered call_id next (line ∷ lines) =
    if str_eq line.call_id call_id
    then (line.seq ≡ next) × IsNumbered call_id (suc next) lines
    else IsNumbered call_id next lines

abbrev in_call : String → TranscriptRow → Bool
in_call call_id line = str_eq line.call_id call_id

max_seq-IsNumbered :
    (call_id : String) (last : ℕ) (lines : List TranscriptRow)
    → IsNumbered call_id (suc last) lines
    → max last (max_seq call_id lines) ≡ last + count_where (in_call call_id) lines
unfolding max_seq count_where
max_seq-IsNumbered call_id last [] h = omega arith
max_seq-IsNumbered call_id last (line ∷ lines) h =
    ground
      (arith, max_seq-IsNumbered call_id last lines, max_seq-IsNumbered call_id (suc last) lines)

IsNumbered-append :
    (call_id : String) (next : ℕ) (lines : List TranscriptRow) (line : TranscriptRow)
    → IsNumbered call_id next lines
    → (line.call_id ≡ call_id → line.seq ≡ next + count_where (in_call call_id) lines)
    → IsNumbered call_id next (lines ++ line ∷ [])
unfolding count_where
IsNumbered-append call_id next [] line h last = ground (arith, eq_iff line.call_id call_id)
IsNumbered-append call_id next (first ∷ lines) line h last =
    elim (Bool-cases (str_eq first.call_id call_id)) [
      | inl mine ↦
          let (here, later) = rw mine at h in
          rw mine (
            here,
            IsNumbered-append call_id (suc next) lines line later
                (λ e. ground (arith, mine, last e)),
          )
      | inr other ↦ rw other (
          IsNumbered-append call_id next lines line (rw other at h)
            (λ e. ground (arith, other, last e)))
    ]

-- Storing a line keeps every call's lines numbered 1, 2, 3, … with no gap and no repetition.
pub append_line-IsNumbered :
    (call_id org_id : String) (speaker : Speaker) (text : String) (at : ℕ)
    (lines : List TranscriptRow) (other : String)
    → IsNumbered other 1 lines
    → IsNumbered other 1 (append_line call_id org_id speaker text at lines)
unfolding next_line
append_line-IsNumbered call_id org_id speaker text at lines other h = rw append_line_lem (
    IsNumbered-append other 1 lines _ h
      (λ e. ground (arith, e, max_seq-IsNumbered other 0 lines h)))
