-- ===== src/Vapi/Phone.antt =====
-- `toE164` of app/worker/lib/vapi.ts, at its default dial code.
use Prim.Native.Char.{code}
use ctf_website.Base.{
  ℕ, ◌≤◌, ◌≡◌, String, Bool, true, not, ◌&&◌, Option, none, some, leb, ◌==◌, if◌then◌else◌, arith,
  OnSome, OnSome-some,
}
use ctf_website.Base.Texts.{trim, remove, is_empty, is_digit, starts_with, text_length, drop_text}

abbrev pub non_digit : ℕ → Bool
non_digit c = not (is_digit c)

abbrev has_e164_length : String → Bool
has_e164_length digits = leb 8 (text_length digits) && leb (text_length digits) 15

abbrev plus : String → String
plus digits = String.◌∷◌ "+" digits

-- The number behind the checks, from what was typed and from the digits in it.
dial : String → String → Option String
dial trimmed digits =
    if starts_with "+" trimmed
    then (if has_e164_length digits then some (plus digits) else none)
    else if starts_with "0" digits
    then (if text_length (drop_text 1 digits) == 9
        then some (plus (String.◌∷◌ "2" (String.◌∷◌ "7" (drop_text 1 digits))))
        else none)
    else if starts_with "27" digits && text_length digits == 11
    then some (plus digits)
    else if has_e164_length digits
    then some (plus digits)
    else none

unfoldable pub to_e164 : String → Option String
unfolding dial
to_e164 raw =
    let trimmed = trim raw in
    let digits = remove non_digit trimmed in
    if is_empty trimmed then none else if is_empty digits then none else dial trimmed digits

abbrev pub IsDigits : String → Type 0
IsDigits String.[] = Unit
IsDigits (String.◌∷◌ c s) = (is_digit (code c) ≡ true) × IsDigits s

-- A plus sign and eight to fifteen digits.
abbrev pub IsE164 : String → Type 0
IsE164 String.[] = ⊥
IsE164 (String.◌∷◌ c s) = (code c ≡ b'+') × IsDigits s × (8 ≤ text_length s) × (text_length s ≤ 15)

pub IsDigits-remove : (s : String) → IsDigits (remove non_digit s)
unfolding remove
IsDigits-remove String.[] = tt
IsDigits-remove (String.◌∷◌ c s) = ground (arith, IsDigits-remove s)

pub IsDigits-drop_one : (s : String) → IsDigits s → IsDigits (drop_text 1 s)
IsDigits-drop_one String.[] h = tt
IsDigits-drop_one (String.◌∷◌ c s) h = h.1

dial-IsE164 : (trimmed digits : String) → IsDigits digits → OnSome IsE164 (dial trimmed digits)
unfolding dial
dial-IsE164 trimmed digits d = ground (arith, IsDigits-drop_one digits d)

to_e164_sound : (raw : String) → OnSome IsE164 (to_e164 raw)
unfolding to_e164
to_e164_sound raw =
    ground
      (arith, dial-IsE164 (trim raw) (remove non_digit (trim raw)) (IsDigits-remove (trim raw)))

-- Whatever was typed, a number that is dialled is a plus sign and eight to fifteen digits.
pub to_e164-IsE164 : (raw n : String) → to_e164 raw ≡ some n → IsE164 n
to_e164-IsE164 raw n h = OnSome-some IsE164 (to_e164 raw) n (to_e164_sound raw) h
