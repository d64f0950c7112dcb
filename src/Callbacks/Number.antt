-- ===== src/Callbacks/Number.antt =====
-- `southAfricanNumber` of demo/heartbeat/src/callbacks.ts.
pub mod Spellings
use Prim.Native.Char.{Char, code}
use ctf_website.Base.{
  ℕ, ◌≡◌, ◌≤◌, String, Bool, true, false, not, ◌&&◌, ◌||◌, Option, none, some, leb, ◌==◌,
  if◌then◌else◌, arith, OnSome, OnSome-some, Bool-cases, inl, inr, refl, if_cases, All, if_both,
  ◌∷◌, [], ap, ◌∙◌,
}
use ctf_website.Base.Texts.{
  trim, remove, is_empty, is_digit, starts_with, text_length, drop_text, join_text, trim_end,
  is_space, trim_start, trim_step,
}
use ctf_website.Vapi.Phone.{non_digit, IsDigits, IsDigits-remove}

abbrev pub all_digits : String → Bool
all_digits String.[] = true
all_digits (String.◌∷◌ c s) = is_digit (code c) && all_digits s

-- `/^[1-8]\d{8}$/`
abbrev pub is_national : String → Bool
is_national String.[] = false
is_national (String.◌∷◌ c s) =
    (leb b'1' (code c) && leb (code c) b'8') && (all_digits s && text_length s == 8)

abbrev pub is_international : String → String → Bool
is_international raw digits = starts_with "+" (trim raw) || starts_with "00" digits

-- The digits behind the country's code, or the digits as they are.
pub national_part : String → String → Option String
national_part raw digits =
    if is_international raw digits
    then (let international = if starts_with "+" (trim raw) then digits else drop_text 2 digits in
        if starts_with "27" international then some (drop_text 2 international) else none)
    else if starts_with "27" digits && leb 11 (text_length digits)
    then some (drop_text 2 digits)
    else some digits

-- Without the trunk 0.
pub without_trunk : String → String
without_trunk national =
    if text_length national == 10 && starts_with "0" national
    then drop_text 1 national
    else national

pub dialled : Option String → Option String
unfolding without_trunk
dialled none = none
dialled (some national) =
    if is_national (without_trunk national)
    then some (join_text "+27" (without_trunk national))
    else none

unfoldable pub south_african_number : Option String → Option String
unfolding national_part dialled
south_african_number none = none
south_african_number (some raw) =
    if is_empty raw
    then none
    else let digits = remove non_digit raw in dialled (national_part raw digits)

-- "+27", a digit from 1 to 8 and eight more digits.
pub record IsSouthAfrican (number : String) : Type 0 where
  pub national : String
  pub written : number ≡ join_text "+27" national
  pub proper : is_national national ≡ true

dialled_sound : (o : Option String) → OnSome IsSouthAfrican (dialled o)
unfolding dialled
dialled_sound none = tt
dialled_sound (some national) =
    if_cases (OnSome IsSouthAfrican) (is_national (without_trunk national))
      (λ proper. record { national = without_trunk national; written = refl; proper = proper })
      (λ _. tt)

sound : (raw : Option String) → OnSome IsSouthAfrican (south_african_number raw)
unfolding south_african_number
sound none = tt
sound (some raw) =
    if_both (OnSome IsSouthAfrican) (is_empty raw) tt
      (dialled_sound (national_part raw (remove non_digit raw)))

-- Whatever was typed, a number that is dialled is a South African one: +27, a digit from 1 to 8, and
-- eight more digits.
pub south_african_number-IsSouthAfrican :
    (raw : Option String) (number : String)
    → south_african_number raw ≡ some number
    → IsSouthAfrican number
south_african_number-IsSouthAfrican raw number h = OnSome-some _ _ number (sound raw) h
