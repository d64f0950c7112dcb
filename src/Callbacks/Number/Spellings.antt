-- ===== src/Callbacks/Number/Spellings.antt =====
-- The ways to write a South African number (`southAfricanNumber`, demo/heartbeat/src/callbacks.ts).
use Prim.Native.Char.{Char, code}
use ctf_website.Base.{
  ◌≡◌, String, Bool, true, false, not, ◌&&◌, some, arith, refl, All, ◌∷◌, [], ap, ◌∙◌,
}
use ctf_website.Base.Texts.{
  trim, remove, is_empty, is_digit, starts_with, text_length, join_text, trim_end, is_space,
  trim_start, trim_step,
}
use ctf_website.Vapi.Phone.{non_digit}
use ctf_website.Callbacks.Number.{
  all_digits, national_part, dialled, south_african_number, is_national,
}

all_digits-remove : (s : String) → all_digits s ≡ true → remove non_digit s ≡ s
unfolding remove
all_digits-remove String.[] h = refl
all_digits-remove (String.◌∷◌ c s) h = ground (arith, all_digits-remove s)

has_no_space : String → Bool
has_no_space String.[] = true
has_no_space (String.◌∷◌ c s) = not (is_space (code c)) && has_no_space s

keeps_last : (c : Char) (s : String) → is_space (code c) ≡ false → trim_step c s ≡ String.◌∷◌ c s
keeps_last c String.[] h = rw h refl
keeps_last c (String.◌∷◌ d s) h = refl

has_no_space-cons :
    (c : Char) (s : String)
    → has_no_space (String.◌∷◌ c s) ≡ true
    → (is_space (code c) ≡ false) × (has_no_space s ≡ true)
unfolding has_no_space
has_no_space-cons c s h = (ground arith, ground arith)

trim_end-cons : (c : Char) (s : String) → trim_end (String.◌∷◌ c s) ≡ trim_step c (trim_end s)
unfolding trim_end
trim_end-cons c s = refl

trim_end-nil : trim_end String.[] ≡ String.[]
unfolding trim_end
trim_end-nil = refl

trim_end-has_no_space : (s : String) → has_no_space s ≡ true → trim_end s ≡ s
trim_end-has_no_space String.[] h = trim_end-nil
trim_end-has_no_space (String.◌∷◌ c s) h =
    let parts = has_no_space-cons c s h in
    trim_end-cons c s ∙ ap (trim_step c) (trim_end-has_no_space s parts.1) ∙ keeps_last c s parts.0

trim_start-has_no_space : (s : String) → has_no_space s ≡ true → trim_start s ≡ s
unfolding trim_start
trim_start-has_no_space String.[] h = refl
trim_start-has_no_space (String.◌∷◌ c s) h = rw ((has_no_space-cons c s h).0) refl

trim-has_no_space : (s : String) → has_no_space s ≡ true → trim s ≡ s
unfolding trim
trim-has_no_space s h = rw (trim_end-has_no_space s h) (trim_start-has_no_space s h)

all_digits-has_no_space : (s : String) → all_digits s ≡ true → has_no_space s ≡ true
unfolding has_no_space is_space
all_digits-has_no_space String.[] h = refl
all_digits-has_no_space (String.◌∷◌ c s) h = ground (arith, all_digits-has_no_space s)

abbrev pub Dials : String → String → Type 0
Dials raw national = south_african_number (some raw) ≡ some (join_text "+27" national)

south_african_number-some :
    (raw : String)
    → is_empty raw ≡ false
    → south_african_number (some raw) ≡ dialled (national_part raw (remove non_digit raw))
unfolding south_african_number
south_african_number-some raw full = rw full refl

-- The digits of a number that is written without spaces.
module _ (raw national : String) where
  dials_of :
      (digits : String)
      → remove non_digit raw ≡ digits
      → is_empty raw ≡ false
      → dialled (national_part raw digits) ≡ some (join_text "+27" national)
      → Dials raw national
  dials_of digits same full h =
      south_african_number-some raw full ∙ ap (λ d. dialled (national_part raw d)) same ∙ h

  reads :
      (digits part : String)
      → has_no_space raw ≡ true
      → remove non_digit raw ≡ digits
      → is_empty raw ≡ false
      → (trim raw ≡ raw → national_part raw digits ≡ some part)
      → dialled (some part) ≡ some (join_text "+27" national)
      → Dials raw national
  reads digits part solid same full splits goes =
      dials_of digits same full (ap dialled (splits (trim-has_no_space raw solid)) ∙ goes)

module _ (c : Char) (s : String) (proper : is_national (String.◌∷◌ c s) ≡ true) where
  abbrev national : String
  national = String.◌∷◌ c s

  rest : (is_digit (code c) ≡ true) × (all_digits s ≡ true) × (text_length s ≡ 8)
  rest = (ground arith, ground arith, ground arith)

  goes_out : dialled (some national) ≡ some (join_text "+27" national)
  unfolding dialled
  goes_out = ground arith

  goes_out_trunk : dialled (some (join_text "0" national)) ≡ some (join_text "+27" national)
  unfolding dialled starts_with
  goes_out_trunk = ground (arith, rest)

  solid : has_no_space national ≡ true
  solid = all_digits-has_no_space national (ground (arith, rest))

  kept : remove non_digit national ≡ national
  kept = all_digits-remove national (ground (arith, rest))

  part_bare : trim national ≡ national → national_part national national ≡ some national
  unfolding national_part starts_with
  part_bare same = rw same (ground (arith, rest))

  bare : Dials national national
  bare = reads national national national national solid kept refl part_bare goes_out

  part_trunk :
      trim (join_text "0" national) ≡ join_text "0" national
      → national_part (join_text "0" national) (join_text "0" national)
        ≡ some (join_text "0" national)
  unfolding national_part starts_with
  part_trunk same = rw same (ground (arith, rest))

  solid_trunk : has_no_space (join_text "0" national) ≡ true
  unfolding has_no_space is_space
  solid_trunk = solid

  kept_trunk : remove non_digit (join_text "0" national) ≡ join_text "0" national
  unfolding remove
  kept_trunk = rw kept refl

  trunk : Dials (join_text "0" national) national
  trunk =
      reads (join_text "0" national) national (join_text "0" national) (join_text "0" national)
        solid_trunk kept_trunk refl part_trunk goes_out_trunk

  part_country :
      trim (join_text "27" national) ≡ join_text "27" national
      → national_part (join_text "27" national) (join_text "27" national) ≡ some national
  unfolding national_part starts_with
  part_country same = rw same (ground (arith, rest))

  solid_country : has_no_space (join_text "27" national) ≡ true
  unfolding has_no_space is_space
  solid_country = solid

  kept_country : remove non_digit (join_text "27" national) ≡ join_text "27" national
  unfolding remove
  kept_country = rw kept refl

  country : Dials (join_text "27" national) national
  country =
      reads (join_text "27" national) national (join_text "27" national) national solid_country
        kept_country refl part_country goes_out

  part_double_zero :
      trim (join_text "0027" national) ≡ join_text "0027" national
      → national_part (join_text "0027" national) (join_text "0027" national) ≡ some national
  unfolding national_part starts_with
  part_double_zero same = rw same (ground (arith, rest))

  solid_double_zero : has_no_space (join_text "0027" national) ≡ true
  unfolding has_no_space is_space
  solid_double_zero = solid

  kept_double_zero : remove non_digit (join_text "0027" national) ≡ join_text "0027" national
  unfolding remove
  kept_double_zero = rw kept refl

  double_zero : Dials (join_text "0027" national) national
  double_zero =
      reads (join_text "0027" national) national (join_text "0027" national) national
        solid_double_zero kept_double_zero refl part_double_zero goes_out

  part_plus :
      trim (join_text "+27" national) ≡ join_text "+27" national
      → national_part (join_text "+27" national) (join_text "27" national) ≡ some national
  unfolding national_part starts_with
  part_plus same = rw same (ground (arith, rest))

  solid_plus : has_no_space (join_text "+27" national) ≡ true
  unfolding has_no_space is_space
  solid_plus = solid

  kept_plus : remove non_digit (join_text "+27" national) ≡ join_text "27" national
  unfolding remove
  kept_plus = rw kept refl

  plus : Dials (join_text "+27" national) national
  plus =
      reads (join_text "+27" national) national (join_text "27" national) national solid_plus
        kept_plus refl part_plus goes_out

-- A number is dialled alike in each of the ways to write it: as its nine digits, and behind 0, 27,
-- 0027 or +27.
pub south_african_number_spellings :
    (national : String)
    → is_national national ≡ true
    → All
        (λ prefix. Dials (join_text prefix national) national)
        ("" ∷ "0" ∷ "27" ∷ "0027" ∷ "+27" ∷ [])
south_african_number_spellings String.[] h = absurd (ground arith)
south_african_number_spellings (String.◌∷◌ c s) h =
    (bare c s h, (trunk c s h, (country c s h, (double_zero c s h, (plus c s h, tt)))))
