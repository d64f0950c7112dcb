-- ===== src/Base/Texts.antt =====
-- Text as the native `String`, whose characters stand for the code units of JavaScript's strings.
-- Letter case is that of ASCII.
use Prim.Native.Char.{Char, code}
use Prim.Native.Nat.{ℕ, zero, suc, ◌+◌, ◌-◌}
use Prim.Native.String.{String}
use mathlib.Core.Bool.{Bool, true, false, ◌&&◌, ◌||◌}
use mathlib.Core.List.{List, [], ◌∷◌}
use mathlib.Core.Option.{Option, none, some}
use ctf_website.Base.Compare.{str_eq, leb, ◌==◌, if◌then◌else◌}

abbrev pub codes : String → List ℕ
codes String.[] = []
codes (String.◌∷◌ c s) = code c ∷ codes s

-- `s.length`
abbrev pub text_length : String → ℕ
text_length String.[] = 0
text_length (String.◌∷◌ c s) = suc (text_length s)

abbrev pub is_empty : String → Bool
is_empty String.[] = true
is_empty (String.◌∷◌ c s) = false

-- A text that is there and not empty: what a JavaScript test takes for true.
abbrev pub present : Option String → Option String
present none = none
present (some s) = if is_empty s then none else some s

-- What `trim` and `\s` take for white space.
unfoldable pub is_space : ℕ → Bool
is_space c =
    (leb 9 c && leb c 13)
    || c == 32
    || c == 160
    || c == 0x1680
    || (leb 0x2000 c && leb c 0x200a)
    || c == 0x2028
    || c == 0x2029
    || c == 0x202f
    || c == 0x205f
    || c == 0x3000
    || c == 0xfeff

abbrev pub is_digit : ℕ → Bool
is_digit c = leb b'0' c && leb c b'9'

-- `s.replace(/…/g, '')`: the characters that pass the test are taken out.
unfoldable pub remove : (ℕ → Bool) → String → String
remove test String.[] = String.[]
remove test (String.◌∷◌ c s) =
    let rest = remove test s in if test (code c) then rest else String.◌∷◌ c rest

unfoldable pub trim_start : String → String
unfolding is_space
trim_start String.[] = String.[]
trim_start (String.◌∷◌ c s) =
    let rest = trim_start s in if is_space (code c) then rest else String.◌∷◌ c s

-- One character put in front of a text whose end is already trimmed.
abbrev pub trim_step : Char → String → String
trim_step c String.[] = if is_space (code c) then String.[] else String.◌∷◌ c String.[]
trim_step c (String.◌∷◌ d s) = String.◌∷◌ c (String.◌∷◌ d s)

unfoldable pub trim_end : String → String
unfolding is_space
trim_end String.[] = String.[]
trim_end (String.◌∷◌ c s) = trim_step c (trim_end s)

unfoldable pub trim : String → String
unfolding trim_start trim_end
trim s = trim_start (trim_end s)

abbrev pub lower_code : ℕ → ℕ
lower_code c = if leb b'A' c && leb c b'Z' then c + 32 else c

abbrev nth_char : String → ℕ → Char → Char
nth_char String.[] i d = d
nth_char (String.◌∷◌ c s) zero d = c
nth_char (String.◌∷◌ c s) (suc i) d = nth_char s i d

abbrev lower_char : Char → Char
lower_char c =
    if leb b'A' (code c) && leb (code c) b'Z'
    then nth_char "abcdefghijklmnopqrstuvwxyz" (code c - 65) c
    else c

-- `s.toLowerCase()`
unfoldable pub to_lower : String → String
to_lower String.[] = String.[]
to_lower (String.◌∷◌ c s) = String.◌∷◌ (lower_char c) (to_lower s)

-- `s.startsWith(prefix)`, and the rest of `s` behind it by `slice`.
abbrev pub drop_text : ℕ → String → String
drop_text zero s = s
drop_text (suc n) String.[] = String.[]
drop_text (suc n) (String.◌∷◌ c s) = drop_text n s

abbrev pub take_text : ℕ → String → String
take_text zero s = String.[]
take_text (suc n) String.[] = String.[]
take_text (suc n) (String.◌∷◌ c s) = String.◌∷◌ c (take_text n s)

-- A match of a word, letter case aside, at the start of `cs`, and anywhere in it: `/word/i`.
begins_with : List ℕ → List ℕ → Bool
begins_with [] cs = true
begins_with (w ∷ ws) [] = false
begins_with (w ∷ ws) (c ∷ cs) = lower_code c == w && begins_with ws cs

includes_codes : List ℕ → List ℕ → Bool
unfolding begins_with
includes_codes ws [] = begins_with ws []
includes_codes ws (c ∷ cs) = begins_with ws (c ∷ cs) || includes_codes ws cs

unfoldable pub mentions : String → String → Bool
unfolding includes_codes
mentions word s = includes_codes (codes word) (codes s)

-- `s.startsWith(prefix)`
prefix_codes : List ℕ → List ℕ → Bool
prefix_codes [] cs = true
prefix_codes (w ∷ ws) [] = false
prefix_codes (w ∷ ws) (c ∷ cs) = c == w && prefix_codes ws cs

unfoldable pub starts_with : String → String → Bool
unfolding prefix_codes
starts_with prefix s = prefix_codes (codes prefix) (codes s)

-- `s.split(sep)` for a separator of one character.
abbrev pub on_head : Char → List String → List String
on_head c [] = []
on_head c (part ∷ parts) = String.◌∷◌ c part ∷ parts

unfoldable pub split_on : ℕ → String → List String
split_on sep String.[] = String.[] ∷ []
split_on sep (String.◌∷◌ c s) =
    let rest = split_on sep s in if code c == sep then String.[] ∷ rest else on_head c rest

-- `s + t`, by the characters of `s`.
abbrev pub join_text : String → String → String
join_text String.[] t = t
join_text (String.◌∷◌ c s) t = String.◌∷◌ c (join_text s t)

-- `s.endsWith(suffix)`
abbrev pub ends_with : String → String → Bool
ends_with String.[] suffix = str_eq String.[] suffix
ends_with (String.◌∷◌ c s) suffix = str_eq (String.◌∷◌ c s) suffix || ends_with s suffix
