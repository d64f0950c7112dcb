-- ===== src/Callbacks/Clean.antt =====
-- `clean` of demo/heartbeat/src/callbackAssistant.ts: what a stranger typed, as one line of text.
pub mod Plain
use Prim.Native.Char.{Char, code}
use ctf_website.Base.{
  ℕ, ◌≤◌, String, Bool, true, not, ◌&&◌, ◌||◌, ◌≡◌, Option, none, some, leb, ◌==◌, if◌then◌else◌,
  arith,
}
use ctf_website.Base.Texts.{trim, trim_start, trim_end, take_text, text_length, is_space, is_empty}

-- `[{}%`<>\]`
abbrev pub is_markup : ℕ → Bool
is_markup c = c == b'{' || c == b'}' || c == b'%' || c == 96 || c == b'<' || c == b'>' || c == 92

-- `[\u0000-\u001f\u007f]`
abbrev pub is_control : ℕ → Bool
is_control c = leb c 31 || c == 127

-- `s.replace(/[…]/g, ' ')`
pub blank : (ℕ → Bool) → String → String
blank test String.[] = String.[]
blank test (String.◌∷◌ c s) = String.◌∷◌ (if test (code c) then " " else c) (blank test s)

abbrev pub begins : (ℕ → Bool) → String → Bool
begins test String.[] = not true
begins test (String.◌∷◌ c s) = test (code c)

-- `s.replace(/[…]+/g, ' ')`: a run of such characters ends in one space.
pub squeeze : (ℕ → Bool) → String → String
squeeze test String.[] = String.[]
squeeze test (String.◌∷◌ c s) =
    let rest = squeeze test s in
    if test (code c)
    then (if begins test s then rest else String.◌∷◌ " " rest)
    else String.◌∷◌ c rest

unfoldable pub clean_text : String → ℕ → String
unfolding blank squeeze is_space
clean_text value max =
    take_text max (trim (squeeze is_space (squeeze is_control (blank is_markup value))))

unfoldable pub clean : Option String → ℕ → String
unfolding clean_text
clean none max = String.[]
clean (some value) max = if is_empty value then String.[] else clean_text value max

abbrev is_break : ℕ → Bool
is_break c = c == 9 || c == 10 || c == 13

-- `headerSafe` of demo/heartbeat/src/callbacks.ts.
unfoldable pub header_safe : String → ℕ → String
unfolding squeeze
header_safe text max = take_text max (trim (squeeze is_break text))
