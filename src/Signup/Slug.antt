-- ===== src/Signup/Slug.antt =====
-- `slugify` of app/worker/routes/signup.ts: the part of an organization's address.
use Prim.Native.Char.{code}
use ctf_website.Base.{
  ℕ, String, Bool, true, ◌&&◌, ◌||◌, some, str_eq, leb, ◌==◌, if◌then◌else◌, or_else,
}
use ctf_website.Base.Texts.{to_lower, is_empty, present, take_text, join_text}

-- `[^a-z0-9]+` becomes one dash.
abbrev is_slug : ℕ → Bool
is_slug c = (leb b'a' c && leb c b'z') || (leb b'0' c && leb c b'9')

abbrev starts_plain : String → Bool
starts_plain String.[] = true
starts_plain (String.◌∷◌ c s) = is_slug (code c)

dashed : String → String
dashed String.[] = String.[]
dashed (String.◌∷◌ c s) =
    let rest = dashed s in
    if is_slug (code c)
    then String.◌∷◌ c rest
    else if is_empty s || starts_plain s
    then String.◌∷◌ "-" rest
    else rest

abbrev is_dash : ℕ → Bool
is_dash c = c == b'-'

-- `^-+|-+$` is taken out.
strip_start : String → String
strip_start String.[] = String.[]
strip_start (String.◌∷◌ c s) =
    let rest = strip_start s in if is_dash (code c) then rest else String.◌∷◌ c s

abbrev strip_step : String → String → String
strip_step one String.[] = if str_eq one "-" then String.[] else one
strip_step one (String.◌∷◌ d s) = join_text one (String.◌∷◌ d s)

strip_end : String → String
strip_end String.[] = String.[]
strip_end (String.◌∷◌ c s) = strip_step (String.◌∷◌ c String.[]) (strip_end s)

unfoldable pub slugify : String → String
unfolding dashed strip_start strip_end
slugify value =
    or_else (present (some (take_text 60 (strip_end (strip_start (dashed (to_lower value)))))))
      "org"
