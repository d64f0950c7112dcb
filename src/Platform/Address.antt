-- ===== src/Platform/Address.antt =====
-- app/worker/lib/platform.ts: the address that mail is delivered to, and the reasons of an action.
use ctf_website.Base.Texts.{text_length, trim, is_empty, to_lower, remove, is_space, ends_with}
use ctf_website.Base.{
  true, ℕ, String, Bool, ◌||◌, Option, none, some, ltb, ◌==◌, if◌then◌else◌, str_eq,
}
use Prim.Native.String.{◌++◌ as append_text}
use Prim.Native.Char.{Char, code}

-- The part of a text in front of its last `sep`, and the part behind it; none if it has none.
abbrev pub split_rest : Char → Option (String × String) → String → ℕ → Option (String × String)
split_rest c none rest sep = if code c == sep then some ("", rest) else none
split_rest c (some (front, back)) rest sep = some (String.◌∷◌ c front, back)

unfoldable pub split_last : ℕ → String → Option (String × String)
split_last sep String.[] = none
split_last sep (String.◌∷◌ c s) = split_rest c (split_last sep s) s sep

-- `s.split('+', 1)[0]`
unfoldable pub before_first : ℕ → String → String
before_first sep String.[] = String.[]
before_first sep (String.◌∷◌ c s) =
    let rest = before_first sep s in if code c == sep then String.[] else String.◌∷◌ c rest

abbrev pub is_dot : ℕ → Bool
is_dot c = c == b'.'

unfoldable pub deliver_to : String → Option (String × String) → String
deliver_to lower none = lower
deliver_to lower (some (local, domain)) =
    if is_empty local
    then lower
    else if str_eq domain "gmail.com" || str_eq domain "googlemail.com"
    then append_text (remove is_dot (before_first b'+' local)) "@gmail.com"
    else lower

unfoldable pub canonical_email : String → String
canonical_email address =
    let lower = to_lower (trim address) in deliver_to lower (split_last b'@' lower)

-- Runs of white space are one space, and the ends are trimmed.
abbrev pub squeeze_step : Char → String → String
squeeze_step c String.[] = String.◌∷◌ c String.[]
squeeze_step c (String.◌∷◌ d s) =
    if is_space (code c)
    then (if is_space (code d) then append_text " " s else append_text " " (String.◌∷◌ d s))
    else String.◌∷◌ c (String.◌∷◌ d s)

unfoldable pub squeeze : String → String
squeeze String.[] = String.[]
squeeze (String.◌∷◌ c s) = squeeze_step c (squeeze s)

abbrev pub reason_of : String → Option String
reason_of reason =
    if ltb (text_length reason) 3 || ltb 300 (text_length reason) then none else some reason

-- `value` is there when it is a text.
unfoldable pub parse_reason : Option String → Option String
parse_reason none = none
parse_reason (some value) = reason_of (squeeze (trim value))

abbrev is_ctf_domain : String → Bool
is_ctf_domain domain =
    str_eq domain "cutthroughfaster.com" || ends_with domain ".cutthroughfaster.com"

-- The whole address is its domain where it has no `@`.
abbrev pub domain_of : String → Option (String × String) → String
domain_of address none = address
domain_of address (some (local, domain)) = domain

-- `isReservedCtfAddress`
unfoldable pub is_reserved_ctf_address : String → Bool
is_reserved_ctf_address address =
    let canonical = canonical_email address in
    if str_eq canonical "cutthroughfaster@gmail.com"
    then true
    else is_ctf_domain (domain_of canonical (split_last b'@' canonical))
