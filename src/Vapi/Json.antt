-- ===== src/Vapi/Json.antt =====
-- A parsed JSON payload, and the readers `asRecord`, `str`, `num` and `toMillis` of
-- app/worker/lib/vapi.ts. Numbers are whole and not negative. A field that is absent reads as
-- `null`: no reader tells `undefined` and `null` apart.
use ctf_website.Base.{
  ℕ, ◌*◌, String, str_eq, Bool, Option, none, some, List, [], ◌∷◌, ltb, if◌then◌else◌,
}
use ctf_website.Base.Texts.{trim, is_empty}

mutual
  pub data Json : Type 0 where
    null : Json
    bool : Bool → Json
    number : ℕ → Json
    text : String → Json
    array : Items → Json
    object : Fields → Json

  pub data Items : Type 0 where
    nil : Items
    cons : Json → Items → Items

  pub data Fields : Type 0 where
    end : Fields
    field : String → Json → Fields → Fields

abbrev pub items : Items → List Json
items nil = []
items (cons v vs) = v ∷ items vs

-- `record.key`
abbrev pub get : Fields → String → Json
get end key = null
get (field k v fs) key = if str_eq k key then v else get fs key

abbrev pub as_record : Json → Option Fields
as_record (object fs) = some fs
as_record _ = none

abbrev trimmed : String → Option String
trimmed s = if is_empty (trim s) then none else some (trim s)

unfoldable pub str : Json → Option String
str (text s) = trimmed s
str _ = none

-- `Number(text)`, where it is a finite whole number, and `Date.parse(text)`, where it is no NaN.
pub record Runtime : Type 0 where
  pub number_of : String → Option ℕ
  pub parse_date : String → Option ℕ

module _ (js : Runtime) where
  unfoldable pub num : Json → Option ℕ
  num (number n) = some n
  num (text s) = js.number_of s
  num _ = none

  abbrev read_date : Option String → Option ℕ
  read_date none = none
  read_date (some s) = js.parse_date s

  -- Seconds, unless the number can only be milliseconds.
  abbrev scale : Json → Option ℕ → Option ℕ
  scale value (some n) = if ltb 1000000000000 n then some n else some (n * 1000)
  scale value none = read_date (str value)

  unfoldable pub to_millis : Json → Option ℕ
  unfolding num str
  to_millis value = scale value (num value)
