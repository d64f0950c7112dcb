-- ===== src/Password.antt =====
-- app/shared/password.ts: the rules for new passwords, which the client's checklist and the server
-- share. The classes of Unicode are the runtime's.
pub mod Change
pub mod Changed
mod Tests
use ctf_website.Base.{
  ℕ, suc, String, Bool, true, false, not, ◌&&◌, Option, none, some, List, [], ◌∷◌, leb,
  if◌then◌else◌, find_first, filter_where, map, is_some, str_eq,
}
use ctf_website.Base.Texts.{is_empty, join_text, to_lower}

abbrev pub min_password_length : ℕ
min_password_length = 7

abbrev pub strong_password_length : ℕ
strong_password_length = 16

pub data RuleId : Type 0 where
  long_enough lowercase uppercase number symbol : RuleId

-- The number of code points, and whether there is one of the class: `\p{Ll}`, `\p{Lu}`, `\p{Nd}` and
-- `[^\p{L}\p{N}\p{M}]`.
pub record Unicode : Type 0 where
  pub count_points : String → ℕ
  pub has_lower : String → Bool
  pub has_upper : String → Bool
  pub has_number : String → Bool
  pub has_symbol : String → Bool

abbrev pub rule_label : RuleId → String
rule_label long_enough = "At least 7 characters"
rule_label lowercase = "One lowercase letter"
rule_label uppercase = "One capital letter"
rule_label number = "One number"
rule_label symbol = "One symbol"

unfoldable pub is_met : Unicode → String → RuleId → Bool
is_met unicode password long_enough = leb min_password_length (unicode.count_points password)
is_met unicode password lowercase = unicode.has_lower password
is_met unicode password uppercase = unicode.has_upper password
is_met unicode password number = unicode.has_number password
is_met unicode password symbol = unicode.has_symbol password

abbrev pub password_rules : List RuleId
password_rules = long_enough ∷ lowercase ∷ uppercase ∷ number ∷ symbol ∷ []

pub data Strength : Type 0 where
  weak fair good strong : Strength

pub record PasswordCheck : Type 0 where
  pub unmet : List RuleId
  pub acceptable : Bool
  pub score : ℕ
  pub strength : Strength
  pub first_failure : Option String

abbrev pub all_rules : (RuleId → Bool) → List RuleId → Bool
all_rules test [] = true
all_rules test (rule ∷ rules) = test rule && all_rules test rules

abbrev pub score_of : (empty acceptable : Bool) → (length : ℕ) → ℕ
score_of true acceptable length = 0
score_of false true length =
    if leb strong_password_length length then 4 else if leb 12 length then 3 else 2
score_of false false length = if leb strong_password_length length then 2 else 1

abbrev pub strength_of : ℕ → Strength
strength_of score =
    if leb 4 score then strong else if leb 3 score then good else if leb 2 score then fair else weak

abbrev first_label : List RuleId → Option String
first_label [] = none
first_label (rule ∷ rules) = some (rule_label rule)

unfoldable pub check_password : Unicode → String → PasswordCheck
check_password unicode password =
    let acceptable = all_rules (is_met unicode password) password_rules in
    let score = score_of (is_empty password) acceptable (unicode.count_points password) in
    let unmet = filter_where (λ rule. not (is_met unicode password rule)) password_rules in
    record {
      unmet = unmet;
      acceptable = acceptable;
      score = score;
      strength = strength_of score;
      first_failure = first_label unmet;
    }

-- `missing.join(', ')`
abbrev joined_labels : List RuleId → String
joined_labels [] = ""
joined_labels (rule ∷ []) = to_lower (rule_label rule)
joined_labels (rule ∷ next ∷ rules) =
    join_text (to_lower (rule_label rule)) (join_text ", " (joined_labels (next ∷ rules)))

unfoldable pub password_rejection_message : Unicode → String → Option String
password_rejection_message unicode password =
    let check = check_password unicode password in
    if check.acceptable
    then none
    else some (join_text "That password needs: " (join_text (joined_labels check.unmet) "."))
