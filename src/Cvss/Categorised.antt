-- ===== src/Cvss/Categorised.antt =====
-- src/odg/cvss.py, src/rescore/model.py and src/rescore/utility.py: `CveCategorisation`,
-- `CveRescoringRule.matches_categorisation` and `matching_rescore_rules`.
use odg_core.Prelude.{Bool, false, not, Option, none, some, List, [], ◌∷◌, if◌then◌else◌}
use odg_core.Prelude.Result.{Result, ok, err, Raised, ◌>>=◌}
use odg_core.Prelude.Text.{Text, text, ◌==◌}
use odg_core.Cvss.Defs.{Cvss, split}
use odg_core.Cvss.Rules.{CveRescoringRule, split_once, matches_cvss}

pub data NetworkExposure : Type 0 where
  private protected public : NetworkExposure

pub data InteractingUserCategory : Type 0 where
  operator end_user : InteractingUserCategory

pub data CveNoneLowHigh : Type 0 where
  absent low high : CveNoneLowHigh

pub record CveCategorisation : Type 0 where
  pub network_exposure : Option NetworkExposure
  pub authentication_enforced : Option Bool
  pub user_interaction : Option InteractingUserCategory
  pub confidentiality_requirement : Option CveNoneLowHigh
  pub integrity_requirement : Option CveNoneLowHigh
  pub availability_requirement : Option CveNoneLowHigh
  pub comment : Option Text

-- A value of an attribute: a Boolean, a text, or a member of an enumeration by its value.
-- Members of one enumeration are equal when their values are.
pub data CategoryValue : Type 0 where
  flag : Bool → CategoryValue
  word : Text → CategoryValue

abbrev exposure_value : NetworkExposure → CategoryValue
exposure_value NetworkExposure.private = CategoryValue.word (text "private")
exposure_value NetworkExposure.protected = CategoryValue.word (text "protected")
exposure_value NetworkExposure.public = CategoryValue.word (text "public")

abbrev user_value : InteractingUserCategory → CategoryValue
user_value InteractingUserCategory.operator = CategoryValue.word (text "operator")
user_value InteractingUserCategory.end_user = CategoryValue.word (text "end-user")

abbrev requirement_value : CveNoneLowHigh → CategoryValue
requirement_value CveNoneLowHigh.absent = CategoryValue.word (text "none")
requirement_value CveNoneLowHigh.low = CategoryValue.word (text "low")
requirement_value CveNoneLowHigh.high = CategoryValue.word (text "high")

-- The calls of the enumerations, the second with its `_missing_`
exposure_from : Text → Result CategoryValue
unfolding ◌==◌
exposure_from t =
    if t == text "private"
    then ok (CategoryValue.word t)
    else if t == text "protected"
    then ok (CategoryValue.word t)
    else if t == text "public"
    then ok (CategoryValue.word t)
    else err Raised.value_error

user_category_from : Text → Result CategoryValue
unfolding ◌==◌
user_category_from t =
    if t == text "operator"
    then ok (CategoryValue.word t)
    else if t == text "end-user"
    then ok (CategoryValue.word t)
    else if t == text "gardener-operator"
    then ok (user_value InteractingUserCategory.operator)
    else err Raised.value_error

requirement_from : Text → Result CategoryValue
unfolding ◌==◌
requirement_from t =
    if t == text "none"
    then ok (CategoryValue.word t)
    else if t == text "low"
    then ok (CategoryValue.word t)
    else if t == text "high"
    then ok (CategoryValue.word t)
    else err Raised.value_error

abbrev first_or_empty : List Text → Text
first_or_empty [] = []
first_or_empty (w ∷ ws) = w

-- `CveRescoringRule.category_attr`; `split` gives at least one text
unfoldable pub category_attr : CveRescoringRule → Text
unfolding split
category_attr rule = first_or_empty (split b':' rule.category_value)

-- `category_value.split(':', 1)[-1]`, the whole text if there is no separator
unfoldable pub category_text : CveRescoringRule → Text
unfolding split_once
category_text rule = elim (split_once b':' rule.category_value) [
  | ok (attr, value) ↦ value
  | err e ↦ rule.category_value
]

abbrev flag_of : Option Bool → Result CategoryValue
flag_of none = err Raised.value_error
flag_of (some b) = ok (CategoryValue.flag b)

abbrev map_option {ℓ} : {A : Type ℓ} → (A → CategoryValue) → Option A → Option CategoryValue
map_option f none = none
map_option f (some a) = some (f a)

-- `getattr(categorisation, attr)`, with what it raises for other names
unfoldable pub attr_of : CveCategorisation → Text → Result (Option CategoryValue)
unfolding ◌==◌
attr_of c attr =
    if attr == text "network_exposure"
    then ok (map_option exposure_value c.network_exposure)
    else if attr == text "authentication_enforced"
    then ok (map_option CategoryValue.flag c.authentication_enforced)
    else if attr == text "user_interaction"
    then ok (map_option user_value c.user_interaction)
    else if attr == text "confidentiality_requirement"
    then ok (map_option requirement_value c.confidentiality_requirement)
    else if attr == text "integrity_requirement"
    then ok (map_option requirement_value c.integrity_requirement)
    else if attr == text "availability_requirement"
    then ok (map_option requirement_value c.availability_requirement)
    else if attr == text "comment"
    then ok (map_option CategoryValue.word c.comment)
    else err Raised.attribute_error

unfoldable pub same_value : CategoryValue → Option CategoryValue → Bool
unfolding ◌==◌
same_value value none = false
same_value (CategoryValue.flag a) (some (CategoryValue.flag b)) = if a then b else not b
same_value (CategoryValue.flag a) (some (CategoryValue.word t)) = false
same_value (CategoryValue.word s) (some (CategoryValue.flag b)) = false
same_value (CategoryValue.word s) (some (CategoryValue.word t)) = s == t

-- `safe_load` is `yaml.safe_load` of a text: the Boolean that it gives, `none` for another value,
-- or what it raises.
module _ (safe_load : Text → Result (Option Bool)) where
  -- `CveRescoringRule.parsed_category_value` with `category_type`
  unfoldable pub parsed_category_value : CveRescoringRule → Result CategoryValue
  unfolding category_attr category_text exposure_from user_category_from requirement_from
  parsed_category_value rule =
      let attr = category_attr rule in
      let value = category_text rule in
      if attr == text "network_exposure"
      then exposure_from value
      else if attr == text "authentication_enforced"
      then safe_load value >>= flag_of
      else if attr == text "user_interaction"
      then user_category_from value
      else if attr == text "confidentiality_requirement"
      then requirement_from value
      else if attr == text "integrity_requirement"
      then requirement_from value
      else if attr == text "availability_requirement"
      then requirement_from value
      else if attr == text "comment"
      then ok (CategoryValue.word value)
      else err Raised.value_error

  -- `CveRescoringRule.matches_categorisation`
  unfoldable pub matches_categorisation : CveRescoringRule → CveCategorisation → Result Bool
  unfolding parsed_category_value attr_of same_value
  matches_categorisation rule categorisation = do
    value ← parsed_category_value rule
    given ← attr_of categorisation (category_attr rule)
    ok (same_value value given)

  -- One round of the loop of `matching_rescore_rules`
  unfoldable pub is_matching : CveCategorisation → Cvss → CveRescoringRule → Result Bool
  unfolding matches_categorisation matches_cvss
  is_matching categorisation cvss rule = do
    categorised ← matches_categorisation rule categorisation
    if not categorised then ok false else matches_cvss rule cvss

  -- `matching_rescore_rules`: what the generator yields until it ends, or what it raises
  unfoldable pub matching_rescore_rules :
      List CveRescoringRule → CveCategorisation → Cvss → Result (List CveRescoringRule)
  unfolding is_matching
  matching_rescore_rules [] categorisation cvss = ok []
  matching_rescore_rules (rule ∷ rules) categorisation cvss =
      let rest = matching_rescore_rules rules categorisation cvss in
      is_matching categorisation cvss rule >>= λ matching.
      rest >>= λ yielded. ok (if matching then rule ∷ yielded else yielded)
