-- ===== src/Cvss/Rules.antt =====
-- src/rescore/model.py: `CveRescoringRule`, how its values are read and compared with a vector.
use odg_core.Prelude.{
  ℕ, Bool, true, false, not, ◌&&◌, List, [], ◌∷◌, any, if◌then◌else◌, ◌==◌ as nat_eq,
}
use odg_core.Prelude.Result.{Result, ok, err, Raised, ◌>>=◌, map_result}
use odg_core.Prelude.Text.{Text, text, ◌==◌}
use odg_core.Cvss.Defs.{
  Cvss, access_vector_value, attack_complexity_value, user_interaction_value, scope_value,
  level_value, access_vector_from, attack_complexity_from, user_interaction_from, scope_from,
  level_from,
}

pub record CveRescoringRule : Type 0 where
  pub category_value : Text
  pub cve_values : List Text

-- `CVSSV3.attr_name_from_CVSS`, which has no case for the scope
unfoldable pub attr_name_from_cvss : Text → Result Text
unfolding ◌==◌
attr_name_from_cvss name =
    if name == text "AV"
    then ok (text "access_vector")
    else if name == text "AC"
    then ok (text "attack_complexity")
    else if name == text "UI"
    then ok (text "user_interaction")
    else if name == text "C"
    then ok (text "confidentiality")
    else if name == text "I"
    then ok (text "integrity")
    else if name == text "A"
    then ok (text "availability")
    else if name == text "PR"
    then ok (text "privileges_required")
    else err Raised.value_error

-- The letter of a member that was read. Members of one enumeration are equal when their letters are.
abbrev letter {ℓ} : {A : Type ℓ} → (A → ℕ) → Result A → Result ℕ
letter value (ok a) = ok (value a)
letter value (err e) = err e

-- `attr_type(value)` for the type that `CVSSV3` declares for the attribute
unfoldable pub attr_value_from : Text → Text → Result ℕ
unfolding ◌==◌
attr_value_from attr value =
    if attr == text "access_vector"
    then letter access_vector_value (access_vector_from value)
    else if attr == text "attack_complexity"
    then letter attack_complexity_value (attack_complexity_from value)
    else if attr == text "user_interaction"
    then letter user_interaction_value (user_interaction_from value)
    else if attr == text "privileges_required"
    then letter level_value (level_from value)
    else if attr == text "scope"
    then letter scope_value (scope_from value)
    else if attr == text "confidentiality"
    then letter level_value (level_from value)
    else if attr == text "integrity"
    then letter level_value (level_from value)
    else if attr == text "availability"
    then letter level_value (level_from value)
    else err Raised.value_error

abbrev prepend : ℕ → Result (Text × Text) → Result (Text × Text)
prepend x (ok (before, after)) = ok (x ∷ before, after)
prepend x (err e) = err e

-- `attr, value = s.split(c, 1)`, which raises if there is no separator
unfoldable pub split_once : ℕ → Text → Result (Text × Text)
split_once c [] = err Raised.value_error
split_once c (x ∷ s) =
    let rest = split_once c s in if nat_eq x c then ok ([], s) else prepend x rest

unfoldable pub parsed_cve_value : Text → Result (Text × ℕ)
unfolding split_once attr_name_from_cvss attr_value_from
parsed_cve_value cve_value = do
  (name, value) ← split_once b':' cve_value
  attr ← attr_name_from_cvss name
  member ← attr_value_from attr value
  ok (attr, member)

-- `CveRescoringRule.parsed_cve_values`: the items of the sets, each with the attribute of its set
unfoldable pub parsed_cve_values : CveRescoringRule → Result (List (Text × ℕ))
unfolding parsed_cve_value
parsed_cve_values rule = map_result parsed_cve_value rule.cve_values

-- `dataclasses.asdict` of a vector
abbrev pub as_dict : Cvss → List (Text × ℕ)
as_dict v =
    (text "access_vector", access_vector_value v.access_vector)
    ∷ (text "attack_complexity", attack_complexity_value v.attack_complexity)
    ∷ (text "user_interaction", user_interaction_value v.user_interaction)
    ∷ (text "privileges_required", level_value v.privileges_required)
    ∷ (text "scope", scope_value v.scope)
    ∷ (text "confidentiality", level_value v.confidentiality)
    ∷ (text "integrity", level_value v.integrity)
    ∷ (text "availability", level_value v.availability)
    ∷ []

-- `attr in cve_values`
unfoldable pub is_named : List (Text × ℕ) → Text → Bool
unfolding ◌==◌ any
is_named values attr = any (λ (name, member). name == attr) values

-- `value in cve_values[attr]`
unfoldable pub is_value_of : List (Text × ℕ) → Text → ℕ → Bool
unfolding ◌==◌ any
is_value_of values attr value = any (λ (name, member). name == attr && nat_eq member value) values

-- The loop of `CveRescoringRule.matches_cvss`
unfoldable pub matches_items : List (Text × ℕ) → List (Text × ℕ) → Bool
unfolding is_named is_value_of
matches_items values [] = true
matches_items values ((attr, value) ∷ items) =
    let rest = matches_items values items in
    if not (is_named values attr)
    then rest
    else if not (is_value_of values attr value)
    then false
    else rest

-- `CveRescoringRule.matches_cvss`
unfoldable pub matches_cvss : CveRescoringRule → Cvss → Result Bool
unfolding parsed_cve_values matches_items
matches_cvss rule cvss = do
  values ← parsed_cve_values rule
  ok (matches_items values (as_dict cvss))
