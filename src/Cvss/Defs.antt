-- ===== src/Cvss/Defs.antt =====
-- src/odg/cvss.py: `CVSSV3` with its enumerations, `parse` and `__str__`.
use odg_core.Prelude.{
  ℕ, Option, none, some, List, [], ◌∷◌, ◌++◌, map, if◌then◌else◌, ◌==◌ as nat_eq,
}
use odg_core.Prelude.Result.{Result, ok, err, Raised, ◌>>=◌, map_result}
use odg_core.Prelude.Text.{Text, text, ◌==◌, join}

pub data AccessVector : Type 0 where
  network adjacent local physical : AccessVector

pub data AttackComplexity : Type 0 where
  low high : AttackComplexity

pub data UserInteraction : Type 0 where
  unneeded required : UserInteraction

pub data Scope : Type 0 where
  unchanged changed : Scope

-- `PrivilegesRequired`, `Confidentiality`, `Integrity` and `Availability` have the same members.
pub data Level : Type 0 where
  absent low high : Level

pub record Cvss : Type 0 where
  pub access_vector : AccessVector
  pub attack_complexity : AttackComplexity
  pub user_interaction : UserInteraction
  pub privileges_required : Level
  pub scope : Scope
  pub confidentiality : Level
  pub integrity : Level
  pub availability : Level

-- The values of the members, each of one letter.
abbrev pub access_vector_value : AccessVector → ℕ
access_vector_value AccessVector.network = b'N'
access_vector_value AccessVector.adjacent = b'A'
access_vector_value AccessVector.local = b'L'
access_vector_value AccessVector.physical = b'P'

abbrev pub attack_complexity_value : AttackComplexity → ℕ
attack_complexity_value AttackComplexity.low = b'L'
attack_complexity_value AttackComplexity.high = b'H'

abbrev pub user_interaction_value : UserInteraction → ℕ
user_interaction_value UserInteraction.unneeded = b'N'
user_interaction_value UserInteraction.required = b'R'

abbrev pub scope_value : Scope → ℕ
scope_value Scope.unchanged = b'U'
scope_value Scope.changed = b'C'

abbrev pub level_value : Level → ℕ
level_value Level.absent = b'N'
level_value Level.low = b'L'
level_value Level.high = b'H'

-- The calls of the enumerations, which raise for what is no value.
unfoldable pub access_vector_from : Text → Result AccessVector
unfolding ◌==◌
access_vector_from t =
    if t == text "N"
    then ok AccessVector.network
    else if t == text "A"
    then ok AccessVector.adjacent
    else if t == text "L"
    then ok AccessVector.local
    else if t == text "P"
    then ok AccessVector.physical
    else err Raised.value_error

unfoldable pub attack_complexity_from : Text → Result AttackComplexity
unfolding ◌==◌
attack_complexity_from t =
    if t == text "L"
    then ok AttackComplexity.low
    else if t == text "H"
    then ok AttackComplexity.high
    else err Raised.value_error

unfoldable pub user_interaction_from : Text → Result UserInteraction
unfolding ◌==◌
user_interaction_from t =
    if t == text "N"
    then ok UserInteraction.unneeded
    else if t == text "R"
    then ok UserInteraction.required
    else err Raised.value_error

unfoldable pub scope_from : Text → Result Scope
unfolding ◌==◌
scope_from t =
    if t == text "U"
    then ok Scope.unchanged
    else if t == text "C"
    then ok Scope.changed
    else err Raised.value_error

unfoldable pub level_from : Text → Result Level
unfolding ◌==◌
level_from t =
    if t == text "N"
    then ok Level.absent
    else if t == text "L"
    then ok Level.low
    else if t == text "H"
    then ok Level.high
    else err Raised.value_error

abbrev push : ℕ → List Text → List Text
push x [] = (x ∷ []) ∷ []
push x (word ∷ words) = (x ∷ word) ∷ words

-- `str.split` with a separator of one character
unfoldable pub split : ℕ → Text → List Text
split c [] = [] ∷ []
split c (x ∷ s) = let rest = split c s in if nat_eq x c then [] ∷ rest else push x rest

-- `e.split(':')[0]` and `e.split(':')[1]`
abbrev pub first_two : List Text → Result (Text × Text)
first_two (key ∷ value ∷ more) = ok (key, value)
first_two _ = err Raised.index_error

unfoldable pub key_value : Text → Result (Text × Text)
unfolding split
key_value e = first_two (split b':' e)

-- `parts[key]` of a `dict` built from these items, where a later item replaces an earlier one
last_value : Text → List (Text × Text) → Option Text
unfolding ◌==◌
last_value key [] = none
last_value key ((k, v) ∷ parts) = elim (last_value key parts) [
  | some later ↦ some later
  | none ↦ if k == key then some v else none
]

unfoldable pub part_of : Text → List (Text × Text) → Result Text
unfolding last_value
part_of key parts = elim (last_value key parts) [ none ↦ err Raised.key_error | some t ↦ ok t ]

abbrev pub slash : ℕ
slash = b'/'

-- `CVSSV3.parse`
unfoldable pub parse : Text → Result Cvss
unfolding key_value part_of access_vector_from attack_complexity_from user_interaction_from
    scope_from level_from
parse cvss = do
  parts ← map_result key_value (split slash cvss)
  av ← part_of (text "AV") parts
  access_vector ← access_vector_from av
  ac ← part_of (text "AC") parts
  attack_complexity ← attack_complexity_from ac
  pr ← part_of (text "PR") parts
  privileges_required ← level_from pr
  ui ← part_of (text "UI") parts
  user_interaction ← user_interaction_from ui
  s ← part_of (text "S") parts
  scope ← scope_from s
  c ← part_of (text "C") parts
  confidentiality ← level_from c
  i ← part_of (text "I") parts
  integrity ← level_from i
  a ← part_of (text "A") parts
  availability ← level_from a
  ok (record {
    access_vector = access_vector;
    attack_complexity = attack_complexity;
    user_interaction = user_interaction;
    privileges_required = privileges_required;
    scope = scope;
    confidentiality = confidentiality;
    integrity = integrity;
    availability = availability;
  })

-- The names and values in the order in which `CVSSV3.__str__` writes them.
abbrev pub attributes : Cvss → List (Text × ℕ)
attributes v =
    (text "AV", access_vector_value v.access_vector)
    ∷ (text "AC", attack_complexity_value v.attack_complexity)
    ∷ (text "PR", level_value v.privileges_required)
    ∷ (text "UI", user_interaction_value v.user_interaction)
    ∷ (text "S", scope_value v.scope)
    ∷ (text "C", level_value v.confidentiality)
    ∷ (text "I", level_value v.integrity)
    ∷ (text "A", level_value v.availability)
    ∷ []

abbrev pub attribute_text : Text × ℕ → Text
attribute_text (key, value) = key ++ b':' ∷ value ∷ []

-- `CVSSV3.__str__`: the attributes with `/` between them
unfoldable pub print : Cvss → Text
unfolding join
print v = join (slash ∷ []) (map attribute_text (attributes v))
