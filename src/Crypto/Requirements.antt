-- ===== src/Crypto/Requirements.antt =====
-- src/crypto_extension/validate.py: requirements, those that are not met, and the search for the
-- alternative that is closest to being fulfilled.
use odg_core.Prelude.{
  Bool, true, false, Option, none, some, List, [], ◌∷◌, any, length, ltb, if◌then◌else◌,
}
use odg_core.Prelude.Int.{ℤ}
use odg_core.Prelude.Result.{Result, ok, err, Raised, ◌>>=◌}
use odg_core.Prelude.Text.{Text, ◌==◌}
use odg_core.Crypto.Standards.{MinMaxEnumProperties, check_value}

-- `required_value`: a member of an enumeration by its value, a text, a list, limits, or `None`.
pub data RequiredValue : Type 0 where
  member words : Text → RequiredValue
  one_of : List Text → RequiredValue
  within : MinMaxEnumProperties → RequiredValue
  nothing : RequiredValue

-- `actual_value`, whose members of enumerations are texts too.
pub data ActualValue : Type 0 where
  member words : Text → ActualValue
  number : ℤ → ActualValue
  nothing : ActualValue

pub record Requirement : Type 0 where
  pub name : Text
  pub required_value : RequiredValue
  pub actual_value : ActualValue

abbrev pub equals : Text → ActualValue → Bool
equals t (ActualValue.member s) = s == t
equals t (ActualValue.words s) = s == t
equals t (ActualValue.number n) = false
equals t ActualValue.nothing = false

abbrev pub is_member : Text → ActualValue → Bool
is_member t (ActualValue.member s) = s == t
is_member t (ActualValue.words s) = false
is_member t (ActualValue.number n) = false
is_member t ActualValue.nothing = false

abbrev pub is_within : MinMaxEnumProperties → ActualValue → Bool
is_within p (ActualValue.number n) = check_value p (some n)
is_within p (ActualValue.member s) = false
is_within p (ActualValue.words s) = false
is_within p ActualValue.nothing = false

-- Whether the loop of `iter_unmet_requirements` goes on without yielding the requirement.
unfoldable pub is_met_by : RequiredValue → ActualValue → Result Bool
unfolding ◌==◌ any check_value
is_met_by (RequiredValue.member t) actual = ok (is_member t actual)
is_met_by (RequiredValue.words t) actual = ok (equals t actual)
is_met_by (RequiredValue.one_of ts) actual = ok (any (λ t. equals t actual) ts)
is_met_by (RequiredValue.within p) actual = ok (is_within p actual)
is_met_by RequiredValue.nothing actual = err Raised.type_error

-- `list(iter_unmet_requirements(requirements))`
unfoldable pub iter_unmet_requirements : List Requirement → Result (List Requirement)
unfolding is_met_by
iter_unmet_requirements [] = ok []
iter_unmet_requirements (r ∷ rs) = do
  met ← is_met_by r.required_value r.actual_value
  unmet ← iter_unmet_requirements rs
  ok (if met then unmet else r ∷ unmet)

-- `best is None or len(unmet) < len(best)`
unfoldable pub closest : Option (List Requirement) → List Requirement → Option (List Requirement)
closest none unmet = some unmet
closest (some best) unmet = if ltb (length unmet) (length best) then some unmet else some best

-- The loop over the alternatives that one definition gives, each by its requirements.
unfoldable pub closest_of :
    Option (List Requirement) → List (List Requirement) → Result (Option (List Requirement))
unfolding iter_unmet_requirements closest
closest_of best [] = ok best
closest_of best (requirements ∷ alternatives) = do
  unmet ← iter_unmet_requirements requirements
  closest_of (closest best unmet) alternatives

-- The functions `check_unmet_requirements`, which differ in the test of a definition and in the
-- requirements of its alternatives: whether a definition matches, and the best unmet requirements.
module _ {ℓ} {D : Type ℓ} (matches : D → Bool) (alternatives : D → List (List Requirement)) where
  unfoldable pub check_from :
      Bool → Option (List Requirement) → List D → Result (Bool × Option (List Requirement))
  unfolding closest_of
  check_from matched best [] = ok (matched, best)
  check_from matched best (d ∷ ds) =
      let next = closest_of best (alternatives d) >>= λ best'. check_from true best' ds in
      let skip = check_from matched best ds in if matches d then next else skip

  unfoldable pub check_unmet_requirements : List D → Result (Bool × Option (List Requirement))
  unfolding check_from
  check_unmet_requirements ds = check_from false none ds

-- `not best_unmet_requirements`
abbrev pub none_unmet : Option (List Requirement) → Bool
none_unmet none = true
none_unmet (some []) = true
none_unmet (some (r ∷ rs)) = false
