-- ===== src/Finding/Configs.antt =====
-- src/odg/findings.py: `Finding`, the configuration of one type of findings, and
-- `categorise_finding`; src/rescore/model.py: rule sets and their operations.
use odg_core.Prelude.{
  zero, suc, Bool, true, false, Option, none, some, List, [], ◌∷◌, if◌then◌else◌,
}
use odg_core.Prelude.Int.{ℤ, pos, negsuc}
use odg_core.Prelude.Result.{Result, ok, err, Raised, ◌>>=◌}
use odg_core.Prelude.Text.{Text, ◌==◌}
use odg_core.Artefact.{Datatype}
use odg_core.Filter.{ComponentArtefactFilter}
use odg_core.Finding.Selectors.{Property, selects}
use odg_core.Finding.Categories.{FindingCategorisation}

-- `rescore.model.Operation`
pub record Operation : Type 0 where
  pub order : List Text
  pub value : ℤ

-- A value of type `Operation | str`.
pub data RuleOperation : Type 0 where
  stepping : Operation → RuleOperation
  named : Text → RuleOperation

-- `rescore.model.Rule`
pub record Rule : Type 0 where
  pub name : Text
  pub operation : RuleOperation

-- A `dict[str, Operation | str]`
abbrev pub Operations : Type 0
Operations = List (Text × RuleOperation)

-- Which subclass of `RuleSet` it is.
pub data RuleSetKind : Type 0 where
  sast_rules cve_rules : RuleSetKind

pub record RuleSet : Type 0 where
  pub kind : RuleSetKind
  pub rules : List Rule
  pub operations : Option Operations

-- `odg.findings.Finding` after the references of `__post_init__` are resolved.
pub record Finding : Type 0 where
  pub type : Datatype
  pub categorisations : List FindingCategorisation
  pub filter : Option (List ComponentArtefactFilter)
  pub rescoring_ruleset : Option RuleSet

unfoldable pub find_category : Text → List FindingCategorisation → Option FindingCategorisation
unfolding ◌==◌
find_category id [] = none
find_category id (c ∷ cs) = let rest = find_category id cs in if c.id == id then some c else rest

-- `Finding.categorisation_by_id` with `absent_ok=True`, and without
unfoldable pub categorisation_by_id? : Finding → Text → Option FindingCategorisation
unfolding find_category
categorisation_by_id? cfg id = find_category id cfg.categorisations

unfoldable pub categorisation_by_id : Finding → Text → Result FindingCategorisation
unfolding categorisation_by_id?
categorisation_by_id cfg id = elim (categorisation_by_id? cfg id) [
  | none ↦ err Raised.value_error
  | some c ↦ ok c
]

abbrev pub is_zero_ℤ : ℤ → Bool
is_zero_ℤ (pos zero) = true
is_zero_ℤ (pos (suc n)) = false
is_zero_ℤ (negsuc n) = false

find_none_category : List FindingCategorisation → Option FindingCategorisation
find_none_category [] = none
find_none_category (c ∷ cs) =
    let rest = find_none_category cs in if is_zero_ℤ c.value then some c else rest

-- `Finding.none_categorisation`
unfoldable pub none_categorisation : Finding → Option FindingCategorisation
unfolding find_none_category
none_categorisation cfg = find_none_category cfg.categorisations

module _ (compile : Text → Result (Text → Bool)) where
  -- Whether a categorisation takes a finding: one without a selector takes none.
  unfoldable pub takes : FindingCategorisation → Property → List Text → Result Bool
  unfolding selects
  takes c property labels = elim c.selector [
    | none ↦ ok false
    | some s ↦ selects compile s property labels
  ]

  unfoldable pub first_taking :
      List FindingCategorisation → Property → List Text → Result (Option FindingCategorisation)
  unfolding takes
  first_taking [] property labels = ok none
  first_taking (c ∷ cs) property labels = do
    taken ← takes c property labels
    let rest = first_taking cs property labels
    if taken then ok (some c) else rest

  -- `categorise_finding`, with its keyword argument `labels`
  unfoldable pub categorise_finding :
      Finding → Property → List Text → Result (Option FindingCategorisation)
  unfolding first_taking
  categorise_finding cfg property labels = first_taking cfg.categorisations property labels
