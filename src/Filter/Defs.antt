-- ===== src/Filter/Defs.antt =====
-- src/odg/filter.py: `ComponentArtefactFilter` and `ComponentArtefactRuleSet`, and `Finding.matches`
-- of src/odg/findings.py.
use odg_core.Prelude.{
  Bool, true, false, not, ◌&&◌, ◌||◌, Option, none, some, List, [], ◌∷◌, map, any, select, is_empty,
  if◌then◌else◌,
}
use odg_core.Prelude.Text.{Text, ◌==◌, truthy}
use odg_core.Artefact.{
  ArtefactKind, kind_eq, ExtraId, normalise_artefact_extra_id, normalised_artefact_extra_id,
  ComponentArtefactId, LocalArtefactId,
}

pub data FilterSemantics : Type 0 where
  include exclude : FilterSemantics

-- A value of type `list[A] | A | None`, as configuration files give it.
pub data OneOrMany (A : Type 0) : Type 0 where
  absent : OneOrMany A
  one : A → OneOrMany A
  many : List A → OneOrMany A

pub record RawFilter : Type 0 where
  pub semantics : FilterSemantics
  pub component_name : OneOrMany Text
  pub component_version : OneOrMany Text
  pub artefact_kind : OneOrMany ArtefactKind
  pub artefact_name : OneOrMany Text
  pub artefact_version : OneOrMany Text
  pub artefact_type : OneOrMany Text
  pub artefact_extra_id : OneOrMany ExtraId

-- A filter after `__post_init__`. `None` and the empty list are told apart by no test of the class.
pub record ComponentArtefactFilter : Type 0 where
  pub semantics : FilterSemantics
  pub component_name : List Text
  pub component_version : List Text
  pub artefact_kind : List ArtefactKind
  pub artefact_name : List Text
  pub artefact_version : List Text
  pub artefact_type : List Text
  pub artefact_extra_id : List Text

abbrev pub as_list : {A : Type 0} → OneOrMany A → List A
as_list OneOrMany.absent = []
as_list (OneOrMany.one a) = a ∷ []
as_list (OneOrMany.many l) = l

-- `ComponentArtefactFilter.__post_init__`
post_init : RawFilter → ComponentArtefactFilter
post_init raw = record {
  semantics = raw.semantics;
  component_name = as_list raw.component_name;
  component_version = as_list raw.component_version;
  artefact_kind = as_list raw.artefact_kind;
  artefact_name = as_list raw.artefact_name;
  artefact_version = as_list raw.artefact_version;
  artefact_type = as_list raw.artefact_type;
  artefact_extra_id =
      map (λ extra_id. normalise_artefact_extra_id extra_id false) (as_list raw.artefact_extra_id);
}

abbrev pub is_include : FilterSemantics → Bool
is_include FilterSemantics.include = true
is_include FilterSemantics.exclude = false

abbrev pub or_empty : Option Text → Text
or_empty none = []
or_empty (some t) = t

-- `artefact_kind in kinds`, where `None` is in no list of kinds
abbrev kind_in : Option ArtefactKind → List ArtefactKind → Bool
kind_in none kinds = false
kind_in (some kind) kinds = any (kind_eq kind) kinds

-- `re.fullmatch(pattern, value, re.IGNORECASE)` of the regular expressions library.
module _ (fullmatch : Text → Text → Bool) where
  -- The local function `match_regexes` of `ComponentArtefactFilter.matches`.
  unfoldable pub match_regexes : FilterSemantics → List Text → Option Text → Bool
  match_regexes semantics patterns value =
      if is_empty patterns
      then true
      else if not (truthy value)
      then is_include semantics
      else any (λ p. fullmatch p (or_empty value)) patterns

  -- `ComponentArtefactFilter.matches`. The second identity is `artefact.artefact`, which the code
  -- reads without a test for `None`.
  unfoldable pub matches : ComponentArtefactFilter → ComponentArtefactId → LocalArtefactId → Bool
  unfolding match_regexes
  matches f artefact local =
      if not (match_regexes f.semantics f.component_name artefact.component_name)
      then false
      else if not (match_regexes f.semantics f.component_version artefact.component_version)
      then false
      else if not (is_empty f.artefact_kind) && not (kind_in artefact.artefact_kind f.artefact_kind)
      then false
      else if not (match_regexes f.semantics f.artefact_name local.artefact_name)
      then false
      else if not (match_regexes f.semantics f.artefact_version local.artefact_version)
      then false
      else if not (match_regexes f.semantics f.artefact_type local.artefact_type)
      then false
      else if not (is_empty f.artefact_extra_id)
          && not (any (λ t. normalised_artefact_extra_id local == t) f.artefact_extra_id)
      then false
      else true

  -- `ComponentArtefactRuleSet.allows`
  unfoldable pub allows :
      List ComponentArtefactFilter → ComponentArtefactId → LocalArtefactId → Bool
  allows rules artefact local =
      let includes = select (λ r. is_include r.semantics) rules in
      let excludes = select (λ r. not (is_include r.semantics)) rules in
      let is_included =
        if is_empty includes then true else any (λ r. matches r artefact local) includes in
      let is_excluded = any (λ r. matches r artefact local) excludes in
      is_included && not is_excluded

  -- The loop of `Finding.matches` over the flags `is_included` and `is_excluded`.
  unfoldable pub scan_filters :
      List ComponentArtefactFilter
      → ComponentArtefactId
      → LocalArtefactId
      → Bool
      → Bool
      → Bool × Bool
  scan_filters [] artefact local is_included is_excluded = (is_included, is_excluded)
  scan_filters (f ∷ filters) artefact local is_included is_excluded =
      scan_filters filters artefact local
        (if is_include f.semantics && matches f artefact local then true else is_included)
        (if is_include f.semantics && matches f artefact local
          then is_excluded
          else if not (is_include f.semantics) && matches f artefact local
          then true
          else is_excluded)

  -- `Finding.matches`, given the value of `Finding.filter`
  unfoldable pub finding_matches :
      Option (List ComponentArtefactFilter) → ComponentArtefactId → LocalArtefactId → Bool
  unfolding scan_filters
  finding_matches none artefact local = true
  finding_matches (some filters) artefact local =
      if is_empty filters
      then true
      else let is_include_filter = any (λ f. is_include f.semantics) filters in
        let (is_included, is_excluded) = scan_filters filters artefact local false false in
        not is_excluded && (not is_include_filter || is_included)
