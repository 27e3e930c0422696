-- ===== src/Rescoring/Grouping.antt =====
-- src/rescore/utility.py: `group_rescorings` and the rescorings that apply to a finding.
use odg_core.Prelude.{
  Bool, true, false, not, ◌&&◌, Option, none, some, List, [], ◌∷◌, ◌++◌, select, leb, if◌then◌else◌,
  ◌==◌ as nat_eq,
}
use odg_core.Prelude.Sort.{sorted}
use odg_core.Prelude.Text.{Text, ◌==◌, text_leb, truthy, opt_eq}
use odg_core.Artefact.{
  Datatype, datatype_index, ExtraId, normalise_artefact_extra_id, LocalArtefactId,
  ComponentArtefactId, Subject, vulnerability, license, ip, keyed, FindingEntry, RescoringEntry,
}

-- The tuples that `_finding_group_key` and `_rescoring_group_key` return: a type and one or two
-- attributes.
pub data GroupKey : Type 0 where
  two : Datatype → Text → Option Text → GroupKey
  labelled : Datatype → Option Text → List Text → GroupKey
  one : Datatype → Text → GroupKey

unfoldable pub texts_eq : List Text → List Text → Bool
unfolding ◌==◌
texts_eq [] [] = true
texts_eq [] (t ∷ ts) = false
texts_eq (s ∷ ss) [] = false
texts_eq (s ∷ ss) (t ∷ ts) = s == t && texts_eq ss ts

-- `==` on two such tuples
unfoldable pub group_key_eq : GroupKey → GroupKey → Bool
unfolding ◌==◌ opt_eq texts_eq
group_key_eq (two d a b) (two e x y) =
    nat_eq (datatype_index d) (datatype_index e) && (a == x && opt_eq b y)
group_key_eq (labelled d a b) (labelled e x y) =
    nat_eq (datatype_index d) (datatype_index e) && (opt_eq a x && texts_eq b y)
group_key_eq (one d a) (one e x) = nat_eq (datatype_index d) (datatype_index e) && a == x
group_key_eq _ _ = false

-- `_finding_group_key` and `_rescoring_group_key`, which read the same attributes, once of the
-- finding and once of the finding that a rescoring holds.
unfoldable pub group_key : Subject → GroupKey
unfolding sorted
group_key (vulnerability cve package_name) =
    two Datatype.vulnerability_finding cve (some package_name)
group_key (license license_name package_name) =
    two Datatype.license_finding license_name (some package_name)
group_key (ip package_name labels) =
    labelled Datatype.ip_finding package_name (sorted text_leb labels)
group_key (keyed type key) = one type key

-- A `dict` from keys to lists, in insertion order.
abbrev pub Grouped : Type 0
Grouped = List (GroupKey × List RescoringEntry)

-- `grouped_rescorings.get(key, [])`
unfoldable pub group_of : GroupKey → Grouped → List RescoringEntry
unfolding group_key_eq
group_of key [] = []
group_of key ((k, group) ∷ rest) =
    let later = group_of key rest in if group_key_eq k key then group else later

-- `grouped_rescorings[key].append(rescoring)` on a `defaultdict(list)`
unfoldable pub append_to_group : GroupKey → RescoringEntry → Grouped → Grouped
unfolding group_key_eq
append_to_group key r [] = (key, r ∷ []) ∷ []
append_to_group key r ((k, group) ∷ rest) =
    let later = (k, group) ∷ append_to_group key r rest in
    if group_key_eq k key then (k, group ++ r ∷ []) ∷ rest else later

unfoldable pub group_from : Grouped → List RescoringEntry → Grouped
unfolding append_to_group
group_from grouped [] = grouped
group_from grouped (r ∷ rs) = group_from (append_to_group (group_key r.subject) r grouped) rs

-- `group_rescorings`
unfoldable pub group_rescorings : List RescoringEntry → Grouped
unfolding group_from
group_rescorings rescorings = group_from [] rescorings

-- `a and a != b`: the attribute of the rescoring is set and not that of the finding.
abbrev pub differs : Option Text → Option Text → Bool
differs a b = truthy a && not (opt_eq a b)

abbrev pub is_nonempty : ExtraId → Bool
is_nonempty [] = false
is_nonempty (item ∷ items) = true

-- The three tests on `rescoring.artefact.artefact`; the finding's `artefact.artefact` is `local`.
unfoldable pub local_applies : LocalArtefactId → LocalArtefactId → Bool
unfolding ◌==◌
local_applies scope local =
    if differs scope.artefact_name local.artefact_name
    then false
    else if differs scope.artefact_version local.artefact_version
    then false
    else if is_nonempty scope.artefact_extra_id
        && not (
            normalise_artefact_extra_id scope.artefact_extra_id true
            == normalise_artefact_extra_id local.artefact_extra_id true)
    then false
    else true

-- The tests of `_iter_rescorings_for_finding` on one rescoring's artefact. The second identity and
-- `local` are the finding's, whose `artefact.artefact` the code reads without a test for `None`.
unfoldable pub applies : ComponentArtefactId → ComponentArtefactId → LocalArtefactId → Bool
unfolding opt_eq local_applies
applies scope artefact local =
    if differs scope.component_name artefact.component_name
    then false
    else if truthy scope.component_version
        && (truthy artefact.component_version
            && not (opt_eq scope.component_version artefact.component_version))
    then false
    else elim scope.artefact [ none ↦ true | some s ↦ local_applies s local ]

-- `_iter_rescorings_for_finding`
unfoldable pub iter_rescorings_for_finding :
    FindingEntry → LocalArtefactId → Grouped → List RescoringEntry
unfolding group_of group_key applies
iter_rescorings_for_finding finding local grouped =
    select (λ r. applies r.artefact finding.artefact local)
      (group_of (group_key finding.subject) grouped)

-- The newest first; equal dates keep their order.
abbrev pub newer : RescoringEntry → RescoringEntry → Bool
newer a b = leb b.creation_date a.creation_date

-- `rescorings_for_finding_by_specificity`
unfoldable pub rescorings_for_finding :
    FindingEntry → LocalArtefactId → Grouped → List RescoringEntry
unfolding iter_rescorings_for_finding sorted
rescorings_for_finding finding local grouped =
    sorted newer (iter_rescorings_for_finding finding local grouped)
