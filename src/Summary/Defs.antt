-- ===== src/Summary/Defs.antt =====
-- src/compliance_summary.py: `severity_for_finding` and the summary entries of artefacts. Coroutines
-- are plain functions: nothing else changes the data that they read.
use odg_core.Prelude.{
  Bool, true, false, not, ◌&&◌, ◌||◌, Option, none, some, List, [], ◌∷◌, any, select, is_empty,
  if◌then◌else◌,
}
use odg_core.Prelude.Int.{ℤ, pos, negsuc, ltb_ℤ}
use odg_core.Prelude.Result.{Result, ok, err, Raised, ◌>>=◌}
use odg_core.Prelude.Text.{Text, truthy, opt_eq}
use odg_core.Artefact.{
  ArtefactKind, kind_eq, Datatype, Datasource, normalise_artefact_extra_id, LocalArtefactId,
  same_local_artefact, ComponentArtefactId, FindingEntry, RescoringEntry,
}
use odg_core.Filter.{or_empty}
use odg_core.Finding.{is_zero_ℤ, FindingCategorisation, Finding, categorisation_by_id}
use odg_core.Rescoring.{Grouped, group_rescorings, rescorings_for_finding}

-- `ComplianceEntryCategorisation | str`
pub data SummaryCategorisation : Type 0 where
  unknown clean : SummaryCategorisation
  custom : (id : Text) → SummaryCategorisation

pub data ComplianceScanStatus : Type 0 where
  no_data scanned : ComplianceScanStatus

pub record ComplianceSummaryEntry : Type 0 where
  pub type : Datatype
  pub source : Datasource
  pub categorisation : SummaryCategorisation
  pub value : ℤ
  pub scan_status : ComplianceScanStatus

unfoldable pub categorisation_to_summary_categorisation :
    FindingCategorisation → SummaryCategorisation
categorisation_to_summary_categorisation c =
    if is_zero_ℤ c.value then SummaryCategorisation.clean else SummaryCategorisation.custom c.id

abbrev pub first_severity : List RescoringEntry → Option Text
first_severity [] = none
first_severity (r ∷ rs) = some r.severity

-- `rescored_severity_if_any`; the finding's `artefact.artefact` is read without a test for `None`.
unfoldable pub rescored_severity_if_any : FindingEntry → Grouped → Result (Option Text)
unfolding rescorings_for_finding
rescored_severity_if_any finding grouped = elim finding.artefact.artefact [
  | none ↦ err Raised.attribute_error
  | some local ↦ ok (first_severity (rescorings_for_finding finding local grouped))
]

unfoldable pub severity_for_finding : FindingEntry → Grouped → Result Text
unfolding rescored_severity_if_any
severity_for_finding finding grouped = if is_empty grouped then ok finding.severity else (do
  rescored ← rescored_severity_if_any finding grouped
  ok (if truthy rescored then or_empty rescored else finding.severity))

-- The categorisation that the loop of `calculate_summary_entry` keeps.
abbrev pub more_severe :
    Option FindingCategorisation → FindingCategorisation → FindingCategorisation
more_severe none c = c
more_severe (some most) c = if ltb_ℤ most.value c.value then c else most

-- The categorisation of one finding in that loop.
unfoldable pub categorised : Finding → Grouped → FindingEntry → Result FindingCategorisation
unfolding severity_for_finding categorisation_by_id
categorised cfg grouped finding = do
  severity_name ← severity_for_finding finding grouped
  categorisation_by_id cfg severity_name

unfoldable pub most_severe :
    Finding
    → Grouped
    → Option FindingCategorisation
    → List FindingEntry
    → Result (Option FindingCategorisation)
unfolding categorised
most_severe cfg grouped most [] = ok most
most_severe cfg grouped most (finding ∷ findings) = do
  c ← categorised cfg grouped finding
  most_severe cfg grouped (some (more_severe most c)) findings

-- `finding.meta.datasource` behind the loop, where `finding` is the last one.
abbrev pub last_source : Option Datasource → List FindingEntry → Option Datasource
last_source source [] = source
last_source source (finding ∷ findings) = last_source (some finding.datasource) findings

abbrev pub entry_of :
    Finding → Option Datasource → Option FindingCategorisation → Result ComplianceSummaryEntry
entry_of cfg none most = err Raised.unbound_local_error
entry_of cfg (some source) none = err Raised.attribute_error
entry_of cfg (some source) (some c) = ok (record {
  type = cfg.type;
  source = source;
  categorisation = categorisation_to_summary_categorisation c;
  value = c.value;
  scan_status = ComplianceScanStatus.scanned;
})

unfoldable pub calculate_summary_entry :
    Finding → List FindingEntry → List RescoringEntry → Result ComplianceSummaryEntry
unfolding most_severe group_rescorings categorisation_to_summary_categorisation
calculate_summary_entry cfg findings rescorings = do
  most ← most_severe cfg (group_rescorings rescorings) none findings
  entry_of cfg (last_source none findings) most

unfoldable pub compliance_summary_entry :
    Finding
    → Datasource
    → Bool
    → List FindingEntry
    → List RescoringEntry
    → Result ComplianceSummaryEntry
unfolding calculate_summary_entry
compliance_summary_entry cfg datasource scan_exists findings rescorings =
    if not scan_exists
    then ok (record {
      type = cfg.type;
      source = datasource;
      categorisation = SummaryCategorisation.unknown;
      value = negsuc 0;
      scan_status = ComplianceScanStatus.no_data;
    })
    else if is_empty findings
    then ok (record {
      type = cfg.type;
      source = datasource;
      categorisation = SummaryCategorisation.clean;
      value = pos 0;
      scan_status = ComplianceScanStatus.scanned;
    })
    else calculate_summary_entry cfg findings rescorings

-- `matches_if_set` on texts that may be `None`
abbrev pub matches_if_set : Option Text → Option Text → Bool
matches_if_set candidate actual = not (truthy candidate) || opt_eq candidate actual

-- The condition on `rescoring.artefact.artefact` in `rescorings_for_artefact`
unfoldable pub local_is_relevant : LocalArtefactId → LocalArtefactId → Bool
unfolding opt_eq
local_is_relevant scope local =
    matches_if_set scope.artefact_name local.artefact_name
    && (matches_if_set scope.artefact_version local.artefact_version
        && matches_if_set (some (normalise_artefact_extra_id scope.artefact_extra_id true))
            (some (normalise_artefact_extra_id local.artefact_extra_id true)))

unfoldable pub is_relevant : LocalArtefactId → RescoringEntry → Bool
unfolding local_is_relevant
is_relevant local r = elim r.artefact.artefact [
  | none ↦ true
  | some scope ↦ local_is_relevant scope local
]

abbrev same_kind : Option ArtefactKind → Option ArtefactKind → Bool
same_kind none none = true
same_kind none (some k) = false
same_kind (some k) none = false
same_kind (some k) (some l) = kind_eq k l

-- Whether a scan info is for the artefact, whose `artefact.artefact` is `local`.
unfoldable pub is_scan_of : ComponentArtefactId → LocalArtefactId → ComponentArtefactId → Bool
unfolding same_local_artefact
is_scan_of artefact local info =
    same_kind info.artefact_kind artefact.artefact_kind
    && elim info.artefact [ none ↦ false | some a ↦ same_local_artefact a local ]

-- `artefact_datatype_summary`, given the artefacts of the scan infos
unfoldable pub artefact_datatype_summary :
    ComponentArtefactId
    → LocalArtefactId
    → Finding
    → Datasource
    → List ComponentArtefactId
    → List FindingEntry
    → List RescoringEntry
    → Result ComplianceSummaryEntry
unfolding is_relevant is_scan_of compliance_summary_entry
artefact_datatype_summary artefact local cfg datasource scan_infos findings rescorings =
    compliance_summary_entry cfg datasource (any (is_scan_of artefact local) scan_infos) findings
      (select (is_relevant local) rescorings)

-- The loop over the summaries of a component's artefacts in `component_datatype_summaries`.
abbrev worse : Option ComplianceSummaryEntry → ComplianceSummaryEntry → ComplianceSummaryEntry
worse none s = s
worse (some most) s = if ltb_ℤ most.value s.value then s else most

component_summary :
    Option ComplianceSummaryEntry → List ComplianceSummaryEntry → Option ComplianceSummaryEntry
component_summary most [] = most
component_summary most (s ∷ summaries) = component_summary (some (worse most s)) summaries
