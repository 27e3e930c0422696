-- ===== src/Artefact/Metadata.antt =====
-- src/odg/model.py: `ArtefactMetadata` entries that hold a finding or a rescoring, and their
-- specificity. Dates are day numbers and timestamps are seconds, both on one time line.
use odg_core.Prelude.{ℕ, Option, none, some, List, not, if◌then◌else◌}
use odg_core.Prelude.Text.{Text, truthy}
use odg_core.Artefact.Kinds.{Datatype, Datasource, Specificity}
use odg_core.Artefact.Ids.{ComponentArtefactId, LocalArtefactId}

-- The part of `data` by which findings and rescorings are grouped. Vulnerability, license and ip
-- findings are grouped by their own attributes, all other types by the property `key`.
pub data Subject : Type 0 where
  vulnerability : (cve package_name : Text) → Subject
  license : (license_name package_name : Text) → Subject
  ip : (package_name : Option Text) (labels : List Text) → Subject
  keyed : Datatype → (key : Text) → Subject

-- An entry whose `data` derives from `Finding`.
pub record FindingEntry : Type 0 where
  pub artefact : ComponentArtefactId
  pub datasource : Datasource
  pub creation_date : ℕ
  pub subject : Subject
  pub severity : Text
  pub discovery_date : Option ℕ
  pub allowed_processing_time : Option Text

-- An entry whose `data` is a `CustomRescoring`.
pub record RescoringEntry : Type 0 where
  pub artefact : ComponentArtefactId
  pub creation_date : ℕ
  pub subject : Subject
  pub severity : Text
  pub username : Text
  pub allowed_processing_time : Option Text
  pub due_date : Option ℕ

-- `ArtefactMetadata.specificity`
unfoldable pub local_specificity : LocalArtefactId → Specificity
local_specificity a =
    if not (truthy a.artefact_name)
    then Specificity.component
    else if not (truthy a.artefact_version)
    then Specificity.artefact
    else Specificity.single

unfoldable pub specificity : ComponentArtefactId → Specificity
unfolding local_specificity
specificity a =
    if not (truthy a.component_name)
    then Specificity.global
    else elim a.artefact [ none ↦ Specificity.component | some l ↦ local_specificity l ]
