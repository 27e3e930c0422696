-- ===== src/Artefact/Kinds.antt =====
-- src/odg/model.py: the enumerations `Datatype`, `Datasource`, `ArtefactKind` and
-- `ArtefactMetadataSpecificity`.
use odg_core.Prelude.{ℕ, Bool, true, false, Option, none, some, leb}
use odg_core.Prelude.Text.{Text, text}

pub data ArtefactKind : Type 0 where
  artefact resource runtime source : ArtefactKind

abbrev pub kind_value : ArtefactKind → Text
kind_value ArtefactKind.artefact = text "artefact"
kind_value ArtefactKind.resource = text "resource"
kind_value ArtefactKind.runtime = text "runtime"
kind_value ArtefactKind.source = text "source"

abbrev pub kind_eq : ArtefactKind → ArtefactKind → Bool
kind_eq ArtefactKind.artefact ArtefactKind.artefact = true
kind_eq ArtefactKind.resource ArtefactKind.resource = true
kind_eq ArtefactKind.runtime ArtefactKind.runtime = true
kind_eq ArtefactKind.source ArtefactKind.source = true
kind_eq _ _ = false

pub data Datatype : Type 0 where
  artefact_scan_info compliance_snapshots rescoring responsibles scanner_writeback uuid : Datatype
  sla_violation codeql_finding crypto_finding diki_finding falco_finding ghas_finding : Datatype
  inventory_finding ip_finding kyverno_finding license_finding malware_finding : Datatype
  osid_finding sast_finding vulnerability_finding crypto_asset osid structure_info : Datatype

-- The place of a type in the enumeration, by which two types are compared.
abbrev pub datatype_index : Datatype → ℕ
datatype_index Datatype.artefact_scan_info = 0
datatype_index Datatype.compliance_snapshots = 1
datatype_index Datatype.rescoring = 2
datatype_index Datatype.responsibles = 3
datatype_index Datatype.scanner_writeback = 4
datatype_index Datatype.uuid = 5
datatype_index Datatype.sla_violation = 6
datatype_index Datatype.codeql_finding = 7
datatype_index Datatype.crypto_finding = 8
datatype_index Datatype.diki_finding = 9
datatype_index Datatype.falco_finding = 10
datatype_index Datatype.ghas_finding = 11
datatype_index Datatype.inventory_finding = 12
datatype_index Datatype.ip_finding = 13
datatype_index Datatype.kyverno_finding = 14
datatype_index Datatype.license_finding = 15
datatype_index Datatype.malware_finding = 16
datatype_index Datatype.osid_finding = 17
datatype_index Datatype.sast_finding = 18
datatype_index Datatype.vulnerability_finding = 19
datatype_index Datatype.crypto_asset = 20
datatype_index Datatype.osid = 21
datatype_index Datatype.structure_info = 22

pub data Datasource : Type 0 where
  artefact_enumerator bdba blackduck clamav codeql crypto delivery_dashboard diki : Datasource
  falco kyverno ghas inventory osid responsibles sast sbom_generator : Datasource
  sla_violation_profiler trivy odg : Datasource

-- `Datatype.datasource`, a lookup that raises `KeyError` where it has no entry.
unfoldable pub datasource : Datatype → Option Datasource
datasource Datatype.codeql_finding = some Datasource.codeql
datasource Datatype.crypto_finding = some Datasource.crypto
datasource Datatype.diki_finding = some Datasource.diki
datasource Datatype.falco_finding = some Datasource.falco
datasource Datatype.ghas_finding = some Datasource.ghas
datasource Datatype.inventory_finding = some Datasource.inventory
datasource Datatype.ip_finding = some Datasource.blackduck
datasource Datatype.kyverno_finding = some Datasource.kyverno
datasource Datatype.license_finding = some Datasource.bdba
datasource Datatype.malware_finding = some Datasource.clamav
datasource Datatype.osid_finding = some Datasource.osid
datasource Datatype.sast_finding = some Datasource.sast
datasource Datatype.vulnerability_finding = some Datasource.bdba
datasource _ = none

pub data Specificity : Type 0 where
  global component artefact single : Specificity

-- `ArtefactMetadataSpecificity._asint`
abbrev as_int : Specificity → ℕ
as_int Specificity.global = 0
as_int Specificity.component = 1
as_int Specificity.artefact = 2
as_int Specificity.single = 3

-- `ArtefactMetadataSpecificity.__le__`
abbrev pub specificity_leb : Specificity → Specificity → Bool
specificity_leb a b = leb (as_int a) (as_int b)
