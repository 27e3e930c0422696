-- ===== src/Tests/Summarising.antt =====
-- Examples on summaries of artefacts and on violations of a release.
use odg_core.Prelude.{
  ℕ, ◌≡◌, refl, ◌↔◌, Bool, true, false, Option, none, some, List, [], ◌∷◌, ◌*◌, Member, All, any,
}
use odg_core.Prelude.Int.{pos}
use odg_core.Prelude.Result.{Result, ok}
use odg_core.Prelude.Text.{Text, text}
use odg_core.Artefact.{
  Specificity, Datasource, Datatype, vulnerability, Subject, FindingEntry, RescoringEntry,
}
use odg_core.Finding.{FindingCategorisation}
use odg_core.Duration.{convert_to_timedelta, days_unit}
use odg_core.Rescoring.{group_rescorings, scoped_component_artefact_id}
use odg_core.Summary.{
  SummaryCategorisation, ComplianceScanStatus, ComplianceSummaryEntry, compliance_summary_entry,
  artefact_datatype_summary, categorised, categorisation_to_summary_categorisation, is_scan_of,
}
use odg_core.Summary.Severest.{IsAtMost, compliance_summary_entry-IsMost}
use odg_core.Summary.Prefiltered.{artefact_datatype_summary-all}
use odg_core.Sla.{
  TraceEventType, add_time, SlaViolation, day, iter_policy_violations, iter_version_sla_violations,
  deduplicate_findings, same_finding,
}
use odg_core.Sla.Violated.{Kept, iter_policy_violations-Kept_iff}
use odg_core.Sla.Proved.{IsGrounded, iter_version_sla_violations-IsGrounded}
use odg_core.Sla.Selected.{IsDistinct, deduplicate_findings-IsDistinct}
use odg_core.Tests.Data.{image, image_id}
use odg_core.Tests.Categorising.{vulnerabilities}

abbrev openssl : Subject
openssl = vulnerability (text "CVE-2024-1") (text "openssl")

abbrev zlib : Subject
zlib = vulnerability (text "CVE-2024-2") (text "zlib")

abbrev found : Subject → Text → FindingEntry
found subject severity = record {
  artefact = image_id;
  datasource = Datasource.bdba;
  creation_date = 100;
  subject = subject;
  severity = severity;
  discovery_date = some 100;
  allowed_processing_time = some (text "10d");
}

abbrev two_findings : List FindingEntry
two_findings = found openssl (text "HIGH") ∷ found zlib (text "LOW") ∷ []

-- A rescoring of the first finding, on the given date.
abbrev rescored_on : ℕ → RescoringEntry
rescored_on date = record {
  artefact = scoped_component_artefact_id image_id Specificity.artefact;
  creation_date = date * day;
  subject = openssl;
  severity = text "NONE";
  username = text "jane";
  allowed_processing_time = none;
  due_date = none;
}

abbrev low_entry : ComplianceSummaryEntry
low_entry = record {
  type = Datatype.vulnerability_finding;
  source = Datasource.bdba;
  categorisation = SummaryCategorisation.custom (text "LOW");
  value = pos 1;
  scan_status = ComplianceScanStatus.scanned;
}

low_is_most :
    compliance_summary_entry vulnerabilities Datasource.bdba true two_findings
      (rescored_on 105 ∷ [])
    ≡ ok low_entry
unfolding compliance_summary_entry odg_core.Prelude.select scoped_component_artefact_id
    odg_core.Artefact.normalise_artefact_extra_id odg_core.Prelude.Text.join
low_is_most = refl

compliance_summary_entry-IsMost_example :
    (c : FindingCategorisation) × (low_entry.value ≡ c.value)
    × (low_entry.categorisation ≡ categorisation_to_summary_categorisation c)
    × ((g : FindingEntry) × Member g two_findings
        × (categorised vulnerabilities (group_rescorings (rescored_on 105 ∷ [])) g ≡ ok c))
    × All (IsAtMost vulnerabilities (group_rescorings (rescored_on 105 ∷ [])) c) two_findings
compliance_summary_entry-IsMost_example =
    compliance_summary_entry-IsMost vulnerabilities Datasource.bdba (found openssl (text "HIGH"))
      (found zlib (text "LOW") ∷ []) (rescored_on 105 ∷ []) low_entry low_is_most

artefact_datatype_summary-all_example :
    artefact_datatype_summary image_id image vulnerabilities Datasource.bdba
      (image_id ∷ [])
      two_findings
      (rescored_on 105 ∷ [])
    ≡ compliance_summary_entry vulnerabilities Datasource.bdba
        (any (is_scan_of image_id image) (image_id ∷ []))
        two_findings
        (rescored_on 105 ∷ [])
artefact_datatype_summary-all_example =
    artefact_datatype_summary-all image_id image vulnerabilities Datasource.bdba (image_id ∷ [])
      two_findings (rescored_on 105 ∷ []) (refl, (refl, tt))

ten_days : convert_to_timedelta (text "10d") days_unit ≡ ok (pos 864000)
unfolding convert_to_timedelta
ten_days = refl

first_deadline : add_time (100 * day) (pos 864000) ≡ ok (110 * day)
unfolding add_time
first_deadline = refl

iter_policy_violations-Kept_iff_example :
    (iter_policy_violations
        (found openssl (text "HIGH"))
        100
        (text "10d")
        (rescored_on 105 ∷ [])
        (120 * day)
      ≡ ok [])
    ↔ Kept (100 * day) (120 * day) (some (110 * day)) (rescored_on 105 ∷ [])
iter_policy_violations-Kept_iff_example =
    iter_policy_violations-Kept_iff (found openssl (text "HIGH")) 100 (text "10d")
      (rescored_on 105 ∷ []) (120 * day) (pos 864000) (110 * day) ten_days first_deadline

-- The rescoring waived the deadline in time.
waived_in_time :
    iter_policy_violations
      (found openssl (text "HIGH"))
      100
      (text "10d")
      (rescored_on 105 ∷ [])
      (120 * day)
    ≡ ok []
unfolding iter_policy_violations convert_to_timedelta
waived_in_time = refl

abbrev reported : Result (List SlaViolation)
reported = iter_version_sla_violations two_findings (rescored_on 115 ∷ []) (120 * day)

-- The deadline was waived, but too late.
abbrev late_openssl : SlaViolation
late_openssl = record {
  subject = openssl;
  severity = text "NONE";
  artefact = image_id;
  trace =
      record {
        event_type = TraceEventType.finding_discovered;
        date = 100 * day;
        severity = text "HIGH";
        deadline = some (110 * day);
      }
      ∷ record {
        event_type = TraceEventType.rescoring_after_deadline;
        date = 115 * day;
        severity = text "NONE";
        deadline = some (110 * day);
      }
      ∷ [];
}

abbrev late_zlib : SlaViolation
late_zlib = record {
  subject = zlib;
  severity = text "LOW";
  artefact = image_id;
  trace =
      record {
        event_type = TraceEventType.finding_discovered;
        date = 100 * day;
        severity = text "LOW";
        deadline = some (110 * day);
      }
      ∷ record {
        event_type = TraceEventType.release_after_deadline;
        date = 120 * day;
        severity = text "LOW";
        deadline = some (110 * day);
      }
      ∷ [];
}

both_are_reported : reported ≡ ok (late_openssl ∷ late_zlib ∷ [])
unfolding iter_version_sla_violations any convert_to_timedelta odg_core.Prelude.select
    scoped_component_artefact_id odg_core.Artefact.normalise_artefact_extra_id
    odg_core.Prelude.Text.join odg_core.Artefact.parts_key odg_core.Artefact.local_key
    odg_core.Artefact.normalised_artefact_extra_id odg_core.Prelude.Text.text_leb
    odg_core.Artefact.reference_keys
both_are_reported = refl

iter_version_sla_violations-IsGrounded_example :
    All
      (IsGrounded two_findings (group_rescorings (rescored_on 115 ∷ [])) (120 * day))
      (late_openssl ∷ late_zlib ∷ [])
iter_version_sla_violations-IsGrounded_example =
    iter_version_sla_violations-IsGrounded two_findings (rescored_on 115 ∷ []) (120 * day)
      (late_openssl ∷ late_zlib ∷ []) both_are_reported

deduplicate_findings-IsDistinct_example :
    IsDistinct (deduplicate_findings (found zlib (text "HIGH") ∷ two_findings))
    × All
        (λ f.
          any (same_finding f) (deduplicate_findings (found zlib (text "HIGH") ∷ two_findings))
          ≡ true)
        (found zlib (text "HIGH") ∷ two_findings)
deduplicate_findings-IsDistinct_example =
    deduplicate_findings-IsDistinct (found zlib (text "HIGH") ∷ two_findings)
