-- ===== src/Tests/Rescoring.antt =====
-- Examples on rescorings.
use odg_core.Prelude.{
  ℕ, ◌≡◌, refl, Bool, true, false, Option, none, some, List, [], ◌∷◌, Member, select, ◌&&◌,
}
use odg_core.Prelude.Result.{ok}
use odg_core.Prelude.Text.{Text, text}
use odg_core.Artefact.{
  Specificity, specificity, ComponentArtefactId, Subject, vulnerability, Datasource, FindingEntry,
  RescoringEntry,
}
use odg_core.Finding.{FindingCategorisation}
use odg_core.Rescoring.{
  group_rescorings, applies, rescorings_for_finding, rescore_finding, scoped_component_artefact_id,
}
use odg_core.Rescoring.Validated.{validate-rescore_total}
use odg_core.Rescoring.Reapplied.{scoped_component_artefact_id-applies}
use odg_core.Tests.Data.{image, image_id}
use odg_core.Tests.Categorising.{
  severities, none_severity, high_severity, reduce_rule, drop_rule, cve_ruleset, vulnerabilities,
  vulnerabilities_valid,
}

reduced_twice :
    rescore_finding vulnerabilities high_severity
      (reduce_rule ∷ reduce_rule ∷ [])
      cve_ruleset.operations
    ≡ ok none_severity
unfolding rescore_finding
reduced_twice = refl

reduced_below :
    rescore_finding vulnerabilities none_severity (reduce_rule ∷ []) cve_ruleset.operations
    ≡ ok none_severity
unfolding rescore_finding
reduced_below = refl

validate-rescore_total_example :
    (c : FindingCategorisation) × Member c severities
    × (rescore_finding vulnerabilities high_severity
          (reduce_rule ∷ drop_rule ∷ [])
          cve_ruleset.operations
        ≡ ok c)
validate-rescore_total_example =
    validate-rescore_total vulnerabilities cve_ruleset (reduce_rule ∷ drop_rule ∷ []) high_severity
      vulnerabilities_valid tt refl (tt, (tt, tt)) (((0, refl), ((1, refl), ((2, refl), tt))), tt)
      ((0, refl), ((1, refl), tt)) (2, refl)

scoped_component_artefact_id-applies_example :
    applies (scoped_component_artefact_id image_id Specificity.artefact) image_id image ≡ true
scoped_component_artefact_id-applies_example =
    scoped_component_artefact_id-applies image_id image Specificity.artefact refl

abbrev openssl : Subject
openssl = vulnerability (text "CVE-2024-1") (text "openssl")

abbrev zlib : Subject
zlib = vulnerability (text "CVE-2024-1") (text "zlib")

abbrev rescored_at : ℕ → Specificity → Subject → Text → RescoringEntry
rescored_at date scope subject severity = record {
  artefact = scoped_component_artefact_id image_id scope;
  creation_date = date;
  subject = subject;
  severity = severity;
  username = text "jane";
  allowed_processing_time = none;
  due_date = none;
}

abbrev old_rescoring : RescoringEntry
old_rescoring = rescored_at 100 Specificity.single openssl (text "LOW")

abbrev new_rescoring : RescoringEntry
new_rescoring = rescored_at 200 Specificity.component openssl (text "NONE")

abbrev zlib_rescoring : RescoringEntry
zlib_rescoring = rescored_at 150 Specificity.global zlib (text "NONE")

abbrev three_rescorings : List RescoringEntry
three_rescorings = old_rescoring ∷ zlib_rescoring ∷ new_rescoring ∷ []

abbrev openssl_finding : FindingEntry
openssl_finding = record {
  artefact = image_id;
  datasource = Datasource.bdba;
  creation_date = 50;
  subject = openssl;
  severity = text "HIGH";
  discovery_date = some 50;
  allowed_processing_time = none;
}

newest_first :
    rescorings_for_finding openssl_finding image (group_rescorings three_rescorings)
    ≡ new_rescoring ∷ old_rescoring ∷ []
unfolding rescorings_for_finding select group_rescorings scoped_component_artefact_id
    odg_core.Artefact.normalise_artefact_extra_id odg_core.Prelude.Text.join
newest_first = refl
