-- ===== src/Summary/Prefiltered.antt =====
-- `artefact_datatype_summary` (src/compliance_summary.py) drops rescorings for other artefacts before
-- it categorises the findings.
use odg_core.Prelude.{
  ◌≡◌, refl, ap, sym, ◌∙◌, Bool, true, false, Option, none, some, List, [], ◌∷◌, arith, All, select,
  ◌&&◌, is_empty, any, not, if◌then◌else◌, Bool-cases, inl, inr,
}
use odg_core.Prelude.Sort.{sorted}
use odg_core.Prelude.Result.{ok, >>=-ext}
use odg_core.Prelude.Text.{◌==◌, Text, truthy, opt_eq}
use odg_core.Artefact.{
  ExtraId, normalise_artefact_extra_id, Datasource, LocalArtefactId, ComponentArtefactId,
  FindingEntry, RescoringEntry,
}
use odg_core.Filter.{or_empty}
use odg_core.Finding.{FindingCategorisation, Finding}
use odg_core.Rescoring.{
  is_nonempty, Grouped, group_rescorings, applies, local_applies, newer, rescorings_for_finding,
}
use odg_core.Rescoring.Ordering.{concerns, iter_rescorings_for_finding-select}
use odg_core.Summary.Defs.{
  first_severity, more_severe, rescored_severity_if_any, severity_for_finding, categorised,
  most_severe, calculate_summary_entry, compliance_summary_entry, matches_if_set, is_relevant,
  local_is_relevant, is_scan_of, artefact_datatype_summary,
}

normalise-nil : normalise_artefact_extra_id [] true ≡ []
unfolding normalise_artefact_extra_id odg_core.Prelude.Text.join sorted
normalise-nil = refl

-- Without an extra identity there is nothing to compare.
extra_id-relevant :
    (d : ExtraId) (n : Text)
    → (is_nonempty d && not (normalise_artefact_extra_id d true == n)) ≡ false
    → matches_if_set (some (normalise_artefact_extra_id d true)) (some n) ≡ true
unfolding opt_eq
extra_id-relevant [] n h = rw normalise-nil refl
extra_id-relevant (item ∷ items) n h = ground arith

-- A rescoring that applies to a finding of the artefact is relevant for the artefact.
local_applies-relevant :
    (scope local : LocalArtefactId)
    → local_applies scope local ≡ true
    → local_is_relevant scope local ≡ true
unfolding local_applies local_is_relevant
local_applies-relevant scope local h = ground (
  arith,
  extra_id-relevant scope.artefact_extra_id
      (normalise_artefact_extra_id local.artefact_extra_id true),
)

applies-relevant :
    (r : RescoringEntry) (artefact : ComponentArtefactId) (local : LocalArtefactId)
    → applies r.artefact artefact local ≡ true
    → is_relevant local r ≡ true
unfolding applies is_relevant
applies-relevant r artefact local h = by_local r.artefact.artefact (tests_passed _ _ _ h)
  where
    tests_passed :
        (a b c : Bool) → (if a then false else (if b then false else c)) ≡ true → c ≡ true
    tests_passed a b c h = ground arith

    by_local :
        (a : Option LocalArtefactId)
        → elim a [ none ↦ true | some s ↦ local_applies s local ] ≡ true
        → elim a [ none ↦ true | some s ↦ local_is_relevant s local ] ≡ true
    by_local none h = refl
    by_local (some s) h = local_applies-relevant s local h

select-implied {ℓ} :
    {A : Type ℓ} (p q : A → Bool)
    → ((x : A) → p x ≡ true → q x ≡ true)
    → (xs : List A) → select p (select q xs) ≡ select p xs
unfolding select
select-implied p q implied [] = refl
select-implied p q implied (x ∷ xs) = ground (arith, implied x, select-implied p q implied xs)

concerns-relevant :
    (finding : FindingEntry) (local : LocalArtefactId) (r : RescoringEntry)
    → concerns finding local r ≡ true
    → is_relevant local r ≡ true
concerns-relevant finding local r h = applies-relevant r finding.artefact local (ground arith)

rescorings_for_finding-relevant :
    (finding : FindingEntry) (local : LocalArtefactId) (rs : List RescoringEntry)
    → rescorings_for_finding finding local (group_rescorings (select (is_relevant local) rs))
      ≡ rescorings_for_finding finding local (group_rescorings rs)
unfolding rescorings_for_finding
rescorings_for_finding-relevant finding local rs = ap (sorted newer) (
    iter_rescorings_for_finding-select finding local (select (is_relevant local) rs)
    ∙ (select-implied (concerns finding local) (is_relevant local) (concerns-relevant finding local)
          rs
        ∙ sym (iter_rescorings_for_finding-select finding local rs)))

-- The severity by the first rescoring, or the finding's own.
abbrev severity_by : FindingEntry → Option Text → Text
severity_by finding rescored = if truthy rescored then or_empty rescored else finding.severity

severity_for_finding-eq :
    (finding : FindingEntry) (local : LocalArtefactId) (grouped : Grouped)
    → finding.artefact.artefact ≡ some local
    → severity_for_finding finding grouped
      ≡ ok (severity_by finding (first_severity (rescorings_for_finding finding local grouped)))
unfolding severity_for_finding rescorings_for_finding select
severity_for_finding-eq finding local [] e = refl
severity_for_finding-eq finding local (g ∷ gs) e = rw (rescored_severity_if_any, e) refl

-- All findings are for the artefact that the summary is made for.
abbrev IsFor : LocalArtefactId → FindingEntry → Type 0
IsFor local finding = finding.artefact.artefact ≡ some local

categorised-relevant :
    (cfg : Finding) (local : LocalArtefactId) (rs : List RescoringEntry) (finding : FindingEntry)
    → IsFor local finding
    → categorised cfg (group_rescorings (select (is_relevant local) rs)) finding
      ≡ categorised cfg (group_rescorings rs) finding
unfolding categorised
categorised-relevant cfg local rs finding e =
    rw
      (
        severity_for_finding-eq finding local (group_rescorings (select (is_relevant local) rs)) e,
        severity_for_finding-eq finding local (group_rescorings rs) e,
        rescorings_for_finding-relevant finding local rs,
      )
      refl

most_severe-relevant :
    (cfg : Finding) (local : LocalArtefactId) (rs : List RescoringEntry)
    (most : Option FindingCategorisation) (findings : List FindingEntry)
    → All (IsFor local) findings
    → most_severe cfg (group_rescorings (select (is_relevant local) rs)) most findings
      ≡ most_severe cfg (group_rescorings rs) most findings
unfolding most_severe
most_severe-relevant cfg local rs most [] h = refl
most_severe-relevant cfg local rs most (f ∷ fs) h =
    rw (most_severe, categorised-relevant cfg local rs f h.0)
      (>>=-ext (categorised cfg (group_rescorings rs) f)
        (λ c. most_severe-relevant cfg local rs (some (more_severe most c)) fs h.1))

-- Dropping the rescorings for other artefacts first changes nothing: if all findings are for the
-- artefact, its entry is the one that all rescorings of the component give.
pub artefact_datatype_summary-all :
    (artefact : ComponentArtefactId) (local : LocalArtefactId) (cfg : Finding) (source : Datasource)
    (scan_infos : List ComponentArtefactId) (findings : List FindingEntry)
    (rs : List RescoringEntry)
    → All (IsFor local) findings
    → artefact_datatype_summary artefact local cfg source scan_infos findings rs
      ≡ compliance_summary_entry cfg source (any (is_scan_of artefact local) scan_infos) findings rs
unfolding artefact_datatype_summary compliance_summary_entry calculate_summary_entry
artefact_datatype_summary-all artefact local cfg source scan_infos findings rs h =
    rw (most_severe-relevant cfg local rs none findings h) refl
