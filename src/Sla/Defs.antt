-- ===== src/Sla/Defs.antt =====
-- src/sla_violation_profiler_extension/__main__.py with the classes of src/odg/model.py. A datetime
-- is a number of seconds on the time line of the dates; the findings are vulnerabilities.
use odg_core.Prelude.{
  ℕ, ◌+◌, ◌*◌, ◌/◌, Bool, false, not, ◌&&◌, ◌||◌, Option, none, some, List, [], ◌∷◌, ◌++◌, any,
  select, ltb, leb, if◌then◌else◌,
}
use odg_core.Prelude.Int.{ℤ, pos, ◌+ℤ◌, pos_part, ltb_ℤ}
use odg_core.Prelude.Result.{Result, ok, err, Raised, ◌>>=◌}
use odg_core.Prelude.Sort.{sorted}
use odg_core.Prelude.Text.{Text, ◌==◌, truthy}
use odg_core.Artefact.{
  ComponentArtefactId, component_artefact_key, LocalArtefactId, Subject, FindingEntry,
  RescoringEntry,
}
use odg_core.Filter.{or_empty}
use odg_core.Sprint.{max_date}
use odg_core.Duration.{convert_to_timedelta, days_unit}
use odg_core.Rescoring.{Grouped, group_key, group_key_eq, group_rescorings, rescorings_for_finding}

pub data TraceEventType : Type 0 where
  finding_discovered rescored rescoring_after_deadline release_after_deadline : TraceEventType

-- `SlaViolationTraceEntry` without its comment
pub record TraceEntry : Type 0 where
  pub event_type : TraceEventType
  pub date : ℕ
  pub severity : Text
  pub deadline : Option ℕ

-- `SlaViolation`, with the finding as the subject of the entry
pub record SlaViolation : Type 0 where
  pub subject : Subject
  pub severity : Text
  pub artefact : ComponentArtefactId
  pub trace : List TraceEntry

abbrev pub day : ℕ
day = 86400

-- `datetime.date()`
abbrev pub date_of : ℕ → ℕ
date_of t = t / day

-- `datetime + timedelta`, which raises outside of the years 1 to 9999
unfoldable pub add_time : ℕ → ℤ → Result ℕ
unfolding ◌+ℤ◌
add_time t s =
    let sum = pos t +ℤ s in
    if ltb_ℤ sum (pos day) || not (ltb_ℤ sum (pos ((max_date + 1) * day)))
    then err Raised.overflow_error
    else ok (pos_part sum)

-- `older`: by creation date, the oldest first
abbrev pub older : RescoringEntry → RescoringEntry → Bool
older a b = leb a.creation_date b.creation_date

unfoldable pub filter_rescorings_before_release_date :
    FindingEntry → LocalArtefactId → Grouped → ℕ → List RescoringEntry
unfolding rescorings_for_finding
filter_rescorings_before_release_date finding local grouped release =
    sorted older
      (select (λ r. ltb r.creation_date release) (rescorings_for_finding finding local grouped))

-- The new deadline that a rescoring sets; `none` where it waives it.
unfoldable pub new_deadline : ℕ → RescoringEntry → Result (Option ℕ)
unfolding add_time
new_deadline discovery r = elim r.due_date [
  | some d ↦ ok (some (d * day))
  | none ↦ elim r.allowed_processing_time [
    | none ↦ ok none
    | some t ↦ do
      s ← convert_to_timedelta t days_unit
      deadline ← add_time discovery s
      ok (some deadline)
  ]
]

-- `deadline is not None and date > deadline`, by dates
abbrev pub is_after : ℕ → Option ℕ → Bool
is_after t none = false
is_after t (some deadline) = ltb (date_of deadline) (date_of t)

abbrev pub rescoring_event : Option ℕ → Option ℕ → RescoringEntry → TraceEntry
rescoring_event deadline new r = record {
  event_type =
      if is_after r.creation_date deadline
      then TraceEventType.rescoring_after_deadline
      else TraceEventType.rescored;
  date = r.creation_date;
  severity = r.severity;
  deadline = if is_after r.creation_date deadline then deadline else new;
}

abbrev pub violation_of : FindingEntry → Text → List TraceEntry → SlaViolation
violation_of finding severity trace = record {
  subject = finding.subject;
  severity = severity;
  artefact = finding.artefact;
  trace = trace;
}

-- The severity of the last rescoring, or the finding's.
abbrev pub last_severity : Text → List RescoringEntry → Text
last_severity severity [] = severity
last_severity severity (r ∷ rs) = last_severity r.severity rs

abbrev pub release_event : ℕ → Text → Option ℕ → TraceEntry
release_event release severity deadline = record {
  event_type = TraceEventType.release_after_deadline;
  date = release;
  severity = severity;
  deadline = deadline;
}

-- What `iter_policy_violations` yields behind its loop: `deadline.date() < release_date.date()`
unfoldable pub release_violations :
    FindingEntry → ℕ → Text → Option ℕ → List TraceEntry → List SlaViolation
release_violations finding release severity deadline trace =
    if is_after release deadline
    then violation_of finding severity (trace ++ release_event release severity deadline ∷ []) ∷ []
    else []

-- The loop of `iter_policy_violations` over `deadline` and `trace`, with what follows it. A
-- generator that raises gives no list.
unfoldable pub scan_rescorings :
    FindingEntry
    → ℕ
    → ℕ
    → Text
    → Option ℕ
    → List TraceEntry
    → List RescoringEntry
    → Result (List SlaViolation)
unfolding new_deadline release_violations
scan_rescorings finding discovery release severity deadline trace [] =
    ok (release_violations finding release severity deadline trace)
scan_rescorings finding discovery release severity deadline trace (r ∷ rs) = do
  new ← new_deadline discovery r
  let trace' : List TraceEntry = trace ++ rescoring_event deadline new r ∷ []
  rest ← scan_rescorings finding discovery release severity new trace' rs
  ok (
      if is_after r.creation_date deadline
      then violation_of finding r.severity trace' ∷ rest
      else rest)

abbrev pub discovered_event : FindingEntry → ℕ → ℕ → TraceEntry
discovered_event finding discovery deadline = record {
  event_type = TraceEventType.finding_discovered;
  date = discovery;
  severity = finding.severity;
  deadline = some deadline;
}

-- `iter_policy_violations`, given the date of discovery and the allowed processing time
unfoldable pub iter_policy_violations :
    FindingEntry → ℕ → Text → List RescoringEntry → ℕ → Result (List SlaViolation)
unfolding scan_rescorings
iter_policy_violations finding discovered allowed rescorings release = do
  s ← convert_to_timedelta allowed days_unit
  deadline ← add_time (discovered * day) s
  scan_rescorings finding (discovered * day) release (last_severity finding.severity rescorings)
      (some deadline) (discovered_event finding (discovered * day) deadline ∷ []) rescorings

-- Equality of the keys of `_deduplicate_findings`; for vulnerabilities the subjects are the name of
-- the package and the CVE.
unfoldable pub same_finding : FindingEntry → FindingEntry → Bool
unfolding group_key_eq group_key component_artefact_key
same_finding a b =
    component_artefact_key a.artefact == component_artefact_key b.artefact
    && group_key_eq (group_key a.subject) (group_key b.subject)

unfoldable pub deduplicate_from : List FindingEntry → List FindingEntry → List FindingEntry
unfolding same_finding
deduplicate_from seen [] = []
deduplicate_from seen (f ∷ fs) =
    let known = deduplicate_from seen fs in
    let fresh = f ∷ deduplicate_from (f ∷ seen) fs in
    if any (same_finding f) seen then known else fresh

-- `_deduplicate_findings`
unfoldable pub deduplicate_findings : List FindingEntry → List FindingEntry
unfolding deduplicate_from
deduplicate_findings findings = deduplicate_from [] findings

-- The body of the loop of `iter_version_sla_violations` for a finding that was created in time.
unfoldable pub finding_violations : FindingEntry → Grouped → ℕ → Result (List SlaViolation)
unfolding filter_rescorings_before_release_date iter_policy_violations
finding_violations finding grouped release = elim finding.discovery_date [
  | none ↦ err Raised.value_error
  | some discovered ↦
      if not (truthy finding.allowed_processing_time)
      then ok []
      else elim finding.artefact.artefact [
        | none ↦ err Raised.attribute_error
        | some local ↦
            iter_policy_violations finding discovered (or_empty finding.allowed_processing_time)
              (filter_rescorings_before_release_date finding local grouped release) release
      ]
]

unfoldable pub violations_from : List FindingEntry → Grouped → ℕ → Result (List SlaViolation)
unfolding finding_violations
violations_from [] grouped release = ok []
violations_from (f ∷ fs) grouped release =
    let rest = violations_from fs grouped release in
    if ltb release f.creation_date
    then rest
    else (do here ← finding_violations f grouped release; later ← rest; ok (here ++ later))

unfoldable pub iter_version_sla_violations :
    List FindingEntry → List RescoringEntry → ℕ → Result (List SlaViolation)
unfolding violations_from deduplicate_findings group_rescorings
iter_version_sla_violations findings rescorings release =
    violations_from (deduplicate_findings findings) (group_rescorings rescorings) release
