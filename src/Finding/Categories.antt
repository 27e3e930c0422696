-- ===== src/Finding/Categories.antt =====
-- src/odg/findings.py: `FindingCategorisation` with its durations and due dates.
use odg_core.Prelude.{
  ℕ, zero, suc, ◌/◌, Bool, true, false, Option, none, some, List, ◌++◌, any, is_empty,
  if◌then◌else◌,
}
use odg_core.Prelude.Int.{ℤ, pos, negsuc}
use odg_core.Prelude.Result.{Result, ok, err, Raised, ◌>>=◌}
use odg_core.Prelude.Text.{Text, text, truthy}
use odg_core.Artefact.{FindingEntry, RescoringEntry}
use odg_core.Filter.{OneOrMany, as_list, or_empty}
use odg_core.Sprint.{add_days}
use odg_core.Duration.{convert_to_timedelta, days_unit, print_ℤ}
use odg_core.Finding.Selectors.{Selector}

pub data RescoringModes : Type 0 where
  manual automatic : RescoringModes

abbrev is_automatic : RescoringModes → Bool
is_automatic RescoringModes.manual = false
is_automatic RescoringModes.automatic = true

-- `allowed_processing_time` as it is configured: `MetaAllowedProcessingTimes.INPUT`, or the text of
-- a duration (of a number, its `str`).
pub data RawTime : Type 0 where
  raw_input : RawTime
  duration : Text → RawTime

-- The same after `__post_init__`.
pub data ProcessingTime : Type 0 where
  input : ProcessingTime
  seconds : ℤ → ProcessingTime

pub record RawCategorisation : Type 0 where
  pub id : Text
  pub display_name : Text
  pub value : ℤ
  pub allowed_processing_time : Option RawTime
  pub rescoring : OneOrMany RescoringModes
  pub selector : Option Selector

pub record FindingCategorisation : Type 0 where
  pub id : Text
  pub display_name : Text
  pub value : ℤ
  pub allowed_processing_time : Option ProcessingTime
  pub rescoring : List RescoringModes
  pub selector : Option Selector

unfoldable pub read_time : Option RawTime → Result (Option ProcessingTime)
read_time none = ok none
read_time (some raw_input) = ok (some input)
read_time (some (duration t)) = do s ← convert_to_timedelta t days_unit; ok (some (seconds s))

-- `FindingCategorisation.__post_init__`
unfoldable pub init_categorisation : RawCategorisation → Result FindingCategorisation
unfolding read_time
init_categorisation raw = do
  time ← read_time raw.allowed_processing_time
  ok (record {
    id = raw.id;
    display_name = raw.display_name;
    value = raw.value;
    allowed_processing_time = time;
    rescoring = as_list raw.rescoring;
    selector = raw.selector;
  })

automatic_rescoring : FindingCategorisation → Bool
automatic_rescoring c = if is_empty c.rescoring then false else any is_automatic c.rescoring

unfoldable pub allowed_processing_time_raw : FindingCategorisation → Option Text
allowed_processing_time_raw c = elim c.allowed_processing_time [
  | none ↦ none
  | some input ↦ some (text "input")
  | some (seconds s) ↦ some (print_ℤ s ++ text "s")
]

-- The attribute `days` of a `timedelta`, which rounds down.
abbrev whole_days : ℤ → ℤ
whole_days (pos s) = pos (s / 86400)
whole_days (negsuc s) = negsuc (s / 86400)

-- `date + timedelta`
unfoldable pub add_timedelta : ℕ → ℤ → Result ℕ
unfolding add_days
add_timedelta date s = add_days date (whole_days s)

-- `FindingCategorisation.due_date`: a duration of zero is false, and adding `INPUT` raises.
unfoldable pub due_date : FindingCategorisation → ℕ → Result (Option ℕ)
unfolding add_timedelta
due_date c discovery_date = elim c.allowed_processing_time [
  | none ↦ ok none
  | some input ↦ err Raised.type_error
  | some (seconds (pos zero)) ↦ ok none
  | some (seconds (pos (suc s))) ↦ do
    date ← add_timedelta discovery_date (pos (suc s))
    ok (some date)
  | some (seconds (negsuc s)) ↦ do date ← add_timedelta discovery_date (negsuc s); ok (some date)
]

-- `finding.discovery_date + util.convert_to_timedelta(allowed_processing_time)`, where a missing
-- discovery date raises `TypeError`
unfoldable pub date_after : Option ℕ → Text → Result (Option ℕ)
unfolding add_timedelta
date_after none t = do s ← convert_to_timedelta t days_unit; err Raised.type_error
date_after (some discovered) t = do
  s ← convert_to_timedelta t days_unit
  date ← add_timedelta discovered s
  ok (some date)

-- `self.due_date(finding.discovery_date)`
configured_due_date : FindingCategorisation → Option ℕ → Result (Option ℕ)
unfolding due_date
configured_due_date c (some discovered) = due_date c discovered
configured_due_date c none = elim c.allowed_processing_time [
  | none ↦ ok none
  | some (seconds (pos zero)) ↦ ok none
  | _ ↦ err Raised.type_error
]

-- `FindingCategorisation.effective_due_date`
unfoldable pub effective_due_date :
    FindingCategorisation → FindingEntry → Option RescoringEntry → Result (Option ℕ)
unfolding date_after configured_due_date
effective_due_date c finding none =
    if truthy finding.allowed_processing_time
    then date_after finding.discovery_date (or_empty finding.allowed_processing_time)
    else configured_due_date c finding.discovery_date
effective_due_date c finding (some rescoring) = elim rescoring.due_date [
  | some date ↦ ok (some date)
  | none ↦
      if truthy rescoring.allowed_processing_time
      then date_after finding.discovery_date (or_empty rescoring.allowed_processing_time)
      else configured_due_date c finding.discovery_date
]
