-- ===== src/Tests/Timing.antt =====
-- Examples on sprints, durations and due dates.
use odg_core.Prelude.{
  ℕ, ◌≡◌, refl, ◌≤◌, ◌<◌, ◌+◌, ◌*◌, Bool, true, false, Option, none, some, List, [], ◌∷◌, ◌++◌,
  arith, All, Member,
}
use odg_core.Prelude.Int.{ℤ, pos, negsuc}
use odg_core.Prelude.Result.{Result, ok, err, Raised, ◌>>=◌}
use odg_core.Prelude.Text.{Text, text}
use odg_core.Artefact.{Datasource, vulnerability, FindingEntry}
use odg_core.Filter.{OneOrMany}
use odg_core.Sprint.{
  SprintOffsets, Sprint, RawSprint, check_sprint, due_date, build_sprint, Found,
  find_sprint_for_ref_date,
}
use odg_core.Sprint.Assignment.{find_sprint-IsEarliest, find_sprint_total}
use odg_core.Sprint.Choice.{IsEarliest}
use odg_core.Duration.{convert_to_timedelta, print_ℕ, timedelta, unit_seconds, days_unit}
use odg_core.Duration.Reading.{convert_to_timedelta-print}
use odg_core.Finding.{
  duration, RescoringModes, RawCategorisation, FindingCategorisation, seconds, init_categorisation,
  allowed_processing_time_raw, effective_due_date, due_date as category_due_date,
}
use odg_core.Finding.DueDates.{effective_due_date-stored, effective_due_date-zero}
use odg_core.Tests.Data.{image_id}

abbrev sprint_until : Text → ℕ → Sprint
sprint_until name end = record {
  name = name;
  dates =
      record { name = text "end_date"; display_name = none; value = end }
      ∷ record { name = text "release"; display_name = none; value = end + 3 }
      ∷ [];
  finding_due_date_offset_name = text "release";
}

abbrev two_sprints : List Sprint
two_sprints = sprint_until (text "2024b") 738920 ∷ sprint_until (text "2024a") 738900 ∷ []

abbrev found_from : ℕ → ℤ → Result (Found ℕ)
found_from ref offset = find_sprint_for_ref_date (λ d. d) (some ref) (some two_sprints) none offset

abbrev sprint_a : Sprint
sprint_a = sprint_until (text "2024a") 738900

abbrev sprint_b : Sprint
sprint_b = sprint_until (text "2024b") 738920

first_found : found_from 738900 (pos 0) ≡ ok (Found.sprint sprint_a)
unfolding find_sprint_for_ref_date due_date
first_found = refl

next_found : found_from 738900 (pos 1) ≡ ok (Found.sprint sprint_b)
unfolding find_sprint_for_ref_date due_date
next_found = refl

due_a : due_date sprint_a ≡ ok 738903
unfolding due_date
due_a = refl

due_b : due_date sprint_b ≡ ok 738923
unfolding due_date
due_b = refl

sprint_a_checked : check_sprint sprint_a ≡ ok tt
unfolding check_sprint odg_core.Prelude.any
sprint_a_checked = refl

sprint_b_checked : check_sprint sprint_b ≡ ok tt
unfolding check_sprint odg_core.Prelude.any
sprint_b_checked = refl

checked : All (λ s. check_sprint s ≡ ok tt) two_sprints
checked = (sprint_b_checked, (sprint_a_checked, tt))

find_sprint-IsEarliest_example :
    Member sprint_a two_sprints
    × ((d : ℕ) × (due_date sprint_a ≡ ok d)
        × All (λ t. (e : ℕ) × (due_date t ≡ ok e) × IsEarliest 738900 d e) two_sprints)
find_sprint-IsEarliest_example =
    find_sprint-IsEarliest (λ d. d) 738900 two_sprints sprint_a first_found

find_sprint_total_example : (s : Sprint) × (found_from 738900 (negsuc 6) ≡ ok (Found.sprint s))
find_sprint_total_example =
    find_sprint_total (λ d. d) 738900 (negsuc 6) two_sprints checked (omega arith)

abbrev release_offsets : List SprintOffsets
release_offsets =
    record { name = text "release"; display_name = none; offset_days = pos 3 }
    ∷ record { name = text "freeze"; display_name = some (text "Freeze"); offset_days = negsuc 1 }
    ∷ []

abbrev built_sprint : Sprint
built_sprint = record {
  name = text "2024c";
  dates =
      record { name = text "end_date"; display_name = some (text "End Date"); value = 738940 }
      ∷ record { name = text "release"; display_name = none; value = 738943 }
      ∷ record { name = text "freeze"; display_name = some (text "Freeze"); value = 738938 }
      ∷ [];
  finding_due_date_offset_name = text "release";
}

sprint_builds :
    build_sprint release_offsets (text "release") (RawSprint.dict (text "2024c") 738940)
    ≡ ok built_sprint
unfolding build_sprint odg_core.Prelude.any
sprint_builds = refl

convert_to_timedelta-print_example :
    convert_to_timedelta (print_ℕ 14 ++ (text " " ++ text "d")) days_unit
    ≡ (unit_seconds (text "d") >>= λ seconds. timedelta (pos (14 * seconds)))
convert_to_timedelta-print_example =
    convert_to_timedelta-print (text " ") (text "d") (refl, tt) (refl, (refl, tt)) 14 days_unit

days_read : convert_to_timedelta (text "14 d") days_unit ≡ ok (pos 1209600)
unfolding convert_to_timedelta
days_read = refl

-- The unit that a comment of the configuration names is not known.
years_unread : convert_to_timedelta (text "2 a") days_unit ≡ err Raised.key_error
unfolding convert_to_timedelta
years_unread = refl

-- What is written for a negative time cannot be read.
negative_unread : convert_to_timedelta (text "-5s") days_unit ≡ err Raised.value_error
unfolding convert_to_timedelta
negative_unread = refl

abbrev high_in : Text → RawCategorisation
high_in time = record {
  id = text "HIGH";
  display_name = text "High";
  value = pos 4;
  allowed_processing_time = some (duration time);
  rescoring = OneOrMany.one RescoringModes.manual;
  selector = none;
}

abbrev high_after : ℤ → FindingCategorisation
high_after time = record {
  id = text "HIGH";
  display_name = text "High";
  value = pos 4;
  allowed_processing_time = some (seconds time);
  rescoring = RescoringModes.manual ∷ [];
  selector = none;
}

high_inits : init_categorisation (high_in (text "2w")) ≡ ok (high_after (pos 1209600))
unfolding init_categorisation convert_to_timedelta
high_inits = refl

abbrev found_with : Text → FindingEntry
found_with time = record {
  artefact = image_id;
  datasource = Datasource.bdba;
  creation_date = 1000;
  subject = vulnerability (text "CVE-2024-1") (text "openssl");
  severity = text "HIGH";
  discovery_date = some 738900;
  allowed_processing_time = some time;
}

time_is_stored : some (text "1209600s") ≡ allowed_processing_time_raw (high_after (pos 1209600))
unfolding allowed_processing_time_raw odg_core.Duration.print_ℤ
time_is_stored = refl

effective_due_date-stored_example :
    effective_due_date (high_after (pos 1209600)) (found_with (text "1209600s")) none
    ≡ category_due_date (high_after (pos 1209600)) 738900
effective_due_date-stored_example =
    effective_due_date-stored (high_in (text "2w")) (high_after (pos 1209600))
      (found_with (text "1209600s")) 1209599 738900 high_inits refl time_is_stored refl

zero_is_stored : some (text "0s") ≡ allowed_processing_time_raw (high_after (pos 0))
unfolding allowed_processing_time_raw odg_core.Duration.print_ℤ
zero_is_stored = refl

effective_due_date-zero_example :
    (category_due_date (high_after (pos 0)) 738900 ≡ ok none)
    × (effective_due_date (high_after (pos 0)) (found_with (text "0s")) none ≡ ok (some 738900))
effective_due_date-zero_example =
    effective_due_date-zero (high_after (pos 0)) (found_with (text "0s")) 738900 refl zero_is_stored
      refl (omega arith) (omega arith)
