-- ===== src/Sprint/Defs.antt =====
-- src/sprints/model.py: `Sprint` and `SprintsConfiguration`. A date is its proleptic day number.
use odg_core.Prelude.{ℕ, not, ◌||◌, Option, none, some, List, [], ◌∷◌, any, if◌then◌else◌}
use odg_core.Prelude.Int.{ℤ, pos, ◌+ℤ◌, pos_part, ltb_ℤ}
use odg_core.Prelude.Result.{Result, ok, err, Raised, ◌>>=◌, ◌>>◌, raise_if, map_result}
use odg_core.Prelude.Text.{Text, text, ◌==◌}

-- `SprintNames.END_DATE`
abbrev pub end_date_name : Text
end_date_name = text "end_date"

pub record SprintOffsets : Type 0 where
  pub name : Text
  pub display_name : Option Text
  pub offset_days : ℤ

pub record SprintMetadata : Type 0 where
  pub offsets : List SprintOffsets
  pub finding_due_date_offset_name : Text

pub record SprintDate : Type 0 where
  pub name : Text
  pub display_name : Option Text
  pub value : ℕ

pub record Sprint : Type 0 where
  pub name : Text
  pub dates : List SprintDate
  pub finding_due_date_offset_name : Text

-- The loop of `Sprint.__post_init__`, which returns `seen_names`.
unfoldable pub seen_names : List Text → List SprintDate → Result (List Text)
unfolding ◌==◌
seen_names seen [] = ok seen
seen_names seen (d ∷ dates) =
    let rest = seen_names (d.name ∷ seen) dates in
    if any (λ n. d.name == n) seen then err Raised.value_error else rest

-- `Sprint.__post_init__`
unfoldable pub check_sprint : Sprint → Result (Unit {0})
unfolding seen_names
check_sprint s = do
  seen ← seen_names [] s.dates
  raise_if (not (any (λ n. s.finding_due_date_offset_name == n) seen)) Raised.value_error

-- `Sprint.find_sprint_date`
unfoldable pub find_sprint_date : Text → List SprintDate → Option SprintDate
unfolding ◌==◌
find_sprint_date name [] = none
find_sprint_date name (d ∷ dates) =
    let rest = find_sprint_date name dates in if d.name == name then some d else rest

-- `Sprint.due_date`
unfoldable pub due_date : Sprint → Result ℕ
unfolding find_sprint_date
due_date s = elim (find_sprint_date s.finding_due_date_offset_name s.dates) [
  | none ↦ err Raised.value_error
  | some d ↦ ok d.value
]

-- The day number of `datetime.date.max`
abbrev pub max_date : ℕ
max_date = 3652059

-- `date + datetime.timedelta(days=offset)`, which raises outside of the years 1 to 9999.
unfoldable pub add_days : ℕ → ℤ → Result ℕ
unfolding ◌+ℤ◌
add_days date offset =
    let sum = pos date +ℤ offset in
    if ltb_ℤ sum (pos 1) || ltb_ℤ (pos max_date) sum
    then err Raised.overflow_error
    else ok (pos_part sum)

-- An entry of `sprints` in the configuration: a sprint, or a dict with the keys `name` and
-- `end_date`.
pub data RawSprint : Type 0 where
  given : Sprint → RawSprint
  dict : (name : Text) (end_date : ℕ) → RawSprint

unfoldable pub offset_date : ℕ → SprintOffsets → Result SprintDate
unfolding add_days
offset_date end_date offset = do
  value ← add_days end_date offset.offset_days
  ok (record { name = offset.name; display_name = offset.display_name; value = value })

-- The body of the loop of `SprintsConfiguration.__post_init__`. The constructor of `Sprint` runs
-- its `__post_init__`.
unfoldable pub build_sprint : List SprintOffsets → Text → RawSprint → Result Sprint
unfolding offset_date check_sprint
build_sprint offsets due_name (given s) = ok s
build_sprint offsets due_name (dict name end_date) = do
  others ← map_result (offset_date end_date) offsets
  let dates : List SprintDate =
      record { name = end_date_name; display_name = some (text "End Date"); value = end_date }
      ∷ others
  let sprint : Sprint = record {
    name = name;
    dates = dates;
    finding_due_date_offset_name = due_name;
  }
  check_sprint sprint
  ok sprint

-- `SprintsConfiguration.__post_init__`
build_sprints : Option SprintMetadata → List RawSprint → Result (List Sprint)
unfolding build_sprint
build_sprints none raw = map_result (build_sprint [] end_date_name) raw
build_sprints (some meta) raw =
    map_result (build_sprint meta.offsets meta.finding_due_date_offset_name) raw
