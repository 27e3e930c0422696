-- ===== src/Tests/Enumerating.antt =====
-- Examples on compliance snapshots.
use odg_core.Prelude.{
  ℕ, ◌≡◌, refl, true, false, not, none, some, List, [], ◌∷◌, ◌+◌, arith, All, select, leb,
  if◌then◌else◌,
}
use odg_core.Prelude.Result.{ok}
use odg_core.Prelude.Text.{text}
use odg_core.Snapshot.{
  active, inactive, SnapshotState, has_service, current_state, update_state, is_active,
  BacklogPriorities, UncommittedBacklogItem, state_at, item_of, create_backlog_item, kept, deleted,
  updated, process_inactive,
}
use odg_core.Snapshot.Purged.{update_state-select}
use odg_core.Snapshot.Once.{IsOlder, create_backlog_item-once, process_inactive-grace}
use odg_core.Tests.Data.{image_id}

abbrev scanned_at : ℕ → SnapshotState
scanned_at now = state_at now none (some (text "bdba"))

abbrev three_states : List SnapshotState
three_states = state_at 10 (some active) none ∷ scanned_at 10 ∷ scanned_at 20 ∷ []

purged :
    update_state (scanned_at 30) three_states ≡ state_at 10 (some active) none ∷ scanned_at 30 ∷ []
unfolding update_state
purged = refl

-- With the time of an older state the new one is purged.
new_one_is_purged : update_state (state_at 10 (some inactive) none) three_states ≡ three_states
unfolding update_state
new_one_is_purged = refl

update_state-select_example :
    ((c : SnapshotState) × (current_state
          (some (text "bdba"))
          (state_at 10 (some active) none ∷ scanned_at 10 ∷ scanned_at 20 ∷ scanned_at 30 ∷ [])
        ≡ some c)
      × (select (has_service (some (text "bdba"))) (update_state (scanned_at 30) three_states)
          ≡ c ∷ []))
    × (select
          (λ t. not (has_service (some (text "bdba")) t))
          (update_state (scanned_at 30) three_states)
        ≡ select (λ t. not (has_service (some (text "bdba")) t)) three_states)
update_state-select_example = update_state-select (scanned_at 30) three_states

-- The snapshot's own state of this run is there already, and one of another service.
abbrev this_run : List SnapshotState
this_run =
    state_at 10 (some active) none
    ∷ scanned_at 10
    ∷ state_at 30 none (some (text "clamav"))
    ∷ state_at 30 (some active) none
    ∷ []

IsOlder-of_service : All (IsOlder (some (text "bdba")) 30) this_run
unfolding has_service
IsOlder-of_service = ((λ _. omega arith), ((λ _. omega arith), ((λ h. cc), ((λ h. cc), tt))))

older : All (IsOlder none 30) three_states
older = ((λ _. omega arith), ((λ _. omega arith), ((λ _. omega arith), tt)))

abbrev low_item : UncommittedBacklogItem
low_item = item_of image_id BacklogPriorities.low (text "bdba")

item_created :
    create_backlog_item image_id this_run (text "bdba") 10 30 none
    ≡ (update_state (scanned_at 30) this_run, some low_item)
unfolding create_backlog_item
item_created = refl

create_backlog_item-once_example :
    create_backlog_item image_id (update_state (scanned_at 30) this_run) (text "bdba") 10 39 none
    ≡ (update_state (scanned_at 30) this_run, none)
create_backlog_item-once_example =
    create_backlog_item-once image_id this_run (update_state (scanned_at 30) this_run) (text "bdba")
      10 30 39 none low_item IsOlder-of_service item_created (omega arith)

is_active_before : is_active three_states ≡ true
unfolding is_active
is_active_before = refl

process_inactive-grace_example :
    (states' : List SnapshotState) × (process_inactive true 60 30 three_states
      ≡ ok (updated states' true))
    × (is_active states' ≡ false)
    × ((later : ℕ)
        → process_inactive true 60 later states'
          ≡ ok (if leb (30 + 60) later then deleted else kept))
process_inactive-grace_example =
    process_inactive-grace true 60 30 three_states older (omega arith) is_active_before
