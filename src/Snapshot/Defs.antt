-- ===== src/Snapshot/Defs.antt =====
-- src/odg/model.py: `ComplianceSnapshot` with its states. A datetime is a number of seconds.
use odg_core.Prelude.{
  ℕ, Bool, true, false, not, ◌&&◌, Option, none, some, List, [], ◌∷◌, ◌++◌, leb, if◌then◌else◌,
  ◌==◌ as nat_eq,
}
use odg_core.Prelude.Sort.{sorted}
use odg_core.Prelude.Text.{Text, ◌==◌, opt_eq}

-- `ComplianceSnapshotStatuses | str | int`; the texts of the two members of the enumeration are not
-- among the `words`.
pub data Status : Type 0 where
  active inactive : Status
  words : Text → Status
  count : ℕ → Status

unfoldable pub status_eq : Option Status → Option Status → Bool
unfolding ◌==◌
status_eq none none = true
status_eq (some active) (some active) = true
status_eq (some inactive) (some inactive) = true
status_eq (some (words s)) (some (words t)) = s == t
status_eq (some (count m)) (some (count n)) = nat_eq m n
status_eq _ _ = false

-- `ComplianceSnapshotState`; a service is the text of its `StrEnum`.
pub record SnapshotState : Type 0 where
  pub timestamp : ℕ
  pub status : Option Status
  pub service : Option Text

-- `==` of the data class
unfoldable pub state_eq : SnapshotState → SnapshotState → Bool
unfolding status_eq opt_eq
state_eq a b =
    nat_eq a.timestamp b.timestamp && (status_eq a.status b.status && opt_eq a.service b.service)

-- The newest first; equal timestamps keep their order.
abbrev pub newest : SnapshotState → SnapshotState → Bool
newest a b = leb b.timestamp a.timestamp

-- `service == state.service`
unfoldable pub has_service : Option Text → SnapshotState → Bool
unfolding opt_eq
has_service service state = opt_eq service state.service

unfoldable pub first_of : Option Text → List SnapshotState → Option SnapshotState
unfolding has_service
first_of service [] = none
first_of service (s ∷ states) =
    let later = first_of service states in if has_service service s then some s else later

-- `ComplianceSnapshot.current_state`
unfoldable pub current_state : Option Text → List SnapshotState → Option SnapshotState
unfolding first_of sorted
current_state service states = first_of service (sorted newest states)

-- `list.remove`; the removed state is always in the list.
unfoldable pub remove_state : SnapshotState → List SnapshotState → List SnapshotState
unfolding state_eq
remove_state s [] = []
remove_state s (t ∷ states) =
    let rest = t ∷ remove_state s states in if state_eq t s then states else rest

-- The loop of `_purge_old_states` over the sorted states, with whether a current state was met.
unfoldable pub purge_from :
    Option Text → Bool → List SnapshotState → List SnapshotState → List SnapshotState
unfolding has_service remove_state
purge_from service found [] states = states
purge_from service found (s ∷ rest) states =
    let skipped = purge_from service found rest states in
    let kept = purge_from service true rest states in
    let removed = purge_from service found rest (remove_state s states) in
    if not (has_service service s) then skipped else if not found then kept else removed

-- `ComplianceSnapshot._purge_old_states`
unfoldable pub purge_old_states : Option Text → List SnapshotState → List SnapshotState
unfolding purge_from sorted
purge_old_states service states = purge_from service false (sorted newest states) states

-- `ComplianceSnapshot.update_state`
unfoldable pub update_state : SnapshotState → List SnapshotState → List SnapshotState
unfolding purge_old_states
update_state s states = purge_old_states s.service (states ++ s ∷ [])

abbrev is_active_status : Option Status → Bool
is_active_status (some active) = true
is_active_status _ = false

-- `ComplianceSnapshot.is_active`
unfoldable pub is_active : List SnapshotState → Bool
unfolding current_state
is_active states = elim (current_state none states) [
  | none ↦ false
  | some s ↦ is_active_status s.status
]
