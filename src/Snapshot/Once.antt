-- ===== src/Snapshot/Once.antt =====
-- How src/artefact_enumerator.py goes on after it updated a snapshot: no second backlog item within
-- the interval of a service, and no deletion within the grace period.
use odg_core.Prelude.{
  ℕ, ◌+◌, ◌≡◌, refl, ap, subst, ◌∙◌, ◌≤◌, ◌<◌, ◌⊎◌, inl, inr, Bool, true, false, Option, none, some,
  List, [], ◌∷◌, ◌++◌, arith, All, All-append, All-map_of, select, if◌then◌else◌, Bool-cases,
  Option-cases, leb, leb→le,
}
use odg_core.Prelude.Result.{ok}
use odg_core.Prelude.Sort.{sorted, IsSorted, sorted-IsSorted, All-sorted, All-of_sorted}
use odg_core.Prelude.Text.{Text, opt_eq_refl}
use odg_core.Artefact.{ComponentArtefactId}
use odg_core.Snapshot.Defs.{
  Status, inactive, SnapshotState, newest, has_service, first_of, current_state, update_state,
  is_active,
}
use odg_core.Snapshot.Enumerating.{
  BacklogPriorities, UncommittedBacklogItem, state_at, has_changed, calculate_backlog_item_priority,
  create_backlog_item, item_of, kept, deleted, updated, process_inactive,
}
use odg_core.Snapshot.Counting.{status_eq_refl, state_eq_refl, occurrences, occurrences-sorted}
use odg_core.Snapshot.Purged.{
  first_of-none, first_of-has_service, occurrences-select, update_state-select,
}

first_of-All {κ} :
    (P : SnapshotState → Type κ) (service : Option Text) (states : List SnapshotState)
    (c : SnapshotState)
    → All P states
    → first_of service states ≡ some c
    → P c
unfolding first_of
first_of-All P service [] c h e = cc
first_of-All P service (s ∷ states) c h e = elim (Bool-cases (has_service service s)) [
  | inl k ↦ let e' : some s ≡ some c = rw k at e in let same : s ≡ c = cc in subst P same h.0
  | inr k ↦ first_of-All P service states c h.1 (rw k at e)
]

-- In sorted order the first state of a service is the newest one.
first_of-newest :
    (service : Option Text) (states : List SnapshotState) (c : SnapshotState)
    → IsSorted newest states
    → first_of service states ≡ some c
    → All (λ t. has_service service t ≡ true → t.timestamp ≤ c.timestamp) states
unfolding first_of
first_of-newest service [] c h e = tt
first_of-newest service (s ∷ states) c h e = elim (Bool-cases (has_service service s)) [
  | inl k ↦
      let e' : some s ≡ some c = rw k at e in
      let same : s ≡ c = cc in
      subst (λ d. All (λ t. has_service service t ≡ true → t.timestamp ≤ d.timestamp) (s ∷ states))
        same ((λ _. omega arith), All-map_of _ _ (λ t le _. leb→le _ _ le) states h.0)
  | inr k ↦ (
    (λ t. let no : false ≡ true = rw k at t in absurd (ground arith)),
    first_of-newest service states c h.1 (rw k at e),
  )
]

All-last {κ} :
    (P : SnapshotState → Type κ) (states : List SnapshotState) (s : SnapshotState)
    → All P (states ++ s ∷ [])
    → P s
All-last P [] s h = h.0
All-last P (t ∷ states) s h = All-last P states s h.1

-- A state of the service is older than the given time.
abbrev pub IsOlder : Option Text → ℕ → SnapshotState → Type 0
IsOlder service now t = has_service service t ≡ true → t.timestamp < now

-- A state that is newer than the others of its service is the current one of it.
current_state-newest :
    (s : SnapshotState) (states : List SnapshotState) (c : SnapshotState)
    → All (IsOlder s.service s.timestamp) states
    → current_state s.service (states ++ s ∷ []) ≡ some c
    → c ≡ s
unfolding current_state has_service
current_state-newest s states c older e =
    let L : List SnapshotState = sorted newest (states ++ s ∷ []) in
    let sorted_L =
      sorted-IsSorted newest (λ a b h. ground arith) (λ a b d h k. ground arith)
        (states ++ s ∷ []) in
    let le = All-of_sorted newest _ (states ++ s ∷ []) (first_of-newest s.service L c sorted_L e) in
    let bound : s.timestamp ≤ c.timestamp = All-last _ states s le (opt_eq_refl s.service) in
    let each : All (λ t. (t ≡ s) ⊎ IsOlder s.service s.timestamp t) (states ++ s ∷ []) =
      All-append _ states (s ∷ []) (All-map_of _ _ (λ t h. inr h) states older) (inl refl, tt) in
    elim (first_of-All _ s.service L c (All-sorted newest _ (states ++ s ∷ []) each) e) [
      | inl same ↦ same
      | inr less ↦ let less' = less (first_of-has_service s.service L c e) in absurd (omega arith)
    ]

select-nil :
    (p : SnapshotState → Bool) (states : List SnapshotState)
    → select p states ≡ []
    → All (λ t. p t ≡ false) states
unfolding select
select-nil p [] e = tt
select-nil p (t ∷ states) e = elim (Bool-cases (p t)) [
  | inl k ↦ let e' : t ∷ select p states ≡ [] = rw (select, k) at e in cc
  | inr k ↦ (k, select-nil p states (rw (select, k) at e))
]

select-only :
    (p : SnapshotState → Bool) (states : List SnapshotState) (s : SnapshotState)
    → select p states ≡ s ∷ []
    → All (λ t. p t ≡ true → t ≡ s) states
unfolding select
select-only p [] s e = tt
select-only p (t ∷ states) s e = elim (Bool-cases (p t)) [
  | inl k ↦
      let e' : t ∷ select p states ≡ s ∷ [] = rw (select, k) at e in
      let none_later : select p states ≡ [] = cc in
      (
        (λ _. cc),
        All-map_of _ _ (λ u n y. let no : false ≡ true = rw n at y in cc) states
            (select-nil p states none_later),
      )
  | inr k ↦
      ((λ y. let no : false ≡ true = rw k at y in cc), select-only p states s (rw (select, k) at e))
]

-- The state that an update adds is the current one afterwards, if it is newer than the others of
-- its service.
pub update_state-current :
    (s : SnapshotState) (states : List SnapshotState)
    → All (IsOlder s.service s.timestamp) states
    → current_state s.service (update_state s states) ≡ some s
unfolding current_state
update_state-current s states older =
    let ((c, e, alone), _) = update_state-select s states in
    let same : c ≡ s = current_state-newest s states c older e in
    let alone' : select (has_service s.service) (update_state s states) ≡ s ∷ [] =
      subst (λ d. select (has_service s.service) (update_state s states) ≡ d ∷ []) same alone in
    only_one (update_state s states) alone'
  where
    only_one :
        (left : List SnapshotState)
        → select (has_service s.service) left ≡ s ∷ []
        → first_of s.service (sorted newest left) ≡ some s
    only_one left alone = elim (Option-cases (first_of s.service (sorted newest left))) [
      | inl n ↦
          let here = opt_eq_refl s.service in
          let absent = first_of-none s.service s (sorted newest left) here n in
          let same = occurrences-sorted s left in
          let kept_once = occurrences-select s.service s left here in
          let one : occurrences s (select (has_service s.service) left) ≡ 1 =
            rw (alone, state_eq_refl s) refl in
          absurd (omega arith)
      | inr (d, e) ↦
          let only = select-only (has_service s.service) left s alone in
          let is_s =
            first_of-All _ s.service (sorted newest left) d (All-sorted newest _ left only) e in
          e ∙ ap some (is_s (first_of-has_service s.service (sorted newest left) d e))
    ]

changed_not : (status : Option Status) → has_changed status status ≡ false
changed_not none = refl
changed_not (some a) = rw (status_eq_refl (some a)) refl

unneeded_within :
    (artefact : ComponentArtefactId) (states : List SnapshotState) (service : Text)
    (interval now later : ℕ) (status : Option Status)
    → current_state (some service) states ≡ some (state_at now status (some service))
    → later < now + interval
    → create_backlog_item artefact states service interval later status ≡ (states, none)
unfolding create_backlog_item calculate_backlog_item_priority
unneeded_within artefact states service interval now later status current soon =
    let early : leb (now + interval) later ≡ false = ground arith in
    rw (create_backlog_item, calculate_backlog_item_priority, current, changed_not status, early)
      refl

-- After a backlog item was created for a service, all of whose earlier states are older than this
-- run, none is created again for it before its interval has passed, as long as the status stays the
-- same. States of other services, and of the snapshot itself, may be of any time.
pub create_backlog_item-once :
    (artefact : ComponentArtefactId) (states states' : List SnapshotState) (service : Text)
    (interval now later : ℕ) (status : Option Status) (item : UncommittedBacklogItem)
    → All (IsOlder (some service) now) states
    → create_backlog_item artefact states service interval now status ≡ (states', some item)
    → later < now + interval
    → create_backlog_item artefact states' service interval later status ≡ (states', none)
unfolding create_backlog_item
create_backlog_item-once artefact states states' service interval now later status item older e
      soon =
    by_priority (calculate_backlog_item_priority service states interval now status) e
  where
    by_priority :
        (p : BacklogPriorities)
        → ◌≡◌ {A = List SnapshotState × Option UncommittedBacklogItem}
            (elim p [
              | BacklogPriorities.unneeded ↦ (states, none)
              | BacklogPriorities.low ↦ (
                update_state (state_at now status (some service)) states,
                some (item_of artefact BacklogPriorities.low service),
              )
              | BacklogPriorities.high ↦ (
                update_state (state_at now status (some service)) states,
                some (item_of artefact BacklogPriorities.high service),
              )
            ])
            (states', some item)
        → create_backlog_item artefact states' service interval later status ≡ (states', none)
    by_priority BacklogPriorities.unneeded e = absurd (cc)
    by_priority BacklogPriorities.low e =
        subst (λ st. create_backlog_item artefact st service interval later status ≡ (st, none))
          (ap (λ p. p.0) e)
          (unneeded_within artefact _ service interval now later status
            (update_state-current (state_at now status (some service)) states older) soon)
    by_priority BacklogPriorities.high e =
        subst (λ st. create_backlog_item artefact st service interval later status ≡ (st, none))
          (ap (λ p. p.0) e)
          (unneeded_within artefact _ service interval now later status
            (update_state-current (state_at now status (some service)) states older) soon)

-- An active snapshot whose artefact is not referenced any more, and whose own states (those without
-- a service) are all older than the run that finds this, is updated by this run, kept for the grace
-- period from then on, which is positive, and deleted by the first run behind it.
pub process_inactive-grace :
    (replicate : Bool) (grace_period now : ℕ) (states : List SnapshotState)
    → All (IsOlder none now) states
    → 0 < grace_period
    → is_active states ≡ true
    → (states' : List SnapshotState) × (process_inactive replicate grace_period now states
        ≡ ok (updated states' replicate))
      × (is_active states' ≡ false)
      × ((later : ℕ)
          → process_inactive replicate grace_period later states'
            ≡ ok (if leb (now + grace_period) later then deleted else kept))
unfolding process_inactive is_active
process_inactive-grace replicate grace_period now states older grace is_on =
    let states' = update_state (state_at now (some inactive) none) states in
    let current : current_state none states' ≡ some (state_at now (some inactive) none) =
      update_state-current (state_at now (some inactive) none) states older in
    let early : leb (now + grace_period) now ≡ false = ground arith in
    (
      states',
      rw (is_on, current, early) refl,
      rw (is_active, current) refl,
      λ later. rw (process_inactive, is_active, current) refl,
    )
