-- ===== src/Snapshot/Counting.antt =====
-- How the loop of `ComplianceSnapshot._purge_old_states` (src/odg/model.py) changes how often each
-- state is in the list.
use odg_core.Prelude.{
  ℕ, ◌+◌, ◌-◌, ◌≡◌, refl, sym, ap, subst, ◌∙◌, Bool, true, false, not, Option, none, some, List, [],
  ◌∷◌, arith, select, if◌then◌else◌, Bool-cases, ◌⊎◌, inl, inr,
}
use odg_core.Prelude.Sort.{insert_sorted, sorted}
use odg_core.Prelude.Text.{Text, opt_eq_refl, opt_eq→path, eq→path, eq_refl}
use odg_core.Snapshot.Defs.{
  Status, active, inactive, words, count, status_eq, SnapshotState, state_eq, newest, has_service,
  first_of, remove_state, purge_from,
}

status_eq→path : (a b : Option Status) → status_eq a b ≡ true → a ≡ b
unfolding status_eq
status_eq→path none none h = refl
status_eq→path (some active) (some active) h = refl
status_eq→path (some inactive) (some inactive) h = refl
status_eq→path (some (words s)) (some (words t)) h = ap (λ u. some (words u)) (eq→path s t h)
status_eq→path (some (count m)) (some (count n)) h = ground arith
status_eq→path _ _ h = absurd (ground arith)

pub status_eq_refl : (a : Option Status) → status_eq a a ≡ true
unfolding status_eq
status_eq_refl none = refl
status_eq_refl (some active) = refl
status_eq_refl (some inactive) = refl
status_eq_refl (some (words s)) = eq_refl s
status_eq_refl (some (count m)) = ground arith

pub state_eq→path : (a b : SnapshotState) → state_eq a b ≡ true → a ≡ b
unfolding state_eq
state_eq→path a b h =
    ground (arith, status_eq→path a.status b.status, opt_eq→path a.service b.service)

-- Removing a state of a service leaves the states of the others alone.
select-remove_state :
    (p : SnapshotState → Bool) (s : SnapshotState) (states : List SnapshotState)
    → p s ≡ false
    → select p (remove_state s states) ≡ select p states
unfolding select remove_state
select-remove_state p s [] h = refl
select-remove_state p s (t ∷ states) h = elim (Bool-cases (state_eq t s)) [
  | inl e ↦
      let gone : p t ≡ false = subst (λ u. p u ≡ false) (sym (state_eq→path t s e)) h in
      rw (remove_state, e, select, gone) refl
  | inr e ↦ elim (Bool-cases (p t)) [
    | inl q ↦ rw (remove_state, e, select, q) (ap (λ us. t ∷ us) (select-remove_state p s states h))
    | inr q ↦ rw (remove_state, e, select, q) (select-remove_state p s states h)
  ]
]

pub select-purge_from :
    (service : Option Text) (found : Bool) (rest states : List SnapshotState)
    → select (λ t. not (has_service service t)) (purge_from service found rest states)
      ≡ select (λ t. not (has_service service t)) states
unfolding purge_from
select-purge_from service false [] states = refl
select-purge_from service true [] states = refl
select-purge_from service false (s ∷ rest) states = elim (Bool-cases (has_service service s)) [
  | inr e ↦ rw (purge_from, e) (select-purge_from service false rest states)
  | inl e ↦ rw (purge_from, e) (select-purge_from service true rest states)
]
select-purge_from service true (s ∷ rest) states = elim (Bool-cases (has_service service s)) [
  | inr e ↦ rw (purge_from, e) (select-purge_from service true rest states)
  | inl e ↦
      rw (purge_from, e)
        (select-purge_from service true rest (remove_state s states)
          ∙ select-remove_state (λ t. not (has_service service t)) s states (rw e refl))
]

-- How often the state is in the list.
abbrev pub occurrences : SnapshotState → List SnapshotState → ℕ
occurrences e [] = 0
occurrences e (t ∷ states) = (if state_eq t e then 1 else 0) + occurrences e states

abbrev pub is_one : SnapshotState → SnapshotState → ℕ
is_one s e = if state_eq s e then 1 else 0

occurrences-insert_sorted :
    (e s : SnapshotState) (states : List SnapshotState)
    → occurrences e (insert_sorted newest s states) ≡ is_one s e + occurrences e states
unfolding insert_sorted
occurrences-insert_sorted e s [] = refl
occurrences-insert_sorted e s (t ∷ states) = ground (arith, occurrences-insert_sorted e s states)

pub occurrences-sorted :
    (e : SnapshotState) (states : List SnapshotState)
    → occurrences e (sorted newest states) ≡ occurrences e states
unfolding sorted
occurrences-sorted e [] = refl
occurrences-sorted e (s ∷ states) =
    let here = occurrences-insert_sorted e s (sorted newest states) in
    let ih = occurrences-sorted e states in omega arith

pub state_eq_refl : (s : SnapshotState) → state_eq s s ≡ true
unfolding state_eq status_eq
state_eq_refl s = ground (arith, status_eq_refl s.status, opt_eq_refl s.service)

-- A state equals at most one of two different states.
apart_once : (s t e : SnapshotState) → state_eq t s ≡ false → (is_one t e ≡ 0) ⊎ (is_one s e ≡ 0)
apart_once s t e k = elim (Bool-cases (state_eq t e)) [
  | inr n ↦ inl (rw n refl)
  | inl y ↦ elim (Bool-cases (state_eq s e)) [
    | inr n ↦ inr (rw n refl)
    | inl z ↦
        let same : t ≡ s = state_eq→path t e y ∙ sym (state_eq→path s e z) in
        let yes : state_eq t s ≡ true = rw same (state_eq_refl s) in cc
  ]
]

-- A state of another service does not equal one of the service.
pub is_one_other :
    (service : Option Text) (s e : SnapshotState)
    → has_service service s ≡ false
    → has_service service e ≡ true
    → is_one s e ≡ 0
is_one_other service s e k h = elim (Bool-cases (state_eq s e)) [
  | inr n ↦ rw n refl
  | inl y ↦
      let k' : has_service service e ≡ false =
        subst (λ u. has_service service u ≡ false) (state_eq→path s e y) k in
      cc
]

occurrences-remove_state :
    (e s : SnapshotState) (states : List SnapshotState)
    → occurrences e (remove_state s states) ≡ occurrences e states - is_one s e
unfolding remove_state
occurrences-remove_state e s [] = ground arith
occurrences-remove_state e s (t ∷ states) = elim (Bool-cases (state_eq t s)) [
  | inl k ↦
      let same : is_one t e ≡ is_one s e = ap (λ u. is_one u e) (state_eq→path t s k) in
      rw (remove_state, k) (omega arith)
  | inr k ↦
      let ih = occurrences-remove_state e s states in
      let apart = apart_once s t e k in rw (remove_state, k) (ground arith)
]

-- The states of the service that stand in the list after the first one are removed once each.
occurrences-purge_from-true :
    (service : Option Text) (e : SnapshotState) (rest states : List SnapshotState)
    → has_service service e ≡ true
    → occurrences e (purge_from service true rest states)
      ≡ occurrences e states - occurrences e rest
unfolding purge_from
occurrences-purge_from-true service e [] states h = omega arith
occurrences-purge_from-true service e (s ∷ rest) states h =
    elim (Bool-cases (has_service service s)) [
      | inr k ↦
          let none_here = is_one_other service s e k h in
          let ih = occurrences-purge_from-true service e rest states h in
          rw (purge_from, k) (omega arith)
      | inl k ↦
          let ih = occurrences-purge_from-true service e rest (remove_state s states) h in
          let gone = occurrences-remove_state e s states in rw (purge_from, k) (omega arith)
    ]

abbrev pub is_one? : Option SnapshotState → SnapshotState → ℕ
is_one? none e = 0
is_one? (some s) e = is_one s e

pub occurrences-purge_from-false :
    (service : Option Text) (e : SnapshotState) (rest states : List SnapshotState)
    → has_service service e ≡ true
    → occurrences e (purge_from service false rest states)
      ≡ occurrences e states - (occurrences e rest - is_one? (first_of service rest) e)
unfolding purge_from first_of
occurrences-purge_from-false service e [] states h = omega arith
occurrences-purge_from-false service e (s ∷ rest) states h =
    elim (Bool-cases (has_service service s)) [
      | inr k ↦
          let none_here = is_one_other service s e k h in
          let ih = occurrences-purge_from-false service e rest states h in
          rw (purge_from, first_of, k) (omega arith)
      | inl k ↦
          let ih = occurrences-purge_from-true service e rest states h in
          rw (purge_from, first_of, k) (omega arith)
    ]
