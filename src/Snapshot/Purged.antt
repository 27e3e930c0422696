-- ===== src/Snapshot/Purged.antt =====
-- What `ComplianceSnapshot.update_state` (src/odg/model.py) leaves of the states.
use odg_core.Prelude.{
  ◌+◌, ◌-◌, ◌≡◌, refl, sym, ap, subst, ◌∙◌, ◌≤◌, ◌<◌, Bool, true, false, not, Option, none, some,
  List, [], ◌∷◌, ◌++◌, arith, All, All-select-true, select, Bool-cases, Option-cases, inl, inr,
}
use odg_core.Prelude.Sort.{sorted}
use odg_core.Prelude.Text.{Text, opt_eq_refl}
use odg_core.Snapshot.Defs.{
  SnapshotState, state_eq, newest, has_service, first_of, current_state, purge_old_states,
  update_state,
}
use odg_core.Snapshot.Counting.{
  state_eq_refl, state_eq→path, select-purge_from, occurrences, is_one, is_one?, is_one_other,
  occurrences-sorted, occurrences-purge_from-false,
}

first_of-le :
    (service : Option Text) (e : SnapshotState) (states : List SnapshotState)
    → is_one? (first_of service states) e ≤ occurrences e states
unfolding first_of
first_of-le service e [] = omega arith
first_of-le service e (s ∷ states) = elim (Bool-cases (has_service service s)) [
  | inl k ↦ rw (first_of, k) (omega arith)
  | inr k ↦ let ih = first_of-le service e states in rw (first_of, k) (omega arith)
]

pub first_of-none :
    (service : Option Text) (e : SnapshotState) (states : List SnapshotState)
    → has_service service e ≡ true
    → first_of service states ≡ none
    → occurrences e states ≡ 0
unfolding first_of
first_of-none service e [] h n = refl
first_of-none service e (s ∷ states) h n = elim (Bool-cases (has_service service s)) [
  | inl k ↦ let n' : some s ≡ none = rw k at n in cc
  | inr k ↦
      let ih = first_of-none service e states h (rw k at n) in
      let none_here = is_one_other service s e k h in omega arith
]

pub occurrences-select :
    (service : Option Text) (e : SnapshotState) (states : List SnapshotState)
    → has_service service e ≡ true
    → occurrences e (select (has_service service) states) ≡ occurrences e states
unfolding select
occurrences-select service e [] h = refl
occurrences-select service e (s ∷ states) h = elim (Bool-cases (has_service service s)) [
  | inl k ↦ rw (select, k) (ap (λ n. is_one s e + n) (occurrences-select service e states h))
  | inr k ↦
      let ih = occurrences-select service e states h in
      let none_here = is_one_other service s e k h in rw (select, k) (omega arith)
]

occurrences-append :
    (e : SnapshotState) (states : List SnapshotState) → 0 < occurrences e (states ++ e ∷ [])
occurrences-append e [] = rw (state_eq_refl e) (omega arith)
occurrences-append e (s ∷ states) = let ih = occurrences-append e states in omega arith

is_one→path : (s e : SnapshotState) → 0 < is_one s e → s ≡ e
is_one→path s e h = elim (Bool-cases (state_eq s e)) [
  | inl t ↦ state_eq→path s e t
  | inr f ↦ let h' : 0 < 0 = rw f at h in absurd (omega arith)
]

-- A list that holds a state once and no other state of the service.
once_only :
    (service : Option Text) (c : SnapshotState) (states : List SnapshotState)
    → has_service service c ≡ true
    → All (λ s. has_service service s ≡ true) states
    → ((e : SnapshotState) → has_service service e ≡ true → occurrences e states ≡ is_one c e)
    → states ≡ c ∷ []
once_only service c [] hc hs n =
    let one : is_one c c ≡ 1 = rw (state_eq_refl c) refl in
    let zero_is : occurrences c [] ≡ is_one c c = n c hc in absurd (omega arith)
once_only service c (x ∷ []) hc hs n =
    let here : is_one x x ≡ 1 = rw (state_eq_refl x) refl in
    let count_x : is_one x x + 0 ≡ is_one c x = n x hs.0 in
    let same : c ≡ x = is_one→path c x (omega arith) in ap (λ s. s ∷ []) (sym same)
once_only service c (x ∷ y ∷ states) hc hs n =
    let here : is_one x x ≡ 1 = rw (state_eq_refl x) refl in
    let there : is_one y y ≡ 1 = rw (state_eq_refl y) refl in
    let count_x : is_one x x + (is_one y x + occurrences x states) ≡ is_one c x = n x hs.0 in
    let count_y : is_one x y + (is_one y y + occurrences y states) ≡ is_one c y = n y hs.1.0 in
    let same_x : c ≡ x = is_one→path c x (omega arith) in
    let same_y : c ≡ y = is_one→path c y (omega arith) in
    let both : is_one y x ≡ is_one c x = ap (λ s. is_one s x) (sym same_y) in
    let one : is_one c x ≡ 1 = ap (λ s. is_one s x) same_x ∙ here in absurd (omega arith)

pub first_of-has_service :
    (service : Option Text) (states : List SnapshotState) (c : SnapshotState)
    → first_of service states ≡ some c
    → has_service service c ≡ true
unfolding first_of
first_of-has_service service [] c e = cc
first_of-has_service service (s ∷ states) c e = elim (Bool-cases (has_service service s)) [
  | inl k ↦
      let e' : some s ≡ some c = rw k at e in
      let same : s ≡ c = cc in subst (λ t. has_service service t ≡ true) same k
  | inr k ↦ first_of-has_service service states c (rw k at e)
]

select-append_one :
    (p : SnapshotState → Bool) (states : List SnapshotState) (s : SnapshotState)
    → p s ≡ false
    → select p (states ++ s ∷ []) ≡ select p states
unfolding select
select-append_one p [] s h = rw (select, h) refl
select-append_one p (t ∷ states) s h = ground (arith, select-append_one p states s h)

first_of-sorted_total :
    (s : SnapshotState) (states : List SnapshotState)
    → (c : SnapshotState) × (first_of s.service (sorted newest (states ++ s ∷ [])) ≡ some c)
unfolding has_service
first_of-sorted_total s states =
    elim (Option-cases (first_of s.service (sorted newest (states ++ s ∷ [])))) [
      | inl n ↦
          let absent =
            first_of-none s.service s (sorted newest (states ++ s ∷ [])) (opt_eq_refl s.service)
              n in
          let present = occurrences-append s states in
          let same = occurrences-sorted s (states ++ s ∷ []) in absurd (omega arith)
      | inr found ↦ found
    ]

-- Purging leaves the first of the service's states in sorted order, and no other of the service.
purge_old_states-select :
    (service : Option Text) (states : List SnapshotState) (c : SnapshotState)
    → first_of service (sorted newest states) ≡ some c
    → select (has_service service) (purge_old_states service states) ≡ c ∷ []
unfolding purge_old_states
purge_old_states-select service states c e =
    once_only service c _ (first_of-has_service service (sorted newest states) c e)
      (All-select-true (has_service service) (purge_old_states service states)) count
  where
    count :
        (f : SnapshotState)
        → has_service service f ≡ true
        → occurrences f (select (has_service service) (purge_old_states service states))
          ≡ is_one c f
    count f h =
        let kept = occurrences-select service f (purge_old_states service states) h in
        let purged = occurrences-purge_from-false service f (sorted newest states) states h in
        let same = occurrences-sorted f states in
        let bound : is_one c f ≤ occurrences f (sorted newest states) =
          rw e at (first_of-le service f (sorted newest states)) in
        let purged' : occurrences f (purge_old_states service states)
            ≡ occurrences f states - (occurrences f (sorted newest states) - is_one c f) =
          rw e at purged in
        omega arith

-- After an update exactly one state of the service of the new state is left, the current one, and
-- the states of all other services are left as they were.
pub update_state-select :
    (s : SnapshotState) (states : List SnapshotState)
    → ((c : SnapshotState) × (current_state s.service (states ++ s ∷ []) ≡ some c)
        × (select (has_service s.service) (update_state s states) ≡ c ∷ []))
      × (select (λ t. not (has_service s.service t)) (update_state s states)
          ≡ select (λ t. not (has_service s.service t)) states)
unfolding update_state purge_old_states current_state has_service
update_state-select s states =
    let (c, e) = first_of-sorted_total s states in
    (
      (c, e, purge_old_states-select s.service (states ++ s ∷ []) c e),
      select-purge_from s.service false (sorted newest (states ++ s ∷ [])) (states ++ s ∷ [])
          ∙ select-append_one (λ t. not (has_service s.service t)) states s
              (rw (opt_eq_refl s.service) refl),
    )
