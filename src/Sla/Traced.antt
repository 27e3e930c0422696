-- ===== src/Sla/Traced.antt =====
-- What the trace of a violation of one finding shows
-- (src/sla_violation_profiler_extension/__main__.py).
use odg_core.Prelude.{
  ℕ, ◌*◌, ◌<◌, ◌≡◌, refl, ap, sym, ◌∙◌, ◌⊎◌, Bool, true, false, Option, none, some, List, [], ◌∷◌,
  ◌++◌, All, if◌then◌else◌, Bool-cases, inl, inr, subst, ltb→lt,
}
use odg_core.Prelude.Int.{ℤ}
use odg_core.Prelude.Result.{Result, ok, >>=-eq-ok}
use odg_core.Prelude.Text.{Text}
use odg_core.Artefact.{FindingEntry, RescoringEntry}
use odg_core.Duration.{convert_to_timedelta, days_unit}
use odg_core.Sla.Defs.{
  TraceEventType, TraceEntry, SlaViolation, day, date_of, add_time, new_deadline, is_after,
  rescoring_event, release_event, violation_of, last_severity, release_violations, scan_rescorings,
  discovered_event, iter_policy_violations,
}

-- The last item
abbrev last_of : List RescoringEntry → Option RescoringEntry
last_of [] = none
last_of (r ∷ rs) = elim (last_of rs) [ none ↦ some r | some s ↦ some s ]

-- The deadline after the given rescorings: the one that the last of them sets, or the initial one.
abbrev IsInForce : ℕ → ℕ → List RescoringEntry → Option ℕ → Type 0
IsInForce discovery initial rs deadline = elim (last_of rs) [
  | none ↦ deadline ≡ some initial
  | some r ↦ new_deadline discovery r ≡ ok deadline
]

abbrev dates : List TraceEntry → List ℕ
dates [] = []
dates (t ∷ trace) = t.date ∷ dates trace

abbrev creation_dates : List RescoringEntry → List ℕ
creation_dates [] = []
creation_dates (r ∷ rs) = r.creation_date ∷ creation_dates rs

abbrev late_event : RescoringEntry → ℕ → TraceEntry
late_event r d = record {
  event_type = TraceEventType.rescoring_after_deadline;
  date = r.creation_date;
  severity = r.severity;
  deadline = some d;
}

last_of-snoc : (rs : List RescoringEntry) (r : RescoringEntry) → last_of (rs ++ r ∷ []) ≡ some r
last_of-snoc [] r = refl
last_of-snoc (s ∷ rs) r = rw (last_of-snoc rs r) refl

dates-snoc :
    (trace : List TraceEntry) (t : TraceEntry)
    → dates (trace ++ t ∷ []) ≡ dates trace ++ t.date ∷ []
dates-snoc [] t = refl
dates-snoc (s ∷ trace) t = ap (λ ds. s.date ∷ ds) (dates-snoc trace t)

creation_dates-snoc :
    (rs : List RescoringEntry) (r : RescoringEntry)
    → creation_dates (rs ++ r ∷ []) ≡ creation_dates rs ++ r.creation_date ∷ []
creation_dates-snoc [] r = refl
creation_dates-snoc (s ∷ rs) r = ap (λ ds. s.creation_date ∷ ds) (creation_dates-snoc rs r)

snoc-append :
    (before : List RescoringEntry) (r : RescoringEntry) (rs : List RescoringEntry)
    → before ++ r ∷ rs ≡ (before ++ r ∷ []) ++ rs
snoc-append [] r rs = refl
snoc-append (s ∷ before) r rs = ap (λ ss. s ∷ ss) (snoc-append before r rs)

append-nil : (rs : List RescoringEntry) → rs ++ [] ≡ rs
append-nil [] = refl
append-nil (r ∷ rs) = ap (λ ss. r ∷ ss) (append-nil rs)

is_after-deadline :
    (t : ℕ) (deadline : Option ℕ)
    → is_after t deadline ≡ true
    → (d : ℕ) × (deadline ≡ some d) × (date_of d < date_of t)
is_after-deadline t none h = cc
is_after-deadline t (some d) h = (d, refl, ltb→lt _ _ h)

module _ (finding : FindingEntry) (discovery release : ℕ) (severity : Text) (initial : ℕ)
    (rescorings : List RescoringEntry) where
  -- A rescoring came behind the deadline that was in force before it. The trace is the discovery,
  -- an event of each rescoring before it, and the rescoring with this deadline.
  abbrev IsLateRescoring : SlaViolation → Type 0
  IsLateRescoring v =
      (before : List RescoringEntry) × (r : RescoringEntry) × (after : List RescoringEntry)
      × (middle : List TraceEntry) × (d : ℕ) × (rescorings ≡ before ++ r ∷ after)
      × IsInForce discovery initial before (some d)
      × (date_of d < date_of r.creation_date)
      × (v.severity ≡ r.severity)
      × (dates middle ≡ creation_dates before)
      × (v.trace ≡ discovered_event finding discovery initial ∷ (middle ++ late_event r d ∷ []))

  -- The release came behind the deadline that was in force after all rescorings, and the trace ends
  -- with it and this deadline.
  abbrev IsLateRelease : SlaViolation → Type 0
  IsLateRelease v =
      (middle : List TraceEntry) × (d : ℕ) × IsInForce discovery initial rescorings (some d)
      × (date_of d < date_of release)
      × (v.severity ≡ severity)
      × (dates middle ≡ creation_dates rescorings)
      × (v.trace
          ≡ discovered_event finding discovery initial
            ∷ (middle ++ release_event release severity (some d) ∷ []))

  abbrev pub IsShown : SlaViolation → Type 0
  IsShown v =
      (v.subject ≡ finding.subject)
      × (v.artefact ≡ finding.artefact)
      × (IsLateRescoring v ⊎ IsLateRelease v)

  abbrev traced : List TraceEntry → List TraceEntry
  traced middle = discovered_event finding discovery initial ∷ middle

  rescoring-IsShown :
      (before : List RescoringEntry) (r : RescoringEntry) (after : List RescoringEntry)
      (deadline new : Option ℕ) (middle : List TraceEntry)
      → rescorings ≡ before ++ r ∷ after
      → IsInForce discovery initial before deadline
      → dates middle ≡ creation_dates before
      → is_after r.creation_date deadline ≡ true
      → IsShown
          (violation_of finding r.severity (traced middle ++ rescoring_event deadline new r ∷ []))
  rescoring-IsShown before r after deadline new middle split in_force same h =
      let (d, is_d, late) = is_after-deadline r.creation_date deadline h in
      let in_force' : IsInForce discovery initial before (some d) =
        subst (IsInForce discovery initial before) is_d in_force in
      let event : rescoring_event deadline new r ≡ late_event r d = rw (h, is_d) refl in
      (
        refl,
        refl,
        inl (
          before,
          r,
          after,
          middle,
          d,
          split,
          in_force',
          late,
          refl,
          same,
          ap (λ t. discovered_event finding discovery initial ∷ (middle ++ t ∷ [])) event,
        ),
      )

  release-All :
      (deadline : Option ℕ) (middle : List TraceEntry)
      → IsInForce discovery initial rescorings deadline
      → dates middle ≡ creation_dates rescorings
      → All IsShown (release_violations finding release severity deadline (traced middle))
  unfolding release_violations
  release-All deadline middle in_force same = elim (Bool-cases (is_after release deadline)) [
    | inl h ↦
        let (d, is_d, late) = is_after-deadline release deadline h in
        let in_force' : IsInForce discovery initial rescorings (some d) =
          subst (IsInForce discovery initial rescorings) is_d in_force in
        let trace : traced middle ++ release_event release severity deadline ∷ []
            ≡ traced middle ++ release_event release severity (some d) ∷ [] =
          ap (λ o. traced middle ++ release_event release severity o ∷ []) is_d in
        rw (release_violations, h)
          ((refl, refl, inr (middle, d, in_force', late, refl, same, trace)), tt)
    | inr h ↦ rw (release_violations, h) tt
  ]

  scan_rescorings-All :
      (before rs : List RescoringEntry) (deadline : Option ℕ) (middle : List TraceEntry)
      (vs : List SlaViolation)
      → rescorings ≡ before ++ rs
      → IsInForce discovery initial before deadline
      → dates middle ≡ creation_dates before
      → scan_rescorings finding discovery release severity deadline (traced middle) rs ≡ ok vs
      → All IsShown vs
  unfolding scan_rescorings
  scan_rescorings-All before [] deadline middle vs split in_force same e =
      let done : release_violations finding release severity deadline (traced middle) ≡ vs = cc in
      let is_all : before ≡ rescorings = sym (split ∙ append-nil before) in
      subst (All IsShown) done (
        release-All deadline middle
          (subst (λ b. IsInForce discovery initial b deadline) is_all in_force)
          (same ∙ ap creation_dates is_all))
  scan_rescorings-All before (r ∷ rs) deadline middle vs split in_force same e =
      let (new, is_new, rest) = >>=-eq-ok (new_deadline discovery r) _ e in
      let event : TraceEntry = rescoring_event deadline new r in
      let middle' : List TraceEntry = middle ++ event ∷ [] in
      let (later, is_later, done) =
        >>=-eq-ok (scan_rescorings finding discovery release severity new (traced middle') rs) _
          rest in
      let in_force' : IsInForce discovery initial (before ++ r ∷ []) new =
        rw (IsInForce, last_of-snoc before r) is_new in
      let same' : dates middle' ≡ creation_dates (before ++ r ∷ []) =
        dates-snoc middle event
        ∙ ap (λ ds. ds ++ r.creation_date ∷ []) same
        ∙ sym (creation_dates-snoc before r) in
      All-if (is_after r.creation_date deadline) _ later vs
        (λ late. rescoring-IsShown before r rs deadline new middle split in_force same late)
        (scan_rescorings-All (before ++ r ∷ []) rs new middle' later
          (split ∙ snoc-append before r rs) in_force' same' is_later)
        done
    where
      All-if :
          (b : Bool) (v : SlaViolation) (later vs : List SlaViolation)
          → (b ≡ true → IsShown v)
          → All IsShown later
          → ◌≡◌ {A = Result (List SlaViolation)} (ok (if b then v ∷ later else later)) (ok vs)
          → All IsShown vs
      All-if true v later vs p h e =
          let same : v ∷ later ≡ vs = cc in subst (All IsShown) same (p refl, h)
      All-if false v later vs p h e = let same : later ≡ vs = cc in subst (All IsShown) same h

pub iter_policy_violations-All :
    (finding : FindingEntry) (discovered : ℕ) (allowed : Text) (rescorings : List RescoringEntry)
    (release : ℕ) (vs : List SlaViolation)
    → iter_policy_violations finding discovered allowed rescorings release ≡ ok vs
    → (s : ℤ) × (initial : ℕ) × (convert_to_timedelta allowed days_unit ≡ ok s)
      × (add_time (discovered * day) s ≡ ok initial)
      × All
          (IsShown finding
            (discovered * day)
            release
            (last_severity finding.severity rescorings)
            initial
            rescorings)
          vs
unfolding iter_policy_violations
iter_policy_violations-All finding discovered allowed rescorings release vs e =
    let (s, is_s, rest) = >>=-eq-ok (convert_to_timedelta allowed days_unit) _ e in
    let (initial, is_initial, found) = >>=-eq-ok (add_time (discovered * day) s) _ rest in
    (
      s,
      initial,
      is_s,
      is_initial,
      scan_rescorings-All finding (discovered * day) release
          (last_severity finding.severity rescorings) initial rescorings [] rescorings
          (some initial) [] vs refl refl refl found,
    )
