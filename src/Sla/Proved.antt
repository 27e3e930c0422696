-- ===== src/Sla/Proved.antt =====
-- Which violations of a version are reported, and what their traces show
-- (src/sla_violation_profiler_extension/__main__.py).
use odg_core.Prelude.{
  ℕ, ◌≡◌, ◌*◌, refl, Bool, true, false, Option, none, some, List, [], ◌∷◌, ◌++◌, All, All-append,
  All-map_of, any, not, get_elem?, Member, if◌then◌else◌, subst, ltb, zero, suc,
}
use odg_core.Prelude.Int.{ℤ}
use odg_core.Prelude.Result.{ok, err, Raised, ◌>>=◌, >>=-eq-ok}
use odg_core.Prelude.Text.{truthy}
use odg_core.Artefact.{FindingEntry, RescoringEntry, LocalArtefactId}
use odg_core.Filter.{or_empty}
use odg_core.Duration.{convert_to_timedelta, days_unit}
use odg_core.Rescoring.{Grouped, group_rescorings}
use odg_core.Sla.Defs.{
  day, add_time, last_severity, same_finding, filter_rescorings_before_release_date, SlaViolation,
  iter_policy_violations, finding_violations, violations_from, deduplicate_from,
  deduplicate_findings, iter_version_sla_violations,
}
use odg_core.Sla.Traced.{IsShown, iter_policy_violations-All}

-- The violation is one of the finding, and it follows from the finding's date of discovery, its
-- allowed processing time, and the rescorings of it before the release.
abbrev IsOf : FindingEntry → Grouped → ℕ → SlaViolation → Type 0
IsOf finding grouped release v =
    (discovered : ℕ) × (local : LocalArtefactId) × (s : ℤ) × (initial : ℕ) × (finding.discovery_date
      ≡ some discovered)
    × (truthy finding.allowed_processing_time ≡ true)
    × (finding.artefact.artefact ≡ some local)
    × (convert_to_timedelta (or_empty finding.allowed_processing_time) days_unit ≡ ok s)
    × (add_time (discovered * day) s ≡ ok initial)
    × IsShown finding (discovered * day) release
        (last_severity finding.severity
          (filter_rescorings_before_release_date finding local grouped release))
        initial (filter_rescorings_before_release_date finding local grouped release) v

finding_violations-All :
    (finding : FindingEntry) (grouped : Grouped) (release : ℕ) (vs : List SlaViolation)
    → finding_violations finding grouped release ≡ ok vs
    → All (IsOf finding grouped release) vs
unfolding finding_violations
finding_violations-All finding grouped release vs e =
    by_case finding.discovery_date (truthy finding.allowed_processing_time)
      finding.artefact.artefact refl refl refl e
  where
    by_case :
        (discovery_date : Option ℕ) (timed : Bool) (local : Option LocalArtefactId)
        → finding.discovery_date ≡ discovery_date
        → truthy finding.allowed_processing_time ≡ timed
        → finding.artefact.artefact ≡ local
        → elim discovery_date [
          | none ↦ err Raised.value_error
          | some discovered ↦ if not timed then ok [] else elim local [
            | none ↦ err Raised.attribute_error
            | some l ↦
                iter_policy_violations finding discovered
                  (or_empty finding.allowed_processing_time)
                  (filter_rescorings_before_release_date finding l grouped release)
                  release
          ]
        ]
          ≡ ok vs
        → All (IsOf finding grouped release) vs
    by_case none timed local p q r e = cc
    by_case (some discovered) false local p q r e =
        let same : [] ≡ vs = cc in subst (All (IsOf finding grouped release)) same tt
    by_case (some discovered) true none p q r e = cc
    by_case (some discovered) true (some l) p q r e =
        let (s, initial, is_s, is_initial, shown) =
          iter_policy_violations-All finding discovered (or_empty finding.allowed_processing_time)
            (filter_rescorings_before_release_date finding l grouped release) release vs e in
        All-map_of _ _
          (λ v is_shown. (discovered, l, s, initial, p, q, r, is_s, is_initial, is_shown)) vs shown

-- Every violation is one of a given finding that was created by the release.
abbrev pub IsGrounded : List FindingEntry → Grouped → ℕ → SlaViolation → Type 0
IsGrounded findings grouped release v =
    (f : FindingEntry) × Member f findings
    × (ltb release f.creation_date ≡ false)
    × IsOf f grouped release v

violations_from-All :
    (findings : List FindingEntry) (grouped : Grouped) (release : ℕ) (vs : List SlaViolation)
    → violations_from findings grouped release ≡ ok vs
    → All (IsGrounded findings grouped release) vs
unfolding violations_from
violations_from-All [] grouped release vs e =
    let same : [] ≡ vs = cc in subst (All (IsGrounded [] grouped release)) same tt
violations_from-All (f ∷ fs) grouped release vs e =
    by_creation (ltb release f.creation_date) refl e (violations_from-All fs grouped release)
  where
    further :
        (v : SlaViolation) → IsGrounded fs grouped release v → IsGrounded (f ∷ fs) grouped release v
    further v (g, (i, at), created, is_of) = (g, (suc i, at), created, is_of)

    by_creation :
        (b : Bool)
        → ltb release f.creation_date ≡ b
        → (if b
            then violations_from fs grouped release
            else (finding_violations f grouped release >>= λ here.
                violations_from fs grouped release >>= λ later. ok (here ++ later)))
          ≡ ok vs
        → ((ws : List SlaViolation)
            → violations_from fs grouped release ≡ ok ws
            → All (IsGrounded fs grouped release) ws)
        → All (IsGrounded (f ∷ fs) grouped release) vs
    by_creation true is_b e ih = All-map_of _ _ further vs (ih vs e)
    by_creation false is_b e ih =
        let (here, is_here, rest) = >>=-eq-ok (finding_violations f grouped release) _ e in
        let (later, is_later, done) = >>=-eq-ok (violations_from fs grouped release) _ rest in
        let same : here ++ later ≡ vs = cc in
        let of_f : All (IsOf f grouped release) here =
          finding_violations-All f grouped release here is_here in
        let h : All (IsGrounded (f ∷ fs) grouped release) here =
          All-map_of (IsOf f grouped release) _ (λ v is_of. (f, (zero, refl), is_b, is_of)) here
            of_f in
        subst (All (IsGrounded (f ∷ fs) grouped release)) same
          (All-append _ here later h (All-map_of _ _ further later (ih later is_later)))

deduplicate_from-Member :
    (seen fs : List FindingEntry) (g : FindingEntry)
    → Member g (deduplicate_from seen fs)
    → Member g fs
unfolding deduplicate_from
deduplicate_from-Member seen [] g m = m
deduplicate_from-Member seen (f ∷ fs) g (i, at) =
    by_seen (any (same_finding f) seen) i at (deduplicate_from-Member seen fs g)
      (deduplicate_from-Member (f ∷ seen) fs g)
  where
    by_seen :
        (b : Bool) (i : ℕ)
        → get_elem? (if b then deduplicate_from seen fs else f ∷ deduplicate_from (f ∷ seen) fs) i
          ≡ some g
        → (Member g (deduplicate_from seen fs) → Member g fs)
        → (Member g (deduplicate_from (f ∷ seen) fs) → Member g fs)
        → Member g (f ∷ fs)
    by_seen true i at known fresh = let (j, at') = known (i, at) in (suc j, at')
    by_seen false zero at known fresh = (zero, at)
    by_seen false (suc i) at known fresh = let (j, at') = fresh (i, at) in (suc j, at')

-- Every violation that is reported for a release is one of a given finding, which was created by
-- the release, and is either a rescoring of it before the release or the release itself, whose date
-- lies behind the deadline that was in force: the one that the last rescoring before it sets, or,
-- without such a rescoring, the date of discovery and the allowed processing time. The trace is the
-- discovery with the initial deadline, an event at the date of each of the earlier rescorings, and
-- the late event with its date, its severity and the deadline in force; the violation has the
-- severity of the late rescoring, or, for a release, of the last rescoring if there is one.
pub iter_version_sla_violations-IsGrounded :
    (findings : List FindingEntry) (rescorings : List RescoringEntry) (release : ℕ)
    (vs : List SlaViolation)
    → iter_version_sla_violations findings rescorings release ≡ ok vs
    → All (IsGrounded findings (group_rescorings rescorings) release) vs
unfolding iter_version_sla_violations deduplicate_findings
iter_version_sla_violations-IsGrounded findings rescorings release vs e =
    All-map_of _ _
      (λ v (f, m, created, is_of). (f, deduplicate_from-Member [] findings f m, created, is_of)) vs
      (violations_from-All (deduplicate_findings findings) (group_rescorings rescorings) release vs
        e)
