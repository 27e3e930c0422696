-- ===== src/Sla/Violated.antt =====
-- When `iter_policy_violations` (src/sla_violation_profiler_extension/__main__.py) finds nothing.
use odg_core.Prelude.{
  ℕ, ◌*◌, ◌≡◌, refl, ◌↔◌, Bool, true, false, Option, some, List, [], ◌∷◌, ◌++◌, arith,
  if◌then◌else◌,
}
use odg_core.Prelude.Int.{ℤ}
use odg_core.Prelude.Result.{Result, ok, >>=-eq-ok}
use odg_core.Prelude.Text.{Text}
use odg_core.Artefact.{FindingEntry, RescoringEntry}
use odg_core.Duration.{convert_to_timedelta, days_unit}
use odg_core.Sla.Defs.{
  TraceEntry, SlaViolation, day, add_time, new_deadline, is_after, rescoring_event,
  release_violations, scan_rescorings, iter_policy_violations,
}

-- Every rescoring was made by the date of the deadline in force, and the release took place by the
-- date of the last one. Each rescoring sets the deadline that is in force from then on, or waives it.
abbrev pub Kept : ℕ → ℕ → Option ℕ → List RescoringEntry → Type 0
Kept discovery release deadline [] = is_after release deadline ≡ false
Kept discovery release deadline (r ∷ rs) =
    (is_after r.creation_date deadline ≡ false)
    × ((new : Option ℕ) × (new_deadline discovery r ≡ ok new) × Kept discovery release new rs)

module _ (finding : FindingEntry) (discovery release : ℕ) (severity : Text) where
  scan_rescorings-Kept :
      (deadline : Option ℕ) (trace : List TraceEntry) (rs : List RescoringEntry)
      → scan_rescorings finding discovery release severity deadline trace rs ≡ ok []
      → Kept discovery release deadline rs
  unfolding scan_rescorings release_violations
  scan_rescorings-Kept deadline trace [] e = ground arith
  scan_rescorings-Kept deadline trace (r ∷ rs) e =
      let (new, is_new, rest) = >>=-eq-ok (new_deadline discovery r) _ e in
      let trace' : List TraceEntry = trace ++ rescoring_event deadline new r ∷ [] in
      let (later, is_later, done) =
        >>=-eq-ok (scan_rescorings finding discovery release severity new trace' rs) _ rest in
      let (kept, none_later) = no_violation (is_after r.creation_date deadline) _ later done in
      (kept, (new, is_new, scan_rescorings-Kept new trace' rs (rw none_later at is_later)))
    where
      no_violation :
          (b : Bool) (v : SlaViolation) (later : List SlaViolation)
          → ◌≡◌ {A = Result (List SlaViolation)} (ok (if b then v ∷ later else later)) (ok [])
          → (b ≡ false) × (later ≡ [])
      no_violation true v later e = cc
      no_violation false v later e = (refl, cc)

  Kept-scan_rescorings :
      (deadline : Option ℕ) (trace : List TraceEntry) (rs : List RescoringEntry)
      → Kept discovery release deadline rs
      → scan_rescorings finding discovery release severity deadline trace rs ≡ ok []
  unfolding scan_rescorings release_violations
  Kept-scan_rescorings deadline trace [] h = rw h refl
  Kept-scan_rescorings deadline trace (r ∷ rs) (kept, (new, is_new, rest)) =
      rw
        (
          scan_rescorings,
          is_new,
          Kept-scan_rescorings new (trace ++ rescoring_event deadline new r ∷ []) rs rest,
          kept,
        )
        refl

-- No violation is found exactly if every deadline was kept, where the first one is the date of
-- discovery with the allowed processing time.
pub iter_policy_violations-Kept_iff :
    (finding : FindingEntry) (discovered : ℕ) (allowed : Text) (rescorings : List RescoringEntry)
    (release : ℕ) (s : ℤ) (deadline : ℕ)
    → convert_to_timedelta allowed days_unit ≡ ok s
    → add_time (discovered * day) s ≡ ok deadline
    → (iter_policy_violations finding discovered allowed rescorings release ≡ ok [])
      ↔ Kept (discovered * day) release (some deadline) rescorings
unfolding iter_policy_violations
iter_policy_violations-Kept_iff finding discovered allowed rescorings release s deadline is_s
      is_deadline =
    rw (is_s, is_deadline)
      (
        scan_rescorings-Kept finding (discovered * day) release _ (some deadline) _ rescorings,
        Kept-scan_rescorings finding (discovered * day) release _ (some deadline) _ rescorings,
      )
