-- ===== src/Sla/Selected.antt =====
-- `_deduplicate_findings` (src/sla_violation_profiler_extension/__main__.py).
use odg_core.Prelude.{
  ◌≡◌, refl, sym, subst, true, false, ◌||◌, List, [], ◌∷◌, arith, All, All-map_of, any, Bool-cases,
  inl, inr,
}
use odg_core.Prelude.Text.{eq_refl}
use odg_core.Artefact.{component_artefact_key, FindingEntry}
use odg_core.Rescoring.{group_key}
use odg_core.Rescoring.Ordering.{group_key_eq_refl}
use odg_core.Sla.Defs.{same_finding, deduplicate_from, deduplicate_findings}

same_finding_refl : (f : FindingEntry) → same_finding f f ≡ true
unfolding same_finding
same_finding_refl f =
    rw (eq_refl (component_artefact_key f.artefact)) (group_key_eq_refl (group_key f.subject))

-- No two findings of the list are the same.
abbrev pub IsDistinct : List FindingEntry → Type 0
IsDistinct [] = Unit
IsDistinct (f ∷ fs) = All (λ g. same_finding g f ≡ false) fs × IsDistinct fs

abbrev IsFresh : List FindingEntry → FindingEntry → Type 0
IsFresh seen g = any (same_finding g) seen ≡ false

any-false :
    (g f : FindingEntry) (seen : List FindingEntry)
    → IsFresh (f ∷ seen) g
    → (same_finding g f ≡ false) × IsFresh seen g
unfolding any
any-false g f seen h = ground arith

deduplicate_from-All : (seen fs : List FindingEntry) → All (IsFresh seen) (deduplicate_from seen fs)
unfolding deduplicate_from
deduplicate_from-All seen [] = tt
deduplicate_from-All seen (f ∷ fs) = elim (Bool-cases (any (same_finding f) seen)) [
  | inl known ↦ rw (deduplicate_from, known) (deduplicate_from-All seen fs)
  | inr fresh ↦
      rw (deduplicate_from, fresh)
        (
          fresh,
          All-map_of (IsFresh (f ∷ seen)) (IsFresh seen) (λ g h. (any-false g f seen h).1) _
              (deduplicate_from-All (f ∷ seen) fs),
        )
]

deduplicate_from-IsDistinct : (seen fs : List FindingEntry) → IsDistinct (deduplicate_from seen fs)
unfolding deduplicate_from
deduplicate_from-IsDistinct seen [] = tt
deduplicate_from-IsDistinct seen (f ∷ fs) = elim (Bool-cases (any (same_finding f) seen)) [
  | inl known ↦ rw (deduplicate_from, known) (deduplicate_from-IsDistinct seen fs)
  | inr fresh ↦
      rw (deduplicate_from, fresh)
        (
          All-map_of (IsFresh (f ∷ seen)) _ (λ g h. (any-false g f seen h).0) _
              (deduplicate_from-All (f ∷ seen) fs),
          deduplicate_from-IsDistinct (f ∷ seen) fs,
        )
]

-- The finding was seen, or the same one is kept.
abbrev IsCovered : List FindingEntry → List FindingEntry → FindingEntry → Type 0
IsCovered seen kept g = (any (same_finding g) seen || any (same_finding g) kept) ≡ true

IsCovered-seen :
    (seen kept : List FindingEntry) (f g : FindingEntry)
    → IsCovered (f ∷ seen) kept g
    → IsCovered seen (f ∷ kept) g
unfolding any
IsCovered-seen seen kept f g h = ground arith

IsCovered-kept : (seen kept : List FindingEntry) (f : FindingEntry) → IsCovered seen (f ∷ kept) f
unfolding any
IsCovered-kept seen kept f = ground (arith, same_finding_refl f)

deduplicate_from-IsCovered :
    (seen fs : List FindingEntry) → All (IsCovered seen (deduplicate_from seen fs)) fs
unfolding deduplicate_from
deduplicate_from-IsCovered seen [] = tt
deduplicate_from-IsCovered seen (f ∷ fs) = elim (Bool-cases (any (same_finding f) seen)) [
  | inl known ↦
      let same : deduplicate_from seen (f ∷ fs) ≡ deduplicate_from seen fs =
        rw (deduplicate_from, known) refl in
      subst (λ kept. All (IsCovered seen kept) (f ∷ fs)) (sym same)
        (rw known refl, deduplicate_from-IsCovered seen fs)
  | inr fresh ↦
      let same : deduplicate_from seen (f ∷ fs) ≡ f ∷ deduplicate_from (f ∷ seen) fs =
        rw (deduplicate_from, fresh) refl in
      subst (λ kept. All (IsCovered seen kept) (f ∷ fs)) (sym same)
        (
          IsCovered-kept seen (deduplicate_from (f ∷ seen) fs) f,
          All-map_of _ _ (IsCovered-seen seen (deduplicate_from (f ∷ seen) fs) f) fs
              (deduplicate_from-IsCovered (f ∷ seen) fs),
        )
]

-- Of findings for the same artefact, package and CVE exactly one is kept: no two that are kept are
-- the same, and for every given one the same is kept.
pub deduplicate_findings-IsDistinct :
    (findings : List FindingEntry)
    → IsDistinct (deduplicate_findings findings)
      × All (λ f. any (same_finding f) (deduplicate_findings findings) ≡ true) findings
unfolding deduplicate_findings any
deduplicate_findings-IsDistinct findings =
    (deduplicate_from-IsDistinct [] findings, deduplicate_from-IsCovered [] findings)
