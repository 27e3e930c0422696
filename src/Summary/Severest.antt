-- ===== src/Summary/Severest.antt =====
-- The entry of an artefact (src/compliance_summary.py) and its most severe finding.
use odg_core.Prelude.{
  ◌≡◌, refl, true, Option, none, some, List, [], ◌∷◌, arith, All, Member, ◌⊎◌, inl, inr, Bool-cases,
  zero, suc,
}
use odg_core.Prelude.Int.{◌≤ℤ◌, ltb_ℤ}
use odg_core.Prelude.Result.{ok, >>=-eq-ok}
use odg_core.Artefact.{Datasource, FindingEntry, RescoringEntry}
use odg_core.Finding.{FindingCategorisation, Finding}
use odg_core.Rescoring.{Grouped, group_rescorings}
use odg_core.Summary.Defs.{
  ComplianceSummaryEntry, categorisation_to_summary_categorisation, more_severe, categorised,
  most_severe, last_source, entry_of, calculate_summary_entry, compliance_summary_entry,
}

module _ (cfg : Finding) (grouped : Grouped) where
  -- The finding has a categorisation, at most as severe as the given one.
  abbrev pub IsAtMost : FindingCategorisation → FindingEntry → Type 0
  IsAtMost most finding =
      (c : FindingCategorisation) × (categorised cfg grouped finding ≡ ok c)
      × (c.value ≤ℤ most.value)

  more_severe-ge : (m c : FindingCategorisation) → m.value ≤ℤ (more_severe (some m) c).value
  more_severe-ge m c = ground arith

  more_severe-ge_new :
      (most : Option FindingCategorisation) (c : FindingCategorisation)
      → c.value ≤ℤ (more_severe most c).value
  more_severe-ge_new most c = ground arith

  most_severe-ge :
      (m r : FindingCategorisation) (findings : List FindingEntry)
      → most_severe cfg grouped (some m) findings ≡ ok (some r)
      → m.value ≤ℤ r.value
  unfolding most_severe
  most_severe-ge m r [] e = let same : m ≡ r = cc in rw same (omega arith)
  most_severe-ge m r (f ∷ fs) e =
      let (c, is_c, rest) = >>=-eq-ok (categorised cfg grouped f) _ e in
      let le = most_severe-ge (more_severe (some m) c) r fs rest in
      let step = more_severe-ge m c in omega arith

  most_severe-All :
      (most : Option FindingCategorisation) (r : FindingCategorisation)
      (findings : List FindingEntry)
      → most_severe cfg grouped most findings ≡ ok (some r)
      → All (IsAtMost r) findings
  unfolding most_severe
  most_severe-All most r [] e = tt
  most_severe-All most r (f ∷ fs) e =
      let (c, is_c, rest) = >>=-eq-ok (categorised cfg grouped f) _ e in
      let le = most_severe-ge (more_severe most c) r fs rest in
      let step = more_severe-ge_new most c in
      ((c, is_c, omega arith), most_severe-All (some (more_severe most c)) r fs rest)

  more_severe-cases :
      (most : Option FindingCategorisation) (c r : FindingCategorisation)
      → more_severe most c ≡ r
      → (most ≡ some r) ⊎ (c ≡ r)
  more_severe-cases none c r e = inr e
  more_severe-cases (some m) c r e = elim (Bool-cases (ltb_ℤ m.value c.value)) [
    | inl t ↦ inr (rw t at e)
    | inr f ↦ let e' : m ≡ r = rw f at e in inl (rw e' refl)
  ]

  most_severe-Member :
      (most : Option FindingCategorisation) (r : FindingCategorisation)
      (findings : List FindingEntry)
      → most_severe cfg grouped most findings ≡ ok (some r)
      → (most ≡ some r)
        ⊎ ((f : FindingEntry) × Member f findings × (categorised cfg grouped f ≡ ok r))
  unfolding most_severe
  most_severe-Member most r [] e = inl (cc)
  most_severe-Member most r (f ∷ fs) e =
      let (c, is_c, rest) = >>=-eq-ok (categorised cfg grouped f) _ e in
      elim (most_severe-Member (some (more_severe most c)) r fs rest) [
        | inl kept ↦
            let kept' : more_severe most c ≡ r = cc in
            elim (more_severe-cases most c r kept') [
              | inl before ↦ inl before
              | inr now ↦ inr (f, (zero, refl), rw now at is_c)
            ]
        | inr (g, (i, at), is_r) ↦ inr (g, (suc i, at), is_r)
      ]

entry_of-inv :
    (cfg : Finding) (source : Option Datasource) (most : Option FindingCategorisation)
    (entry : ComplianceSummaryEntry)
    → entry_of cfg source most ≡ ok entry
    → (c : FindingCategorisation) × (most ≡ some c)
      × (entry.value ≡ c.value)
      × (entry.categorisation ≡ categorisation_to_summary_categorisation c)
entry_of-inv cfg none most entry e = cc
entry_of-inv cfg (some source) none entry e = cc
entry_of-inv cfg (some source) (some c) entry e = (c, refl, cc, cc)

-- The entry of a scanned artefact with findings is the categorisation of one of its findings, with
-- its rescorings taken into account, and no finding is categorised as more severe.
pub compliance_summary_entry-IsMost :
    (cfg : Finding) (source : Datasource) (f : FindingEntry) (fs : List FindingEntry)
    (rescorings : List RescoringEntry) (entry : ComplianceSummaryEntry)
    → compliance_summary_entry cfg source true (f ∷ fs) rescorings ≡ ok entry
    → (c : FindingCategorisation) × (entry.value ≡ c.value)
      × (entry.categorisation ≡ categorisation_to_summary_categorisation c)
      × ((g : FindingEntry) × Member g (f ∷ fs)
          × (categorised cfg (group_rescorings rescorings) g ≡ ok c))
      × All (IsAtMost cfg (group_rescorings rescorings) c) (f ∷ fs)
unfolding compliance_summary_entry calculate_summary_entry
compliance_summary_entry-IsMost cfg source f fs rescorings entry e =
    let grouped = group_rescorings rescorings in
    let (most, is_most, rest) = >>=-eq-ok (most_severe cfg grouped none (f ∷ fs)) _ e in
    let (c, some_c, value, category) =
      entry_of-inv cfg (last_source none (f ∷ fs)) most entry rest in
    let is_c : most_severe cfg grouped none (f ∷ fs) ≡ ok (some c) = rw some_c at is_most in
    (
      c,
      value,
      category,
      found (most_severe-Member cfg grouped none c (f ∷ fs) is_c),
      most_severe-All cfg grouped none c (f ∷ fs) is_c,
    )
  where
    found :
        {c : FindingCategorisation}
        → (none ≡ some c)
          ⊎ ((g : FindingEntry) × Member g (f ∷ fs)
              × (categorised cfg (group_rescorings rescorings) g ≡ ok c))
        → (g : FindingEntry) × Member g (f ∷ fs)
          × (categorised cfg (group_rescorings rescorings) g ≡ ok c)
    found (inl e) = cc
    found (inr h) = h
