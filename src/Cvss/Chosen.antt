-- ===== src/Cvss/Chosen.antt =====
-- Which rules `matching_rescore_rules` yields (src/rescore/utility.py).
use odg_core.Prelude.{
  ℕ, ◌≡◌, refl, subst, ◌∙◌, ap, ◌↔◌, Bool, true, false, Option, zero, suc, List, [], ◌∷◌, All,
  Member, Bool-cases, inl, inr,
}
use odg_core.Prelude.Result.{Result, ok}
use odg_core.Prelude.Text.{Text}
use odg_core.Cvss.Defs.{Cvss}
use odg_core.Cvss.Rules.{CveRescoringRule, parsed_cve_values, as_dict, matches_items, matches_cvss}
use odg_core.Cvss.Categorised.{
  CveCategorisation, matches_categorisation, is_matching, matching_rescore_rules,
}
use odg_core.Cvss.Matching.{IsAllowed, matches_cvss_iff}

module _ (safe_load : Text → Result (Option Bool)) (categorisation : CveCategorisation)
    (cvss : Cvss) where
  -- The category value of the rule can be read, and so can its values for vectors if the
  -- categorisation has the category value.
  abbrev pub IsReadable : CveRescoringRule → Type 0
  IsReadable rule =
      (categorised : Bool) × (matches_categorisation safe_load rule categorisation ≡ ok categorised)
      × (categorised ≡ true → (values : List (Text × ℕ)) × (parsed_cve_values rule ≡ ok values))

  -- The categorisation has the category value of the rule, and every attribute of the vector
  -- that the rule names has one of the rule's values for it.
  abbrev pub IsMatching : CveRescoringRule → Type 0
  IsMatching rule =
      (matches_categorisation safe_load rule categorisation ≡ ok true)
      × ((values : List (Text × ℕ)) × (parsed_cve_values rule ≡ ok values)
          × All (IsAllowed values) (as_dict cvss))

  is_matching→IsMatching :
      (rule : CveRescoringRule)
      → IsReadable rule
      → is_matching safe_load categorisation cvss rule ≡ ok true
      → IsMatching rule
  unfolding is_matching
  is_matching→IsMatching rule (false, categorised, readable) h = cc
  is_matching→IsMatching rule (true, categorised, readable) h =
      let (values, read) = readable refl in
      let matched : matches_cvss rule cvss ≡ ok true = cc in
      (categorised, (values, read, (matches_cvss_iff rule values cvss read).0 matched))

  IsMatching→is_matching :
      (rule : CveRescoringRule)
      → IsMatching rule
      → is_matching safe_load categorisation cvss rule ≡ ok true
  unfolding is_matching
  IsMatching→is_matching rule (categorised, (values, read, allowed)) =
      rw categorised ((matches_cvss_iff rule values cvss read).1 allowed)

  is_matching_total :
      (rule : CveRescoringRule)
      → IsReadable rule
      → (matching : Bool) × (is_matching safe_load categorisation cvss rule ≡ ok matching)
  unfolding is_matching matches_cvss
  is_matching_total rule (false, categorised, readable) = (false, rw categorised refl)
  is_matching_total rule (true, categorised, readable) =
      let (values, read) = readable refl in
      (matches_items values (as_dict cvss), rw (categorised, read) refl)

  -- What a round does to the rules that the later rounds yield.
  abbrev Yields : List CveRescoringRule → List CveRescoringRule → Type 0
  Yields rules out =
      (rule : CveRescoringRule) → Member rule out ↔ (Member rule rules × IsMatching rule)

  Yields-kept :
      (first : CveRescoringRule) (rules out : List CveRescoringRule)
      → IsMatching first
      → Yields rules out
      → Yields (first ∷ rules) (first ∷ out)
  Yields-kept first rules out matching yields rule = (forth, back)
    where
      forth : Member rule (first ∷ out) → Member rule (first ∷ rules) × IsMatching rule
      forth (zero, e) = let same : first ≡ rule = cc in ((0, e), subst IsMatching same matching)
      forth (suc i, e) = let ((j, p), m) = (yields rule).0 (i, e) in ((suc j, p), m)

      back : Member rule (first ∷ rules) × IsMatching rule → Member rule (first ∷ out)
      back ((zero, e), m) = (0, e)
      back ((suc j, p), m) = let (i, e) = (yields rule).1 ((j, p), m) in (suc i, e)

  Yields-dropped :
      (first : CveRescoringRule) (rules out : List CveRescoringRule)
      → ¬ IsMatching first
      → Yields rules out
      → Yields (first ∷ rules) out
  Yields-dropped first rules out skipped yields rule = (forth, back)
    where
      forth : Member rule out → Member rule (first ∷ rules) × IsMatching rule
      forth m = let ((j, p), h) = (yields rule).0 m in ((suc j, p), h)

      back : Member rule (first ∷ rules) × IsMatching rule → Member rule out
      back ((zero, e), m) =
          let same : rule ≡ first = cc in absurd (skipped (subst IsMatching same m))
      back ((suc j, p), m) = (yields rule).1 ((j, p), m)

  -- If all rules can be read as far as needed, then matching_rescore_rules raises nothing, and
  -- yields exactly those of the rules whose category value the categorisation has, and which
  -- give, for every attribute of the vector that they name, the value of the vector.
  pub matching_rescore_rules-IsMatching :
      (rules : List CveRescoringRule)
      → All IsReadable rules
      → (out : List CveRescoringRule) × (matching_rescore_rules safe_load rules categorisation cvss
          ≡ ok out)
        × ((rule : CveRescoringRule) → Member rule out ↔ (Member rule rules × IsMatching rule))
  unfolding matching_rescore_rules
  matching_rescore_rules-IsMatching [] h = ([], refl, λ rule. (λ (i, e). cc, λ ((i, e), m). cc))
  matching_rescore_rules-IsMatching (first ∷ rules) (readable, h) =
      let (out, yielded, yields) = matching_rescore_rules-IsMatching rules h in
      let (matching, decided) = is_matching_total first readable in
      elim (Bool-cases matching) [
        | inl kept ↦
            let told = decided ∙ ap ok kept in
            (
              first ∷ out,
              rw (told, yielded) refl,
              Yields-kept first rules out (is_matching→IsMatching first readable told) yields,
            )
        | inr dropped ↦
            let told = decided ∙ ap ok dropped in
            (
              out,
              rw (told, yielded) refl,
              Yields-dropped first rules out (λ m. let kept = IsMatching→is_matching first m in cc)
                  yields,
            )
      ]
