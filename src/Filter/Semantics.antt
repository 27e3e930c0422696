-- ===== src/Filter/Semantics.antt =====
-- What the two ways to apply a list of filters decide.
use odg_core.Prelude.{
  ◌≡◌, refl, ◌↔◌, ◌⊎◌, Bool, true, false, not, ◌&&◌, ◌||◌, Option, none, some, List, [], ◌∷◌, arith,
  any, any-select, is_empty-select, if◌then◌else◌,
}
use odg_core.Prelude.Text.{Text}
use odg_core.Artefact.{ComponentArtefactId, LocalArtefactId}
use odg_core.Filter.Defs.{
  ComponentArtefactFilter, is_include, matches, allows, scan_filters, finding_matches,
}

module _ (fullmatch : Text → Text → Bool) (artefact : ComponentArtefactId)
    (local : LocalArtefactId) where
  -- An including filter that matches, and an excluding one.
  abbrev pub includes : ComponentArtefactFilter → Bool
  includes f = is_include f.semantics && matches fullmatch f artefact local

  abbrev pub excludes : ComponentArtefactFilter → Bool
  excludes f = not (is_include f.semantics) && matches fullmatch f artefact local

  abbrev pub is_including : ComponentArtefactFilter → Bool
  is_including f = is_include f.semantics

  allows-any :
      (rules : List ComponentArtefactFilter)
      → allows fullmatch rules artefact local
        ≡ ((not (any is_including rules) || any includes rules) && not (any excludes rules))
  unfolding allows
  allows-any rules =
      rw
        (
          is_empty-select is_including rules,
          any-select (λ r. matches fullmatch r artefact local) is_including rules,
          any-select (λ r. matches fullmatch r artefact local) (λ f. not (is_including f)) rules,
        )
        (ground arith)

  scan_filters-any :
      (filters : List ComponentArtefactFilter) (i e : Bool)
      → scan_filters fullmatch filters artefact local i e
        ≡ (i || any includes filters, e || any excludes filters)
  unfolding scan_filters any
  scan_filters-any [] i e = ground arith
  scan_filters-any (f ∷ filters) i e =
      rw
        (scan_filters-any filters (if includes f then true else i)
          (if includes f then e else if excludes f then true else e))
        (tail-eq f (any includes filters) (any excludes filters))
    where
      tail-eq :
          (f : ComponentArtefactFilter) (x y : Bool)
          → ◌≡◌ {A = Bool × Bool}
              (
                (if includes f then true else i) || x,
                (if includes f then e else if excludes f then true else e) || y,
              )
              (i || (includes f || x), e || (excludes f || y))
      tail-eq f x y = ground arith

  -- `Finding.matches` and `ComponentArtefactRuleSet.allows` are one and the same test: a finding
  -- configuration covers exactly the artefacts that a rule set of its filters allows, and without
  -- filters it covers every artefact.
  pub finding_matches-allows :
      (filters : Option (List ComponentArtefactFilter))
      → finding_matches fullmatch filters artefact local
        ≡ allows fullmatch (elim filters [ none ↦ [] | some fs ↦ fs ]) artefact local
  unfolding finding_matches
  finding_matches-allows none = rw (allows-any []) (unfold any in refl)
  finding_matches-allows (some []) = rw (allows-any []) (unfold any in refl)
  finding_matches-allows (some (f ∷ fs)) =
      rw (allows-any (f ∷ fs), scan_filters-any (f ∷ fs) false false) (ground arith)

  -- An artefact is allowed exactly when no excluding filter matches it, and some including filter
  -- does unless there is no including filter.
  pub allows_iff :
      (rules : List ComponentArtefactFilter)
      → (allows fullmatch rules artefact local ≡ true) ↔ (
          (any excludes rules ≡ false)
          × ((any is_including rules ≡ false) ⊎ (any includes rules ≡ true)))
  allows_iff rules =
      rw (allows-any rules)
        (split (any is_including rules) (any includes rules) (any excludes rules))
    where
      split :
          (x y z : Bool)
          → (((not x || y) && not z) ≡ true) ↔ ((z ≡ false) × ((x ≡ false) ⊎ (y ≡ true)))
      split x y z = ground arith
