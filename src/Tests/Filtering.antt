-- ===== src/Tests/Filtering.antt =====
-- Examples on filters.
use odg_core.Prelude.{
  ◌≡◌, refl, ◌↔◌, ◌⊎◌, Bool, true, false, Option, none, some, List, [], ◌∷◌, ◌++◌, any,
}
use odg_core.Prelude.Text.{text, ◌==◌}
use odg_core.Filter.{
  FilterSemantics, ComponentArtefactFilter, matches, match_regexes, allows, finding_matches,
}
use odg_core.Filter.Semantics.{finding_matches-allows, allows_iff, includes, excludes, is_including}
use odg_core.Tests.Data.{wildcard, image, image_id, filter_on}

abbrev include_app : ComponentArtefactFilter
include_app = filter_on FilterSemantics.include (text "acme.org/app" ∷ []) []

abbrev exclude_image : ComponentArtefactFilter
exclude_image = filter_on FilterSemantics.exclude (text ".*" ∷ []) (text "image" ∷ [])

abbrev exclude_other : ComponentArtefactFilter
exclude_other = filter_on FilterSemantics.exclude [] (text "chart" ∷ [])

app_is_allowed : allows wildcard (include_app ∷ []) image_id image ≡ true
unfolding allows matches match_regexes odg_core.Prelude.select any ◌==◌
app_is_allowed = refl

image_is_excluded : allows wildcard (include_app ∷ exclude_image ∷ []) image_id image ≡ false
unfolding allows matches match_regexes odg_core.Prelude.select any ◌==◌
image_is_excluded = refl

finding_matches-allows_example :
    finding_matches wildcard (some (include_app ∷ exclude_image ∷ [])) image_id image
    ≡ allows wildcard (include_app ∷ exclude_image ∷ []) image_id image
finding_matches-allows_example =
    finding_matches-allows wildcard image_id image (some (include_app ∷ exclude_image ∷ []))

allows_iff_example : (allows wildcard (include_app ∷ exclude_image ∷ []) image_id image ≡ true) ↔ (
    (any (excludes wildcard image_id image) (include_app ∷ exclude_image ∷ []) ≡ false)
    × ((any (is_including wildcard image_id image) (include_app ∷ exclude_image ∷ []) ≡ false)
        ⊎ (any (includes wildcard image_id image) (include_app ∷ exclude_image ∷ []) ≡ true)))
allows_iff_example = allows_iff wildcard image_id image (include_app ∷ exclude_image ∷ [])

allows_both : allows wildcard ((include_app ∷ []) ++ exclude_other ∷ []) image_id image ≡ true
unfolding allows matches match_regexes odg_core.Prelude.select any ◌==◌
allows_both = refl
