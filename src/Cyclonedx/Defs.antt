-- ===== src/Cyclonedx/Defs.antt =====
-- src/scanner_utils/cyclonedx.py: `_pick_rating`.
use odg_core.Prelude.{
  ℕ, ◌+◌, Bool, ◌&&◌, ◌||◌, Option, none, some, List, [], ◌∷◌, map, leb, select, if◌then◌else◌,
}
use odg_core.Prelude.Text.{Text, text, ◌==◌, starts_with}

-- A score is a number of tenths.
pub record CyclonedxRating : Type 0 where
  pub method : Text
  pub score : Option ℕ
  pub severity : Text
  pub vector : Option Text
  pub source_name : Option Text

-- `str.lower` of an ASCII letter. No other letter becomes one of those that are compared below.
abbrev lower_letter : ℕ → ℕ
lower_letter c = if leb b'A' c && leb c b'Z' then c + 32 else c

abbrev lower : Text → Text
lower t = map lower_letter t

-- `part in t`
unfoldable contains : Text → Text → Bool
unfolding starts_with
contains part [] = starts_with part []
contains part (c ∷ t) = starts_with part (c ∷ t) || contains part t

-- `'v3' in r.method.lower()`
unfoldable pub is_v3 : CyclonedxRating → Bool
unfolding contains
is_v3 r = contains (text "v3") (lower r.method)

-- `r.source_name or ''`
abbrev source_text : Option Text → Text
source_text none = []
source_text (some t) = t

-- `_SOURCE_ALIASES.get(raw, raw)`
unfoldable pub canonical : CyclonedxRating → Text
unfolding ◌==◌
canonical r =
    let raw = lower (source_text r.source_name) in
    if raw == text "national vulnerability database" then text "nvd" else raw

unfoldable pub is_from : Text → CyclonedxRating → Bool
unfolding canonical
is_from source r = canonical r == source

-- A loop that returns the first item with the property
unfoldable pub first_with {ℓ} : {A : Type ℓ} → (A → Bool) → List A → Option A
first_with p [] = none
first_with p (x ∷ xs) = let rest = first_with p xs in if p x then some x else rest

-- What an earlier search found, else what comes later
abbrev pub if_none {ℓ} : {A : Type ℓ} → Option A → Option A → Option A
if_none (some found) later = some found
if_none none later = later

unfoldable pub from_sources : List Text → List CyclonedxRating → Option CyclonedxRating
unfolding first_with is_from
from_sources [] cvssv3 = none
from_sources (source ∷ sources) cvssv3 =
    if_none (first_with (is_from source) cvssv3) (from_sources sources cvssv3)

-- `_PREFERRED_SOURCES`
abbrev pub preferred_sources : List Text
preferred_sources = text "nvd" ∷ text "redhat" ∷ text "ghsa" ∷ []

-- `cvssv3[0]` if there is one, else `ratings[0]`
abbrev pub first_or : CyclonedxRating → List CyclonedxRating → CyclonedxRating
first_or r [] = r
first_or r (v ∷ vs) = v

unfoldable pub pick_rating : List CyclonedxRating → Option CyclonedxRating
unfolding select is_v3 from_sources
pick_rating [] = none
pick_rating (r ∷ rs) =
    let cvssv3 = select is_v3 (r ∷ rs) in
    if_none (from_sources preferred_sources cvssv3) (some (first_or r cvssv3))
