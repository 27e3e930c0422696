-- ===== src/Cyclonedx/Best.antt =====
-- `_pick_rating` gives the first of the best ratings (src/scanner_utils/cyclonedx.py).
use odg_core.Prelude.{
  ℕ, suc, ◌≡◌, refl, sym, ap, ◌∙◌, ◌≤◌, ◌<◌, ◌⊎◌, inl, inr, Bool, true, false, ◌&&◌, Option, none,
  some, List, [], ◌∷◌, ◌++◌, arith, All, All-map_of, Bool-cases, select, if◌then◌else◌,
}
use odg_core.Prelude.Text.{Text, text}
use odg_core.Cyclonedx.Defs.{
  CyclonedxRating, is_v3, is_from, first_with, if_none, from_sources, first_or, pick_rating,
}

-- How good a rating is, the best first: version 3 of the CVSS from NVD, from Red Hat, from GHSA,
-- from others, and then all ratings by other methods.
abbrev pub rank : CyclonedxRating → ℕ
rank r =
    if is_v3 r
    then if is_from (text "nvd") r
      then 0
      else if is_from (text "redhat") r
      then 1
      else if is_from (text "ghsa") r
      then 2
      else 3
    else 4

-- The rating is the first of those with the least rank.
abbrev pub IsFirstBest : List CyclonedxRating → CyclonedxRating → Type 0
IsFirstBest ratings r =
    (before : List CyclonedxRating) × (after : List CyclonedxRating) × (ratings
      ≡ before ++ r ∷ after)
    × All (λ b. rank r < rank b) before
    × All (λ a. rank r ≤ rank a) after

AtLeast : ℕ → List CyclonedxRating → Type 0
AtLeast k ratings = All (λ r. k ≤ rank r) ratings

-- A search for the ratings of one rank, when there are none of a lesser rank
first_with-IsFirstBest :
    (k : ℕ) (p : CyclonedxRating → Bool)
    → ((r : CyclonedxRating) → k ≤ rank r → p r ≡ true → rank r ≡ k)
    → ((r : CyclonedxRating) → k ≤ rank r → p r ≡ false → suc k ≤ rank r)
    → (ratings : List CyclonedxRating) → AtLeast k ratings
    → ((first_with p ratings ≡ none) × AtLeast (suc k) ratings)
      ⊎ ((r : CyclonedxRating) × (first_with p ratings ≡ some r)
          × (rank r ≡ k)
          × IsFirstBest ratings r)
unfolding first_with AtLeast
first_with-IsFirstBest k p yes_k no_k [] h = inl (refl, tt)
first_with-IsFirstBest k p yes_k no_k (x ∷ xs) (least, h) = elim (Bool-cases (p x)) [
  | inl holds ↦
      let same = yes_k x least holds in
      inr (x, rw holds refl, same, ([], xs, refl, tt, All-map_of _ _ (λ a here. rw same here) xs h))
  | inr fails ↦
      let above = no_k x least fails in
      elim (first_with-IsFirstBest k p yes_k no_k xs h) [
        | inl (e, all) ↦ inl (rw (fails, e) refl, (above, all))
        | inr (r, e, same, (before, after, split, lo, hi)) ↦
            let less : rank r < rank x = rw same above in
            inr (
              r,
              rw (fails, e) refl,
              same,
              (x ∷ before, after, ap (λ l. x ∷ l) split, (less, lo), hi),
            )
      ]
]

first_with-select :
    (p q : CyclonedxRating → Bool) (xs : List CyclonedxRating)
    → first_with p (select q xs) ≡ first_with (λ x. q x && p x) xs
unfolding first_with select
first_with-select p q [] = refl
first_with-select p q (x ∷ xs) = elim (Bool-cases (q x)) [
  | inl holds ↦ rw (select, holds, first_with-select p q xs) refl
  | inr fails ↦ rw (select, fails, first_with-select p q xs) refl
]

-- The first rating by version 3, or the given one
abbrev or_else : CyclonedxRating → Option CyclonedxRating → CyclonedxRating
or_else r none = r
or_else r (some v) = v

first_or-select :
    (r : CyclonedxRating) (q : CyclonedxRating → Bool) (xs : List CyclonedxRating)
    → first_or r (select q xs) ≡ or_else r (first_with q xs)
unfolding first_with select
first_or-select r q [] = refl
first_or-select r q (x ∷ xs) = elim (Bool-cases (q x)) [
  | inl holds ↦ rw (select, holds) refl
  | inr fails ↦ rw (select, fails) (first_or-select r q xs)
]

-- A search in the ratings by version 3 for one source
abbrev v3_from : Text → CyclonedxRating → Bool
v3_from source r = is_v3 r && is_from source r

rank_le : (r : CyclonedxRating) → rank r ≤ 4
rank_le r = ground arith

AtLeast-zero : (ratings : List CyclonedxRating) → AtLeast 0 ratings
unfolding AtLeast
AtLeast-zero [] = tt
AtLeast-zero (r ∷ ratings) = (omega arith, AtLeast-zero ratings)

-- Without a rating by version 3 the first rating is the first best.
head-IsFirstBest :
    (r : CyclonedxRating) (rs : List CyclonedxRating) → AtLeast 4 (r ∷ rs) → IsFirstBest (r ∷ rs) r
unfolding AtLeast
head-IsFirstBest r rs (h, hs) =
    let bound = rank_le r in ([], rs, refl, tt, All-map_of _ _ (λ a here. omega arith) rs hs)

-- What _pick_rating makes of what its searches find
abbrev by_searches :
    Option CyclonedxRating
    → Option CyclonedxRating
    → Option CyclonedxRating
    → CyclonedxRating
    → Option CyclonedxRating
by_searches (some best) redhat ghsa other = some best
by_searches none (some best) ghsa other = some best
by_searches none none (some best) other = some best
by_searches none none none other = some other

if_none-by_searches :
    (a b c : Option CyclonedxRating) (other : CyclonedxRating)
    → if_none (if_none a (if_none b (if_none c none))) (some other) ≡ by_searches a b c other
if_none-by_searches (some a) b c other = refl
if_none-by_searches none (some b) c other = refl
if_none-by_searches none none (some c) other = refl
if_none-by_searches none none none other = refl

-- The same with equal results of the searches
if_none-searches :
    (a b c : Option CyclonedxRating) (other : CyclonedxRating) {a' b' c' : Option CyclonedxRating}
    {other' : CyclonedxRating}
    → a ≡ a'
    → b ≡ b'
    → c ≡ c'
    → other ≡ other'
    → if_none (if_none a (if_none b (if_none c none))) (some other) ≡ by_searches a' b' c' other'
if_none-searches a b c other ea eb ec eo =
    rw (sym ea, sym eb, sym ec, sym eo) (if_none-by_searches a b c other)

pick_rating-by_searches :
    (r : CyclonedxRating) (rs : List CyclonedxRating)
    → pick_rating (r ∷ rs)
      ≡ by_searches
          (first_with (v3_from (text "nvd")) (r ∷ rs))
          (first_with (v3_from (text "redhat")) (r ∷ rs))
          (first_with (v3_from (text "ghsa")) (r ∷ rs))
          (or_else r (first_with is_v3 (r ∷ rs)))
unfolding pick_rating from_sources
pick_rating-by_searches r rs =
    let ratings : List CyclonedxRating = r ∷ rs in
    let nvd = first_with-select (is_from (text "nvd")) is_v3 ratings in
    let redhat = first_with-select (is_from (text "redhat")) is_v3 ratings in
    let ghsa = first_with-select (is_from (text "ghsa")) is_v3 ratings in
    let other = first_or-select r is_v3 ratings in
    let cvssv3 = select is_v3 ratings in
    if_none-searches (first_with (is_from (text "nvd")) cvssv3)
      (first_with (is_from (text "redhat")) cvssv3) (first_with (is_from (text "ghsa")) cvssv3)
      (first_or r cvssv3) nvd redhat ghsa other

-- Of a list of ratings that is not empty, _pick_rating returns the first of those that are best:
-- by version 3 of the CVSS from NVD, else from Red Hat, else from GHSA, else from any source, else
-- any rating.
pub pick_rating-IsFirstBest :
    (r : CyclonedxRating) (rs : List CyclonedxRating)
    → (best : CyclonedxRating) × (pick_rating (r ∷ rs) ≡ some best) × IsFirstBest (r ∷ rs) best
pick_rating-IsFirstBest r rs =
    let ratings : List CyclonedxRating = r ∷ rs in
    let searched = pick_rating-by_searches r rs in
    elim (first_with-IsFirstBest 0 (v3_from (text "nvd")) (λ a h p. ground arith)
      (λ a h p. ground arith) ratings (AtLeast-zero ratings)) [
        | inr (best, e, same, is_best) ↦ (best, searched ∙ rw e refl, is_best)
        | inl (e0, all1) ↦
            elim (first_with-IsFirstBest 1 (v3_from (text "redhat")) (λ a h p. ground arith)
              (λ a h p. ground arith) ratings all1) [
                | inr (best, e, same, is_best) ↦ (best, searched ∙ rw (e0, e) refl, is_best)
                | inl (e1, all2) ↦
                    elim (first_with-IsFirstBest 2 (v3_from (text "ghsa")) (λ a h p. ground arith)
                      (λ a h p. ground arith) ratings all2) [
                        | inr (best, e, same, is_best) ↦
                            (best, searched ∙ rw (e0, e1, e) refl, is_best)
                        | inl (e2, all3) ↦
                            elim (first_with-IsFirstBest 3 is_v3 (λ a h p. ground arith)
                              (λ a h p. ground arith) ratings all3) [
                                | inr (best, e, same, is_best) ↦
                                    (best, searched ∙ rw (e0, e1, e2, e) refl, is_best)
                                | inl (e3, all4) ↦ (
                                  r,
                                  searched ∙ rw (e0, e1, e2, e3) refl,
                                  head-IsFirstBest r rs all4,
                                )
                              ]
                      ]
              ]
      ]
