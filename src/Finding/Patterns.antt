-- ===== src/Finding/Patterns.antt =====
-- Which properties `categorise_finding` (src/odg/findings.py) reads for a type of findings, and its
-- matching of a property against patterns that are all valid.
use odg_core.Prelude.{
  ◌≡◌, refl, Bool, true, false, not, Option, none, some, List, [], ◌∷◌, ◌++◌, All, is_empty,
  if◌then◌else◌,
}
use odg_core.Prelude.Result.{Result, ok, ◌>>=◌}
use odg_core.Prelude.Text.{Text}
use odg_core.Artefact.{Datatype}
use odg_core.Finding.Selectors.{
  Selector, Property, nothing, words, score, fullmatch, regex_any, ghas_any, matches_label,
  labels_match, ip_matches, or_blank,
}
use odg_core.Finding.Categories.{FindingCategorisation}

-- The kinds of properties that the extensions pass for findings of a type: scores of
-- vulnerabilities, and texts for the others, where secrets and ip findings may have none.
abbrev pub Fits : Datatype → Property → Type 0
Fits Datatype.vulnerability_finding (score n) = Unit
Fits Datatype.vulnerability_finding nothing = Unit
Fits Datatype.ghas_finding (words t) = Unit
Fits Datatype.ghas_finding nothing = Unit
Fits Datatype.ip_finding (words t) = Unit
Fits Datatype.ip_finding nothing = Unit
Fits Datatype.codeql_finding (words t) = Unit
Fits Datatype.osid_finding (words t) = Unit
Fits Datatype.crypto_finding (words t) = Unit
Fits Datatype.license_finding (words t) = Unit
Fits Datatype.malware_finding (words t) = Unit
Fits Datatype.sast_finding (words t) = Unit
Fits _ _ = ⊥

abbrev texts_of : List (Option Text) → List Text
texts_of [] = []
texts_of (none ∷ rs) = texts_of rs
texts_of (some r ∷ rs) = r ∷ texts_of rs

found : (b others : Bool) → (if b then ok true else ok others) ≡ ok (if b then true else others)
found true others = refl
found false others = refl

-- The patterns of a selector
abbrev pub patterns_of : Selector → List Text
patterns_of (Selector.codeql ps) = ps
patterns_of (Selector.crypto ps) = ps
patterns_of (Selector.ghas rs) = texts_of rs
patterns_of (Selector.ip ids ps) = ids ++ ps
patterns_of (Selector.license ps) = ps
patterns_of (Selector.malware ps) = ps
patterns_of (Selector.sast ps) = ps
patterns_of (Selector.vulnerability range) = []
patterns_of (Selector.osid ps) = ps

module _ (compile : Text → Result (Text → Bool)) where
  -- The pattern is a regular expression.
  abbrev pub IsPattern : Text → Type 0
  IsPattern p = (matches : Text → Bool) × (compile p ≡ ok matches)

  abbrev pub ArePatterns : Option Selector → Type 0
  ArePatterns none = Unit
  ArePatterns (some s) = All IsPattern (patterns_of s)

  abbrev pub HasPatterns : FindingCategorisation → Type 0
  HasPatterns c = ArePatterns c.selector

  pub regex_any_total :
      (ps : List Text) (t : Text)
      → All IsPattern ps
      → (b : Bool) × (regex_any compile ps (words t) ≡ ok b)
  unfolding regex_any fullmatch
  regex_any_total [] t h = (false, refl)
  regex_any_total (p ∷ ps) t h =
      let (matches, c) = h.0 in
      let (b, e) = regex_any_total ps t h.1 in
      (if matches t then true else b, rw (regex_any, fullmatch, c, e) (found (matches t) b))

  pub ghas_any_total :
      (resolutions : List (Option Text)) (property : Property)
      → All IsPattern (texts_of resolutions)
      → Fits Datatype.ghas_finding property
      → (b : Bool) × (ghas_any compile resolutions property ≡ ok b)
  unfolding ghas_any fullmatch
  ghas_any_total [] property h fits = (false, refl)
  ghas_any_total (none ∷ rest) nothing h fits = (true, refl)
  ghas_any_total (none ∷ rest) (words t) h fits = ghas_any_total rest (words t) h fits
  ghas_any_total (none ∷ rest) (score n) h fits = absurd fits
  ghas_any_total (some r ∷ rest) nothing h fits = ghas_any_total rest nothing h.1 fits
  ghas_any_total (some r ∷ rest) (words t) h fits =
      let (matches, c) = h.0 in
      let (b, e) = ghas_any_total rest (words t) h.1 fits in
      (if matches t then true else b, rw (ghas_any, fullmatch, c, e) (found (matches t) b))
  ghas_any_total (some r ∷ rest) (score n) h fits = absurd fits

  matches_label_total :
      (p : Text) (labels : List Text)
      → IsPattern p
      → (b : Bool) × (matches_label compile p labels ≡ ok b)
  unfolding matches_label fullmatch
  matches_label_total p [] h = (false, refl)
  matches_label_total p (l ∷ labels) (matches, c) =
      let (b, e) = matches_label_total p labels (matches, c) in
      (if matches l then true else b, rw (matches_label, fullmatch, c, e) (found (matches l) b))

  labels_match_total :
      (ps labels : List Text)
      → All IsPattern ps
      → (b : Bool) × (labels_match compile ps labels ≡ ok b)
  unfolding labels_match
  labels_match_total [] labels h = (false, refl)
  labels_match_total (p ∷ ps) labels h =
      let (b, e) = matches_label_total p labels h.0 in
      let (b', e') = labels_match_total ps labels h.1 in
      (if b then true else b', rw (labels_match, e, e') (found b b'))

  labelled_total :
      (ids patterns labels : List Text) (t : Text)
      → All IsPattern ids
      → All IsPattern patterns
      → (b : Bool) × (ip_matches compile ids patterns (words t) labels ≡ ok b)
  unfolding ip_matches or_blank
  labelled_total ids patterns labels t h k =
      let (b, e) = regex_any_total ids t h in
      let (b', e') = labels_match_total patterns labels k in
      by_ids (is_empty ids) (is_empty patterns) b e b' e'
    where
      by_ids :
          (no_ids no_patterns b : Bool)
          → regex_any compile ids (words t) ≡ ok b
          → (b' : Bool) → labels_match compile patterns labels ≡ ok b'
          → (r : Bool) × (((if no_ids then ok true else regex_any compile ids (words t))
                >>= λ violated.
                    if not violated
                    then ok false
                    else if no_patterns
                    then ok true
                    else labels_match compile patterns labels)
              ≡ ok r)
      by_ids true true b e b' e' = (true, refl)
      by_ids true false b e b' e' = (b', e')
      by_ids false no_patterns false e b' e' = (false, rw e refl)
      by_ids false true true e b' e' = (true, rw e refl)
      by_ids false false true e b' e' = (b', rw (e, e') refl)

  pub ip_matches_total :
      (ids patterns labels : List Text) (property : Property)
      → All IsPattern ids
      → All IsPattern patterns
      → Fits Datatype.ip_finding property
      → (b : Bool) × (ip_matches compile ids patterns property labels ≡ ok b)
  unfolding ip_matches regex_any or_blank
  ip_matches_total ids patterns labels (score n) h k fits = absurd fits
  ip_matches_total ids patterns labels nothing h k fits = labelled_total ids patterns labels [] h k
  ip_matches_total ids patterns labels (words t) h k fits = labelled_total ids patterns labels t h k
