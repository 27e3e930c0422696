-- ===== src/Finding/Selectors.antt =====
-- src/odg/findings.py: the selectors, and the test of a finding's property in `categorise_finding`.
use odg_core.Prelude.{
  ℕ, Bool, true, false, not, ◌&&◌, Option, none, some, List, [], ◌∷◌, is_empty, leb, if◌then◌else◌,
  ◌==◌ as nat_eq,
}
use odg_core.Prelude.Result.{Result, ok, err, Raised, ◌>>=◌}
use odg_core.Prelude.Text.{Text}

-- A score of the CVSS has one decimal: it is given in tenths.
pub record MinMaxRange : Type 0 where
  pub min : ℕ
  pub max : ℕ

pub data Selector : Type 0 where
  codeql : (codeql_status : List Text) → Selector
  crypto : (ratings : List Text) → Selector
  ghas : (resolutions : List (Option Text)) → Selector
  ip : (policy_violation_ids labels : List Text) → Selector
  license : (license_names : List Text) → Selector
  malware : (malware_names : List Text) → Selector
  sast : (sub_types : List Text) → Selector
  vulnerability : (cve_score_range : MinMaxRange) → Selector
  osid : (status : List Text) → Selector

-- The argument `finding_property`: `None`, a text or a score.
pub data Property : Type 0 where
  nothing : Property
  words : Text → Property
  score : ℕ → Property

-- `finding_property or ''`
unfoldable pub or_blank : Property → Property
or_blank nothing = words []
or_blank (words t) = words t
or_blank (score n) = if nat_eq n 0 then words [] else score n

-- `re.compile(pattern, re.IGNORECASE)`: the test by its `fullmatch`, or the error of the pattern.
module _ (compile : Text → Result (Text → Bool)) where
  -- `re.fullmatch(pattern, value, re.IGNORECASE)` of a text
  unfoldable pub fullmatch : Text → Text → Result Bool
  fullmatch pattern value = compile pattern >>= λ matches. ok (matches value)

  -- A loop that returns at the first pattern that matches. What is no text raises, once the pattern
  -- is compiled.
  unfoldable pub regex_any : List Text → Property → Result Bool
  unfolding fullmatch
  regex_any [] property = ok false
  regex_any (p ∷ patterns) (words t) = do
    found ← fullmatch p t
    let others = regex_any patterns (words t)
    if found then ok true else others
  regex_any (p ∷ patterns) _ = compile p >>= λ _. err Raised.type_error

  unfoldable pub ghas_any : List (Option Text) → Property → Result Bool
  unfolding fullmatch
  ghas_any [] property = ok false
  ghas_any (none ∷ rest) nothing = ok true
  ghas_any (none ∷ rest) (words t) = ghas_any rest (words t)
  ghas_any (none ∷ rest) (score n) = ghas_any rest (score n)
  ghas_any (some r ∷ rest) nothing = ghas_any rest nothing
  ghas_any (some r ∷ rest) (words t) = do
    found ← fullmatch r t
    let others = ghas_any rest (words t)
    if found then ok true else others
  ghas_any (some r ∷ rest) (score n) = compile r >>= λ _. err Raised.type_error

  -- The loop over the labels of the finding for one pattern
  unfoldable pub matches_label : Text → List Text → Result Bool
  unfolding fullmatch
  matches_label p [] = ok false
  matches_label p (l ∷ labels) = do
    found ← fullmatch p l
    let others = matches_label p labels
    if found then ok true else others

  -- The loop over `selector.labels`
  unfoldable pub labels_match : List Text → List Text → Result Bool
  unfolding matches_label
  labels_match [] labels = ok false
  labels_match (p ∷ patterns) labels = do
    found ← matches_label p labels
    let others = labels_match patterns labels
    if found then ok true else others

  unfoldable pub ip_matches : List Text → List Text → Property → List Text → Result Bool
  unfolding regex_any labels_match or_blank
  ip_matches ids patterns property labels = do
    violated ← if is_empty ids then ok true else regex_any ids (or_blank property)
    if not violated
        then ok false
        else if is_empty patterns
        then ok true
        else labels_match patterns labels

  unfoldable pub score_matches : MinMaxRange → Property → Result Bool
  score_matches range nothing = ok false
  score_matches range (words t) = err Raised.type_error
  score_matches range (score n) = ok (leb range.min n && leb n range.max)

  -- The body of the loop of `categorise_finding` for one selector.
  unfoldable pub selects : Selector → Property → List Text → Result Bool
  unfolding regex_any ghas_any ip_matches score_matches
  selects (codeql patterns) property labels = regex_any patterns property
  selects (crypto patterns) property labels = regex_any patterns property
  selects (ghas resolutions) property labels = ghas_any resolutions property
  selects (ip ids patterns) property labels = ip_matches ids patterns property labels
  selects (license patterns) property labels = regex_any patterns property
  selects (malware patterns) property labels = regex_any patterns property
  selects (sast patterns) property labels = regex_any patterns property
  selects (vulnerability range) property labels = score_matches range property
  selects (osid patterns) property labels = regex_any patterns property
