-- ===== src/Finding/Choice.antt =====
-- Which categorisation `categorise_finding` (src/odg/findings.py) chooses.
use odg_core.Prelude.{
  ◌≡◌, ◌↔◌, refl, ap, subst, Bool, true, false, Option, none, some, List, [], ◌∷◌, ◌++◌, All,
  if◌then◌else◌,
}
use odg_core.Prelude.Result.{Result, ok, >>=-eq-ok}
use odg_core.Prelude.Text.{Text}
use odg_core.Finding.Selectors.{Property}
use odg_core.Finding.Categories.{FindingCategorisation}
use odg_core.Finding.Configs.{Finding, takes, first_taking, categorise_finding}

module _ (compile : Text → Result (Text → Bool)) (property : Property) (labels : List Text) where
  abbrev Takes : FindingCategorisation → Bool → Type 0
  Takes c b = takes compile c property labels ≡ ok b

  -- The categorisation is the first that takes the finding, or none does.
  abbrev pub IsFirst : List FindingCategorisation → Option FindingCategorisation → Type 0
  IsFirst cs none = All (λ c. takes compile c property labels ≡ ok false) cs
  IsFirst cs (some c) =
      (before : List FindingCategorisation) × (after : List FindingCategorisation) × (cs
        ≡ before ++ c ∷ after)
      × (takes compile c property labels ≡ ok true)
      × All (λ b. takes compile b property labels ≡ ok false) before

  first_taking-IsFirst :
      (cs : List FindingCategorisation) (r : Option FindingCategorisation)
      → first_taking compile cs property labels ≡ ok r
      → IsFirst cs r
  unfolding first_taking
  first_taking-IsFirst [] none e = tt
  first_taking-IsFirst [] (some c) e = cc
  first_taking-IsFirst (c ∷ cs) r e =
      let (b, t, rest) = >>=-eq-ok (takes compile c property labels) _ e in
      go b r t rest (first_taking-IsFirst cs)
    where
      go :
          (b : Bool) (r : Option FindingCategorisation)
          → Takes c b
          → (if b then ok (some c) else first_taking compile cs property labels) ≡ ok r
          → ((r : Option FindingCategorisation)
              → first_taking compile cs property labels ≡ ok r
              → IsFirst cs r)
          → IsFirst (c ∷ cs) r
      go true none t e ih = cc
      go true (some d) t e ih =
          let same : c ≡ d = cc in subst (λ f. IsFirst (c ∷ cs) (some f)) same ([], cs, refl, t, tt)
      go false none t e ih = (t, ih none e)
      go false (some d) t e ih =
          let (before, after, split, taken, h) = ih (some d) e in
          (c ∷ before, after, ap (λ l. c ∷ l) split, taken, (t, h))

  first_taking-none :
      (cs : List FindingCategorisation)
      → All (λ c. takes compile c property labels ≡ ok false) cs
      → first_taking compile cs property labels ≡ ok none
  unfolding first_taking
  first_taking-none [] h = refl
  first_taking-none (c ∷ cs) h = rw h.0 (first_taking-none cs h.1)

  first_taking-some :
      (before after : List FindingCategorisation) (c : FindingCategorisation)
      → Takes c true
      → All (λ b. takes compile b property labels ≡ ok false) before
      → first_taking compile (before ++ c ∷ after) property labels ≡ ok (some c)
  unfolding first_taking
  first_taking-some [] after c t h = rw t
  first_taking-some (b ∷ before) after c t h = rw h.0 (first_taking-some before after c t h.1)

  -- `categorise_finding` returns a categorisation exactly if it is the first of the configuration
  -- whose selector takes the finding, and `None` exactly if no selector takes it.
  pub categorise_finding_iff :
      (cfg : Finding) (r : Option FindingCategorisation)
      → (categorise_finding compile cfg property labels ≡ ok r) ↔ IsFirst cfg.categorisations r
  unfolding categorise_finding
  categorise_finding_iff cfg r = (first_taking-IsFirst cfg.categorisations r, back r)
    where
      back :
          (r : Option FindingCategorisation)
          → IsFirst cfg.categorisations r
          → first_taking compile cfg.categorisations property labels ≡ ok r
      back none h = first_taking-none cfg.categorisations h
      back (some c) (before, after, e, t, h) = rw e (first_taking-some before after c t h)
