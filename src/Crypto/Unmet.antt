-- ===== src/Crypto/Unmet.antt =====
-- What the search for the closest alternative finds (src/crypto_extension/validate.py).
use odg_core.Prelude.{
  ◌≡◌, refl, Bool, true, false, not, ◌&&◌, ◌||◌, Option, none, some, List, [], ◌∷◌, arith, any, All,
  is_empty, Bool-cases, inl, inr,
}
use odg_core.Prelude.Result.{ok}
use odg_core.Prelude.Text.{◌==◌}
use odg_core.Crypto.Standards.{check_value}
use odg_core.Crypto.Requirements.{
  RequiredValue, ActualValue, Requirement, is_met_by, is_member, equals, is_within,
  iter_unmet_requirements, closest, closest_of, check_from, check_unmet_requirements, none_unmet,
}

-- The requirement holds; `None` requires nothing that can hold.
abbrev pub holds_by : RequiredValue → ActualValue → Bool
unfolding any ◌==◌ check_value
holds_by (RequiredValue.member t) actual = is_member t actual
holds_by (RequiredValue.words t) actual = equals t actual
holds_by (RequiredValue.one_of ts) actual = any (λ t. equals t actual) ts
holds_by (RequiredValue.within p) actual = is_within p actual
holds_by RequiredValue.nothing actual = false

abbrev pub holds : Requirement → Bool
holds r = holds_by r.required_value r.actual_value

-- All of the requirements hold.
abbrev pub all_hold : List Requirement → Bool
all_hold [] = true
all_hold (r ∷ rs) = holds r && all_hold rs

-- The required value is not `None`, which would raise.
abbrev pub IsStatedValue : RequiredValue → Type 0
IsStatedValue (RequiredValue.member t) = Unit
IsStatedValue (RequiredValue.words t) = Unit
IsStatedValue (RequiredValue.one_of ts) = Unit
IsStatedValue (RequiredValue.within p) = Unit
IsStatedValue RequiredValue.nothing = ⊥

abbrev pub IsStated : Requirement → Type 0
IsStated r = IsStatedValue r.required_value

is_met_by-holds :
    (required : RequiredValue) (actual : ActualValue)
    → IsStatedValue required
    → is_met_by required actual ≡ ok (holds_by required actual)
unfolding is_met_by
is_met_by-holds (RequiredValue.member t) actual h = refl
is_met_by-holds (RequiredValue.words t) actual h = refl
is_met_by-holds (RequiredValue.one_of ts) actual h = refl
is_met_by-holds (RequiredValue.within p) actual h = refl
is_met_by-holds RequiredValue.nothing actual h = elim h [ ]

iter_unmet_requirements-all_hold :
    (rs : List Requirement)
    → All IsStated rs
    → (unmet : List Requirement) × (iter_unmet_requirements rs ≡ ok unmet)
      × (is_empty unmet ≡ all_hold rs)
unfolding iter_unmet_requirements
iter_unmet_requirements-all_hold [] h = ([], refl, refl)
iter_unmet_requirements-all_hold (r ∷ rs) h =
    let (unmet, e, same) = iter_unmet_requirements-all_hold rs h.1 in
    let met = is_met_by-holds r.required_value r.actual_value h.0 in
    elim (Bool-cases (holds r)) [
      | inl yes_holds ↦ (unmet, rw (met, e, yes_holds) refl, rw yes_holds same)
      | inr fails ↦ (r ∷ unmet, rw (met, e, fails) refl, rw fails refl)
    ]

-- The best alternative so far has no unmet requirement; there is one at all.
abbrev pub is_fulfilled : Option (List Requirement) → Bool
is_fulfilled none = false
is_fulfilled (some unmet) = is_empty unmet

abbrev pub is_started : Option (List Requirement) → Bool
is_started none = false
is_started (some unmet) = true

pub none_unmet_lem :
    (best : Option (List Requirement))
    → none_unmet best ≡ (is_fulfilled best || not (is_started best))
none_unmet_lem none = refl
none_unmet_lem (some []) = refl
none_unmet_lem (some (r ∷ rs)) = refl

closest_lem :
    (best : Option (List Requirement)) (unmet : List Requirement)
    → (is_fulfilled (closest best unmet) ≡ (is_fulfilled best || is_empty unmet))
      × (is_started (closest best unmet) ≡ true)
unfolding closest
closest_lem none unmet = (refl, refl)
closest_lem (some []) [] = (refl, refl)
closest_lem (some []) (u ∷ us) = (ground arith, ground arith)
closest_lem (some (b ∷ bs)) [] = (ground arith, ground arith)
closest_lem (some (b ∷ bs)) (u ∷ us) = (ground arith, ground arith)

closest_of-all_hold :
    (best : Option (List Requirement)) (alternatives : List (List Requirement))
    → All (All IsStated) alternatives
    → (best' : Option (List Requirement)) × (closest_of best alternatives ≡ ok best')
      × (is_fulfilled best' ≡ (is_fulfilled best || any all_hold alternatives))
      × (is_started best' ≡ (is_started best || not (is_empty alternatives)))
unfolding closest_of any
closest_of-all_hold best [] h = (best, refl, ground arith, ground arith)
closest_of-all_hold best (rs ∷ alternatives) h =
    let (unmet, e, same) = iter_unmet_requirements-all_hold rs h.0 in
    let (best', e', fulfilled, started) =
      closest_of-all_hold (closest best unmet) alternatives h.1 in
    let (fulfilled', started') = closest_lem best unmet in
    (best', rw e e', ground arith, ground arith)

module _ {ℓ} {D : Type ℓ} (matches : D → Bool) (alternatives : D → List (List Requirement)) where
  -- A matching definition has an alternative of which all requirements hold; one has any.
  abbrev pub fulfils : D → Bool
  unfolding any
  fulfils d = matches d && any all_hold (alternatives d)

  abbrev pub offers : D → Bool
  offers d = matches d && not (is_empty (alternatives d))

  abbrev Found :
      Bool → Option (List Requirement) → List D → Bool × Option (List Requirement) → Type 0
  Found matched best ds found =
      (found.0 ≡ (matched || any matches ds))
      × (is_fulfilled found.1 ≡ (is_fulfilled best || any fulfils ds))
      × (is_started found.1 ≡ (is_started best || any offers ds))

  check_from-Found :
      (matched : Bool) (best : Option (List Requirement)) (ds : List D)
      → All (λ d. All (All IsStated) (alternatives d)) ds
      → (found : Bool × Option (List Requirement)) × (check_from matches alternatives matched best
            ds
          ≡ ok found)
        × Found matched best ds found
  unfolding check_from any
  check_from-Found matched best [] h =
      ((matched, best), refl, (ground arith, ground arith, ground arith))
  check_from-Found matched best (d ∷ ds) h = elim (Bool-cases (matches d)) [
    | inl hit ↦
        let (best', e, fulfilled, started) = closest_of-all_hold best (alternatives d) h.0 in
        let (found, e', (m, f, s)) = check_from-Found true best' ds h.1 in
        (found, rw (hit, e) e', (ground arith, ground arith, ground arith))
    | inr miss ↦
        let (found, e', (m, f, s)) = check_from-Found matched best ds h.1 in
        (found, rw miss e', (ground arith, ground arith, ground arith))
  ]

  -- A definition matches, and an alternative of a matching one is fulfilled or there is none.
  abbrev pub is_allowed : List D → Bool
  unfolding any
  is_allowed ds = any matches ds && (any fulfils ds || not (any offers ds))

  pub check_unmet_requirements-is_allowed :
      (ds : List D)
      → All (λ d. All (All IsStated) (alternatives d)) ds
      → (found : Bool × Option (List Requirement)) × (check_unmet_requirements matches alternatives
            ds
          ≡ ok found)
        × (found.0 ≡ any matches ds)
        × ((found.0 && none_unmet found.1) ≡ is_allowed ds)
  unfolding check_unmet_requirements any
  check_unmet_requirements-is_allowed ds h =
      let (found, e, (m, f, s)) = check_from-Found false none ds h in
      (found, e, ground arith, ground (arith, none_unmet_lem found.1))
