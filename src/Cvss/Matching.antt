-- ===== src/Cvss/Matching.antt =====
-- Which vectors a `CveRescoringRule` matches (src/rescore/model.py).
use odg_core.Prelude.{
  ℕ, ◌≡◌, refl, ◌↔◌, true, some, List, [], ◌∷◌, arith, All, Bool-cases, inl, inr, ap, ◌∙◌, Member,
  ◌==◌ as nat_eq,
}
use odg_core.Prelude.Result.{ok}
use odg_core.Prelude.Members.{any→Member, Member→any}
use odg_core.Prelude.Text.{Text, ◌==◌, eq→path, eq_refl}
use odg_core.Cvss.Defs.{Cvss}
use odg_core.Cvss.Rules.{
  CveRescoringRule, parsed_cve_values, as_dict, is_named, is_value_of, matches_items, matches_cvss,
}

-- The rule names the attribute.
abbrev pub IsNamed : List (Text × ℕ) → Text → Type 0
IsNamed values attr = (member : ℕ) × Member (attr, member) values

-- If the rule names the attribute of the item, then the item is one of the rule's values.
abbrev pub IsAllowed : List (Text × ℕ) → Text × ℕ → Type 0
IsAllowed values item = IsNamed values item.0 → Member item values

module _ (values : List (Text × ℕ)) where
  named→IsNamed : (attr : Text) → is_named values attr ≡ true → IsNamed values attr
  unfolding is_named
  named→IsNamed attr h =
      let ((name, member), (i, e), same) = any→Member _ values h in
      (member, (i, e ∙ ap (λ n. some (n, member)) (eq→path name attr same)))

  IsNamed→named : (attr : Text) → IsNamed values attr → is_named values attr ≡ true
  unfolding is_named
  IsNamed→named attr (member, m) = Member→any _ values (attr, member) m (eq_refl attr)

  value→Member :
      (attr : Text) (value : ℕ) → is_value_of values attr value ≡ true → Member (attr, value) values
  unfolding is_value_of
  value→Member attr value h =
      let ((name, member), (i, e), both) = any→Member _ values h in
      let same_name : (name == attr) ≡ true = ground arith in
      let same : member ≡ value = ground arith in
      let path = eq→path name attr same_name in
      (i, e ∙ (ap (λ n. some (n, member)) path ∙ ap (λ m. some (attr, m)) same))

  Member→value :
      (attr : Text) (value : ℕ) → Member (attr, value) values → is_value_of values attr value ≡ true
  unfolding is_value_of
  Member→value attr value m =
      let same : nat_eq value value ≡ true = ground arith in
      Member→any _ values (attr, value) m (rw (eq_refl attr, same) refl)

  matches_items→All :
      (items : List (Text × ℕ)) → matches_items values items ≡ true → All (IsAllowed values) items
  unfolding matches_items
  matches_items→All [] h = tt
  matches_items→All ((attr, value) ∷ items) h =
      let rest : matches_items values items ≡ true = ground arith in
      (
        λ named. let yes = IsNamed→named attr named in value→Member attr value (ground arith),
        matches_items→All items rest,
      )

  All→matches_items :
      (items : List (Text × ℕ)) → All (IsAllowed values) items → matches_items values items ≡ true
  unfolding matches_items
  All→matches_items [] h = refl
  All→matches_items ((attr, value) ∷ items) (allowed, h) =
      let rest = All→matches_items items h in
      elim (Bool-cases (is_named values attr)) [
        | inl holds ↦
            let found = Member→value attr value (allowed (named→IsNamed attr holds)) in
            rw (holds, found) rest
        | inr fails ↦ rw fails rest
      ]

-- If the values of a rule can be read, then the rule matches a vector exactly when every
-- attribute of the vector that the rule names has one of the values that the rule gives for it.
pub matches_cvss_iff :
    (rule : CveRescoringRule) (values : List (Text × ℕ)) (cvss : Cvss)
    → parsed_cve_values rule ≡ ok values
    → (matches_cvss rule cvss ≡ ok true) ↔ All (IsAllowed values) (as_dict cvss)
unfolding matches_cvss
matches_cvss_iff rule values cvss read = (
  λ h.
      let told : ok (matches_items values (as_dict cvss)) ≡ ok true = cc in
      matches_items→All values (as_dict cvss) cc,
  λ h. rw (read, All→matches_items values (as_dict cvss) h) refl,
)
