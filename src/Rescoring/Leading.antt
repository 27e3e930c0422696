-- ===== src/Rescoring/Leading.antt =====
-- src/rescore/utility.py: what an operation needs for `rescore_finding` to raise nothing.
use odg_core.Prelude.{
  ℕ, zero, suc, ◌≡◌, refl, ◌<◌, inl, inr, true, false, some, List, [], ◌∷◌, arith, All, Member,
  All→Member, get_elem?_total, get_elem?-lt, length, Bool-cases, Option-cases,
}
use odg_core.Prelude.Int.{ℤ, ◌+ℤ◌}
use odg_core.Prelude.Result.{ok}
use odg_core.Prelude.Text.{Text, ◌==◌, path→eq, starts_with, remove_prefix}
use odg_core.Finding.{
  FindingCategorisation, RuleOperation, stepping, named, Rule, Operations, Finding, find_category,
  categorisation_by_id?, categorisation_by_id, set_to_prefix, is_some,
}
use odg_core.Rescoring.Applying.{
  index_of, next_index, resolve_operation, target_id, apply_rule, apply_rules,
}

-- The id is that of a categorisation.
abbrev pub IsKnown : Finding → Text → Type 0
IsKnown cfg id = is_some (categorisation_by_id? cfg id) ≡ true

-- What an operation needs to lead from any categorisation to another: a text names a
-- categorisation behind its prefix, and an order lists all categorisations and nothing else.
abbrev pub Leads : Finding → RuleOperation → Type 0
Leads cfg (named n) =
    (starts_with set_to_prefix n ≡ true) × IsKnown cfg (remove_prefix set_to_prefix n)
Leads cfg (stepping o) =
    All (IsKnown cfg) o.order × All (λ c. Member c.id o.order) cfg.categorisations

find_category-Member :
    (id : Text) (cs : List FindingCategorisation) (c : FindingCategorisation)
    → find_category id cs ≡ some c
    → Member c cs
unfolding find_category
find_category-Member id [] c e = cc
find_category-Member id (x ∷ xs) c e = elim (Bool-cases (x.id == id)) [
  | inl t ↦ (0, rw t at e)
  | inr f ↦ let (i, at) = find_category-Member id xs c (rw f at e) in (suc i, at)
]

categorisation_by_id_total :
    (cfg : Finding) (id : Text)
    → IsKnown cfg id
    → (c : FindingCategorisation) × Member c cfg.categorisations
      × (categorisation_by_id cfg id ≡ ok c)
unfolding categorisation_by_id? categorisation_by_id
categorisation_by_id_total cfg id h = elim (Option-cases (find_category id cfg.categorisations)) [
  | inl e ↦ let h' : false ≡ true = rw e at h in cc
  | inr (c, e) ↦
      (c, find_category-Member id cfg.categorisations c e, rw (categorisation_by_id, e) refl)
]

index_of_total : (id : Text) (xs : List Text) → Member id xs → (i : ℕ) × (index_of id xs ≡ some i)
unfolding index_of
index_of_total id [] (i, e) = cc
index_of_total id (x ∷ xs) (zero, e) =
    let t : (x == id) ≡ true = path→eq x id (cc) in (0, rw (index_of, t) refl)
index_of_total id (x ∷ xs) (suc i, e) = elim (Bool-cases (x == id)) [
  | inl t ↦ (0, rw (index_of, t) refl)
  | inr f ↦ let (j, h) = index_of_total id xs (i, e) in (suc j, rw (index_of, f, h) refl)
]

-- The next index stays within a list that has an item.
next_index-lt : (idx : ℕ) (value : ℤ) (count : ℕ) → 0 < count → next_index idx value count < count
unfolding next_index ◌+ℤ◌
next_index-lt idx value count h = ground arith

Member-length : (id : Text) (xs : List Text) → Member id xs → 0 < length xs
Member-length id xs (i, e) = omega (arith, get_elem?-lt xs i id e)

-- An operation that leads from any categorisation to another one does so from the current one.
Leads-target :
    (cfg : Finding) (current : FindingCategorisation) (op : RuleOperation)
    → Leads cfg op
    → Member current cfg.categorisations
    → (id : Text) × IsKnown cfg id × (target_id current.id op ≡ ok id)
unfolding target_id
Leads-target cfg current (named n) (prefixed, known) m =
    (remove_prefix set_to_prefix n, known, rw prefixed refl)
Leads-target cfg current (stepping o) (known, covered) m =
    let listed = All→Member (λ c. Member c.id o.order) cfg.categorisations current covered m in
    let (i, at) = index_of_total current.id o.order listed in
    let bound =
      next_index-lt i o.value (length o.order) (Member-length current.id o.order listed) in
    let (id, found) = get_elem?_total o.order (next_index i o.value (length o.order)) bound in
    (
      id,
      All→Member (IsKnown cfg) o.order id known (next_index i o.value (length o.order), found),
      rw (target_id, at, found) refl,
    )

apply_rule_total :
    (cfg : Finding) (operations : Operations) (current : FindingCategorisation) (rule : Rule)
    → (op : RuleOperation) × (resolve_operation operations rule.operation ≡ ok op) × Leads cfg op
    → Member current cfg.categorisations
    → (c : FindingCategorisation) × Member c cfg.categorisations
      × (apply_rule cfg operations current rule ≡ ok c)
unfolding apply_rule
apply_rule_total cfg operations current rule (op, resolved, leads) m =
    let (id, known, target) = Leads-target cfg current op leads m in
    let (c, member, found) = categorisation_by_id_total cfg id known in
    (c, member, rw (resolved, target) found)

-- The rules that match a finding are among those of the rule set.
abbrev pub Resolves : Finding → Operations → Rule → Type 0
Resolves cfg operations rule =
    (op : RuleOperation) × (resolve_operation operations rule.operation ≡ ok op) × Leads cfg op

pub apply_rules_total :
    (cfg : Finding) (operations : Operations) (current : FindingCategorisation) (rules : List Rule)
    → All (Resolves cfg operations) rules
    → Member current cfg.categorisations
    → (c : FindingCategorisation) × Member c cfg.categorisations
      × (apply_rules cfg operations current rules ≡ ok c)
unfolding apply_rules
apply_rules_total cfg operations current [] h m = (current, m, refl)
apply_rules_total cfg operations current (rule ∷ rules) h m =
    let (next, member, e) = apply_rule_total cfg operations current rule h.0 m in
    let (c, member', e') = apply_rules_total cfg operations next rules h.1 member in
    (c, member', rw (apply_rules, e) e')
