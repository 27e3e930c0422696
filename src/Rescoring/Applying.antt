-- ===== src/Rescoring/Applying.antt =====
-- src/rescore/utility.py: `rescore_finding`, which applies rescoring rules to a categorisation.
use odg_core.Prelude.{
  ℕ, suc, ◌-◌, true, false, not, Option, none, some, List, [], ◌∷◌, length, get_elem?, is_empty,
  if◌then◌else◌,
}
use odg_core.Prelude.Int.{ℤ, pos, ◌+ℤ◌, pos_part, min_ℤ, max_ℤ}
use odg_core.Prelude.Result.{Result, ok, err, Raised, ◌>>=◌}
use odg_core.Prelude.Text.{Text, ◌==◌, starts_with, remove_prefix}
use odg_core.Finding.{
  FindingCategorisation, RuleOperation, stepping, named, Rule, Operations, Finding,
  categorisation_by_id, set_to_prefix, lookup_operation, or_no_operations,
}

-- The index at which the loop over `operation.order` meets the current categorisation.
unfoldable pub index_of : Text → List Text → Option ℕ
unfolding ◌==◌
index_of id [] = none
index_of id (x ∷ xs) = elim (x == id) [
  | true ↦ some 0
  | false ↦ elim (index_of id xs) [ none ↦ none | some i ↦ some (suc i) ]
]

-- `next_categorisation_idx`, kept between the ends of `order`
unfoldable pub next_index : ℕ → ℤ → ℕ → ℕ
unfolding ◌+ℤ◌
next_index idx value count = pos_part (max_ℤ (min_ℤ (pos idx +ℤ value) (pos (count - 1))) (pos 0))

-- `operations[rule.operation]` where the operation is one of the keys, and `rule.operation` where
-- it is not. An `Operation` cannot be hashed, so it is no candidate for a key but raises; the test
-- is not made if there are no operations.
unfoldable pub resolve_operation : Operations → RuleOperation → Result RuleOperation
unfolding lookup_operation
resolve_operation operations (stepping o) =
    if is_empty operations then ok (stepping o) else err Raised.type_error
resolve_operation operations (named n) = elim (lookup_operation n operations) [
  | none ↦ ok (named n)
  | some op ↦ ok op
]

-- The id that an operation leads to. An `Operation` that does not list the current categorisation
-- stays an `Operation`, for which no categorisation is found.
unfoldable pub target_id : Text → RuleOperation → Result Text
unfolding index_of next_index starts_with remove_prefix
target_id current (named n) =
    if not (starts_with set_to_prefix n)
    then err Raised.value_error
    else ok (remove_prefix set_to_prefix n)
target_id current (stepping o) = elim (index_of current o.order) [
  | none ↦ err Raised.value_error
  | some idx ↦ elim (get_elem? o.order (next_index idx o.value (length o.order))) [
    | none ↦ err Raised.value_error
    | some id ↦ ok id
  ]
]

-- The body of the loop of `rescore_finding`.
unfoldable pub apply_rule :
    Finding → Operations → FindingCategorisation → Rule → Result FindingCategorisation
unfolding resolve_operation target_id categorisation_by_id
apply_rule cfg operations current rule = do
  operation ← resolve_operation operations rule.operation
  id ← target_id current.id operation
  categorisation_by_id cfg id

unfoldable pub apply_rules :
    Finding → Operations → FindingCategorisation → List Rule → Result FindingCategorisation
unfolding apply_rule
apply_rules cfg operations current [] = ok current
apply_rules cfg operations current (rule ∷ rules) = do
  next ← apply_rule cfg operations current rule
  apply_rules cfg operations next rules

-- `rescore_finding`
unfoldable pub rescore_finding :
    Finding → FindingCategorisation → List Rule → Option Operations → Result FindingCategorisation
unfolding apply_rules
rescore_finding cfg current rules operations =
    apply_rules cfg (or_no_operations operations) current rules
