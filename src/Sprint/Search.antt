-- ===== src/Sprint/Search.antt =====
-- src/sprints/util.py: `find_sprint_for_ref_date`.
use odg_core.Prelude.{
  ℕ, suc, ◌-◌, Bool, true, false, not, ◌&&◌, Option, none, some, List, [], ◌∷◌, map, length,
  get_elem?, is_empty, leb, if◌then◌else◌,
}
use odg_core.Prelude.Int.{ℤ, pos, ◌+ℤ◌, pos_part, min_ℤ, max_ℤ}
use odg_core.Prelude.Result.{Result, ok, err, Raised, ◌>>=◌, map_result}
use odg_core.Prelude.Sort.{sorted}
use odg_core.Sprint.Defs.{Sprint, due_date}

-- An item with the date that it is sorted by.
abbrev pub Dated : Type 0 → Type 0
Dated A = ℕ × A

abbrev pub dated_leb : {A : Type 0} → Dated A → Dated A → Bool
dated_leb a b = leb a.0 b.0

-- The index that the loop reaches first with `date >= ref_date`.
unfoldable pub first_from : {A : Type 0} → ℕ → List (Dated A) → Option ℕ
first_from ref [] = none
first_from ref (item ∷ items) = elim (leb ref item.0) [
  | true ↦ some 0
  | false ↦ elim (first_from ref items) [ none ↦ none | some i ↦ some (suc i) ]
]

-- `tgt_idx`, kept between the first and the last sprint
unfoldable pub target_index : ℕ → ℤ → ℕ → ℕ
unfolding ◌+ℤ◌
target_index idx offset count =
    pos_part (min_ℤ (max_ℤ (pos idx +ℤ offset) (pos 0)) (pos (count - 1)))

-- The loop and the fallback to the last item; `none` would be an `IndexError`.
unfoldable pub pick : {A : Type 0} → ℕ → ℤ → List (Dated A) → Option (Dated A)
unfolding first_from target_index
pick ref offset items = elim (first_from ref items) [
  | none ↦ get_elem? items (length items - 1)
  | some idx ↦ get_elem? items (target_index idx offset (length items))
]

-- `sorted(items, key=...)` computes all keys first; then the loop picks from the sorted items.
unfoldable pub choose : {A : Type 0} → ℕ → ℤ → List (Dated A) → Option (Dated A)
unfolding pick sorted
choose ref offset items = pick ref offset (sorted dated_leb items)

unfoldable pub with_due_date : Sprint → Result (Dated Sprint)
with_due_date s = do date ← due_date s; ok (date, s)

abbrev pub items : {A : Type 0} → Option (List A) → List A
items none = []
items (some l) = l

pub data Found (M : Type 0) : Type 0 where
  nothing : Found M
  sprint : Sprint → Found M
  milestone : M → Found M

abbrev pub found_sprint : {M : Type 0} → Option (Dated Sprint) → Found M
found_sprint none = Found.nothing
found_sprint (some item) = Found.sprint item.1

abbrev found_milestone : {M : Type 0} → Option (Dated M) → Found M
found_milestone none = Found.nothing
found_milestone (some item) = Found.milestone item.1

-- Milestones are objects of the GitHub library, with `due_on.date()`.
module _ {M : Type 0} (due_on : M → ℕ) where
  unfoldable pub find_sprint_for_ref_date :
      Option ℕ → Option (List Sprint) → Option (List M) → ℤ → Result (Found M)
  unfolding choose with_due_date
  find_sprint_for_ref_date none sprints milestones offset = ok Found.nothing
  find_sprint_for_ref_date (some ref) sprints milestones offset =
      if is_empty (items sprints) && is_empty (items milestones)
      then ok Found.nothing
      else if not (is_empty (items sprints)) && not (is_empty (items milestones))
      then err Raised.value_error
      else if not (is_empty (items sprints))
      then (do
        dated ← map_result with_due_date (items sprints)
        ok (found_sprint (choose ref offset dated)))
      else ok (found_milestone (choose ref offset (map (λ m. (due_on m, m)) (items milestones))))
