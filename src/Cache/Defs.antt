-- ===== src/Cache/Defs.antt =====
-- src/cache_manager.py: `is_pruning_required` and `prune_cache`. The query orders
-- the entries by the sum of their weighted columns, ascending, and gives them in partitions.
use odg_core.Prelude.{ℕ, Bool, true, false, not, List, [], ◌∷◌, ◌++◌, ltb, if◌then◌else◌}
use odg_core.Prelude.Int.{ℤ, pos, ◌-ℤ◌, leb_ℤ}
use odg_core.Prelude.Text.{Text}

-- A row of `DBCache`, with the value of the expression that the statement orders by, in a fixed
-- fraction of its unit.
pub record CacheEntry : Type 0 where
  pub id : Text
  pub size : ℕ
  pub weight : ℤ

-- `order_by(…)`, ascending: `a` may come before `b`.
abbrev pub lighter : CacheEntry → CacheEntry → Bool
lighter a b = leb_ℤ a.weight b.weight

is_pruning_required : ℕ → ℕ → Bool
is_pruning_required cache_size max_cache_size = not (ltb cache_size max_cache_size)

-- What the loop over a partition leaves: the deleted entries, `prunable_size`, and whether the loop
-- was left by `break`.
pub record Pruned : Type 0 where
  pub deleted : List CacheEntry
  pub prunable_size : ℤ
  pub is_done : Bool

unfoldable pub prune_partition : ℤ → List CacheEntry → Pruned
unfolding ◌-ℤ◌
prune_partition prunable [] = record { deleted = []; prunable_size = prunable; is_done = false }
prune_partition prunable (entry ∷ entries) =
    let rest = prune_partition (prunable -ℤ pos entry.size) entries in
    if leb_ℤ prunable (pos 0)
    then record { deleted = []; prunable_size = prunable; is_done = true }
    else record rest { deleted = entry ∷ rest.deleted }

unfoldable pub prune_partitions : ℤ → List (List CacheEntry) → List CacheEntry
unfolding prune_partition
prune_partitions prunable [] = []
prune_partitions prunable (partition ∷ partitions) =
    let pruned = prune_partition prunable partition in
    let later = prune_partitions pruned.prunable_size partitions in
    if pruned.is_done then pruned.deleted else pruned.deleted ++ later

-- The entries that `prune_cache` deletes
unfoldable pub prune_cache : ℕ → ℕ → List (List CacheEntry) → List CacheEntry
unfolding prune_partitions ◌-ℤ◌
prune_cache cache_size min_pruning_bytes partitions =
    prune_partitions (pos cache_size -ℤ pos min_pruning_bytes) partitions
