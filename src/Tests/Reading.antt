-- ===== src/Tests/Reading.antt =====
-- Examples on vectors of the CVSS and on the pruning of the cache.
use odg_core.Prelude.{ℕ, ◌+◌, ◌≡◌, refl, ◌≤◌, ◌<◌, ◌⊎◌, true, List, [], ◌∷◌, ◌++◌, All}
use odg_core.Prelude.Int.{pos}
use odg_core.Prelude.Sort.{IsSorted}
use odg_core.Prelude.Result.{ok, err, Raised}
use odg_core.Prelude.Text.{text}
use odg_core.Cvss.{
  AccessVector, AttackComplexity, UserInteraction, Scope, Level, Cvss, parse, print,
}
use odg_core.Cvss.Roundtrip.{parse-print}
use odg_core.Cache.{CacheEntry, lighter, prune_cache}
use odg_core.Cache.Least.{total_size, concat, prune_cache-IsLeast}

abbrev remote : Cvss
remote = record {
  access_vector = AccessVector.network;
  attack_complexity = AttackComplexity.low;
  user_interaction = UserInteraction.required;
  privileges_required = Level.absent;
  scope = Scope.changed;
  confidentiality = Level.high;
  integrity = Level.low;
  availability = Level.absent;
}

written : print remote ≡ text "AV:N/AC:L/PR:N/UI:R/S:C/C:H/I:L/A:N"
unfolding print
written = refl

with_version : parse (text "CVSS:3.1/AV:N/AC:L/PR:N/UI:R/S:C/C:H/I:L/A:N") ≡ ok remote
unfolding parse
with_version = refl

incomplete : parse (text "AV:N/AC:L") ≡ err Raised.key_error
unfolding parse
incomplete = refl

parse-print_example : parse (print remote) ≡ ok remote
parse-print_example = parse-print remote

-- An entry of the given size and weight
abbrev entry : ℕ → ℕ → CacheEntry
entry n w = record { id = text "x"; size = n; weight = pos w }

abbrev two_partitions : List (List CacheEntry)
two_partitions = (entry 30 1 ∷ entry 40 2 ∷ []) ∷ (entry 20 2 ∷ entry 10 5 ∷ []) ∷ []

three_pruned : prune_cache 100 20 two_partitions ≡ entry 30 1 ∷ entry 40 2 ∷ entry 20 2 ∷ []
unfolding prune_cache
three_pruned = refl

by_weight : IsSorted lighter (concat two_partitions)
by_weight = ((refl, (refl, (refl, tt))), ((refl, (refl, tt)), ((refl, tt), (tt, tt))))

prune_cache-IsLeast_example :
    ((left : List CacheEntry) × (concat two_partitions ≡ prune_cache 100 20 two_partitions ++ left)
      × All (λ d. All (λ l. lighter d l ≡ true) left) (prune_cache 100 20 two_partitions)
      × ((left ≡ []) ⊎ (100 ≤ total_size (prune_cache 100 20 two_partitions) + 20)))
    × ((prune_cache 100 20 two_partitions ≡ [])
        ⊎ ((before : List CacheEntry) × (last : CacheEntry) × (prune_cache 100 20 two_partitions
              ≡ before ++ last ∷ [])
            × (total_size before + 20 < 100)))
prune_cache-IsLeast_example = prune_cache-IsLeast 100 20 two_partitions by_weight
