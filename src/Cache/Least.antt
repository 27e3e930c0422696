-- ===== src/Cache/Least.antt =====
-- What and how much `prune_cache` (src/cache_manager.py) deletes.
use odg_core.Prelude.{
  ℕ, suc, ◌+◌, ◌≡◌, refl, ap, ◌≤◌, ◌<◌, ◌⊎◌, inl, inr, Bool, true, false, List, [], ◌∷◌, ◌++◌,
  arith, if◌then◌else◌, Bool-cases, subst, All, All-of_append,
}
use odg_core.Prelude.Int.{ℤ, pos, ◌-ℤ◌, ◌≤ℤ◌, leb_ℤ, -ℤ_parts}
use odg_core.Prelude.Sort.{IsSorted}
use odg_core.Cache.Defs.{CacheEntry, lighter, prune_partition, prune_partitions, prune_cache}

abbrev pub total_size : List CacheEntry → ℕ
total_size [] = 0
total_size (e ∷ entries) = e.size + total_size entries

abbrev pub concat : List (List CacheEntry) → List CacheEntry
concat [] = []
concat (p ∷ partitions) = p ++ concat partitions

-- Pruning without partitions.
prune_entries : ℤ → List CacheEntry → List CacheEntry
prune_entries prunable [] = []
prune_entries prunable (e ∷ entries) =
    let rest = prune_entries (prunable -ℤ pos e.size) entries in
    if leb_ℤ prunable (pos 0) then [] else e ∷ rest

cons_if :
    (b : Bool) (e : CacheEntry) (xs ys : List CacheEntry)
    → e ∷ (if b then xs else xs ++ ys) ≡ (if b then e ∷ xs else e ∷ (xs ++ ys))
cons_if true e xs ys = refl
cons_if false e xs ys = refl

prune_entries-append :
    (prunable : ℤ) (p entries : List CacheEntry)
    → prune_entries prunable (p ++ entries) ≡ (
        if (prune_partition prunable p).is_done
        then (prune_partition prunable p).deleted
        else (prune_partition prunable p).deleted
          ++ prune_entries (prune_partition prunable p).prunable_size entries)
unfolding prune_entries prune_partition
prune_entries-append prunable [] entries = refl
prune_entries-append prunable (e ∷ p) entries = elim (Bool-cases (leb_ℤ prunable (pos 0))) [
  | inl stop ↦ rw stop refl
  | inr go ↦
      rw (go, prune_entries-append (prunable -ℤ pos e.size) p entries)
        (cons_if (prune_partition (prunable -ℤ pos e.size) p).is_done e _ _)
]

prune_partitions-concat :
    (prunable : ℤ) (partitions : List (List CacheEntry))
    → prune_partitions prunable partitions ≡ prune_entries prunable (concat partitions)
unfolding prune_partitions prune_entries
prune_partitions-concat prunable [] = refl
prune_partitions-concat prunable (p ∷ partitions) =
    rw
      (
        prune_entries-append prunable p (concat partitions),
        prune_partitions-concat (prune_partition prunable p).prunable_size partitions,
      )
      refl

-- The entries start with the pruned ones; if others are left, enough was pruned.
prune_entries-IsEnough :
    (prunable : ℤ) (entries : List CacheEntry)
    → (left : List CacheEntry) × (entries ≡ prune_entries prunable entries ++ left)
      × ((left ≡ []) ⊎ (prunable ≤ℤ pos (total_size (prune_entries prunable entries))))
unfolding prune_entries
prune_entries-IsEnough prunable [] = ([], refl, inl refl)
prune_entries-IsEnough prunable (e ∷ entries) = elim (Bool-cases (leb_ℤ prunable (pos 0))) [
  | inl stop ↦ rw (prune_entries, stop) (e ∷ entries, refl, inr (ground arith))
  | inr go ↦
      let (left, split, enough) = prune_entries-IsEnough (prunable -ℤ pos e.size) entries in
      rw (prune_entries, go) (left, ap (λ es. e ∷ es) split, more left enough)
]
  where
    more :
        (left : List CacheEntry)
        → (left ≡ [])
          ⊎ ((prunable -ℤ pos e.size)
              ≤ℤ pos (total_size (prune_entries (prunable -ℤ pos e.size) entries)))
        → (left ≡ [])
          ⊎ (prunable ≤ℤ pos (e.size + total_size (prune_entries (prunable -ℤ pos e.size) entries)))
    more left (inl none_left) = inl none_left
    more left (inr enough) = inr (let parts = -ℤ_parts prunable (pos e.size) in omega arith)

-- Without its last entry less would have been pruned than asked for.
abbrev IsLeast : ℤ → List CacheEntry → Type 0
IsLeast prunable pruned =
    (pruned ≡ [])
    ⊎ ((before : List CacheEntry) × (last : CacheEntry) × (pruned ≡ before ++ last ∷ [])
        × (pos (suc (total_size before)) ≤ℤ prunable))

prune_entries-IsLeast :
    (prunable : ℤ) (entries : List CacheEntry) → IsLeast prunable (prune_entries prunable entries)
unfolding prune_entries
prune_entries-IsLeast prunable [] = inl refl
prune_entries-IsLeast prunable (e ∷ entries) = elim (Bool-cases (leb_ℤ prunable (pos 0))) [
  | inl stop ↦ rw (prune_entries, stop) (inl refl)
  | inr go ↦
      rw (prune_entries, go)
        (more go (prune_entries (prunable -ℤ pos e.size) entries)
          (prune_entries-IsLeast (prunable -ℤ pos e.size) entries))
]
  where
    more :
        leb_ℤ prunable (pos 0) ≡ false
        → (pruned : List CacheEntry) → IsLeast (prunable -ℤ pos e.size) pruned
        → IsLeast prunable (e ∷ pruned)
    more go pruned (inl nothing) = inr ([], e, ap (λ es. e ∷ es) nothing, ground arith)
    more go pruned (inr (before, last, split, less)) =
        let parts = -ℤ_parts prunable (pos e.size) in
        inr (e ∷ before, last, ap (λ es. e ∷ es) split, omega arith)

-- In sorted entries, all of the front may stand before all behind it.
IsSorted-front :
    (xs ys : List CacheEntry)
    → IsSorted lighter (xs ++ ys)
    → All (λ x. All (λ y. lighter x y ≡ true) ys) xs
IsSorted-front [] ys h = tt
IsSorted-front (x ∷ xs) ys h = ((All-of_append _ xs ys h.0).1, IsSorted-front xs ys h.1)

-- If the entries come in the ascending order of their weights, as the query orders them, then
-- pruning deletes entries that weigh at most as much as every entry that is left, enough of them that
-- what is left of the cache's size is at most `min_pruning_bytes`, or all; and without the last of
-- them it would be more.
pub prune_cache-IsLeast :
    (cache_size min_pruning_bytes : ℕ) (partitions : List (List CacheEntry))
    → IsSorted lighter (concat partitions)
    → ((left : List CacheEntry) × (concat partitions
          ≡ prune_cache cache_size min_pruning_bytes partitions ++ left)
        × All
            (λ d. All (λ l. lighter d l ≡ true) left)
            (prune_cache cache_size min_pruning_bytes partitions)
        × ((left ≡ [])
            ⊎ (cache_size
                ≤ total_size (prune_cache cache_size min_pruning_bytes partitions)
                  + min_pruning_bytes)))
      × ((prune_cache cache_size min_pruning_bytes partitions ≡ [])
          ⊎ ((before : List CacheEntry) × (last : CacheEntry) × (prune_cache cache_size
                  min_pruning_bytes partitions
                ≡ before ++ last ∷ [])
              × (total_size before + min_pruning_bytes < cache_size)))
unfolding prune_cache
prune_cache-IsLeast cache_size min_pruning_bytes partitions by_weight =
    let prunable : ℤ = pos cache_size -ℤ pos min_pruning_bytes in
    rw (prune_partitions-concat prunable partitions) (
      (let (left, split, enough) = prune_entries-IsEnough prunable (concat partitions) in
          (
            left,
            split,
            IsSorted-front (prune_entries prunable (concat partitions)) left
                (subst (IsSorted lighter) split by_weight),
            in_bytes _ enough,
          )),
      least_in_bytes (prune_entries-IsLeast prunable (concat partitions)),
    )
  where
    in_bytes :
        {A : Type 0} (t : ℕ)
        → A ⊎ ((pos cache_size -ℤ pos min_pruning_bytes) ≤ℤ pos t)
        → A ⊎ (cache_size ≤ t + min_pruning_bytes)
    in_bytes t (inl a) = inl a
    in_bytes t (inr h) =
        inr (let parts = -ℤ_parts (pos cache_size) (pos min_pruning_bytes) in omega arith)

    least_in_bytes :
        {pruned : List CacheEntry}
        → IsLeast (pos cache_size -ℤ pos min_pruning_bytes) pruned
        → (pruned ≡ [])
          ⊎ ((before : List CacheEntry) × (last : CacheEntry) × (pruned ≡ before ++ last ∷ [])
              × (total_size before + min_pruning_bytes < cache_size))
    least_in_bytes (inl nothing) = inl nothing
    least_in_bytes (inr (before, last, split, less)) =
        let parts = -ℤ_parts (pos cache_size) (pos min_pruning_bytes) in
        inr (before, last, split, omega arith)
