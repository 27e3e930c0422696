-- ===== src/Backlog/Scaled.antt =====
-- To how many replicas `on_backlog_change` (src/backlog_controller.py) scales a service.
use odg_core.Prelude.{
  ℕ, ◌+◌, ◌-◌, ◌*◌, ◌/◌, ◌≤◌, ◌<◌, ◌≡◌, subst, ◌⊎◌, inl, inr, min, Bool, true, false, refl, Option,
  none, some, List, [], ◌∷◌, arith, length, All, ap, ◌∙◌, Bool-cases, ◌==◌ as nat_eq,
}
use odg_core.Prelude.Result.{Result, ok, err, ◌>>=◌, >>=-eq-ok}
use odg_core.Prelude.Text.{Text}
use odg_core.Backlog.Items.{
  BacklogCrd, Dict, get_item, annotation_claimed_by, annotation_claimed_at,
}
use odg_core.Backlog.Controller.{
  BacklogControllerConfig, ClaimTime, options_for, is_claimed, is_released, to_release, list_pods,
  attempt, release_claims, limit_replicas, desired_replicas, scale_after, on_backlog_change,
}

-- As many replicas as the items need, but at most `limit`.
abbrev pub IsScaled : ℕ → ℕ → ℕ → ℕ → Type 0
IsScaled n items limit replicas =
    (replicas ≤ limit)
    × ((replicas ≡ limit) ⊎ (n ≤ replicas * items))
    × (replicas * items < n + items)

div_bounds : (n k : ℕ) → 0 < k → (n / k * k ≤ n) × (n < n / k * k + k)
div_bounds n k h = grind arith

min-IsScaled :
    (q n items limit : ℕ)
    → q * items < n + items
    → n ≤ q * items
    → IsScaled n items limit (min q limit)
min-IsScaled q n items limit h g = grind arith

desired_replicas-IsScaled :
    (n items limit replicas : ℕ)
    → desired_replicas n items limit ≡ ok replicas
    → IsScaled n items limit replicas
unfolding desired_replicas
desired_replicas-IsScaled n items limit replicas e = elim (Bool-cases (nat_eq items 0)) [
  | inl zero_items ↦ absurd (ground arith)
  | inr some_items ↦
      let positive : 0 < items = ground arith in
      let (low, high) = div_bounds (n + items - 1) items positive in
      let scaled =
        min-IsScaled ((n + items - 1) / items) n items limit (omega arith) (omega arith) in
      let same : min ((n + items - 1) / items) limit ≡ replicas = ground arith in
      subst (IsScaled n items limit) same scaled
]

scale_after-IsScaled :
    (n items limit replicas : ℕ) (released : Option (Result (List BacklogCrd)))
    (changed : List BacklogCrd)
    → scale_after n items limit released ≡ some (ok (changed, replicas))
    → IsScaled n items limit replicas
unfolding scale_after
scale_after-IsScaled n items limit replicas none changed e = cc
scale_after-IsScaled n items limit replicas (some (err r)) changed e = cc
scale_after-IsScaled n items limit replicas (some (ok changed')) changed e =
    let tell : ℕ → Result (List BacklogCrd × ℕ) = λ r. ok (changed', r) in
    let scaled : (desired_replicas n items limit >>= tell) ≡ ok (changed, replicas) = cc in
    let (r, decided, same) = >>=-eq-ok (desired_replicas n items limit) tell scaled in
    let same' : r ≡ replicas = cc in
    subst (IsScaled n items limit) same' (desired_replicas-IsScaled n items limit r decided)

module _ (safe_load : Text → Result (Option Bool)) (parse_date : Option Text → Result ClaimTime)
    (remove : BacklogCrd → Option (Result BacklogCrd)) where
  -- Whenever on_backlog_change returns, the replicas are so.
  on_backlog_change-IsScaled :
      (cfg : BacklogControllerConfig) (service : Text) (now : ℕ) (pods : List (List Text))
      (crds changed : List BacklogCrd) (replicas : ℕ)
      → on_backlog_change safe_load parse_date remove cfg service now pods crds
        ≡ some (ok (changed, replicas))
      → IsScaled
          (length crds)
          (options_for service cfg).backlog_items_per_replica
          (limit_replicas service (options_for service cfg).max_replicas)
          replicas
  unfolding on_backlog_change
  on_backlog_change-IsScaled cfg service now pods crds changed replicas e =
      scale_after-IsScaled _ _ _ replicas _ changed e

  -- The labels of the item are read, and if it is claimed, then its annotations are too, and
  -- `remove_claim` would return for it.
  pub record IsReadable (crd : BacklogCrd) : Type 0 where
    pub claimed : Bool
    pub labelled : is_claimed safe_load parse_date crd ≡ ok claimed
    pub annotated :
        claimed ≡ true
        → (annotations : Dict) × (crd.annotations ≡ some annotations)
          × ((time : ClaimTime) × (parse_date (get_item annotation_claimed_at annotations)
                ≡ ok time))
          × ((changed : BacklogCrd) × (remove crd ≡ some (ok changed)))

  to_release_total :
      (minutes now : ℕ) (pods : List Text) (crd : BacklogCrd) (annotations : Dict)
      (time : ClaimTime)
      → crd.annotations ≡ some annotations
      → parse_date (get_item annotation_claimed_at annotations) ≡ ok time
      → (released : Bool) × (to_release safe_load parse_date minutes now pods crd ≡ ok released)
  unfolding to_release
  to_release_total minutes now pods crd annotations time known read = (
    is_released safe_load parse_date minutes now pods (get_item annotation_claimed_by annotations)
        time,
    rw (known, read) refl,
  )

  release_claims_removed :
      (minutes now : ℕ) (pods : List Text × List (List Text)) (crd c : BacklogCrd)
      (crds changed : List BacklogCrd)
      → is_claimed safe_load parse_date crd ≡ ok true
      → to_release safe_load parse_date minutes now (list_pods pods).0 crd ≡ ok true
      → remove crd ≡ some (ok c)
      → release_claims safe_load parse_date remove minutes now (list_pods pods) crds
        ≡ some (ok changed)
      → release_claims safe_load parse_date remove minutes now pods (crd ∷ crds)
        ≡ some (ok (c ∷ changed))
  unfolding release_claims attempt
  release_claims_removed minutes now pods crd c crds changed labelled decided removed rest =
      rw (release_claims, labelled, decided, attempt, removed, rest) refl

  release_claims_total :
      (minutes now : ℕ) (pods : List Text × List (List Text)) (crds : List BacklogCrd)
      → All IsReadable crds
      → (changed : List BacklogCrd) × (release_claims safe_load parse_date remove minutes now pods
            crds
          ≡ some (ok changed))
  unfolding release_claims attempt
  release_claims_total minutes now pods [] h = ([], refl)
  release_claims_total minutes now pods (crd ∷ crds) (readable, h) =
      elim (Bool-cases readable.claimed) [
        | inr unclaimed ↦
            let (changed, rest) = release_claims_total minutes now pods crds h in
            let labelled : is_claimed safe_load parse_date crd ≡ ok false =
              readable.labelled ∙ ap ok unclaimed in
            (changed, rw (release_claims, labelled) rest)
        | inl claimed ↦
            let (annotations, known, (time, read), (c, removed)) = readable.annotated claimed in
            let (changed, rest) = release_claims_total minutes now (list_pods pods) crds h in
            let (released, decided) =
              to_release_total minutes now (list_pods pods).0 crd annotations time known read in
            let labelled : is_claimed safe_load parse_date crd ≡ ok true =
              readable.labelled ∙ ap ok claimed in
            elim (Bool-cases released) [
              | inl gone ↦
                  let decided' : to_release safe_load parse_date minutes now (list_pods pods).0 crd
                      ≡ ok true =
                    decided ∙ ap ok gone in
                  (
                    c ∷ changed,
                    release_claims_removed minutes now pods crd c crds changed labelled decided'
                        removed rest,
                  )
              | inr stays ↦
                  let decided' : to_release safe_load parse_date minutes now (list_pods pods).0 crd
                      ≡ ok false =
                    decided ∙ ap ok stays in
                  (changed, rw (release_claims, labelled, decided') rest)
            ]
      ]

  -- If labels, annotations and dates of all items are readable, remove_claim returns for the claimed
  -- ones, and the number of items per replica is not 0, then on_backlog_change returns, and it
  -- scales to at most the configured number of replicas (1 for the issue replicator and 2 for
  -- BlackDuck), to that number or to enough replicas for all items, and to no replica more than the
  -- items need; so to none without items.
  pub on_backlog_change-Scales :
      (cfg : BacklogControllerConfig) (service : Text) (now : ℕ) (pods : List (List Text))
      (crds : List BacklogCrd)
      → All IsReadable crds
      → 0 < (options_for service cfg).backlog_items_per_replica
      → (changed : List BacklogCrd) × (replicas : ℕ) × (on_backlog_change safe_load parse_date
            remove cfg service now pods crds
          ≡ some (ok (changed, replicas)))
        × IsScaled
            (length crds)
            (options_for service cfg).backlog_items_per_replica
            (limit_replicas service (options_for service cfg).max_replicas)
            replicas
  unfolding on_backlog_change scale_after desired_replicas
  on_backlog_change-Scales cfg service now pods crds readable positive =
      let options = options_for service cfg in
      let limit = limit_replicas service options.max_replicas in
      let (changed, released) =
        release_claims_total options.remove_claim_after_minutes now ([], pods) crds readable in
      let replicas =
        min
          ((length crds + options.backlog_items_per_replica - 1)
            / options.backlog_items_per_replica)
          limit in
      let some_items : nat_eq options.backlog_items_per_replica 0 ≡ false = ground arith in
      let e : on_backlog_change safe_load parse_date remove cfg service now pods crds
          ≡ some (ok (changed, replicas)) =
        rw (released, some_items) refl in
      (
        changed,
        replicas,
        e,
        on_backlog_change-IsScaled cfg service now pods crds changed replicas e,
      )
