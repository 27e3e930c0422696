-- ===== src/Backlog/Controller.antt =====
-- src/backlog_controller.py: `on_backlog_change`.
use odg_core.Prelude.{
  ℕ, ◌+◌, ◌-◌, ◌*◌, ◌/◌, min, Bool, true, false, not, ◌&&◌, ◌||◌, Option, none, some, List, [], ◌∷◌,
  any, is_empty, length, leb, if◌then◌else◌, ◌==◌ as nat_eq,
}
use odg_core.Prelude.Result.{Result, ok, err, Raised, ◌>>=◌}
use odg_core.Prelude.Text.{Text, text, ◌==◌}
use odg_core.Backlog.Items.{
  BacklogCrd, get_item, label_claimed, annotation_claimed_by, annotation_claimed_at,
}

pub record BacklogControllerConfigOptions : Type 0 where
  pub max_replicas : ℕ
  pub backlog_items_per_replica : ℕ
  pub remove_claim_after_minutes : ℕ

pub record BacklogControllerConfig : Type 0 where
  pub options : BacklogControllerConfigOptions
  pub extension_options_overwrite : List (Text × BacklogControllerConfigOptions)

unfoldable pub find_overwrite :
    Text → List (Text × BacklogControllerConfigOptions) → Option BacklogControllerConfigOptions
unfolding ◌==◌
find_overwrite service [] = none
find_overwrite service ((s, o) ∷ os) =
    let rest = find_overwrite service os in if s == service then some o else rest

-- `extension_options_overwrite.get(service)`, or the options of the controller itself
unfoldable pub options_for : Text → BacklogControllerConfig → BacklogControllerConfigOptions
unfolding find_overwrite
options_for service cfg = elim (find_overwrite service cfg.extension_options_overwrite) [
  | some overwrite ↦ overwrite
  | none ↦ cfg.options
]

-- A minute in microseconds, the unit of `now` as well
abbrev minute : ℕ
minute = 60000000

-- A date that was read: its microsecond, and whether it has a time zone.
pub record ClaimTime : Type 0 where
  pub microsecond : ℕ
  pub has_zone : Bool

-- `running_pod_names` with the answers to come: the pods are listed again while none are known.
abbrev Pods : Type 0
Pods = List Text × List (List Text)

unfoldable pub list_pods : Pods → Pods
list_pods (pod ∷ pods, answers) = (pod ∷ pods, answers)
list_pods ([], []) = ([], [])
list_pods ([], answer ∷ answers) = (answer, answers)

abbrev pub annotation : Text → BacklogCrd → Result (Option Text)
annotation key crd = elim crd.annotations [
  | none ↦ err Raised.attribute_error
  | some annotations ↦ ok (get_item key annotations)
]

-- `safe_load` is `yaml.safe_load` of a label: the Boolean, `none` for another value, or what it
-- raises. `parse_date` is `dateutil.parser.parse`, of `None` too.
module _ (safe_load : Text → Result (Option Bool))
    (parse_date : Option Text → Result ClaimTime) where
  -- `label_is_true`
  unfoldable pub label_is_true : Text → Result Bool
  label_is_true label =
      safe_load label >>= λ loaded. elim loaded [ none ↦ err Raised.value_error | some b ↦ ok b ]

  -- `label_claimed and label_is_true(label_claimed)`
  unfoldable pub is_claimed : BacklogCrd → Result Bool
  unfolding label_is_true get_item
  is_claimed crd = elim (get_item label_claimed crd.labels) [
    | none ↦ ok false
    | some label ↦ if is_empty label then ok false else label_is_true label
  ]

  -- The test of the loop for an item that is claimed: whether its claim is removed.
  unfoldable pub is_released : ℕ → ℕ → List Text → Option Text → ClaimTime → Bool
  unfolding any ◌==◌
  is_released minutes now pods claimed_by claimed_at =
      let is_gone : Bool = elim claimed_by [
        | none ↦ false
        | some pod ↦ not (is_empty pod) && not (any (λ p. p == pod) pods)
      ] in
      is_gone || (claimed_at.has_zone && leb (claimed_at.microsecond + minutes * minute) now)

  -- The claimed item's annotations, and the decision.
  unfoldable pub to_release : ℕ → ℕ → List Text → BacklogCrd → Result Bool
  unfolding is_released get_item
  to_release minutes now pods crd = do
    claimed_by ← annotation annotation_claimed_by crd
    claimed_at_text ← annotation annotation_claimed_at crd
    claimed_at ← parse_date claimed_at_text
    ok (is_released minutes now pods claimed_by claimed_at)

  -- The items whose claim is removed, in order. `remove_claim` is called for each, and is a
  -- function here of the item: `none` if it does not return.
  module _ (remove : BacklogCrd → Option (Result BacklogCrd)) where
    unfoldable pub attempt :
        BacklogCrd → Option (Result (List BacklogCrd)) → Option (Result (List BacklogCrd))
    attempt crd rest = elim (remove crd) [
      | none ↦ none
      | some (err e) ↦ some (err e)
      | some (ok changed) ↦ elim rest [
        | none ↦ none
        | some (err e) ↦ some (err e)
        | some (ok others) ↦ some (ok (changed ∷ others))
      ]
    ]

    -- The loop over the items of the service
    unfoldable pub release_claims :
        ℕ → ℕ → Pods → List BacklogCrd → Option (Result (List BacklogCrd))
    unfolding is_claimed list_pods to_release attempt
    release_claims minutes now pods [] = some (ok [])
    release_claims minutes now pods (crd ∷ crds) = elim (is_claimed crd) [
      | err e ↦ some (err e)
      | ok false ↦ release_claims minutes now pods crds
      | ok true ↦ elim (to_release minutes now (list_pods pods).0 crd) [
        | err e ↦ some (err e)
        | ok false ↦ release_claims minutes now (list_pods pods) crds
        | ok true ↦ attempt crd (release_claims minutes now (list_pods pods) crds)
      ]
    ]

-- The limits for two of the services
unfoldable pub limit_replicas : Text → ℕ → ℕ
unfolding ◌==◌
limit_replicas service max_replicas =
    if service == text "issueReplicator"
    then 1
    else if service == text "blackduck"
    then 2
    else max_replicas

-- `min(math.ceil(n / items_per_replica), max_replicas)`
unfoldable pub desired_replicas : ℕ → ℕ → ℕ → Result ℕ
desired_replicas n items_per_replica max_replicas =
    if nat_eq items_per_replica 0
    then err Raised.zero_division_error
    else ok (min ((n + items_per_replica - 1) / items_per_replica) max_replicas)

-- What follows the loop
unfoldable pub scale_after :
    ℕ → ℕ → ℕ → Option (Result (List BacklogCrd)) → Option (Result (List BacklogCrd × ℕ))
unfolding desired_replicas
scale_after n items_per_replica limit none = none
scale_after n items_per_replica limit (some (err e)) = some (err e)
scale_after n items_per_replica limit (some (ok changed)) =
    some (desired_replicas n items_per_replica limit >>= λ replicas. ok (changed, replicas))

-- `on_backlog_change`: the items whose claims were removed, and the replicas to which the service is
-- scaled.
unfoldable pub on_backlog_change :
    (Text → Result (Option Bool))
    → (Option Text → Result ClaimTime)
    → (BacklogCrd → Option (Result BacklogCrd))
    → BacklogControllerConfig
    → Text
    → ℕ
    → List (List Text)
    → List BacklogCrd
    → Option (Result (List BacklogCrd × ℕ))
unfolding options_for release_claims limit_replicas scale_after
on_backlog_change safe_load parse_date remove cfg service now pod_answers crds =
    let options = options_for service cfg in
    scale_after (length crds) options.backlog_items_per_replica
      (limit_replicas service options.max_replicas)
      (release_claims safe_load parse_date remove options.remove_claim_after_minutes now
        ([], pod_answers) crds)
