-- ===== src/Backlog/Claims.antt =====
-- src/k8s/backlog.py: `get_backlog_crd_and_claim` and `remove_claim`.
use odg_core.Prelude.{
  ℕ, suc, Bool, false, ◌&&◌, ◌||◌, Option, none, some, List, [], ◌∷◌, ltb, leb, if◌then◌else◌,
  ◌==◌ as nat_eq,
}
use odg_core.Prelude.Result.{Result, ok, err, Raised, ◌>>=◌, map_result}
use odg_core.Prelude.Sort.{sorted}
use odg_core.Prelude.Text.{Text, text, text_leb}
use odg_core.Backlog.Items.{
  Dict, set_item, del_item, BacklogCrd, label_claimed, annotation_claimed_by, annotation_claimed_at,
  Answer, refused, answered, is_conflict,
}

-- `BacklogPriorities(priority)`, which raises for other numbers
unfoldable pub check_priority : BacklogCrd → Result (Unit {0})
check_priority crd =
    let p = crd.priority in
    if leb p 2 || (nat_eq p 4 || nat_eq p 8) then ok tt else err Raised.value_error

-- The comparison of the keys: the higher priority first, then the earlier timestamp.
unfoldable pub may_precede : BacklogCrd → BacklogCrd → Bool
unfolding text_leb
may_precede a b =
    ltb b.priority a.priority || (nat_eq a.priority b.priority && text_leb a.timestamp b.timestamp)

abbrev pub front : List BacklogCrd → Option BacklogCrd
front [] = none
front (crd ∷ crds) = some crd

-- `backlog_crds.sort(...)` and `backlog_crds[0]`, or `None` for an empty list
unfoldable pub select_crd : List BacklogCrd → Result (Option BacklogCrd)
unfolding check_priority may_precede sorted
select_crd crds = do checked ← map_result check_priority crds; ok (front (sorted may_precede crds))

abbrev pub or_empty : Option Dict → Dict
or_empty none = []
or_empty (some d) = d

-- The item with the claim of the host, as it is sent to the API.
unfoldable pub claimed_by_host : Text → Text → BacklogCrd → BacklogCrd
unfolding set_item
claimed_by_host host now crd = record crd {
  labels = set_item label_claimed (text "True") crd.labels;
  annotations = some (
      set_item annotation_claimed_at now
        (set_item annotation_claimed_by host (or_empty crd.annotations)));
}

-- What the API answers in one round: the items of the service that are not claimed, and, after the
-- item is sent, the replacement.
pub record Round : Type 0 where
  pub listed : Answer (List BacklogCrd)
  pub replaced : Answer (Unit {0})

-- The call is done, or it still waits after a conflict.
pub data Claiming : Type 0 where
  done : Result (Option BacklogCrd) → Claiming
  waiting : Claiming

-- What follows the replacement: a conflict leads to another round.
unfoldable pub after_replace : BacklogCrd → Claiming → Answer (Unit {0}) → Claiming
after_replace crd retry (answered tt) = done (ok (some crd))
after_replace crd retry (refused s) =
    if is_conflict s then retry else done (err Raised.api_exception)

-- What follows the choice of an item.
unfoldable pub after_select :
    Text → Text → Bool → Answer (Unit {0}) → Claiming → Result (Option BacklogCrd) → Claiming
unfolding after_replace claimed_by_host
after_select host now shortcut_claim replaced retry (err e) = done (err e)
after_select host now shortcut_claim replaced retry (ok none) = done (ok none)
after_select host now shortcut_claim replaced retry (ok (some crd)) =
    if shortcut_claim
    then done (ok (some crd))
    else after_replace (claimed_by_host host now crd) retry replaced

-- One round of `get_backlog_crd_and_claim`, and what follows a conflict.
unfoldable pub claim_round : Text → Text → Bool → Round → Claiming → Claiming
unfolding select_crd after_select
claim_round host now shortcut_claim round retry = elim round.listed [
  | refused s ↦ done (err Raised.api_exception)
  | answered crds ↦ after_select host now shortcut_claim round.replaced retry (select_crd crds)
]

-- `get_backlog_crd_and_claim` against the answers of the API, with the time of each round. The
-- recursive call leaves `shortcut_claim` to its default.
unfoldable pub get_backlog_crd_and_claim : Text → Bool → List (Text × Round) → Claiming
unfolding claim_round
get_backlog_crd_and_claim host shortcut_claim [] = waiting
get_backlog_crd_and_claim host shortcut_claim ((now, round) ∷ rounds) =
    claim_round host now shortcut_claim round (get_backlog_crd_and_claim host false rounds)

-- The changes that `remove_claim` makes to the item in place, by its annotations
unfoldable pub released_with : Option Dict → BacklogCrd → Result BacklogCrd
unfolding set_item del_item
released_with none crd = err Raised.type_error
released_with (some annotations) crd = do
  without_by ← del_item annotation_claimed_by annotations
  without_at ← del_item annotation_claimed_at without_by
  ok (record crd {
    labels = set_item label_claimed (text "False") crd.labels;
    annotations = some without_at;
  })

unfoldable pub released : BacklogCrd → Result BacklogCrd
unfolding released_with
released crd = released_with crd.annotations crd

-- `remove_claim` against the answers of the API to its attempts. The attempts go on with the item
-- that the earlier ones changed. Without a further answer it waits: `none`.
unfoldable pub remove_claim :
    ℕ → ℕ → BacklogCrd → List (Answer (Unit {0})) → Option (Result BacklogCrd)
unfolding released
remove_claim max_retries retry_count crd [] = elim (released crd) [
  | err e ↦ some (err e)
  | ok changed ↦ none
]
remove_claim max_retries retry_count crd (answer ∷ answers) = elim (released crd) [
  | err e ↦ some (err e)
  | ok changed ↦ elim answer [
    | answered tt ↦ some (ok changed)
    | refused s ↦
        if is_conflict s && ltb retry_count max_retries
        then remove_claim max_retries (suc retry_count) changed answers
        else some (err Raised.api_exception)
  ]
]
