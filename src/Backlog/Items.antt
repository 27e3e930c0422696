-- ===== src/Backlog/Items.antt =====
-- src/k8s/backlog.py: backlog items as custom resources, their creation, and dicts of labels.
use odg_core.Prelude.{ℕ, Bool, true, false, Option, none, some, List, [], ◌∷◌, ltb, if◌then◌else◌}
use odg_core.Prelude.Result.{Result, ok, err, Raised, ◌>>=◌}
use odg_core.Prelude.Text.{Text, text, ◌==◌}

-- A `dict[str, str]`
abbrev pub Dict : Type 0
Dict = List (Text × Text)

unfoldable pub get_item : Text → Dict → Option Text
unfolding ◌==◌
get_item k [] = none
get_item k ((j, v) ∷ d) = let rest = get_item k d in if j == k then some v else rest

-- `d[k] = v`
unfoldable pub set_item : Text → Text → Dict → Dict
unfolding ◌==◌
set_item k v [] = (k, v) ∷ []
set_item k v ((j, w) ∷ d) =
    let rest = set_item k v d in if j == k then (j, v) ∷ d else (j, w) ∷ rest

-- `del d[k]`
unfoldable pub del_item : Text → Dict → Result Dict
unfolding ◌==◌
del_item k [] = err Raised.key_error
del_item k ((j, w) ∷ d) =
    let rest = del_item k d >>= λ d'. ok ((j, w) ∷ d') in if j == k then ok d else rest

-- The custom resource, with the parts of its metadata and spec that the code reads; no annotations
-- are `none`.
pub record BacklogCrd : Type 0 where
  pub name : Text
  pub resource_version : ℕ
  pub labels : Dict
  pub annotations : Option Dict
  pub priority : ℕ
  pub timestamp : Text

abbrev pub label_claimed : Text
label_claimed = text "delivery-gear.gardener.cloud/claimed"

abbrev pub annotation_claimed_by : Text
annotation_claimed_by = text "delivery-gear.gardener.cloud/claimed-by"

abbrev pub annotation_claimed_at : Text
annotation_claimed_at = text "delivery-gear.gardener.cloud/claimed-at"

-- The status of an `ApiException`.
pub data HttpStatus : Type 0 where
  conflict not_found gone other_status : HttpStatus

-- What a call of the API gives.
pub data Answer {ℓ} (A : Type ℓ) : Type ℓ where
  refused : HttpStatus → Answer A
  answered : A → Answer A

abbrev pub is_conflict : HttpStatus → Bool
is_conflict HttpStatus.conflict = true
is_conflict _ = false

abbrev pub is_not_found : HttpStatus → Bool
is_not_found HttpStatus.not_found = true
is_not_found _ = false

-- `find_backlog_item` from the answer to its call
unfoldable pub find_backlog_item : Answer BacklogCrd → Result (Option BacklogCrd)
find_backlog_item (answered crd) = ok (some crd)
find_backlog_item (refused s) = if is_not_found s then ok none else err Raised.api_exception

-- What `create_backlog_item` does with the item that it reloaded: `patch` is the answer to the patch.
unfoldable pub raise_priority :
    ℕ → (BacklogCrd → Answer (Unit {0})) → Option BacklogCrd → Result (Bool × Option BacklogCrd)
raise_priority priority patch none = err Raised.runtime_error
raise_priority priority patch (some crd) =
    let raised = record crd { priority = priority } in
    let sent : Result (Bool × Option BacklogCrd) = elim (patch raised) [
      | answered u ↦ ok (false, some raised)
      | refused s ↦ err Raised.api_exception
    ] in
    if ltb crd.priority priority then sent else ok (false, none)

-- `create_backlog_item` from the answers to its calls: whether an item was created, and the patch
-- that was sent.
unfoldable pub create_backlog_item :
    Answer (Unit {0})
    → Answer BacklogCrd
    → ℕ
    → (BacklogCrd → Answer (Unit {0}))
    → Result (Bool × Option BacklogCrd)
unfolding find_backlog_item raise_priority
create_backlog_item (answered created) reloaded priority patch = ok (true, none)
create_backlog_item (refused s) reloaded priority patch =
    if is_conflict s
    then find_backlog_item reloaded >>= raise_priority priority patch
    else err Raised.api_exception

-- `update_backlog_crd`: an item that is gone was already processed.
unfoldable pub update_backlog_crd : Answer (Unit {0}) → Result (Unit {0})
update_backlog_crd (answered done) = ok tt
update_backlog_crd (refused s) = if is_not_found s then ok tt else err Raised.api_exception
