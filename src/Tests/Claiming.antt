-- ===== src/Tests/Claiming.antt =====
-- Examples on the backlog: an API that stores one item, and pods that claim it.
use odg_core.Prelude.{
  ℕ, suc, ◌≤◌, ◌<◌, ◌≡◌, ◌≢◌, refl, sym, ap, subst, ◌∙◌, Bool, true, false, ◌&&◌, Option, none,
  some, List, [], ◌∷◌, arith, Member, get_elem?, Bool-cases, inl, inr, if◌then◌else◌,
  ◌==◌ as nat_eq,
}
use odg_core.Prelude.Result.{Result, ok, err, Raised}
use odg_core.Prelude.Text.{Text, text, ◌==◌, eq→path, eq_refl}
use odg_core.Backlog.{
  BacklogCrd, Dict, get_item, label_claimed, annotation_claimed_by, annotation_claimed_at,
  HttpStatus, refused, answered, claimed_by_host, Round, done, get_backlog_crd_and_claim,
  remove_claim, BacklogControllerConfig, BacklogControllerConfigOptions, ClaimTime, options_for,
  limit_replicas, on_backlog_change, set_item, released, select_crd, KubernetesApi, IsOptimistic,
  IsClaimedBy, System, Step, Reach,
}
use odg_core.Backlog.Urgent.{
  Claims, get_backlog_crd_and_claim-Claims, get_backlog_crd_and_claim_ends,
}
use odg_core.Backlog.Retried.{remove_claim-conflict}
use odg_core.Backlog.Scaled.{IsScaled, on_backlog_change-Scales}
use odg_core.Backlog.Exclusive.{Reach-IsExclusive}

abbrev stored_one : Option BacklogCrd → Text → Option BacklogCrd
unfolding ◌==◌
stored_one none n = none
stored_one (some c) n = if c.name == n then some c else none

abbrev latest_one : Option BacklogCrd → ℕ
latest_one none = 0
latest_one (some c) = c.resource_version

abbrev replace_one : BacklogCrd → Option BacklogCrd → Option (Option BacklogCrd)
unfolding ◌==◌
replace_one crd none = none
replace_one crd (some c) =
    if c.name == crd.name && nat_eq c.resource_version crd.resource_version
    then some (some (record crd { resource_version = suc c.resource_version }))
    else none

abbrev one_item : KubernetesApi
unfolding stored_one replace_one
one_item = record {
  Cluster = Option BacklogCrd;
  stored = stored_one;
  latest = latest_one;
  replace = replace_one;
}

replaced_one :
    (crd c : BacklogCrd) (k' : Option BacklogCrd)
    → replace_one crd (some c) ≡ some k'
    → ((c.name == crd.name) ≡ true)
      × (c.resource_version ≡ crd.resource_version)
      × (k' ≡ some (record crd { resource_version = suc c.resource_version }))
unfolding replace_one
replaced_one crd c k' e = elim (Bool-cases (c.name == crd.name)) [
  | inl same ↦ elim (Bool-cases (nat_eq c.resource_version crd.resource_version)) [
    | inl current ↦ (same, ground arith, ground arith)
    | inr stale ↦ absurd (ground arith)
  ]
  | inr differ ↦ absurd (ground arith)
]

stored_one_inv :
    (c : BacklogCrd) (n : Text) (crd : BacklogCrd)
    → stored_one (some c) n ≡ some crd
    → ((c.name == n) ≡ true) × (c ≡ crd)
unfolding stored_one
stored_one_inv c n crd e = elim (Bool-cases (c.name == n)) [
  | inl same ↦ (same, ground arith)
  | inr differ ↦ absurd (ground arith)
]

stored_one_self : (c : BacklogCrd) → stored_one (some c) c.name ≡ some c
unfolding stored_one
stored_one_self c = rw (eq_refl c.name) refl

stored_one_other : (c : BacklogCrd) (n : Text) → n ≢ c.name → stored_one (some c) n ≡ none
unfolding stored_one
stored_one_other c n differ = elim (Bool-cases (c.name == n)) [
  | inl same ↦ absurd (differ (sym (eq→path c.name n same)))
  | inr other ↦ rw other refl
]

one_item-IsOptimistic : IsOptimistic one_item
unfolding one_item
one_item-IsOptimistic = record {
  stored_name = name;
  stored_latest = newest;
  replace_current = current;
  replace_stored = stored;
  replace_latest = grows;
  replace_other = other;
}
  where
    name :
        (k : Option BacklogCrd) (n : Text) (crd : BacklogCrd)
        → stored_one k n ≡ some crd
        → crd.name ≡ n
    name none n crd e = cc
    name (some c) n crd e =
        let (same, path) = stored_one_inv c n crd e in
        ap (λ (d : BacklogCrd). d.name) (sym path) ∙ eq→path c.name n same

    newest :
        (k : Option BacklogCrd) (n : Text) (crd : BacklogCrd)
        → stored_one k n ≡ some crd
        → crd.resource_version ≤ latest_one k
    newest none n crd e = cc
    newest (some c) n crd e =
        let at : crd.resource_version ≡ c.resource_version =
          ap (λ (d : BacklogCrd). d.resource_version) (sym (stored_one_inv c n crd e).1) in
        omega arith

    current :
        (k k' : Option BacklogCrd) (crd : BacklogCrd)
        → replace_one crd k ≡ some k'
        → (old : BacklogCrd) × (stored_one k crd.name ≡ some old)
          × (old.resource_version ≡ crd.resource_version)
    current none k' crd e = cc
    current (some c) k' crd e =
        let (same, version, path) = replaced_one crd c k' e in (c, rw same refl, version)

    stored :
        (k k' : Option BacklogCrd) (crd : BacklogCrd)
        → replace_one crd k ≡ some k'
        → stored_one k' crd.name ≡ some (record crd { resource_version = latest_one k' })
    stored none k' crd e = cc
    stored (some c) k' crd e =
        let (same, version, path) = replaced_one crd c k' e in
        subst (λ k. stored_one k crd.name ≡ some (record crd { resource_version = latest_one k }))
          (sym path) (stored_one_self (record crd { resource_version = suc c.resource_version }))

    grows :
        (k k' : Option BacklogCrd) (crd : BacklogCrd)
        → replace_one crd k ≡ some k'
        → latest_one k < latest_one k'
    grows none k' crd e = cc
    grows (some c) k' crd e =
        let (same, version, path) = replaced_one crd c k' e in
        let at : latest_one k' ≡ suc c.resource_version = ap latest_one path in omega arith

    other :
        (k k' : Option BacklogCrd) (crd : BacklogCrd) (n : Text)
        → replace_one crd k ≡ some k'
        → n ≢ crd.name
        → stored_one k' n ≡ stored_one k n
    other none k' crd n e differ = cc
    other (some c) k' crd n e differ =
        let (same, version, path) = replaced_one crd c k' e in
        let named : c.name ≡ crd.name = eq→path c.name crd.name same in
        ap (λ k. stored_one k n) path
        ∙ (stored_one_other (record crd { resource_version = suc c.resource_version }) n differ
            ∙ sym (stored_one_other c n (λ p. differ (p ∙ named))))

abbrev item : BacklogCrd
item = record {
  name = text "item";
  resource_version = 4;
  labels = (text "service", text "clamav") ∷ [];
  annotations = none;
  priority = 4;
  timestamp = text "2024-01-02";
}

abbrev low_item : BacklogCrd
low_item = record item { name = text "low"; priority = 1; timestamp = text "2024-01-01" }

abbrev claimed_item : BacklogCrd
unfolding claimed_by_host
claimed_item = claimed_by_host (text "pod") (text "now") item

abbrev rounds : List (Text × Round)
rounds =
    (
      text "before",
      record { listed = answered (low_item ∷ item ∷ []); replaced = refused HttpStatus.conflict },
    )
    ∷ (text "now", record { listed = answered (low_item ∷ item ∷ []); replaced = answered tt })
    ∷ []

-- The first round ends in a conflict.
claims_item : get_backlog_crd_and_claim (text "pod") false rounds ≡ done (ok (some claimed_item))
unfolding get_backlog_crd_and_claim
claims_item = refl

get_backlog_crd_and_claim-Claims_example :
    (round : Text × Round) × Member round rounds × Claims (text "pod") claimed_item round
get_backlog_crd_and_claim-Claims_example =
    get_backlog_crd_and_claim-Claims (text "pod") rounds claimed_item claims_item

get_backlog_crd_and_claim_ends_example :
    (result : Result (Option BacklogCrd)) × (get_backlog_crd_and_claim (text "pod") false rounds
      ≡ done result)
unfolding select_crd
get_backlog_crd_and_claim_ends_example =
    get_backlog_crd_and_claim_ends (text "pod")
      ((
        text "before",
        record { listed = answered (low_item ∷ item ∷ []); replaced = refused HttpStatus.conflict },
      )
        ∷ [])
      [] (text "now") (record { listed = answered (low_item ∷ item ∷ []); replaced = answered tt })
      ((((low_item ∷ item ∷ []), item, refl, refl, refl)), tt) (λ e. cc)

abbrev released_item : BacklogCrd
unfolding set_item
released_item = record item {
  labels = set_item label_claimed (text "False") claimed_item.labels;
  annotations = some [];
}

releases : released claimed_item ≡ ok released_item
unfolding released claimed_item
releases = refl

-- Without a conflict, the claim is removed.
removes : remove_claim 10 0 claimed_item (answered tt ∷ []) ≡ some (ok released_item)
unfolding remove_claim claimed_item
removes = refl

abbrev claim_annotations : Dict
claim_annotations = (annotation_claimed_by, text "pod") ∷ (annotation_claimed_at, text "now") ∷ []

remove_claim-conflict_example :
    remove_claim 10 0 claimed_item (refused HttpStatus.conflict ∷ answered tt ∷ [])
    ≡ some (err Raised.key_error)
unfolding claimed_item
remove_claim-conflict_example =
    remove_claim-conflict 10 0 claimed_item released_item claim_annotations (answered tt ∷ [])
      (omega arith) refl ((refl, tt), (tt, tt)) releases

abbrev controller_options : BacklogControllerConfigOptions
controller_options = record {
  max_replicas = 5;
  backlog_items_per_replica = 2;
  remove_claim_after_minutes = 10;
}

abbrev controller_config : BacklogControllerConfig
controller_config = record {
  options = record controller_options { max_replicas = 20 };
  extension_options_overwrite = (text "clamav", controller_options) ∷ [];
}

abbrev true_label : Text → Result (Option Bool)
true_label label = ok (some (label == text "True"))

abbrev at_1000 : Option Text → Result ClaimTime
at_1000 date = ok (record { microsecond = 1000000000; has_zone = true })

abbrev remove_at_once : BacklogCrd → Option (Result BacklogCrd)
unfolding remove_claim
remove_at_once crd = remove_claim 10 0 crd (answered tt ∷ [])

abbrev three_items : List BacklogCrd
three_items = claimed_item ∷ low_item ∷ item ∷ []

-- The pod that claimed the first item is gone; three items need two replicas.
scales :
    on_backlog_change true_label at_1000 remove_at_once controller_config
      (text "clamav")
      1200000000
      ([] ∷ (text "other" ∷ []) ∷ [])
      three_items
    ≡ some (ok (released_item ∷ [], 2))
unfolding on_backlog_change claimed_item remove_at_once
scales = refl

-- The pod still runs, and the claim is young.
keeps :
    on_backlog_change true_label at_1000 remove_at_once controller_config
      (text "issueReplicator")
      1200000000
      ((text "pod" ∷ []) ∷ [])
      three_items
    ≡ some (ok ([], 1))
unfolding on_backlog_change claimed_item
keeps = refl

on_backlog_change-Scales_example :
    (changed : List BacklogCrd) × (replicas : ℕ) × (on_backlog_change true_label at_1000
        remove_at_once controller_config
        (text "clamav")
        1200000000
        ([] ∷ (text "other" ∷ []) ∷ [])
        three_items
      ≡ some (ok (changed, replicas)))
    × IsScaled 3 2 5 replicas
unfolding options_for limit_replicas odg_core.Backlog.is_claimed claimed_item remove_at_once
on_backlog_change-Scales_example =
    on_backlog_change-Scales true_label at_1000 remove_at_once controller_config (text "clamav")
      1200000000 ([] ∷ (text "other" ∷ []) ∷ []) three_items
      (
        record {
          claimed = true;
          labelled = refl;
          annotated = λ c. (
            claim_annotations,
            refl,
            (record { microsecond = 1000000000; has_zone = true }, refl),
            (released_item, refl),
          );
        },
        (
          record { claimed = false; labelled = refl; annotated = λ c. cc },
          (record { claimed = false; labelled = refl; annotated = λ c. cc }, tt),
        ),
      )
      (omega arith)

abbrev at_start : System one_item
unfolding one_item
at_start = record { cluster = some item; seen = []; claims = [] }

abbrev listed_item : System one_item
listed_item = record at_start { seen = item ∷ [] }

abbrev at_claim : System one_item
unfolding one_item
at_claim = record listed_item {
  cluster = some (record claimed_item { resource_version = 5 });
  claims = (text "pod", text "item") ∷ [];
}

reaches : Reach one_item at_start at_claim
unfolding get_item claimed_by_host
reaches = Reach.next (Reach.next Reach.here (Step.list_item (text "item") item refl refl)) (
    Step.claim (text "pod") (text "now") item (some (record claimed_item { resource_version = 5 }))
      (0, refl) (λ e. cc) refl refl)

Reach-IsExclusive_example :
    ((i j : ℕ) (host other name : Text)
      → get_elem? at_claim.claims i ≡ some (host, name)
      → get_elem? at_claim.claims j ≡ some (other, name)
      → i ≡ j)
    × ((host name : Text)
        → Member (host, name) at_claim.claims
        → (crd : BacklogCrd) × (one_item.stored at_claim.cluster name ≡ some crd)
          × IsClaimedBy host crd)
unfolding at_start
Reach-IsExclusive_example =
    Reach-IsExclusive one_item one_item-IsOptimistic at_start at_claim refl refl reaches
