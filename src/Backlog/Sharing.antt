-- ===== src/Backlog/Sharing.antt =====
-- Pods that claim backlog items concurrently with `get_backlog_crd_and_claim` (src/k8s/backlog.py),
-- the API they share, and everything else that changes the items.
use odg_core.Prelude.{
  ℕ, ◌≤◌, ◌<◌, ◌≡◌, ◌≢◌, ◌⊎◌, Bool, false, not, Option, some, List, ◌∷◌, Member, select,
}
use odg_core.Prelude.Text.{Text, text}
use odg_core.Backlog.Items.{BacklogCrd, get_item, label_claimed, annotation_claimed_by}
use odg_core.Backlog.Claims.{claimed_by_host}

-- What the code uses of the Kubernetes API: the stored item of a name, the latest resource version
-- that was given out, and the replacement of an item, which may be refused.
pub record KubernetesApi : Type 1 where
  pub Cluster : Type 0
  pub stored : Cluster → Text → Option BacklogCrd
  pub latest : Cluster → ℕ
  pub replace : BacklogCrd → Cluster → Option Cluster

-- The concurrency control that Kubernetes documents: a replacement is only accepted with the
-- resource version of the stored item, it changes that item only, and gives it a new version.
pub record IsOptimistic (api : KubernetesApi) : Type 0 where
  pub stored_name :
      (k : api.Cluster) (n : Text) (crd : BacklogCrd) → api.stored k n ≡ some crd → crd.name ≡ n
  pub stored_latest :
      (k : api.Cluster) (n : Text) (crd : BacklogCrd)
      → api.stored k n ≡ some crd
      → crd.resource_version ≤ api.latest k
  pub replace_current :
      (k k' : api.Cluster) (crd : BacklogCrd)
      → api.replace crd k ≡ some k'
      → (old : BacklogCrd) × (api.stored k crd.name ≡ some old)
        × (old.resource_version ≡ crd.resource_version)
  pub replace_stored :
      (k k' : api.Cluster) (crd : BacklogCrd)
      → api.replace crd k ≡ some k'
      → api.stored k' crd.name ≡ some (record crd { resource_version = api.latest k' })
  pub replace_latest :
      (k k' : api.Cluster) (crd : BacklogCrd)
      → api.replace crd k ≡ some k'
      → api.latest k < api.latest k'
  pub replace_other :
      (k k' : api.Cluster) (crd : BacklogCrd) (n : Text)
      → api.replace crd k ≡ some k'
      → n ≢ crd.name
      → api.stored k' n ≡ api.stored k n

-- The label selector of the listing, `claimed!=True`
abbrev pub IsUnclaimed : BacklogCrd → Type 0
IsUnclaimed crd = get_item label_claimed crd.labels ≢ some (text "True")

pub record IsClaimedBy (host : Text) (crd : BacklogCrd) : Type 0 where
  pub labelled : get_item label_claimed crd.labels ≡ some (text "True")
  pub annotated :
      (annotations : List (Text × Text)) × (crd.annotations ≡ some annotations)
      × (get_item annotation_claimed_by annotations ≡ some host)

module _ (api : KubernetesApi) where
  -- The cluster, the copies of items that pods have listed at any time, and the claims that were
  -- accepted and are not yet removed, each with its host and the name of its item.
  pub record System : Type 0 where
    pub cluster : api.Cluster
    pub seen : List BacklogCrd
    pub claims : List (Text × Text)

  -- What others do to the items: claims stay, but for those of the names that are gone (because the
  -- claim is removed or the item is deleted), and what is changed or created gets a new version.
  pub record Changes (gone : Text → Bool) (k k' : api.Cluster) : Type 0 where
    pub later : api.latest k ≤ api.latest k'
    pub versioned :
        (n : Text) (new : BacklogCrd)
        → api.stored k' n ≡ some new
        → (api.stored k n ≡ some new) ⊎ (api.latest k < new.resource_version)
    pub kept :
        (n host : Text) (old : BacklogCrd)
        → gone n ≡ false
        → api.stored k n ≡ some old
        → IsClaimedBy host old
        → (new : BacklogCrd) × (api.stored k' n ≡ some new) × IsClaimedBy host new

  -- A pod lists an item; a pod sends an item that it listed at some time as unclaimed, with its
  -- claim, and the API accepts it; or others act.
  pub data Step (s t : System) : Type 0 where
    list_item :
        (n : Text) (crd : BacklogCrd)
        → api.stored s.cluster n ≡ some crd
        → t ≡ record s { seen = crd ∷ s.seen }
        → Step s t
    claim :
        (host now : Text) (crd : BacklogCrd) (k : api.Cluster)
        → Member crd s.seen
        → IsUnclaimed crd
        → api.replace (claimed_by_host host now crd) s.cluster ≡ some k
        → t ≡ record s { cluster = k; claims = (host, crd.name) ∷ s.claims }
        → Step s t
    others :
        (gone : Text → Bool) (k : api.Cluster)
        → Changes gone s.cluster k
        → t
          ≡ record s { cluster = k; claims = select (λ (c : Text × Text). not (gone c.1)) s.claims }
        → Step s t

  -- Any number of steps in any order
  pub data Reach (s : System) : System → Type 0 where
    here : Reach s s
    next : {t u : System} → Reach s t → Step t u → Reach s u
