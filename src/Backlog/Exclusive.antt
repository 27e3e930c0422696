-- ===== src/Backlog/Exclusive.antt =====
-- No item is claimed by two pods at a time (src/k8s/backlog.py).
use odg_core.Prelude.{
  ℕ, ◌≤◌, ◌<◌, ◌≡◌, ◌≢◌, ◌⊎◌, inl, inr, sym, ap, subst, ◌∙◌, Bool, not, some, List, [], ◌∷◌, arith,
  All, All-map_of, Member, All→Member, select, Bool-cases, get_elem?,
}
use odg_core.Prelude.Text.{Text, text, ◌==◌, eq→path, path→eq}
use odg_core.Backlog.Items.{BacklogCrd, get_item, label_claimed}
use odg_core.Backlog.Claims.{claimed_by_host}
use odg_core.Backlog.Sharing.{
  KubernetesApi, IsOptimistic, IsUnclaimed, IsClaimedBy, System, Changes, Step, Reach,
}
use odg_core.Backlog.Distinct.{
  IsDistinct, IsDistinct-select, IsDistinct-unique, claimed_by_host-IsClaimedBy,
}

module _ (api : KubernetesApi) (laws : IsOptimistic api) where
  -- A copy that was listed: it is not newer than the cluster, and it is what is stored if the
  -- versions agree.
  IsCopy : api.Cluster → BacklogCrd → Type 0
  IsCopy k crd =
      (crd.resource_version ≤ api.latest k)
      × ((now : BacklogCrd)
          → api.stored k crd.name ≡ some now
          → now.resource_version ≡ crd.resource_version
          → now ≡ crd)

  -- The item of a claim is stored with the claim.
  IsHeld : api.Cluster → Text × Text → Type 0
  IsHeld k c = (crd : BacklogCrd) × (api.stored k c.1 ≡ some crd) × IsClaimedBy c.0 crd

  record IsSafe (s : System api) : Type 0 where
    copies : All (IsCopy s.cluster) s.seen
    held : All (IsHeld s.cluster) s.claims
    distinct : IsDistinct s.claims

  list_item-IsCopy :
      (k : api.Cluster) (n : Text) (crd : BacklogCrd) → api.stored k n ≡ some crd → IsCopy k crd
  unfolding IsCopy
  list_item-IsCopy k n crd e = (
    laws.stored_latest k n crd e,
    λ now stored same.
        let at : api.stored k n ≡ some now =
          sym (ap (api.stored k) (laws.stored_name k n crd e)) ∙ stored in
        let both : some now ≡ some crd = sym at ∙ e in cc,
  )

  -- What a copy is, it stays, since all that is written gets a newer version.
  IsCopy-versioned :
      (k k' : api.Cluster)
      → api.latest k ≤ api.latest k'
      → ((n : Text) (new : BacklogCrd)
          → api.stored k' n ≡ some new
          → (api.stored k n ≡ some new) ⊎ (api.latest k < new.resource_version))
      → (crd : BacklogCrd) → IsCopy k crd
      → IsCopy k' crd
  unfolding IsCopy
  IsCopy-versioned k k' later versioned crd (old, same) = (
    omega arith,
    λ now stored version. elim (versioned crd.name now stored) [
      | inl before ↦ same now before version
      | inr newer ↦ absurd (omega arith)
    ],
  )

  replace-versioned :
      (k k' : api.Cluster) (crd : BacklogCrd)
      → api.replace crd k ≡ some k'
      → (n : Text) (new : BacklogCrd) → api.stored k' n ≡ some new
      → (api.stored k n ≡ some new) ⊎ (api.latest k < new.resource_version)
  replace-versioned k k' crd e n new stored = elim (Bool-cases (n == crd.name)) [
    | inl same ↦
        let at = sym (ap (api.stored k') (eq→path n crd.name same)) ∙ stored in
        let both : some (record crd { resource_version = api.latest k' }) ≡ some new =
          sym (laws.replace_stored k k' crd e) ∙ at in
        let newest : api.latest k' ≡ new.resource_version =
          let path : record crd { resource_version = api.latest k' } ≡ new = cc in
          ap (λ (c : BacklogCrd). c.resource_version) path in
        let grows = laws.replace_latest k k' crd e in inr (omega arith)
    | inr differ ↦
        let other : n ≢ crd.name = λ p. let h = path→eq n crd.name p in cc in
        inl (sym (laws.replace_other k k' crd n e other) ∙ stored)
  ]

  IsHeld-other :
      (k k' : api.Cluster) (crd : BacklogCrd)
      → api.replace crd k ≡ some k'
      → (c : Text × Text) → c.1 ≢ crd.name
      → IsHeld k c
      → IsHeld k' c
  unfolding IsHeld
  IsHeld-other k k' crd e c differ (old, stored, claimed) =
      (old, laws.replace_other k k' crd c.1 e differ ∙ stored, claimed)

  -- A copy that is unclaimed and current is of no item that is claimed.
  unclaimed-All :
      (k : api.Cluster) (crd : BacklogCrd) (cs : List (Text × Text))
      → api.stored k crd.name ≡ some crd
      → IsUnclaimed crd
      → All (IsHeld k) cs
      → All (λ (c : Text × Text). c.1 ≢ crd.name) cs
  unfolding IsHeld
  unclaimed-All k crd cs stored unclaimed held =
      All-map_of (IsHeld k) _
        (λ c (old, at, claimed) same.
          let both : some old ≡ some crd = sym at ∙ (ap (api.stored k) same ∙ stored) in
          let path : old ≡ crd = cc in
          unclaimed (
            subst (λ o. get_item label_claimed o.labels ≡ some (text "True")) path
              claimed.labelled))
        cs held

  claim-IsSafe :
      (s : System api) (host now : Text) (crd : BacklogCrd) (k : api.Cluster)
      → Member crd s.seen
      → IsUnclaimed crd
      → api.replace (claimed_by_host host now crd) s.cluster ≡ some k
      → IsSafe s
      → IsSafe (record s { cluster = k; claims = (host, crd.name) ∷ s.claims })
  unfolding claimed_by_host IsCopy IsHeld
  claim-IsSafe s host now crd k seen unclaimed accepted safe =
      let sent = claimed_by_host host now crd in
      let (old, at, version) = laws.replace_current s.cluster k sent accepted in
      let (bound, same) = All→Member (IsCopy s.cluster) s.seen crd safe.copies seen in
      let current : old ≡ crd = same old at version in
      let stored : api.stored s.cluster crd.name ≡ some crd = at ∙ ap some current in
      let grows = laws.replace_latest s.cluster k sent accepted in
      let others = unclaimed-All s.cluster crd s.claims stored unclaimed safe.held in
      let held : All (IsHeld k) s.claims = held_others s.claims others safe.held in
      record {
        copies =
            All-map_of (IsCopy s.cluster) (IsCopy k)
              (IsCopy-versioned s.cluster k (omega arith)
                (replace-versioned s.cluster k sent accepted))
              s.seen safe.copies;
        held = (
          (
            record sent { resource_version = api.latest k },
            laws.replace_stored s.cluster k sent accepted,
            claimed_by_host-IsClaimedBy host now crd (api.latest k),
          ),
          held,
        );
        distinct = (others, safe.distinct);
      }
    where
      held_others :
          (cs : List (Text × Text))
          → All (λ (c : Text × Text). c.1 ≢ crd.name) cs
          → All (IsHeld s.cluster) cs
          → All (IsHeld k) cs
      held_others [] h held = tt
      held_others (c ∷ cs) h held = (
        IsHeld-other s.cluster k (claimed_by_host host now crd) accepted c h.0 held.0,
        held_others cs h.1 held.1,
      )

  others-IsSafe :
      (s : System api) (gone : Text → Bool) (k : api.Cluster)
      → Changes api gone s.cluster k
      → IsSafe s
      → IsSafe
          (record s { cluster = k; claims = select (λ (c : Text × Text). not (gone c.1)) s.claims })
  unfolding IsHeld select
  others-IsSafe s gone k changes safe = record {
    copies =
        All-map_of (IsCopy s.cluster) (IsCopy k)
          (IsCopy-versioned s.cluster k changes.later changes.versioned) s.seen safe.copies;
    held = still s.claims safe.held;
    distinct = IsDistinct-select (λ (c : Text × Text). not (gone c.1)) s.claims safe.distinct;
  }
    where
      still :
          (cs : List (Text × Text))
          → All (IsHeld s.cluster) cs
          → All (IsHeld k) (select (λ (c : Text × Text). not (gone c.1)) cs)
      still [] held = tt
      still (c ∷ cs) held = elim (Bool-cases (gone c.1)) [
        | inl lost ↦ rw (select, lost) (still cs held.1)
        | inr stays ↦
            let (old, at, claimed) = held.0 in
            rw (select, stays) (changes.kept c.1 c.0 old stays at claimed, still cs held.1)
      ]

  Step-IsSafe : (s t : System api) → Step api s t → IsSafe s → IsSafe t
  Step-IsSafe s t (Step.list_item n crd stored e) safe = subst IsSafe (sym e) (record {
    copies = (list_item-IsCopy s.cluster n crd stored, safe.copies);
    held = safe.held;
    distinct = safe.distinct;
  })
  Step-IsSafe s t (Step.claim host now crd k seen unclaimed accepted e) safe =
      subst IsSafe (sym e) (claim-IsSafe s host now crd k seen unclaimed accepted safe)
  Step-IsSafe s t (Step.others gone k changes e) safe =
      subst IsSafe (sym e) (others-IsSafe s gone k changes safe)

  Reach-IsSafe : (s : System api) {t : System api} → IsSafe s → Reach api s t → IsSafe t
  Reach-IsSafe s safe Reach.here = safe
  Reach-IsSafe s safe (Reach.next r step) = Step-IsSafe _ _ step (Reach-IsSafe s safe r)

  -- If no pod has listed or claimed anything at the start, then after any steps in any order, of
  -- pods that list and claim items and of others, no item has two claims that the API accepted and
  -- that were not removed since; and the item of each such claim is stored with the label and the
  -- host of the claim.
  pub Reach-IsExclusive :
      (s t : System api)
      → s.seen ≡ []
      → s.claims ≡ []
      → Reach api s t
      → ((i j : ℕ) (host other name : Text)
          → get_elem? t.claims i ≡ some (host, name)
          → get_elem? t.claims j ≡ some (other, name)
          → i ≡ j)
        × ((host name : Text)
            → Member (host, name) t.claims
            → (crd : BacklogCrd) × (api.stored t.cluster name ≡ some crd) × IsClaimedBy host crd)
  unfolding IsHeld
  Reach-IsExclusive s t none_seen none_claimed reach =
      let start : IsSafe s = record {
        copies = subst (All (IsCopy s.cluster)) (sym none_seen) tt;
        held = subst (All (IsHeld s.cluster)) (sym none_claimed) tt;
        distinct = subst IsDistinct (sym none_claimed) tt;
      } in
      let safe = Reach-IsSafe s start reach in
      (
        λ i j host other name. IsDistinct-unique t.claims i j host other name safe.distinct,
        λ host name member. All→Member (IsHeld t.cluster) t.claims (host, name) safe.held member,
      )
