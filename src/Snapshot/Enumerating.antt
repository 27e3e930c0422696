-- ===== src/Snapshot/Enumerating.antt =====
-- src/artefact_enumerator.py: the snapshots of artefacts and the backlog items that are to be created.
use odg_core.Prelude.{
  ℕ, ◌+◌, Bool, true, false, not, ◌&&◌, Option, none, some, List, [], ◌∷◌, ◌++◌, any, leb,
  if◌then◌else◌, ◌==◌ as nat_eq,
}
use odg_core.Prelude.Result.{Result, ok, err, Raised, ◌>>=◌}
use odg_core.Prelude.Text.{Text, text}
use odg_core.Artefact.{
  ArtefactKind, kind_eq, Datatype, datatype_index, ComponentArtefactId, LocalArtefactId,
}
use odg_core.Filter.{finding_matches}
use odg_core.Finding.{Finding}
use odg_core.Snapshot.Defs.{
  Status, active, inactive, count, status_eq, SnapshotState, current_state, update_state, is_active,
}

-- `k8s.backlog.BacklogPriorities`, of which the enumerator uses these.
pub data BacklogPriorities : Type 0 where
  unneeded low high : BacklogPriorities

pub record UncommittedBacklogItem : Type 0 where
  pub artefact : ComponentArtefactId
  pub priority : BacklogPriorities
  pub service : Text

abbrev pub state_at : ℕ → Option Status → Option Text → SnapshotState
state_at now status service = record { timestamp = now; status = status; service = service }

-- `_create_or_update_compliance_snapshot_of_artefact` on the states of the snapshot
create_or_update : ℕ → Option (List SnapshotState) → List SnapshotState
unfolding is_active update_state
create_or_update now none = state_at now (some active) none ∷ []
create_or_update now (some states) =
    if not (is_active states) then update_state (state_at now (some active) none) states else states

-- `status is not None and status != current_state.status`
abbrev pub has_changed : Option Status → Option Status → Bool
has_changed none current = false
has_changed (some status) current = not (status_eq (some status) current)

-- `_calculate_backlog_item_priority`
unfoldable pub calculate_backlog_item_priority :
    Text → List SnapshotState → ℕ → ℕ → Option Status → BacklogPriorities
unfolding current_state status_eq
calculate_backlog_item_priority service states interval now status =
    elim (current_state (some service) states) [
      | none ↦ BacklogPriorities.high
      | some current ↦
          if has_changed status current.status
          then BacklogPriorities.high
          else if leb (current.timestamp + interval) now
          then BacklogPriorities.low
          else BacklogPriorities.unneeded
    ]

-- The state of the enumeration of one artefact: its snapshot and the items collected so far.
abbrev Enumeration : Type 0
Enumeration = List SnapshotState × List UncommittedBacklogItem

abbrev pub item_of : ComponentArtefactId → BacklogPriorities → Text → UncommittedBacklogItem
item_of artefact priority service = record {
  artefact = artefact;
  priority = priority;
  service = service;
}

-- `_create_backlog_item`; its item is `none` where none is needed.
unfoldable pub create_backlog_item :
    ComponentArtefactId
    → List SnapshotState
    → Text
    → ℕ
    → ℕ
    → Option Status
    → List SnapshotState × Option UncommittedBacklogItem
unfolding calculate_backlog_item_priority update_state
create_backlog_item artefact states service interval now status =
    elim (calculate_backlog_item_priority service states interval now status) [
      | BacklogPriorities.unneeded ↦ (states, none)
      | BacklogPriorities.low ↦ (
        update_state (state_at now status (some service)) states,
        some (item_of artefact BacklogPriorities.low service),
      )
      | BacklogPriorities.high ↦ (
        update_state (state_at now status (some service)) states,
        some (item_of artefact BacklogPriorities.high service),
      )
    ]

-- The configuration of an extension, as far as the enumerator reads it.
pub record Extension : Type 0 where
  pub enabled : Bool
  pub interval : ℕ

-- The sections of `ExtensionsConfiguration` that the enumerator reads for an artefact.
pub record ExtensionsConfiguration : Type 0 where
  pub bdba : Option Extension
  pub blackduck : Option Extension
  pub clamav : Option Extension
  pub crypto : Option Extension
  pub issue_replicator : Option Extension
  pub responsibles : Option Extension
  pub sast : Option Extension
  pub codeql : Option Extension
  pub osid : Option Extension
  pub trivy : Option Extension
  pub sbom_generator : Option Extension

-- One of the blocks of `_process_compliance_snapshot_of_artefact`, whose condition holds: the types
-- for `_create_backlog_item_for_extension`, or `none` where the item is created for all artefacts.
pub record Block : Type 0 where
  pub service : Text
  pub interval : ℕ
  pub types : Option (List Datatype)
  pub status : Option Status

-- `is_supported(artefact_kind)` for an extension with the given kind of artefacts
abbrev is_supported : ArtefactKind → Option ArtefactKind → Bool
is_supported kind none = true
is_supported kind (some k) = kind_eq k kind

abbrev block_if :
    Option Extension → Bool → Text → Option (List Datatype) → Option Status → List Block
block_if none supported service types status = []
block_if (some e) supported service types status =
    if e.enabled && supported
    then record { service = service; interval = e.interval; types = types; status = status } ∷ []
    else []

-- The blocks in their order; `scan_count` is `none` where the query for scans failed.
blocks : ExtensionsConfiguration → Option ArtefactKind → Option ℕ → List Block
blocks cfg kind scan_count =
    let on_resource = is_supported ArtefactKind.resource kind in
    let on_source = is_supported ArtefactKind.source kind in
    block_if cfg.bdba on_resource (text "bdba")
      (some (Datatype.vulnerability_finding ∷ Datatype.license_finding ∷ [])) none
    ++ (block_if cfg.blackduck on_resource (text "blackduck") (some (Datatype.ip_finding ∷ [])) none
        ++ (block_if cfg.clamav on_resource (text "clamav") (some (Datatype.malware_finding ∷ []))
              none
            ++ (block_if cfg.crypto on_resource (text "crypto")
                  (some (Datatype.crypto_finding ∷ [])) none
                ++ (block_if cfg.issue_replicator true (text "issueReplicator") none
                      (elim scan_count [ none ↦ none | some n ↦ some (count n) ])
                    ++ (block_if cfg.responsibles true (text "responsibles") none none
                        ++ (block_if cfg.sast on_source (text "sast")
                              (some (Datatype.sast_finding ∷ [])) none
                            ++ (block_if cfg.codeql on_source (text "codeql")
                                  (some (Datatype.codeql_finding ∷ [])) none
                                ++ (block_if cfg.osid on_resource (text "osid")
                                      (some (Datatype.osid_finding ∷ [])) none
                                    ++ (block_if cfg.trivy on_resource (text "trivy")
                                          (some (Datatype.vulnerability_finding ∷ [])) none
                                        ++ block_if cfg.sbom_generator on_resource
                                            (text "sbomGenerator") none none)))))))))

abbrev with_item :
    List UncommittedBacklogItem → List SnapshotState × Option UncommittedBacklogItem → Enumeration
with_item items (states, none) = (states, items)
with_item items (states, some item) = (states, items ++ item ∷ [])

module _ (fullmatch : Text → Text → Bool) where
  -- The condition of `_create_backlog_item_for_extension`
  is_wanted : List Finding → Option (List Datatype) → ComponentArtefactId → LocalArtefactId → Bool
  unfolding finding_matches
  is_wanted cfgs none artefact local = true
  is_wanted cfgs (some types) artefact local =
      any
        (λ cfg.
          any (λ t. nat_eq (datatype_index cfg.type) (datatype_index t)) types
          && finding_matches fullmatch cfg.filter artefact local)
        cfgs

  process_blocks :
      List Finding
      → ComponentArtefactId
      → LocalArtefactId
      → ℕ
      → List Block
      → Enumeration
      → Enumeration
  unfolding create_backlog_item is_wanted
  process_blocks cfgs artefact local now [] (states, items) = (states, items)
  process_blocks cfgs artefact local now (b ∷ bs) (states, items) =
      let skipped = process_blocks cfgs artefact local now bs (states, items) in
      let created =
        process_blocks cfgs artefact local now bs (
          with_item items
            (create_backlog_item artefact states b.service b.interval now b.status)) in
      if is_wanted cfgs b.types artefact local then created else skipped

  -- `_process_compliance_snapshot_of_artefact`
  process_compliance_snapshot_of_artefact :
      ExtensionsConfiguration
      → List Finding
      → ComponentArtefactId
      → LocalArtefactId
      → Option ℕ
      → ℕ
      → Option (List SnapshotState)
      → Enumeration
  unfolding process_blocks blocks create_or_update
  process_compliance_snapshot_of_artefact cfg cfgs artefact local scan_count now snapshot =
      process_blocks cfgs artefact local now (blocks cfg artefact.artefact_kind scan_count)
        (create_or_update now snapshot, [])

-- What becomes of a snapshot whose artefact is not referenced any more.
pub data Outcome : Type 0 where
  kept deleted : Outcome
  updated : List SnapshotState → Bool → Outcome

-- `now - current_state().timestamp >= grace_period`
abbrev has_expired : ℕ → ℕ → Option SnapshotState → Result Bool
has_expired now grace_period none = err Raised.attribute_error
has_expired now grace_period (some s) = ok (leb (s.timestamp + grace_period) now)

-- The body of the loop of `_process_inactive_compliance_snapshots`; the `Bool` of an updated
-- snapshot says whether an item for the issue replicator is created with it.
unfoldable pub process_inactive : Bool → ℕ → ℕ → List SnapshotState → Result Outcome
unfolding is_active update_state current_state
process_inactive replicate grace_period now states =
    if is_active states
    then (do
      let states' = update_state (state_at now (some inactive) none) states
      expired ← has_expired now grace_period (current_state none states')
      ok (if expired then deleted else updated states' replicate))
    else (do
      expired ← has_expired now grace_period (current_state none states)
      ok (if expired then deleted else kept))
