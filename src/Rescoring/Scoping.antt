-- ===== src/Rescoring/Scoping.antt =====
-- src/rescore/utility.py: `scoped_component_artefact_id`, which cuts an identity down to the scope
-- that a rescoring is meant for.
use odg_core.Prelude.{Option, none, some, [], if◌then◌else◌}
use odg_core.Prelude.Text.{text}
use odg_core.Artefact.{
  Specificity, specificity_leb, LocalArtefactId, empty_artefact_id, delete_key, ComponentArtefactId,
}

-- `if scope <= ArtefactMetadataSpecificity.COMPONENT` in `_scoped_artefact_id`
unfoldable pub cut_to_component : LocalArtefactId → LocalArtefactId
cut_to_component a = record a { artefact_name = none; artefact_type = none; artefact_extra_id = [] }

-- `if scope <= ArtefactMetadataSpecificity.ARTEFACT` in `_scoped_artefact_id`
unfoldable pub cut_to_artefact : LocalArtefactId → LocalArtefactId
unfolding delete_key
cut_to_artefact a = record a {
  artefact_version = none;
  artefact_extra_id = delete_key (text "version") a.artefact_extra_id;
}

-- `_scoped_artefact_id` on an identity; the tests for `GLOBAL` and `SINGLE` change nothing.
unfoldable pub scoped_local_id : LocalArtefactId → Specificity → LocalArtefactId
unfolding cut_to_component cut_to_artefact
scoped_local_id a scope =
    let b = if specificity_leb scope Specificity.component then cut_to_component a else a in
    if specificity_leb scope Specificity.artefact then cut_to_artefact b else b

-- `_scoped_artefact_id`
unfoldable pub scoped_artefact_id : Option LocalArtefactId → Specificity → LocalArtefactId
unfolding scoped_local_id
scoped_artefact_id none scope = empty_artefact_id
scoped_artefact_id (some a) scope = scoped_local_id a scope

-- `scoped_component_artefact_id`
unfoldable pub scoped_component_artefact_id :
    ComponentArtefactId → Specificity → ComponentArtefactId
unfolding scoped_artefact_id
scoped_component_artefact_id a scope = record {
  component_name = if specificity_leb scope Specificity.global then none else a.component_name;
  component_version =
      if specificity_leb scope Specificity.artefact then none else a.component_version;
  artefact = some (scoped_artefact_id a.artefact scope);
  artefact_kind = if specificity_leb scope Specificity.component then none else a.artefact_kind;
  references = a.references;
}
