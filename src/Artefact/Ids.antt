-- ===== src/Artefact/Ids.antt =====
-- src/odg/model.py: `LocalArtefactId` and `ComponentArtefactId` with their keys.
use odg_core.Prelude.{Bool, false, Option, none, some, List, [], ◌∷◌, ◌++◌, map, if◌then◌else◌}
use odg_core.Prelude.Sort.{sorted}
use odg_core.Prelude.Text.{Text, text, ◌==◌, text_leb, join}
use odg_core.Artefact.Kinds.{ArtefactKind, kind_value}

-- A `dict[str, str]`: its items in insertion order, no key twice.
abbrev pub ExtraId : Type 0
ExtraId = List (Text × Text)

-- `if key in d: del d[key]`
unfoldable pub delete_key : Text → ExtraId → ExtraId
delete_key key [] = []
delete_key key (item ∷ items) =
    let rest = delete_key key items in if item.0 == key then rest else item ∷ rest

abbrev item_leb : Text × Text → Text × Text → Bool
item_leb a b = text_leb a.0 b.0

-- `':'.join(values)` of one item
abbrev item_text : Text × Text → Text
item_text (key, value) = key ++ (text ":" ++ value)

unfoldable pub normalise_artefact_extra_id : ExtraId → Bool → Text
unfolding delete_key
normalise_artefact_extra_id artefact_extra_id omit_version =
    let kept =
      if omit_version then delete_key (text "version") artefact_extra_id else artefact_extra_id in
    join (text "_") (map item_text (sorted item_leb kept))

abbrev or_absent : Option Text → Text
or_absent none = text "None"
or_absent (some t) = t

-- `_as_key` with its default separator and absent indicator
unfoldable pub as_key : List (Option Text) → Text
as_key args = join (text "|") (map or_absent args)

pub record LocalArtefactId : Type 0 where
  pub artefact_name : Option Text
  pub artefact_type : Option Text
  pub artefact_version : Option Text
  pub artefact_extra_id : ExtraId

-- `LocalArtefactId()`
abbrev pub empty_artefact_id : LocalArtefactId
empty_artefact_id = record {
  artefact_name = none;
  artefact_type = none;
  artefact_version = none;
  artefact_extra_id = [];
}

-- `LocalArtefactId.normalised_artefact_extra_id`
unfoldable pub normalised_artefact_extra_id : LocalArtefactId → Text
normalised_artefact_extra_id a = normalise_artefact_extra_id a.artefact_extra_id false

-- `LocalArtefactId.key`
unfoldable pub local_key : LocalArtefactId → Text
local_key a = as_key (
    a.artefact_name
    ∷ a.artefact_version
    ∷ a.artefact_type
    ∷ some (normalised_artefact_extra_id a)
    ∷ [])

-- The values of `ComponentArtefactId.references`, each with references of its own.
mutual
  pub data Reference : Type 0 where
    reference :
        Option Text
        → Option Text
        → Option LocalArtefactId
        → Option ArtefactKind
        → References
        → Reference

  pub data References : Type 0 where
    nil : References
    cons : Reference → References → References

pub record ComponentArtefactId : Type 0 where
  pub component_name : Option Text
  pub component_version : Option Text
  pub artefact : Option LocalArtefactId
  pub artefact_kind : Option ArtefactKind
  pub references : References

abbrev local_key? : Option LocalArtefactId → Option Text
local_key? none = none
local_key? (some a) = some (local_key a)

abbrev kind_value? : Option ArtefactKind → Option Text
kind_value? none = none
kind_value? (some k) = some (kind_value k)

-- The body of `ComponentArtefactId.key`, given the keys of the references: sorting the references
-- by their keys and taking the keys is sorting the keys.
unfoldable pub parts_key :
    Option Text → Option Text → Option LocalArtefactId → Option ArtefactKind → List Text → Text
unfolding as_key
parts_key name version artefact kind reference_keys = as_key (
    name
    ∷ version
    ∷ local_key? artefact
    ∷ kind_value? kind
    ∷ some (as_key (map some (sorted text_leb reference_keys)))
    ∷ [])

unfoldable mutual
  unfolding parts_key

  pub reference_key : Reference → Text
  reference_key (reference name version artefact kind references) =
      parts_key name version artefact kind (reference_keys references)

  pub reference_keys : References → List Text
  reference_keys nil = []
  reference_keys (cons r rs) = reference_key r ∷ reference_keys rs

-- `ComponentArtefactId.key`
unfoldable pub component_artefact_key : ComponentArtefactId → Text
component_artefact_key a =
    parts_key a.component_name a.component_version a.artefact a.artefact_kind
      (reference_keys a.references)

-- `ComponentArtefactId.__eq__` and `LocalArtefactId.__eq__`
same_artefact : ComponentArtefactId → ComponentArtefactId → Bool
unfolding ◌==◌
same_artefact a b = component_artefact_key a == component_artefact_key b

unfoldable pub same_local_artefact : LocalArtefactId → LocalArtefactId → Bool
unfolding ◌==◌
same_local_artefact a b = local_key a == local_key b
