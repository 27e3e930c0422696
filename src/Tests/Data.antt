-- ===== src/Tests/Data.antt =====
-- The artefacts, filters and configurations that the examples share.
use odg_core.Prelude.{Bool, if◌then◌else◌, some, List, [], ◌∷◌, ◌||◌}
use odg_core.Prelude.Result.{Result, ok, err, Raised}
use odg_core.Prelude.Text.{Text, text, ◌==◌}
use odg_core.Artefact.{ArtefactKind, LocalArtefactId, ComponentArtefactId, nil}
use odg_core.Filter.{FilterSemantics, ComponentArtefactFilter}

-- A stand-in for regular expressions: `.*`, or the text itself.
abbrev pub wildcard : Text → Text → Bool
wildcard p t = p == text ".*" || p == t

-- Compiling a pattern for it, where an unclosed bracket is no regular expression.
abbrev pub compile_wildcard : Text → Result (Text → Bool)
compile_wildcard p = if p == text "[" then err Raised.regex_error else ok (wildcard p)

abbrev pub image : LocalArtefactId
image = record {
  artefact_name = some (text "image");
  artefact_type = some (text "ociImage");
  artefact_version = some (text "1.2.0");
  artefact_extra_id = (text "version", text "1.2.0") ∷ (text "arch", text "amd64") ∷ [];
}

abbrev pub image_id : ComponentArtefactId
image_id = record {
  component_name = some (text "acme.org/app");
  component_version = some (text "2.0.0");
  artefact = some image;
  artefact_kind = some ArtefactKind.resource;
  references = nil;
}

abbrev pub filter_on : FilterSemantics → List Text → List Text → ComponentArtefactFilter
filter_on semantics component_name artefact_name = record {
  semantics = semantics;
  component_name = component_name;
  component_version = [];
  artefact_kind = [];
  artefact_name = artefact_name;
  artefact_version = [];
  artefact_type = [];
  artefact_extra_id = [];
}
