-- ===== src/Rescoring/Reapplied.antt =====
-- A rescoring that is stored under a scope of a finding's identity
-- (`scoped_component_artefact_id`) is among those that `_iter_rescorings_for_finding` finds for it.
use odg_core.Prelude.{◌≡◌, refl, true, some, [], ◌∷◌, arith}
use odg_core.Prelude.Text.{Text, text, ◌==◌, eq_refl, opt_eq_refl}
use odg_core.Artefact.{
  Specificity, ExtraId, delete_key, normalise_artefact_extra_id, LocalArtefactId,
  ComponentArtefactId,
}
use odg_core.Rescoring.Grouping.{applies, local_applies}
use odg_core.Rescoring.Scoping.{
  cut_to_component, cut_to_artefact, scoped_local_id, scoped_artefact_id,
  scoped_component_artefact_id,
}

delete_key_twice : (key : Text) (d : ExtraId) → delete_key key (delete_key key d) ≡ delete_key key d
unfolding delete_key
delete_key_twice key [] = refl
delete_key_twice key (item ∷ items) = ground (arith, delete_key_twice key items)

-- The normalised extra identity without its version is that of the whole.
same_extra_id :
    (d : ExtraId)
    → (normalise_artefact_extra_id (delete_key (text "version") d) true
        == normalise_artefact_extra_id d true)
      ≡ true
unfolding normalise_artefact_extra_id
same_extra_id d = rw (delete_key_twice (text "version") d) (eq_refl _)

scoped_local_id-applies :
    (a : LocalArtefactId) (scope : Specificity) → local_applies (scoped_local_id a scope) a ≡ true
unfolding local_applies scoped_local_id cut_to_component cut_to_artefact
scoped_local_id-applies a Specificity.global = refl
scoped_local_id-applies a Specificity.component = refl
scoped_local_id-applies a Specificity.artefact =
    ground (arith, same_extra_id a.artefact_extra_id, opt_eq_refl a.artefact_name)
scoped_local_id-applies a Specificity.single = ground (
  arith,
  eq_refl (normalise_artefact_extra_id a.artefact_extra_id true),
  opt_eq_refl a.artefact_name,
  opt_eq_refl a.artefact_version,
)

-- A rescoring for the finding's artefact, cut down to any of the scopes, applies to the finding.
pub scoped_component_artefact_id-applies :
    (a : ComponentArtefactId) (local : LocalArtefactId) (scope : Specificity)
    → a.artefact ≡ some local
    → applies (scoped_component_artefact_id a scope) a local ≡ true
unfolding applies scoped_component_artefact_id scoped_artefact_id
scoped_component_artefact_id-applies a local scope e =
    by_scope scope (scoped_local_id-applies local scope)
  where
    by_scope :
        (scope : Specificity)
        → local_applies (scoped_local_id local scope) local ≡ true
        → applies (scoped_component_artefact_id a scope) a local ≡ true
    by_scope Specificity.global h = rw e h
    by_scope Specificity.component h = rw e (ground (arith, opt_eq_refl a.component_name))
    by_scope Specificity.artefact h = rw e (ground (arith, opt_eq_refl a.component_name))
    by_scope Specificity.single h =
        rw e (ground (arith, opt_eq_refl a.component_name, opt_eq_refl a.component_version))
