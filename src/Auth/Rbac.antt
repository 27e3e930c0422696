-- ===== src/Auth/Rbac.antt =====
-- src/secret_mgmt/rbac.py, and the permissions of a user (src/middleware/auth.py).
use odg_core.Prelude.{
  Bool, ◌&&◌, Option, none, some, List, [], ◌∷◌, ◌++◌, any, select, if◌then◌else◌,
}
use odg_core.Prelude.Result.{Result, ok, err, Raised}
use odg_core.Prelude.Text.{Text, ◌==◌}

-- After `__post_init__`, which makes a list of a single text.
pub record Permission : Type 0 where
  pub name : Text
  pub routes : List Text
  pub methods : List Text

pub record Role : Type 0 where
  pub name : Text
  pub permissions : List Text

pub record RoleBindings : Type 0 where
  pub permissions : List Permission
  pub roles : List Role

module _ {ℓ} {A : Type ℓ} (name_of : A → Text) where
  -- `RoleBindings.__post_init__` for one of the lists: a builtin item is appended if no item has its
  -- name yet.
  unfoldable pub mix_in : List A → List A → List A
  unfolding any ◌==◌
  mix_in [] configured = configured
  mix_in (b ∷ builtin) configured =
      let known = any (λ x. name_of x == name_of b) configured in
      mix_in builtin (if known then configured else configured ++ b ∷ [])

abbrev pub permission_name : Permission → Text
permission_name p = p.name

abbrev pub role_name : Role → Text
role_name r = r.name

-- `RoleBindings.__post_init__`, with the builtin bindings that are read from the file
unfoldable pub init_role_bindings : RoleBindings → RoleBindings → RoleBindings
unfolding mix_in
init_role_bindings builtin configured = record {
  permissions = mix_in permission_name builtin.permissions configured.permissions;
  roles = mix_in role_name builtin.roles configured.roles;
}

-- The first permission of the name
unfoldable pub find_named : Text → List Permission → Option Permission
unfolding ◌==◌
find_named name [] = none
find_named name (p ∷ ps) =
    let rest = find_named name ps in if permission_name p == name then some p else rest

-- `RoleBindings.find_permission(absent_ok=True)`
unfoldable pub find_permission : Text → RoleBindings → Option Permission
unfolding find_named
find_permission name bindings = find_named name bindings.permissions

-- `role.name in names`
unfoldable pub has_role_name : List Text → Role → Bool
unfolding any ◌==◌
has_role_name names role = any (λ n. n == role.name) names

-- `RoleBindings.filter_roles`
unfoldable pub filter_roles : List Text → RoleBindings → List Role
unfolding select has_role_name
filter_roles names bindings = select (has_role_name names) bindings.roles

-- What a generator yields until it ends, or raises.
abbrev pub Yielded : Type 0
Yielded = List (Result Permission)

-- The inner loop of `_iter_user_permissions`, and what the outer one yields behind it
unfoldable pub yield_permissions : RoleBindings → List Text → Yielded → Yielded
unfolding find_permission
yield_permissions bindings [] rest = rest
yield_permissions bindings (name ∷ names) rest = elim (find_permission name bindings) [
  | none ↦ err Raised.http_unauthorized ∷ []
  | some permission ↦ ok permission ∷ yield_permissions bindings names rest
]

unfoldable pub yield_of_roles : RoleBindings → List Role → Yielded
unfolding yield_permissions
yield_of_roles bindings [] = []
yield_of_roles bindings (role ∷ roles) =
    yield_permissions bindings role.permissions (yield_of_roles bindings roles)

-- `_iter_user_permissions`
unfoldable pub iter_user_permissions : List Text → RoleBindings → Yielded
unfolding filter_roles yield_of_roles
iter_user_permissions names bindings = yield_of_roles bindings (filter_roles names bindings)

-- `re.fullmatch(pattern, value)`, and the same with `re.IGNORECASE`
module _ (fullmatch fullmatch_ignore_case : Text → Text → Bool) where
  -- The two inner loops of `_raise_on_missing_permissions`
  unfoldable pub grants : Text → Text → Permission → Bool
  unfolding any
  grants route method permission =
      any (λ r. fullmatch r route) permission.routes
      && any (λ m. fullmatch_ignore_case m method) permission.methods

  -- `_raise_on_missing_permissions`
  unfoldable pub raise_on_missing_permissions : Text → Text → Yielded → Result (Unit {0})
  unfolding grants
  raise_on_missing_permissions route method [] = err Raised.http_forbidden
  raise_on_missing_permissions route method (err e ∷ permissions) = err e
  raise_on_missing_permissions route method (ok permission ∷ permissions) =
      let rest = raise_on_missing_permissions route method permissions in
      if grants route method permission then ok tt else rest
