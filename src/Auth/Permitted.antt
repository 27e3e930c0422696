-- ===== src/Auth/Permitted.antt =====
-- Which requests the permissions of a user's roles allow (`_iter_user_permissions` and
-- `_raise_on_missing_permissions` of src/middleware/auth.py).
use odg_core.Prelude.{◌≡◌, ◌↔◌, inl, inr, ◌∙◌, ap, Bool, true, some, List, All, Member, select}
use odg_core.Prelude.Members.{any→Member, Member→any, Member-of_select, Member-select, All-select}
use odg_core.Prelude.Result.{ok, err, Raised}
use odg_core.Prelude.Text.{Text, ◌==◌, eq→path, eq_refl}
use odg_core.Auth.Rbac.{
  Role, RoleBindings, has_role_name, filter_roles, iter_user_permissions,
  raise_on_missing_permissions,
}
use odg_core.Auth.Yielded.{
  IsPermitted, IsResolved, check, yield_of_roles-granted, yield_of_roles-refused,
}

module _ (fullmatch fullmatch_ignore_case : Text → Text → Bool) (bindings : RoleBindings)
    (route method : Text) where
  has_role_name-Member :
      (names : List Text) (role : Role) → has_role_name names role ≡ true → Member role.name names
  unfolding has_role_name
  has_role_name-Member names role h =
      let (n, (i, m), same) = any→Member (λ n. n == role.name) names h in
      (i, m ∙ ap some (eq→path n role.name same))

  Member-has_role_name :
      (names : List Text) (role : Role) → Member role.name names → has_role_name names role ≡ true
  unfolding has_role_name
  Member-has_role_name names role member =
      Member→any (λ n. n == role.name) names role.name member (eq_refl role.name)

  -- If the checks of a request's permissions pass, then a configured role that the user has grants
  -- the request.
  pub check-IsPermitted :
      (role_names : List Text)
      → raise_on_missing_permissions fullmatch fullmatch_ignore_case route method
          (iter_user_permissions role_names bindings)
        ≡ ok tt
      → IsPermitted fullmatch fullmatch_ignore_case bindings route method role_names
  unfolding iter_user_permissions filter_roles check
  check-IsPermitted role_names h =
      let (role, member, granted) =
        yield_of_roles-granted fullmatch fullmatch_ignore_case bindings route method
          (select (has_role_name role_names) bindings.roles) h in
      let (configured, named) =
        Member-of_select (has_role_name role_names) bindings.roles role member in
      (role, configured, has_role_name-Member role_names role named, granted)

  -- If all configured roles name configured permissions, then _raise_on_missing_permissions lets a
  -- request pass exactly if one of the user's roles has a permission with a route and a method
  -- that match it, and otherwise raises HTTPForbidden.
  pub raise_on_missing_permissions_iff :
      (role_names : List Text)
      → All (IsResolved fullmatch fullmatch_ignore_case bindings route method) bindings.roles
      → (raise_on_missing_permissions fullmatch fullmatch_ignore_case route method
              (iter_user_permissions role_names bindings)
            ≡ ok tt
          ↔ IsPermitted fullmatch fullmatch_ignore_case bindings route method role_names)
        × ((IsPermitted fullmatch fullmatch_ignore_case bindings route method role_names → ⊥)
            → raise_on_missing_permissions fullmatch fullmatch_ignore_case route method
                (iter_user_permissions role_names bindings)
              ≡ err Raised.http_forbidden)
  unfolding iter_user_permissions filter_roles check
  raise_on_missing_permissions_iff role_names resolved =
      let roles = select (has_role_name role_names) bindings.roles in
      let all : All (IsResolved fullmatch fullmatch_ignore_case bindings route method) roles =
        All-select (IsResolved fullmatch fullmatch_ignore_case bindings route method)
          (has_role_name role_names) bindings.roles resolved in
      elim (yield_of_roles-refused fullmatch fullmatch_ignore_case bindings route method roles
        all) [
          | inl granted ↦ (
            (λ h. check-IsPermitted role_names h, λ permitted. granted),
            λ refused. absurd (refused (check-IsPermitted role_names granted)),
          )
          | inr (none_grants, forbidden) ↦ (
            (
              λ h. check-IsPermitted role_names h,
              λ (role, configured, named, granted). absurd (
                  none_grants role
                    (Member-select (has_role_name role_names) bindings.roles role configured
                      (Member-has_role_name role_names role named))
                    granted),
            ),
            λ refused. forbidden,
          )
        ]
