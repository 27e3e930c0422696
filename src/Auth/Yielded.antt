-- ===== src/Auth/Yielded.antt =====
-- Which permissions of a user the checks of a request go through (src/middleware/auth.py).
use odg_core.Prelude.{
  zero, suc, ◌≡◌, ◌⊎◌, inl, inr, refl, sym, subst, ◌∙◌, ap, Bool, true, false, none, some, List, [],
  ◌∷◌, All, Member, arith, Bool-cases, Option-cases,
}
use odg_core.Prelude.Members.{any→Member, Member→any, Member-there}
use odg_core.Prelude.Result.{Result, ok, err, Raised}
use odg_core.Prelude.Text.{Text}
use odg_core.Auth.Rbac.{
  Permission, Role, RoleBindings, find_permission, Yielded, yield_permissions, yield_of_roles,
  grants, raise_on_missing_permissions,
}

-- The permission has a route and a method that match those of the request.
abbrev pub IsGranting :
    (Text → Text → Bool) → (Text → Text → Bool) → Text → Text → Permission → Type 0
IsGranting fullmatch fullmatch_ignore_case route method permission =
    ((r : Text) × Member r permission.routes × (fullmatch r route ≡ true))
    × ((m : Text) × Member m permission.methods × (fullmatch_ignore_case m method ≡ true))

module _ (fullmatch fullmatch_ignore_case : Text → Text → Bool) (bindings : RoleBindings)
    (route method : Text) where
  -- One of the names is that of a granting permission.
  abbrev pub IsGrantedBy : List Text → Type 0
  IsGrantedBy names =
      (name : Text) × (permission : Permission) × Member name names
      × (find_permission name bindings ≡ some permission)
      × IsGranting fullmatch fullmatch_ignore_case route method permission

  -- A configured role that the user has grants the request.
  abbrev pub IsPermitted : List Text → Type 0
  IsPermitted role_names =
      (role : Role) × Member role bindings.roles
      × Member role.name role_names
      × IsGrantedBy role.permissions

  -- A configured role only names permissions that are configured.
  abbrev pub IsResolved : Role → Type 0
  IsResolved role =
      All (λ name. (p : Permission) × (find_permission name bindings ≡ some p)) role.permissions

  granted→IsGranting :
      (p : Permission)
      → grants fullmatch fullmatch_ignore_case route method p ≡ true
      → IsGranting fullmatch fullmatch_ignore_case route method p
  unfolding grants
  granted→IsGranting p h =
      (any→Member _ p.routes (ground arith), any→Member _ p.methods (ground arith))

  IsGranting→granted :
      (p : Permission)
      → IsGranting fullmatch fullmatch_ignore_case route method p
      → grants fullmatch fullmatch_ignore_case route method p ≡ true
  unfolding grants
  IsGranting→granted p ((r, mr, hr), (m, mm, hm)) =
      let one = Member→any (λ r. fullmatch r route) p.routes r mr hr in
      let two = Member→any (λ m. fullmatch_ignore_case m method) p.methods m mm hm in ground arith

  unfoldable pub check : Yielded → Result (Unit {0})
  unfolding raise_on_missing_permissions
  check yielded = raise_on_missing_permissions fullmatch fullmatch_ignore_case route method yielded

  module _ (name : Text) (names : List Text) (rest : Yielded) where
    check-missing :
        find_permission name bindings ≡ none
        → check (yield_permissions bindings (name ∷ names) rest) ≡ err Raised.http_unauthorized
    unfolding check yield_permissions
    check-missing missing = rw (yield_permissions, missing) refl

    check-granted :
        (p : Permission)
        → find_permission name bindings ≡ some p
        → grants fullmatch fullmatch_ignore_case route method p ≡ true
        → check (yield_permissions bindings (name ∷ names) rest) ≡ ok tt
    unfolding check yield_permissions
    check-granted p found granted =
        rw (yield_permissions, found, raise_on_missing_permissions, granted) refl

    check-refused :
        (p : Permission)
        → find_permission name bindings ≡ some p
        → grants fullmatch fullmatch_ignore_case route method p ≡ false
        → check (yield_permissions bindings (name ∷ names) rest)
          ≡ check (yield_permissions bindings names rest)
    unfolding check yield_permissions
    check-refused p found refused =
        rw (yield_permissions, found, raise_on_missing_permissions, refused) refl

  yield_permissions-granted :
      (names : List Text) (rest : Yielded)
      → check (yield_permissions bindings names rest) ≡ ok tt
      → IsGrantedBy names ⊎ (check rest ≡ ok tt)
  unfolding yield_permissions
  yield_permissions-granted [] rest h = inr h
  yield_permissions-granted (name ∷ names) rest h =
      elim (Option-cases (find_permission name bindings)) [
        | inl missing ↦ absurd (let e = sym (check-missing name names rest missing) ∙ h in cc)
        | inr (p, found) ↦
            elim (Bool-cases (grants fullmatch fullmatch_ignore_case route method p)) [
              | inl granted ↦ inl (name, p, (0, refl), found, granted→IsGranting p granted)
              | inr refused ↦
                  elim (yield_permissions-granted names rest
                    (sym (check-refused name names rest p found refused) ∙ h)) [
                      | inl (n, q, m, f, g) ↦ inl (n, q, Member-there name n names m, f, g)
                      | inr later ↦ inr later
                    ]
            ]
      ]

  pub yield_of_roles-granted :
      (roles : List Role)
      → check (yield_of_roles bindings roles) ≡ ok tt
      → (role : Role) × Member role roles × IsGrantedBy role.permissions
  unfolding yield_of_roles check
  yield_of_roles-granted [] h = cc
  yield_of_roles-granted (role ∷ roles) h =
      elim (yield_permissions-granted role.permissions (yield_of_roles bindings roles) h) [
        | inl here ↦ (role, (0, refl), here)
        | inr there ↦
            let (r, m, g) = yield_of_roles-granted roles there in
            (r, Member-there role r roles m, g)
      ]

  -- If all names are those of configured permissions, then one of them grants, or what comes later
  -- decides.
  yield_permissions-refused :
      (names : List Text) (rest : Yielded)
      → All (λ name. (p : Permission) × (find_permission name bindings ≡ some p)) names
      → (check (yield_permissions bindings names rest) ≡ ok tt)
        ⊎ ((IsGrantedBy names → ⊥) × (check (yield_permissions bindings names rest) ≡ check rest))
  unfolding yield_permissions
  yield_permissions-refused [] rest resolved =
      inr ((λ (name, p, (i, e), found, granting). cc), refl)
  yield_permissions-refused (name ∷ names) rest ((p, found), resolved) =
      elim (Bool-cases (grants fullmatch fullmatch_ignore_case route method p)) [
        | inl granted ↦ inl (check-granted name names rest p found granted)
        | inr refused ↦
            let skip = check-refused name names rest p found refused in
            elim (yield_permissions-refused names rest resolved) [
              | inl later ↦ inl (skip ∙ later)
              | inr (none_grants, same) ↦ inr (every refused none_grants, skip ∙ same)
            ]
      ]
    where
      every :
          grants fullmatch fullmatch_ignore_case route method p ≡ false
          → (IsGrantedBy names → ⊥)
          → IsGrantedBy (name ∷ names)
          → ⊥
      every refused others (n, q, (zero, e), found', granting) =
          let named : name ≡ n = cc in
          let both : some p ≡ some q =
            sym found ∙ (ap (λ m. find_permission m bindings) named ∙ found') in
          let same : q ≡ p = cc in
          let granted =
            IsGranting→granted p
              (subst (IsGranting fullmatch fullmatch_ignore_case route method) same granting) in
          cc
      every refused others (n, q, (suc i, e), found', granting) =
          others (n, q, (i, e), found', granting)

  pub yield_of_roles-refused :
      (roles : List Role)
      → All IsResolved roles
      → (check (yield_of_roles bindings roles) ≡ ok tt)
        ⊎ (((role : Role) → Member role roles → IsGrantedBy role.permissions → ⊥)
            × (check (yield_of_roles bindings roles) ≡ err Raised.http_forbidden))
  unfolding yield_of_roles check
  yield_of_roles-refused [] resolved = inr ((λ role (i, e) granted. cc), refl)
  yield_of_roles-refused (role ∷ roles) (here, there) =
      elim (yield_permissions-refused role.permissions (yield_of_roles bindings roles) here) [
        | inl granted ↦ inl granted
        | inr (none_grants, same) ↦ elim (yield_of_roles-refused roles there) [
          | inl granted ↦ inl (same ∙ granted)
          | inr (none_later, forbidden) ↦ inr (every none_grants none_later, same ∙ forbidden)
        ]
      ]
    where
      every :
          (IsGrantedBy role.permissions → ⊥)
          → ((r : Role) → Member r roles → IsGrantedBy r.permissions → ⊥)
          → (r : Role) → Member r (role ∷ roles)
          → IsGrantedBy r.permissions
          → ⊥
      every here later r (zero, e) granted =
          let same : r ≡ role = cc in here (subst (λ q. IsGrantedBy q.permissions) same granted)
      every here later r (suc i, e) granted = later r (i, e) granted
