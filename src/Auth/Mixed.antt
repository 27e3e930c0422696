-- ===== src/Auth/Mixed.antt =====
-- Builtin role bindings behind the configured ones (src/secret_mgmt/rbac.py).
use odg_core.Prelude.{
  ◌≡◌, refl, ◌∙◌, subst, ap, Bool, true, false, Option, none, some, List, [], ◌∷◌, ◌++◌, any,
  select, arith, Bool-cases, inl, inr,
}
use odg_core.Prelude.Text.{Text, ◌==◌, eq→path, eq_comm}
use odg_core.Auth.Rbac.{
  Permission, Role, RoleBindings, find_named, mix_in, permission_name, role_name,
  init_role_bindings, find_permission, has_role_name, filter_roles,
}

-- The first, or the second if the first is missing
abbrev pub or_else {ℓ} : {A : Type ℓ} → Option A → Option A → Option A
or_else none b = b
or_else (some a) b = some a

-- All of the first list, or the first item of the second if the first list has none
abbrev pub shadowed {ℓ} : {A : Type ℓ} → List A → List A → List A
shadowed [] [] = []
shadowed [] (b ∷ builtin) = b ∷ []
shadowed (x ∷ xs) builtin = x ∷ xs

module _ {ℓ} {A : Type ℓ} where
  abbrev head : List A → Option A
  head [] = none
  head (x ∷ xs) = some x

  head-shadowed : (xs ys : List A) → head (shadowed xs ys) ≡ or_else (head xs) (head ys)
  head-shadowed [] [] = refl
  head-shadowed [] (y ∷ ys) = refl
  head-shadowed (x ∷ xs) ys = refl

  shadowed-nil : (xs : List A) → xs ≡ shadowed xs []
  shadowed-nil [] = refl
  shadowed-nil (x ∷ xs) = refl

  select-snoc-true :
      (p : A → Bool) (xs : List A) (b : A)
      → p b ≡ true
      → select p (xs ++ b ∷ []) ≡ select p xs ++ b ∷ []
  unfolding select
  select-snoc-true p [] b h = rw (select, h) refl
  select-snoc-true p (x ∷ xs) b h = elim (Bool-cases (p x)) [
    | inl e ↦ rw (select, e) (ap (λ ys. x ∷ ys) (select-snoc-true p xs b h))
    | inr e ↦ rw (select, e) (select-snoc-true p xs b h)
  ]

  select-snoc-false :
      (p : A → Bool) (xs : List A) (b : A) → p b ≡ false → select p (xs ++ b ∷ []) ≡ select p xs
  unfolding select
  select-snoc-false p [] b h = rw (select, h) refl
  select-snoc-false p (x ∷ xs) b h = elim (Bool-cases (p x)) [
    | inl e ↦ rw (select, e) (ap (λ ys. x ∷ ys) (select-snoc-false p xs b h))
    | inr e ↦ rw (select, e) (select-snoc-false p xs b h)
  ]

  select-any-true :
      (p : A → Bool) (xs : List A)
      → any p xs ≡ true
      → (y : A) × (ys : List A) × (select p xs ≡ y ∷ ys)
  unfolding select any
  select-any-true p [] h = cc
  select-any-true p (x ∷ xs) h = elim (Bool-cases (p x)) [
    | inl e ↦ (x, select p xs, rw (select, e) refl)
    | inr e ↦ let (y, ys, at) = select-any-true p xs (ground arith) in (y, ys, rw (select, e) at)
  ]

  select-any-false : (p : A → Bool) (xs : List A) → any p xs ≡ false → select p xs ≡ []
  unfolding select any
  select-any-false p [] h = refl
  select-any-false p (x ∷ xs) h = elim (Bool-cases (p x)) [
    | inl e ↦ absurd (ground arith)
    | inr e ↦ rw (select, e) (select-any-false p xs (ground arith))
  ]

module _ {ℓ} {A : Type ℓ} (name_of : A → Text) (name : Text) where
  abbrev named : A → Bool
  named x = name_of x == name

  -- The builtin items shadow no configured one, and no two of them with a name both count.
  select-mix_in :
      (builtin configured : List A)
      → select named (mix_in name_of builtin configured)
        ≡ shadowed (select named configured) (select named builtin)
  unfolding mix_in select
  select-mix_in [] configured = shadowed-nil (select named configured)
  select-mix_in (b ∷ builtin) configured =
      elim (Bool-cases (any (λ x. name_of x == name_of b) configured)) [
        | inl known ↦ rw (mix_in, known) (select-mix_in builtin configured ∙ skip known)
        | inr missing ↦
            rw (mix_in, missing) (select-mix_in builtin (configured ++ b ∷ []) ∙ keep missing)
      ]
    where
      skip :
          any (λ x. name_of x == name_of b) configured ≡ true
          → shadowed (select named configured) (select named builtin)
            ≡ shadowed (select named configured) (select named (b ∷ builtin))
      skip known = elim (Bool-cases (name_of b == name)) [
        | inl same ↦
            let known' : any named configured ≡ true =
              subst (λ n. any (λ x. name_of x == n) configured ≡ true)
                (eq→path (name_of b) name same) known in
            let (y, ys, at) = select-any-true named configured known' in rw at refl
        | inr differ ↦ rw (select, differ) refl
      ]

      keep :
          any (λ x. name_of x == name_of b) configured ≡ false
          → shadowed (select named (configured ++ b ∷ [])) (select named builtin)
            ≡ shadowed (select named configured) (select named (b ∷ builtin))
      keep missing = elim (Bool-cases (name_of b == name)) [
        | inl same ↦
            let missing' : any named configured ≡ false =
              subst (λ n. any (λ x. name_of x == n) configured ≡ false)
                (eq→path (name_of b) name same) missing in
            let nothing = select-any-false named configured missing' in
            rw (select-snoc-true named configured b same, nothing, select, same) refl
        | inr differ ↦ rw (select-snoc-false named configured b differ, select, differ) refl
      ]

find_named-head :
    (name : Text) (ps : List Permission)
    → find_named name ps ≡ head (select (named permission_name name) ps)
unfolding find_named select
find_named-head name [] = refl
find_named-head name (p ∷ ps) = elim (Bool-cases (p.name == name)) [
  | inl e ↦ rw (find_named, select, e) refl
  | inr e ↦ rw (find_named, select, e) (find_named-head name ps)
]

filter_roles-named :
    (name : Text) (roles : List Role)
    → select (has_role_name (name ∷ [])) roles ≡ select (named role_name name) roles
unfolding select has_role_name any
filter_roles-named name [] = refl
filter_roles-named name (r ∷ roles) = elim (Bool-cases (name == r.name)) [
  | inl e ↦
      rw (select, has_role_name, any, eq_comm r.name name, e)
        (ap (λ rs. r ∷ rs) (filter_roles-named name roles))
  | inr e ↦ rw (select, has_role_name, any, eq_comm r.name name, e) (filter_roles-named name roles)
]

-- Of RoleBindings after __post_init__, a name stands for the first configured permission of this
-- name, and for all configured roles of this name; where no such permission or role is configured,
-- for the first builtin one.
pub find_permission-init_role_bindings :
    (builtin configured : RoleBindings) (name : Text)
    → (find_permission name (init_role_bindings builtin configured)
        ≡ or_else (find_permission name configured) (find_permission name builtin))
      × (filter_roles (name ∷ []) (init_role_bindings builtin configured)
          ≡ shadowed (filter_roles (name ∷ []) configured) (filter_roles (name ∷ []) builtin))
unfolding init_role_bindings find_permission filter_roles
find_permission-init_role_bindings builtin configured name = (
  rw
      (
        find_named-head name (mix_in permission_name builtin.permissions configured.permissions),
        find_named-head name configured.permissions,
        find_named-head name builtin.permissions,
        select-mix_in permission_name name builtin.permissions configured.permissions,
      )
      (head-shadowed _ _),
  rw
      (
        filter_roles-named name (mix_in role_name builtin.roles configured.roles),
        filter_roles-named name configured.roles,
        filter_roles-named name builtin.roles,
      )
      (select-mix_in role_name name builtin.roles configured.roles),
)
