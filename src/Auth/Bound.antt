-- ===== src/Auth/Bound.antt =====
-- Which roles a new user gets at the first login (src/middleware/auth.py).
use odg_core.Prelude.{
  ℕ, ◌≡◌, refl, sym, subst, ◌∙◌, ap, Bool, true, false, any, Option, none, some, List, [], ◌∷◌,
  ◌++◌, All, All-append, All-map_of, All-of_Member, Member, Bool-cases, is_empty, inl, inr,
  if◌then◌else◌,
}
use odg_core.Prelude.Members.{Member-there}
use odg_core.Prelude.Result.{Result, ok, Raised, raise_if, >>=-eq-ok}
use odg_core.Prelude.Text.{Text, ◌==◌}
use odg_core.Auth.Requests.{SigningCfg}
use odg_core.Auth.Sessions.{
  User, Users, Session, find_signing_cfg, find_user, take_token, hash_existing, new_session,
  distinct_names, set_session_and_refresh_token,
}
use odg_core.Auth.Logins.{
  Subject, RoleBinding, UserIdentifier, IdpCfg, bindings_of, subject_matches, has_subject,
  bound_roles, Directory, add_user, find_role_bindings, log_in,
}
use odg_core.Auth.Rotated.{get_user-put_user_self, find_user-some}

module _ (matches : Subject → Result Bool) where
  -- The role is one of a binding that has a matching subject.
  abbrev pub IsBound : List RoleBinding → Text → Type 0
  IsBound bindings role =
      (binding : RoleBinding) × Member binding bindings
      × Member role binding.roles
      × ((subject : Subject) × Member subject binding.subjects × (matches subject ≡ ok true))

  has_subject-Member :
      (subjects : List Subject)
      → has_subject matches subjects ≡ ok true
      → (subject : Subject) × Member subject subjects × (matches subject ≡ ok true)
  unfolding has_subject
  has_subject-Member [] e = cc
  has_subject-Member (subject ∷ subjects) e =
      let (found, f, rest) = >>=-eq-ok (matches subject) _ e in
      elim (Bool-cases found) [
        | inl here ↦ (subject, (0, refl), f ∙ ap ok here)
        | inr there ↦
            let later : has_subject matches subjects ≡ ok true = rw there at rest in
            let (s, member, matching) = has_subject-Member subjects later in
            (s, Member-there subject s subjects member, matching)
      ]

  IsBound-there :
      (binding : RoleBinding) (bindings : List RoleBinding) (role : Text)
      → IsBound bindings role
      → IsBound (binding ∷ bindings) role
  IsBound-there binding bindings role (b, member, named, subject) =
      (b, Member-there binding b bindings member, named, subject)

  bound_roles-IsBound :
      (bindings : List RoleBinding) (roles : List Text)
      → bound_roles matches bindings ≡ ok roles
      → All (IsBound bindings) roles
  unfolding bound_roles
  bound_roles-IsBound [] roles e = let same : [] ≡ roles = cc in subst (All (IsBound [])) same tt
  bound_roles-IsBound (binding ∷ bindings) roles e =
      let (found, f, e1) = >>=-eq-ok (has_subject matches binding.subjects) _ e in
      let (rest, r, e2) = >>=-eq-ok (bound_roles matches bindings) _ e1 in
      let later : All (IsBound (binding ∷ bindings)) rest =
        All-map_of (IsBound bindings) _ (IsBound-there binding bindings) rest
          (bound_roles-IsBound bindings rest r) in
      let same : (if found then binding.roles ++ rest else rest) ≡ roles = cc in
      subst (All (IsBound (binding ∷ bindings))) same (decided found f rest later)
    where
      decided :
          (found : Bool)
          → has_subject matches binding.subjects ≡ ok found
          → (rest : List Text) → All (IsBound (binding ∷ bindings)) rest
          → All (IsBound (binding ∷ bindings)) (if found then binding.roles ++ rest else rest)
      decided false f rest later = later
      decided true f rest later =
          let subject = has_subject-Member binding.subjects f in
          All-append _ binding.roles rest
            (All-of_Member _ binding.roles (λ role member. (binding, (0, refl), member, subject)))
            later

All-distinct_names {κ} :
    (P : Text → Type κ) (names : List Text) → All P names → All P (distinct_names names)
unfolding distinct_names
All-distinct_names P [] h = tt
All-distinct_names P (name ∷ names) h =
    elim (Bool-cases (any (λ n. n == name) (distinct_names names))) [
      | inl known ↦ rw (distinct_names, known) (All-distinct_names P names h.1)
      | inr new ↦ rw (distinct_names, new) (h.0, All-distinct_names P names h.1)
    ]

-- The roles of a session are those of its user.
set_session-roles :
    (hash : Text → Text) (cfgs : List SigningCfg) (now : ℕ) (fresh user_id : Text)
    (existing : Option Text) (use_refresh_token : Bool) (users users' : Users) (session : Session)
    (user : User)
    → set_session_and_refresh_token hash cfgs now fresh user_id existing use_refresh_token users
      ≡ ok (users', session)
    → users user_id ≡ some user
    → session.roles ≡ distinct_names user.role_bindings
unfolding set_session_and_refresh_token new_session
set_session-roles hash cfgs now fresh user_id existing use_refresh_token users users' session user e
      stored =
    let (cfg, c, e1) = >>=-eq-ok (find_signing_cfg cfgs) _ e in
    let (u, f, e2) = >>=-eq-ok (find_user user_id users) _ e1 in
    let (a, authorised, e3) =
      >>=-eq-ok (raise_if (is_empty u.role_bindings) Raised.http_unauthorized) _ e2 in
    let (left, taken, e4) =
      >>=-eq-ok (take_token now (hash_existing hash existing) u.refresh_tokens) _ e3 in
    let both : some u ≡ some user = sym (find_user-some user_id users u f) ∙ stored in
    let same : u ≡ user = cc in
    sym (second _ _ e4) ∙ ap (λ (v : User). distinct_names v.role_bindings) same
  where
    second : (o p : Users × Session) → ok o ≡ ok p → o.1.roles ≡ p.1.roles
    second o p e = let path : o ≡ p = cc in ap (λ (q : Users × Session). q.1.roles) path

module _ (fullmatch : Text → Text → Bool) (org_members : Text → Result (List Text))
    (team_members : Text → Text → Result (List Text)) where
  -- If OAuthLogin gives a session to an identifier that was not known before, then each role of the
  -- session is one of a configured role binding with a subject that matches the identifier.
  pub log_in-IsBound :
      (hash : Text → Text) (cfgs : List SigningCfg) (now : ℕ) (fresh new_id key : Text)
      (cfg : IdpCfg) (identifier : UserIdentifier) (use_refresh_token : Bool)
      (directory after : Directory) (users : Users) (session : Session)
      → directory.user_ids key ≡ none
      → log_in fullmatch org_members team_members hash cfgs now fresh new_id key cfg identifier
          use_refresh_token directory
        ≡ ok (after, ok (users, session))
      → All
          (IsBound
            (subject_matches fullmatch org_members team_members cfg identifier)
            (bindings_of cfg))
          session.roles
  unfolding log_in add_user find_role_bindings
  log_in-IsBound hash cfgs now fresh new_id key cfg identifier use_refresh_token directory after
        users session unknown e =
      let (roles, found, e1) =
        >>=-eq-ok (find_role_bindings fullmatch org_members team_members cfg identifier) _
          (rw (log_in, unknown) at e) in
      let set : set_session_and_refresh_token hash cfgs now fresh new_id none use_refresh_token
            (add_user key new_id roles directory).users
          ≡ ok (users, session) =
        second _ _ e1 in
      let same =
        set_session-roles hash cfgs now fresh new_id none use_refresh_token
          (add_user key new_id roles directory).users users session
          (record { role_bindings = roles; refresh_tokens = [] }) set
          (get_user-put_user_self new_id _ directory.users) in
      subst (All _) (sym same) (
        All-distinct_names _ roles (
          bound_roles-IsBound (subject_matches fullmatch org_members team_members cfg identifier)
            (bindings_of cfg) roles found))
    where
      second : (o p : Directory × Result (Users × Session)) → ok o ≡ ok p → o.1 ≡ p.1
      second o p e =
          let path : o ≡ p = cc in ap (λ (q : Directory × Result (Users × Session)). q.1) path
