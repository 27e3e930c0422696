-- ===== src/Auth/Logins.antt =====
-- src/middleware/auth.py: the roles of a new user, and the login once the user is identified.
use odg_core.Prelude.{
  ℕ, Bool, true, false, any, Option, none, some, List, [], ◌∷◌, ◌++◌, if◌then◌else◌,
}
use odg_core.Prelude.Result.{Result, ok, err, Raised, ◌>>=◌}
use odg_core.Prelude.Text.{Text, ◌==◌}
use odg_core.Cvss.{split}
use odg_core.Auth.Requests.{SigningCfg}
use odg_core.Auth.Sessions.{Users, put_user, Session, set_session_and_refresh_token}

pub data SubjectType : Type 0 where
  github_app github_user github_org github_team oidc_sub : SubjectType

pub record Subject : Type 0 where
  pub subject_type : SubjectType
  pub name : Text

pub record RoleBinding : Type 0 where
  pub subjects : List Subject
  pub roles : List Text

-- `GitHubUserIdentifier`, `GitHubAppIdentifier` and `OidcIdentifier`, without the host or issuer
pub data UserIdentifier : Type 0 where
  github_user_identifier github_app_identifier oidc_identifier : Text → UserIdentifier

-- The role bindings of an `OAuthCfg` for GitHub, or of an `OidcCfg`
pub data IdpCfg : Type 0 where
  oauth_cfg oidc_cfg : List RoleBinding → IdpCfg

-- `re.fullmatch(pattern, value)`, and what GitHub answers for the members of an organisation or team
module _ (fullmatch : Text → Text → Bool) (org_members : Text → Result (List Text))
    (team_members : Text → Text → Result (List Text)) where
  unfoldable pub user_matches : Text → Subject → Result Bool
  unfolding any ◌==◌ split
  user_matches username subject = elim subject.subject_type [
    | github_user ↦ ok (fullmatch subject.name username)
    | github_org ↦ do members ← org_members subject.name; ok (any (λ m. m == username) members)
    | github_team ↦ elim (split b'/' subject.name) [
      | org ∷ team ∷ [] ↦ do members ← team_members org team; ok (any (λ m. m == username) members)
      | _ ↦ err Raised.value_error
    ]
    | _ ↦ ok false
  ]

  -- The test of `find_github_subject` for one subject
  unfoldable pub github_matches : UserIdentifier → Subject → Result Bool
  unfolding user_matches
  github_matches (github_user_identifier username) subject = user_matches username subject
  github_matches (github_app_identifier app_name) subject = elim subject.subject_type [
    | github_app ↦ ok (fullmatch subject.name app_name)
    | _ ↦ ok false
  ]
  github_matches (oidc_identifier sub) subject = ok false

  -- The test of `find_oidc_subject` for one subject; other identifiers have no `sub`.
  unfoldable pub oidc_matches : UserIdentifier → Subject → Result Bool
  oidc_matches (oidc_identifier sub) subject = elim subject.subject_type [
    | oidc_sub ↦ ok (fullmatch subject.name sub)
    | _ ↦ ok false
  ]
  oidc_matches (github_user_identifier name) subject = elim subject.subject_type [
    | oidc_sub ↦ err Raised.attribute_error
    | _ ↦ ok false
  ]
  oidc_matches (github_app_identifier name) subject = elim subject.subject_type [
    | oidc_sub ↦ err Raised.attribute_error
    | _ ↦ ok false
  ]

  unfoldable pub subject_matches : IdpCfg → UserIdentifier → Subject → Result Bool
  unfolding github_matches oidc_matches
  subject_matches (oauth_cfg bindings) identifier subject = github_matches identifier subject
  subject_matches (oidc_cfg bindings) identifier subject = oidc_matches identifier subject

-- Whether `find_github_subject` or `find_oidc_subject` find one; the first ends the search.
unfoldable pub has_subject : (Subject → Result Bool) → List Subject → Result Bool
has_subject matches [] = ok false
has_subject matches (subject ∷ subjects) = do
  found ← matches subject
  let rest = has_subject matches subjects
  if found then ok true else rest

-- The loops over the role bindings, with the names of what they yield. A set of them is stored, but
-- what reads them only asks whether there are any, and which names they have.
unfoldable pub bound_roles : (Subject → Result Bool) → List RoleBinding → Result (List Text)
unfolding has_subject
bound_roles matches [] = ok []
bound_roles matches (binding ∷ bindings) = do
  found ← has_subject matches binding.subjects
  rest ← bound_roles matches bindings
  ok (if found then binding.roles ++ rest else rest)

abbrev pub bindings_of : IdpCfg → List RoleBinding
bindings_of (oauth_cfg bindings) = bindings
bindings_of (oidc_cfg bindings) = bindings

-- The users, and the ids of users by the keys of their identifiers
pub record Directory : Type 0 where
  pub users : Users
  pub user_ids : Text → Option Text

unfoldable pub add_user : Text → Text → List Text → Directory → Directory
unfolding put_user ◌==◌
add_user key user_id role_bindings directory = record {
  users =
      put_user user_id (record { role_bindings = role_bindings; refresh_tokens = [] })
        directory.users;
  user_ids = λ k. if k == key then some user_id else directory.user_ids k;
}

module _ (fullmatch : Text → Text → Bool) (org_members : Text → Result (List Text))
    (team_members : Text → Text → Result (List Text)) where
  -- `find_role_bindings`
  unfoldable pub find_role_bindings : IdpCfg → UserIdentifier → Result (List Text)
  unfolding bound_roles subject_matches
  find_role_bindings cfg identifier =
      bound_roles (subject_matches fullmatch org_members team_members cfg identifier)
        (bindings_of cfg)

  -- `OAuthLogin.get` once the identifier is known, with a fresh id for a new user: the directory
  -- with the user, who is kept even if no session is set, and what the session gives.
  unfoldable pub log_in :
      (hash : Text → Text)
      → List SigningCfg
      → ℕ
      → Text
      → Text
      → Text
      → IdpCfg
      → UserIdentifier
      → Bool
      → Directory
      → Result (Directory × Result (Users × Session))
  unfolding find_role_bindings set_session_and_refresh_token add_user
  log_in hash cfgs now fresh new_id key cfg identifier use_refresh_token directory =
      let set : Text → Directory → Result (Users × Session) = λ user_id d.
        set_session_and_refresh_token hash cfgs now fresh user_id none use_refresh_token d.users in
      elim (directory.user_ids key) [
        | some user_id ↦ ok (directory, set user_id directory)
        | none ↦ do
          role_bindings ← find_role_bindings cfg identifier
          let added = add_user key new_id role_bindings directory
          ok (added, set new_id added)
      ]
