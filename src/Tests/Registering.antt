-- ===== src/Tests/Registering.antt =====
-- Examples on the first login of users.
use odg_core.Prelude.{if◌then◌else◌, ◌≡◌, refl, false, none, List, [], ◌∷◌, All}
use odg_core.Prelude.Result.{Result, ok}
use odg_core.Prelude.Text.{Text, text, ◌==◌}
use odg_core.Auth.{
  SigningCfg, User, Users, put_user, Session, new_session, stored_tokens, SubjectType, Subject,
  UserIdentifier, IdpCfg, bindings_of, subject_matches, Directory, add_user, find_role_bindings,
  log_in,
}
use odg_core.Auth.Bound.{IsBound, log_in-IsBound}
use odg_core.Tests.Data.{wildcard}

abbrev signing_cfg : SigningCfg
signing_cfg = record {
  id = text "key";
  private_key = text "secret";
  public_key = [];
  algorithm = text "HS256";
  priority = 0;
}

abbrev team : Subject
team = record { subject_type = SubjectType.github_team; name = text "acme/security" }

abbrev app : Subject
app = record { subject_type = SubjectType.github_app; name = text "bot" }

abbrev github : IdpCfg
github = IdpCfg.oauth_cfg (
    record { subjects = app ∷ team ∷ []; roles = text "writer" ∷ text "reader" ∷ [] }
    ∷ record { subjects = app ∷ []; roles = text "admin" ∷ [] }
    ∷ [])

abbrev no_members : Text → Result (List Text)
no_members org = ok []

abbrev members : Text → Text → Result (List Text)
members org name = if name == text "security" then ok (text "jane" ∷ []) else ok []

abbrev jane : UserIdentifier
jane = UserIdentifier.github_user_identifier (text "jane")

abbrev no_hash : Text → Text
no_hash t = t

abbrev empty : Directory
empty = record { users = λ id. none; user_ids = λ key. none }

abbrev roles : List Text
roles = text "writer" ∷ text "reader" ∷ []

abbrev with_jane : Directory
unfolding add_user
with_jane = add_user (text "jane's key") (text "id") roles empty

abbrev jane_user : User
jane_user = record { role_bindings = roles; refresh_tokens = [] }

abbrev session : Session
unfolding new_session
session = new_session no_hash signing_cfg 1000000 (text "fresh") (text "id") false jane_user

abbrev users_after : Users
unfolding put_user stored_tokens with_jane
users_after = put_user (text "id") jane_user with_jane.users

finds_roles : find_role_bindings wildcard no_members members github jane ≡ ok roles
unfolding find_role_bindings
finds_roles = refl

logs_in :
    log_in wildcard no_members members no_hash
      (signing_cfg ∷ [])
      1000000
      (text "fresh")
      (text "id")
      (text "jane's key")
      github
      jane
      false
      empty
    ≡ ok (with_jane, ok (users_after, session))
unfolding log_in
logs_in = refl

log_in-IsBound_example :
    All
      (IsBound (subject_matches wildcard no_members members github jane) (bindings_of github))
      session.roles
log_in-IsBound_example =
    log_in-IsBound wildcard no_members members no_hash (signing_cfg ∷ []) 1000000 (text "fresh")
      (text "id") (text "jane's key") github jane false empty with_jane users_after session refl
      logs_in
