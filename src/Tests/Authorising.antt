-- ===== src/Tests/Authorising.antt =====
-- Examples on requests with tokens, and on sessions of users.
use odg_core.Prelude.{
  ℕ, zero, suc, ◌+◌, ◌≡◌, ◌≢◌, ◌⊎◌, ◌↔◌, refl, Bool, true, Option, none, some, List, [], ◌∷◌,
  Member, arith, if◌then◌else◌,
}
use odg_core.Prelude.Result.{ok, err, Raised}
use odg_core.Prelude.Text.{Text, text, ◌==◌}
use odg_core.Auth.{
  Permission, RoleBindings, filter_roles, find_permission, init_role_bindings,
  iter_user_permissions, raise_on_missing_permissions, AuthType, Request, Payload, SigningCfg,
  JwtError, Decoded, refused, decoded, Access, Environment, auth_middleware, User, Users, put_user,
  Session, set_session_and_refresh_token, new_session, stored_tokens, oauth_refresh, IssuedTokens,
  Served, Serves,
}
use odg_core.Auth.Yielded.{IsPermitted}
use odg_core.Auth.Permitted.{raise_on_missing_permissions_iff}
use odg_core.Auth.Mixed.{or_else, shadowed, find_permission-init_role_bindings}
use odg_core.Auth.Granted.{IsOpen, IsAuthorised, auth_middleware-IsAuthorised}
use odg_core.Auth.Rotated.{set_session_and_refresh_token_again}
use odg_core.Auth.Replayed.{Serves-refused}
use odg_core.Tests.Data.{wildcard}

abbrev read_all : Permission
read_all = record { name = text "read"; routes = text ".*" ∷ []; methods = text "GET" ∷ [] }

abbrev write_rescorings : Permission
write_rescorings = record {
  name = text "write";
  routes = text "/rescore" ∷ [];
  methods = text "GET" ∷ text "POST" ∷ [];
}

abbrev builtin_bindings : RoleBindings
builtin_bindings = record {
  permissions = record read_all { routes = text "/ready" ∷ [] } ∷ write_rescorings ∷ [];
  roles = record { name = text "reader"; permissions = text "read" ∷ [] } ∷ [];
}

abbrev own_bindings : RoleBindings
own_bindings = record {
  permissions = read_all ∷ [];
  roles = record { name = text "writer"; permissions = text "read" ∷ text "write" ∷ [] } ∷ [];
}

abbrev all_bindings : RoleBindings
all_bindings = record {
  permissions = read_all ∷ write_rescorings ∷ [];
  roles =
      record { name = text "writer"; permissions = text "read" ∷ text "write" ∷ [] }
      ∷ record { name = text "reader"; permissions = text "read" ∷ [] }
      ∷ [];
}

bindings_mixed : init_role_bindings builtin_bindings own_bindings ≡ all_bindings
unfolding init_role_bindings
bindings_mixed = refl

-- Two configured roles of a name, which both count, and a builtin one of the same name.
abbrev two_writers : RoleBindings
two_writers = record {
  permissions = read_all ∷ [];
  roles =
      record { name = text "reader"; permissions = [] }
      ∷ record { name = text "reader"; permissions = text "write" ∷ [] }
      ∷ [];
}

find_permission-init_role_bindings_example :
    (find_permission (text "reader") (init_role_bindings builtin_bindings two_writers)
      ≡ or_else
          (find_permission (text "reader") two_writers)
          (find_permission (text "reader") builtin_bindings))
    × (filter_roles (text "reader" ∷ []) (init_role_bindings builtin_bindings two_writers)
        ≡ shadowed
            (filter_roles (text "reader" ∷ []) two_writers)
            (filter_roles (text "reader" ∷ []) builtin_bindings))
find_permission-init_role_bindings_example =
    find_permission-init_role_bindings builtin_bindings two_writers (text "reader")

raise_on_missing_permissions_iff_example :
    (raise_on_missing_permissions wildcard wildcard
          (text "/rescore")
          (text "POST")
          (iter_user_permissions (text "writer" ∷ []) all_bindings)
        ≡ ok tt
      ↔ IsPermitted wildcard wildcard all_bindings
          (text "/rescore")
          (text "POST")
          (text "writer" ∷ []))
    × ((IsPermitted wildcard wildcard all_bindings
            (text "/rescore")
            (text "POST")
            (text "writer" ∷ [])
          → ⊥)
        → raise_on_missing_permissions wildcard wildcard
            (text "/rescore")
            (text "POST")
            (iter_user_permissions (text "writer" ∷ []) all_bindings)
          ≡ err Raised.http_forbidden)
unfolding find_permission
raise_on_missing_permissions_iff_example =
    raise_on_missing_permissions_iff wildcard wildcard all_bindings (text "/rescore") (text "POST")
      (text "writer" ∷ [])
      (((read_all, refl), ((write_rescorings, refl), tt)), (((read_all, refl), tt), tt))

abbrev signing_cfg : SigningCfg
signing_cfg = record {
  id = text "key";
  private_key = text "secret";
  public_key = [];
  algorithm = text "hs256";
  priority = 0;
}

abbrev session_payload : Payload
session_payload = record {
  version = some (text "v2");
  key_id = some (text "key");
  sub = some (text "user");
  identifier = none;
  roles = text "writer" ∷ [];
}

abbrev refresh_payload : Payload
refresh_payload = record session_payload {
  version = none;
  identifier = some (text "first");
  roles = [];
}

abbrev decode_token : Text → Text → Option SigningCfg → Bool → Decoded
decode_token token issuer key verify_signature =
    if token == text "session"
    then decoded session_payload
    else if token == text "refresh"
    then decoded refresh_payload
    else refused JwtError.decode_error

abbrev environment : Environment
environment = record {
  fullmatch = wildcard;
  fullmatch_ignore_case = wildcard;
  get_unverified_header =
      λ token. ok (record { typ = some (text "JWT"); alg = some (text "HS256") });
  jwt_decode = decode_token;
  import_key = λ key. ok tt;
  matches_schema = λ payload. true;
  signing_cfgs = signing_cfg ∷ [];
  rbac_cfgs = all_bindings ∷ [];
  builtin = builtin_bindings;
  issuer = text "issuer";
}

abbrev post_rescoring : Request
post_rescoring = record {
  method = text "POST";
  path = text "/rescore";
  authorization = some (text "Bearer session");
  bearer_token = none;
}

passes :
    auth_middleware environment AuthType.bearer post_rescoring
    ≡ ok (Access.authenticated (text "user") (text "writer" ∷ []))
unfolding auth_middleware
passes = refl

other_route :
    auth_middleware environment AuthType.bearer (record post_rescoring { path = text "/delete" })
    ≡ err Raised.http_forbidden
unfolding auth_middleware
other_route = refl

other_token :
    auth_middleware environment AuthType.bearer
      (record post_rescoring { authorization = some (text "Bearer a b") })
    ≡ err Raised.http_unauthorized
unfolding auth_middleware
other_token = refl

auth_middleware-IsAuthorised_example :
    (IsOpen AuthType.bearer post_rescoring
      × (Access.authenticated (text "user") (text "writer" ∷ []) ≡ Access.unchecked))
    ⊎ ((user : Text) × (roles : List Text) × (Access.authenticated
            (text "user")
            (text "writer" ∷ [])
          ≡ Access.authenticated user roles)
        × IsAuthorised environment post_rescoring user roles)
auth_middleware-IsAuthorised_example =
    auth_middleware-IsAuthorised environment AuthType.bearer post_rescoring
      (Access.authenticated (text "user") (text "writer" ∷ [])) passes

abbrev no_hash : Text → Text
no_hash t = t

abbrev no_users : Users
no_users = λ id. none

abbrev new_user : User
new_user = record { role_bindings = text "writer" ∷ text "writer" ∷ []; refresh_tokens = [] }

abbrev one_user : Users
unfolding put_user
one_user = put_user (text "user") new_user no_users

abbrev second : ℕ
second = 1000000

-- The user after a session with the refresh token of this identifier, begun at this time
abbrev user_with : ℕ → Text → User
unfolding stored_tokens
user_with now fresh = record new_user { refresh_tokens = stored_tokens now true fresh [] }

abbrev session_with : ℕ → Text → Session
unfolding new_session
session_with now fresh = new_session no_hash signing_cfg now fresh (text "user") true new_user

logs_in :
    set_session_and_refresh_token no_hash
      (signing_cfg ∷ [])
      second
      (text "first")
      (text "user")
      none
      true
      one_user
    ≡ ok (
      put_user (text "user") (user_with second (text "first")) one_user,
      session_with second (text "first"),
    )
unfolding set_session_and_refresh_token
logs_in = refl

refreshes :
    oauth_refresh no_hash environment
      (second + second)
      (text "second")
      (some (text "refresh"))
      (put_user (text "user") (user_with second (text "first")) one_user)
    ≡ ok (
      put_user
          (text "user")
          (user_with (second + second) (text "second"))
          (put_user (text "user") (user_with second (text "first")) one_user),
      session_with (second + second) (text "second"),
    )
unfolding oauth_refresh
refreshes = refl

set_session_and_refresh_token_again_example :
    (next : Users × Session) × (set_session_and_refresh_token no_hash
        (signing_cfg ∷ [])
        (second + second)
        (text "second")
        (text "user")
        (some (text "first"))
        true
        (put_user (text "user") (user_with second (text "first")) one_user)
      ≡ ok next)
set_session_and_refresh_token_again_example =
    set_session_and_refresh_token_again no_hash (signing_cfg ∷ []) second (second + second)
      (text "first") (text "user") (text "second") none one_user
      (put_user (text "user") (user_with second (text "first")) one_user)
      (session_with second (text "first")) logs_in (omega arith)

abbrev at_first : IssuedTokens
at_first = record { users = no_users; seen = []; used = [] }

abbrev signed_up : IssuedTokens
unfolding one_user
signed_up = record at_first { users = one_user }

abbrev logged_in : IssuedTokens
unfolding signed_up user_with
logged_in = record signed_up {
  users = put_user (text "user") (user_with second (text "first")) one_user;
  seen = text "first" ∷ [];
}

abbrev refreshed : IssuedTokens
unfolding logged_in
refreshed = record {
  users = put_user (text "user") (user_with (second + second) (text "second")) logged_in.users;
  seen = text "second" ∷ text "first" ∷ [];
  used = (text "user", text "first") ∷ [];
}

Member-nil : (t : Text) → Member t [] → ⊥
Member-nil t (i, e) = cc

second-first : Member (text "second") (text "first" ∷ []) → ⊥
second-first (zero, e) = cc
second-first (suc i, e) = cc

serves : Serves no_hash environment at_first refreshed
unfolding refreshed put_user
serves =
    Serves.next
      (Serves.next
        (Serves.next Serves.here
          (Served.sign_up (text "user") (text "writer" ∷ text "writer" ∷ []) refl refl))
        (Served.begin_session second (text "first") (text "user") true logged_in.users
          (session_with second (text "first")) (Member-nil (text "first")) logs_in refl))
      (Served.refresh (second + second) (text "second") (text "refresh") (text "user")
        (text "first") refresh_payload refreshed.users
        (session_with (second + second) (text "second")) second-first refl refl refl refreshes refl)

Serves-refused_example :
    oauth_refresh no_hash environment
      (second + second)
      (text "third")
      (some (text "refresh"))
      refreshed.users
    ≢ ok (refreshed.users, session_with second (text "third"))
unfolding refreshed
Serves-refused_example =
    Serves-refused no_hash environment at_first refreshed (second + second) (text "third")
      (text "refresh") (text "user") (text "first") refresh_payload
      (refreshed.users, session_with second (text "third")) (λ n. refl) refl serves (0, refl) refl
      refl refl
