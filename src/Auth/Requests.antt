-- ===== src/Auth/Requests.antt =====
-- src/middleware/auth.py: tokens of requests, and the middleware that checks them.
use odg_core.Prelude.{
  ℕ, ◌+◌, ◌-◌, Bool, true, false, not, ◌&&◌, ◌||◌, Option, none, some, List, [], ◌∷◌, map, is_empty,
  leb, if◌then◌else◌, ◌==◌ as nat_eq,
}
use odg_core.Prelude.Result.{Result, ok, err, Raised, raise_if, ◌>>=◌, ◌>>◌}
use odg_core.Prelude.Text.{Text, text, ◌==◌, starts_with}
use odg_core.Cvss.{split}
use odg_core.Auth.Rbac.{
  RoleBindings, init_role_bindings, iter_user_permissions, raise_on_missing_permissions,
}

pub data AuthType : Type 0 where
  no_auth bearer : AuthType

-- What the middleware reads of a request; `authorization` and `bearer_token` are a header and a
-- cookie.
pub record Request : Type 0 where
  pub method : Text
  pub path : Text
  pub authorization : Option Text
  pub bearer_token : Option Text

pub record JwtHeader : Type 0 where
  pub typ : Option Text
  pub alg : Option Text

-- What the code reads of a decoded token. Without roles, the list is empty.
pub record Payload : Type 0 where
  pub version : Option Text
  pub key_id : Option Text
  pub sub : Option Text
  pub identifier : Option Text
  pub roles : List Text

pub record SigningCfg : Type 0 where
  pub id : Text
  pub private_key : Text
  pub public_key : Text
  pub algorithm : Text
  pub priority : ℕ

-- The exceptions of the library for JSON web tokens.
pub data JwtError : Type 0 where
  decode_error expired_signature invalid_issued_at immature_signature invalid_issuer : JwtError
  other_error : JwtError

pub data Decoded : Type 0 where
  refused : JwtError → Decoded
  decoded : Payload → Decoded

-- `bool(s)` of a text that may be missing
abbrev or_empty : Option Text → Text
or_empty none = []
or_empty (some t) = t

-- `_get_token_from_auth_header`
unfoldable pub get_token_from_auth_header : Text → Result Text
unfolding split starts_with
get_token_from_auth_header auth_header =
    if is_empty auth_header
    then err Raised.http_unauthorized
    else if not (starts_with (text "Bearer ") auth_header)
    then err Raised.http_unauthorized
    else elim (split b' ' auth_header) [
      | scheme ∷ token ∷ [] ↦ ok token
      | _ ↦ err Raised.http_unauthorized
    ]

-- `_get_token_from_cookie`
unfoldable pub get_token_from_cookie : Option Text → Result Text
get_token_from_cookie none = err Raised.http_unauthorized
get_token_from_cookie (some token) =
    if is_empty token then err Raised.http_unauthorized else ok token

unfoldable pub get_token_from_request : Request → Result Text
unfolding get_token_from_auth_header get_token_from_cookie
get_token_from_request request = elim request.authorization [
  | some header ↦ get_token_from_auth_header header
  | none ↦ get_token_from_cookie request.bearer_token
]

-- `str.lower` and `str.upper`, as far as they can give the texts that they are compared with: the
-- long s is the only letter outside of ASCII that becomes one of theirs.
abbrev lower_letter : ℕ → ℕ
lower_letter c = if leb b'A' c && leb c b'Z' then c + 32 else c

abbrev upper_letter : ℕ → ℕ
upper_letter c = if leb b'a' c && leb c b'z' then c - 32 else if nat_eq c 383 then b'S' else c

-- `Algorithm(algorithm.upper())` does not raise
unfoldable pub is_algorithm : Text → Bool
unfolding ◌==◌
is_algorithm algorithm =
    let name = map upper_letter algorithm in name == text "RS256" || name == text "HS256"

unfoldable pub check_jwt_header_content : JwtHeader → Result (Unit {0})
unfolding is_algorithm ◌==◌
check_jwt_header_content header =
    if not (map lower_letter (or_empty header.typ) == text "jwt")
    then err Raised.http_unauthorized
    else if is_empty (or_empty header.alg)
    then err Raised.http_unauthorized
    else if is_algorithm (or_empty header.alg)
    then ok tt
    else err Raised.http_not_implemented

unfoldable pub find_signing_cfg_by_id : Text → List SigningCfg → Result SigningCfg
unfolding ◌==◌
find_signing_cfg_by_id key_id [] = err Raised.http_unauthorized
find_signing_cfg_by_id key_id (cfg ∷ cfgs) =
    let rest = find_signing_cfg_by_id key_id cfgs in if cfg.id == key_id then ok cfg else rest

-- `get_signing_cfg_for_key`, where no configurations at all are an empty list
unfoldable pub get_signing_cfg_for_key : List SigningCfg → Option Text → Result SigningCfg
unfolding find_signing_cfg_by_id
get_signing_cfg_for_key cfgs key_id =
    if is_empty (or_empty key_id)
    then err Raised.http_unauthorized
    else find_signing_cfg_by_id (or_empty key_id) cfgs

-- `retrieve_role_bindings` from the secrets of the type, of which there may be none; they have the
-- builtin bindings already, from their `__post_init__`.
unfoldable pub retrieve_role_bindings : RoleBindings → List RoleBindings → Result RoleBindings
unfolding init_role_bindings
retrieve_role_bindings builtin [] =
    ok (init_role_bindings builtin (record { permissions = []; roles = [] }))
retrieve_role_bindings builtin (cfg ∷ []) = ok cfg
retrieve_role_bindings builtin (cfg ∷ other ∷ cfgs) = err Raised.value_error

-- Access without a check, or with the user's id and roles for the handler.
pub data Access : Type 0 where
  unchecked : Access
  authenticated : Text → List Text → Access

-- The library for tokens and the one for their schema, the import of keys, regular expressions, and
-- what the secrets and the files of the service hold.
pub record Environment : Type 0 where
  pub fullmatch : Text → Text → Bool
  pub fullmatch_ignore_case : Text → Text → Bool
  pub get_unverified_header : Text → Result JwtHeader
  pub jwt_decode : Text → Text → Option SigningCfg → Bool → Decoded
  pub import_key : Text → Result (Unit {0})
  pub matches_schema : Payload → Bool
  pub signing_cfgs : List SigningCfg
  pub rbac_cfgs : List RoleBindings
  pub builtin : RoleBindings
  pub issuer : Text

-- What `decode_jwt` makes of the exceptions of the library
unfoldable pub after_decode : Decoded → Result Payload
after_decode (decoded payload) = ok payload
after_decode (refused JwtError.other_error) = err Raised.jwt_error
after_decode (refused e) = err Raised.http_unauthorized

module _ (env : Environment) where
  -- `jwt_from_signing_cfg`, where a key can only fail to be imported
  unfoldable pub jwt_from_signing_cfg : SigningCfg → Result (Unit {0})
  unfolding ◌==◌
  jwt_from_signing_cfg cfg =
      let name = map upper_letter cfg.algorithm in
      if name == text "RS256"
      then env.import_key cfg.public_key
      else if name == text "HS256"
      then ok tt
      else err Raised.value_error

  unfoldable pub decode_jwt : Text → Option SigningCfg → Bool → Result Payload
  unfolding after_decode jwt_from_signing_cfg
  decode_jwt token none true = err Raised.http_internal_server_error
  decode_jwt token none false = after_decode (env.jwt_decode token env.issuer none false)
  decode_jwt token (some cfg) verify_signature =
      jwt_from_signing_cfg cfg
      >> after_decode (env.jwt_decode token env.issuer (some cfg) verify_signature)

  unfoldable pub validate_jwt_payload : Payload → Result (Unit {0})
  unfolding ◌==◌
  validate_jwt_payload payload =
      if not (env.matches_schema payload)
      then err Raised.http_unauthorized
      else elim payload.version [
        | none ↦ ok tt
        | some version ↦
            raise_if (not (is_empty version) && not (version == text "v2")) Raised.http_unauthorized
      ]

  -- `decoded_jwt['sub']`
  unfoldable pub get_sub : Payload → Result Text
  get_sub payload = elim payload.sub [ none ↦ err Raised.key_error | some sub ↦ ok sub ]

  -- The middleware for a handler that needs a token
  unfoldable pub authenticate : Request → Result Access
  unfolding get_token_from_request check_jwt_header_content get_signing_cfg_for_key decode_jwt
      validate_jwt_payload retrieve_role_bindings get_sub iter_user_permissions
      raise_on_missing_permissions
  authenticate request = do
    token ← get_token_from_request request
    header ← env.get_unverified_header token
    checked ← check_jwt_header_content header
    payload ← decode_jwt token none false
    signing_cfg ← get_signing_cfg_for_key env.signing_cfgs payload.key_id
    verified ← decode_jwt token (some signing_cfg) true
    valid ← validate_jwt_payload payload
    role_bindings ← retrieve_role_bindings env.builtin env.rbac_cfgs
    permitted ←
        raise_on_missing_permissions env.fullmatch env.fullmatch_ignore_case request.path
          request.method (iter_user_permissions payload.roles role_bindings)
    sub ← get_sub payload
    ok (Access.authenticated sub payload.roles)

  -- `auth_middleware`, by the attribute `auth` of the handler; what the handler does then is not
  -- part of it.
  unfoldable pub auth_middleware : AuthType → Request → Result Access
  unfolding authenticate starts_with ◌==◌
  auth_middleware auth request =
      let checked : Result Access = elim auth [
        | no_auth ↦ ok Access.unchecked
        | bearer ↦ authenticate request
      ] in
      if request.method == text "OPTIONS"
      then ok Access.unchecked
      else if starts_with (text "/api/v1/doc") request.path
      then ok Access.unchecked
      else checked
