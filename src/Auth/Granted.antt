-- ===== src/Auth/Granted.antt =====
-- Which requests the middleware lets pass (src/middleware/auth.py).
use odg_core.Prelude.{
  ◌≡◌, ◌⊎◌, inl, inr, refl, sym, ap, ◌∙◌, true, false, Option, none, some, List, [], ◌∷◌, Member,
  arith, Bool-cases,
}
use odg_core.Prelude.Members.{Member-there}
use odg_core.Prelude.Result.{ok, err, Raised, >>=-eq-ok}
use odg_core.Prelude.Text.{Text, text, ◌==◌, eq→path, starts_with}
use odg_core.Auth.Rbac.{RoleBindings, iter_user_permissions, raise_on_missing_permissions}
use odg_core.Auth.Requests.{
  AuthType, Request, Payload, SigningCfg, JwtError, Decoded, refused, decoded,
  get_token_from_request, find_signing_cfg_by_id, get_signing_cfg_for_key, retrieve_role_bindings,
  check_jwt_header_content, Access, Environment, after_decode, jwt_from_signing_cfg, decode_jwt,
  validate_jwt_payload, get_sub, authenticate, auth_middleware,
}
use odg_core.Auth.Yielded.{IsPermitted}
use odg_core.Auth.Permitted.{check-IsPermitted}

-- The handler needs no token, or the request is a preflight or for the documentation.
abbrev pub IsOpen : AuthType → Request → Type 0
IsOpen auth request =
    (auth ≡ AuthType.no_auth)
    ⊎ (request.method ≡ text "OPTIONS")
    ⊎ (starts_with (text "/api/v1/doc") request.path ≡ true)

module _ (env : Environment) where
  -- The request is authorised as the user with the roles.
  pub record IsAuthorised (request : Request) (user : Text) (roles : List Text) : Type 0 where
    pub token : Text
    pub presented : get_token_from_request request ≡ ok token
    pub payload : Payload
    pub read : env.jwt_decode token env.issuer none false ≡ decoded payload
    pub cfg : SigningCfg
    pub configured : Member cfg env.signing_cfgs
    pub signed_by : payload.key_id ≡ some cfg.id
    pub verified : (p : Payload) × (env.jwt_decode token env.issuer (some cfg) true ≡ decoded p)
    pub valid : env.matches_schema payload ≡ true
    pub subject : payload.sub ≡ some user
    pub claimed : payload.roles ≡ roles
    pub bindings : RoleBindings
    pub retrieved : retrieve_role_bindings env.builtin env.rbac_cfgs ≡ ok bindings
    pub permitted :
        IsPermitted env.fullmatch env.fullmatch_ignore_case bindings request.path request.method
          roles

  after_decode-ok : (d : Decoded) (p : Payload) → after_decode d ≡ ok p → d ≡ decoded p
  unfolding after_decode
  after_decode-ok (decoded payload) p e = cc
  after_decode-ok (refused JwtError.decode_error) p e = cc
  after_decode-ok (refused JwtError.expired_signature) p e = cc
  after_decode-ok (refused JwtError.invalid_issued_at) p e = cc
  after_decode-ok (refused JwtError.immature_signature) p e = cc
  after_decode-ok (refused JwtError.invalid_issuer) p e = cc
  after_decode-ok (refused JwtError.other_error) p e = cc

  decode_jwt-verified :
      (token : Text) (cfg : SigningCfg) (p : Payload)
      → decode_jwt env token (some cfg) true ≡ ok p
      → env.jwt_decode token env.issuer (some cfg) true ≡ decoded p
  unfolding decode_jwt
  decode_jwt-verified token cfg p e =
      let (imported, i, rest) = >>=-eq-ok (jwt_from_signing_cfg env cfg) _ e in
      after_decode-ok _ p rest

  pub decode_jwt-read :
      (token : Text) (p : Payload)
      → decode_jwt env token none false ≡ ok p
      → env.jwt_decode token env.issuer none false ≡ decoded p
  unfolding decode_jwt
  decode_jwt-read token p e = after_decode-ok _ p e

  find_signing_cfg_by_id-Member :
      (key_id : Text) (cfgs : List SigningCfg) (cfg : SigningCfg)
      → find_signing_cfg_by_id key_id cfgs ≡ ok cfg
      → Member cfg cfgs × (key_id ≡ cfg.id)
  unfolding find_signing_cfg_by_id
  find_signing_cfg_by_id-Member key_id [] cfg e = cc
  find_signing_cfg_by_id-Member key_id (c ∷ cfgs) cfg e = elim (Bool-cases (c.id == key_id)) [
    | inl here ↦
        let same : c ≡ cfg = ground arith in
        ((0, ap some same), sym (eq→path c.id key_id here) ∙ ap (λ (d : SigningCfg). d.id) same)
    | inr there ↦
        let (member, named) = find_signing_cfg_by_id-Member key_id cfgs cfg (ground arith) in
        (Member-there c cfg cfgs member, named)
  ]

  get_signing_cfg_for_key-Member :
      (cfgs : List SigningCfg) (key_id : Option Text) (cfg : SigningCfg)
      → get_signing_cfg_for_key cfgs key_id ≡ ok cfg
      → Member cfg cfgs × (key_id ≡ some cfg.id)
  unfolding get_signing_cfg_for_key
  get_signing_cfg_for_key-Member cfgs none cfg e = cc
  get_signing_cfg_for_key-Member cfgs (some []) cfg e = cc
  get_signing_cfg_for_key-Member cfgs (some (c ∷ key_id)) cfg e =
      let (member, named) = find_signing_cfg_by_id-Member (c ∷ key_id) cfgs cfg e in
      (member, ap some named)

  validate_jwt_payload-matches_schema :
      (p : Payload) → validate_jwt_payload env p ≡ ok tt → env.matches_schema p ≡ true
  unfolding validate_jwt_payload
  validate_jwt_payload-matches_schema p e = elim (Bool-cases (env.matches_schema p)) [
    | inl valid ↦ valid
    | inr invalid ↦ absurd (let f : err Raised.http_unauthorized ≡ ok tt = rw invalid at e in cc)
  ]

  pub get_sub-some : (p : Payload) (sub : Text) → get_sub env p ≡ ok sub → p.sub ≡ some sub
  unfolding get_sub
  get_sub-some p sub e = known p.sub e
    where
      known :
          (o : Option Text)
          → elim o [ none ↦ err Raised.key_error | some s ↦ ok s ] ≡ ok sub
          → o ≡ some sub
      known none e = cc
      known (some s) e = cc

  accessed : (a b : Access) → ok a ≡ ok b → a ≡ b
  accessed a b e = cc

  authenticate-IsAuthorised :
      (request : Request) (access : Access)
      → authenticate env request ≡ ok access
      → (user : Text) × (roles : List Text) × (access ≡ Access.authenticated user roles)
        × IsAuthorised request user roles
  unfolding authenticate
  authenticate-IsAuthorised request access e =
      let (token, presented, e1) = >>=-eq-ok (get_token_from_request request) _ e in
      let (header, h, e2) = >>=-eq-ok (env.get_unverified_header token) _ e1 in
      let (checked, c, e3) = >>=-eq-ok (check_jwt_header_content header) _ e2 in
      let (payload, read, e4) = >>=-eq-ok (decode_jwt env token none false) _ e3 in
      let (cfg, found, e5) =
        >>=-eq-ok (get_signing_cfg_for_key env.signing_cfgs payload.key_id) _ e4 in
      let (p, verified, e6) = >>=-eq-ok (decode_jwt env token (some cfg) true) _ e5 in
      let (v, valid, e7) = >>=-eq-ok (validate_jwt_payload env payload) _ e6 in
      let (bindings, retrieved, e8) =
        >>=-eq-ok (retrieve_role_bindings env.builtin env.rbac_cfgs) _ e7 in
      let (u, permitted, e9) =
        >>=-eq-ok
          (raise_on_missing_permissions env.fullmatch env.fullmatch_ignore_case request.path
            request.method (iter_user_permissions payload.roles bindings))
          _ e8 in
      let (sub, subject, e10) = >>=-eq-ok (get_sub env payload) _ e9 in
      let (configured, signed_by) =
        get_signing_cfg_for_key-Member env.signing_cfgs payload.key_id cfg found in
      (
        sub,
        payload.roles,
        sym (accessed (Access.authenticated sub payload.roles) access e10),
        record {
          token = token;
          presented = presented;
          payload = payload;
          read = decode_jwt-read token payload read;
          cfg = cfg;
          configured = configured;
          signed_by = signed_by;
          verified = (p, decode_jwt-verified token cfg p verified);
          valid = validate_jwt_payload-matches_schema payload valid;
          subject = get_sub-some payload sub subject;
          claimed = refl;
          bindings = bindings;
          retrieved = retrieved;
          permitted =
              check-IsPermitted env.fullmatch env.fullmatch_ignore_case bindings request.path
                request.method payload.roles permitted;
        },
      )

  -- If auth_middleware passes a request on to its handler, then either the handler or the request
  -- needs no token and the handler gets no user, or the handler gets the subject and the roles of
  -- the token that the request presents, the signature of this token was verified with a configured
  -- key whose id it names, it matches the schema, and a configured role among its roles has a
  -- permission that matches the path and the method.
  pub auth_middleware-IsAuthorised :
      (auth : AuthType) (request : Request) (access : Access)
      → auth_middleware env auth request ≡ ok access
      → (IsOpen auth request × (access ≡ Access.unchecked))
        ⊎ ((user : Text) × (roles : List Text) × (access ≡ Access.authenticated user roles)
            × IsAuthorised request user roles)
  unfolding auth_middleware
  auth_middleware-IsAuthorised auth request access e =
      elim (Bool-cases (request.method == text "OPTIONS")) [
        | inl options ↦
            inl (inr (inl (eq→path request.method (text "OPTIONS") options)), ground arith)
        | inr no_options ↦ elim (Bool-cases (starts_with (text "/api/v1/doc") request.path)) [
          | inl doc ↦ inl (inr (inr doc), ground arith)
          | inr no_doc ↦ by_type auth (ground arith)
        ]
      ]
    where
      by_type :
          (a : AuthType)
          → elim a [
            | AuthType.no_auth ↦ ok Access.unchecked
            | AuthType.bearer ↦ authenticate env request
          ]
            ≡ ok access
          → (IsOpen a request × (access ≡ Access.unchecked))
            ⊎ ((user : Text) × (roles : List Text) × (access ≡ Access.authenticated user roles)
                × IsAuthorised request user roles)
      by_type AuthType.no_auth e = inl (inl refl, cc)
      by_type AuthType.bearer e = inr (authenticate-IsAuthorised request access e)
