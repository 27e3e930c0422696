-- ===== src/Auth/Sessions.antt =====
-- src/middleware/auth.py: sessions and refresh tokens of users.
use odg_core.Prelude.{
  ℕ, ◌+◌, ◌*◌, ◌/◌, Bool, true, false, not, ◌&&◌, Option, none, some, List, [], ◌∷◌, ◌++◌, any,
  is_empty, leb, ltb, select, if◌then◌else◌, ◌==◌ as nat_eq,
}
use odg_core.Prelude.Result.{Result, ok, err, Raised, raise_if, ◌>>=◌}
use odg_core.Prelude.Text.{Text, ◌==◌}
use odg_core.Auth.Requests.{
  Payload, SigningCfg, Environment, decode_jwt, get_sub, get_signing_cfg_for_key,
}

-- A refresh token as it is stored: the hash of its identifier, and its end in seconds.
pub record RefreshToken : Type 0 where
  pub identifier : Text
  pub exp : ℕ

-- A user, with the names of the role bindings.
pub record User : Type 0 where
  pub role_bindings : List Text
  pub refresh_tokens : List RefreshToken

-- The users by their ids
abbrev pub Users : Type 0
Users = Text → Option User

unfoldable pub put_user : Text → User → Users → Users
unfolding ◌==◌
put_user user_id user users = λ id. if id == user_id then some user else users id

-- The tokens that a response sets; the refresh token has its identifier and its end.
pub record Session : Type 0 where
  pub key_id : Text
  pub sub : Text
  pub roles : List Text
  pub iat : ℕ
  pub exp : ℕ
  pub refresh_token : Option (Text × ℕ)

-- `max(cfgs, key=lambda cfg: cfg.priority)`, the first of those with the highest priority
highest : SigningCfg → List SigningCfg → SigningCfg
highest best [] = best
highest best (cfg ∷ cfgs) = highest (if ltb best.priority cfg.priority then cfg else best) cfgs

unfoldable pub find_signing_cfg : List SigningCfg → Result SigningCfg
unfolding highest
find_signing_cfg [] = err Raised.http_internal_server_error
find_signing_cfg (cfg ∷ cfgs) = ok (highest cfg cfgs)

unfoldable pub find_user : Text → Users → Result User
find_user user_id users = elim (users user_id) [
  | none ↦ err Raised.http_unauthorized
  | some user ↦ ok user
]

-- A time is a number of microseconds. `token_exp <= now`
abbrev pub is_expired : ℕ → RefreshToken → Bool
is_expired now token = leb (token.exp * 1000000) now

-- The loop over the tokens: the first valid one with the hash.
unfoldable pub find_token : ℕ → Text → List RefreshToken → Option RefreshToken
unfolding ◌==◌
find_token now hashed [] = none
find_token now hashed (token ∷ tokens) =
    let rest = find_token now hashed tokens in
    if is_expired now token then rest else if token.identifier == hashed then some token else rest

-- `refresh_tokens.remove(token)`, which removes the first that is equal
unfoldable pub remove_token : RefreshToken → List RefreshToken → List RefreshToken
unfolding ◌==◌
remove_token token [] = []
remove_token token (t ∷ tokens) =
    let rest = remove_token token tokens in
    if t.identifier == token.identifier && nat_eq t.exp token.exp then tokens else t ∷ rest

-- What is left of the tokens after the given one is taken, or all of them if none is given.
unfoldable pub take_token : ℕ → Option Text → List RefreshToken → Result (List RefreshToken)
unfolding find_token remove_token
take_token now none tokens = ok tokens
take_token now (some hashed) tokens = elim (find_token now hashed tokens) [
  | none ↦ err Raised.http_unauthorized
  | some token ↦ ok (remove_token token tokens)
]

-- 183 days and 5 minutes
abbrev refresh_token_max_age : ℕ
refresh_token_max_age = 183 * 86400 * 1000000

abbrev session_token_max_age : ℕ
session_token_max_age = 5 * 60 * 1000000

-- `int(time.timestamp())`
abbrev timestamp : ℕ → ℕ
timestamp time = time / 1000000

abbrev pub new_token : Text → ℕ → RefreshToken
new_token hashed now = record { identifier = hashed; exp = timestamp (now + refresh_token_max_age) }

-- The tokens that are stored: those that are left, perhaps with a new one, less the expired ones.
unfoldable pub stored_tokens : ℕ → Bool → Text → List RefreshToken → List RefreshToken
unfolding select
stored_tokens now use_refresh_token hashed left =
    let more = if use_refresh_token then left ++ new_token hashed now ∷ [] else left in
    select (λ t. not (is_expired now t)) more

-- `list({... for role_binding in role_bindings})`, whose order Python leaves open
unfoldable pub distinct_names : List Text → List Text
unfolding any ◌==◌
distinct_names [] = []
distinct_names (name ∷ names) =
    let rest = distinct_names names in if any (λ n. n == name) rest then rest else name ∷ rest

abbrev pub hash_existing : (Text → Text) → Option Text → Option Text
hash_existing hash none = none
hash_existing hash (some identifier) = some (hash identifier)

-- `hash` is `hash_refresh_token_identifier`; `fresh` is the new identifier, `str(uuid.uuid4())`.
module _ (hash : Text → Text) where
  unfoldable pub new_session : SigningCfg → ℕ → Text → Text → Bool → User → Session
  unfolding distinct_names
  new_session cfg now fresh user_id use_refresh_token user = record {
    key_id = cfg.id;
    sub = user_id;
    roles = distinct_names user.role_bindings;
    iat = timestamp now;
    exp = timestamp (now + session_token_max_age);
    refresh_token =
        if use_refresh_token then some (fresh, timestamp (now + refresh_token_max_age)) else none;
  }

  -- The users as they are stored, and the tokens of the response
  unfoldable pub set_session_and_refresh_token :
      List SigningCfg → ℕ → Text → Text → Option Text → Bool → Users → Result (Users × Session)
  unfolding find_signing_cfg find_user take_token stored_tokens put_user new_session
  set_session_and_refresh_token cfgs now fresh user_id existing use_refresh_token users = do
    cfg ← find_signing_cfg cfgs
    user ← find_user user_id users
    authorised ← raise_if (is_empty user.role_bindings) Raised.http_unauthorized
    left ← take_token now (hash_existing hash existing) user.refresh_tokens
    ok (
      put_user user_id
          (record user { refresh_tokens = stored_tokens now use_refresh_token (hash fresh) left })
          users,
      new_session cfg now fresh user_id use_refresh_token user,
    )

  module _ (env : Environment) where
    -- `OAuthRefresh.post` with the cookie of the request
    unfoldable pub oauth_refresh : ℕ → Text → Option Text → Users → Result (Users × Session)
    unfolding decode_jwt get_signing_cfg_for_key get_sub set_session_and_refresh_token
    oauth_refresh now fresh none users = err Raised.http_unauthorized
    oauth_refresh now fresh (some []) users = err Raised.http_unauthorized
    oauth_refresh now fresh (some (c ∷ cookie)) users = do
      payload ← decode_jwt env (c ∷ cookie) none false
      signing_cfg ← get_signing_cfg_for_key env.signing_cfgs payload.key_id
      verified ← decode_jwt env (c ∷ cookie) (some signing_cfg) true
      user_id ← get_sub env payload
      elim payload.identifier [
        | none ↦ err Raised.http_unauthorized
        | some identifier ↦
            set_session_and_refresh_token env.signing_cfgs now fresh user_id (some identifier) true
              users
      ]

    abbrev is_unauthorized : Raised → Bool
    is_unauthorized Raised.http_unauthorized = true
    is_unauthorized _ = false

    -- The tokens of a user without those of the identifier
    unfoldable pub revoke : Text → Text → Users → Users
    unfolding select ◌==◌ put_user
    revoke user_id hashed users = elim (users user_id) [
      | none ↦ users
      | some user ↦
          put_user user_id
            (record user {
              refresh_tokens =
                  select (λ (t : RefreshToken). not (t.identifier == hashed)) user.refresh_tokens;
            })
            users
    ]

    -- What `OAuthLogout.get` does for the decoded cookie
    unfoldable pub log_out_of : Users → Payload → Result Users
    unfolding revoke get_sub
    log_out_of users payload = do
      user_id ← get_sub env payload
      elim payload.identifier [
        | none ↦ ok users
        | some identifier ↦ ok (revoke user_id (hash identifier) users)
      ]

    unfoldable pub after_decoding : Users → Result Payload → Result Users
    unfolding log_out_of
    after_decoding users (ok payload) = log_out_of users payload
    after_decoding users (err e) = if is_unauthorized e then ok users else err e

    -- `OAuthLogout.get` with the cookie of the request
    unfoldable pub oauth_logout : Option Text → Users → Result Users
    unfolding decode_jwt after_decoding
    oauth_logout none users = ok users
    oauth_logout (some []) users = ok users
    oauth_logout (some (c ∷ cookie)) users =
        after_decoding users (decode_jwt env (c ∷ cookie) none false)
