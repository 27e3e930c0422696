-- ===== src/Auth/Steps.antt =====
-- Serves that change the users and their refresh tokens, one after another
-- (`OAuthLogin`, `OAuthRefresh` and `OAuthLogout` of src/middleware/auth.py).
use odg_core.Prelude.{ℕ, ◌≡◌, ◌≢◌, Bool, false, none, some, List, [], ◌∷◌, Member}
use odg_core.Prelude.Result.{ok}
use odg_core.Prelude.Text.{Text}
use odg_core.Auth.Requests.{Environment, Payload, decoded}
use odg_core.Auth.Sessions.{
  Users, put_user, Session, set_session_and_refresh_token, oauth_refresh, oauth_logout,
}

-- The users, the hashes of the identifiers that were handed out or presented, and those that were
-- exchanged or logged out, each with its user.
pub record IssuedTokens : Type 0 where
  pub users : Users
  pub seen : List Text
  pub used : List (Text × Text)

-- A request is served as a whole before the next. The new identifier of each is one whose hash was
-- not seen before, as that of a random UUID. A request that raises changes no tokens.
pub data Served (hash : Text → Text) (env : Environment) (s t : IssuedTokens) : Type 0 where
  sign_up :
      (user_id : Text) (role_bindings : List Text)
      → s.users user_id ≡ none
      → t ≡ record s {
        users =
            put_user user_id
              (record { role_bindings = role_bindings; refresh_tokens = [] })
              s.users;
      }
      → Served hash env s t
  begin_session :
      (now : ℕ) (fresh user_id : Text) (use_refresh_token : Bool) (users : Users)
      (session : Session)
      → (Member (hash fresh) s.seen → ⊥)
      → set_session_and_refresh_token hash env.signing_cfgs now fresh user_id none use_refresh_token
          s.users
        ≡ ok (users, session)
      → t ≡ record s { users = users; seen = hash fresh ∷ s.seen }
      → Served hash env s t
  refresh :
      (now : ℕ) (fresh cookie user_id identifier : Text) (payload : Payload) (users : Users)
      (session : Session)
      → (Member (hash fresh) s.seen → ⊥)
      → env.jwt_decode cookie env.issuer none false ≡ decoded payload
      → payload.sub ≡ some user_id
      → payload.identifier ≡ some identifier
      → oauth_refresh hash env now fresh (some cookie) s.users ≡ ok (users, session)
      → t ≡ record {
        users = users;
        seen = hash fresh ∷ s.seen;
        used = (user_id, hash identifier) ∷ s.used;
      }
      → Served hash env s t
  log_out :
      (cookie user_id identifier : Text) (payload : Payload) (users : Users)
      → env.jwt_decode cookie env.issuer none false ≡ decoded payload
      → payload.sub ≡ some user_id
      → payload.identifier ≡ some identifier
      → cookie ≢ []
      → oauth_logout hash env (some cookie) s.users ≡ ok users
      → t ≡ record {
        users = users;
        seen = hash identifier ∷ s.seen;
        used = (user_id, hash identifier) ∷ s.used;
      }
      → Served hash env s t

-- Any requests in any order
pub data Serves (hash : Text → Text) (env : Environment) (s : IssuedTokens)
    : IssuedTokens → Type 0 where
  here : Serves hash env s s
  next : {t u : IssuedTokens} → Serves hash env s t → Served hash env t u → Serves hash env s u
