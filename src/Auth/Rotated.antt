-- ===== src/Auth/Rotated.antt =====
-- Refresh tokens are accepted until they end (src/middleware/auth.py).
use odg_core.Prelude.{
  ℕ, ◌*◌, ◌<◌, ◌≡◌, refl, sym, ◌∙◌, ap, Bool, true, false, Option, none, some, List, arith,
  is_empty,
}
use odg_core.Prelude.Result.{ok, err, Raised, raise_if, >>=-eq-ok}
use odg_core.Prelude.Text.{Text, eq_refl}
use odg_core.Auth.Requests.{SigningCfg}
use odg_core.Auth.Sessions.{
  RefreshToken, User, Users, put_user, Session, find_signing_cfg, find_user, find_token,
  remove_token, take_token, new_token, new_session, stored_tokens, hash_existing,
  set_session_and_refresh_token,
}
use odg_core.Auth.Stored.{find_token-known, Member-stored_tokens}

pub get_user-put_user_self :
    (user_id : Text) (user : User) (users : Users) → put_user user_id user users user_id ≡ some user
unfolding put_user
get_user-put_user_self user_id user users = rw (eq_refl user_id) refl

find_user_total :
    (user_id : Text) (users : Users) (user : User)
    → users user_id ≡ some user
    → find_user user_id users ≡ ok user
unfolding find_user
find_user_total user_id users user e = rw (find_user, e) refl

pub find_user-some :
    (user_id : Text) (users : Users) (user : User)
    → find_user user_id users ≡ ok user
    → users user_id ≡ some user
unfolding find_user
find_user-some user_id users user e = known (users user_id) e
  where
    known :
        (o : Option User)
        → elim o [ none ↦ err Raised.http_unauthorized | some u ↦ ok u ] ≡ ok user
        → o ≡ some user
    known none e = cc
    known (some u) e = cc

take_token_total :
    (now : ℕ) (hashed : Text) (tokens : List RefreshToken) (token : RefreshToken)
    → find_token now hashed tokens ≡ some token
    → take_token now (some hashed) tokens ≡ ok (remove_token token tokens)
unfolding take_token
take_token_total now hashed tokens token e = rw (take_token, e) refl

module _ (hash : Text → Text) (cfgs : List SigningCfg) where
  -- What a session changes: the tokens of the user.
  pub record IsSession (now : ℕ) (fresh user_id : Text) (existing : Option Text)
      (use_refresh_token : Bool) (users : Users) (users' : Users) : Type 0 where
    pub user : User
    pub stored : users user_id ≡ some user
    pub authorised : is_empty user.role_bindings ≡ false
    pub left : List RefreshToken
    pub taken : take_token now (hash_existing hash existing) user.refresh_tokens ≡ ok left
    pub after :
        users'
        ≡ put_user user_id
            (record user { refresh_tokens = stored_tokens now use_refresh_token (hash fresh) left })
            users

  raise_if-ok : (b : Bool) → raise_if b Raised.http_unauthorized ≡ ok tt → b ≡ false
  raise_if-ok true e = cc
  raise_if-ok false e = refl

  pub set_session-IsSession :
      (now : ℕ) (fresh user_id : Text) (existing : Option Text) (use_refresh_token : Bool)
      (users users' : Users) (session : Session)
      → set_session_and_refresh_token hash cfgs now fresh user_id existing use_refresh_token users
        ≡ ok (users', session)
      → IsSession now fresh user_id existing use_refresh_token users users'
  unfolding set_session_and_refresh_token
  set_session-IsSession now fresh user_id existing use_refresh_token users users' session e =
      let (cfg, c, e1) = >>=-eq-ok (find_signing_cfg cfgs) _ e in
      let (user, f, e2) = >>=-eq-ok (find_user user_id users) _ e1 in
      let (u, authorised, e3) =
        >>=-eq-ok (raise_if (is_empty user.role_bindings) Raised.http_unauthorized) _ e2 in
      let (left, taken, e4) =
        >>=-eq-ok (take_token now (hash_existing hash existing) user.refresh_tokens) _ e3 in
      record {
        user = user;
        stored = find_user-some user_id users user f;
        authorised = raise_if-ok (is_empty user.role_bindings) authorised;
        left = left;
        taken = taken;
        after = sym (first _ _ e4);
      }
    where
      first : (o p : Users × Session) → ok o ≡ ok p → o.0 ≡ p.0
      first o p e = let same : o ≡ p = cc in ap (λ (q : Users × Session). q.0) same

  -- If a session was set with a refresh token, then this refresh token is accepted for a next
  -- session of the user at any time before its end.
  pub set_session_and_refresh_token_again :
      (now later : ℕ) (fresh user_id other : Text) (existing : Option Text) (users users' : Users)
      (session : Session)
      → set_session_and_refresh_token hash cfgs now fresh user_id existing true users
        ≡ ok (users', session)
      → later < (new_token (hash fresh) now).exp * 1000000
      → (next : Users × Session) × (set_session_and_refresh_token hash cfgs later other user_id
            (some fresh)
            true
            users'
          ≡ ok next)
  unfolding set_session_and_refresh_token
  set_session_and_refresh_token_again now later fresh user_id other existing users users' session e
        valid =
      let s = set_session-IsSession now fresh user_id existing true users users' session e in
      let (cfg, c, e1) = >>=-eq-ok (find_signing_cfg cfgs) _ e in
      let tokens = stored_tokens now true (hash fresh) s.left in
      let (token, found) =
        find_token-known later (hash fresh) tokens (new_token (hash fresh) now)
          (Member-stored_tokens now (hash fresh) s.left) refl (ground arith) in
      let at : users' user_id ≡ some (record s.user { refresh_tokens = tokens }) =
        ap (λ (us : Users). us user_id) s.after ∙ get_user-put_user_self user_id _ users in
      let kept = record s.user { refresh_tokens = tokens } in
      let known : find_user user_id users' ≡ ok kept = find_user_total user_id users' kept at in
      let taken = take_token_total later (hash fresh) tokens token found in
      let left = remove_token token tokens in
      let next : Users × Session = (
        put_user user_id
            (record kept { refresh_tokens = stored_tokens later true (hash other) left }) users',
        new_session hash cfg later other user_id true kept,
      ) in
      (next, rw (c, known, s.authorised, taken) refl)
