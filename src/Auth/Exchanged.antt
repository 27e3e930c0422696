-- ===== src/Auth/Exchanged.antt =====
-- What a refresh and a logout do for the token of their cookie (src/middleware/auth.py).
use odg_core.Prelude.{ℕ, ◌≡◌, ◌≢◌, refl, sym, subst, ◌∙◌, ap, true, false, none, some, [], ◌∷◌}
use odg_core.Prelude.Result.{ok, >>=-eq-ok}
use odg_core.Prelude.Text.{Text}
use odg_core.Auth.Requests.{
  Environment, Payload, decoded, after_decode, decode_jwt, get_signing_cfg_for_key, get_sub,
}
use odg_core.Auth.Sessions.{
  Users, Session, set_session_and_refresh_token, oauth_refresh, oauth_logout, revoke, log_out_of,
  after_decoding,
}
use odg_core.Auth.Granted.{decode_jwt-read, get_sub-some}

module _ (hash : Text → Text) (env : Environment) where
  decode_jwt_unique :
      (cookie : Text) (payload read : Payload)
      → env.jwt_decode cookie env.issuer none false ≡ decoded payload
      → decode_jwt env cookie none false ≡ ok read
      → read ≡ payload
  decode_jwt_unique cookie payload read d e =
      let both : decoded read ≡ decoded payload = sym (decode_jwt-read env cookie read e) ∙ d in cc

  -- What oauth_refresh does is to set a session for the subject with the identifier of the cookie.
  pub oauth_refresh-session :
      (now : ℕ) (fresh cookie user_id identifier : Text) (payload : Payload) (users : Users)
      (out : Users × Session)
      → env.jwt_decode cookie env.issuer none false ≡ decoded payload
      → payload.sub ≡ some user_id
      → payload.identifier ≡ some identifier
      → oauth_refresh hash env now fresh (some cookie) users ≡ ok out
      → set_session_and_refresh_token hash env.signing_cfgs now fresh user_id
          (some identifier)
          true
          users
        ≡ ok out
  unfolding oauth_refresh
  oauth_refresh-session now fresh [] user_id identifier payload users out d subject named e = cc
  oauth_refresh-session now fresh (c ∷ cookie) user_id identifier payload users out d subject named
        e =
      let (read, r, e1) = >>=-eq-ok (decode_jwt env (c ∷ cookie) none false) _ e in
      let (cfg, g, e2) = >>=-eq-ok (get_signing_cfg_for_key env.signing_cfgs read.key_id) _ e1 in
      let (p, v, e3) = >>=-eq-ok (decode_jwt env (c ∷ cookie) (some cfg) true) _ e2 in
      let (sub, t, e4) = >>=-eq-ok (get_sub env read) _ e3 in
      let same : read ≡ payload = decode_jwt_unique (c ∷ cookie) payload read d r in
      let sub_same : sub ≡ user_id =
        let both : some sub ≡ some user_id =
          sym (get_sub-some env read sub t) ∙ (ap (λ (q : Payload). q.sub) same ∙ subject) in
        cc in
      let id_same : read.identifier ≡ some identifier =
        ap (λ (q : Payload). q.identifier) same ∙ named in
      subst
        (λ u.
          set_session_and_refresh_token hash env.signing_cfgs now fresh u (some identifier) true
            users
          ≡ ok out)
        sub_same (rw id_same at e4)

  decode_jwt-decoded :
      (cookie : Text) (payload : Payload)
      → env.jwt_decode cookie env.issuer none false ≡ decoded payload
      → decode_jwt env cookie none false ≡ ok payload
  unfolding decode_jwt after_decode
  decode_jwt-decoded cookie payload d = rw d refl

  log_out_of-revoke :
      (user_id identifier : Text) (payload : Payload) (users : Users)
      → payload.sub ≡ some user_id
      → payload.identifier ≡ some identifier
      → log_out_of hash env users payload ≡ ok (revoke hash env user_id (hash identifier) users)
  unfolding log_out_of get_sub
  log_out_of-revoke user_id identifier payload users subject named = rw (subject, named) refl

  value_of : (a b : Users) → ok a ≡ ok b → a ≡ b
  value_of a b e = cc

  -- What oauth_logout does is to revoke the identifier of the cookie for its subject.
  pub oauth_logout-revoke :
      (cookie user_id identifier : Text) (payload : Payload) (users users' : Users)
      → env.jwt_decode cookie env.issuer none false ≡ decoded payload
      → payload.sub ≡ some user_id
      → payload.identifier ≡ some identifier
      → cookie ≢ []
      → oauth_logout hash env (some cookie) users ≡ ok users'
      → users' ≡ revoke hash env user_id (hash identifier) users
  unfolding oauth_logout
  oauth_logout-revoke [] user_id identifier payload users users' d subject named some_cookie e =
      absurd (some_cookie refl)
  oauth_logout-revoke (c ∷ cookie) user_id identifier payload users users' d subject named
        some_cookie e =
      let read : decode_jwt env (c ∷ cookie) none false ≡ ok payload =
        decode_jwt-decoded (c ∷ cookie) payload d in
      let out : log_out_of hash env users payload ≡ ok users' =
        sym (ap (after_decoding hash env users) read) ∙ e in
      let both : ok (revoke hash env user_id (hash identifier) users) ≡ ok users' =
        sym (log_out_of-revoke user_id identifier payload users subject named) ∙ out in
      value_of _ _ (sym both)
