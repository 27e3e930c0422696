-- ===== src/Auth/Replayed.antt =====
-- A refresh token is accepted once (src/middleware/auth.py).
use odg_core.Prelude.{
  ℕ, ◌≡◌, ◌≢◌, refl, sym, subst, ◌∙◌, Bool, true, false, not, Option, none, some, [], ◌∷◌, All,
  All-map_of, All→Member, Member, select, All-select-true,
}
use odg_core.Prelude.Members.{All-select, Member-there}
use odg_core.Prelude.Result.{ok}
use odg_core.Prelude.Text.{Text, ◌==◌, path→eq}
use odg_core.Auth.Requests.{Environment, Payload, decoded}
use odg_core.Auth.Sessions.{RefreshToken, User, Users, put_user, Session, oauth_refresh, revoke}
use odg_core.Auth.Tokens.{IsAbsent, IsAbsent-take_token}
use odg_core.Auth.Stored.{HasDistinctHashes-select}
use odg_core.Auth.Steps.{IssuedTokens, Served, Serves}
use odg_core.Auth.Rotated.{set_session-IsSession}
use odg_core.Auth.Safe.{
  IsRevoked, IsSafe, IsSafe-seen, IsSafe-put_user, IsSafe-used, IsRevoked-put_user, session-IsSafe,
  session-IsRevoked,
}
use odg_core.Auth.Exchanged.{oauth_refresh-session, oauth_logout-revoke}

module _ (hash : Text → Text) (env : Environment) where
  revoke-IsSafe :
      (s : IssuedTokens) (user_id h : Text)
      → IsSafe s
      → IsSafe (record {
        users = revoke hash env user_id h s.users;
        seen = h ∷ s.seen;
        used = (user_id, h) ∷ s.used;
      })
  unfolding revoke
  revoke-IsSafe s user_id h safe = known (s.users user_id) refl
    where
      known :
          (o : Option User)
          → s.users user_id ≡ o
          → IsSafe (record {
            users = elim o [
              | none ↦ s.users
              | some user ↦
                  put_user user_id
                    (record user {
                      refresh_tokens =
                          select
                            (λ (t : RefreshToken). not (t.identifier == h))
                            user.refresh_tokens;
                    })
                    s.users
            ];
            seen = h ∷ s.seen;
            used = (user_id, h) ∷ s.used;
          })
      known none e =
          IsSafe-used (record s { seen = h ∷ s.seen }) (user_id, h) (0, refl)
            (λ u e'. absurd (let both : none ≡ some u = sym e ∙ e' in cc)) (IsSafe-seen s h safe)
      known (some user) e =
          let (distinct, issued) = safe.tokens user_id user e in
          let others : RefreshToken → Bool = λ t. not (t.identifier == h) in
          let left = select others user.refresh_tokens in
          let stored = record user { refresh_tokens = left } in
          let absent : IsAbsent h left =
            All-map_of (λ t. others t ≡ true) _
              (λ t kept same. let h' = path→eq t.identifier h same in cc) left
              (All-select-true others user.refresh_tokens) in
          IsSafe-used (record s { users = put_user user_id stored s.users; seen = h ∷ s.seen })
            (user_id, h) (0, refl) (IsRevoked-put_user user_id stored s.users h absent)
            (IsSafe-put_user s user_id stored (h ∷ s.seen) (λ k m. Member-there h k s.seen m)
              (HasDistinctHashes-select others user.refresh_tokens distinct)
              (All-map_of (λ (t : RefreshToken). Member t.identifier s.seen) _
                (λ t m. Member-there h t.identifier s.seen m) left
                (All-select (λ (t : RefreshToken). Member t.identifier s.seen) others
                  user.refresh_tokens issued))
              (λ k m revoked.
                All-select (λ (t : RefreshToken). t.identifier ≢ k) others user.refresh_tokens
                  (revoked user e))
              safe)

  Served-IsSafe : (s t : IssuedTokens) → Served hash env s t → IsSafe s → IsSafe t
  Served-IsSafe s t (Served.sign_up user_id role_bindings unknown e) safe = subst IsSafe (sym e) (
      IsSafe-put_user s user_id (record { role_bindings = role_bindings; refresh_tokens = [] })
        s.seen (λ h m. m) tt tt (λ h m r. tt) safe)
  Served-IsSafe s t
        (Served.begin_session now fresh user_id use_refresh_token users session unseen set e) safe =
      subst IsSafe (sym e) (
        session-IsSafe hash env s now fresh user_id none use_refresh_token users unseen
          (set_session-IsSession hash env.signing_cfgs now fresh user_id none use_refresh_token
            s.users users session set)
          safe)
  Served-IsSafe s t
        (Served.refresh now fresh cookie user_id identifier payload users session unseen d subject
          named set e)
        safe =
      let i =
        set_session-IsSession hash env.signing_cfgs now fresh user_id (some identifier) true s.users
          users session
          (oauth_refresh-session hash env now fresh cookie user_id identifier payload s.users
            (users, session) d subject named set) in
      let (known, revoked) =
        session-IsRevoked hash env s now fresh user_id identifier true users unseen i safe in
      subst IsSafe (sym e) (
        IsSafe-used (record s { users = users; seen = hash fresh ∷ s.seen })
          (user_id, hash identifier) (Member-there (hash fresh) (hash identifier) s.seen known)
          revoked
          (session-IsSafe hash env s now fresh user_id (some identifier) true users unseen i safe))
  Served-IsSafe s t
        (Served.log_out cookie user_id identifier payload users d subject named some_cookie out e)
        safe =
      let revoked =
        oauth_logout-revoke hash env cookie user_id identifier payload s.users users d subject named
          some_cookie out in
      subst IsSafe (sym e) (
        subst
          (λ us. IsSafe (record {
            users = us;
            seen = hash identifier ∷ s.seen;
            used = (user_id, hash identifier) ∷ s.used;
          }))
          (sym revoked) (revoke-IsSafe s user_id (hash identifier) safe))

  Serves-IsSafe : (s : IssuedTokens) {t : IssuedTokens} → IsSafe s → Serves hash env s t → IsSafe t
  Serves-IsSafe s safe Serves.here = safe
  Serves-IsSafe s safe (Serves.next r step) = Served-IsSafe _ _ step (Serves-IsSafe s safe r)

  -- If there are no users at first, then after any requests that sign up, log in, refresh and log
  -- out, in any order and at any times, oauth_refresh does not accept a cookie whose identifier
  -- was exchanged before, or logged out, for the user that is its subject.
  pub Serves-refused :
      (s t : IssuedTokens) (now : ℕ) (fresh cookie user_id identifier : Text) (payload : Payload)
      (out : Users × Session)
      → ((n : Text) → s.users n ≡ none)
      → s.used ≡ []
      → Serves hash env s t
      → Member (user_id, hash identifier) t.used
      → env.jwt_decode cookie env.issuer none false ≡ decoded payload
      → payload.sub ≡ some user_id
      → payload.identifier ≡ some identifier
      → oauth_refresh hash env now fresh (some cookie) t.users ≢ ok out
  Serves-refused s t now fresh cookie user_id identifier payload (users, session) empty unused
        serves member d subject named accepted =
      let start : IsSafe s = record {
        tokens = λ n u e. absurd (let both : none ≡ some u = sym (empty n) ∙ e in cc);
        used =
            subst (All (λ (c : Text × Text). Member c.1 s.seen × IsRevoked s.users c)) (sym unused)
              tt;
      } in
      let safe = Serves-IsSafe s start serves in
      let i =
        set_session-IsSession hash env.signing_cfgs now fresh user_id (some identifier) true t.users
          users session
          (oauth_refresh-session hash env now fresh cookie user_id identifier payload t.users
            (users, session) d subject named accepted) in
      let (distinct, issued) = safe.tokens user_id i.user i.stored in
      let (gone, (token, stored, same)) =
        IsAbsent-take_token now (hash identifier) i.user.refresh_tokens i.left i.taken distinct in
      let (seen, revoked) =
        All→Member (λ (c : Text × Text). Member c.1 t.seen × IsRevoked t.users c) t.used
          (user_id, hash identifier) safe.used member in
      All→Member (λ (u : RefreshToken). u.identifier ≢ hash identifier) i.user.refresh_tokens token
        (revoked i.user i.stored) stored same
