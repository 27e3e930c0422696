-- ===== src/Auth/Safe.antt =====
-- The tokens of users that were handed out and not yet used (src/middleware/auth.py).
use odg_core.Prelude.{
  ℕ, ◌≡◌, ◌≢◌, ◌⊎◌, inl, inr, refl, sym, subst, ◌∙◌, Bool, Option, some, List, ◌∷◌, All, All-map_of,
  All→Member, Member, Bool-cases,
}
use odg_core.Prelude.Members.{Member-there}
use odg_core.Prelude.Text.{Text, ◌==◌, eq→path}
use odg_core.Auth.Requests.{Environment}
use odg_core.Auth.Sessions.{RefreshToken, User, Users, put_user, hash_existing}
use odg_core.Auth.Tokens.{
  IsAbsent, HasDistinctHashes, HasDistinctHashes-take_token, All-take_token, IsAbsent-take_token,
}
use odg_core.Auth.Stored.{HasDistinctHashes-stored_tokens, All-stored_tokens}
use odg_core.Auth.Steps.{IssuedTokens}
use odg_core.Auth.Rotated.{get_user-put_user_self, IsSession}

abbrev pub IsSeen : List Text → List RefreshToken → Type 0
IsSeen seen = All (λ (t : RefreshToken). Member t.identifier seen)

-- The user has no token with the hash.
abbrev pub IsRevoked : Users → Text × Text → Type 0
IsRevoked users c = (u : User) → users c.0 ≡ some u → IsAbsent c.1 u.refresh_tokens

pub record IsSafe (s : IssuedTokens) : Type 0 where
  pub tokens :
      (n : Text) (u : User)
      → s.users n ≡ some u
      → HasDistinctHashes u.refresh_tokens × IsSeen s.seen u.refresh_tokens
  pub used : All (λ (c : Text × Text). Member c.1 s.seen × IsRevoked s.users c) s.used

get_user-put_user :
    (k : Text) (v : User) (users : Users) (n : Text) (u : User)
    → put_user k v users n ≡ some u
    → ((n ≡ k) × (v ≡ u)) ⊎ (users n ≡ some u)
unfolding put_user
get_user-put_user k v users n u e = elim (Bool-cases (n == k)) [
  | inl same ↦ inl (eq→path n k same, let e' : some v ≡ some u = rw same at e in cc)
  | inr differ ↦ inr (rw differ at e)
]

pub IsRevoked-put_user :
    (k : Text) (v : User) (users : Users) (h : Text)
    → IsAbsent h v.refresh_tokens
    → IsRevoked (put_user k v users) (k, h)
IsRevoked-put_user k v users h absent u e =
    let both : some v ≡ some u = sym (get_user-put_user_self k v users) ∙ e in
    let same : v ≡ u = cc in subst (λ (w : User). IsAbsent h w.refresh_tokens) same absent

-- More hashes may be seen.
pub IsSafe-seen : (s : IssuedTokens) (h : Text) → IsSafe s → IsSafe (record s { seen = h ∷ s.seen })
IsSafe-seen s h safe = record {
  tokens = λ n u e. (
    (safe.tokens n u e).0,
    All-map_of (λ (t : RefreshToken). Member t.identifier s.seen) _
        (λ t m. Member-there h t.identifier s.seen m) u.refresh_tokens (safe.tokens n u e).1,
  );
  used =
      All-map_of (λ (c : Text × Text). Member c.1 s.seen × IsRevoked s.users c) _
        (λ c (m, r). (Member-there h c.1 s.seen m, r)) s.used safe.used;
}

-- A user is stored whose tokens are distinct, seen, and not revoked.
pub IsSafe-put_user :
    (s : IssuedTokens) (k : Text) (v : User) (seen : List Text)
    → ((h : Text) → Member h s.seen → Member h seen)
    → HasDistinctHashes v.refresh_tokens
    → IsSeen seen v.refresh_tokens
    → ((h : Text) → Member h s.seen → IsRevoked s.users (k, h) → IsAbsent h v.refresh_tokens)
    → IsSafe s
    → IsSafe (record s { users = put_user k v s.users; seen = seen })
IsSafe-put_user s k v seen more distinct issued keeps safe = record {
  tokens = λ n u e. elim (get_user-put_user k v s.users n u e) [
    | inl (named, same) ↦
        subst (λ (w : User). HasDistinctHashes w.refresh_tokens × IsSeen seen w.refresh_tokens) same
          (distinct, issued)
    | inr before ↦ (
      (safe.tokens n u before).0,
      All-map_of (λ (t : RefreshToken). Member t.identifier s.seen) _ (λ t m. more t.identifier m)
          u.refresh_tokens (safe.tokens n u before).1,
    )
  ];
  used =
      All-map_of (λ (c : Text × Text). Member c.1 s.seen × IsRevoked s.users c) _
        (λ (n, h) (m, revoked). (
          more h m,
          λ u e. elim (get_user-put_user k v s.users n u e) [
            | inl (named, same) ↦
                subst (λ (w : User). IsAbsent h w.refresh_tokens) same
                  (keeps h m (subst (λ i. IsRevoked s.users (i, h)) named revoked))
            | inr before ↦ revoked u before
          ],
        ))
        s.used safe.used;
}

pub IsSafe-used :
    (s : IssuedTokens) (c : Text × Text)
    → Member c.1 s.seen
    → IsRevoked s.users c
    → IsSafe s
    → IsSafe (record s { used = c ∷ s.used })
IsSafe-used s c member revoked safe = record {
  tokens = safe.tokens;
  used = ((member, revoked), safe.used);
}

module _ (hash : Text → Text) (env : Environment) where
  pub session-IsSafe :
      (s : IssuedTokens) (now : ℕ) (fresh user_id : Text) (existing : Option Text)
      (use_refresh_token : Bool) (users : Users)
      → (Member (hash fresh) s.seen → ⊥)
      → IsSession hash env.signing_cfgs now fresh user_id existing use_refresh_token s.users users
      → IsSafe s
      → IsSafe (record s { users = users; seen = hash fresh ∷ s.seen })
  session-IsSafe s now fresh user_id existing use_refresh_token users unseen i safe =
      let (distinct, issued) = safe.tokens user_id i.user i.stored in
      let issued_left =
        All-take_token (λ (t : RefreshToken). Member t.identifier s.seen) now
          (hash_existing hash existing) i.user.refresh_tokens i.left i.taken issued in
      let absent : IsAbsent (hash fresh) i.left =
        All-map_of (λ (t : RefreshToken). Member t.identifier s.seen) _
          (λ t m named. unseen (subst (λ h. Member h s.seen) named m)) i.left issued_left in
      subst (λ us. IsSafe (record s { users = us; seen = hash fresh ∷ s.seen })) (sym i.after)
        (IsSafe-put_user s user_id _ (hash fresh ∷ s.seen) (λ h m. Member-there _ h s.seen m)
          (HasDistinctHashes-stored_tokens now use_refresh_token (hash fresh) i.left
            (HasDistinctHashes-take_token now (hash_existing hash existing) i.user.refresh_tokens
              i.left i.taken distinct)
            absent)
          (All-stored_tokens (λ (t : RefreshToken). Member t.identifier (hash fresh ∷ s.seen)) now
            use_refresh_token (hash fresh) i.left
            (All-map_of (λ (t : RefreshToken). Member t.identifier s.seen) _
              (λ t m. Member-there _ t.identifier s.seen m) i.left issued_left)
            (0, refl))
          (λ h m revoked.
            All-stored_tokens (λ (t : RefreshToken). t.identifier ≢ h) now use_refresh_token
              (hash fresh) i.left
              (All-take_token (λ (t : RefreshToken). t.identifier ≢ h) now
                (hash_existing hash existing) i.user.refresh_tokens i.left i.taken
                (revoked i.user i.stored))
              (λ named. unseen (subst (λ k. Member k s.seen) (sym named) m)))
          safe)

  -- A token that is exchanged for a session is revoked by it.
  pub session-IsRevoked :
      (s : IssuedTokens) (now : ℕ) (fresh user_id identifier : Text) (use_refresh_token : Bool)
      (users : Users)
      → (Member (hash fresh) s.seen → ⊥)
      → IsSession hash env.signing_cfgs now fresh user_id
          (some identifier)
          use_refresh_token
          s.users
          users
      → IsSafe s
      → Member (hash identifier) s.seen × IsRevoked users (user_id, hash identifier)
  session-IsRevoked s now fresh user_id identifier use_refresh_token users unseen i safe =
      let (distinct, issued) = safe.tokens user_id i.user i.stored in
      let (absent, (token, member, named)) =
        IsAbsent-take_token now (hash identifier) i.user.refresh_tokens i.left i.taken distinct in
      let known : Member (hash identifier) s.seen =
        subst (λ h. Member h s.seen) named
          (All→Member (λ (t : RefreshToken). Member t.identifier s.seen) i.user.refresh_tokens token
            issued member) in
      let gone =
        All-stored_tokens (λ (t : RefreshToken). t.identifier ≢ hash identifier) now
          use_refresh_token (hash fresh) i.left absent
          (λ same. unseen (subst (λ h. Member h s.seen) (sym same) known)) in
      (
        known,
        subst (λ us. IsRevoked us (user_id, hash identifier)) (sym i.after)
            (IsRevoked-put_user user_id _ s.users (hash identifier) gone),
      )
