-- ===== src/Auth/Tokens.antt =====
-- What happens to the stored refresh tokens of one user (src/middleware/auth.py).
use odg_core.Prelude.{
  ℕ, suc, zero, ◌≡◌, ◌≢◌, inl, inr, refl, sym, subst, ◌∙◌, ap, true, ◌&&◌, Option, none, some, List,
  [], ◌∷◌, All, All→Member, Member, arith, Bool-cases, ◌==◌ as nat_eq,
}
use odg_core.Prelude.Members.{Member-there}
use odg_core.Prelude.Result.{ok, err, Raised}
use odg_core.Prelude.Text.{Text, ◌==◌, eq→path, path→eq}
use odg_core.Auth.Sessions.{RefreshToken, is_expired, find_token, remove_token, take_token}

-- No token has the hash.
abbrev pub IsAbsent : Text → List RefreshToken → Type 0
IsAbsent hashed = All (λ (t : RefreshToken). t.identifier ≢ hashed)

-- The hashes of the tokens differ.
abbrev pub HasDistinctHashes : List RefreshToken → Type 0
HasDistinctHashes [] = Unit
HasDistinctHashes (t ∷ tokens) = IsAbsent t.identifier tokens × HasDistinctHashes tokens

All-remove_token {κ} :
    (P : RefreshToken → Type κ) (token : RefreshToken) (tokens : List RefreshToken)
    → All P tokens
    → All P (remove_token token tokens)
unfolding remove_token
All-remove_token P token [] h = tt
All-remove_token P token (t ∷ tokens) h =
    elim (Bool-cases (t.identifier == token.identifier && nat_eq t.exp token.exp)) [
      | inl here ↦ rw here h.1
      | inr there ↦ rw there (h.0, All-remove_token P token tokens h.1)
    ]

HasDistinctHashes-remove_token :
    (token : RefreshToken) (tokens : List RefreshToken)
    → HasDistinctHashes tokens
    → HasDistinctHashes (remove_token token tokens)
unfolding remove_token
HasDistinctHashes-remove_token token [] h = tt
HasDistinctHashes-remove_token token (t ∷ tokens) h =
    elim (Bool-cases (t.identifier == token.identifier && nat_eq t.exp token.exp)) [
      | inl here ↦ rw here h.1
      | inr there ↦ rw there (
        All-remove_token (λ (u : RefreshToken). u.identifier ≢ t.identifier) token tokens h.0,
        HasDistinctHashes-remove_token token tokens h.1,
      )
    ]

-- The token that is found has the hash and stands in the list.
find_token-Member :
    (now : ℕ) (hashed : Text) (tokens : List RefreshToken) (token : RefreshToken)
    → find_token now hashed tokens ≡ some token
    → Member token tokens × (token.identifier ≡ hashed)
unfolding find_token
find_token-Member now hashed [] token e = cc
find_token-Member now hashed (t ∷ tokens) token e =
    let later : find_token now hashed tokens ≡ some token
        → Member token (t ∷ tokens) × (token.identifier ≡ hashed) =
      λ found.
        let (member, named) = find_token-Member now hashed tokens token found in
        (Member-there t token tokens member, named) in
    elim (Bool-cases (is_expired now t)) [
      | inl expired ↦ later (rw expired at e)
      | inr valid ↦ elim (Bool-cases (t.identifier == hashed)) [
        | inl here ↦
            let same : t ≡ token = let e' = rw (valid, here) at e in cc in
            (
              (0, ap some same),
              ap (λ (u : RefreshToken). u.identifier) (sym same) ∙ eq→path t.identifier hashed here,
            )
        | inr there ↦ later (rw (valid, there) at e)
      ]
    ]

-- Once a token is removed from distinct ones, its hash is absent.
IsAbsent-remove_token :
    (token : RefreshToken) (tokens : List RefreshToken)
    → HasDistinctHashes tokens
    → Member token tokens
    → IsAbsent token.identifier (remove_token token tokens)
unfolding remove_token
IsAbsent-remove_token token [] distinct (i, e) = cc
IsAbsent-remove_token token (t ∷ tokens) distinct (zero, e) =
    let same : t ≡ token = cc in
    let named : (t.identifier == token.identifier) ≡ true =
      path→eq _ _ (ap (λ (u : RefreshToken). u.identifier) same) in
    let ends : nat_eq t.exp token.exp ≡ true =
      let path = ap (λ (u : RefreshToken). u.exp) same in ground arith in
    rw (named, ends) (subst (λ (u : RefreshToken). IsAbsent u.identifier tokens) same distinct.0)
IsAbsent-remove_token token (t ∷ tokens) distinct (suc i, e) =
    let differ : token.identifier ≢ t.identifier =
      All→Member (λ (u : RefreshToken). u.identifier ≢ t.identifier) tokens token distinct.0
        (i, e) in
    elim (Bool-cases (t.identifier == token.identifier)) [
      | inl same ↦ absurd (differ (sym (eq→path t.identifier token.identifier same)))
      | inr other ↦
          rw other (λ p. differ (sym p), IsAbsent-remove_token token tokens distinct.1 (i, e))
    ]

pub All-take_token {κ} :
    (P : RefreshToken → Type κ) (now : ℕ) (existing : Option Text) (tokens left : List RefreshToken)
    → take_token now existing tokens ≡ ok left
    → All P tokens
    → All P left
unfolding take_token
All-take_token P now none tokens left e h = let same : tokens ≡ left = cc in subst (All P) same h
All-take_token P now (some hashed) tokens left e h = found (find_token now hashed tokens) e
  where
    found :
        (o : Option RefreshToken)
        → elim o [
          | none ↦ err Raised.http_unauthorized
          | some token ↦ ok (remove_token token tokens)
        ]
          ≡ ok left
        → All P left
    found none e = cc
    found (some token) e =
        let same : remove_token token tokens ≡ left = cc in
        subst (All P) same (All-remove_token P token tokens h)

pub HasDistinctHashes-take_token :
    (now : ℕ) (existing : Option Text) (tokens left : List RefreshToken)
    → take_token now existing tokens ≡ ok left
    → HasDistinctHashes tokens
    → HasDistinctHashes left
unfolding take_token
HasDistinctHashes-take_token now none tokens left e h =
    let same : tokens ≡ left = cc in subst HasDistinctHashes same h
HasDistinctHashes-take_token now (some hashed) tokens left e h =
    found (find_token now hashed tokens) e
  where
    found :
        (o : Option RefreshToken)
        → elim o [
          | none ↦ err Raised.http_unauthorized
          | some token ↦ ok (remove_token token tokens)
        ]
          ≡ ok left
        → HasDistinctHashes left
    found none e = cc
    found (some token) e =
        let same : remove_token token tokens ≡ left = cc in
        subst HasDistinctHashes same (HasDistinctHashes-remove_token token tokens h)

-- A taken token is absent from what is left.
pub IsAbsent-take_token :
    (now : ℕ) (hashed : Text) (tokens left : List RefreshToken)
    → take_token now (some hashed) tokens ≡ ok left
    → HasDistinctHashes tokens
    → IsAbsent hashed left
      × ((token : RefreshToken) × Member token tokens × (token.identifier ≡ hashed))
unfolding take_token
IsAbsent-take_token now hashed tokens left e h = found (find_token now hashed tokens) refl e
  where
    found :
        (o : Option RefreshToken)
        → find_token now hashed tokens ≡ o
        → elim o [
          | none ↦ err Raised.http_unauthorized
          | some token ↦ ok (remove_token token tokens)
        ]
          ≡ ok left
        → IsAbsent hashed left
          × ((token : RefreshToken) × Member token tokens × (token.identifier ≡ hashed))
    found none f e = cc
    found (some token) f e =
        let same : remove_token token tokens ≡ left = cc in
        let (member, named) = find_token-Member now hashed tokens token f in
        (
          subst (λ hash. IsAbsent hash left) named
              (subst (IsAbsent token.identifier) same
                (IsAbsent-remove_token token tokens h member)),
          (token, member, named),
        )
