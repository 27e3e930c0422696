-- ===== src/Auth/Stored.antt =====
-- Which refresh tokens of a user are stored after a session is set (src/middleware/auth.py).
use odg_core.Prelude.{
  ℕ, suc, zero, ◌≡◌, inl, inr, refl, sym, subst, ◌∙◌, ap, Bool, true, false, not, some, List, [],
  ◌∷◌, ◌++◌, All, All-append, Member, arith, select, Bool-cases,
}
use odg_core.Prelude.Members.{All-select, Member-there, Member-select}
use odg_core.Prelude.Text.{Text, ◌==◌, path→eq}
use odg_core.Auth.Sessions.{RefreshToken, is_expired, find_token, new_token, stored_tokens}
use odg_core.Auth.Tokens.{IsAbsent, HasDistinctHashes}

HasDistinctHashes-append :
    (tokens : List RefreshToken) (token : RefreshToken)
    → HasDistinctHashes tokens
    → IsAbsent token.identifier tokens
    → HasDistinctHashes (tokens ++ token ∷ [])
HasDistinctHashes-append [] token h absent = (tt, tt)
HasDistinctHashes-append (t ∷ tokens) token h absent = (
  All-append _ tokens (token ∷ []) h.0 ((λ p. absent.0 (sym p)), tt),
  HasDistinctHashes-append tokens token h.1 absent.1,
)

pub HasDistinctHashes-select :
    (p : RefreshToken → Bool) (tokens : List RefreshToken)
    → HasDistinctHashes tokens
    → HasDistinctHashes (select p tokens)
unfolding select
HasDistinctHashes-select p [] h = tt
HasDistinctHashes-select p (t ∷ tokens) h = elim (Bool-cases (p t)) [
  | inl kept ↦ rw (select, kept) (All-select _ p tokens h.0, HasDistinctHashes-select p tokens h.1)
  | inr dropped ↦ rw (select, dropped) (HasDistinctHashes-select p tokens h.1)
]

pub All-stored_tokens {κ} :
    (P : RefreshToken → Type κ) (now : ℕ) (use_refresh_token : Bool) (hashed : Text)
    (left : List RefreshToken)
    → All P left
    → P (new_token hashed now)
    → All P (stored_tokens now use_refresh_token hashed left)
unfolding stored_tokens
All-stored_tokens P now true hashed left h new =
    All-select P _ (left ++ new_token hashed now ∷ []) (All-append P left _ h (new, tt))
All-stored_tokens P now false hashed left h new = All-select P _ left h

pub HasDistinctHashes-stored_tokens :
    (now : ℕ) (use_refresh_token : Bool) (hashed : Text) (left : List RefreshToken)
    → HasDistinctHashes left
    → IsAbsent hashed left
    → HasDistinctHashes (stored_tokens now use_refresh_token hashed left)
unfolding stored_tokens
HasDistinctHashes-stored_tokens now true hashed left h absent =
    HasDistinctHashes-select _ (left ++ new_token hashed now ∷ [])
      (HasDistinctHashes-append left (new_token hashed now) h absent)
HasDistinctHashes-stored_tokens now false hashed left h absent = HasDistinctHashes-select _ left h

-- A valid token with the hash is found, or an earlier one.
pub find_token-known :
    (now : ℕ) (hashed : Text) (tokens : List RefreshToken) (token : RefreshToken)
    → Member token tokens
    → token.identifier ≡ hashed
    → is_expired now token ≡ false
    → (found : RefreshToken) × (find_token now hashed tokens ≡ some found)
unfolding find_token
find_token-known now hashed [] token (i, e) named valid = cc
find_token-known now hashed (t ∷ tokens) token (zero, e) named valid =
    let same : token ≡ t = cc in
    let named' : (t.identifier == hashed) ≡ true =
      path→eq t.identifier hashed (ap (λ (u : RefreshToken). u.identifier) (sym same) ∙ named) in
    let valid' : is_expired now t ≡ false = subst (λ u. is_expired now u ≡ false) same valid in
    (t, rw (valid', named') refl)
find_token-known now hashed (t ∷ tokens) token (suc i, e) named valid =
    let (found, f) = find_token-known now hashed tokens token (i, e) named valid in
    elim (Bool-cases (is_expired now t)) [
      | inl expired ↦ (found, rw expired f)
      | inr fresh ↦ elim (Bool-cases (t.identifier == hashed)) [
        | inl here ↦ (t, rw (fresh, here) refl)
        | inr there ↦ (found, rw (fresh, there) f)
      ]
    ]

Member-append_last {ℓ} : {A : Type ℓ} (xs : List A) (x : A) → Member x (xs ++ x ∷ [])
Member-append_last [] x = (0, refl)
Member-append_last (y ∷ xs) x = Member-there y x (xs ++ x ∷ []) (Member-append_last xs x)

new_token_valid : (hashed : Text) (now : ℕ) → is_expired now (new_token hashed now) ≡ false
new_token_valid hashed now = ground arith

-- A new token is stored.
pub Member-stored_tokens :
    (now : ℕ) (hashed : Text) (left : List RefreshToken)
    → Member (new_token hashed now) (stored_tokens now true hashed left)
unfolding stored_tokens
Member-stored_tokens now hashed left =
    Member-select _ (left ++ new_token hashed now ∷ []) (new_token hashed now)
      (Member-append_last left (new_token hashed now)) (ap not (new_token_valid hashed now))
