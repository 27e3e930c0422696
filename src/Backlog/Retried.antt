-- ===== src/Backlog/Retried.antt =====
-- What `remove_claim` (src/k8s/backlog.py) does after a conflict.
use odg_core.Prelude.{
  ℕ, suc, ◌≡◌, refl, ap, sym, subst, ◌∙◌, false, some, List, [], ◌∷◌, arith, All, Bool-cases, inl,
  inr, ◌<◌, lt→ltb,
}
use odg_core.Prelude.Result.{ok, err, Raised, >>=-eq-ok}
use odg_core.Prelude.Text.{Text, text, ◌==◌, eq→path}
use odg_core.Backlog.Items.{
  Dict, set_item, del_item, BacklogCrd, label_claimed, annotation_claimed_by, annotation_claimed_at,
  HttpStatus, Answer, refused,
}
use odg_core.Backlog.Claims.{released_with, released, remove_claim}

-- No item of the dict has the key.
abbrev IsAbsent : Text → Dict → Type 0
unfolding ◌==◌
IsAbsent k d = All (λ (item : Text × Text). (item.0 == k) ≡ false) d

-- A dict has each key once.
abbrev pub HasUniqueKeys : Dict → Type 0
unfolding ◌==◌
HasUniqueKeys [] = Unit
HasUniqueKeys ((k, v) ∷ d) = All (λ (item : Text × Text). (item.0 == k) ≡ false) d × HasUniqueKeys d

del_item-IsAbsent : (k : Text) (d : Dict) → IsAbsent k d → del_item k d ≡ err Raised.key_error
unfolding del_item IsAbsent
del_item-IsAbsent k [] h = refl
del_item-IsAbsent k ((j, v) ∷ d) h = rw (h.0, del_item-IsAbsent k d h.1) refl

-- What is deleted is absent afterwards, and what was absent stays so.
IsAbsent-del_item_self :
    (k : Text) (d d' : Dict) → HasUniqueKeys d → del_item k d ≡ ok d' → IsAbsent k d'
unfolding del_item IsAbsent HasUniqueKeys
IsAbsent-del_item_self k [] d' unique e = cc
IsAbsent-del_item_self k ((j, v) ∷ d) d' unique e = elim (Bool-cases (j == k)) [
  | inl here ↦
      let kept : d ≡ d' = ground arith in
      subst (IsAbsent k) kept (subst (λ i. IsAbsent i d) (eq→path j k here) unique.0)
  | inr there ↦
      let (d'', e', rest) = >>=-eq-ok (del_item k d) _ (rw there at e) in
      let kept : (j, v) ∷ d'' ≡ d' = cc in
      subst (IsAbsent k) kept (there, IsAbsent-del_item_self k d d'' unique.1 e')
]

IsAbsent-del_item : (k j : Text) (d d' : Dict) → IsAbsent k d → del_item j d ≡ ok d' → IsAbsent k d'
unfolding del_item IsAbsent
IsAbsent-del_item k j [] d' absent e = cc
IsAbsent-del_item k j ((i, v) ∷ d) d' absent e = elim (Bool-cases (i == j)) [
  | inl here ↦ let kept : d ≡ d' = ground arith in subst (IsAbsent k) kept absent.1
  | inr there ↦
      let (d'', e', rest) = >>=-eq-ok (del_item j d) _ (rw there at e) in
      let kept : (i, v) ∷ d'' ≡ d' = cc in
      subst (IsAbsent k) kept (absent.0, IsAbsent-del_item k j d d'' absent.1 e')
]

-- A second release of the same item raises.
released-released :
    (crd changed : BacklogCrd) (annotations : Dict)
    → crd.annotations ≡ some annotations
    → HasUniqueKeys annotations
    → released crd ≡ ok changed
    → released changed ≡ err Raised.key_error
unfolding released released_with
released-released crd changed annotations known unique e =
    let e' = sym (ap (λ a. released_with a crd) known) ∙ e in
    let (without_by, e1, rest) = >>=-eq-ok (del_item annotation_claimed_by annotations) _ e' in
    let (without_at, e2, rest') = >>=-eq-ok (del_item annotation_claimed_at without_by) _ rest in
    let absent =
      IsAbsent-del_item annotation_claimed_by annotation_claimed_at without_by without_at
        (IsAbsent-del_item_self annotation_claimed_by annotations without_by unique e1) e2 in
    let same : record crd {
      labels = set_item label_claimed (text "False") crd.labels;
      annotations = some without_at;
    }
        ≡ changed =
      cc in
    let kept : changed.annotations ≡ some without_at =
      sym (ap (λ (c : BacklogCrd). c.annotations) same) in
    ap (λ a. released_with a changed) kept
    ∙ rw (del_item-IsAbsent annotation_claimed_by without_at absent) refl

-- If the API answers the first attempt of remove_claim with a conflict, then remove_claim raises
-- KeyError in its second attempt, whatever the API would answer to it, as long as retries are left:
-- the first attempt deleted the annotations from the same object.
pub remove_claim-conflict :
    (max_retries retry_count : ℕ) (crd changed : BacklogCrd) (annotations : Dict)
    (answers : List (Answer (Unit {0})))
    → retry_count < max_retries
    → crd.annotations ≡ some annotations
    → HasUniqueKeys annotations
    → released crd ≡ ok changed
    → remove_claim max_retries retry_count crd (refused HttpStatus.conflict ∷ answers)
      ≡ some (err Raised.key_error)
unfolding remove_claim
remove_claim-conflict max_retries retry_count crd changed annotations answers left known unique e =
    let again = released-released crd changed annotations known unique e in
    let may_retry = lt→ltb retry_count max_retries left in
    rw (e, remove_claim, may_retry) (second answers again)
  where
    second :
        (answers : List (Answer (Unit {0})))
        → released changed ≡ err Raised.key_error
        → remove_claim max_retries (suc retry_count) changed answers ≡ some (err Raised.key_error)
    second [] again = rw (again, remove_claim) refl
    second (a ∷ answers) again = rw (again, remove_claim) refl
