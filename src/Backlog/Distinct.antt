-- ===== src/Backlog/Distinct.antt =====
-- Lists of claims for different items, and what a claim writes (src/k8s/backlog.py).
use odg_core.Prelude.{
  ℕ, zero, suc, ◌≡◌, ◌≢◌, inl, inr, refl, sym, ap, subst, ◌∙◌, Bool, false, some, List, [], ◌∷◌,
  arith, All, All→Member, select, Bool-cases, get_elem?,
}
use odg_core.Prelude.Members.{All-select}
use odg_core.Prelude.Text.{Text, text, ◌==◌, eq→path, eq_refl}
use odg_core.Backlog.Items.{
  BacklogCrd, Dict, get_item, set_item, label_claimed, annotation_claimed_by, annotation_claimed_at,
}
use odg_core.Backlog.Claims.{claimed_by_host, or_empty}
use odg_core.Backlog.Sharing.{IsClaimedBy}

get_item-set_item_self : (k v : Text) (d : Dict) → get_item k (set_item k v d) ≡ some v
unfolding get_item set_item
get_item-set_item_self k v [] = rw (eq_refl k) refl
get_item-set_item_self k v ((j, w) ∷ d) = ground (arith, get_item-set_item_self k v d)

get_item-set_item :
    (k j v : Text) (d : Dict) → (j == k) ≡ false → get_item k (set_item j v d) ≡ get_item k d
unfolding get_item set_item ◌==◌
get_item-set_item k j v [] e = rw e refl
get_item-set_item k j v ((i, w) ∷ d) e = elim (Bool-cases (i == j)) [
  | inl same ↦
      let other : (i == k) ≡ false = subst (λ t. (t == k) ≡ false) (sym (eq→path i j same)) e in
      ground arith
  | inr differ ↦ ground (arith, get_item-set_item k j v d e)
]

pub claimed_by_host-IsClaimedBy :
    (host now : Text) (crd : BacklogCrd) (version : ℕ)
    → IsClaimedBy host (record (claimed_by_host host now crd) { resource_version = version })
unfolding claimed_by_host
claimed_by_host-IsClaimedBy host now crd version = record {
  labelled = get_item-set_item_self label_claimed (text "True") crd.labels;
  annotated = (
    set_item annotation_claimed_at now
        (set_item annotation_claimed_by host (or_empty crd.annotations)),
    refl,
    get_item-set_item annotation_claimed_by annotation_claimed_at now _ differ
        ∙ get_item-set_item_self annotation_claimed_by host (or_empty crd.annotations),
  );
}
  where
    differ : (annotation_claimed_at == annotation_claimed_by) ≡ false
    differ = refl

-- All claims are for different items.
abbrev pub IsDistinct : List (Text × Text) → Type 0
IsDistinct [] = Unit
IsDistinct (c ∷ cs) = All (λ (d : Text × Text). d.1 ≢ c.1) cs × IsDistinct cs

pub IsDistinct-select :
    (p : Text × Text → Bool) (cs : List (Text × Text)) → IsDistinct cs → IsDistinct (select p cs)
unfolding select
IsDistinct-select p [] h = tt
IsDistinct-select p (c ∷ cs) h = elim (Bool-cases (p c)) [
  | inl kept ↦ rw (select, kept) (All-select _ p cs h.0, IsDistinct-select p cs h.1)
  | inr dropped ↦ rw (select, dropped) (IsDistinct-select p cs h.1)
]

pub IsDistinct-unique :
    (cs : List (Text × Text)) (i j : ℕ) (h g n : Text)
    → IsDistinct cs
    → get_elem? cs i ≡ some (h, n)
    → get_elem? cs j ≡ some (g, n)
    → i ≡ j
IsDistinct-unique [] i j h g n distinct e f = cc
IsDistinct-unique (c ∷ cs) zero zero h g n distinct e f = refl
IsDistinct-unique (c ∷ cs) zero (suc j) h g n distinct e f =
    let first : c.1 ≡ n = let same : c ≡ (h, n) = cc in ap (λ (d : Text × Text). d.1) same in
    absurd (All→Member (λ (d : Text × Text). d.1 ≢ c.1) cs (g, n) distinct.0 (j, f) (sym first))
IsDistinct-unique (c ∷ cs) (suc i) zero h g n distinct e f =
    let first : c.1 ≡ n = let same : c ≡ (g, n) = cc in ap (λ (d : Text × Text). d.1) same in
    absurd (All→Member (λ (d : Text × Text). d.1 ≢ c.1) cs (h, n) distinct.0 (i, e) (sym first))
IsDistinct-unique (c ∷ cs) (suc i) (suc j) h g n distinct e f =
    ap suc (IsDistinct-unique cs i j h g n distinct.1 e f)
