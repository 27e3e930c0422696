-- ===== src/Backlog/Urgent.antt =====
-- Which item `get_backlog_crd_and_claim` claims (src/k8s/backlog.py).
use odg_core.Prelude.{
  suc, ◌≢◌, ◌∙◌, ◌++◌, ◌≡◌, refl, sym, subst, inl, inr, Bool-cases, All-map_of, ◌<◌, ◌⊎◌, true,
  false, Option, none, some, List, [], ◌∷◌, arith, All, Member, ltb,
}
use odg_core.Prelude.Result.{Result, ok, err, Raised, >>=-eq-ok, map_result}
use odg_core.Prelude.Sort.{sorted, sorted-IsSorted, IsSorted, Member-of_sorted, All-of_sorted}
use odg_core.Prelude.Text.{Text, text_leb, text_leb_total, text_leb_trans}
use odg_core.Backlog.Items.{BacklogCrd, HttpStatus, Answer, refused, answered}
use odg_core.Backlog.Claims.{
  may_precede, check_priority, front, select_crd, Round, Claiming, done, get_backlog_crd_and_claim,
  claimed_by_host, after_replace, after_select, claim_round,
}

-- The second is not more urgent: of a lower priority, or of the same and not earlier.
abbrev pub IsMoreUrgent : BacklogCrd → BacklogCrd → Type 0
IsMoreUrgent a b =
    (b.priority < a.priority)
    ⊎ ((b.priority ≡ a.priority) × (text_leb a.timestamp b.timestamp ≡ true))

may_precede-IsMoreUrgent : (a b : BacklogCrd) → may_precede a b ≡ true → IsMoreUrgent a b
unfolding may_precede
may_precede-IsMoreUrgent a b h = elim (Bool-cases (ltb b.priority a.priority)) [
  | inl lower ↦ inl (ground arith)
  | inr no_lower ↦ inr (ground arith, ground arith)
]

may_precede_total : (a b : BacklogCrd) → may_precede a b ≡ false → may_precede b a ≡ true
unfolding may_precede
may_precede_total a b h = ground (arith, text_leb_total a.timestamp b.timestamp)

may_precede_trans :
    (a b c : BacklogCrd) → may_precede a b ≡ true → may_precede b c ≡ true → may_precede a c ≡ true
unfolding may_precede
may_precede_trans a b c h k = ground (arith, text_leb_trans a.timestamp b.timestamp c.timestamp)

may_precede_refl : (a : BacklogCrd) → may_precede a a ≡ true
unfolding may_precede
may_precede_refl a = ground (arith, text_leb_total a.timestamp a.timestamp)

-- The item is of the list, and none of the list is more urgent.
abbrev pub IsMostUrgent : BacklogCrd → List BacklogCrd → Type 0
IsMostUrgent crd crds = Member crd crds × All (IsMoreUrgent crd) crds

sorted-IsMostUrgent :
    (crds : List BacklogCrd) (crd : BacklogCrd) (rest : List BacklogCrd)
    → sorted may_precede crds ≡ crd ∷ rest
    → IsMostUrgent crd crds
sorted-IsMostUrgent crds crd rest e =
    let ordered : IsSorted may_precede (crd ∷ rest) =
      subst (IsSorted may_precede) e
        (sorted-IsSorted may_precede may_precede_total may_precede_trans crds) in
    let all_sorted : All (λ b. may_precede crd b ≡ true) (crd ∷ rest) =
      (may_precede_refl crd, ordered.0) in
    (
      Member-of_sorted may_precede crd crds (subst (Member crd) (sym e) (0, refl)),
      All-map_of _ _ (may_precede-IsMoreUrgent crd) crds (
          All-of_sorted may_precede (λ b. may_precede crd b ≡ true) crds
            (subst (All (λ b. may_precede crd b ≡ true)) (sym e) all_sorted)),
    )

select_crd-IsMostUrgent :
    (crds : List BacklogCrd) (crd : BacklogCrd)
    → select_crd crds ≡ ok (some crd)
    → IsMostUrgent crd crds
unfolding select_crd
select_crd-IsMostUrgent crds crd e =
    let (checked, passed, chosen) = >>=-eq-ok (map_result check_priority crds) _ e in
    first (sorted may_precede crds) refl chosen
  where
    first :
        (sorted_crds : List BacklogCrd)
        → sorted may_precede crds ≡ sorted_crds
        → ok (front sorted_crds) ≡ ok (some crd)
        → IsMostUrgent crd crds
    first [] e chosen = cc
    first (x ∷ rest) e chosen =
        let same : x ≡ crd = cc in
        subst (λ c. IsMostUrgent c crds) same (sorted-IsMostUrgent crds x rest e)

-- The round chose the most urgent of its items, and the API accepted it with the claim.
abbrev pub Claims : Text → BacklogCrd → Text × Round → Type 0
Claims host claimed (now, round) =
    (crds : List BacklogCrd) × (crd : BacklogCrd) × (round.listed ≡ answered crds)
    × IsMostUrgent crd crds
    × (round.replaced ≡ answered tt)
    × (claimed ≡ claimed_by_host host now crd)

after_replace_inv :
    (crd claimed : BacklogCrd) (retry : Claiming) (replaced : Answer (Unit {0}))
    → after_replace crd retry replaced ≡ done (ok (some claimed))
    → ((replaced ≡ answered tt) × (crd ≡ claimed)) ⊎ (retry ≡ done (ok (some claimed)))
unfolding after_replace
after_replace_inv crd claimed retry (answered tt) h = inl (refl, cc)
after_replace_inv crd claimed retry (refused HttpStatus.conflict) h = inr h
after_replace_inv crd claimed retry (refused HttpStatus.not_found) h = cc
after_replace_inv crd claimed retry (refused HttpStatus.gone) h = cc
after_replace_inv crd claimed retry (refused HttpStatus.other_status) h = cc

claim_round_inv :
    (host now : Text) (round : Round) (retry : Claiming) (claimed : BacklogCrd)
    → claim_round host now false round retry ≡ done (ok (some claimed))
    → Claims host claimed (now, round) ⊎ (retry ≡ done (ok (some claimed)))
unfolding claim_round
claim_round_inv host now round retry claimed h = listed round.listed refl h
  where
    selected :
        (crds : List BacklogCrd) (chosen : Result (Option BacklogCrd))
        → round.listed ≡ answered crds
        → select_crd crds ≡ chosen
        → after_select host now false round.replaced retry chosen ≡ done (ok (some claimed))
        → Claims host claimed (now, round) ⊎ (retry ≡ done (ok (some claimed)))
    selected crds (err e) l s h = cc
    selected crds (ok none) l s h = cc
    selected crds (ok (some crd)) l s h =
        elim (after_replace_inv (claimed_by_host host now crd) claimed retry round.replaced h) [
          | inl (accepted, same) ↦
              inl (crds, crd, l, select_crd-IsMostUrgent crds crd s, accepted, sym same)
          | inr later ↦ inr later
        ]

    listed :
        (answer : Answer (List BacklogCrd))
        → round.listed ≡ answer
        → elim answer [
          | refused s ↦ done (err Raised.api_exception)
          | answered crds ↦ after_select host now false round.replaced retry (select_crd crds)
        ]
          ≡ done (ok (some claimed))
        → Claims host claimed (now, round) ⊎ (retry ≡ done (ok (some claimed)))
    listed (refused s) l h = cc
    listed (answered crds) l h = selected crds (select_crd crds) l refl h

-- An item that get_backlog_crd_and_claim returns was listed in one of its rounds, none of the items
-- listed there is more urgent (has a higher priority, or the same and an earlier timestamp), and
-- the API accepted it with the claim of the host, which is the item that is returned.
pub get_backlog_crd_and_claim-Claims :
    (host : Text) (rounds : List (Text × Round)) (claimed : BacklogCrd)
    → get_backlog_crd_and_claim host false rounds ≡ done (ok (some claimed))
    → (round : Text × Round) × Member round rounds × Claims host claimed round
unfolding get_backlog_crd_and_claim
get_backlog_crd_and_claim-Claims host [] claimed h = cc
get_backlog_crd_and_claim-Claims host ((now, round) ∷ rounds) claimed h =
    elim (claim_round_inv host now round (get_backlog_crd_and_claim host false rounds) claimed h) [
      | inl claims ↦ ((now, round), (0, refl), claims)
      | inr later ↦
          let (r, (i, m), claims) = get_backlog_crd_and_claim-Claims host rounds claimed later in
          (r, (suc i, m), claims)
    ]

-- The API refuses the item of the round because of a conflict.
abbrev pub Conflicts : Text × Round → Type 0
Conflicts (now, round) =
    (crds : List BacklogCrd) × (crd : BacklogCrd) × (round.listed ≡ answered crds)
    × (select_crd crds ≡ ok (some crd))
    × (round.replaced ≡ refused HttpStatus.conflict)

claim_round-Conflicts :
    (host now : Text) (round : Round) (retry : Claiming)
    → Conflicts (now, round)
    → claim_round host now false round retry ≡ retry
unfolding claim_round after_select after_replace
claim_round-Conflicts host now round retry (crds, crd, l, s, r) = rw (l, s, r) refl

after_replace_ends :
    (crd : BacklogCrd) (retry : Claiming) (replaced : Answer (Unit {0}))
    → replaced ≢ refused HttpStatus.conflict
    → (result : Result (Option BacklogCrd)) × (after_replace crd retry replaced ≡ done result)
unfolding after_replace
after_replace_ends crd retry (answered tt) h = (ok (some crd), refl)
after_replace_ends crd retry (refused HttpStatus.conflict) h = absurd (h refl)
after_replace_ends crd retry (refused HttpStatus.not_found) h = (err Raised.api_exception, refl)
after_replace_ends crd retry (refused HttpStatus.gone) h = (err Raised.api_exception, refl)
after_replace_ends crd retry (refused HttpStatus.other_status) h = (err Raised.api_exception, refl)

after_select_ends :
    (host now : Text) (replaced : Answer (Unit {0})) (retry : Claiming)
    (chosen : Result (Option BacklogCrd))
    → replaced ≢ refused HttpStatus.conflict
    → (result : Result (Option BacklogCrd)) × (after_select host now false replaced retry chosen
        ≡ done result)
unfolding after_select
after_select_ends host now replaced retry (err e) h = (err e, refl)
after_select_ends host now replaced retry (ok none) h = (ok none, refl)
after_select_ends host now replaced retry (ok (some crd)) h =
    after_replace_ends (claimed_by_host host now crd) retry replaced h

claim_round_ends :
    (host now : Text) (round : Round) (retry : Claiming)
    → round.replaced ≢ refused HttpStatus.conflict
    → (result : Result (Option BacklogCrd)) × (claim_round host now false round retry ≡ done result)
unfolding claim_round
claim_round_ends host now round retry h = listed round.listed
  where
    listed :
        (answer : Answer (List BacklogCrd))
        → (result : Result (Option BacklogCrd)) × (elim answer [
          | refused s ↦ done (err Raised.api_exception)
          | answered crds ↦ after_select host now false round.replaced retry (select_crd crds)
        ]
            ≡ done result)
    listed (refused s) = (err Raised.api_exception, refl)
    listed (answered crds) = after_select_ends host now round.replaced retry (select_crd crds) h

-- After any number of rounds with conflicts, a round whose replacement is not refused by a conflict
-- ends get_backlog_crd_and_claim, whatever would come after it.
pub get_backlog_crd_and_claim_ends :
    (host : Text) (before after : List (Text × Round)) (now : Text) (round : Round)
    → All Conflicts before
    → round.replaced ≢ refused HttpStatus.conflict
    → (result : Result (Option BacklogCrd)) × (get_backlog_crd_and_claim host false
          (before ++ (now, round) ∷ after)
        ≡ done result)
unfolding get_backlog_crd_and_claim
get_backlog_crd_and_claim_ends host [] after now round conflicts accepted =
    claim_round_ends host now round _ accepted
get_backlog_crd_and_claim_ends host ((n, r) ∷ before) after now round (conflict, conflicts)
      accepted =
    let (result, e) =
      get_backlog_crd_and_claim_ends host before after now round conflicts accepted in
    (result, claim_round-Conflicts host n r _ conflict ∙ e)
