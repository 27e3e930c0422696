-- ===== src/Sprint/Assignment.antt =====
-- What `find_sprint_for_ref_date` (src/sprints/util.py) promises for sprints of the configuration.
use odg_core.Prelude.{
  ℕ, ◌≤◌, ◌<◌, ◌≡◌, refl, ap, ◌⊎◌, inl, inr, true, false, none, some, List, [], ◌∷◌, arith, any,
  length, All, All-map_of, Member, Bool-cases, Option-cases, ◌∙◌, subst,
}
use odg_core.Prelude.Int.{ℤ, pos, ◌≤ℤ◌}
use odg_core.Prelude.Result.{
  Result, ok, ◌>>=◌, >>=-eq-ok, map_result, All-map_result, Member-map_result, map_result_total,
}
use odg_core.Prelude.Text.{Text, ◌==◌, eq_comm}
use odg_core.Sprint.Defs.{Sprint, SprintDate, seen_names, check_sprint, find_sprint_date, due_date}
use odg_core.Sprint.Search.{
  Dated, choose, with_due_date, Found, found_sprint, find_sprint_for_ref_date,
}
use odg_core.Sprint.Choice.{IsEarliest, choose-IsEarliest, choose_mono, choose_total, choose-Member}

-- A name that the loop has seen was seen before or belongs to a date, which is then found.
seen_names-find :
    (name : Text) (seen : List Text) (dates : List SprintDate) (out : List Text)
    → seen_names seen dates ≡ ok out
    → any (λ n. name == n) out ≡ true
    → (any (λ n. name == n) seen ≡ true)
      ⊎ ((d : SprintDate) × (find_sprint_date name dates ≡ some d))
unfolding seen_names find_sprint_date any
seen_names-find name seen [] out e h = inl (let same : seen ≡ out = cc in rw same h)
seen_names-find name seen (d ∷ dates) out e h = elim (Bool-cases (d.name == name)) [
  | inl t ↦ inr (d, rw t)
  | inr t ↦
      let e' : seen_names (d.name ∷ seen) dates ≡ ok out = ground arith in
      let other : (name == d.name) ≡ false = eq_comm name d.name ∙ t in
      elim (seen_names-find name (d.name ∷ seen) dates out e' h) [
        | inl old ↦ inl (ground arith)
        | inr (f, at) ↦ inr (f, rw t at)
      ]
]

-- A sprint that passes its checks has a due date.
due_date_total : (s : Sprint) → check_sprint s ≡ ok tt → (d : ℕ) × (due_date s ≡ ok d)
unfolding check_sprint due_date
due_date_total s h =
    let (seen, found, known) = >>=-eq-ok (seen_names [] s.dates) _ h in
    elim (seen_names-find s.finding_due_date_offset_name [] s.dates seen found (ground arith)) [
      | inl old ↦ absurd (unfold any in cc)
      | inr (d, e) ↦ (d.value, ground arith)
    ]

module _ {M : Type 0} (due_on : M → ℕ) (ref : ℕ) where
  abbrev find : ℤ → List Sprint → Result (Found M)
  find offset sprints = find_sprint_for_ref_date due_on (some ref) (some sprints) none offset

  find-eq :
      (offset : ℤ) (s : Sprint) (sprints : List Sprint)
      → find offset (s ∷ sprints) ≡ (
          map_result with_due_date (s ∷ sprints) >>= λ dated.
          ok (found_sprint (choose ref offset dated)))
  unfolding find_sprint_for_ref_date
  find-eq offset s sprints = refl

  -- What a found sprint is: the item that `choose` picks, with its due date.
  find-inv :
      (offset : ℤ) (sprints : List Sprint) (s : Sprint)
      → find offset sprints ≡ ok (Found.sprint s)
      → (dated : List (Dated Sprint)) × (d : ℕ) × (map_result with_due_date sprints ≡ ok dated)
        × (choose ref offset dated ≡ some (d, s))
  find-inv offset [] s e = absurd (unfold find_sprint_for_ref_date in cc)
  find-inv offset (t ∷ sprints) s e =
      let (dated, known, found) =
        >>=-eq-ok (map_result with_due_date (t ∷ sprints)) _ (rw (find-eq offset t sprints) at e) in
      elim (Option-cases (choose ref offset dated)) [
        | inl absent ↦ absurd (ground arith)
        | inr ((d, u), chosen) ↦ (dated, d, known, ground arith)
      ]

  with_due_date-inv :
      (s t : Sprint) (d : ℕ) → with_due_date s ≡ ok (d, t) → (s ≡ t) × (due_date s ≡ ok d)
  unfolding with_due_date
  with_due_date-inv s t d e = ground arith

  -- With offset 0 the found sprint is one of the given ones. If a sprint is due at the reference
  -- date or later, the found one is the first of these; otherwise it is the last of all.
  pub find_sprint-IsEarliest :
      (sprints : List Sprint) (s : Sprint)
      → find_sprint_for_ref_date due_on (some ref) (some sprints) none (pos 0) ≡ ok (Found.sprint s)
      → Member s sprints
        × ((d : ℕ) × (due_date s ≡ ok d)
            × All (λ t. (e : ℕ) × (due_date t ≡ ok e) × IsEarliest ref d e) sprints)
  find_sprint-IsEarliest sprints s e =
      let (dated, d, known, chosen) = find-inv (pos 0) sprints s e in
      let (m, best) = choose-IsEarliest ref dated (d, s) chosen in
      let (t, there, is_t) = Member-map_result with_due_date sprints dated (d, s) known m in
      let (same, due) = with_due_date-inv t s d is_t in
      (
        subst (λ u. Member u sprints) same there,
        (
          d,
          subst (λ u. due_date u ≡ ok d) same due,
          All-map_of _ _
              (λ u ((v, w), is_u, best_u).
                let (_, due_u) = with_due_date-inv u w v is_u in (v, due_u, best_u))
              sprints (All-map_result with_due_date _ sprints dated known best),
        ),
      )

  -- Among sprints that passed their checks one is found, whatever the offset.
  pub find_sprint_total :
      (offset : ℤ) (sprints : List Sprint)
      → All (λ s. check_sprint s ≡ ok tt) sprints
      → 0 < length sprints
      → (s : Sprint) × (find_sprint_for_ref_date due_on (some ref) (some sprints) none offset
          ≡ ok (Found.sprint s))
  find_sprint_total offset [] h n = absurd (omega arith)
  find_sprint_total offset (t ∷ sprints) h n =
      let due : All (λ u. (y : Dated Sprint) × (with_due_date u ≡ ok y)) (t ∷ sprints) =
        All-map_of _ _
          (λ u c. let (d, e) = due_date_total u c in ((d, u), unfold with_due_date in rw e))
          (t ∷ sprints) h in
      let (dated, known, size) = map_result_total with_due_date (t ∷ sprints) due in
      let ((d, s), chosen) = choose_total ref offset dated (omega arith) in
      (s, find-eq offset t sprints ∙ rw known (ap (λ r. ok (found_sprint r)) chosen))

  -- A greater offset never finds a sprint that is due earlier.
  pub find_sprint_mono :
      (o p : ℤ) (sprints : List Sprint) (s t : Sprint) (d e : ℕ)
      → o ≤ℤ p
      → find_sprint_for_ref_date due_on (some ref) (some sprints) none o ≡ ok (Found.sprint s)
      → find_sprint_for_ref_date due_on (some ref) (some sprints) none p ≡ ok (Found.sprint t)
      → due_date s ≡ ok d
      → due_date t ≡ ok e
      → d ≤ e
  find_sprint_mono o p sprints s t d e h hs ht ds dt =
      let (xs, a, known_s, chosen_s) = find-inv o sprints s hs in
      let (ys, b, known_t, chosen_t) = find-inv p sprints t ht in
      let same : ys ≡ xs = cc in
      let da : due_date s ≡ ok a = due_of o s xs a known_s chosen_s in
      let db : due_date t ≡ ok b = due_of p t ys b known_t chosen_t in
      let le : a ≤ b = choose_mono ref o p xs (a, s) (b, t) h chosen_s (rw same at chosen_t) in
      let ea : a ≡ d = cc in let eb : b ≡ e = cc in omega arith
    where
      due_of :
          (q : ℤ) (u : Sprint) (dated : List (Dated Sprint)) (c : ℕ)
          → map_result with_due_date sprints ≡ ok dated
          → choose ref q dated ≡ some (c, u)
          → due_date u ≡ ok c
      due_of q u dated c known chosen =
          let (v, there, is_v) =
            Member-map_result with_due_date sprints dated (c, u) known
              (choose-Member ref q dated (c, u) chosen) in
          let (same, due) = with_due_date-inv v u c is_v in subst (λ w. due_date w ≡ ok c) same due
