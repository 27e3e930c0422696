-- ===== src/Sprint/Config.antt =====
-- Sprints that `SprintsConfiguration.__post_init__` (src/sprints/model.py) builds from dates and
-- offsets.
use odg_core.Prelude.{
  ℕ, ◌≡◌, refl, ◌∙◌, subst, false, some, List, [], ◌∷◌, arith, any, All, All-map_of,
}
use odg_core.Prelude.Result.{ok, >>=-eq-ok, map_result, All-map_result}
use odg_core.Prelude.Text.{Text, text, ◌==◌, eq_comm, eq_refl}
use odg_core.Sprint.Defs.{
  end_date_name, SprintOffsets, SprintDate, Sprint, seen_names, check_sprint, find_sprint_date,
  add_days, RawSprint, offset_date, build_sprint,
}

-- No date of a checked list has a name that was seen before.
seen_names_fresh :
    (seen : List Text) (dates : List SprintDate) (out : List Text)
    → seen_names seen dates ≡ ok out
    → All (λ d. any (λ n. d.name == n) seen ≡ false) dates
unfolding seen_names any
seen_names_fresh seen [] out e = tt
seen_names_fresh seen (d ∷ dates) out e =
    let e' : seen_names (d.name ∷ seen) dates ≡ ok out = ground arith in
    (
      ground arith,
      All-map_of (λ f. any (λ n. f.name == n) (d.name ∷ seen) ≡ false)
          (λ f. any (λ n. f.name == n) seen ≡ false) (λ f h. ground arith) dates
          (seen_names_fresh (d.name ∷ seen) dates out e'),
    )

-- So every date is found under its own name.
seen_names-All :
    (seen : List Text) (dates : List SprintDate) (out : List Text)
    → seen_names seen dates ≡ ok out
    → All (λ d. find_sprint_date d.name dates ≡ some d) dates
unfolding seen_names find_sprint_date any
seen_names-All seen [] out e = tt
seen_names-All seen (d ∷ dates) out e =
    let e' : seen_names (d.name ∷ seen) dates ≡ ok out = ground arith in
    (
      rw (eq_refl d.name),
      All-both dates (seen_names-All (d.name ∷ seen) dates out e')
          (seen_names_fresh (d.name ∷ seen) dates out e'),
    )
  where
    later :
        (f : SprintDate) (rest : List SprintDate)
        → find_sprint_date f.name rest ≡ some f
        → any (λ n. f.name == n) (d.name ∷ seen) ≡ false
        → find_sprint_date f.name (d ∷ rest) ≡ some f
    later f rest h fresh =
        let other : (d.name == f.name) ≡ false = eq_comm d.name f.name ∙ ground arith in rw other h

    All-both :
        (fs : List SprintDate)
        → All (λ f. find_sprint_date f.name dates ≡ some f) fs
        → All (λ f. any (λ n. f.name == n) (d.name ∷ seen) ≡ false) fs
        → All (λ f. find_sprint_date f.name (d ∷ dates) ≡ some f) fs
    All-both [] h k = tt
    All-both (f ∷ fs) h k = (later f dates h.0 k.0, All-both fs h.1 k.1)

offset_date-inv :
    (end : ℕ) (o : SprintOffsets) (d : SprintDate)
    → offset_date end o ≡ ok d
    → (d.name ≡ o.name) × (add_days end o.offset_days ≡ ok d.value)
unfolding offset_date
offset_date-inv end o d e = ground arith

-- What is expected of the sprint that is built from a dict.
abbrev pub Built : List SprintOffsets → Text → ℕ → Sprint → Type 0
Built offsets name end s =
    (check_sprint s ≡ ok tt)
    × (s.name ≡ name)
    × ((d : SprintDate) × (find_sprint_date end_date_name s.dates ≡ some d) × (d.value ≡ end))
    × All
        (λ o.
          (d : SprintDate) × (find_sprint_date o.name s.dates ≡ some d)
          × (add_days end o.offset_days ≡ ok d.value))
        offsets

abbrev end_date : ℕ → SprintDate
end_date end = record { name = end_date_name; display_name = some (text "End Date"); value = end }

end_date_found :
    (end : ℕ) (others : List SprintDate)
    → (d : SprintDate) × (find_sprint_date end_date_name (end_date end ∷ others) ≡ some d)
      × (d.value ≡ end)
unfolding find_sprint_date
end_date_found end others = (end_date end, refl, refl)

offsets_found :
    (offsets : List SprintOffsets) (end : ℕ) (others : List SprintDate) (due_name name : Text)
    → check_sprint (record {
      name = name;
      dates = end_date end ∷ others;
      finding_due_date_offset_name = due_name;
    })
      ≡ ok tt
    → map_result (offset_date end) offsets ≡ ok others
    → All
        (λ o.
          (d : SprintDate) × (find_sprint_date o.name (end_date end ∷ others) ≡ some d)
          × (add_days end o.offset_days ≡ ok d.value))
        offsets
unfolding check_sprint
offsets_found offsets end others due_name name checked dated =
    let (out, seen, _) = >>=-eq-ok (seen_names [] (end_date end ∷ others)) _ checked in
    let found : All (λ d. find_sprint_date d.name (end_date end ∷ others) ≡ some d) others =
      (seen_names-All [] (end_date end ∷ others) out seen).1 in
    All-map_of _ _
      (λ o (d, is_d, at).
        let (named, value) = offset_date-inv end o d is_d in
        (d, subst (λ n. find_sprint_date n (end_date end ∷ others) ≡ some d) named at, value))
      offsets (All-map_result (offset_date end) _ offsets others dated found)

-- A sprint that is built from a dict passes its checks, keeps its name and has its end date, and
-- each configured offset names the date that lies its number of days from the end date.
pub build_sprint-dates :
    (offsets : List SprintOffsets) (due_name name : Text) (end : ℕ) (s : Sprint)
    → build_sprint offsets due_name (RawSprint.dict name end) ≡ ok s
    → Built offsets name end s
unfolding build_sprint
build_sprint-dates offsets due_name name end s e =
    let (others, dated, rest) = >>=-eq-ok (map_result (offset_date end) offsets) _ e in
    let sprint : Sprint = record {
      name = name;
      dates = end_date end ∷ others;
      finding_due_date_offset_name = due_name;
    } in
    let (_, checked, done) = >>=-eq-ok (check_sprint sprint) (λ _. ok sprint) rest in
    let same : sprint ≡ s = cc in
    subst (Built offsets name end) same (
      checked,
      refl,
      end_date_found end others,
      offsets_found offsets end others due_name name checked dated,
    )
