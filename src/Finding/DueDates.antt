-- ===== src/Finding/DueDates.antt =====
-- Durations of categorisations (src/odg/findings.py): what is written into a finding reads back, and
-- leads to the same due date.
use odg_core.Prelude.{
  ℕ, suc, ◌*◌, ◌<◌, ◌≤◌, ◌≡◌, refl, ap, ◌∙◌, true, false, Option, none, some, [], ◌∷◌, ◌++◌, arith,
  is_empty, inl, inr, Bool-cases, if◌then◌else◌,
}
use odg_core.Prelude.Int.{ℤ, pos, negsuc}
use odg_core.Prelude.Result.{Result, ok, err, ◌>>=◌, >>=-eq-ok}
use odg_core.Prelude.Text.{Text, text, truthy}
use odg_core.Artefact.{FindingEntry}
use odg_core.Duration.{
  scale, timedelta, amount, parse_int, unit_seconds, decimal_from, match_groups,
  convert_to_timedelta, days_unit, print_ℕ, print_ℤ,
}
use odg_core.Duration.Decimal.{print_nonempty}
use odg_core.Sprint.{max_date}
use odg_core.Duration.Reading.{convert_to_timedelta-print}
use odg_core.Finding.Categories.{
  RawCategorisation, FindingCategorisation, ProcessingTime, seconds, read_time, init_categorisation,
  RawTime, duration, raw_input, allowed_processing_time_raw, add_timedelta, due_date, date_after,
  effective_due_date,
}

timedelta-id : (z w : ℤ) → timedelta z ≡ ok w → z ≡ w
unfolding timedelta
timedelta-id (pos n) w e = ground arith
timedelta-id (negsuc n) w e = ground arith

amount-timedelta :
    (t u d v : Text) (z : ℤ) → amount t u (d, v) ≡ ok z → (w : ℤ) × (timedelta w ≡ ok z)
unfolding amount
amount-timedelta t u d v z e = elim (Bool-cases (is_empty d)) [
  | inl none_matched ↦
      let (n, _, e') = >>=-eq-ok (parse_int t) _ (rw none_matched at e) in
      let (k, _, e'') = >>=-eq-ok (unit_seconds u) _ e' in (scale n k, e'')
  | inr matched ↦
      let (k, _, e') = >>=-eq-ok (unit_seconds (if is_empty v then u else v)) _ (rw matched at e) in
      (pos (decimal_from 0 d * k), e')
]

-- A duration that was read is short enough to be a `timedelta`.
convert-timedelta : (t u : Text) (z : ℤ) → convert_to_timedelta t u ≡ ok z → timedelta z ≡ ok z
unfolding convert_to_timedelta
convert-timedelta t u z e =
    let (w, h) = amount-timedelta t u (match_groups t).0 (match_groups t).1 z e in
    rw (timedelta-id w z h) at h

seconds_unit :
    (n : ℕ) → (unit_seconds (text "s") >>= λ k. timedelta (pos (n * k))) ≡ timedelta (pos n)
unfolding unit_seconds
seconds_unit n = ap (λ k. timedelta (pos k)) (omega arith)

-- The time of a categorisation that was read from its configuration is a `timedelta`.
init-timedelta :
    (raw : RawCategorisation) (c : FindingCategorisation) (z : ℤ)
    → init_categorisation raw ≡ ok c
    → c.allowed_processing_time ≡ some (seconds z)
    → timedelta z ≡ ok z
unfolding init_categorisation read_time
init-timedelta raw c z e h =
    let (time, known, done) = >>=-eq-ok (read_time raw.allowed_processing_time) _ e in
    let same : time ≡ some (seconds z) = ap (λ r. time_of r) done ∙ h in
    read raw.allowed_processing_time (known ∙ ap ok same)
  where
    time_of : Result FindingCategorisation → Option ProcessingTime
    time_of (ok d) = d.allowed_processing_time
    time_of (err x) = none

    read : (r : Option RawTime) → read_time r ≡ ok (some (seconds z)) → timedelta z ≡ ok z
    read none e = absurd (unfold read_time in cc)
    read (some raw_input) e = absurd (unfold read_time in cc)
    read (some (duration t)) e =
        let (s, known, done) = >>=-eq-ok (convert_to_timedelta t days_unit) _ e in
        let same : s ≡ z = cc in convert-timedelta t days_unit z (rw same at known)

seconds_read :
    (n : ℕ)
    → timedelta (pos n) ≡ ok (pos n)
    → convert_to_timedelta (print_ℕ n ++ text "s") days_unit ≡ ok (pos n)
seconds_read n h =
    convert_to_timedelta-print [] (text "s") tt (refl, (refl, tt)) n days_unit ∙ seconds_unit n ∙ h

add_zero : (d : ℕ) → 0 < d → d ≤ max_date → add_timedelta d (pos 0) ≡ ok d
unfolding add_timedelta
add_zero d low high = ground arith

-- The time that is written into findings and rescorings, `allowed_processing_time_raw`, reads back
-- as the time of the categorisation that was configured, if that is not negative.
pub allowed_processing_time_raw-convert :
    (raw : RawCategorisation) (c : FindingCategorisation) (n : ℕ)
    → init_categorisation raw ≡ ok c
    → c.allowed_processing_time ≡ some (seconds (pos n))
    → (t : Text) × (allowed_processing_time_raw c ≡ some t)
      × (convert_to_timedelta t days_unit ≡ ok (pos n))
unfolding allowed_processing_time_raw print_ℤ
allowed_processing_time_raw-convert raw c n e h =
    (print_ℕ n ++ text "s", rw h, seconds_read n (init-timedelta raw c (pos n) e h))

truthy-append : (s t : Text) → is_empty s ≡ false → truthy (some (s ++ t)) ≡ true
truthy-append [] t e = cc
truthy-append (c ∷ s) t e = refl

-- A stored time is read, and counted from the date of discovery.
date_after-stored :
    (n d : ℕ)
    → timedelta (pos n) ≡ ok (pos n)
    → date_after (some d) (print_ℕ n ++ text "s")
      ≡ (add_timedelta d (pos n) >>= λ date. ok (some date))
unfolding date_after
date_after-stored n d h = rw (seconds_read n h)

effective-stored :
    (c : FindingCategorisation) (finding : FindingEntry) (n d : ℕ)
    → timedelta (pos n) ≡ ok (pos n)
    → finding.allowed_processing_time ≡ some (print_ℕ n ++ text "s")
    → finding.discovery_date ≡ some d
    → effective_due_date c finding none ≡ (add_timedelta d (pos n) >>= λ date. ok (some date))
unfolding effective_due_date
effective-stored c finding n d h stored discovered =
    rw (stored, discovered, truthy-append (print_ℕ n) (text "s") (print_nonempty n))
      (date_after-stored n d h)

-- Writing the time of a categorisation into a finding does not change its due date, if the time is
-- longer than zero: the finding with the stored time and without a rescoring is due when the
-- categorisation says.
pub effective_due_date-stored :
    (raw : RawCategorisation) (c : FindingCategorisation) (finding : FindingEntry) (n d : ℕ)
    → init_categorisation raw ≡ ok c
    → c.allowed_processing_time ≡ some (seconds (pos (suc n)))
    → finding.allowed_processing_time ≡ allowed_processing_time_raw c
    → finding.discovery_date ≡ some d
    → effective_due_date c finding none ≡ due_date c d
unfolding due_date allowed_processing_time_raw print_ℤ
effective_due_date-stored raw c finding n d e h stored discovered =
    effective-stored c finding (suc n) d (init-timedelta raw c (pos (suc n)) e h) (rw h at stored)
      discovered
    ∙ rw h

-- A time of zero is the exception: the categorisation counts the finding as resolved, while the
-- stored time makes it due on the day of its discovery.
pub effective_due_date-zero :
    (c : FindingCategorisation) (finding : FindingEntry) (d : ℕ)
    → c.allowed_processing_time ≡ some (seconds (pos 0))
    → finding.allowed_processing_time ≡ allowed_processing_time_raw c
    → finding.discovery_date ≡ some d
    → 0 < d
    → d ≤ max_date
    → (due_date c d ≡ ok none) × (effective_due_date c finding none ≡ ok (some d))
unfolding due_date allowed_processing_time_raw print_ℤ
effective_due_date-zero c finding d h stored discovered low high = (
  rw h,
  effective-stored c finding 0 d (unfold timedelta in refl) (rw h at stored) discovered
      ∙ rw (add_zero d low high),
)
