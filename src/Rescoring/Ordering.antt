-- ===== src/Rescoring/Ordering.antt =====
-- What `group_rescorings` and `rescorings_for_finding_by_specificity` keep of the rescorings.
use odg_core.Prelude.{
  ◌≡◌, refl, Bool, true, false, ◌&&◌, none, some, List, [], ◌∷◌, ◌++◌, select, arith, get_elem?,
  sym, ap, ◌∙◌, ℕ, Bool-cases, inl, inr, if◌then◌else◌, ◌==◌ as nat_eq,
}
use odg_core.Prelude.Text.{Text, eq_refl, eq→path, opt_eq_refl, opt_eq→path}
use odg_core.Artefact.{Datatype, datatype_index, LocalArtefactId, FindingEntry, RescoringEntry}
use odg_core.Rescoring.Grouping.{
  GroupKey, two, labelled, one, texts_eq, group_key_eq, group_key, Grouped, group_of,
  append_to_group, group_from, group_rescorings, applies, iter_rescorings_for_finding,
}

texts_eq_refl : (ts : List Text) → texts_eq ts ts ≡ true
unfolding texts_eq
texts_eq_refl [] = refl
texts_eq_refl (t ∷ ts) = rw (eq_refl t) (texts_eq_refl ts)

pub group_key_eq_refl : (k : GroupKey) → group_key_eq k k ≡ true
unfolding group_key_eq
group_key_eq_refl (two d a b) = ground (arith, eq_refl a, opt_eq_refl b)
group_key_eq_refl (labelled d a b) = ground (arith, opt_eq_refl a, texts_eq_refl b)
group_key_eq_refl (one d a) = ground (arith, eq_refl a)

texts_eq→path : (ss ts : List Text) → texts_eq ss ts ≡ true → ss ≡ ts
unfolding texts_eq
texts_eq→path [] [] e = refl
texts_eq→path [] (t ∷ ts) e = cc
texts_eq→path (s ∷ ss) [] e = cc
texts_eq→path (s ∷ ss) (t ∷ ts) e = ground (arith, eq→path s t, texts_eq→path ss ts)

-- The types in the order of the enumeration.
abbrev every_datatype : List Datatype
every_datatype =
    Datatype.artefact_scan_info ∷ Datatype.compliance_snapshots ∷ Datatype.rescoring
    ∷ Datatype.responsibles ∷ Datatype.scanner_writeback ∷ Datatype.uuid ∷ Datatype.sla_violation
    ∷ Datatype.codeql_finding ∷ Datatype.crypto_finding ∷ Datatype.diki_finding
    ∷ Datatype.falco_finding ∷ Datatype.ghas_finding ∷ Datatype.inventory_finding
    ∷ Datatype.ip_finding ∷ Datatype.kyverno_finding ∷ Datatype.license_finding
    ∷ Datatype.malware_finding ∷ Datatype.osid_finding ∷ Datatype.sast_finding
    ∷ Datatype.vulnerability_finding ∷ Datatype.crypto_asset ∷ Datatype.osid
    ∷ Datatype.structure_info ∷ []

datatype_at : ℕ → Datatype
datatype_at n = elim (get_elem? every_datatype n) [ none ↦ Datatype.structure_info | some d ↦ d ]

datatype_at-index : (d : Datatype) → datatype_at (datatype_index d) ≡ d
unfolding datatype_at
datatype_at-index _ = ground arith

datatype_index_inj : (d e : Datatype) → nat_eq (datatype_index d) (datatype_index e) ≡ true → d ≡ e
datatype_index_inj d e h =
    let same : datatype_index d ≡ datatype_index e = ground arith in
    sym (datatype_at-index d) ∙ (ap datatype_at same ∙ datatype_at-index e)

-- `==` on group keys is equality.
group_key_eq→path : (k l : GroupKey) → group_key_eq k l ≡ true → k ≡ l
unfolding group_key_eq
group_key_eq→path (two d a b) (two e x y) h =
    ground (arith, datatype_index_inj d e, eq→path a x, opt_eq→path b y)
group_key_eq→path (labelled d a b) (labelled e x y) h =
    ground (arith, datatype_index_inj d e, opt_eq→path a x, texts_eq→path b y)
group_key_eq→path (one d a) (one e x) h = ground (arith, datatype_index_inj d e, eq→path a x)
group_key_eq→path (two d a b) (labelled e x y) h = cc
group_key_eq→path (two d a b) (one e x) h = cc
group_key_eq→path (labelled d a b) (two e x y) h = cc
group_key_eq→path (labelled d a b) (one e x) h = cc
group_key_eq→path (one d a) (two e x y) h = cc
group_key_eq→path (one d a) (labelled e x y) h = cc

-- A key that equals the first of two different keys is not the second.
group_key_eq-apart :
    (k l m : GroupKey)
    → group_key_eq k l ≡ false
    → group_key_eq k m ≡ true
    → group_key_eq l m ≡ false
group_key_eq-apart k l m e h = elim (Bool-cases (group_key_eq l m)) [
  | inl t ↦
      let same : l ≡ k = group_key_eq→path l m t ∙ sym (group_key_eq→path k m h) in
      absurd (no_self same)
  | inr f ↦ f
]
  where
    no_self : l ≡ k → ⊥
    no_self same = let t : group_key_eq k l ≡ true = rw same (group_key_eq_refl k) in cc

if-if :
    (c : Bool) (xs ys zs : List RescoringEntry)
    → (if c then xs ++ zs else ys)
      ≡ (if c then (if c then xs else ys) ++ zs else (if c then xs else ys))
if-if true xs ys zs = refl
if-if false xs ys zs = refl

group_of-append :
    (key k : GroupKey) (r : RescoringEntry) (g : Grouped)
    → group_of key (append_to_group k r g)
      ≡ (if group_key_eq k key then group_of key g ++ (r ∷ []) else group_of key g)
unfolding group_of append_to_group
group_of-append key k r [] = refl
group_of-append key k r ((k', group) ∷ rest) = elim (Bool-cases (group_key_eq k' k)) [
  | inl e ↦
      rw (e, group_key_eq→path k' k e)
        (if-if (group_key_eq k key) group (group_of key rest) (r ∷ []))
  | inr e ↦ elim (Bool-cases (group_key_eq k' key)) [
    | inl h ↦ rw (e, h, group_key_eq-apart k' k key e h) refl
    | inr h ↦ rw (e, h) (group_of-append key k r rest)
  ]
]

append-nil : (xs : List RescoringEntry) → xs ++ [] ≡ xs
append-nil [] = refl
append-nil (x ∷ xs) = ap (λ ys. x ∷ ys) (append-nil xs)

append_assoc : (xs ys zs : List RescoringEntry) → (xs ++ ys) ++ zs ≡ xs ++ (ys ++ zs)
append_assoc [] ys zs = refl
append_assoc (x ∷ xs) ys zs = ap (λ ws. x ∷ ws) (append_assoc xs ys zs)

if_append :
    (c : Bool) (r : RescoringEntry) (xs ys : List RescoringEntry)
    → (if c then xs ++ (r ∷ []) else xs) ++ ys ≡ xs ++ elim c [ true ↦ r ∷ ys | false ↦ ys ]
if_append true r xs ys = append_assoc xs (r ∷ []) ys
if_append false r xs ys = refl

group_of-group_from :
    (key : GroupKey) (rs : List RescoringEntry) (g : Grouped)
    → group_of key (group_from g rs)
      ≡ group_of key g ++ select (λ r. group_key_eq (group_key r.subject) key) rs
unfolding group_from select
group_of-group_from key [] g = sym (append-nil (group_of key g))
group_of-group_from key (r ∷ rs) g =
    rw
      (
        group_of-group_from key rs (append_to_group (group_key r.subject) r g),
        group_of-append key (group_key r.subject) r g,
      )
      (if_append (group_key_eq (group_key r.subject) key) r (group_of key g) _)

-- The group of a key holds the rescorings of that key, all of them and in their order.
pub group_of-group_rescorings :
    (key : GroupKey) (rs : List RescoringEntry)
    → group_of key (group_rescorings rs) ≡ select (λ r. group_key_eq (group_key r.subject) key) rs
unfolding group_rescorings group_of
group_of-group_rescorings key rs = group_of-group_from key rs []

select-select {ℓ} :
    {A : Type ℓ} (p q : A → Bool) (xs : List A)
    → select p (select q xs) ≡ select (λ x. q x && p x) xs
unfolding select
select-select p q [] = refl
select-select p q (x ∷ xs) = ground (arith, select-select p q xs)

-- Whether a rescoring is for the attributes of the finding and its artefact.
abbrev pub concerns : FindingEntry → LocalArtefactId → RescoringEntry → Bool
concerns finding local r =
    group_key_eq (group_key r.subject) (group_key finding.subject)
    && applies r.artefact finding.artefact local

-- What `_iter_rescorings_for_finding` finds among grouped rescorings.
pub iter_rescorings_for_finding-select :
    (finding : FindingEntry) (local : LocalArtefactId) (rs : List RescoringEntry)
    → iter_rescorings_for_finding finding local (group_rescorings rs)
      ≡ select (concerns finding local) rs
unfolding iter_rescorings_for_finding
iter_rescorings_for_finding-select finding local rs =
    rw (group_of-group_rescorings (group_key finding.subject) rs) (select-select _ _ rs)
