-- ===== src/Cvss/Roundtrip.antt =====
-- `CVSSV3.parse` reads what `CVSSV3.__str__` writes (src/odg/cvss.py).
use odg_core.Prelude.{
  ℕ, ◌≡◌, refl, ap, ◌∙◌, true, false, List, [], ◌∷◌, ◌++◌, map, arith, All, All-append,
  ◌==◌ as nat_eq,
}
use odg_core.Prelude.Result.{ok, map_result}
use odg_core.Prelude.Text.{Text, join}
use odg_core.Cvss.Defs.{
  AccessVector, AttackComplexity, UserInteraction, Scope, Level, Cvss, access_vector_value,
  attack_complexity_value, user_interaction_value, scope_value, level_value, access_vector_from,
  attack_complexity_from, user_interaction_from, scope_from, level_from, split, first_two,
  key_value, part_of, slash, parse, attributes, attribute_text, print,
}

-- The character is not in the text.
abbrev IsWithout : ℕ → Text → Type 0
IsWithout c t = All (λ x. nat_eq x c ≡ false) t

split-word : (c : ℕ) (w : Text) → IsWithout c w → split c w ≡ w ∷ []
unfolding split
split-word c [] h = refl
split-word c (x ∷ w) h = rw (split, h.0, split-word c w h.1) refl

split-append : (c : ℕ) (w s : Text) → IsWithout c w → split c (w ++ c ∷ s) ≡ w ∷ split c s
unfolding split
split-append c [] s h = let same : nat_eq c c ≡ true = ground arith in rw (split, same) refl
split-append c (x ∷ w) s h = rw (split, h.0, split-append c w s h.1) refl

-- Splitting undoes joining.
split-join :
    (c : ℕ) (w : Text) (words : List Text)
    → All (IsWithout c) (w ∷ words)
    → split c (join (c ∷ []) (w ∷ words)) ≡ w ∷ words
unfolding join
split-join c w [] h = split-word c w h.0
split-join c w (v ∷ words) h =
    split-append c w (join (c ∷ []) (v ∷ words)) h.0 ∙ ap (λ ws. w ∷ ws) (split-join c v words h.1)

-- A key and a value that hold none of the two separators.
abbrev IsPlain : Text × ℕ → Type 0
IsPlain (key, value) =
    IsWithout slash key
    × (IsWithout b':' key × ((nat_eq value slash ≡ false) × (nat_eq value b':' ≡ false)))

attribute_text-IsWithout :
    (key : Text) (value : ℕ) → IsPlain (key, value) → IsWithout slash (attribute_text (key, value))
attribute_text-IsWithout key value h =
    All-append (λ x. nat_eq x slash ≡ false) key (b':' ∷ value ∷ []) h.0 (refl, (h.1.1.0, tt))

key_value-attribute_text :
    (key : Text) (value : ℕ)
    → IsPlain (key, value)
    → key_value (attribute_text (key, value)) ≡ ok (key, value ∷ [])
unfolding key_value
key_value-attribute_text key value h = ap first_two (
    split-append b':' key (value ∷ []) h.1.0
    ∙ ap (λ ws. key ∷ ws) (split-word b':' (value ∷ []) (h.1.1.1, tt)))

abbrev as_text : Text × ℕ → Text × Text
as_text (key, value) = (key, value ∷ [])

key_value-All :
    (attrs : List (Text × ℕ))
    → All IsPlain attrs
    → map_result key_value (map attribute_text attrs) ≡ ok (map as_text attrs)
key_value-All [] h = refl
key_value-All ((key, value) ∷ attrs) h =
    rw (key_value-attribute_text key value h.0, key_value-All attrs h.1) refl

All-attribute_text :
    (attrs : List (Text × ℕ)) → All IsPlain attrs → All (IsWithout slash) (map attribute_text attrs)
All-attribute_text [] h = tt
All-attribute_text ((key, value) ∷ attrs) h =
    (attribute_text-IsWithout key value h.0, All-attribute_text attrs h.1)

-- No value of a member is a separator.
access_vector_plain :
    (a : AccessVector)
    → (nat_eq (access_vector_value a) slash ≡ false) × (nat_eq (access_vector_value a) b':' ≡ false)
access_vector_plain _ = ground arith

attack_complexity_plain :
    (a : AttackComplexity)
    → (nat_eq (attack_complexity_value a) slash ≡ false)
      × (nat_eq (attack_complexity_value a) b':' ≡ false)
attack_complexity_plain _ = ground arith

user_interaction_plain :
    (a : UserInteraction)
    → (nat_eq (user_interaction_value a) slash ≡ false)
      × (nat_eq (user_interaction_value a) b':' ≡ false)
user_interaction_plain _ = ground arith

scope_plain :
    (a : Scope) → (nat_eq (scope_value a) slash ≡ false) × (nat_eq (scope_value a) b':' ≡ false)
scope_plain _ = ground arith

level_plain :
    (a : Level) → (nat_eq (level_value a) slash ≡ false) × (nat_eq (level_value a) b':' ≡ false)
level_plain _ = ground arith

attributes-IsPlain : (v : Cvss) → All IsPlain (attributes v)
attributes-IsPlain v = (
  ((refl, (refl, tt)), ((refl, (refl, tt)), access_vector_plain v.access_vector)),
  (
    ((refl, (refl, tt)), ((refl, (refl, tt)), attack_complexity_plain v.attack_complexity)),
    (
      ((refl, (refl, tt)), ((refl, (refl, tt)), level_plain v.privileges_required)),
      (
        ((refl, (refl, tt)), ((refl, (refl, tt)), user_interaction_plain v.user_interaction)),
        (
          ((refl, tt), ((refl, tt), scope_plain v.scope)),
          (
            ((refl, tt), ((refl, tt), level_plain v.confidentiality)),
            (
              ((refl, tt), ((refl, tt), level_plain v.integrity)),
              (((refl, tt), ((refl, tt), level_plain v.availability)), tt),
            ),
          ),
        ),
      ),
    ),
  ),
)

access_vector_read : (a : AccessVector) → access_vector_from (access_vector_value a ∷ []) ≡ ok a
unfolding access_vector_from
access_vector_read AccessVector.network = refl
access_vector_read AccessVector.adjacent = refl
access_vector_read AccessVector.local = refl
access_vector_read AccessVector.physical = refl

attack_complexity_read :
    (a : AttackComplexity) → attack_complexity_from (attack_complexity_value a ∷ []) ≡ ok a
unfolding attack_complexity_from
attack_complexity_read AttackComplexity.low = refl
attack_complexity_read AttackComplexity.high = refl

user_interaction_read :
    (a : UserInteraction) → user_interaction_from (user_interaction_value a ∷ []) ≡ ok a
unfolding user_interaction_from
user_interaction_read UserInteraction.unneeded = refl
user_interaction_read UserInteraction.required = refl

scope_read : (a : Scope) → scope_from (scope_value a ∷ []) ≡ ok a
unfolding scope_from
scope_read Scope.unchanged = refl
scope_read Scope.changed = refl

level_read : (a : Level) → level_from (level_value a ∷ []) ≡ ok a
unfolding level_from
level_read Level.absent = refl
level_read Level.low = refl
level_read Level.high = refl

parts_read :
    (v : Cvss) → map_result key_value (split slash (print v)) ≡ ok (map as_text (attributes v))
unfolding print
parts_read v =
    rw (split-join slash _ _ (All-attribute_text (attributes v) (attributes-IsPlain v)))
      (key_value-All (attributes v) (attributes-IsPlain v))

-- Reading a written vector gives the vector.
pub parse-print : (v : Cvss) → parse (print v) ≡ ok v
unfolding parse part_of
parse-print v =
    rw
      (
        parts_read v,
        access_vector_read v.access_vector,
        attack_complexity_read v.attack_complexity,
        level_read v.privileges_required,
        user_interaction_read v.user_interaction,
        scope_read v.scope,
        level_read v.confidentiality,
        level_read v.integrity,
        level_read v.availability,
      )
      refl
