-- ===== src/Conditions/Printed.antt =====
-- Atoms as texts, and back.
use lightspeed_cloud_agents.Prelude.{
  ℕ, ◌≡◌, refl, ap, ◌∙◌, inl, inr, true, false, some, List, [], ◌∷◌, ◌++◌, arith, nat_eq,
  Bool-cases, length, is_empty, any, All, codes, is_word, is_space, starts_with,
}
use lightspeed_cloud_agents.Schedule.{word_at, drop}
use lightspeed_cloud_agents.Retry.{ends_word}
use lightspeed_cloud_agents.Conditions.{
  strip_front, strip_back, strip, Selector, of_status, of_approved, of_output, Operator,
  no_operator, equals, differs, Atom, atom_with, output_atom, field_atom, named_atom, parse_atom,
}

abbrev selector_text : Selector → List ℕ
selector_text of_status = codes "status"
selector_text of_approved = codes "approved"
selector_text (of_output key) = codes "output." ++ key

abbrev comparison_text : Operator → List ℕ → List ℕ
comparison_text no_operator raw = []
comparison_text equals raw = codes " == " ++ raw
comparison_text differs raw = codes " != " ++ raw

-- An atom the way it is written.
abbrev pub atom_text : Atom → List ℕ
atom_text atom =
    codes "steps."
    ++ (atom.step_name
        ++ (codes "."
            ++ (selector_text atom.selector ++ comparison_text atom.operator atom.raw_value)))

abbrev IsWord : List ℕ → Type 0
IsWord w = (is_empty w ≡ false) × All (λ c. is_word c ≡ true) w

abbrev pub IsNamed : Selector → Type 0
IsNamed (of_output key) = IsWord key
IsNamed _ = Unit

-- A value without spaces at its ends and without line breaks.
abbrev IsPlain : Operator → List ℕ → Type 0
IsPlain no_operator raw = raw ≡ []
IsPlain _ raw = (strip_front raw ≡ raw) × (strip raw ≡ raw) × (any (λ c. nat_eq c 10) raw ≡ false)

pub record IsWritable (atom : Atom) : Type 0 where
  pub name_word : IsWord atom.step_name
  pub key_word : IsNamed atom.selector
  pub plain : IsPlain atom.operator atom.raw_value

word_at-run :
    (w rest : List ℕ)
    → All (λ c. is_word c ≡ true) w
    → ends_word rest ≡ true
    → word_at (w ++ rest) ≡ w
unfolding word_at
word_at-run [] [] h k = refl
word_at-run [] (c ∷ rest) h k = elim (Bool-cases (is_word c)) [
  | inl word ↦ let seen = rw word at k in ground (arith, seen)
  | inr other ↦ rw other refl
]
word_at-run (c ∷ w) rest h k = rw h.0 (ap (λ r. c ∷ r) (word_at-run w rest h.1 k))

drop-length : (w rest : List ℕ) → drop (length w) (w ++ rest) ≡ rest
drop-length [] rest = refl
drop-length (c ∷ w) rest = drop-length w rest

ends_comparison : (op : Operator) (raw : List ℕ) → ends_word (comparison_text op raw) ≡ true
unfolding is_word
ends_comparison no_operator raw = refl
ends_comparison equals raw = refl
ends_comparison differs raw = refl

atom_with-comparison :
    (name : List ℕ) (selector : Selector) (op : Operator) (raw : List ℕ)
    → IsPlain op raw
    → atom_with name selector (comparison_text op raw)
      ≡ some (record { step_name = name; selector = selector; operator = op; raw_value = raw })
unfolding strip_front strip_back starts_with is_space
atom_with-comparison name selector no_operator raw h = rw h refl
atom_with-comparison name selector equals raw h = rw (h.0, h.2, h.1) refl
atom_with-comparison name selector differs raw h = rw (h.0, h.2, h.1) refl

output_atom-written :
    (name key : List ℕ) (op : Operator) (raw : List ℕ)
    → IsWord key
    → IsPlain op raw
    → output_atom name (word_at (key ++ comparison_text op raw)) (key ++ comparison_text op raw)
      ≡ some (record { step_name = name; selector = of_output key; operator = op; raw_value = raw })
output_atom-written name key op raw h plain_ =
    ap (λ w. output_atom name w (key ++ comparison_text op raw))
      (word_at-run key (comparison_text op raw) h.1 (ends_comparison op raw))
    ∙ rw h.0 (
        ap (atom_with name (of_output key)) (drop-length key (comparison_text op raw))
        ∙ atom_with-comparison name (of_output key) op raw plain_)

field_atom-written :
    (name : List ℕ) (selector : Selector) (op : Operator) (raw : List ℕ)
    → IsNamed selector
    → IsPlain op raw
    → field_atom name (selector_text selector ++ comparison_text op raw)
      ≡ some (record { step_name = name; selector = selector; operator = op; raw_value = raw })
unfolding starts_with
field_atom-written name of_status op raw h plain_ =
    atom_with-comparison name of_status op raw plain_
field_atom-written name of_approved op raw h plain_ =
    atom_with-comparison name of_approved op raw plain_
field_atom-written name (of_output key) op raw h plain_ =
    output_atom-written name key op raw h plain_

-- An atom that is written out is read back as it was: its step, its field, its operator and its
-- value. Names and keys are words; the value has no spaces at its ends and no line breaks, and
-- there is none without an operator.
pub parse_atom-atom_text : (atom : Atom) → IsWritable atom → parse_atom (atom_text atom) ≡ some atom
unfolding parse_atom starts_with is_word
parse_atom-atom_text atom h =
    let tail = selector_text atom.selector ++ comparison_text atom.operator atom.raw_value in
    let read_name = word_at-run atom.step_name (codes "." ++ tail) h.name_word.1 refl in
    let rest =
      field_atom-written atom.step_name atom.selector atom.operator atom.raw_value h.key_word
        h.plain in
    ap (λ w. named_atom w (atom.step_name ++ (codes "." ++ tail))) read_name
    ∙ rw (h.name_word.0, drop-length atom.step_name (codes "." ++ tail)) rest
