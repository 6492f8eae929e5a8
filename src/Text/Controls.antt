-- ===== src/Text/Controls.antt =====
-- The control characters that text_utils.py finds and strips.
use doc_lattice.Prelude.{
  ℕ, ◌+◌, ◌≡◌, ◌↔◌, inl, inr, refl, ap, ◌∙◌, true, false, none, some, [], ◌∷◌, ◌++◌, Memᴰ, length,
  arith, Bool-cases, nat_eq, list_eq, option_eq,
}
use mathlib.Core.List.Memᴰ
use doc_lattice.Text.{
  Text, is_control_char, strip_control_chars, control_index_from, first_control_index,
}

-- No character of the text is a control character.
abbrev pub IsClean : Text → Type 0
IsClean text = (c : ℕ) → Memᴰ c text → is_control_char c ≡ false

-- strip_control_chars keeps exactly the characters that are no control characters.
pub strip_control_chars-mem :
    (c : ℕ) (text : Text)
    → Memᴰ c (strip_control_chars text) ↔ (Memᴰ c text × (is_control_char c ≡ false))
unfolding strip_control_chars
strip_control_chars-mem c [] = (λ m. absurd (Memᴰ.not-nil m), λ (m, _). m)
strip_control_chars-mem c (d ∷ rest) = elim (Bool-cases (is_control_char d)) [
  | inl bad ↦ rw bad (
      let (out, into) = strip_control_chars-mem c rest in
      (
        λ m. (Memᴰ.tail (out m).0, (out m).1),
        λ (m, fine). elim (Memᴰ.cases_cons m) [
          | inl here ↦ cc (here, bad, fine)
          | inr later ↦ into (later, fine)
        ],
      ))
  | inr good ↦ rw good (
      let (out, into) = strip_control_chars-mem c rest in
      (
        λ m. elim (Memᴰ.cases_cons m) [
          | inl here ↦ (Memᴰ.head here, ap is_control_char here ∙ good)
          | inr later ↦ (Memᴰ.tail (out later).0, (out later).1)
        ],
        λ (m, fine). elim (Memᴰ.cases_cons m) [
          | inl here ↦ Memᴰ.head here
          | inr later ↦ Memᴰ.tail (into (later, fine))
        ],
      ))
]

-- The text before the position is clean, and the character at it is a control character.
pub record IsFirst (text : Text) (start index : ℕ) : Type 0 where
  pub front : Text
  pub char : ℕ
  pub rest : Text
  pub parts : text ≡ front ++ char ∷ rest
  pub place : index ≡ start + length front
  pub clean : IsClean front
  pub control : is_control_char char ≡ true

control_index_from-IsFirst :
    (start index : ℕ) (text : Text)
    → control_index_from start text ≡ some index
    → IsFirst text start index
unfolding control_index_from
control_index_from-IsFirst start index [] e = cc
control_index_from-IsFirst start index (c ∷ text) e = elim (Bool-cases (is_control_char c)) [
  | inl bad ↦ record {
    front = [];
    char = c;
    rest = text;
    parts = refl;
    place = ground arith;
    clean = λ d m. absurd (Memᴰ.not-nil m);
    control = bad;
  }
  | inr good ↦
      let f = control_index_from-IsFirst (start + 1) index text (ground arith) in
      record {
        front = c ∷ f.front;
        char = f.char;
        rest = f.rest;
        parts = ap (c ∷◌) f.parts;
        place = omega (arith, f.place);
        clean = λ d m. elim (Memᴰ.cases_cons m) [
          | inl here ↦ ap is_control_char here ∙ good
          | inr later ↦ f.clean d later
        ];
        control = f.control;
      }
]

control_index_from-none :
    (start : ℕ) (text : Text) → (control_index_from start text ≡ none) ↔ IsClean text
unfolding control_index_from
control_index_from-none start [] = (λ _ c m. absurd (Memᴰ.not-nil m), λ _. refl)
control_index_from-none start (c ∷ text) = elim (Bool-cases (is_control_char c)) [
  | inl bad ↦ rw bad (λ e. cc, λ h. cc (bad, h c (Memᴰ.head refl)))
  | inr good ↦ rw good (
      let (to, from) = control_index_from-none (start + 1) text in
      (
        λ e d m. elim (Memᴰ.cases_cons m) [
          | inl here ↦ ap is_control_char here ∙ good
          | inr later ↦ to e d later
        ],
        λ h. from (λ d m. h d (Memᴰ.tail m)),
      ))
]

-- first_control_index is None exactly in a text with no control character, and an index that it
-- returns is that of a control character with none before it.
pub first_control_index_exact :
    (text : Text)
    → ((first_control_index text ≡ none) ↔ IsClean text)
      × ((index : ℕ) → first_control_index text ≡ some index → IsFirst text 0 index)
unfolding first_control_index
first_control_index_exact text =
    (control_index_from-none 0 text, λ index e. control_index_from-IsFirst 0 index text e)
