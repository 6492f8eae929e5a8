-- ===== src/LinkSelectors/Parts.antt =====
-- Splitting a path at its separators and joining it again.
use doc_lattice.Prelude.{
  ℕ, ◌≡◌, inl, inr, refl, ap, ◌∙◌, false, List, [], ◌∷◌, ◌++◌, map, Memᴰ, arith, if◌then◌else◌,
  Bool-cases, ◌==◌, ==_iff, nat_eq, list_eq, option_eq, contains,
}
use mathlib.Core.List.Memᴰ
use doc_lattice.Text.{Text}
use doc_lattice.LinkSelectors.{slash, split_parts, cons_segment, join_parts, leading}

-- No part holds a separator.
abbrev pub Whole : List Text → Type 0
Whole [] = Unit {0}
Whole (part ∷ parts) = (contains part slash ≡ false) × Whole parts

cons_segment-Whole :
    (c : ℕ) (parts : List Text) → (c == slash) ≡ false → Whole parts → Whole (cons_segment c parts)
unfolding contains
cons_segment-Whole c [] other whole = (ground arith, tt)
cons_segment-Whole c (part ∷ parts) other whole = (ground (arith, whole.0), whole.1)

pub split_parts-Whole : (text : Text) → Whole (split_parts text)
unfolding split_parts contains
split_parts-Whole [] = (refl, tt)
split_parts-Whole (c ∷ rest) = elim (Bool-cases (c == slash)) [
  | inl at ↦ rw (at, if◌then◌else◌) (refl, split_parts-Whole rest)
  | inr other ↦
      rw (other, if◌then◌else◌)
        (cons_segment-Whole c (split_parts rest) other (split_parts-Whole rest))
]

split-part : (part : Text) → contains part slash ≡ false → split_parts part ≡ part ∷ []
unfolding split_parts contains
split-part [] free = refl
split-part (c ∷ rest) free =
    let other : (c == slash) ≡ false = ground arith in
    rw (other, split-part rest (ground arith), if◌then◌else◌) refl

split-append :
    (part rest : Text)
    → contains part slash ≡ false
    → split_parts (part ++ (slash ∷ rest)) ≡ part ∷ split_parts rest
unfolding split_parts contains
split-append [] rest free = refl
split-append (c ∷ part) rest free =
    let other : (c == slash) ≡ false = ground arith in
    rw (other, split-append part rest (ground arith), if◌then◌else◌) refl

pub split-join :
    (part : Text) (parts : List Text)
    → Whole (part ∷ parts)
    → split_parts (join_parts (part ∷ parts)) ≡ part ∷ parts
unfolding join_parts
split-join part [] whole = split-part part whole.0
split-join part (next ∷ parts) whole =
    split-append part (join_parts (next ∷ parts)) whole.0
    ∙ ap (λ rest. part ∷ rest) (split-join next parts whole.1)

-- Splitting the join of leading parts gives them back.
pub leading-split :
    (parts : List Text)
    → Whole parts
    → (prefix : List Text) → Memᴰ prefix (leading parts)
    → (part : Text) × (rest : List Text) × (prefix ≡ part ∷ rest) × Whole prefix
unfolding leading
leading-split [] whole prefix m = absurd (Memᴰ.not-nil m)
leading-split (part ∷ parts) whole prefix m = elim (Memᴰ.cases_cons m) [
  | inl is ↦ (part, [], is, rw is (whole.0, tt))
  | inr later ↦ longer (leading parts) (leading-split parts whole.1) later
]
  where
    longer :
        (prefixes : List (List Text))
        → ((shorter : List Text)
            → Memᴰ shorter prefixes
            → (p : Text) × (rest : List Text) × (shorter ≡ p ∷ rest) × Whole shorter)
        → Memᴰ prefix (map (λ rest. part ∷ rest) prefixes)
        → (p : Text) × (rest : List Text) × (prefix ≡ p ∷ rest) × Whole prefix
    longer [] known n = absurd (Memᴰ.not-nil n)
    longer (shorter ∷ prefixes) known n = elim (Memᴰ.cases_cons n) [
      | inl is ↦
          let (p, rest, e, w) = known shorter (Memᴰ.head refl) in
          (part, shorter, is, rw is (whole.0, w))
      | inr further ↦ longer prefixes (λ s k. known s (Memᴰ.tail k)) further
    ]

join-cons_segment :
    (c : ℕ) (part : Text) (parts : List Text)
    → join_parts (cons_segment c (part ∷ parts)) ≡ c ∷ join_parts (part ∷ parts)
unfolding join_parts
join-cons_segment c part [] = refl
join-cons_segment c part (next ∷ parts) = refl

split_parts-cons :
    (text : Text) → (part : Text) × (parts : List Text) × (split_parts text ≡ part ∷ parts)
unfolding split_parts
split_parts-cons [] = ([], [], refl)
split_parts-cons (c ∷ rest) = elim (Bool-cases (c == slash)) [
  | inl at ↦ ([], split_parts rest, rw (at, if◌then◌else◌) refl)
  | inr other ↦
      let (part, parts, e) = split_parts-cons rest in
      (c ∷ part, parts, rw (other, if◌then◌else◌, e) refl)
]

pub join-split : (text : Text) → join_parts (split_parts text) ≡ text
unfolding split_parts join_parts
join-split [] = refl
join-split (c ∷ rest) =
    let (part, parts, e) = split_parts-cons rest in
    let again : join_parts (part ∷ parts) ≡ rest = rw (← e) (join-split rest) in
    elim (Bool-cases (c == slash)) [
      | inl at ↦ rw (at, if◌then◌else◌, e, again, (==_iff c slash).0 at) refl
      | inr other ↦
          rw (other, if◌then◌else◌, e) (join-cons_segment c part parts ∙ ap (λ t. c ∷ t) again)
    ]
