-- ===== src/Hashing/Canonical.antt =====
-- What `canonicalize` forgets, exactly.
use doc_lattice.Prelude.{
  ℕ, zero, suc, ◌≤◌, ◌<◌, ◌≡◌, ◌↔◌, inl, inr, refl, sym, ap, ◌∙◌, true, false, ◌&&◌, List, [], ◌∷◌,
  ◌++◌, map, All, length, take, drop, arith, ltb, if◌then◌else◌, is_empty, Bool-cases, nat_eq,
  list_eq, option_eq,
}
use doc_lattice.Text.{Text, replace_crlf, replace_cr, split_lines, join_lines, rstrip, is_space}
use doc_lattice.Text.Lines.{
  normalize_newlines, normalize_newlines_id, normalize_newlines-HasNoReturn, IsLine, HasNoReturn,
  split_lines-IsLine, split_lines-HasNoReturn, split_lines-join_lines, join_lines-HasNoReturn,
}
use doc_lattice.Hashing.{blank_prefix, line_at, trim_end, slice, stripped_lines, canonicalize}

-- The lines with the blank ones at the front left out.
trim_front : List Text → List Text
trim_front [] = []
trim_front (l ∷ ls) = let rest = trim_front ls in if is_empty l then rest else l ∷ ls

-- The lines with the blank ones at the back left out.
trim_back : List Text → List Text
trim_back [] = []
trim_back (l ∷ ls) = let rest = trim_back ls in if is_empty l && is_empty rest then [] else l ∷ rest

-- The reference: the stripped lines of a text without the blank lines around them.
pub core_lines : Text → List Text
core_lines text = trim_back (trim_front (stripped_lines text))

drop-blank_prefix : (ls : List Text) → drop (blank_prefix ls) ls ≡ trim_front ls
unfolding blank_prefix trim_front
drop-blank_prefix [] = refl
drop-blank_prefix (l ∷ ls) = ground (arith, drop-blank_prefix ls)

trim_back-blank : (ls : List Text) → trim_back (ls ++ [] ∷ []) ≡ trim_back ls
unfolding trim_back
trim_back-blank [] = refl
trim_back-blank (l ∷ ls) = ground (arith, trim_back-blank ls)

trim_back_snoc :
    (ls : List Text) (x : Text) → is_empty x ≡ false → trim_back (ls ++ x ∷ []) ≡ ls ++ x ∷ []
unfolding trim_back
trim_back_snoc [] x h = ground arith
trim_back_snoc (l ∷ ls) x h = ground (arith, trim_back_snoc ls x h, append_ne ls x)
  where
    append_ne : (ms : List Text) (y : Text) → is_empty (ms ++ y ∷ []) ≡ false
    append_ne [] y = refl
    append_ne (m ∷ ms) y = refl

eq_nil : (l : Text) → is_empty l ≡ true → l ≡ []
eq_nil [] h = refl
eq_nil (c ∷ l) h = cc

module _ {ℓ} {A : Type ℓ} where
  drop-nil : (n : ℕ) → ◌≡◌ {A = List A} (drop n []) []
  drop-nil zero = refl
  drop-nil (suc n) = refl

  drop-take : (start e : ℕ) (xs : List A) → e ≤ start → drop start (take e xs) ≡ []
  drop-take start zero xs h = drop-nil start
  drop-take start (suc e) [] h = drop-nil start
  drop-take zero (suc e) (x ∷ xs) h = absurd (omega arith)
  drop-take (suc start) (suc e) (x ∷ xs) h = drop-take start e xs (omega arith)

drop-take-suc :
    (start e : ℕ) (ls : List Text)
    → start ≤ e
    → e < length ls
    → drop start (take (suc e) ls) ≡ drop start (take e ls) ++ line_at ls e ∷ []
drop-take-suc start e [] h lt = absurd (omega arith)
drop-take-suc zero zero (l ∷ ls) h lt = refl
drop-take-suc (suc start) zero (l ∷ ls) h lt = absurd (omega arith)
drop-take-suc zero (suc e) (l ∷ ls) h lt =
    ap (λ r. l ∷ r) (drop-take-suc zero e ls (omega arith) (omega arith))
drop-take-suc (suc start) (suc e) (l ∷ ls) h lt =
    drop-take-suc start e ls (omega arith) (omega arith)

slice-trim_end :
    (ls : List Text) (start e : ℕ)
    → e ≤ length ls
    → slice ls start (trim_end ls start e) ≡ trim_back (slice ls start e)
unfolding trim_end
slice-trim_end ls start zero h = rw drop-nil (unfold trim_back in refl)
slice-trim_end ls start (suc e) h = elim (Bool-cases (ltb start (suc e))) [
  | inr out ↦ rw out (rw (drop-take start (suc e) ls (ground arith)) (unfold trim_back in refl))
  | inl inside ↦
      rw (inside, drop-take-suc start e ls (ground arith) h)
        (elim (Bool-cases (is_empty (line_at ls e))) [
          | inl blank ↦
              rw (blank, eq_nil _ blank, trim_back-blank) (slice-trim_end ls start e (omega arith))
          | inr text ↦
              rw (text, trim_back_snoc _ _ text) (drop-take-suc start e ls (ground arith) h)
        ])
]

take_all {ℓ} : {A : Type ℓ} (xs : List A) → take (length xs) xs ≡ xs
take_all [] = refl
take_all (x ∷ xs) = ap (λ r. x ∷ r) (take_all xs)

-- The index loops of `canonicalize` cut out the stripped lines without the blank ones around them.
pub canonicalize-eq_core : (text : Text) → canonicalize text ≡ join_lines (core_lines text)
unfolding canonicalize core_lines
canonicalize-eq_core text =
    let ls = stripped_lines text in
    ap join_lines (
      slice-trim_end ls (blank_prefix ls) (length ls) (omega arith)
      ∙ ap (λ (r : List Text). trim_back (drop (blank_prefix ls) r)) (take_all ls)
      ∙ ap trim_back (drop-blank_prefix ls))

rstrip_idem : (l : Text) → rstrip (rstrip l) ≡ rstrip l
unfolding rstrip
rstrip_idem [] = refl
rstrip_idem (c ∷ l) = ground (arith, rstrip_idem l)

rstrip-All : (P : ℕ → Type 0) (l : Text) → All P l → All P (rstrip l)
unfolding rstrip
rstrip-All P [] h = tt
rstrip-All P (c ∷ l) h = elim (Bool-cases (is_space c && is_empty (rstrip l))) [
  | inl e ↦ rw e tt
  | inr e ↦ rw e (h.0, rstrip-All P l h.1)
]

All-map {ℓ κ} :
    {A : Type ℓ} (P Q : A → Type κ) (f : A → A) (xs : List A)
    → ((x : A) → P x → Q (f x))
    → All P xs
    → All Q (map f xs)
All-map P Q f [] step h = tt
All-map P Q f (x ∷ xs) step h = (step x h.0, All-map P Q f xs step h.1)

trim_front-All : (P : Text → Type 0) (ls : List Text) → All P ls → All P (trim_front ls)
unfolding trim_front
trim_front-All P [] h = tt
trim_front-All P (l ∷ ls) h = elim (Bool-cases (is_empty l)) [
  | inl e ↦ rw e (trim_front-All P ls h.1)
  | inr e ↦ rw e h
]

trim_back-All : (P : Text → Type 0) (ls : List Text) → All P ls → All P (trim_back ls)
unfolding trim_back
trim_back-All P [] h = tt
trim_back-All P (l ∷ ls) h = elim (Bool-cases (is_empty l && is_empty (trim_back ls))) [
  | inl e ↦ rw e tt
  | inr e ↦ rw e (h.0, trim_back-All P ls h.1)
]

trim_back_idem : (ls : List Text) → trim_back (trim_back ls) ≡ trim_back ls
unfolding trim_back
trim_back_idem [] = refl
trim_back_idem (l ∷ ls) = ground (arith, trim_back_idem ls)

trim_front_kept :
    (ls : List Text) → trim_front (trim_back (trim_front ls)) ≡ trim_back (trim_front ls)
unfolding trim_front trim_back
trim_front_kept [] = refl
trim_front_kept (l ∷ ls) = ground (arith, trim_front_kept ls)

module _ (text : Text) where
  -- A property of lines that `rstrip` keeps and that the normalized text has.
  core_lines-All :
      (P : Text → Type 0)
      → ((l : Text) → P l → P (rstrip l))
      → All P (split_lines (normalize_newlines text))
      → All P (core_lines text)
  unfolding core_lines stripped_lines
  core_lines-All P step h = trim_back-All P _ (trim_front-All P _ (All-map P P rstrip _ step h))

  core_lines-IsLine : All IsLine (core_lines text)
  core_lines-IsLine = core_lines-All IsLine (λ l. rstrip-All _ l) (split_lines-IsLine _)

  core_lines-HasNoReturn : All HasNoReturn (core_lines text)
  core_lines-HasNoReturn =
      core_lines-All HasNoReturn (λ l. rstrip-All _ l)
        (split_lines-HasNoReturn _ (normalize_newlines-HasNoReturn text))

  core_lines_bare : All (λ l. rstrip l ≡ l) (core_lines text)
  unfolding core_lines stripped_lines
  core_lines_bare =
      trim_back-All _ _
        (trim_front-All _ _ (All-map (λ _. Unit {0}) _ rstrip _ (λ l _. rstrip_idem l) (units _)))
    where
      units : (ls : List Text) → All (λ _. Unit {0}) ls
      units [] = tt
      units (l ∷ ls) = (tt, units ls)

map_bare : (ls : List Text) → All (λ l. rstrip l ≡ l) ls → map rstrip ls ≡ ls
map_bare [] h = refl
map_bare (l ∷ ls) h = cc (h.0, map_bare ls h.1)

-- Joined lines that are already stripped are the stripped lines of their text.
stripped_lines-join_lines :
    (l : Text) (ls : List Text)
    → All IsLine (l ∷ ls)
    → All HasNoReturn (l ∷ ls)
    → All (λ m. rstrip m ≡ m) (l ∷ ls)
    → stripped_lines (join_lines (l ∷ ls)) ≡ l ∷ ls
unfolding stripped_lines
stripped_lines-join_lines l ls lines unix bare =
    ap (λ t. map rstrip (split_lines t))
      (normalize_newlines_id _ (join_lines-HasNoReturn (l ∷ ls) unix))
    ∙ ap (map rstrip) (split_lines-join_lines l ls lines.0 lines.1)
    ∙ map_bare (l ∷ ls) bare

core_lines-join_lines :
    (ls : List Text)
    → All IsLine ls
    → All HasNoReturn ls
    → All (λ m. rstrip m ≡ m) ls
    → trim_back ls ≡ ls
    → trim_front ls ≡ ls
    → core_lines (join_lines ls) ≡ ls
unfolding core_lines
core_lines-join_lines [] lines unix bare back front =
    unfold join_lines stripped_lines normalize_newlines replace_crlf replace_cr split_lines rstrip
      trim_front trim_back in
    refl
core_lines-join_lines (l ∷ ls) lines unix bare back front =
    rw (stripped_lines-join_lines l ls lines unix bare, front, back)

core_lines-canonicalize : (text : Text) → core_lines (canonicalize text) ≡ core_lines text
core_lines-canonicalize text =
    ap core_lines (canonicalize-eq_core text)
    ∙ core_lines-join_lines (core_lines text) (core_lines-IsLine text) (core_lines-HasNoReturn text)
        (core_lines_bare text) (unfold core_lines in trim_back_idem _)
        (unfold core_lines in trim_front_kept _)

-- Canonicalizing a canonical text changes nothing.
pub canonicalize_idem : (text : Text) → canonicalize (canonicalize text) ≡ canonicalize text
canonicalize_idem text =
    canonicalize-eq_core (canonicalize text)
    ∙ ap join_lines (core_lines-canonicalize text)
    ∙ sym (canonicalize-eq_core text)

-- Two texts have the same canonical form exactly when their lines agree, right-stripped, after
-- newline normalization and without the blank lines at the front and at the back.
pub canonicalize_exact :
    (a b : Text) → (canonicalize a ≡ canonicalize b) ↔ (core_lines a ≡ core_lines b)
canonicalize_exact a b = (
  λ e. sym (core_lines-canonicalize a) ∙ ap core_lines e ∙ core_lines-canonicalize b,
  λ e. canonicalize-eq_core a ∙ ap join_lines e ∙ sym (canonicalize-eq_core b),
)
