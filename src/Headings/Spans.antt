-- ===== src/Headings/Spans.antt =====
-- section_spans against the definition of an end by the next heading of the same or a higher level.
use doc_lattice.Prelude.{
  ℕ, zero, suc, ◌-◌, ◌<◌, ◌≡◌, inl, inr, refl, sym, ap, ◌∙◌, subst, false, Option, none, some, List,
  [], ◌∷◌, ◌++◌, Memᴰ, length, length-append, arith, leb, if◌then◌else◌, Bool-cases, nat_eq,
  list_eq, option_eq,
}
use mathlib.Core.List.Memᴰ
use doc_lattice.Headings.{
  Heading, Open, set_at, close_sections, end_lines_from, repeated, zip_spans, section_spans,
}

-- The line before the first of the headings that has the level or a higher one, and `total` where
-- there is none.
unfoldable pub end_of : ℕ → ℕ → List Heading → ℕ
end_of total level [] = total
end_of total level (h ∷ rest) =
    let later = end_of total level rest in if leb h.level level then h.line - 1 else later

-- Each heading with the end that the headings behind it give.
unfoldable pub spans_of : ℕ → List Heading → List (ℕ × ℕ)
unfolding end_of
spans_of total [] = []
spans_of total (h ∷ rest) = (h.line, end_of total h.level rest) ∷ spans_of total rest

nth : ℕ → List ℕ → Option ℕ
nth i [] = none
nth zero (x ∷ xs) = some x
nth (suc i) (x ∷ xs) = nth i xs

nth-append : (i : ℕ) (xs ys : List ℕ) {v : ℕ} → nth i xs ≡ some v → nth i (xs ++ ys) ≡ some v
unfolding nth
nth-append i [] ys e = cc
nth-append zero (x ∷ xs) ys e = e
nth-append (suc i) (x ∷ xs) ys e = nth-append i xs ys e

set_at-append :
    (i v : ℕ) (xs ys : List ℕ) {w : ℕ}
    → nth i xs ≡ some w
    → set_at i v (xs ++ ys) ≡ set_at i v xs ++ ys
unfolding nth set_at
set_at-append i v [] ys e = cc
set_at-append zero v (x ∷ xs) ys e = refl
set_at-append (suc i) v (x ∷ xs) ys e = ap (x ∷◌) (set_at-append i v xs ys e)

set_at-same : (i v : ℕ) (xs : List ℕ) → nth i xs ≡ some v → set_at i v xs ≡ xs
unfolding nth set_at
set_at-same i v [] e = refl
set_at-same zero v (x ∷ xs) e = (let same : x ≡ v = cc in ap (λ y. y ∷ xs) (sym same))
set_at-same (suc i) v (x ∷ xs) e = ap (x ∷◌) (set_at-same i v xs e)

nth-set_at : (i j v : ℕ) (xs : List ℕ) → j < i → nth j (set_at i v xs) ≡ nth j xs
unfolding nth set_at
nth-set_at i j v [] lt = refl
nth-set_at zero j v (x ∷ xs) lt = absurd (omega (arith, lt))
nth-set_at (suc i) zero v (x ∷ xs) lt = refl
nth-set_at (suc i) (suc j) v (x ∷ xs) lt = nth-set_at i j v xs (omega arith)

length-set_at : (i v : ℕ) (xs : List ℕ) → length (set_at i v xs) ≡ length xs
unfolding set_at
length-set_at i v [] = refl
length-set_at zero v (x ∷ xs) = refl
length-set_at (suc i) v (x ∷ xs) = ap suc (length-set_at i v xs)

set_at_end : (v t : ℕ) (xs : List ℕ) → set_at (length xs) v (xs ++ t ∷ []) ≡ xs ++ v ∷ []
unfolding set_at
set_at_end v t [] = refl
set_at_end v t (x ∷ xs) = ap (x ∷◌) (set_at_end v t xs)

nth_end : (t : ℕ) (xs : List ℕ) → nth (length xs) (xs ++ t ∷ []) ≡ some t
unfolding nth
nth_end t [] = refl
nth_end t (x ∷ xs) = nth_end t xs

nth-lt : (i v : ℕ) (xs : List ℕ) → nth i xs ≡ some v → i < length xs
unfolding nth
nth-lt i v [] e = cc
nth-lt zero v (x ∷ xs) e = omega arith
nth-lt (suc i) v (x ∷ xs) e = omega (arith, nth-lt i v xs e)

module _ (total : ℕ) where
  -- The open sections, the innermost first: none has its end yet, and those further out stand earlier
  -- and have a higher level.
  abbrev Nested : List ℕ → List Open → Type 0
  Nested ends [] = Unit
  Nested ends ((i, level) ∷ stack) =
      (nth i ends ≡ some total)
      × ((j m : ℕ) → Memᴰ (j, m) stack → (j < i) × (m < level))
      × Nested ends stack

  Nested-append :
      (ends more : List ℕ) (stack : List Open) → Nested ends stack → Nested (ends ++ more) stack
  Nested-append ends more [] n = tt
  Nested-append ends more ((i, level) ∷ stack) (at_i, outer, n) =
      (nth-append i ends more at_i, outer, Nested-append ends more stack n)

  Nested-set_at :
      (i v : ℕ) (ends : List ℕ) (stack : List Open)
      → ((j m : ℕ) → Memᴰ (j, m) stack → j < i)
      → Nested ends stack
      → Nested (set_at i v ends) stack
  Nested-set_at i v ends [] lt n = tt
  Nested-set_at i v ends ((j, m) ∷ stack) lt (at_j, outer, n) = (
    nth-set_at i j v ends (lt j m (Memᴰ.head refl)) ∙ at_j,
    outer,
    Nested-set_at i v ends stack (λ k l m'. lt k l (Memᴰ.tail m')) n,
  )

  -- The ends of the open sections written in, as the headings still to come give them.
  fill : List Heading → List Open → List ℕ → List ℕ
  fill hs [] ends = ends
  fill hs ((i, level) ∷ stack) ends = fill hs stack (set_at i (end_of total level hs) ends)

  fill-append :
      (hs : List Heading) (stack : List Open) (ends more : List ℕ)
      → Nested ends stack
      → fill hs stack (ends ++ more) ≡ fill hs stack ends ++ more
  unfolding fill
  fill-append hs [] ends more n = refl
  fill-append hs ((i, level) ∷ stack) ends more (at_i, outer, n) =
      let v = end_of total level hs in
      ap (fill hs stack) (set_at-append i v ends more at_i)
      ∙ fill-append hs stack (set_at i v ends) more
          (Nested-set_at i v ends stack (λ j m k. (outer j m k).0) n)

  fill-none : (stack : List Open) (ends : List ℕ) → Nested ends stack → fill [] stack ends ≡ ends
  unfolding fill end_of
  fill-none [] ends n = refl
  fill-none ((i, level) ∷ stack) ends (at_i, outer, n) =
      ap (fill [] stack) (set_at-same i total ends at_i) ∙ fill-none stack ends n

  -- A heading that closes none of the open sections does not matter to their ends.
  fill_open :
      (h : Heading) (hs : List Heading) (stack : List Open) (ends : List ℕ)
      → ((j m : ℕ) → Memᴰ (j, m) stack → m < h.level)
      → fill (h ∷ hs) stack ends ≡ fill hs stack ends
  unfolding fill end_of
  fill_open h hs [] ends above = refl
  fill_open h hs ((i, level) ∷ stack) ends above =
      let open' : leb h.level level ≡ false =
        (let lt = above i level (Memᴰ.head refl) in ground arith) in
      rw open' (
        fill_open h hs stack (set_at i (end_of total level hs) ends)
          (λ j m k. above j m (Memᴰ.tail k)))

  -- What closing leaves: the rest of the stack, with the closed ends written in.
  record Closed (h : Heading) (hs : List Heading) (stack : List Open) (ends more : List ℕ)
      : Type 0 where
    left : List Open
    written : List ℕ
    result : close_sections h.level (h.line - 1) stack (ends ++ more) ≡ (left, written ++ more)
    nested : Nested written left
    above : (j m : ℕ) → Memᴰ (j, m) left → m < h.level
    size : length written ≡ length ends
    filled : fill (h ∷ hs) stack ends ≡ fill hs left written

  close_sections-Closed :
      (h : Heading) (hs : List Heading) (stack : List Open) (ends more : List ℕ)
      → Nested ends stack
      → Closed h hs stack ends more
  unfolding close_sections fill end_of
  close_sections-Closed h hs [] ends more n = record {
    left = [];
    written = ends;
    result = refl;
    nested = n;
    above = λ j m k. absurd (Memᴰ.not-nil k);
    size = refl;
    filled = refl;
  }
  close_sections-Closed h hs ((i, level) ∷ stack) ends more (at_i, outer, n) =
      elim (Bool-cases (leb h.level level)) [
        | inl closes ↦
            let last = h.line - 1 in
            let c =
              close_sections-Closed h hs stack (set_at i last ends) more
                (Nested-set_at i last ends stack (λ j m k. (outer j m k).0) n) in
            record {
              left = c.left;
              written = c.written;
              result = rw (closes, set_at-append i last ends more at_i) c.result;
              nested = c.nested;
              above = c.above;
              size = c.size ∙ length-set_at i last ends;
              filled = rw closes c.filled;
            }
        | inr stays ↦ record {
          left = (i, level) ∷ stack;
          written = ends;
          result = rw stays refl;
          nested = (at_i, outer, n);
          above = below (ground arith);
          size = refl;
          filled = fill_open h hs ((i, level) ∷ stack) ends (below (ground arith));
        }
      ]
    where
      below : level < h.level → (j m : ℕ) → Memᴰ (j, m) ((i, level) ∷ stack) → m < h.level
      below lt j m k = elim (Memᴰ.cases_cons k) [
        | inl here ↦ (let same = ap (λ (p : Open). p.1) here in omega (arith, same))
        | inr later ↦ (let b = (outer j m later).1 in omega arith)
      ]

  ends_of : List Heading → List ℕ
  ends_of [] = []
  ends_of (h ∷ hs) = end_of total h.level hs ∷ ends_of hs

  snoc_append : (xs : List ℕ) (v : ℕ) (ys : List ℕ) → (xs ++ v ∷ []) ++ ys ≡ xs ++ v ∷ ys
  snoc_append [] v ys = refl
  snoc_append (x ∷ xs) v ys = ap (x ∷◌) (snoc_append xs v ys)

  Nested-below :
      (ends : List ℕ) (stack : List Open)
      → Nested ends stack
      → (j m : ℕ) → Memᴰ (j, m) stack
      → j < length ends
  Nested-below ends [] n j m k = absurd (Memᴰ.not-nil k)
  Nested-below ends ((i, level) ∷ stack) (at_i, outer, n) j m k = elim (Memᴰ.cases_cons k) [
    | inl here ↦
        (let same = ap (λ (p : Open). p.0) here in omega (arith, same, nth-lt i total ends at_i))
    | inr later ↦ Nested-below ends stack n j m later
  ]

  -- The new heading is open, inside the sections that are left.
  Closed-Nested :
      (h : Heading) (hs : List Heading) (stack : List Open) (ends more : List ℕ)
      (c : Closed h hs stack ends more)
      → Nested (c.written ++ total ∷ []) ((length c.written, h.level) ∷ c.left)
  Closed-Nested h hs stack ends more c = (
    nth_end total c.written,
    (λ j m k. (Nested-below c.written c.left c.nested j m k, c.above j m k)),
    Nested-append c.written (total ∷ []) c.left c.nested,
  )

  fill-Closed :
      (h : Heading) (hs : List Heading) (stack : List Open) (ends more : List ℕ)
      (c : Closed h hs stack ends more)
      → fill hs ((length c.written, h.level) ∷ c.left) (c.written ++ total ∷ [])
        ≡ fill (h ∷ hs) stack ends ++ end_of total h.level hs ∷ []
  unfolding fill
  fill-Closed h hs stack ends more c =
      let v = end_of total h.level hs in
      ap (fill hs c.left) (set_at_end v total c.written)
      ∙ fill-append hs c.left c.written (v ∷ []) c.nested
      ∙ ap (λ xs. xs ++ v ∷ []) (sym c.filled)

  end_lines_from-fill :
      (hs : List Heading) (stack : List Open) (ends : List ℕ)
      → Nested ends stack
      → end_lines_from (length ends) hs stack (ends ++ repeated total hs)
        ≡ fill hs stack ends ++ ends_of hs
  unfolding end_lines_from repeated ends_of fill
  end_lines_from-fill [] stack ends n = ap (λ xs. xs ++ []) (sym (fill-none stack ends n))
  end_lines_from-fill (h ∷ hs) stack ends n =
      let more = total ∷ repeated total hs in
      let c = close_sections-Closed h hs stack ends more n in
      let v = end_of total h.level hs in
      let next =
        end_lines_from-fill hs ((length c.written, h.level) ∷ c.left) (c.written ++ total ∷ [])
          (Closed-Nested h hs stack ends more c) in
      let size : length (c.written ++ total ∷ []) ≡ suc (length c.written) =
        omega (arith, length-append c.written (total ∷ [])) in
      ap
        (λ (r : List Open × List ℕ).
          end_lines_from (suc (length ends)) hs ((length ends, h.level) ∷ r.0) r.1)
        c.result
      ∙ ap (λ k. end_lines_from (suc k) hs ((k, h.level) ∷ c.left) (c.written ++ more)) (sym c.size)
      ∙ ap (end_lines_from (suc (length c.written)) hs ((length c.written, h.level) ∷ c.left))
          (sym (snoc_append c.written total (repeated total hs)))
      ∙ subst
          (λ k.
            end_lines_from k hs ((length c.written, h.level) ∷ c.left)
              ((c.written ++ total ∷ []) ++ repeated total hs)
            ≡ fill hs ((length c.written, h.level) ∷ c.left) (c.written ++ total ∷ [])
              ++ ends_of hs)
          size next
      ∙ ap (λ xs. xs ++ ends_of hs) (fill-Closed h hs stack ends more c)
      ∙ snoc_append (fill (h ∷ hs) stack ends) v (ends_of hs)

  zip_spans-ends_of : (hs : List Heading) → zip_spans hs (ends_of hs) ≡ spans_of total hs
  unfolding zip_spans ends_of spans_of
  zip_spans-ends_of [] = refl
  zip_spans-ends_of (h ∷ hs) = ap ((h.line, end_of total h.level hs) ∷◌) (zip_spans-ends_of hs)

-- section_spans gives each heading the span from its line to the line before the next heading of the
-- same or a higher level, or to the last line where there is none.
pub section_spans-eq-spans_of :
    (headings : List Heading) (total : ℕ) → section_spans headings total ≡ spans_of total headings
unfolding section_spans fill
section_spans-eq-spans_of headings total =
    ap (zip_spans headings) (end_lines_from-fill total headings [] [] tt)
    ∙ zip_spans-ends_of total headings
