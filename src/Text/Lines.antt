-- ===== src/Text/Lines.antt =====
-- `split("\n")` and `"\n".join`, and the newline normalization of hashing.py.
use doc_lattice.Prelude.{
  ℕ, ◌≡◌, ◌≢◌, refl, ap, ◌∙◌, inl, inr, List, [], ◌∷◌, ◌++◌, All, All-append, arith, Bool-cases,
  ◌==◌, nat_eq,
}
use doc_lattice.Text.{
  Text, line_feed, carriage_return, replace_crlf, replace_cr, split_lines, join_lines, cons_head,
}

-- normalize_newlines of hashing.py
unfoldable pub normalize_newlines : Text → Text
normalize_newlines text = replace_cr (replace_crlf (line_feed ∷ []) text)

-- A text with no line break in it.
abbrev pub IsLine : Text → Type 0
IsLine = All (λ c. c ≢ line_feed)

abbrev pub HasNoReturn : Text → Type 0
HasNoReturn = All (λ c. c ≢ carriage_return)

replace_crlf_id : (new text : Text) → HasNoReturn text → replace_crlf new text ≡ text
unfolding replace_crlf
replace_crlf_id new [] h = refl
replace_crlf_id new (c ∷ []) h = refl
replace_crlf_id new (c ∷ d ∷ rest) h = ground (arith, replace_crlf_id new (d ∷ rest) h.1)

replace_cr_id : (text : Text) → HasNoReturn text → replace_cr text ≡ text
unfolding replace_cr
replace_cr_id [] h = refl
replace_cr_id (c ∷ rest) h = ground (arith, replace_cr_id rest h.1)

pub normalize_newlines_id : (text : Text) → HasNoReturn text → normalize_newlines text ≡ text
unfolding normalize_newlines
normalize_newlines_id text h = ap replace_cr (replace_crlf_id _ text h) ∙ replace_cr_id text h

replace_cr-HasNoReturn : (text : Text) → HasNoReturn (replace_cr text)
unfolding replace_cr
replace_cr-HasNoReturn [] = tt
replace_cr-HasNoReturn (c ∷ rest) = (ground arith, replace_cr-HasNoReturn rest)

pub normalize_newlines-HasNoReturn : (text : Text) → HasNoReturn (normalize_newlines text)
unfolding normalize_newlines
normalize_newlines-HasNoReturn text = replace_cr-HasNoReturn _

cons_head-All :
    (P : Text → Type 0) (c : ℕ) (lines : List Text)
    → ((l : Text) → P l → P (c ∷ l))
    → P (c ∷ [])
    → All P lines
    → All P (cons_head c lines)
cons_head-All P c [] step one h = (one, tt)
cons_head-All P c (l ∷ ls) step one h = (step l h.0, h.1)

-- Every line of a text that has no carriage return is free of both line break characters.
pub split_lines-IsLine : (text : Text) → All IsLine (split_lines text)
unfolding split_lines
split_lines-IsLine [] = (tt, tt)
split_lines-IsLine (c ∷ rest) = elim (Bool-cases (c == line_feed)) [
  | inl e ↦ rw e (tt, split_lines-IsLine rest)
  | inr e ↦ rw e (
      cons_head-All IsLine c (split_lines rest) (λ l h. (ground arith, h)) (ground arith, tt)
        (split_lines-IsLine rest))
]

pub split_lines-HasNoReturn : (text : Text) → HasNoReturn text → All HasNoReturn (split_lines text)
unfolding split_lines
split_lines-HasNoReturn [] h = (tt, tt)
split_lines-HasNoReturn (c ∷ rest) h = elim (Bool-cases (c == line_feed)) [
  | inl e ↦ rw e (tt, split_lines-HasNoReturn rest h.1)
  | inr e ↦ rw e (
      cons_head-All HasNoReturn c (split_lines rest) (λ l k. (h.0, k)) (h.0, tt)
        (split_lines-HasNoReturn rest h.1))
]

split_lines_line : (line : Text) → IsLine line → split_lines line ≡ line ∷ []
unfolding split_lines
split_lines_line [] h = refl
split_lines_line (c ∷ line) h = ground (arith, split_lines_line line h.1)

split_lines_break :
    (line rest : Text)
    → IsLine line
    → split_lines (line ++ (line_feed ∷ rest)) ≡ line ∷ split_lines rest
unfolding split_lines
split_lines_break [] rest h = refl
split_lines_break (c ∷ line) rest h = ground (arith, split_lines_break line rest h.1)

-- Lines with no line break in them come back from the joined text.
pub split_lines-join_lines :
    (l : Text) (ls : List Text)
    → IsLine l
    → All IsLine ls
    → split_lines (join_lines (l ∷ ls)) ≡ l ∷ ls
unfolding join_lines
split_lines-join_lines l [] h hs = split_lines_line l h
split_lines-join_lines l (m ∷ ls) h hs =
    split_lines_break l _ h ∙ ap (λ r. l ∷ r) (split_lines-join_lines m ls hs.0 hs.1)

join_lines-cons_head :
    (c : ℕ) (l : Text) (ls : List Text)
    → join_lines (cons_head c (l ∷ ls)) ≡ c ∷ join_lines (l ∷ ls)
unfolding join_lines
join_lines-cons_head c l [] = refl
join_lines-cons_head c l (m ∷ ls) = refl

pub join_lines-HasNoReturn : (ls : List Text) → All HasNoReturn ls → HasNoReturn (join_lines ls)
unfolding join_lines
join_lines-HasNoReturn [] h = tt
join_lines-HasNoReturn (l ∷ []) h = h.0
join_lines-HasNoReturn (l ∷ m ∷ ls) h =
    All-append _ l _ h.0 (omega arith, join_lines-HasNoReturn (m ∷ ls) h.1)
