-- ===== src/Sections.antt =====
-- sections.py, and the marker syntax of markdown_compat.py that it relies on.
use doc_lattice.Prelude.{
  ℕ, ◌-◌, Bool, true, false, ◌&&◌, ◌||◌, Option, none, some, List, [], ◌∷◌, length, take, drop, leb,
  if◌then◌else◌, is_empty, ◌==◌, nat_eq, list_eq, option_eq,
}
use doc_lattice.Text.{Text, split_lines, join_lines, is_space, rstrip}
use doc_lattice.Text.Lines.{normalize_newlines}

-- `[A-Za-z0-9]`
unfoldable pub is_alnum : ℕ → Bool
is_alnum c = (leb 65 c && leb c 90) || (leb 97 c && leb c 122) || (leb 48 c && leb c 57)

-- `[A-Za-z0-9_-]`
unfoldable pub is_name_char : ℕ → Bool
unfolding is_alnum
is_name_char c = is_alnum c || c == 95 || c == 45

-- What is left behind the longest run of characters that pass the test.
unfoldable pub skip_run : (ℕ → Bool) → Text → Text
skip_run p [] = []
skip_run p (c ∷ rest) = let skipped = skip_run p rest in if p c then skipped else c ∷ rest

-- `\{#[A-Za-z0-9][A-Za-z0-9_-]*\}` at the head of the text: what is left behind it.
unfoldable pub match_marker : Text → Option Text
unfolding is_name_char skip_run
match_marker (c ∷ d ∷ f ∷ rest) =
    if c == 123 && d == 35 && is_alnum f
    then elim (skip_run is_name_char rest) [
      | [] ↦ none
      | g ∷ after ↦ if g == 125 then some after else none
    ]
    else none
match_marker _ = none

-- `\s*$|\s+(?=#+\s*$)`: what is left unmatched.
unfoldable pub match_tail : Text → Option Text
unfolding is_space skip_run
match_tail text =
    let after = skip_run is_space text in
    if is_empty after
    then some []
    else if length after == length text || length (skip_run (λ c. c == 35) after) == length after
    then none
    else if is_empty (skip_run is_space (skip_run (λ c. c == 35) after))
    then some after
    else none

-- `_ANCHOR_RE` at one position of the text: what is left behind the match.
unfoldable pub match_anchor : Bool → Text → Option Text
unfolding match_marker match_tail
match_anchor at_start text =
    let spaced = skip_run is_space text in
    let by_space =
      if length spaced == length text
      then none
      else elim (match_marker spaced) [ none ↦ none | some rest ↦ match_tail rest ] in
    if at_start
    then elim (match_marker text) [
      | none ↦ by_space
      | some rest ↦ elim (match_tail rest) [ none ↦ by_space | some after ↦ some after ]
    ]
    else by_space

-- `_ANCHOR_RE.sub(" ", text)`: behind a match stand only `#` and white space.
unfoldable pub substitute_anchor : Bool → Text → Text
unfolding match_anchor
substitute_anchor at_start [] = []
substitute_anchor at_start (c ∷ rest) =
    let later = c ∷ substitute_anchor false rest in
    elim (match_anchor at_start (c ∷ rest)) [ some after ↦ 32 ∷ after | none ↦ later ]

-- strip_heading_anchor
unfoldable pub strip_heading_anchor : Text → Text
unfolding substitute_anchor
strip_heading_anchor text = rstrip (substitute_anchor true text)

-- `if lines and lines[-1] == "": lines.pop()`
unfoldable pub drop_last_blank : List Text → List Text
drop_last_blank [] = []
drop_last_blank (line ∷ []) = if is_empty line then [] else line ∷ []
drop_last_blank (line ∷ next ∷ rest) = line ∷ drop_last_blank (next ∷ rest)

-- split_body_lines
unfoldable pub split_body_lines : Text → List Text
unfolding drop_last_blank
split_body_lines body = drop_last_blank (split_lines (normalize_newlines body))

abbrev strip_first : List Text → List Text
strip_first [] = []
strip_first (line ∷ rest) = strip_heading_anchor line ∷ rest

-- section_text
unfoldable pub section_text : Text → ℕ × ℕ → Text
unfolding split_body_lines strip_heading_anchor
section_text body span =
    join_lines (strip_first (drop (span.0 - 1) (take span.1 (split_body_lines body))))
