-- ===== src/LinkSelectors.antt =====
-- link_selectors.py: the grammar of link selectors, and matching a selector against a path. `fnmatch.fnmatchcase` is a
-- parameter.
pub mod Closure
pub mod Validation
pub mod Pruning
pub mod Parts
pub mod Escaping
pub mod Matching
use doc_lattice.Prelude.{
  ℕ, zero, suc, ◌+◌, ◌-◌, ◌≤◌, ◌<◌, ◌≡◌, ◌≢◌, ◌↔◌, ◌⊎◌, inl, inr, ⊎_elim, refl, sym, ap, ◌∙◌, subst,
  Bool, true, false, not, ◌&&◌, ◌||◌, Option, none, some, List, [], ◌∷◌, ◌++◌, map, Memᴰ, Memᴰ-cons,
  Memᴰ-append, All, All-append, length, length-append, length-map, take, drop, arith, ltb, leb,
  nat_eqb, nat_eqb_iff, if◌then◌else◌, is_some, is_empty, Bool-cases, Option-cases, List-cases, Eq,
  ◌==◌, ==_iff, ==_refl, nat_eq, list_eq, option_eq, contains, contains_iff,
}
use doc_lattice.Text.{Text, codes, strip_control_chars}
use doc_lattice.Transaction.{starts_with, has_infix, ends_with}

abbrev pub slash : ℕ
slash = 47

-- `RECURSIVE_SEGMENT`
abbrev pub recursive_segment : Text
recursive_segment = codes "**"

abbrev pub cons_segment : ℕ → List Text → List Text
cons_segment c [] = (c ∷ []) ∷ []
cons_segment c (part ∷ parts) = (c ∷ part) ∷ parts

-- `text.split("/")`
unfoldable pub split_parts : Text → List Text
split_parts [] = [] ∷ []
split_parts (c ∷ rest) =
    let parts = split_parts rest in if c == slash then [] ∷ parts else cons_segment c parts

-- `segments[position]`, for a position that the matcher keeps in range.
abbrev pub segment_at : List Text → ℕ → Text
segment_at [] position = []
segment_at (segment ∷ segments) zero = segment
segment_at (segment ∷ segments) (suc position) = segment_at segments position

abbrev pub is_recursive : List Text → ℕ → Bool
is_recursive segments position = segment_at segments position == recursive_segment

-- `len(segments) - 1`
abbrev pub last_position : List Text → ℕ
last_position segments = length segments - 1

-- The loop of _recursive_closure, on fuel; `pending` is a stack.
unfoldable pub closure_loop : ℕ → List Text → List ℕ → List ℕ → Option (List ℕ)
closure_loop zero segments closed pending = none
closure_loop (suc fuel) segments closed [] = some closed
closure_loop (suc fuel) segments closed (position ∷ pending) =
    let skip = closure_loop fuel segments closed pending in
    let grow = closure_loop fuel segments ((position + 1) ∷ closed) ((position + 1) ∷ pending) in
    if not (is_recursive segments position) || leb (last_position segments) position
    then skip
    else if contains closed (position + 1)
    then skip
    else grow

-- _recursive_closure: a round for each position, each segment, and the end.
unfoldable pub recursive_closure : List ℕ → List Text → Option (List ℕ)
unfolding closure_loop
recursive_closure positions segments =
    closure_loop (length positions + length segments + 1) segments positions positions

abbrev pub add_position : ℕ → List ℕ → List ℕ
add_position position positions =
    if contains positions position then positions else position ∷ positions

module _ (segment_matches : Text → Text → Bool) where
  -- The inner loop of selector_matches_path.
  unfoldable pub advance : List Text → Text → List ℕ → List ℕ
  advance segments part [] = []
  advance segments part (position ∷ closed) =
      let rest = advance segments part closed in
      if is_recursive segments position
      then add_position position rest
      else if ltb position (last_position segments)
          && segment_matches part (segment_at segments position)
      then add_position (position + 1) rest
      else rest

  -- The `any` at its end.
  unfoldable pub accepts : List Text → Text → List ℕ → Bool
  accepts segments part [] = false
  accepts segments part (position ∷ closed) =
      position == last_position segments
        && (is_recursive segments position || segment_matches part (segment_at segments position))
      || accepts segments part closed

  -- The loop of selector_matches_path over `parts`, the last part being left for the end. A split has a part.
  unfoldable pub match_parts : List Text → List Text → List ℕ → Option Bool
  unfolding recursive_closure advance accepts
  match_parts segments [] positions = some false
  match_parts segments (part ∷ []) positions = elim (recursive_closure positions segments) [
    | none ↦ none
    | some closed ↦ some (accepts segments part closed)
  ]
  match_parts segments (part ∷ next ∷ parts) positions =
      elim (recursive_closure positions segments) [
        | none ↦ none
        | some closed ↦
            let advanced = advance segments part closed in
            let rest = match_parts segments (next ∷ parts) advanced in
            if is_empty advanced then some false else rest
      ]

  -- selector_matches_path
  unfoldable pub selector_matches_path : List Text → Text → Option Bool
  unfolding match_parts split_parts
  selector_matches_path segments path = match_parts segments (split_parts path) (0 ∷ [])

-- `"/".join(parts)`
unfoldable pub join_parts : List Text → Text
join_parts [] = []
join_parts (part ∷ []) = part
join_parts (part ∷ next ∷ parts) = part ++ (slash ∷ join_parts (next ∷ parts))

-- `parts[: index + 1]` for each index
unfoldable pub leading : List Text → List (List Text)
leading [] = []
leading (part ∷ parts) = (part ∷ []) ∷ map (λ rest. part ∷ rest) (leading parts)

-- The `any` of selector_prunes_path, over the leading parts of a path.
unfoldable pub any_matches : (Text → Text → Bool) → List Text → List (List Text) → Option Bool
unfolding selector_matches_path join_parts
any_matches segment_matches segments [] = some false
any_matches segment_matches segments (prefix ∷ prefixes) =
    let rest = any_matches segment_matches segments prefixes in
    elim (selector_matches_path segment_matches segments (join_parts prefix)) [
      | none ↦ none
      | some answer ↦ if answer then some true else rest
    ]

-- selector_prunes_path
unfoldable pub selector_prunes_path : (Text → Text → Bool) → List Text → Text → Option Bool
unfolding any_matches leading split_parts
selector_prunes_path segment_matches segments path =
    any_matches segment_matches segments (leading (split_parts path))

-- Where the cursor of _has_unclosed_bracket is: outside a class, behind `[`, behind `[!`, or inside a class.
pub data Cursor : Type 0 where
  outside opened negated inside : Cursor

abbrev pub open_bracket : ℕ
open_bracket = 91

abbrev pub close_bracket : ℕ
close_bracket = 93

abbrev pub exclamation : ℕ
exclamation = 33

-- What the next character does to it. The first `]` of a class is a member of it.
abbrev pub move_cursor : Cursor → ℕ → Cursor
move_cursor outside c = if c == open_bracket then opened else outside
move_cursor opened c = if c == exclamation then negated else inside
move_cursor negated c = inside
move_cursor inside c = if c == close_bracket then outside else inside

abbrev pub is_outside : Cursor → Bool
is_outside outside = true
is_outside _ = false

unfoldable pub scan_brackets : Cursor → Text → Cursor
scan_brackets cursor [] = cursor
scan_brackets cursor (c ∷ rest) = scan_brackets (move_cursor cursor c) rest

-- _has_unclosed_bracket
unfoldable pub has_unclosed_bracket : Text → Bool
unfolding scan_brackets
has_unclosed_bracket segment = not (is_outside (scan_brackets outside segment))

-- `[*?\[]`
abbrev pub is_metacharacter : ℕ → Bool
is_metacharacter c = c == 42 || c == 63 || c == open_bracket

-- escape_selector_literal
unfoldable pub escape_selector_literal : Text → Text
escape_selector_literal [] = []
escape_selector_literal (c ∷ rest) =
    let escaped = escape_selector_literal rest in
    if is_metacharacter c then open_bracket ∷ c ∷ close_bracket ∷ escaped else c ∷ escaped

-- The defects that validate_link_selector names.
pub data SelectorDefect : Type 0 where
  is_blank control_character backslash absolute trailing_separator empty_segment dot_segment :
      SelectorDefect
  inner_recursive unclosed_bracket : SelectorDefect

-- The loop of validate_link_selector.
unfoldable pub segments_defect : List Text → Option SelectorDefect
unfolding has_unclosed_bracket has_infix
segments_defect [] = none
segments_defect (segment ∷ segments) =
    let rest = segments_defect segments in
    if is_empty segment
    then some empty_segment
    else if segment == codes "." || segment == codes ".."
    then some dot_segment
    else if has_infix segment recursive_segment && not (segment == recursive_segment)
    then some inner_recursive
    else if has_unclosed_bracket segment
    then some unclosed_bracket
    else rest

-- `PureWindowsPath(path).drive`, of a path without backslashes that does not begin with a slash.
abbrev pub has_drive : Text → Bool
has_drive (c ∷ d ∷ rest) = d == 58
has_drive _ = false

-- relative_spelling_defect, of path_utils.py
unfoldable pub relative_spelling_defect : Text → Option SelectorDefect
unfolding starts_with
relative_spelling_defect path =
    if contains path 92
    then some backslash
    else if starts_with path (slash ∷ []) || has_drive path
    then some absolute
    else none

-- validate_link_selector
unfoldable pub validate_link_selector : Text → SelectorDefect ⊎ List Text
validate_link_selector entry =
    if is_empty entry
    then inl is_blank
    else if not (strip_control_chars entry == entry)
    then inl control_character
    else elim (relative_spelling_defect entry) [
      | some defect ↦ inl defect
      | none ↦
          if ends_with entry (slash ∷ [])
          then inl trailing_separator
          else elim (segments_defect (split_parts entry)) [
            | some defect ↦ inl defect
            | none ↦ inr (split_parts entry)
          ]
    ]
