-- ===== src/Headings.antt =====
-- The heading records of markdown_compat.py, its collision components, and the outline functions of
-- sections.py that read them. The Markdown parser and the slugs are not part of it.
pub mod Spans
use doc_lattice.Prelude.{
  ℕ, zero, suc, ◌-◌, Option, List, [], ◌∷◌, ◌++◌, leb, if◌then◌else◌, nat_eq, list_eq, option_eq,
  contains,
}
use doc_lattice.Text.{Text, rstrip}
use doc_lattice.Dict.{Dict, keys, get, has, put}
use doc_lattice.Sections.{strip_heading_anchor}
use doc_lattice.Result.{ok, ◌>>=◌, or_raise}
use doc_lattice.Errors.{Outcome, key_error}

pub record Heading : Type 0 where
  pub level : ℕ
  pub text : Text
  pub anchor : Option Text
  pub line : ℕ

pub record SluggedHeading : Type 0 where
  pub text : Text
  pub level : ℕ
  pub line : ℕ
  pub github_id : Text
  pub probes : List Text

-- An open section: its place in the list of headings, and its level.
abbrev pub Open : Type 0
Open = ℕ × ℕ

-- `end_lines[index] = line`
unfoldable pub set_at : ℕ → ℕ → List ℕ → List ℕ
set_at index line [] = []
set_at zero line (x ∷ xs) = line ∷ xs
set_at (suc index) line (x ∷ xs) = x ∷ set_at index line xs

-- `while stack and stack[-1][1] >= level`: what is left of the stack, and the end lines.
unfoldable pub close_sections : ℕ → ℕ → List Open → List ℕ → List Open × List ℕ
unfolding set_at
close_sections level last [] end_lines = ([], end_lines)
close_sections level last ((index, open_level) ∷ stack) end_lines =
    let closed = close_sections level last stack (set_at index last end_lines) in
    if leb level open_level then closed else ((index, open_level) ∷ stack, end_lines)

-- The loop of section_spans, from the heading at `index` on.
unfoldable pub end_lines_from : ℕ → List Heading → List Open → List ℕ → List ℕ
unfolding close_sections
end_lines_from index [] stack end_lines = end_lines
end_lines_from index (h ∷ headings) stack end_lines =
    let (still_open, ends) = close_sections h.level (h.line - 1) stack end_lines in
    end_lines_from (suc index) headings ((index, h.level) ∷ still_open) ends

-- `[total_lines] * len(headings)`
unfoldable pub repeated : ℕ → List Heading → List ℕ
repeated total [] = []
repeated total (h ∷ headings) = total ∷ repeated total headings

-- `[(heading.line, end_line) for heading, end_line in zip(headings, end_lines)]`
unfoldable pub zip_spans : List Heading → List ℕ → List (ℕ × ℕ)
zip_spans [] ends = []
zip_spans (h ∷ headings) [] = []
zip_spans (h ∷ headings) (e ∷ ends) = (h.line, e) ∷ zip_spans headings ends

-- section_spans
unfoldable pub section_spans : List Heading → ℕ → List (ℕ × ℕ)
unfolding end_lines_from repeated zip_spans
section_spans headings total_lines =
    zip_spans headings (end_lines_from 0 headings [] (repeated total_lines headings))

abbrev pub Outline : Type 0
Outline = Dict ℕ (ℕ × Text)

-- `for slugged in full: outline[slugged.line] = (slugged.level, slugged.text)`
unfoldable pub outline_full : List SluggedHeading → Outline → Outline
outline_full [] outline = outline
outline_full (s ∷ full) outline = outline_full full (put outline s.line (s.level, s.text))

-- `for heading in toc: outline.setdefault(heading.line, (heading.level, heading.text))`
unfoldable pub outline_toc : List Heading → Outline → Outline
outline_toc [] outline = outline
outline_toc (h ∷ toc) outline =
    outline_toc toc (if has outline h.line then outline else put outline h.line (h.level, h.text))

unfoldable pub insert_line : ℕ → List ℕ → List ℕ
insert_line x [] = x ∷ []
insert_line x (y ∷ ys) = let rest = insert_line x ys in if leb x y then x ∷ y ∷ ys else y ∷ rest

-- `sorted(lines)`
unfoldable pub sorted_lines : List ℕ → List ℕ
unfolding insert_line
sorted_lines [] = []
sorted_lines (x ∷ xs) = insert_line x (sorted_lines xs)

-- `"#" * level`
unfoldable pub hashes : ℕ → Text
hashes zero = []
hashes (suc n) = 35 ∷ hashes n

-- _render_ancestor
unfoldable pub render_ancestor : ℕ × Text → Text
unfolding hashes strip_heading_anchor rstrip
render_ancestor (level, text) = rstrip (hashes level ++ 32 ∷ strip_heading_anchor text)

-- `while stack and stack[-1][0] >= level: stack.pop()`, the top of the stack first.
unfoldable pub pop_levels : ℕ → List (ℕ × Text) → List (ℕ × Text)
pop_levels level [] = []
pop_levels level ((open_level, text) ∷ stack) =
    let popped = pop_levels level stack in
    if leb level open_level then popped else (open_level, text) ∷ stack

-- `tuple(_render_ancestor(*entry) for entry in stack)`, the bottom of the stack first.
unfoldable pub render_stack : List (ℕ × Text) → List Text
unfolding render_ancestor
render_stack [] = []
render_stack (entry ∷ stack) = render_stack stack ++ render_ancestor entry ∷ []

-- The loop of ancestor_chains over the lines of the outline.
unfoldable pub chains_from :
    Outline → List ℕ → List ℕ → List (ℕ × Text) → Dict ℕ (List Text) → Outcome (Dict ℕ (List Text))
unfolding pop_levels render_stack
chains_from outline addressable [] stack chains = ok chains
chains_from outline addressable (line ∷ lines) stack chains = do
  entry ← or_raise key_error (get outline line)
  let still_open = pop_levels entry.0 stack
  chains_from outline addressable lines (entry ∷ still_open)
      (if contains addressable line then put chains line (render_stack still_open) else chains)

unfoldable pub heading_lines : List Heading → List ℕ
heading_lines [] = []
heading_lines (h ∷ toc) = h.line ∷ heading_lines toc

-- `[chains[heading.line] for heading in toc]`
unfoldable pub chains_at : Dict ℕ (List Text) → List ℕ → Outcome (List (List Text))
chains_at chains [] = ok []
chains_at chains (line ∷ lines) = do
  chain ← or_raise key_error (get chains line)
  rest ← chains_at chains lines
  ok (chain ∷ rest)

-- ancestor_chains
unfoldable pub ancestor_chains : List SluggedHeading → List Heading → Outcome (List (List Text))
unfolding outline_full outline_toc sorted_lines chains_from heading_lines chains_at
ancestor_chains full toc = do
  let outline = outline_toc toc (outline_full full [])
  chains ← chains_from outline (heading_lines toc) (sorted_lines (keys outline)) [] []
  chains_at chains (heading_lines toc)
