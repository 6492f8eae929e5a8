-- ===== src/Text.antt =====
-- Python's `str` as its list of code points, with the operations of `str` that the program calls,
-- and text_utils.py.
pub mod Controls
pub mod Lines
use doc_lattice.Prelude.{
  ℕ, ◌+◌, Bool, false, not, ◌&&◌, ◌||◌, Option, none, some, List, [], ◌∷◌, ◌++◌, ltb, leb,
  if◌then◌else◌, is_empty, ◌==◌, nat_eq, list_eq, option_eq, contains, String,
}
use Prim.Native.Char.{code}

abbrev pub Text : Type 0
Text = List ℕ

-- A text literal.
abbrev pub codes : String → Text
codes String.[] = []
codes (String.◌∷◌ c s) = code c ∷ codes s

abbrev pub line_feed : ℕ
line_feed = 10

abbrev pub carriage_return : ℕ
carriage_return = 13

-- `text.replace("\r\n", new)`
unfoldable pub replace_crlf : Text → Text → Text
replace_crlf new [] = []
replace_crlf new (c ∷ []) = c ∷ []
replace_crlf new (c ∷ d ∷ rest) =
    let skipped = new ++ replace_crlf new rest in
    let kept = c ∷ replace_crlf new (d ∷ rest) in
    if c == carriage_return && d == line_feed then skipped else kept

-- `text.replace("\r", "\n")`
unfoldable pub replace_cr : Text → Text
replace_cr [] = []
replace_cr (c ∷ rest) = (if c == carriage_return then line_feed else c) ∷ replace_cr rest

abbrev pub cons_head : ℕ → List Text → List Text
cons_head c [] = (c ∷ []) ∷ []
cons_head c (line ∷ lines) = (c ∷ line) ∷ lines

-- `text.split("\n")`
unfoldable pub split_lines : Text → List Text
split_lines [] = [] ∷ []
split_lines (c ∷ rest) =
    let lines = split_lines rest in if c == line_feed then [] ∷ lines else cons_head c lines

-- `"\n".join(lines)`
unfoldable pub join_lines : List Text → Text
join_lines [] = []
join_lines (line ∷ []) = line
join_lines (line ∷ next ∷ rest) = line ++ (line_feed ∷ join_lines (next ∷ rest))

-- `str.isspace` of one code point: what `str.rstrip()` removes and what `\s` matches.
unfoldable pub is_space : ℕ → Bool
is_space c =
    (leb 9 c && leb c 13)
    || (leb 28 c && leb c 32)
    || c == 133
    || c == 160
    || c == 5760
    || (leb 8192 c && leb c 8202)
    || c == 8232
    || c == 8233
    || c == 8239
    || c == 8287
    || c == 12288

-- `text.rstrip()`
unfoldable pub rstrip : Text → Text
rstrip [] = []
rstrip (c ∷ rest) = let kept = rstrip rest in if is_space c && is_empty kept then [] else c ∷ kept

-- is_control_char
unfoldable pub is_control_char : ℕ → Bool
is_control_char c = ltb c 0x20 || c == 0x7F || leb 0x80 c && leb c 0x9F

-- strip_control_chars
unfoldable pub strip_control_chars : Text → Text
unfolding is_control_char
strip_control_chars [] = []
strip_control_chars (c ∷ rest) =
    let kept = strip_control_chars rest in if is_control_char c then kept else c ∷ kept

-- safe_heading_label
unfoldable pub safe_heading_label : Text → Text
safe_heading_label text = strip_control_chars text

-- The `for` loop of first_control_index, from position `index` on.
unfoldable pub control_index_from : ℕ → Text → Option ℕ
control_index_from index [] = none
control_index_from index (c ∷ rest) =
    let later = control_index_from (index + 1) rest in
    if is_control_char c then some index else later

-- first_control_index
unfoldable pub first_control_index : Text → Option ℕ
unfolding control_index_from
first_control_index text = control_index_from 0 text

-- `"\r\n" in text`
unfoldable pub contains_crlf : Text → Bool
contains_crlf [] = false
contains_crlf (c ∷ []) = false
contains_crlf (c ∷ d ∷ rest) = c == carriage_return && d == line_feed || contains_crlf (d ∷ rest)

abbrev pub crlf : Text
crlf = carriage_return ∷ line_feed ∷ []

abbrev pub cr : Text
cr = carriage_return ∷ []

abbrev pub lf : Text
lf = line_feed ∷ []

-- The members of the set `endings` of uniform_line_ending.
abbrev pub endings : Text → List Text
endings text =
    let without_crlf = replace_crlf [] text in
    (if contains_crlf text then crlf ∷ [] else [])
    ++ ((if contains without_crlf carriage_return then cr ∷ [] else [])
        ++ (if contains without_crlf line_feed then lf ∷ [] else []))

-- `next(iter(endings)) if len(endings) == 1 else None`
abbrev pub only : List Text → Option Text
only (e ∷ []) = some e
only _ = none

-- uniform_line_ending
unfoldable pub uniform_line_ending : Text → Option Text
uniform_line_ending text =
    if not (contains text carriage_return) then some lf else only (endings text)
