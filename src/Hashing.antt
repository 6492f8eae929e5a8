-- ===== src/Hashing.antt =====
-- hashing.py. `hashlib.sha256(text.encode("utf-8")).hexdigest()` is a parameter.
pub mod Canonical
use doc_lattice.Prelude.{
  ℕ, zero, suc, ◌&&◌, List, [], ◌∷◌, map, length, take, drop, ltb, if◌then◌else◌, is_empty, nat_eq,
  list_eq, option_eq,
}
use doc_lattice.Text.{Text, split_lines, join_lines, rstrip}
use doc_lattice.Text.Lines.{normalize_newlines}

abbrev pub hash_hex_len : ℕ
hash_hex_len = 32

-- `while start < end and lines[start] == ""`: the rounds of the loop, over the lines from the start.
unfoldable pub blank_prefix : List Text → ℕ
blank_prefix [] = 0
blank_prefix (line ∷ rest) = let later = blank_prefix rest in if is_empty line then suc later else 0

-- `lines[i]`, for an index that the loops keep in range.
abbrev pub line_at : List Text → ℕ → Text
line_at [] i = []
line_at (line ∷ rest) zero = line
line_at (line ∷ rest) (suc i) = line_at rest i

-- `while end > start and lines[end - 1] == ""`, from `end` down.
unfoldable pub trim_end : List Text → ℕ → ℕ → ℕ
trim_end lines start zero = zero
trim_end lines start (suc e) =
    let lower = trim_end lines start e in
    if ltb start (suc e) && is_empty (line_at lines e) then lower else suc e

-- `lines[start:end]`
abbrev pub slice {ℓ} : {A : Type ℓ} → List A → ℕ → ℕ → List A
slice lines start stop = drop start (take stop lines)

-- `[line.rstrip() for line in unified.split("\n")]`
unfoldable pub stripped_lines : Text → List Text
stripped_lines text = map rstrip (split_lines (normalize_newlines text))

unfoldable pub canonicalize : Text → Text
unfolding stripped_lines blank_prefix trim_end
canonicalize text =
    let lines = stripped_lines text in
    let start = blank_prefix lines in
    join_lines (slice lines start (trim_end lines start (length lines)))

module _ (sha256_hex : Text → Text) where
  unfoldable pub content_hash : Text → Text
  content_hash text = take hash_hex_len (sha256_hex (canonicalize text))
