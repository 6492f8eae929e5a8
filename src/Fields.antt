-- ===== src/Fields.antt =====
-- The validators of the frontmatter fields in model.py.
pub mod Accepted
use doc_lattice.Prelude.{
  ℕ, zero, suc, ◌-◌, not, Option, none, some, [], ◌∷◌, length, if◌then◌else◌, ◌==◌, nat_eq, list_eq,
  option_eq, contains,
}
use doc_lattice.Text.{Text, first_control_index, line_feed}
use doc_lattice.Model.{hash_sign}
use doc_lattice.Result.{ok, err, ◌>>=◌, or_raise}
use doc_lattice.Errors.{
  Outcome, Fix, remove_it, drop_last_break, fold_lines, control_character, hash_in_id, value_error,
}

-- `value[index]`
unfoldable pub char_at : ℕ → Text → Option ℕ
char_at index [] = none
char_at zero (c ∷ rest) = some c
char_at (suc index) (c ∷ rest) = char_at index rest

-- The branches on `value[index]` of _reject_control_chars.
unfoldable pub fix_of : ℕ → ℕ → ℕ → Fix
fix_of char index size =
    if not (char == line_feed)
    then remove_it
    else if index == size - 1
    then drop_last_break
    else fold_lines

-- _reject_control_chars
unfoldable pub reject_control_chars : Text → Outcome Text
unfolding char_at fix_of
reject_control_chars value = elim (first_control_index value) [
  | none ↦ ok value
  | some index ↦ (do
    char ← or_raise value_error (char_at index value)
    err (control_character char index (fix_of char index (length value))))
]

-- NodeMeta._id_has_no_hash
unfoldable pub id_has_no_hash : Text → Outcome Text
id_has_no_hash value = if contains value hash_sign then err (hash_in_id value) else ok value
