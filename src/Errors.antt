-- ===== src/Errors.antt =====
-- error_types.py: the exceptions of the modelled functions, and Python's KeyError and ValueError. A message is kept
-- as the values that it is built from.
use doc_lattice.Prelude.{ℕ, nat_eq, list_eq, option_eq}
use doc_lattice.Text.{Text}
use doc_lattice.Model.{TargetId, DocumentOrigin}
use doc_lattice.Result

-- The `where` text of loader._register: `file …` or `anchor … in …`.
pub data Site : Type 0 where
  file_site : DocumentOrigin → Site
  anchor_site : TargetId → DocumentOrigin → Site

-- The advice of model._reject_control_chars.
pub data Fix : Type 0 where
  remove_it drop_last_break fold_lines : Fix

pub data Error : Type 0 where
  duplicate_id : TargetId → Site → Site → Error
  unknown_id : TargetId → Error
  no_owner : Text → Error
  unknown_target : Text → Error
  control_character : ℕ → ℕ → Fix → Error
  hash_in_id : Text → Error
  bad_team_key : Text → Error
  too_many_tickets : ℕ → Error
  key_error : Error
  value_error : Error
  -- the model's own: a loop was given too few rounds
  out_of_fuel : Error

abbrev pub Outcome : Type 0 → Type 0
Outcome = Result.Result Error
