-- ===== src/LinearQuery.antt =====
-- linear_query.py: which ticket refs are sent to Linear, and in which batches.
pub mod Identifiers
pub mod Refusals
pub mod Partition
pub mod Batches
use doc_lattice.Prelude.{
  ℕ, zero, suc, ◌+◌, ◌-◌, ◌*◌, Bool, false, not, ◌&&◌, ◌||◌, Option, none, some, List, [], ◌∷◌,
  ◌++◌, length, take, drop, ltb, leb, if◌then◌else◌, is_empty, ◌==◌, nat_eq, list_eq, option_eq,
  ◌*◌,
}
use doc_lattice.Text.{Text}
use doc_lattice.Dict.{Dict, put, get_or}
use doc_lattice.Sets.{union}
use doc_lattice.Sections.{skip_run}
use doc_lattice.Result.{◌>>=◌, ok, err, or_raise}
use doc_lattice.Errors.{Outcome, bad_team_key, too_many_tickets, value_error}
use doc_lattice.Tickets.{BlockedReason, malformed, cross_team}

abbrev pub batch_size : ℕ
batch_size = 50

abbrev pub max_identifiers : ℕ
max_identifiers = 500

abbrev pub dash : ℕ
dash = 45

-- `[A-Z]`
abbrev pub is_upper : ℕ → Bool
is_upper c = leb 65 c && leb c 90

-- `[0-9]`
abbrev pub is_digit : ℕ → Bool
is_digit c = leb 48 c && leb c 57

-- `[A-Z0-9]`
unfoldable pub is_team_char : ℕ → Bool
is_team_char c = is_upper c || is_digit c

-- is_valid_team_key, with `_TEAM_RE`: `[A-Z][A-Z0-9]*`.
unfoldable pub is_valid_team_key : Text → Bool
unfolding is_team_char skip_run
is_valid_team_key [] = false
is_valid_team_key (c ∷ rest) = is_upper c && is_empty (skip_run is_team_char rest)

-- `0|[1-9][0-9]*`
unfoldable pub is_issue_number : Text → Bool
unfolding skip_run
is_issue_number [] = false
is_issue_number (c ∷ rest) =
    c == 48 && is_empty rest || (leb 49 c && leb c 57) && is_empty (skip_run is_digit rest)

-- `_IDENTIFIER_RE`: `[A-Z][A-Z0-9]*-(0|[1-9][0-9]*)`.
unfoldable pub is_identifier : Text → Bool
unfolding is_team_char is_issue_number skip_run
is_identifier [] = false
is_identifier (c ∷ rest) = is_upper c && elim (skip_run is_team_char rest) [
  | [] ↦ false
  | d ∷ number ↦ d == dash && is_issue_number number
]

-- `identifier.split("-", 1)`: what stands before the first dash, and what stands behind it.
unfoldable pub split_dash : Text → Text × Option Text
split_dash [] = ([], none)
split_dash (c ∷ rest) =
    let (before, after) = split_dash rest in
    if c == dash then ([], some rest) else (c ∷ before, after)

-- The reason for which the loop of partition_identifiers refuses an identifier.
unfoldable pub refusal : Option Text → Text → Option BlockedReason
unfolding is_identifier split_dash
refusal linear_team identifier =
    if not (is_identifier identifier) then some malformed else elim linear_team [
      | none ↦ none
      | some team ↦ if not ((split_dash identifier).0 == team) then some cross_team else none
    ]

-- The loop of partition_identifiers.
unfoldable pub partition_from :
    Option Text
    → List Text
    → List Text
    → Dict Text BlockedReason
    → List Text × Dict Text BlockedReason
partition_from linear_team [] valid rejected = (valid, rejected)
partition_from linear_team (identifier ∷ rest) valid rejected =
    elim (refusal linear_team identifier) [
      | some reason ↦ partition_from linear_team rest valid (put rejected identifier reason)
      | none ↦ partition_from linear_team rest (valid ++ identifier ∷ []) rejected
    ]

-- `linear_team is not None and not is_valid_team_key(linear_team)`
unfoldable pub check_team : Option Text → Outcome (Option Text)
unfolding is_valid_team_key
check_team none = ok none
check_team (some team) = if is_valid_team_key team then ok (some team) else err (bad_team_key team)

-- partition_identifiers; `list(dict.fromkeys(identifiers))` is the union with nothing.
unfoldable pub partition_identifiers :
    List Text → Option Text → Outcome (List Text × Dict Text BlockedReason)
unfolding check_team partition_from union
partition_identifiers identifiers linear_team = do
  team ← check_team linear_team
  let unique = union [] identifiers
  (if ltb max_identifiers (length unique)
      then err (too_many_tickets (length unique))
      else ok (partition_from team unique [] []))

-- `int(text)` of a text of digits. A validated identifier has no other text behind its dash.
unfoldable pub int_from : ℕ → Text → Option ℕ
int_from value [] = some value
int_from value (c ∷ rest) =
    let more = int_from (value * 10 + (c - 48)) rest in if is_digit c then more else none

-- The loop of group_by_team.
unfoldable pub group_from : List Text → Dict Text (List ℕ) → Outcome (Dict Text (List ℕ))
unfolding split_dash int_from
group_from [] groups = ok groups
group_from (identifier ∷ rest) groups = do
  let team_key = (split_dash identifier).0
  issue_number ← or_raise value_error (split_dash identifier).1
  number ← or_raise value_error (int_from 0 issue_number)
  group_from rest (put groups team_key (get_or groups team_key [] ++ number ∷ []))

-- group_by_team
unfoldable pub group_by_team : List Text → Outcome (List (Text × List ℕ))
unfolding group_from
group_by_team identifiers = group_from identifiers []

-- `[list(numbers[i : i + size]) for i in range(0, len(numbers), size)]`, one slice a round.
unfoldable pub slices : ℕ → List ℕ → ℕ → List (List ℕ)
slices zero numbers size = []
slices (suc rounds) numbers size =
    let rest = slices rounds (drop size numbers) size in
    if is_empty numbers then [] else take size numbers ∷ rest

-- chunk_numbers; `range` refuses a step of 0.
unfoldable pub chunk_numbers : List ℕ → ℕ → Outcome (List (List ℕ))
unfolding slices
chunk_numbers numbers size =
    if size == 0 then err value_error else ok (slices (length numbers) numbers size)
