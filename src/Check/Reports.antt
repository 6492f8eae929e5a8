-- ===== src/Check/Reports.antt =====
-- The reports beside check_lattice: ambiguous_edges and the summary.
use doc_lattice.Prelude.{
  ℕ, ◌+◌, ◌≤◌, ◌≡◌, ◌↔◌, refl, sym, ap, ◌∙◌, Bool, true, false, List, [], ◌∷◌, ◌++◌, length, arith,
  if◌then◌else◌, nat_eq, list_eq, option_eq,
}
use doc_lattice.Text.{Text}
use doc_lattice.Dict.{get}
use doc_lattice.Model.{target_eq, Edge, Lattice}
use doc_lattice.Result.{ok, or_raise, >>=-eq-ok}
use doc_lattice.Errors.{key_error}
use doc_lattice.Check.{
  EdgeState, in_sync, stale, unreconciled, broken, ambiguous, EdgeStatus, ambiguous_status,
  compare_seen, check_lattice, is_ambiguous, has_drift, ambiguous_of, ambiguous_nodes,
  ambiguous_edges, Summary, count_state, no_statuses, summarize_from, summarize_statuses,
}
use doc_lattice.Check.Caching.{
  fresh_status, fresh_edges, fresh_nodes, fresh_check, check_lattice-eq-fresh_check,
}

-- The statuses that are AMBIGUOUS, in their order.
unfoldable pub only_ambiguous : List EdgeStatus → List EdgeStatus
only_ambiguous [] = []
only_ambiguous (s ∷ statuses) =
    let rest = only_ambiguous statuses in if is_ambiguous s.state then s ∷ rest else rest

only_ambiguous-append :
    (xs ys : List EdgeStatus) → only_ambiguous (xs ++ ys) ≡ only_ambiguous xs ++ only_ambiguous ys
unfolding only_ambiguous
only_ambiguous-append [] ys = refl
only_ambiguous-append (x ∷ xs) ys = ground (arith, only_ambiguous-append xs ys)

module _ (sha256_hex : Text → Text) (lattice : Lattice) where
  ambiguous_of-cons :
      (id : Text) (edge : Edge) (edges : List Edge) (s : EdgeStatus)
      → fresh_status sha256_hex lattice id edge ≡ ok s
      → ambiguous_of lattice id (edge ∷ edges)
        ≡ only_ambiguous (s ∷ []) ++ ambiguous_of lattice id edges
  unfolding ambiguous_of only_ambiguous fresh_status compare_seen ambiguous_status
  ambiguous_of-cons id edge edges s e = ground arith

  ambiguous_of-eq :
      (id : Text) (edges : List Edge) (statuses : List EdgeStatus)
      → fresh_edges sha256_hex lattice id edges ≡ ok statuses
      → ambiguous_of lattice id edges ≡ only_ambiguous statuses
  unfolding fresh_edges
  ambiguous_of-eq id [] statuses e = unfold ambiguous_of only_ambiguous in ground arith
  ambiguous_of-eq id (edge ∷ edges) statuses e =
      let (first, e1, more) = >>=-eq-ok (fresh_status sha256_hex lattice id edge) _ e in
      let (rest, e2, whole) = >>=-eq-ok (fresh_edges sha256_hex lattice id edges) _ more in
      let whole' : first ∷ rest ≡ statuses = cc (whole) in
      ambiguous_of-cons id edge edges first e1
      ∙ ap (λ r. only_ambiguous (first ∷ []) ++ r) (ambiguous_of-eq id edges rest e2)
      ∙ sym (only_ambiguous-append (first ∷ []) rest)
      ∙ ap only_ambiguous whole'

  ambiguous_nodes-eq :
      (ids : List Text) (statuses : List EdgeStatus)
      → fresh_nodes sha256_hex lattice ids ≡ ok statuses
      → ambiguous_nodes lattice ids ≡ ok (only_ambiguous statuses)
  unfolding fresh_nodes ambiguous_nodes
  ambiguous_nodes-eq [] statuses e = unfold only_ambiguous in ground arith
  ambiguous_nodes-eq (id ∷ ids) statuses e =
      let (node, found, e') = >>=-eq-ok (or_raise key_error (get lattice.nodes_by_id id)) _ e in
      let (here, e1, more) = >>=-eq-ok (fresh_edges sha256_hex lattice id node.derives_from) _ e' in
      let (rest, e2, whole) = >>=-eq-ok (fresh_nodes sha256_hex lattice ids) _ more in
      let whole' : here ++ rest ≡ statuses = cc (whole) in
      rw (found, ambiguous_nodes-eq ids rest e2, ambiguous_of-eq id node.derives_from here e1)
        (ap ok (sym (only_ambiguous-append here rest) ∙ ap only_ambiguous whole'))

  -- Where check_lattice returns, ambiguous_edges returns exactly its AMBIGUOUS records, in its order,
  -- though it hashes nothing.
  pub ambiguous_edges-eq-only_ambiguous :
      (statuses : List EdgeStatus)
      → check_lattice sha256_hex lattice ≡ ok statuses
      → ambiguous_edges lattice ≡ ok (only_ambiguous statuses)
  unfolding fresh_check ambiguous_edges
  ambiguous_edges-eq-only_ambiguous statuses e =
      ambiguous_nodes-eq _ statuses (sym (check_lattice-eq-fresh_check sha256_hex lattice) ∙ e)

-- The entry of the summary for one state.
abbrev pub count_of : EdgeState → Summary → ℕ
count_of in_sync s = s.in_sync_count
count_of stale s = s.stale_count
count_of unreconciled s = s.unreconciled_count
count_of broken s = s.broken_count
count_of ambiguous s = s.ambiguous_count

abbrev pub same_state : EdgeState → EdgeState → Bool
same_state in_sync in_sync = true
same_state stale stale = true
same_state unreconciled unreconciled = true
same_state broken broken = true
same_state ambiguous ambiguous = true
same_state _ _ = false

-- How many statuses have the state.
unfoldable pub occurrences : EdgeState → List EdgeStatus → ℕ
occurrences kind [] = 0
occurrences kind (s ∷ statuses) =
    (if same_state kind s.state then 1 else 0) + occurrences kind statuses

count_state-count_of :
    (kind now : EdgeState) (s : Summary)
    → count_of kind (count_state now s) ≡ (if same_state kind now then 1 else 0) + count_of kind s
unfolding count_state
count_state-count_of in_sync now s = ground arith
count_state-count_of stale now s = ground arith
count_state-count_of unreconciled now s = ground arith
count_state-count_of broken now s = ground arith
count_state-count_of ambiguous now s = ground arith

summarize_from-count_of :
    (kind : EdgeState) (statuses : List EdgeStatus) (s : Summary)
    → count_of kind (summarize_from s statuses) ≡ count_of kind s + occurrences kind statuses
unfolding summarize_from occurrences
summarize_from-count_of kind [] s = omega arith
summarize_from-count_of kind (x ∷ statuses) s = omega (
  arith,
  summarize_from-count_of kind statuses (count_state x.state s),
  count_state-count_of kind x.state s,
)

no_statuses-count_of : (state : EdgeState) → count_of state no_statuses ≡ 0
no_statuses-count_of in_sync = refl
no_statuses-count_of stale = refl
no_statuses-count_of unreconciled = refl
no_statuses-count_of broken = refl
no_statuses-count_of ambiguous = refl

-- The summary has for every state the number of statuses in that state.
pub summarize_statuses-count_of :
    (kind : EdgeState) (statuses : List EdgeStatus)
    → count_of kind (summarize_statuses statuses) ≡ occurrences kind statuses
unfolding summarize_statuses
summarize_statuses-count_of kind statuses =
    omega (arith, summarize_from-count_of kind statuses no_statuses, no_statuses-count_of kind)

has_drift-occurrences :
    (statuses : List EdgeStatus)
    → (occurrences in_sync statuses ≤ length statuses)
      × ((has_drift statuses ≡ false) ↔ (occurrences in_sync statuses ≡ length statuses))
unfolding has_drift occurrences
has_drift-occurrences [] = (omega arith, (λ _. refl, λ _. refl))
has_drift-occurrences (s ∷ statuses) = ground (arith, has_drift-occurrences statuses)

-- has_drift is false exactly when the summary counts every status as OK.
pub has_drift-summarize_statuses :
    (statuses : List EdgeStatus)
    → (has_drift statuses ≡ false) ↔ ((summarize_statuses statuses).in_sync_count ≡ length statuses)
has_drift-summarize_statuses statuses =
    let (to, from) = (has_drift-occurrences statuses).1 in
    (
      λ quiet. summarize_statuses-count_of in_sync statuses ∙ to quiet,
      λ all. from (sym (summarize_statuses-count_of in_sync statuses) ∙ all),
    )
