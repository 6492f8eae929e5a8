-- ===== src/Lint/Ladder.antt =====
-- When lint_lattice finds no violation of the authority ladder.
use doc_lattice.Prelude.{
  ◌≤◌, ◌≡◌, ◌↔◌, inl, inr, refl, sym, ap, ◌∙◌, subst, Option, none, some, List, [], ◌∷◌, ◌++◌, Memᴰ,
  arith, ltb, Bool-cases, Option-cases, nat_eq, list_eq, option_eq,
}
use mathlib.Core.List.Memᴰ
use doc_lattice.Text.{Text}
use doc_lattice.Sorting.{sorted, sorted-mem}
use doc_lattice.Dict.{keys, get}
use doc_lattice.Dict.Laws.{has_iff, get-has}
use doc_lattice.Model.{TargetId, target_eq, Authority, Node, Edge, Lattice}
use doc_lattice.Result.{ok, or_raise, >>=-eq-ok}
use doc_lattice.Errors.{key_error}
use doc_lattice.Lint.{
  LintResult, Findings, rank, target_authority, judge, lint_edge, lint_edges, lint_nodes,
  lint_lattice,
}
use doc_lattice.Check.{ambiguous_edges}

module _ (lattice : Lattice) where
  -- An edge that keeps to the ladder: its target ranks at least as high as its source, where both
  -- are annotated.
  abbrev pub KeepsLadder : Option Authority → Edge → Type 0
  KeepsLadder source edge =
      (t : TargetId) (a b : Authority)
      → edge.target_id ≡ some t
      → source ≡ some a
      → target_authority lattice t ≡ ok (some b)
      → rank a ≤ rank b

  -- A list of violations is empty exactly where the property holds.
  abbrev Empties : Findings → Type 0 → Type 0
  Empties found P = (found.0 ≡ []) ↔ P

  judge-Empties :
      (node_id : Text) (edge : Edge) (t : TargetId) (source target : Option Authority)
      → Empties
          (judge lattice node_id edge t source target)
          ((a b : Authority) → source ≡ some a → target ≡ some b → rank a ≤ rank b)
  unfolding judge
  judge-Empties node_id edge t none target = (λ _ a b p q. cc, λ _. refl)
  judge-Empties node_id edge t (some s) none = (λ _ a b p q. cc, λ _. refl)
  judge-Empties node_id edge t (some s) (some r) = elim (Bool-cases (ltb (rank r) (rank s))) [
    | inl inverted ↦
        (λ quiet a b p q. ground arith, λ keeps. (let bound = keeps s r refl refl in ground arith))
    | inr upright ↦ (
      λ quiet a b p q.
          (let same = some_eq s a p in
            let same' = some_eq r b q in
            subst (λ x. rank x ≤ rank b) same (subst (λ y. rank s ≤ rank y) same' (ground arith))),
      λ keeps. rw upright refl,
    )
  ]
    where
      some_eq : (a b : Authority) → ◌≡◌ {A = Option Authority} (some a) (some b) → a ≡ b
      some_eq a b p = cc

  lint_edge-Empties :
      (node_id : Text) (source : Option Authority) (edge : Edge) (found : Findings)
      → lint_edge lattice node_id source edge ≡ ok found
      → Empties found (KeepsLadder source edge)
  unfolding lint_edge
  lint_edge-Empties node_id source edge found e = elim (Option-cases edge.target_id) [
    | inl broken ↦ (λ _ t a b at_t. cc (broken, at_t), λ _. ground arith)
    | inr (t, at_t) ↦
        let (target, at_target, judged) = >>=-eq-ok (target_authority lattice t) _ (rw at_t at e) in
        let (sound, complete) = judge-Empties node_id edge t source target in
        let judged' : judge lattice node_id edge t source target ≡ found = cc (judged) in
        (
          λ quiet t' a b at_t' p q.
              sound (ap (λ (f : Findings). f.0) judged' ∙ quiet) a b p
                (cc (at_t, at_t', at_target, q)),
          λ keeps.
              ap (λ (f : Findings). f.0) (sym judged')
              ∙ complete (λ a b p q. keeps t a b at_t p (at_target ∙ ap ok q)),
        )
  ]

  append_nil : {A : Type 0} (xs ys : List A) → ((xs ++ ys) ≡ []) ↔ ((xs ≡ []) × (ys ≡ []))
  append_nil [] ys = (λ h. (refl, h), λ (_, h). h)
  append_nil (x ∷ xs) ys = (λ h. cc, λ (h, _). cc)

  lint_edges-Empties :
      (node_id : Text) (source : Option Authority) (edges : List Edge) (found : Findings)
      → lint_edges lattice node_id source edges ≡ ok found
      → Empties found ((e : Edge) → Memᴰ e edges → KeepsLadder source e)
  unfolding lint_edges
  lint_edges-Empties node_id source [] found e =
      (λ _ x m. absurd (Memᴰ.not-nil m), λ _. ground arith)
  lint_edges-Empties node_id source (edge ∷ edges) found e =
      let (first, e1, more) = >>=-eq-ok (lint_edge lattice node_id source edge) _ e in
      let (rest, e2, whole) = >>=-eq-ok (lint_edges lattice node_id source edges) _ more in
      let (sound1, complete1) = lint_edge-Empties node_id source edge first e1 in
      let (sound, complete) = lint_edges-Empties node_id source edges rest e2 in
      let parts : first.0 ++ rest.0 ≡ found.0 = ground arith in
      let (split, join) = append_nil first.0 rest.0 in
      (
        λ quiet x m. elim (Memᴰ.cases_cons m) [
          | inl here ↦ subst (KeepsLadder source) (sym here) (sound1 (split (parts ∙ quiet)).0)
          | inr later ↦ sound (split (parts ∙ quiet)).1 x later
        ],
        λ all.
            sym parts
            ∙ join (complete1 (all edge (Memᴰ.head refl)), complete (λ x m. all x (Memᴰ.tail m))),
      )

  abbrev NodesKeep : List Text → Type 0
  NodesKeep ids =
      (id : Text) (node : Node) (e : Edge)
      → Memᴰ id ids
      → get lattice.nodes_by_id id ≡ some node
      → Memᴰ e node.derives_from
      → KeepsLadder node.authority e

  or_raise_ok : {A : Type 0} (o : Option A) (a : A) → or_raise key_error o ≡ ok a → o ≡ some a
  or_raise_ok none a h = cc
  or_raise_ok (some b) a h = cc

  lint_nodes-Empties :
      (ids : List Text) (found : Findings)
      → lint_nodes lattice ids ≡ ok found
      → Empties found (NodesKeep ids)
  unfolding lint_nodes
  lint_nodes-Empties [] found e = (λ _ id node x m. absurd (Memᴰ.not-nil m), λ _. ground arith)
  lint_nodes-Empties (id ∷ ids) found e =
      let (node, at_id', e') = >>=-eq-ok (or_raise key_error (get lattice.nodes_by_id id)) _ e in
      let (here, e1, more) =
        >>=-eq-ok (lint_edges lattice id node.authority node.derives_from) _ e' in
      let (rest, e2, whole) = >>=-eq-ok (lint_nodes lattice ids) _ more in
      let (sound1, complete1) = lint_edges-Empties id node.authority node.derives_from here e1 in
      let (sound, complete) = lint_nodes-Empties ids rest e2 in
      let parts : here.0 ++ rest.0 ≡ found.0 = ground arith in
      let (split, join) = append_nil here.0 rest.0 in
      let at_id = or_raise_ok (get lattice.nodes_by_id id) node at_id' in
      (
        λ quiet j n x m at_j k. elim (Memᴰ.cases_cons m) [
          | inl same ↦
              keeps_at n node (cc (same, at_j, at_id)) x k
                (λ y l. sound1 (split (parts ∙ quiet)).0 y l)
          | inr later ↦ sound (split (parts ∙ quiet)).1 j n x later at_j k
        ],
        λ all.
            sym parts
            ∙ join (
              complete1 (λ x m. all id node x (Memᴰ.head refl) at_id m),
              complete (λ j n x m. all j n x (Memᴰ.tail m)),
            ),
      )
    where
      keeps_at :
          (n node : Node)
          → n ≡ node
          → (x : Edge) → Memᴰ x n.derives_from
          → ((y : Edge) → Memᴰ y node.derives_from → KeepsLadder node.authority y)
          → KeepsLadder n.authority x
      keeps_at n node same x k all =
          subst (λ (z : Node). ((y : Edge) → Memᴰ y z.derives_from → KeepsLadder z.authority y))
            (sym same) all x k

  -- Where lint_lattice returns, it reports no violation exactly when no edge of a node with an
  -- authority has a target whose owner has an authority of lower rank.
  pub lint_lattice-ladder :
      (result : LintResult)
      → lint_lattice lattice ≡ ok result
      → (result.violations ≡ []) ↔ (
          (id : Text) (node : Node) (e : Edge)
          → get lattice.nodes_by_id id ≡ some node
          → Memᴰ e node.derives_from
          → KeepsLadder node.authority e)
  unfolding lint_lattice
  lint_lattice-ladder result e =
      let ids = sorted (keys lattice.nodes_by_id) in
      let (found, e1, more) = >>=-eq-ok (lint_nodes lattice ids) _ e in
      let (ambiguous, e2, whole) = >>=-eq-ok (ambiguous_edges lattice) _ more in
      let (sound, complete) = lint_nodes-Empties ids found e1 in
      let parts : found.0 ≡ result.violations = ground arith in
      (
        λ quiet id node x at_id m.
            sound (parts ∙ quiet) id node x
              ((sorted-mem id _).1
                ((has_iff lattice.nodes_by_id id).0 (get-has lattice.nodes_by_id id node at_id)))
              at_id m,
        λ all. sym parts ∙ complete (λ id node x _ at_id m. all id node x at_id m),
      )
