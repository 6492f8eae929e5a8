-- ===== src/Loader/Ancestors.antt =====
-- The ancestors that _record_ancestors finds, by the ends of the sections.
use doc_lattice.Prelude.{
  ℕ, ◌≤◌, ◌≡◌, ◌↔◌, ◌⊎◌, inl, inr, ⊎_elim, refl, sym, ap, ◌∙◌, subst, true, false, none, some, List,
  [], ◌∷◌, ◌++◌, Memᴰ, Memᴰ-append, arith, ltb, if◌then◌else◌, Bool-cases, ◌==◌, ==_iff, nat_eq,
  list_eq, option_eq,
}
use mathlib.Core.List.Memᴰ
use doc_lattice.Dict.{Dict, get, has, put}
use doc_lattice.Dict.Laws.{get-put, get-put_self, has-get}
use doc_lattice.Dict.Keys.{AllDistinct}
use doc_lattice.Model.{TargetId, target_eq}
use doc_lattice.Result.{ok}
use doc_lattice.Loader.{pop_below, stack_ids, record_ancestors}

-- The sections before one, the nearest first.
pub nearest_first : List TargetId → List TargetId → List TargetId
nearest_first [] behind = behind
nearest_first (t ∷ ts) behind = nearest_first ts (t ∷ behind)

module _ (spans : Dict TargetId (ℕ × ℕ)) where
  -- The last line of a section, and 0 for an unknown one.
  abbrev pub stop_of : TargetId → ℕ
  stop_of t = elim (get spans t) [ none ↦ 0 | some span ↦ span.1 ]

  -- Those that end at or past `limit` and past every nearer one, as the stack holds them.
  surviving : ℕ → List TargetId → List (ℕ × TargetId)
  surviving limit [] = []
  surviving limit (t ∷ behind) =
      let shadowed = surviving limit behind in
      let kept = (stop_of t, t) ∷ surviving (stop_of t) behind in
      if ltb (stop_of t) limit then shadowed else kept

  pop_below-surviving :
      (low high : ℕ) (behind : List TargetId)
      → low ≤ high
      → pop_below high (surviving low behind) ≡ surviving high behind
  unfolding pop_below surviving
  pop_below-surviving low high [] le = refl
  pop_below-surviving low high (t ∷ behind) le = elim (Bool-cases (ltb (stop_of t) low)) [
    | inl short ↦
        let shorter : ltb (stop_of t) high ≡ true = ground arith in
        rw (short, shorter) (pop_below-surviving low high behind le)
    | inr long ↦ elim (Bool-cases (ltb (stop_of t) high)) [
      | inl popped ↦ rw (long, popped) (pop_below-surviving (stop_of t) high behind (ground arith))
      | inr kept ↦ rw (long, kept) refl
    ]
  ]

  surviving-push :
      (t : TargetId) (behind : List TargetId)
      → surviving 0 (t ∷ behind) ≡ (stop_of t, t) ∷ surviving (stop_of t) behind
  unfolding surviving
  surviving-push t behind =
      (let long : ltb (stop_of t) 0 ≡ false = ground arith in rw (surviving, long) refl)

  -- The section stands behind sections that do not end past it, and it does not end before `limit`.
  abbrev pub Outlasts : ℕ → List TargetId → TargetId → Type 0
  Outlasts limit behind s =
      (nearer further : List TargetId) × (behind ≡ nearer ++ s ∷ further)
      × (limit ≤ stop_of s)
      × ((x : TargetId) → Memᴰ x nearer → stop_of x ≤ stop_of s)

  ids-cons :
      (s : TargetId) (k : ℕ) (t : TargetId) (stack : List (ℕ × TargetId))
      → Memᴰ s (stack_ids ((k, t) ∷ stack)) ↔ ((s ≡ t) ⊎ Memᴰ s (stack_ids stack))
  unfolding stack_ids
  ids-cons s k t stack = (
    λ m. elim ((Memᴰ-append s (stack_ids stack) (t ∷ [])).0 m) [
      | inl old ↦ inr old
      | inr new ↦ inl (Memᴰ.eq_of_singleton new)
    ],
    ⊎_elim (λ e. Memᴰ.append_right (stack_ids stack) (Memᴰ.head e))
        (λ m. Memᴰ.append_left (t ∷ []) m),
  )

  surviving-mem :
      (limit : ℕ) (behind : List TargetId) (s : TargetId)
      → Memᴰ s (stack_ids (surviving limit behind)) ↔ Outlasts limit behind s
  unfolding surviving stack_ids
  surviving-mem limit [] s = (
    λ m. absurd (Memᴰ.not-nil m),
    λ (nearer, further, split, _, _). absurd (no_split nearer further split),
  )
    where
      no_split : (nearer further : List TargetId) → ¬ ([] ≡ nearer ++ s ∷ further)
      no_split [] further e = cc
      no_split (x ∷ nearer) further e = cc
  surviving-mem limit (t ∷ behind) s = elim (Bool-cases (ltb (stop_of t) limit)) [
    | inl short ↦ rw short (
        let (to, from) = surviving-mem limit behind s in
        (
          λ m.
              (let (nearer, further, split, le, all) = to m in
                (
                  t ∷ nearer,
                  further,
                  ap (t ∷◌) split,
                  le,
                  λ x k. elim (Memᴰ.cases_cons k) [
                    | inl here ↦ (let same = ap stop_of here in ground arith)
                    | inr later ↦ all x later
                  ],
                )),
          λ o. elim (front limit o) [
            | inl (same, le) ↦ absurd (let e = ap stop_of same in ground arith)
            | inr (rest, le) ↦ from rest
          ],
        ))
    | inr long ↦ rw long (
        let (to, from) = surviving-mem (stop_of t) behind s in
        (
          λ m. elim ((ids-cons s (stop_of t) t (surviving (stop_of t) behind)).0 m) [
            | inl same ↦ (
              [],
              behind,
              ap (λ x. x ∷ behind) (sym same),
              (let e = ap stop_of same in ground arith),
              λ x k. absurd (Memᴰ.not-nil k),
            )
            | inr older ↦
                (let (nearer, further, split, le, all) = to older in
                  (
                    t ∷ nearer,
                    further,
                    ap (t ∷◌) split,
                    ground arith,
                    λ x k. elim (Memᴰ.cases_cons k) [
                      | inl here ↦ (let same = ap stop_of here in omega arith)
                      | inr later ↦ all x later
                    ],
                  ))
          ],
          λ o. (ids-cons s (stop_of t) t (surviving (stop_of t) behind)).1 (elim (front limit o) [
            | inl (same, le) ↦ inl same
            | inr (rest, (nearer, further, split, le, all)) ↦
                inr (from (nearer, further, split, le, all))
          ]),
        ))
  ]
    where
      front :
          (limit : ℕ)
          → Outlasts limit (t ∷ behind) s
          → ((s ≡ t) × (limit ≤ stop_of s))
            ⊎ (Outlasts limit behind s × Outlasts (stop_of t) behind s)
      front limit ([], further, split, le, all) = inl (cc (split), le)
      front limit (x ∷ nearer, further, split, le, all) =
          let same : t ≡ x = cc (split) in
          let rest : behind ≡ nearer ++ s ∷ further = cc (split) in
          let bound = subst (λ y. stop_of y ≤ stop_of s) (sym same) (all x (Memᴰ.head refl)) in
          inr (
            (nearer, further, rest, le, λ y k. all y (Memᴰ.tail k)),
            (nearer, further, rest, bound, λ y k. all y (Memᴰ.tail k)),
          )

  -- What the loop writes for the sections still to come, behind those that it has seen.
  abbrev Records :
      List TargetId
      → List TargetId
      → Dict TargetId (List TargetId)
      → Dict TargetId (List TargetId)
      → Type 0
  Records behind todo before after =
      ((front back : List TargetId) (t : TargetId)
        → todo ≡ front ++ t ∷ back
        → get after t ≡ some (stack_ids (surviving (stop_of t) (nearest_first front behind))))
      × ((t : TargetId) → ¬ Memᴰ t todo → get after t ≡ get before t)

  record_ancestors-Records :
      (behind todo : List TargetId) (before : Dict TargetId (List TargetId))
      → AllDistinct todo
      → ((t : TargetId) → Memᴰ t todo → has spans t ≡ true)
      → (after : Dict TargetId (List TargetId)) × (record_ancestors todo spans
            (surviving 0 behind)
            before
          ≡ ok after)
        × Records behind todo before after
  unfolding record_ancestors nearest_first surviving
  record_ancestors-Records behind [] before distinct known =
      (before, refl, ((λ front back t split. absurd (no_split front back t split)), λ t n. refl))
    where
      no_split : (front back : List TargetId) (t : TargetId) → ¬ ([] ≡ front ++ t ∷ back)
      no_split [] back t e = cc
      no_split (x ∷ front) back t e = cc
  record_ancestors-Records behind (a ∷ todo) before (new, distinct) known =
      let (span, at_a) = has-get spans a (known a (Memᴰ.head refl)) in
      let ids = stack_ids (surviving (stop_of a) behind) in
      let (after, e, (records, keeps)) =
        record_ancestors-Records (a ∷ behind) todo (put before a ids) distinct
          (λ t m. known t (Memᴰ.tail m)) in
      let stop : stop_of a ≡ span.1 = rw (stop_of, at_a) refl in
      let popped : pop_below span.1 (surviving 0 behind) ≡ surviving span.1 behind =
        pop_below-surviving 0 span.1 behind (omega arith) in
      (
        after,
        rw (at_a, popped)
            (subst
              (λ k.
                record_ancestors todo spans ((k, a) ∷ surviving k behind)
                  (put before a (stack_ids (surviving k behind)))
                ≡ ok after)
              stop
              (subst (λ stack. record_ancestors todo spans stack (put before a ids) ≡ ok after)
                (surviving-push a behind) e)),
        (
          (λ front back t split. by_front front back t split after records keeps),
          λ t n.
              keeps t (λ m. n (Memᴰ.tail m))
              ∙ get-put before a t ids
              ∙ ap (λ b. if b then some ids else get before t) (apart t n),
        ),
      )
    where
      apart : (t : TargetId) → ¬ Memᴰ t (a ∷ todo) → (a == t) ≡ false
      apart t n = elim (Bool-cases (a == t)) [
        | inl same ↦ absurd (n (Memᴰ.head (sym ((==_iff a t).0 same))))
        | inr other ↦ other
      ]

      by_front :
          (front back : List TargetId) (t : TargetId)
          → a ∷ todo ≡ front ++ t ∷ back
          → (after : Dict TargetId (List TargetId))
          → ((front back : List TargetId) (t : TargetId)
              → todo ≡ front ++ t ∷ back
              → get after t
                ≡ some (stack_ids (surviving (stop_of t) (nearest_first front (a ∷ behind)))))
          → ((t : TargetId)
              → ¬ Memᴰ t todo
              → get after t ≡ get (put before a (stack_ids (surviving (stop_of a) behind))) t)
          → get after t ≡ some (stack_ids (surviving (stop_of t) (nearest_first front behind)))
      by_front [] back t split after records keeps =
          let same : a ≡ t = cc (split) in
          subst (λ x. get after x ≡ some (stack_ids (surviving (stop_of x) behind))) same
            (keeps a new ∙ get-put_self before a (stack_ids (surviving (stop_of a) behind)))
      by_front (x ∷ front) back t split after records keeps =
          let same : a ≡ x = cc (split) in
          let rest : todo ≡ front ++ t ∷ back = cc (split) in
          subst
            (λ y.
              get after t
              ≡ some (stack_ids (surviving (stop_of t) (nearest_first front (y ∷ behind)))))
            same (records front back t rest)

  -- For distinct sections that all have a span, _record_ancestors returns. It records for each section
  -- those before it that end no earlier than it, and no earlier than any section between the two.
  pub record_ancestors_exact :
      (anchored : List TargetId) (before : Dict TargetId (List TargetId))
      → AllDistinct anchored
      → ((t : TargetId) → Memᴰ t anchored → has spans t ≡ true)
      → (after : Dict TargetId (List TargetId)) × (record_ancestors anchored spans [] before
          ≡ ok after)
        × ((front back : List TargetId) (t : TargetId)
            → anchored ≡ front ++ t ∷ back
            → (ids : List TargetId) × (get after t ≡ some ids)
              × ((s : TargetId) → Memᴰ s ids ↔ Outlasts (stop_of t) (nearest_first front []) s))
  unfolding surviving
  record_ancestors_exact anchored before distinct known =
      let (after, e, (records, _)) = record_ancestors-Records [] anchored before distinct known in
      (
        after,
        e,
        λ front back t split.
            (_, records front back t split, surviving-mem (stop_of t) (nearest_first front [])),
      )
