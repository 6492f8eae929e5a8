-- ===== src/LinkSelectors/Closure.antt =====
-- _recursive_closure: its rounds, and the positions that it adds.
use doc_lattice.Prelude.{
  ℕ, zero, suc, ◌+◌, ◌≤◌, ◌<◌, ◌≡◌, ◌⊎◌, inl, inr, refl, sym, ap, subst, Bool, true, false, not,
  ◌||◌, some, List, [], ◌∷◌, Memᴰ, length, arith, leb, if◌then◌else◌, Bool-cases, ==_iff, nat_eq,
  list_eq, option_eq, contains, contains_iff,
}
use mathlib.Core.List.Memᴰ
use doc_lattice.Text.{Text}
use doc_lattice.LinkSelectors.{is_recursive, last_position, closure_loop, recursive_closure}

-- How many positions below a bound are not in the list.
abbrev missing : ℕ → List ℕ → ℕ
missing zero closed = 0
missing (suc bound) closed = (if contains closed bound then 0 else 1) + missing bound closed

missing-cons-le :
    (bound : ℕ) (x : ℕ) (closed : List ℕ) → missing bound (x ∷ closed) ≤ missing bound closed
unfolding contains
missing-cons-le zero x closed = omega arith
missing-cons-le (suc bound) x closed = ground (arith, missing-cons-le bound x closed)

missing-cons-lt :
    (bound : ℕ) (x : ℕ) (closed : List ℕ)
    → x < bound
    → contains closed x ≡ false
    → missing bound (x ∷ closed) < missing bound closed
unfolding contains
missing-cons-lt zero x closed below new = elim below [ ]
missing-cons-lt (suc bound) x closed below new =
    ground (arith, ==_iff x bound, missing-cons-lt bound x closed, missing-cons-le bound x closed)

missing-le : (bound : ℕ) (closed : List ℕ) → missing bound closed ≤ bound
missing-le zero closed = omega arith
missing-le (suc bound) closed = ground (arith, missing-le bound closed)

module _ (segments : List Text) where
  -- From one position to the next, past a `**` that is not the last segment.
  abbrev pub Passes : ℕ → Type 0
  Passes i = (is_recursive segments i ≡ true) × (i < last_position segments)

  -- The positions that passing reaches from a list.
  pub data Reached (from : List ℕ) : ℕ → Type 0 where
    start : {i : ℕ} → Memᴰ i from → Reached from i
    pass : {i : ℕ} → Reached from i → Passes i → Reached from (i + 1)

  -- What the loop keeps: what is closed is reached, and a closed position that is not pending has its successor.
  record Closing (from closed pending : List ℕ) : Type 0 where
    reached : (i : ℕ) → Memᴰ i closed → Reached from i
    includes : (i : ℕ) → Memᴰ i from → Memᴰ i closed
    waits : (i : ℕ) → Memᴰ i pending → Memᴰ i closed
    followed : (i : ℕ) → Memᴰ i closed → Passes i → Memᴰ i pending ⊎ Memᴰ (i + 1) closed

  -- What the result has.
  pub record Closed (from closed : List ℕ) : Type 0 where
    pub reached : (i : ℕ) → Memᴰ i closed → Reached from i
    pub includes : (i : ℕ) → Memᴰ i from → Memᴰ i closed
    pub followed : (i : ℕ) → Memᴰ i closed → Passes i → Memᴰ (i + 1) closed

  pop_done :
      (from closed pending : List ℕ) (i : ℕ)
      → Closing from closed (i ∷ pending)
      → (Passes i → Memᴰ (i + 1) closed)
      → Closing from closed pending
  pop_done from closed pending i c next = record {
    reached = c.reached;
    includes = c.includes;
    waits = λ j m. c.waits j (Memᴰ.tail m);
    followed = λ j m passes. elim (c.followed j m passes) [
      | inl waiting ↦ elim (Memᴰ.cases_cons waiting) [
        | inl is ↦ inr (subst (λ k. Memᴰ (k + 1) closed) (sym is) (next (subst Passes is passes)))
        | inr later ↦ inl later
      ]
      | inr there ↦ inr there
    ];
  }

  push :
      (from closed pending : List ℕ) (i : ℕ)
      → Closing from closed (i ∷ pending)
      → Passes i
      → Closing from ((i + 1) ∷ closed) ((i + 1) ∷ pending)
  push from closed pending i c passes = record {
    reached = λ j m. elim (Memᴰ.cases_cons m) [
      | inl is ↦
          subst (Reached from) (sym is) (pass (c.reached i (c.waits i (Memᴰ.head refl))) passes)
      | inr later ↦ c.reached j later
    ];
    includes = λ j m. Memᴰ.tail (c.includes j m);
    waits = λ j m. elim (Memᴰ.cases_cons m) [
      | inl is ↦ Memᴰ.head is
      | inr later ↦ Memᴰ.tail (c.waits j (Memᴰ.tail later))
    ];
    followed = λ j m passes'. elim (Memᴰ.cases_cons m) [
      | inl is ↦ inl (Memᴰ.head is)
      | inr later ↦ elim (c.followed j later passes') [
        | inl waiting ↦ elim (Memᴰ.cases_cons waiting) [
          | inl is ↦ inr (Memᴰ.head (ap (λ k. k + 1) is))
          | inr waits_still ↦ inl (Memᴰ.tail waits_still)
        ]
        | inr there ↦ inr (Memᴰ.tail there)
      ]
    ];
  }

  closure_loop-Closed :
      (fuel : ℕ) (from closed pending : List ℕ)
      → Closing from closed pending
      → length pending + missing (length segments) closed < fuel
      → (out : List ℕ) × (closure_loop fuel segments closed pending ≡ some out) × Closed from out
  unfolding closure_loop
  closure_loop-Closed zero from closed pending c enough = elim enough [ ]
  closure_loop-Closed (suc fuel) from closed [] c enough = (
    closed,
    refl,
    record {
      reached = c.reached;
      includes = c.includes;
      followed = λ j m passes. elim (c.followed j m passes) [
        | inl none_left ↦ absurd (Memᴰ.not-nil none_left)
        | inr there ↦ there
      ];
    },
  )
  closure_loop-Closed (suc fuel) from closed (i ∷ pending) c enough = elim (Bool-cases stops) [
    | inl stop ↦
        rw (stop, if◌then◌else◌)
          (closure_loop-Closed fuel from closed pending
            (pop_done from closed pending i c λ passes. absurd (blocked stop passes)) (omega arith))
    | inr goes ↦ elim (Bool-cases (contains closed (i + 1))) [
      | inl known ↦
          rw (goes, known, if◌then◌else◌)
            (closure_loop-Closed fuel from closed pending
              (pop_done from closed pending i c λ _. (contains_iff closed (i + 1)).0 known)
              (omega arith))
      | inr new ↦
          rw (goes, new, if◌then◌else◌)
            (closure_loop-Closed fuel from ((i + 1) ∷ closed) ((i + 1) ∷ pending)
              (push from closed pending i c (unblocked goes))
              (omega (
                arith,
                missing-cons-lt (length segments) (i + 1) closed (in_range (unblocked goes).1) new,
              )))
    ]
  ]
    where
      stops : Bool
      stops = not (is_recursive segments i) || leb (last_position segments) i

      blocked : stops ≡ true → Passes i → ⊥
      blocked stop passes = ground arith

      unblocked : stops ≡ false → Passes i
      unblocked goes = (ground arith, ground arith)

      in_range : i < last_position segments → i + 1 < length segments
      in_range below = omega arith

  pub recursive_closure-Closed :
      (positions : List ℕ)
      → (out : List ℕ) × (recursive_closure positions segments ≡ some out) × Closed positions out
  unfolding recursive_closure
  recursive_closure-Closed positions =
      closure_loop-Closed (length positions + length segments + 1) positions positions positions
        (record {
          reached = λ i m. start m;
          includes = λ i m. m;
          waits = λ i m. m;
          followed = λ i m passes. inl m;
        })
        (omega (arith, missing-le (length segments) positions))
