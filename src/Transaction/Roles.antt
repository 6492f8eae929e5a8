-- ===== src/Transaction/Roles.antt =====
-- What _validate_path_roles and the name checks say of the paths of a journal.
use doc_lattice.Prelude.{
  ◌≡◌, ◌≢◌, ◌⊎◌, inl, inr, refl, sym, ap, ◌∙◌, subst, List, [], ◌∷◌, Memᴰ, arith, if◌then◌else◌,
  Bool-cases, ◌==◌, ==_iff, nat_eq, list_eq, option_eq, contains, contains_iff,
}
use mathlib.Core.List.Memᴰ
use doc_lattice.Dict.Keys.{AllDistinct}
use doc_lattice.Disk.{FilePath}
use doc_lattice.Transaction.{Entry, check_destinations, check_artifacts}

abbrev pub destinations : List Entry → List FilePath
destinations [] = []
destinations (e ∷ entries) = e.destination ∷ destinations entries

-- What the first loop has checked when it returns.
pub record Checked (journal : FilePath) (paths seen out : List FilePath) : Type 0 where
  pub no_journal : (p : FilePath) → Memᴰ p paths → p ≢ journal
  pub unseen : (p : FilePath) → Memᴰ p paths → ¬ (Memᴰ p seen)
  pub distinct : AllDistinct paths
  pub collected : (p : FilePath) → Memᴰ p paths ⊎ Memᴰ p seen → Memᴰ p out

pub check_destinations-Checked :
    (journal : FilePath) (entries : List Entry) (seen out : List FilePath)
    → check_destinations journal entries seen ≡ inr out
    → Checked journal (destinations entries) seen out
unfolding check_destinations
check_destinations-Checked journal [] seen out h = record {
  no_journal = λ p m. absurd (Memᴰ.not-nil m);
  unseen = λ p m. absurd (Memᴰ.not-nil m);
  distinct = tt;
  collected = λ p which. elim which [
    | inl m ↦ absurd (Memᴰ.not-nil m)
    | inr m ↦ subst (Memᴰ p) (ground arith) m
  ];
}
check_destinations-Checked journal (e ∷ entries) seen out h =
    elim (Bool-cases (e.destination == journal)) [
      | inl same ↦ absurd (ground arith)
      | inr not_journal ↦ elim (Bool-cases (contains seen e.destination)) [
        | inl known ↦ absurd (ground arith)
        | inr new ↦
            let rest =
              check_destinations-Checked journal entries (e.destination ∷ seen) out
                (rw (not_journal, new, if◌then◌else◌) at h) in
            record {
              no_journal = λ p m. elim (Memᴰ.cases_cons m) [
                | inl is ↦ λ j. cc ((==_iff e.destination journal).1 (sym is ∙ j))
                | inr later ↦ rest.no_journal p later
              ];
              unseen = λ p m s. elim (Memᴰ.cases_cons m) [
                | inl is ↦ cc ((contains_iff seen e.destination).1 (subst (λ q. Memᴰ q seen) is s))
                | inr later ↦ rest.unseen p later (Memᴰ.tail s)
              ];
              distinct = (λ m. rest.unseen e.destination m (Memᴰ.head refl), rest.distinct);
              collected = λ p which. rest.collected p (elim which [
                | inl m ↦ elim (Memᴰ.cases_cons m) [
                  | inl is ↦ inr (Memᴰ.head is)
                  | inr later ↦ inl later
                ]
                | inr s ↦ inr (Memᴰ.tail s)
              ]);
            }
      ]
    ]

-- What the second loop has checked when it returns.
pub record Separate (journal : FilePath) (taken paths seen : List FilePath) : Type 0 where
  pub no_journal : (p : FilePath) → Memᴰ p paths → p ≢ journal
  pub not_taken : (p : FilePath) → Memᴰ p paths → ¬ (Memᴰ p taken)
  pub unseen : (p : FilePath) → Memᴰ p paths → ¬ (Memᴰ p seen)
  pub distinct : AllDistinct paths

pub check_artifacts-Separate :
    (journal : FilePath) (taken paths seen out : List FilePath)
    → check_artifacts journal taken paths seen ≡ inr out
    → Separate journal taken paths seen
unfolding check_artifacts
check_artifacts-Separate journal taken [] seen out h = record {
  no_journal = λ p m. absurd (Memᴰ.not-nil m);
  not_taken = λ p m. absurd (Memᴰ.not-nil m);
  unseen = λ p m. absurd (Memᴰ.not-nil m);
  distinct = tt;
}
check_artifacts-Separate journal taken (a ∷ paths) seen out h = elim (Bool-cases (a == journal)) [
  | inl same ↦ absurd (ground arith)
  | inr not_journal ↦ elim (Bool-cases (contains taken a)) [
    | inl is_taken ↦ absurd (ground arith)
    | inr free ↦ elim (Bool-cases (contains seen a)) [
      | inl known ↦ absurd (ground arith)
      | inr new ↦
          let rest =
            check_artifacts-Separate journal taken paths (a ∷ seen) out
              (rw (not_journal, free, new, if◌then◌else◌) at h) in
          record {
            no_journal = λ p m. elim (Memᴰ.cases_cons m) [
              | inl is ↦ λ j. cc ((==_iff a journal).1 (sym is ∙ j))
              | inr later ↦ rest.no_journal p later
            ];
            not_taken = λ p m s. elim (Memᴰ.cases_cons m) [
              | inl is ↦ cc ((contains_iff taken a).1 (subst (λ q. Memᴰ q taken) is s))
              | inr later ↦ rest.not_taken p later s
            ];
            unseen = λ p m s. elim (Memᴰ.cases_cons m) [
              | inl is ↦ cc ((contains_iff seen a).1 (subst (λ q. Memᴰ q seen) is s))
              | inr later ↦ rest.unseen p later (Memᴰ.tail s)
            ];
            distinct = (λ m. rest.unseen a m (Memᴰ.head refl), rest.distinct);
          }
    ]
  ]
]

pub destinations-mem :
    (entries : List Entry) (e : Entry) → Memᴰ e entries → Memᴰ e.destination (destinations entries)
destinations-mem [] e m = absurd (Memᴰ.not-nil m)
destinations-mem (x ∷ entries) e m = elim (Memᴰ.cases_cons m) [
  | inl is ↦ Memᴰ.head (ap (λ (y : Entry). y.destination) is)
  | inr later ↦ Memᴰ.tail (destinations-mem entries e later)
]

pub destinations_injective :
    (entries : List Entry)
    → AllDistinct (destinations entries)
    → (e e' : Entry) → Memᴰ e entries
    → Memᴰ e' entries
    → e.destination ≡ e'.destination
    → e ≡ e'
destinations_injective [] distinct e e' m m' same = absurd (Memᴰ.not-nil m)
destinations_injective (x ∷ entries) distinct e e' m m' same = elim (Memᴰ.cases_cons m) [
  | inl is ↦ elim (Memᴰ.cases_cons m') [
    | inl is' ↦ is ∙ sym is'
    | inr later' ↦ absurd (
        distinct.0 (
          subst (λ p. Memᴰ p (destinations entries))
            (sym same ∙ ap (λ (y : Entry). y.destination) is) (destinations-mem entries e' later')))
  ]
  | inr later ↦ elim (Memᴰ.cases_cons m') [
    | inl is' ↦ absurd (
        distinct.0 (
          subst (λ p. Memᴰ p (destinations entries)) (same ∙ ap (λ (y : Entry). y.destination) is')
            (destinations-mem entries e later)))
    | inr later' ↦ destinations_injective entries distinct.1 e e' later later' same
  ]
]

pub destinations-no_repeat :
    (entries : List Entry) → AllDistinct (destinations entries) → AllDistinct entries
destinations-no_repeat [] distinct = tt
destinations-no_repeat (x ∷ entries) distinct =
    (λ m. distinct.0 (destinations-mem entries x m), destinations-no_repeat entries distinct.1)
