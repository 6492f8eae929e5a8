-- ===== src/LinkSelectors/Matching.antt =====
-- selector_matches_path and the language of a selector.
use doc_lattice.Prelude.{
  ℕ, ◌+◌, ◌<◌, ◌≡◌, ◌↔◌, ◌⊎◌, inl, inr, refl, sym, subst, Bool, true, false, ◌&&◌, some, List, [],
  ◌∷◌, Memᴰ, Memᴰ-cons, arith, ltb, if◌then◌else◌, is_empty, Bool-cases, List-cases, ◌==◌, ==_iff,
  nat_eq, list_eq, option_eq, contains, contains_iff, lt→ltb,
}
use mathlib.Core.List.Memᴰ
use doc_lattice.Text.{Text}
use doc_lattice.LinkSelectors.{
  slash, split_parts, is_recursive, last_position, segment_at, add_position, advance, accepts,
  match_parts, selector_matches_path,
}
use doc_lattice.LinkSelectors.Closure.{
  Passes, Reached, start, pass, Closed, recursive_closure-Closed,
}

add_position-mem : (k x : ℕ) (xs : List ℕ) → Memᴰ k (add_position x xs) ↔ ((k ≡ x) ⊎ Memᴰ k xs)
add_position-mem k x xs = elim (Bool-cases (contains xs x)) [
  | inl known ↦
      rw (known, if◌then◌else◌)
        (
          inr,
          λ which. elim which [
            | inl is ↦ subst (λ y. Memᴰ y xs) (sym is) ((contains_iff xs x).0 known)
            | inr m ↦ m
          ],
        )
  | inr new ↦ rw (new, if◌then◌else◌) (Memᴰ-cons k x xs)
]

module _ (segment_matches : Text → Text → Bool) (segments : List Text) where
  -- The parts of a path that the segments from a position on stand for. `**` stands for any number of parts, and as
  -- the last segment for one part at least; another segment stands for one part that it matches.
  pub data Selects : ℕ → List Text → Type 0 where
    last_part :
        {i : ℕ} {part : Text}
        → i ≡ last_position segments
        → (is_recursive segments i ≡ true) ⊎ (segment_matches part (segment_at segments i) ≡ true)
        → Selects i (part ∷ [])
    absorb :
        {i : ℕ} {part next : Text} {parts : List Text}
        → is_recursive segments i ≡ true
        → Selects i (next ∷ parts)
        → Selects i (part ∷ next ∷ parts)
    match_one :
        {i : ℕ} {part next : Text} {parts : List Text}
        → is_recursive segments i ≡ false
        → i < last_position segments
        → segment_matches part (segment_at segments i) ≡ true
        → Selects (i + 1) (next ∷ parts)
        → Selects i (part ∷ next ∷ parts)
    skip : {i : ℕ} {parts : List Text} → Passes segments i → Selects (i + 1) parts → Selects i parts

  -- Some position of a list selects the parts.
  abbrev Some : List ℕ → List Text → Type 0
  Some positions parts = (i : ℕ) × Memᴰ i positions × Selects i parts

  -- How a position comes to be in the next set.
  data Comes (part : Text) (j i : ℕ) : Type 0 where
    stays : is_recursive segments i ≡ true → j ≡ i → Comes part j i
    moves :
        is_recursive segments i ≡ false
        → i < last_position segments
        → segment_matches part (segment_at segments i) ≡ true
        → j ≡ i + 1
        → Comes part j i

  advance-Comes :
      (part : Text) (closed : List ℕ) (j : ℕ)
      → Memᴰ j (advance segment_matches segments part closed)
      → (i : ℕ) × Memᴰ i closed × Comes part j i
  unfolding advance
  advance-Comes part [] j m = absurd (Memᴰ.not-nil m)
  advance-Comes part (i ∷ closed) j m = elim (Bool-cases (is_recursive segments i)) [
    | inl stay ↦
        elim ((add_position-mem j i (advance segment_matches segments part closed)).0
          (rw (stay, if◌then◌else◌) at m)) [
            | inl is ↦ (i, Memᴰ.head refl, stays stay is)
            | inr rest ↦ let (k, n, c) = advance-Comes part closed j rest in (k, Memᴰ.tail n, c)
          ]
    | inr plain ↦
        elim (Bool-cases
          (ltb i (last_position segments) && segment_matches part (segment_at segments i))) [
            | inl matches ↦
                elim ((add_position-mem j (i + 1) (advance segment_matches segments part closed)).0
                  (rw (plain, matches, if◌then◌else◌) at m)) [
                    | inl is ↦ (i, Memᴰ.head refl, moves plain (ground arith) (ground arith) is)
                    | inr rest ↦
                        let (k, n, c) = advance-Comes part closed j rest in (k, Memᴰ.tail n, c)
                  ]
            | inr fails ↦
                let (k, n, c) =
                  advance-Comes part closed j (rw (plain, fails, if◌then◌else◌) at m) in
                (k, Memᴰ.tail n, c)
          ]
  ]

  keep_later :
      (part : Text) (i : ℕ) (closed : List ℕ) (j : ℕ)
      → Memᴰ j (advance segment_matches segments part closed)
      → Memᴰ j (advance segment_matches segments part (i ∷ closed))
  unfolding advance
  keep_later part i closed j m = elim (Bool-cases (is_recursive segments i)) [
    | inl stay ↦
        rw (stay, if◌then◌else◌)
          ((add_position-mem j i (advance segment_matches segments part closed)).1 (inr m))
    | inr plain ↦
        elim (Bool-cases
          (ltb i (last_position segments) && segment_matches part (segment_at segments i))) [
            | inl matches ↦
                rw (plain, matches, if◌then◌else◌)
                  ((add_position-mem j (i + 1) (advance segment_matches segments part closed)).1
                    (inr m))
            | inr fails ↦ rw (plain, fails, if◌then◌else◌) m
          ]
  ]

  Comes-advance :
      (part : Text) (closed : List ℕ) (i j : ℕ)
      → Memᴰ i closed
      → Comes part j i
      → Memᴰ j (advance segment_matches segments part closed)
  unfolding advance
  Comes-advance part [] i j m comes = absurd (Memᴰ.not-nil m)
  Comes-advance part (k ∷ closed) i j m comes = elim (Memᴰ.cases_cons m) [
    | inl is ↦ here (subst (Comes part j) is comes)
    | inr later ↦ keep_later part k closed j (Comes-advance part closed i j later comes)
  ]
    where
      here : Comes part j k → Memᴰ j (advance segment_matches segments part (k ∷ closed))
      here (stays stay is) =
          rw (stay, if◌then◌else◌)
            ((add_position-mem j k (advance segment_matches segments part closed)).1 (inl is))
      here (moves plain below matches is) =
          rw (plain, lt→ltb k (last_position segments) below, matches, if◌then◌else◌)
            ((add_position-mem j (k + 1) (advance segment_matches segments part closed)).1 (inl is))

  accepts_iff :
      (part : Text) (closed : List ℕ)
      → (accepts segment_matches segments part closed ≡ true) ↔ (
          (i : ℕ) × Memᴰ i closed
          × (i ≡ last_position segments)
          × ((is_recursive segments i ≡ true)
              ⊎ (segment_matches part (segment_at segments i) ≡ true)))
  unfolding accepts
  accepts_iff part [] = (λ h. cc, λ (i, m, e, w). absurd (Memᴰ.not-nil m))
  accepts_iff part (i ∷ closed) = (to (accepts_iff part closed), back (accepts_iff part closed))
    where
      Found : List ℕ → Type 0
      Found list =
          (k : ℕ) × Memᴰ k list
          × (k ≡ last_position segments)
          × ((is_recursive segments k ≡ true)
              ⊎ (segment_matches part (segment_at segments k) ≡ true))

      Rest : Type 0
      Rest = (accepts segment_matches segments part closed ≡ true) ↔ Found closed

      later : Rest → accepts segment_matches segments part closed ≡ true → Found (i ∷ closed)
      later known h = let (k, n, e, w) = known.0 h in (k, Memᴰ.tail n, e, w)

      to : Rest → accepts segment_matches segments part (i ∷ closed) ≡ true → Found (i ∷ closed)
      to known h = elim (Bool-cases (i == last_position segments)) [
        | inl at_end ↦ elim (Bool-cases (is_recursive segments i)) [
          | inl stay ↦ (i, Memᴰ.head refl, (==_iff i (last_position segments)).0 at_end, inl stay)
          | inr plain ↦ elim (Bool-cases (segment_matches part (segment_at segments i))) [
            | inl matches ↦
                (i, Memᴰ.head refl, (==_iff i (last_position segments)).0 at_end, inr matches)
            | inr fails ↦ later known (ground arith)
          ]
        ]
        | inr earlier ↦ later known (ground arith)
      ]

      back : Rest → Found (i ∷ closed) → accepts segment_matches segments part (i ∷ closed) ≡ true
      back known (k, n, e, w) = elim (Memᴰ.cases_cons n) [
        | inl is ↦ ground (arith, ==_iff i (last_position segments))
        | inr rest ↦ ground (arith, known.1 (k, rest, e, w))
      ]

  module _ (positions closed : List ℕ) (c : Closed segments positions closed) where
    -- A closed position that selects several parts leads to a position of the next set that selects the rest.
    forward :
        (part next : Text) (parts : List Text) (i : ℕ)
        → Memᴰ i closed
        → Selects i (part ∷ next ∷ parts)
        → Some (advance segment_matches segments part closed) (next ∷ parts)
    forward part next parts i m (absorb stay rest) =
        (i, Comes-advance part closed i i m (stays stay refl), rest)
    forward part next parts i m (match_one plain below matches rest) =
        (i + 1, Comes-advance part closed i (i + 1) m (moves plain below matches refl), rest)
    forward part next parts i m (skip passes rest) =
        forward part next parts (i + 1) (c.followed i m passes) rest

    at_end :
        (part : Text) (i : ℕ)
        → Memᴰ i closed
        → Selects i (part ∷ [])
        → (k : ℕ) × Memᴰ k closed
          × (k ≡ last_position segments)
          × ((is_recursive segments k ≡ true)
              ⊎ (segment_matches part (segment_at segments k) ≡ true))
    at_end part i m (last_part e w) = (i, m, e, w)
    at_end part i m (skip passes rest) = at_end part (i + 1) (c.followed i m passes) rest

    -- A reached position that selects the parts comes from a given one that does.
    unskip :
        (parts : List Text) (i : ℕ)
        → Reached segments positions i
        → Selects i parts
        → Some positions parts
    unskip parts i (start m) s = (i, m, s)
    unskip parts _ (pass {i} r passes) s = unskip parts i r (skip passes s)

    backward :
        (part next : Text) (parts : List Text)
        → Some (advance segment_matches segments part closed) (next ∷ parts)
        → Some positions (part ∷ next ∷ parts)
    backward part next parts (j, m, s) =
        let (i, n, comes) = advance-Comes part closed j m in
        unskip (part ∷ next ∷ parts) i (c.reached i n) (came i comes)
      where
        came : (i : ℕ) → Comes part j i → Selects i (part ∷ next ∷ parts)
        came i (stays stay is) = absorb stay (subst (λ k. Selects k (next ∷ parts)) is s)
        came i (moves plain below matches is) =
            match_one plain below matches (subst (λ k. Selects k (next ∷ parts)) is s)

  filled : (list : List ℕ) (x : ℕ) (xs : List ℕ) → list ≡ x ∷ xs → is_empty list ≡ false
  filled list x xs e = rw e refl

  match_parts_exact :
      (part : Text) (parts : List Text) (positions : List ℕ)
      → (answer : Bool) × (match_parts segment_matches segments (part ∷ parts) positions
          ≡ some answer)
        × ((answer ≡ true) ↔ Some positions (part ∷ parts))
  unfolding match_parts
  match_parts_exact part [] positions =
      let (closed, e, c) = recursive_closure-Closed segments positions in
      (
        accepts segment_matches segments part closed,
        rw (e, match_parts) refl,
        (
          λ h.
              let (k, m, at, w) = (accepts_iff part closed).0 h in
              unskip positions closed c (part ∷ []) k (c.reached k m) (last_part at w),
          λ (i, m, s).
              (accepts_iff part closed).1 (at_end positions closed c part i (c.includes i m) s),
        ),
      )
  match_parts_exact part (next ∷ parts) positions =
      let (closed, e, c) = recursive_closure-Closed segments positions in
      let advanced = advance segment_matches segments part closed in
      let (answer, found, exact) = match_parts_exact next parts advanced in
      elim (List-cases advanced) [
        | inl none_left ↦ (
          false,
          rw (e, match_parts, none_left, is_empty, if◌then◌else◌) refl,
          (
            λ h. cc,
            λ (i, m, s).
                let (j, n, r) = forward positions closed c part next parts i (c.includes i m) s in
                absurd (Memᴰ.not-nil (subst (Memᴰ j) none_left n)),
          ),
        )
        | inr (x, xs, some_left) ↦ (
          answer,
          rw (e, match_parts, filled advanced x xs some_left, if◌then◌else◌) found,
          (
            λ h. backward positions closed c part next parts (exact.0 h),
            λ (i, m, s). exact.1 (forward positions closed c part next parts i (c.includes i m) s),
          ),
        )
      ]

  split_parts-cons :
      (path : Text) → (part : Text) × (parts : List Text) × (split_parts path ≡ part ∷ parts)
  unfolding split_parts
  split_parts-cons [] = ([], [], refl)
  split_parts-cons (c ∷ rest) =
      let (part, parts, e) = split_parts-cons rest in
      elim (Bool-cases (c == slash)) [
        | inl at ↦ ([], split_parts rest, rw (at, if◌then◌else◌) refl)
        | inr other ↦ (c ∷ part, parts, rw (other, if◌then◌else◌, e) refl)
      ]

  -- A selector matches a path exactly when its segments stand for the parts of the path; the matcher always answers.
  pub selector_matches_path_exact :
      (path : Text)
      → (answer : Bool) × (selector_matches_path segment_matches segments path ≡ some answer)
        × ((answer ≡ true) ↔ Selects 0 (split_parts path))
  unfolding selector_matches_path
  selector_matches_path_exact path =
      let (part, parts, e) = split_parts-cons path in
      let (answer, found, exact) = match_parts_exact part parts (0 ∷ []) in
      (
        answer,
        rw e found,
        (
          λ h.
              let (i, m, s) = exact.0 h in
              rw e (subst (λ k. Selects k (part ∷ parts)) (Memᴰ.eq_of_singleton m) s),
          λ s. exact.1 (0, Memᴰ.head refl, rw e at s),
        ),
      )
