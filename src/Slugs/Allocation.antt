-- ===== src/Slugs/Allocation.antt =====
-- The slugs that the slugger allocates.
use doc_lattice.Prelude.{
  ℕ, zero, suc, ◌+◌, ◌≤◌, ◌<◌, ◌≡◌, ◌≢◌, inl, inr, refl, sym, ap, ◌∙◌, true, false, ◌||◌, some,
  List, [], ◌∷◌, ◌++◌, Memᴰ, length, arith, if◌then◌else◌, Bool-cases, ◌==◌, ==_iff, ==_refl,
  nat_eq, list_eq, option_eq,
}
use mathlib.Core.List.Memᴰ
use doc_lattice.Text.{Text}
use doc_lattice.Dict.{Dict, keys, get, has, put}
use doc_lattice.Dict.Laws.{get-put_self, has-put, has_iff, has-get}
use doc_lattice.Dict.Keys.{AllDistinct}
use doc_lattice.Result.{ok}
use doc_lattice.Errors.{Outcome}
use doc_lattice.Slugs.{
  Slugged, suffixed, probe_from, slug_with_probes, slug_all, github_ids_for_texts,
}
use doc_lattice.Slugs.Decimal.{suffixed_inj, suffixed-neq-base}

without : Text → List Text → List Text
without x [] = []
without x (y ∷ ys) = let rest = without x ys in if y == x then rest else y ∷ rest

without-length : (x : Text) (ys : List Text) → length (without x ys) ≤ length ys
unfolding without
without-length x [] = omega arith
without-length x (y ∷ ys) = ground (arith, without-length x ys)

without-shorter : (x : Text) (ys : List Text) → Memᴰ x ys → length (without x ys) < length ys
unfolding without
without-shorter x [] m = absurd (Memᴰ.not-nil m)
without-shorter x (y ∷ ys) m = elim (Bool-cases (y == x)) [
  | inl same ↦ rw same (let bound = without-length x ys in omega arith)
  | inr other ↦ elim (Memᴰ.cases_cons m) [
    | inl here ↦ cc ((==_iff y x).1 (sym here), other)
    | inr later ↦ rw other (let bound = without-shorter x ys later in omega arith)
  ]
]

without-mem : (x y : Text) (ys : List Text) → Memᴰ y ys → y ≢ x → Memᴰ y (without x ys)
unfolding without
without-mem x y [] m n = m
without-mem x y (z ∷ zs) m n = elim (Bool-cases (z == x)) [
  | inl same ↦ rw same (elim (Memᴰ.cases_cons m) [
    | inl here ↦ absurd (n (here ∙ (==_iff z x).0 same))
    | inr later ↦ without-mem x y zs later n
  ])
  | inr other ↦ rw other (elim (Memᴰ.cases_cons m) [
    | inl here ↦ Memᴰ.head here
    | inr later ↦ Memᴰ.tail (without-mem x y zs later n)
  ])
]

-- The loop returns a new id, and afterwards the seen ids are the ones before and that id.
abbrev pub Allocates : Dict Text ℕ → Outcome Slugged → Type 0
Allocates seen outcome =
    (s : Slugged) × (outcome ≡ ok s)
    × (has seen s.slug ≡ false)
    × ((x : Text) → has s.seen x ≡ (s.slug == x || has seen x))

-- The ids that the loop can still meet: the current one, and the suffixes past the count.
record Ahead (base result : Text) (seen : Dict Text ℕ) (avail : List Text) : Type 0 where
  counted : has seen result ≡ true → (k : ℕ) × (get seen base ≡ some k)
  here : has seen result ≡ true → Memᴰ result avail
  later :
      (k j : ℕ)
      → get seen base ≡ some k
      → k < j
      → has seen (suffixed base j) ≡ true
      → Memᴰ (suffixed base j) avail
  fresh : (k j : ℕ) → get seen base ≡ some k → k < j → suffixed base j ≢ result

probe_from-Allocates :
    (rounds : ℕ) (base result : Text) (seen : Dict Text ℕ) (probes avail : List Text)
    → Ahead base result seen avail
    → length avail < rounds
    → Allocates seen (probe_from rounds base result seen probes)
unfolding probe_from
probe_from-Allocates zero base result seen probes avail a enough = absurd (omega (arith, enough))
probe_from-Allocates (suc rounds) base result seen probes avail a enough =
    elim (Bool-cases (has seen result)) [
      | inr free ↦ (
        record { slug = result; probes = probes; seen = put seen result 0 },
        rw free refl,
        free,
        λ x. has-put seen result x 0,
      )
      | inl taken ↦
          let (k, at_base) = a.counted taken in
          let seen' = put seen base (k + 1) in
          let kept : (x : Text) → has seen' x ≡ has seen x = λ x. same_keys k at_base x in
          let (s, e, new, grown) =
            probe_from-Allocates rounds base (suffixed base (k + 1)) seen'
              (probes ++ suffixed base (k + 1) ∷ []) (without result avail) (next k at_base)
              (let bound = without-shorter result avail (a.here taken) in omega arith) in
          (
            s,
            rw (taken, at_base) e,
            sym (kept s.slug) ∙ new,
            λ x. grown x ∙ ap (s.slug == x ||◌) (kept x),
          )
    ]
  where
    has_base : (k : ℕ) → get seen base ≡ some k → has seen base ≡ true
    has_base k at_base = unfold has in ground arith

    same_keys :
        (k : ℕ) → get seen base ≡ some k → (x : Text) → has (put seen base (k + 1)) x ≡ has seen x
    same_keys k at_base x = elim (Bool-cases (base == x)) [
      | inl same ↦
          has-put seen base x (k + 1) ∙ ground (arith, (==_iff base x).0 same, has_base k at_base)
      | inr other ↦ has-put seen base x (k + 1) ∙ ground arith
    ]

    counted_up : (k m : ℕ) → get (put seen base (k + 1)) base ≡ some m → m ≡ k + 1
    counted_up k m e = cc (get-put_self seen base (k + 1), e)

    next :
        (k : ℕ)
        → get seen base ≡ some k
        → Ahead base (suffixed base (k + 1)) (put seen base (k + 1)) (without result avail)
    next k at_base = record {
      counted = λ _. (k + 1, get-put_self seen base (k + 1));
      here = λ h.
          without-mem result (suffixed base (k + 1)) avail
            (a.later k (k + 1) at_base (omega arith) (sym (same_keys k at_base _) ∙ h))
            (a.fresh k (k + 1) at_base (omega arith));
      later = λ m j e lt h.
          let bound = counted_up k m e in
          without-mem result (suffixed base j) avail
            (a.later k j at_base (omega arith) (sym (same_keys k at_base _) ∙ h))
            (a.fresh k j at_base (omega arith));
      fresh = λ m j e lt same.
          let bound = counted_up k m e in
          let eq = suffixed_inj base j (k + 1) same in absurd (omega arith);
    }

module _ (github_slug : Text → Text) where
  pub slug_with_probes-Allocates :
      (seen : Dict Text ℕ) (text : Text) → Allocates seen (slug_with_probes github_slug seen text)
  unfolding slug_with_probes
  slug_with_probes-Allocates seen text =
      let base = github_slug text in
      probe_from-Allocates (suc (length (keys seen))) base base seen (base ∷ []) (keys seen)
        (record {
          counted = λ h. has-get seen base h;
          here = λ h. (has_iff seen base).0 h;
          later = λ k j e lt h. (has_iff seen (suffixed base j)).0 h;
          fresh = λ k j e lt. suffixed-neq-base base j;
        })
        (omega arith)

  slug_all-distinct :
      (seen : Dict Text ℕ) (texts : List Text)
      → (ids : List Text) × (slug_all github_slug seen texts ≡ ok ids)
        × AllDistinct ids
        × (length ids ≡ length texts)
        × ((x : Text) → Memᴰ x ids → has seen x ≡ false)
  unfolding slug_all
  slug_all-distinct seen [] = ([], refl, tt, refl, λ x m. absurd (Memᴰ.not-nil m))
  slug_all-distinct seen (text ∷ texts) =
      let (s, e, new, grown) = slug_with_probes-Allocates seen text in
      let (ids, e', distinct, size, apart) = slug_all-distinct s.seen texts in
      (
        s.slug ∷ ids,
        rw (e, e') refl,
        (λ m. cc (apart s.slug m, grown s.slug, ==_refl s.slug), distinct),
        ap suc size,
        λ x m. elim (Memᴰ.cases_cons m) [
          | inl here ↦ ap (has seen) here ∙ new
          | inr later ↦ unseen s x new (grown x) (apart x later)
        ],
      )
    where
      unseen :
          (s : Slugged) (x : Text)
          → has seen s.slug ≡ false
          → has s.seen x ≡ (s.slug == x || has seen x)
          → has s.seen x ≡ false
          → has seen x ≡ false
      unseen s x new grown apart = ground arith

  -- For any function for the base slugs, github_ids_for_texts returns one id for each text, and no two
  -- of the ids are equal.
  pub github_ids_for_texts-AllDistinct :
      (texts : List Text)
      → (ids : List Text) × (github_ids_for_texts github_slug texts ≡ ok ids)
        × AllDistinct ids
        × (length ids ≡ length texts)
  unfolding github_ids_for_texts
  github_ids_for_texts-AllDistinct texts =
      let (ids, e, distinct, size, _) = slug_all-distinct [] texts in (ids, e, distinct, size)
