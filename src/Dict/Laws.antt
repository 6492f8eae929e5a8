-- ===== src/Dict/Laws.antt =====
-- What a lookup finds after a write.
use doc_lattice.Prelude.{
  ◌≡◌, ◌↔◌, ◌⊎◌, inl, inr, refl, ap, true, false, ◌||◌, none, some, [], ◌∷◌, Memᴰ, Memᴰ-cons, arith,
  if◌then◌else◌, Bool-cases, Eq, ◌==◌, ==_iff, ==_refl, nat_eq, list_eq, option_eq,
}
use mathlib.Core.List.Memᴰ
use doc_lattice.Dict.{Dict, keys, get, has, put}

module _ {ℓ κ} {K : Type ℓ} {V : Type κ} ⦃e : Eq K⦄ where
  pub get-put :
      (d : Dict K V) (k j : K) (v : V) → get (put d k v) j ≡ (if k == j then some v else get d j)
  unfolding get put
  get-put [] k j v = refl
  get-put ((i, w) ∷ d) k j v = ground (arith, ==_iff k j, ==_iff i k, ==_iff i j, get-put d k j v)

  pub get-put_self : (d : Dict K V) (k : K) (v : V) → get (put d k v) k ≡ some v
  get-put_self d k v = rw (get-put d k k v, ==_refl k)

  pub has-put : (d : Dict K V) (k j : K) (v : V) → has (put d k v) j ≡ (k == j || has d j)
  unfolding has
  has-put d k j v = ground (arith, get-put d k j v)

  pub has_iff : (d : Dict K V) (k : K) → (has d k ≡ true) ↔ Memᴰ k (keys d)
  unfolding has get keys
  has_iff [] k = (λ h. cc, λ m. absurd (Memᴰ.not-nil m))
  has_iff ((j, v) ∷ d) k = ground (arith, ==_iff j k, has_iff d k, Memᴰ-cons k j (keys d))

  pub has-get : (d : Dict K V) (k : K) → has d k ≡ true → (v : V) × (get d k ≡ some v)
  unfolding has
  has-get d k h = ground arith

  pub get-mem : (d : Dict K V) (k : K) (v : V) → get d k ≡ some v → Memᴰ (k, v) d
  unfolding get
  get-mem [] k v h = cc
  get-mem ((j, w) ∷ d) k v h = elim (Bool-cases (j == k)) [
    | inl same ↦ Memᴰ.head (ground (arith, ==_iff j k))
    | inr other ↦ Memᴰ.tail (get-mem d k v (ground arith))
  ]

  pub mem-keys : (d : Dict K V) (k : K) (v : V) → Memᴰ (k, v) d → Memᴰ k (keys d)
  unfolding keys
  mem-keys [] k v m = absurd (Memᴰ.not-nil m)
  mem-keys ((j, w) ∷ d) k v m = elim (Memᴰ.cases_cons m) [
    | inl e ↦ Memᴰ.head (ap (λ (p : K × V). p.0) e)
    | inr r ↦ Memᴰ.tail (mem-keys d k v r)
  ]

  pub mem-put :
      (d : Dict K V) (k j : K) (v w : V)
      → Memᴰ (j, w) (put d k v)
      → ((j ≡ k) × (w ≡ v)) ⊎ Memᴰ (j, w) d
  unfolding put
  mem-put [] k j v w m = elim (Memᴰ.cases_cons m) [
    | inl e ↦ inl (ground arith)
    | inr r ↦ absurd (Memᴰ.not-nil r)
  ]
  mem-put ((i, u) ∷ d) k j v w m = elim (Bool-cases (i == k)) [
    | inl same ↦ elim (Memᴰ.cases_cons (rw same at m)) [
      | inl e ↦ inl (ground (arith, ==_iff i k))
      | inr r ↦ inr (Memᴰ.tail r)
    ]
    | inr other ↦ elim (Memᴰ.cases_cons (rw other at m)) [
      | inl e ↦ inr (Memᴰ.head e)
      | inr r ↦ elim (mem-put d k j v w r) [ inl e ↦ inl e | inr s ↦ inr (Memᴰ.tail s) ]
    ]
  ]

  pub get-eq-none : (d : Dict K V) (k : K) → has d k ≡ false → get d k ≡ none
  unfolding has
  get-eq-none d k h = ground arith

  pub get-has : (d : Dict K V) (k : K) (v : V) → get d k ≡ some v → has d k ≡ true
  unfolding has
  get-has d k v h = ground arith
