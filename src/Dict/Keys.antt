-- ===== src/Dict/Keys.antt =====
-- The keys of a dictionary: each once, in the order of their first write.
use doc_lattice.Prelude.{
  ◌≡◌, inl, inr, ⊎_elim, refl, sym, ap, subst, true, false, some, ◌==◌, ==_iff, List, [], ◌∷◌, ◌++◌,
  Memᴰ, Memᴰ-append, arith, if◌then◌else◌, Bool-cases, Eq, nat_eq, list_eq, option_eq,
}
use mathlib.Core.List.Memᴰ
use doc_lattice.Dict.{Dict, keys, get, has, put}
use doc_lattice.Dict.Laws.{has_iff, mem-keys}

module _ {ℓ} {A : Type ℓ} where
  -- No value twice.
  abbrev pub AllDistinct : List A → Type ℓ
  AllDistinct [] = Unit
  AllDistinct (x ∷ xs) = (Memᴰ x xs → ⊥) × AllDistinct xs

  pub AllDistinct-snoc :
      (xs : List A) (x : A) → AllDistinct xs → (Memᴰ x xs → ⊥) → AllDistinct (xs ++ x ∷ [])
  AllDistinct-snoc [] x d n = (λ m. Memᴰ.not-nil m, tt)
  AllDistinct-snoc (y ∷ xs) x d n = (
    λ m. ⊎_elim d.0 (λ l. n (Memᴰ.head (sym (Memᴰ.eq_of_singleton l)))) ((Memᴰ-append y xs _).0 m),
    AllDistinct-snoc xs x d.1 (λ m. n (Memᴰ.tail m)),
  )

module _ {ℓ κ} {K : Type ℓ} {V : Type κ} ⦃e : Eq K⦄ where
  -- A write of a new key goes to the end; a write of an old one changes no key.
  pub keys-put :
      (d : Dict K V) (k : K) (v : V)
      → keys (put d k v) ≡ (if has d k then keys d else keys d ++ k ∷ [])
  unfolding keys put has get
  keys-put [] k v = refl
  keys-put ((j, w) ∷ d) k v = ground (arith, keys-put d k v)

  pub AllDistinct-put :
      (d : Dict K V) (k : K) (v : V) → AllDistinct (keys d) → AllDistinct (keys (put d k v))
  AllDistinct-put d k v h = elim (Bool-cases (has d k)) [
    | inl old ↦ rw (keys-put d k v, old) h
    | inr new ↦
        rw (keys-put d k v, new)
          (AllDistinct-snoc (keys d) k h (λ m. ground (arith, (has_iff d k).1 m)))
  ]

module _ {ℓ κ} {K : Type ℓ} {V : Type κ} where
  pub keys-append : (c d : Dict K V) → keys (c ++ d) ≡ keys c ++ keys d
  unfolding keys
  keys-append [] d = refl
  keys-append ((k, v) ∷ c) d = ap (λ r. k ∷ r) (keys-append c d)

module _ {ℓ κ} {K : Type ℓ} {V : Type κ} ⦃e : Eq K⦄ where
  -- A new key goes behind the old entries, which stay as they are.
  pub put_new : (d : Dict K V) (k : K) (v : V) → has d k ≡ false → put d k v ≡ d ++ (k, v) ∷ []
  unfolding put has get
  put_new [] k v h = refl
  put_new ((j, w) ∷ d) k v h = ground (arith, put_new d k v)

module _ {ℓ} {A : Type ℓ} where
  pub AllDistinct_apart :
      (xs ys : List A) (a : A) → AllDistinct (xs ++ ys) → Memᴰ a xs → Memᴰ a ys → ⊥
  AllDistinct_apart [] ys a d m n = Memᴰ.not-nil m
  AllDistinct_apart (x ∷ xs) ys a d m n = elim (Memᴰ.cases_cons m) [
    | inl e ↦ d.0 (Memᴰ.append_right xs (subst (λ b. Memᴰ b ys) e n))
    | inr r ↦ AllDistinct_apart xs ys a d.1 r n
  ]

  pub AllDistinct_right : (xs ys : List A) → AllDistinct (xs ++ ys) → AllDistinct ys
  AllDistinct_right [] ys d = d
  AllDistinct_right (x ∷ xs) ys d = AllDistinct_right xs ys d.1

module _ {ℓ κ} {K : Type ℓ} {V : Type κ} ⦃e : Eq K⦄ where
  -- With no key twice, a lookup finds what is listed.
  pub mem-get :
      (d : Dict K V) (k : K) (v : V) → AllDistinct (keys d) → Memᴰ (k, v) d → get d k ≡ some v
  unfolding keys get
  mem-get [] k v distinct m = absurd (Memᴰ.not-nil m)
  mem-get ((j, w) ∷ d) k v (new, distinct) m = elim (Memᴰ.cases_cons m) [
    | inl here ↦
        let same : (j == k) ≡ true = (==_iff j k).1 (sym (ap (λ (p : K × V). p.0) here)) in
        rw same (ap some (sym (ap (λ (p : K × V). p.1) here)))
    | inr later ↦
        let other : (j == k) ≡ false = elim (Bool-cases (j == k)) [
          | inr differs ↦ differs
          | inl same ↦ absurd (
              new (subst (λ x. Memᴰ x (keys d)) (sym ((==_iff j k).0 same)) (mem-keys d k v later)))
        ] in
        rw other (mem-get d k v distinct later)
  ]
