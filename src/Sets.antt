-- ===== src/Sets.antt =====
-- Python's `set` as the list of its members, each once.
use doc_lattice.Prelude.{
  ◌≡◌, ◌↔◌, ◌⊎◌, inl, inr, ⊎_elim, sym, subst, List, [], ◌∷◌, ◌++◌, Memᴰ, Memᴰ-cons, Memᴰ-append,
  arith, if◌then◌else◌, Bool-cases, Eq, nat_eq, list_eq, option_eq, contains, contains_iff,
}
use mathlib.Core.List.Memᴰ

module _ {ℓ} {A : Type ℓ} ⦃e : Eq A⦄ where
  -- `xs.add(x)`
  unfoldable pub add : A → List A → List A
  add x xs = if contains xs x then xs else xs ++ x ∷ []

  -- `xs | ys`
  unfoldable pub union : List A → List A → List A
  unfolding add
  union xs [] = xs
  union xs (y ∷ ys) = union (add y xs) ys

  pub add-mem : (x y : A) (xs : List A) → Memᴰ y (add x xs) ↔ ((y ≡ x) ⊎ Memᴰ y xs)
  unfolding add
  add-mem x y xs = elim (Bool-cases (contains xs x)) [
    | inl old ↦ rw old (
      inr,
      ⊎_elim (λ same. subst (λ z. Memᴰ z xs) (sym same) ((contains_iff xs x).0 old)) (λ m. m),
    )
    | inr new ↦ rw new (
      λ m. ⊎_elim inr (λ r. inl (Memᴰ.eq_of_singleton r)) ((Memᴰ-append y xs (x ∷ [])).0 m),
      ⊎_elim (λ same. Memᴰ.append_right xs (Memᴰ.head same)) (λ m. Memᴰ.append_left (x ∷ []) m),
    )
  ]

  pub union-mem : (xs ys : List A) (a : A) → Memᴰ a (union xs ys) ↔ (Memᴰ a xs ⊎ Memᴰ a ys)
  unfolding union
  union-mem xs [] a = (inl, ⊎_elim (λ m. m) (λ m. absurd (Memᴰ.not-nil m)))
  union-mem xs (y ∷ ys) a =
      ground (arith, union-mem (add y xs) ys a, add-mem y a xs, Memᴰ-cons a y ys)
