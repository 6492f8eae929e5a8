-- ===== src/LinearQuery/Batches.antt =====
-- The batches of chunk_numbers.
use doc_lattice.Prelude.{
  ℕ, zero, suc, ◌≤◌, ◌<◌, ◌≡◌, inl, inr, refl, sym, ap, ◌∙◌, subst, List, [], ◌∷◌, ◌++◌, Memᴰ,
  length, take, drop, arith, nat_eq, list_eq, option_eq,
}
use mathlib.Core.List.Memᴰ
use doc_lattice.Result.{ok}
use doc_lattice.LinearQuery.{slices, chunk_numbers}

pub flatten : List (List ℕ) → List ℕ
flatten [] = []
flatten (b ∷ bs) = b ++ flatten bs

take-drop : (n : ℕ) (xs : List ℕ) → take n xs ++ drop n xs ≡ xs
take-drop zero xs = refl
take-drop (suc n) [] = refl
take-drop (suc n) (x ∷ xs) = ap (x ∷◌) (take-drop n xs)

length-take_bound : (n : ℕ) (xs : List ℕ) → length (take n xs) ≤ n
length-take_bound zero xs = ground arith
length-take_bound (suc n) [] = ground arith
length-take_bound (suc n) (x ∷ xs) = ground (arith, length-take_bound n xs)

length-drop_bound : (n : ℕ) (xs : List ℕ) → length (drop n xs) ≤ length xs
length-drop_bound zero xs = ground arith
length-drop_bound (suc n) [] = ground arith
length-drop_bound (suc n) (x ∷ xs) = ground (arith, length-drop_bound n xs)

-- Enough rounds cut the whole list.
slices-flatten :
    (rounds size : ℕ) (xs : List ℕ)
    → length xs ≤ rounds
    → flatten (slices rounds xs (suc size)) ≡ xs
unfolding slices flatten
slices-flatten zero size [] h = refl
slices-flatten zero size (x ∷ xs) h = ground arith
slices-flatten (suc rounds) size [] h = refl
slices-flatten (suc rounds) size (x ∷ xs) h =
    ap (λ rest. x ∷ (take size xs ++ rest))
      (slices-flatten rounds size (drop size xs)
        (let bound = length-drop_bound size xs in ground arith))
    ∙ ap (x ∷◌) (take-drop size xs)

slices-bounds :
    (rounds size : ℕ) (xs : List ℕ) (b : List ℕ)
    → Memᴰ b (slices rounds xs (suc size))
    → (1 ≤ length b) × (length b ≤ suc size)
unfolding slices
slices-bounds zero size xs b m = absurd (Memᴰ.not-nil m)
slices-bounds (suc rounds) size [] b m = absurd (Memᴰ.not-nil m)
slices-bounds (suc rounds) size (x ∷ xs) b m = elim (Memᴰ.cases_cons m) [
  | inl here ↦
      subst (λ (c : List ℕ). (1 ≤ length c) × (length c ≤ suc size)) (sym here)
        (ground (arith, length-take_bound size xs))
  | inr later ↦ slices-bounds rounds size (drop size xs) b later
]

-- For a size other than 0, chunk_numbers returns batches that make up the numbers in their order, each
-- with at least one number and with at most `size`.
pub chunk_numbers_exact :
    (numbers : List ℕ) (size : ℕ)
    → 0 < size
    → (batches : List (List ℕ)) × (chunk_numbers numbers size ≡ ok batches)
      × (flatten batches ≡ numbers)
      × ((b : List ℕ) → Memᴰ b batches → (1 ≤ length b) × (length b ≤ size))
unfolding chunk_numbers
chunk_numbers_exact numbers zero h = absurd (omega (arith, h))
chunk_numbers_exact numbers (suc size) h = (
  slices (length numbers) numbers (suc size),
  ground arith,
  slices-flatten (length numbers) size numbers (omega arith),
  slices-bounds (length numbers) size numbers,
)
