-- ===== src/Sorting.antt =====
-- Python's `sorted` on texts, which compares them by code points.
use doc_lattice.Prelude.{
  ◌≡◌, ◌↔◌, ◌⊎◌, inl, inr, Bool, true, false, ◌&&◌, ◌||◌, List, [], ◌∷◌, Memᴰ, Memᴰ-cons, arith,
  ltb, if◌then◌else◌, Bool-cases, ◌==◌, ==_iff, refl, ap, ◌∙◌, nat_eq, list_eq, option_eq, contains,
}
use doc_lattice.Text.{Text}

unfoldable pub text_leb : Text → Text → Bool
text_leb [] b = true
text_leb (c ∷ a) [] = false
text_leb (c ∷ a) (d ∷ b) = ltb c d || c == d && text_leb a b

unfoldable pub insert_sorted : Text → List Text → List Text
insert_sorted x [] = x ∷ []
insert_sorted x (y ∷ ys) =
    let rest = insert_sorted x ys in if text_leb x y then x ∷ y ∷ ys else y ∷ rest

-- `sorted(xs)`
unfoldable pub sorted : List Text → List Text
unfolding insert_sorted text_leb
sorted [] = []
sorted (x ∷ xs) = insert_sorted x (sorted xs)

-- `set(xs)`, each member once.
unfoldable pub distinct : List Text → List Text
distinct [] = []
distinct (x ∷ xs) = let rest = distinct xs in if contains rest x then rest else x ∷ rest

insert_sorted-mem :
    (a x : Text) (ys : List Text) → Memᴰ a (insert_sorted x ys) ↔ ((a ≡ x) ⊎ Memᴰ a ys)
unfolding insert_sorted
insert_sorted-mem a x [] = Memᴰ-cons a x []
insert_sorted-mem a x (y ∷ ys) = elim (Bool-cases (text_leb x y)) [
  | inl e ↦ rw e (Memᴰ-cons a x (y ∷ ys))
  | inr e ↦ rw e (
      ground
        (arith, Memᴰ-cons a y (insert_sorted x ys), Memᴰ-cons a y ys, insert_sorted-mem a x ys))
]

-- Sorting keeps the members.
pub sorted-mem : (a : Text) (xs : List Text) → Memᴰ a (sorted xs) ↔ Memᴰ a xs
unfolding sorted
sorted-mem a [] = (λ m. m, λ m. m)
sorted-mem a (x ∷ xs) =
    ground (arith, insert_sorted-mem a x (sorted xs), Memᴰ-cons a x xs, sorted-mem a xs)

-- The order of texts is total.
pub text_leb_trans :
    (a b c : Text) → text_leb a b ≡ true → text_leb b c ≡ true → text_leb a c ≡ true
unfolding text_leb
text_leb_trans [] b c h k = refl
text_leb_trans (x ∷ a) [] c h k = cc
text_leb_trans (x ∷ a) (y ∷ b) [] h k = cc
text_leb_trans (x ∷ a) (y ∷ b) (z ∷ c) h k =
    ground (arith, text_leb_trans a b c, ==_iff x y, ==_iff y z, ==_iff x z)

pub text_leb_total : (a b : Text) → text_leb a b ≡ false → text_leb b a ≡ true
unfolding text_leb
text_leb_total [] b h = cc
text_leb_total (x ∷ a) [] h = refl
text_leb_total (x ∷ a) (y ∷ b) h = ground (arith, text_leb_total a b, ==_iff x y, ==_iff y x)

pub text_leb_antisym : (a b : Text) → text_leb a b ≡ true → text_leb b a ≡ true → a ≡ b
unfolding text_leb
text_leb_antisym [] [] h k = refl
text_leb_antisym [] (y ∷ b) h k = cc
text_leb_antisym (x ∷ a) [] h k = cc
text_leb_antisym (x ∷ a) (y ∷ b) h k =
    let first : x ≡ y = ground (arith, ==_iff x y, ==_iff y x) in
    let rest : a ≡ b =
      text_leb_antisym a b (ground (arith, ==_iff x y, ==_iff y x))
        (ground (arith, ==_iff x y, ==_iff y x)) in
    ap (λ c. c ∷ a) first ∙ ap (λ t. y ∷ t) rest
