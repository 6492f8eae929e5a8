-- ===== src/Impact/Queue.antt =====
-- The queue of a breadth-first walk: depths `e`, then depths `e + 1`.
use doc_lattice.Prelude.{
  ℕ, ◌+◌, ◌≤◌, ◌≡◌, ◌⊎◌, inl, inr, refl, sym, subst, [], ◌∷◌, ◌++◌, Memᴰ, All, All-append, arith,
  nat_eq, list_eq, option_eq,
}
use doc_lattice.Model.{TargetId}
use doc_lattice.Impact.{Queue}

abbrev pub AllAt : ℕ → Queue → Type 0
AllAt e = All (λ (p : TargetId × ℕ). p.1 ≡ e)

abbrev pub Ordered : ℕ → Queue → Type 0
Ordered e [] = Unit
Ordered e ((t, d) ∷ q) = ((d ≡ e) × Ordered e q) ⊎ ((d ≡ e + 1) × AllAt (e + 1) q)

pub AllAt-Ordered : (e : ℕ) (q : Queue) → AllAt e q → Ordered e q
AllAt-Ordered e [] h = tt
AllAt-Ordered e ((t, d) ∷ q) h = inl (h.0, AllAt-Ordered e q h.1)

-- Popping the front moves the level to its depth.
pub Ordered-pop :
    (e d : ℕ) (t : TargetId) (q : Queue)
    → Ordered e ((t, d) ∷ q)
    → (e ≤ d) × (d ≤ e + 1) × Ordered d q
Ordered-pop e d t q (inl (same, rest)) =
    (omega arith, omega arith, subst (λ k. Ordered k q) (sym same) rest)
Ordered-pop e d t q (inr (next, rest)) =
    (omega arith, omega arith, subst (λ k. Ordered k q) (sym next) (AllAt-Ordered (e + 1) q rest))

pub Ordered-append :
    (e : ℕ) (q more : Queue) → Ordered e q → AllAt (e + 1) more → Ordered e (q ++ more)
Ordered-append e [] [] h m = tt
Ordered-append e [] ((t, d) ∷ more) h m = inr (m.0, m.1)
Ordered-append e ((t, d) ∷ q) more (inl (same, rest)) m = inl (same, Ordered-append e q more rest m)
Ordered-append e ((t, d) ∷ q) more (inr (next, rest)) m = inr (next, All-append _ q more rest m)

pub All-of-mem :
    (P : TargetId × ℕ → Type 0) (q : Queue)
    → ((w : TargetId) (k : ℕ) → Memᴰ (w, k) q → P (w, k))
    → All P q
All-of-mem P [] h = tt
All-of-mem P ((t, d) ∷ q) h =
    (h t d (Memᴰ.head refl), All-of-mem P q (λ w k m. h w k (Memᴰ.tail m)))
