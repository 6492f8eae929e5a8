-- ===== src/Result.antt =====
-- The outcome of code that may raise: a value, or the exception.
use doc_lattice.Prelude.{◌≡◌, refl, Option, none, some, nat_eq, list_eq, option_eq}

module _ {ℓ} (E : Type ℓ) where
  pub data Result (A : Type ℓ) : Type ℓ where
    ok : A → Result A
    err : E → Result A

module _ {ℓ} {E : Type ℓ} where
  -- What the exception leaves undone.
  abbrev pub ◌>>=◌ : {A B : Type ℓ} → Result E A → (A → Result E B) → Result E B

  infixl 5 ◌>>=◌
  ok value >>= next = next value
  err raised >>= next = err raised

  -- Inversion of a successful bind.
  pub >>=-eq-ok :
      {A B : Type ℓ} (m : Result E A) (next : A → Result E B) {out : B}
      → (m >>= next) ≡ ok out
      → (value : A) × (m ≡ ok value) × (next value ≡ ok out)
  >>=-eq-ok (err raised) next done = cc
  >>=-eq-ok (ok value) next done = (value, refl, done)

  -- A lookup `mapping[key]`: `missing` is the KeyError of an absent key.
  abbrev pub or_raise : {A : Type ℓ} → E → Option A → Result E A
  or_raise e none = err e
  or_raise e (some a) = ok a
