-- ===== src/Slugs/Decimal.antt =====
-- The decimal suffixes of slugs.
use doc_lattice.Prelude.{
  ◌*◌, ◌/◌, ◌%◌, ℕ, zero, suc, ◌+◌, ◌-◌, ◌<◌, ◌≡◌, ◌≢◌, inl, inr, refl, sym, ap, ◌∙◌, [], ◌∷◌, ◌++◌,
  length, length-append, arith, ltb, Bool-cases, nat_eq, list_eq, option_eq,
}
use doc_lattice.Text.{Text}
use doc_lattice.Slugs.{digits, decimal, suffixed}

read_from : ℕ → Text → ℕ
read_from value [] = value
read_from value (c ∷ rest) = read_from (value * 10 + (c - 48)) rest

read_from-append :
    (value : ℕ) (front : Text) (c : ℕ)
    → read_from value (front ++ c ∷ []) ≡ read_from value front * 10 + (c - 48)
unfolding read_from
read_from-append value [] c = refl
read_from-append value (d ∷ front) c = read_from-append (value * 10 + (d - 48)) front c

read_from-digits : (rounds n : ℕ) → n < rounds → read_from 0 (digits rounds n) ≡ n
unfolding digits read_from
read_from-digits zero n h = absurd (omega (arith, h))
read_from-digits (suc rounds) n h = elim (Bool-cases (ltb n 10)) [
  | inl small ↦ rw small (omega arith)
  | inr large ↦ rw large (
      let tens : n / 10 < rounds = ground arith in
      let split = read_from-digits rounds (n / 10) tens in
      read_from-append 0 (digits rounds (n / 10)) (48 + n % 10) ∙ omega (arith, split))
]

decimal_inj : (m n : ℕ) → decimal m ≡ decimal n → m ≡ n
unfolding decimal
decimal_inj m n e =
    sym (read_from-digits (suc m) m (omega arith))
    ∙ ap (read_from 0) e
    ∙ read_from-digits (suc n) n (omega arith)

append_cancel : (base a b : Text) → base ++ a ≡ base ++ b → a ≡ b
append_cancel [] a b e = e
append_cancel (c ∷ base) a b e = append_cancel base a b (cc (e))

pub suffixed_inj : (base : Text) (m n : ℕ) → suffixed base m ≡ suffixed base n → m ≡ n
unfolding suffixed
suffixed_inj base m n e =
    decimal_inj m n (cc (append_cancel base (45 ∷ decimal m) (45 ∷ decimal n) e))

pub suffixed-neq-base : (base : Text) (n : ℕ) → suffixed base n ≢ base
unfolding suffixed
suffixed-neq-base base n e =
    absurd (omega (arith, ap length e, length-append base (45 ∷ decimal n)))
