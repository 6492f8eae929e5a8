-- ===== src/Model/Refs.antt =====
-- parse_ref and TargetId.as_ref.
use doc_lattice.Prelude.{
  ◌≡◌, ◌≢◌, ◌↔◌, inl, inr, refl, sym, ap, subst, Option, none, some, [], ◌∷◌, ◌++◌, All, arith,
  if◌then◌else◌, Bool-cases, ◌==◌, ==_iff, nat_eq, list_eq, option_eq,
}
use doc_lattice.Text.{Text}
use doc_lattice.Model.{TargetId, hash_sign, as_ref, rsplit_hash, parse_ref, file_target}

abbrev pub NoHash : Text → Type 0
NoHash = All (λ c. c ≢ hash_sign)

-- What rsplit says of the text: cut at the last `#`, or no `#` at all.
abbrev Cut : Text → Option (Text × Text) → Type 0
Cut ref none = NoHash ref
Cut ref (some (before, after)) = (ref ≡ before ++ (hash_sign ∷ after)) × NoHash after

rsplit_hash-Cut : (ref : Text) → Cut ref (rsplit_hash ref)
unfolding rsplit_hash
rsplit_hash-Cut [] = tt
rsplit_hash-Cut (c ∷ rest) = step (rsplit_hash rest) (rsplit_hash-Cut rest)
  where
    step :
        (o : Option (Text × Text))
        → Cut rest o
        → Cut (c ∷ rest) (elim o [
          | some (before, after) ↦ some (c ∷ before, after)
          | none ↦ if c == hash_sign then some ([], rest) else none
        ])
    step (some (before, after)) h = (ap (λ r. c ∷ r) h.0, h.1)
    step none h = elim (Bool-cases (c == hash_sign)) [
      | inl e ↦ rw e (ap (λ x. x ∷ rest) ((==_iff c hash_sign).0 e), h)
      | inr e ↦ rw e (ground arith, h)
    ]

rsplit_hash-none : (ref : Text) → NoHash ref → rsplit_hash ref ≡ none
unfolding rsplit_hash
rsplit_hash-none [] h = refl
rsplit_hash-none (c ∷ rest) h = ground (arith, rsplit_hash-none rest h.1)

rsplit_hash_at :
    (before after : Text)
    → NoHash after
    → rsplit_hash (before ++ (hash_sign ∷ after)) ≡ some (before, after)
unfolding rsplit_hash
rsplit_hash_at [] after h = rw (rsplit_hash-none after h)
rsplit_hash_at (c ∷ before) after h = rw (rsplit_hash_at before after h)

-- Every ref is the spelling of the target that it is parsed to.
pub as_ref-parse_ref : (ref : Text) → as_ref (parse_ref ref) ≡ ref
unfolding as_ref parse_ref
as_ref-parse_ref ref = step (rsplit_hash ref) (rsplit_hash-Cut ref)
  where
    step :
        (o : Option (Text × Text))
        → Cut ref o
        → as_ref (elim o [
          | some (file_id, anchor) ↦ record { file_id = file_id; anchor = some anchor }
          | none ↦ file_target ref
        ])
          ≡ ref
    step none h = refl
    step (some (before, after)) h = sym h.0

-- The spelling of a target is unambiguous: a file id without `#` alone, or an anchor without `#`.
abbrev pub IsSpellable : TargetId → Type 0
IsSpellable t = elim t.anchor [ none ↦ NoHash t.file_id | some a ↦ NoHash a ]

abbrev target : Text → Option Text → TargetId
target file_id anchor = record { file_id = file_id; anchor = anchor }

parse_ref-as_ref_at :
    (f : Text) (a : Option Text)
    → (parse_ref (as_ref (target f a)) ≡ target f a) ↔ IsSpellable (target f a)
unfolding as_ref parse_ref
parse_ref-as_ref_at f none =
    (spelled (rsplit_hash f) (rsplit_hash-Cut f), λ h. rw (rsplit_hash-none f h))
  where
    spelled :
        (o : Option (Text × Text))
        → Cut f o
        → (elim o [
          | some (file_id, anchor) ↦ record { file_id = file_id; anchor = some anchor }
          | none ↦ file_target f
        ])
          ≡ target f none
        → NoHash f
    spelled none h e = h
    spelled (some (b, c)) h e = cc (ap (λ (t : TargetId). t.anchor) e)
parse_ref-as_ref_at f (some a) = (
  spelled (rsplit_hash (f ++ (hash_sign ∷ a))) (rsplit_hash-Cut (f ++ (hash_sign ∷ a))),
  λ h. rw (rsplit_hash_at f a h),
)
  where
    spelled :
        (o : Option (Text × Text))
        → Cut (f ++ (hash_sign ∷ a)) o
        → (elim o [
          | some (file_id, anchor) ↦ record { file_id = file_id; anchor = some anchor }
          | none ↦ file_target (f ++ (hash_sign ∷ a))
        ])
          ≡ target f (some a)
        → NoHash a
    spelled none h e = cc (ap (λ (t : TargetId). t.anchor) e)
    spelled (some (b, c)) h e =
        let same : c ≡ a = cc (ap (λ (t : TargetId). t.anchor) e) in subst NoHash same h.1

-- A target comes back from its spelling exactly when that spelling is unambiguous.
pub parse_ref-as_ref : (t : TargetId) → (parse_ref (as_ref t) ≡ t) ↔ IsSpellable t
parse_ref-as_ref t = parse_ref-as_ref_at t.file_id t.anchor
