-- ===== src/LinearQuery/Partition.antt =====
-- partition_identifiers.
use doc_lattice.Prelude.{
  ◌≤◌, ◌≡◌, ◌≢◌, ◌↔◌, ◌⊎◌, inl, inr, ⊎_elim, refl, sym, ap, ◌∙◌, subst, Bool, true, false, ◌&&◌,
  ◌||◌, Option, none, some, List, [], ◌∷◌, ◌++◌, Memᴰ, Memᴰ-append, length, arith, ltb,
  if◌then◌else◌, is_some, Option-cases, ◌==◌, ==_iff, nat_eq, list_eq, option_eq, contains,
  contains_iff,
}
use mathlib.Core.List.Memᴰ
use doc_lattice.Text.{Text}
use doc_lattice.Dict.{Dict, get, put}
use doc_lattice.Dict.Laws.{get-put}
use doc_lattice.Sets.{union, union-mem}
use doc_lattice.Result.{ok, err, >>=-eq-ok}
use doc_lattice.Tickets.{BlockedReason, malformed, cross_team, not_found}
use doc_lattice.LinearQuery.Identifiers.{Identifies}
use doc_lattice.LinearQuery.Refusals.{
  IsTeam, IsQueried, IsForeign, refusal_iff, refusal_known, check_team_iff,
}
use doc_lattice.LinearQuery.{
  refusal, partition_from, check_team, partition_identifiers, max_identifiers, too_many_tickets,
}

module _ (team : Option Text) where
  partition_from-valid :
      (ids valid : List Text) (rejected : Dict Text BlockedReason) (x : Text)
      → Memᴰ x (partition_from team ids valid rejected).0
        ↔ (Memᴰ x valid ⊎ (Memᴰ x ids × (refusal team x ≡ none)))
  unfolding partition_from
  partition_from-valid [] valid rejected x =
      (inl, ⊎_elim (λ m. m) (λ (m, _). absurd (Memᴰ.not-nil m)))
  partition_from-valid (id ∷ ids) valid rejected x = elim (Option-cases (refusal team id)) [
    | inl accepted ↦
        rw (partition_from, accepted)
          (let next = partition_from-valid ids (valid ++ id ∷ []) rejected x in
            (
              λ m. elim (next.0 m) [
                | inl old ↦ elim ((Memᴰ-append x valid (id ∷ [])).0 old) [
                  | inl before ↦ inl before
                  | inr here ↦ inr (
                    Memᴰ.head (Memᴰ.eq_of_singleton here),
                    ap (refusal team) (Memᴰ.eq_of_singleton here) ∙ accepted,
                  )
                ]
                | inr (later, fine) ↦ inr (Memᴰ.tail later, fine)
              ],
              λ m. next.1 (elim m [
                | inl before ↦ inl (Memᴰ.append_left (id ∷ []) before)
                | inr (k, fine) ↦ elim (Memᴰ.cases_cons k) [
                  | inl here ↦ inl (Memᴰ.append_right valid (Memᴰ.head here))
                  | inr later ↦ inr (later, fine)
                ]
              ]),
            ))
    | inr (reason, refused) ↦
        rw (partition_from, refused)
          (let next = partition_from-valid ids valid (put rejected id reason) x in
            (
              λ m. elim (next.0 m) [
                | inl before ↦ inl before
                | inr (later, fine) ↦ inr (Memᴰ.tail later, fine)
              ],
              λ m. next.1 (elim m [
                | inl before ↦ inl before
                | inr (k, fine) ↦ elim (Memᴰ.cases_cons k) [
                  | inl here ↦ cc (here, fine, refused)
                  | inr later ↦ inr (later, fine)
                ]
              ]),
            ))
  ]

  partition_from-rejected :
      (ids valid : List Text) (rejected : Dict Text BlockedReason) (x : Text)
      → get (partition_from team ids valid rejected).1 x
        ≡ (if contains ids x && is_some (refusal team x) then refusal team x else get rejected x)
  unfolding partition_from contains
  partition_from-rejected [] valid rejected x = refl
  partition_from-rejected (id ∷ ids) valid rejected x = elim (Option-cases (refusal team id)) [
    | inl accepted ↦
        rw (partition_from, accepted, partition_from-rejected ids (valid ++ id ∷ []) rejected x)
          (by_id (id == x) refl accepted)
    | inr (reason, refused) ↦
        rw
          (
            partition_from,
            refused,
            partition_from-rejected ids valid (put rejected id reason) x,
            get-put rejected id x reason,
          )
          (by_reason reason (id == x) refl refused)
  ]
    where
      by_id :
          (b : Bool)
          → (id == x) ≡ b
          → refusal team id ≡ none
          → (if contains ids x && is_some (refusal team x) then refusal team x else get rejected x)
            ≡ (if (b || contains ids x) && is_some (refusal team x)
                then refusal team x
                else get rejected x)
      by_id true same accepted =
          (let none' = sym (ap (refusal team) ((==_iff id x).0 same)) ∙ accepted in ground arith)
      by_id false other accepted = refl

      by_reason :
          (reason : BlockedReason) (b : Bool)
          → (id == x) ≡ b
          → refusal team id ≡ some reason
          → (if contains ids x && is_some (refusal team x)
              then refusal team x
              else if b
              then some reason
              else get rejected x)
            ≡ (if (b || contains ids x) && is_some (refusal team x)
                then refusal team x
                else get rejected x)
      by_reason reason true same refused =
          (let some' = sym (ap (refusal team) ((==_iff id x).0 same)) ∙ refused in ground arith)
      by_reason reason false other refused = refl

-- The team is well formed, and the identifiers are few enough once each is counted once.
abbrev pub IsAcceptable : List Text → Option Text → Type 0
IsAcceptable ids team = IsTeam team × (length (union [] ids) ≤ max_identifiers)

-- The same outcome, by the tests of the code.
partition_identifiers_run :
    (ids : List Text) (team : Option Text)
    → (((out : List Text × Dict Text BlockedReason) × (partition_identifiers ids team ≡ ok out))
        ↔ ((check_team team ≡ ok team) × (length (union [] ids) ≤ max_identifiers)))
      × ((out : List Text × Dict Text BlockedReason)
          → partition_identifiers ids team ≡ ok out
          → (x : Text)
          → (Memᴰ x out.0 ↔ (Memᴰ x ids × (refusal team x ≡ none)))
            × (get out.1 x ≡ (if contains (union [] ids) x then refusal team x else none)))
unfolding partition_identifiers check_team get
partition_identifiers_run ids team = (
  (
    λ (out, e).
        let (t, checked, e') = >>=-eq-ok (check_team team) _ e in
        (
          team_kept team t checked,
          by_size (ltb max_identifiers (length (union [] ids))) refl t out e',
        ),
    λ (checked, small). (partition_from team (union [] ids) [] [], rw (checked) (ground arith)),
  ),
  λ out e x.
      let (t, checked, e') = >>=-eq-ok (check_team team) _ e in
      let same =
        whole (ltb max_identifiers (length (union [] ids))) t out e'
        ∙ ap (λ y. partition_from y (union [] ids) [] []) (team_same team t checked) in
      subst
        (λ (o : List Text × Dict Text BlockedReason).
          (Memᴰ x o.0 ↔ (Memᴰ x ids × (refusal team x ≡ none)))
          × (get o.1 x ≡ (if contains (union [] ids) x then refusal team x else none)))
        (sym same)
        (
          (
            λ m. elim ((partition_from-valid team (union [] ids) [] [] x).0 m) [
              | inl bad ↦ absurd (Memᴰ.not-nil bad)
              | inr (k, fine) ↦ (given x k, fine)
            ],
            λ (m, fine).
                (partition_from-valid team (union [] ids) [] [] x).1
                  (inr ((union-mem [] ids x).1 (inr m), fine)),
          ),
          partition_from-rejected team (union [] ids) [] [] x
              ∙ without (contains (union [] ids) x) (refusal team x),
        ),
)
  where
    team_kept : (team t : Option Text) → check_team team ≡ ok t → check_team team ≡ ok team
    team_kept none t h = refl
    team_kept (some k) t h = ground arith

    by_size :
        (b : Bool)
        → ltb max_identifiers (length (union [] ids)) ≡ b
        → (t : Option Text) (out : List Text × Dict Text BlockedReason)
        → (if b
            then err (too_many_tickets (length (union [] ids)))
            else ok (partition_from t (union [] ids) [] []))
          ≡ ok out
        → length (union [] ids) ≤ max_identifiers
    by_size true h t out e = cc
    by_size false h t out e = ground arith

    team_same : (team t : Option Text) → check_team team ≡ ok t → t ≡ team
    team_same none t h = cc
    team_same (some k) t h = ground arith

    whole :
        (b : Bool) (t : Option Text) (out : List Text × Dict Text BlockedReason)
        → (if b
            then err (too_many_tickets (length (union [] ids)))
            else ok (partition_from t (union [] ids) [] []))
          ≡ ok out
        → out ≡ partition_from t (union [] ids) [] []
    whole true t out e = cc
    whole false t out e = cc

    given : (x : Text) → Memᴰ x (union [] ids) → Memᴰ x ids
    given x k = ⊎_elim (λ bad. absurd (Memᴰ.not-nil bad)) (λ m. m) ((union-mem [] ids x).0 k)

    without :
        (b : Bool) (o : Option BlockedReason)
        → (if b && is_some o then o else none) ≡ (if b then o else none)
    without true none = refl
    without true (some r) = refl
    without false o = refl

-- partition_identifiers returns exactly where the team is absent or a team key (a capital letter, then capital letters
-- and digits) and at most max_identifiers distinct identifiers are given. Then the queried ones are the given ones that
-- are made of a team key, a dash and a number with no leading zero, the key being that of the team if there is one. The
-- given ones that are not so made are refused as malformed, and those under another key than that of the team as of
-- another team. No other reason is given, and nothing else is refused.
pub partition_identifiers_exact :
    (ids : List Text) (team : Option Text)
    → (((out : List Text × Dict Text BlockedReason) × (partition_identifiers ids team ≡ ok out))
        ↔ IsAcceptable ids team)
      × ((out : List Text × Dict Text BlockedReason)
          → partition_identifiers ids team ≡ ok out
          → (x : Text)
          → (Memᴰ x out.0 ↔ (Memᴰ x ids × IsQueried team x))
            × ((get out.1 x ≡ some malformed)
                ↔ (Memᴰ x ids × (¬ ((key : Text) × Identifies key x))))
            × ((get out.1 x ≡ some cross_team) ↔ (Memᴰ x ids × IsForeign team x))
            × (get out.1 x ≢ some not_found))
partition_identifiers_exact ids team =
    let (returns, described) = partition_identifiers_run ids team in
    let team_iff = check_team_iff team in
    (
      (
        λ run. let (h, k) = returns.0 run in (team_iff.0 h, k),
        λ (h, k). returns.1 (team_iff.1 h, k),
      ),
      λ out e x.
          let (kept, refused) = described out e x in
          let (queried, foreign, bad) = refusal_iff team x in
          let given = union-mem [] ids x in
          let listed = contains_iff (union [] ids) x in
          let mine : Memᴰ x ids → contains (union [] ids) x ≡ true =
            λ m. listed.1 (given.1 (inr m)) in
          let yours : contains (union [] ids) x ≡ true → Memᴰ x ids =
            λ c. ⊎_elim (λ n. absurd (Memᴰ.not-nil n)) (λ m. m) (given.0 (listed.0 c)) in
          (
            (λ m. let (k, h) = kept.0 m in (k, queried.0 h), λ (k, q). kept.1 (k, queried.1 q)),
            (
              λ r. let (k, h) = by_reason _ _ malformed (sym refused ∙ r) in (yours k, bad.0 h),
              λ (k, b). refused ∙ rw (mine k) (bad.1 b),
            ),
            (
              λ r.
                  let (k, h) = by_reason _ _ cross_team (sym refused ∙ r) in (yours k, foreign.0 h),
              λ (k, f). refused ∙ rw (mine k) (foreign.1 f),
            ),
            λ r. let (k, h) = by_reason _ _ not_found (sym refused ∙ r) in refusal_known team x h,
          ),
    )
  where
    by_reason :
        (b : Bool) (o : Option BlockedReason) (reason : BlockedReason)
        → (if b then o else none) ≡ some reason
        → (b ≡ true) × (o ≡ some reason)
    by_reason true o reason e = (refl, e)
    by_reason false o reason e = cc
