-- ===== src/LinearQuery/Refusals.antt =====
-- Why partition_identifiers refuses a team or an identifier, by the grammar of identifiers.
use doc_lattice.Prelude.{
  ◌≡◌, ◌≢◌, ◌↔◌, ◌⊎◌, inl, inr, refl, sym, ◌∙◌, true, Option, none, some, arith, ◌==◌, ==_iff,
  nat_eq, list_eq, option_eq, Bool-cases,
}
use doc_lattice.Text.{Text}
use doc_lattice.Result.{ok}
use doc_lattice.Tickets.{BlockedReason, malformed, cross_team, not_found}
use doc_lattice.LinearQuery.Identifiers.{
  IsTeamKey, Identifies, is_valid_team_key_iff, is_identifier_iff, split_dash-key,
}
use doc_lattice.LinearQuery.{refusal, check_team, is_identifier}

-- The team is absent or a team key, and the identifiers are few enough once each is counted once.
abbrev pub IsTeam : Option Text → Type 0
IsTeam none = Unit {0}
IsTeam (some key) = IsTeamKey key

-- An identifier under a key that the team, if there is one, does not rule out.
abbrev pub IsQueried : Option Text → Text → Type 0
IsQueried team x =
    (key : Text) × Identifies key x × ((asked : Text) → team ≡ some asked → key ≡ asked)

-- An identifier under another key than that of the team.
abbrev pub IsForeign : Option Text → Text → Type 0
IsForeign team x =
    (key : Text) × Identifies key x × ((asked : Text) × (team ≡ some asked) × (key ≢ asked))

refusal-cases :
    (team : Option Text) (x : Text)
    → (IsQueried team x × (refusal team x ≡ none))
      ⊎ ((IsForeign team x × (refusal team x ≡ some cross_team))
          ⊎ ((¬ ((key : Text) × Identifies key x)) × (refusal team x ≡ some malformed)))
unfolding refusal
refusal-cases team x = elim (Bool-cases (is_identifier x)) [
  | inr other ↦
      inr (inr (λ fits. cc ((is_identifier_iff x).1 fits, other), rw (refusal, other) refl))
  | inl fits ↦ by_team team ((is_identifier_iff x).0 fits) fits
]
  where
    by_team :
        (t : Option Text)
        → ((key : Text) × Identifies key x)
        → is_identifier x ≡ true
        → (IsQueried t x × (refusal t x ≡ none))
          ⊎ ((IsForeign t x × (refusal t x ≡ some cross_team))
              ⊎ ((¬ ((key : Text) × Identifies key x)) × (refusal t x ≡ some malformed)))
    by_team none (key, named) fits = inl ((key, named, λ asked e. cc), rw fits refl)
    by_team (some asked) (key, named) fits =
        let before = split_dash-key key x named in
        elim (Bool-cases (key == asked)) [
          | inl same ↦ inl (
            (key, named, λ a e. (==_iff key asked).0 same ∙ some_inj asked a e),
            rw (fits, before, same) refl,
          )
          | inr other ↦ inr (
              inl (
                (key, named, (asked, refl, λ e. cc ((==_iff key asked).1 e, other))),
                rw (fits, before, other) refl,
              ))
        ]
      where
        some_inj : (a b : Text) → ◌≡◌ {A = Option Text} (some a) (some b) → a ≡ b
        some_inj a b e = cc

-- A text is an identifier under one key.
Identifies-key : (a b x : Text) → Identifies a x → Identifies b x → a ≡ b
Identifies-key a b x h k = sym (split_dash-key a x h) ∙ split_dash-key b x k

queried_foreign : (team : Option Text) (x : Text) → IsQueried team x → IsForeign team x → ⊥
queried_foreign team x (key, named, fits) (other, named', (asked, e, differs)) =
    differs (Identifies-key other key x named' named ∙ fits asked e)

pub refusal_iff :
    (team : Option Text) (x : Text)
    → ((refusal team x ≡ none) ↔ IsQueried team x)
      × ((refusal team x ≡ some cross_team) ↔ IsForeign team x)
      × ((refusal team x ≡ some malformed) ↔ (¬ ((key : Text) × Identifies key x)))
refusal_iff team x = elim (refusal-cases team x) [
  | inl (queried, e) ↦ (
    (λ _. queried, λ _. e),
    (λ e'. cc, λ f. absurd (queried_foreign team x queried f)),
    (λ e'. cc, λ none'. absurd (none' (queried.0, queried.1))),
  )
  | inr (inl (foreign, e)) ↦ (
    (λ e'. cc, λ q. absurd (queried_foreign team x q foreign)),
    (λ _. foreign, λ _. e),
    (λ e'. cc, λ none'. absurd (none' (foreign.0, foreign.1))),
  )
  | inr (inr (bad, e)) ↦ (
    (λ e'. cc, λ q. absurd (bad (q.0, q.1))),
    (λ e'. cc, λ f. absurd (bad (f.0, f.1))),
    (λ _. bad, λ _. e),
  )
]

pub refusal_known : (team : Option Text) (x : Text) → refusal team x ≢ some not_found
refusal_known team x h = elim (refusal-cases team x) [
  | inl (_, e) ↦ apart (sym h ∙ e)
  | inr (inl (_, e)) ↦ apart_other (sym h ∙ e)
  | inr (inr (_, e)) ↦ apart_bad (sym h ∙ e)
]
  where
    apart : ◌≢◌ {A = Option BlockedReason} (some not_found) none
    apart e = cc

    apart_other : ◌≢◌ {A = Option BlockedReason} (some not_found) (some cross_team)
    apart_other e = cc

    apart_bad : ◌≢◌ {A = Option BlockedReason} (some not_found) (some malformed)
    apart_bad e = cc

pub check_team_iff : (team : Option Text) → (check_team team ≡ ok team) ↔ IsTeam team
unfolding check_team
check_team_iff none = (λ _. tt, λ _. refl)
check_team_iff (some key) = (
  λ e. (is_valid_team_key_iff key).0 (ground arith),
  λ h. rw ((is_valid_team_key_iff key).1 h) refl,
)
