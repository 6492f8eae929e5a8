-- ===== src/LinearQuery/Identifiers.antt =====
-- The grammar of team keys and identifiers, and the tests of linear_query.py that read it.
use doc_lattice.Prelude.{
  ℕ, ◌≤◌, ◌≡◌, ◌&&◌, ◌↔◌, ◌⊎◌, inl, inr, refl, true, false, [], ◌∷◌, ◌++◌, All, arith, Bool-cases,
  ◌==◌, ==_iff, nat_eq, list_eq, option_eq, ap, List-cases, Bool, is_empty, ◌∙◌, subst, sym,
}
use doc_lattice.Text.{Text}
use doc_lattice.Sections.{skip_run}
use doc_lattice.LinearQuery.{
  dash, is_team_char, is_digit, is_valid_team_key, is_issue_number, is_identifier, split_dash,
  is_upper,
}

-- A capital letter of ASCII, and a digit.
abbrev pub IsCapital : ℕ → Type 0
IsCapital c = (65 ≤ c) × (c ≤ 90)

abbrev pub IsDigit : ℕ → Type 0
IsDigit c = (48 ≤ c) × (c ≤ 57)

-- A capital letter, and then capital letters and digits.
abbrev pub IsTeamKey : Text → Type 0
IsTeamKey [] = ⊥
IsTeamKey (c ∷ rest) = IsCapital c × All (λ d. IsCapital d ⊎ IsDigit d) rest

-- A number with no leading zero.
abbrev pub IsNumber : Text → Type 0
IsNumber [] = ⊥
IsNumber (c ∷ rest) = IsDigit c × All IsDigit rest × ((c ≡ 48) → rest ≡ [])

-- An identifier is made of a team key, a dash and a number.
abbrev pub Identifies : Text → Text → Type 0
Identifies key x = (number : Text) × (x ≡ key ++ dash ∷ number) × IsTeamKey key × IsNumber number

is_digit_iff : (c : ℕ) → (is_digit c ≡ true) ↔ IsDigit c
is_digit_iff c = ground arith

is_team_char_iff : (c : ℕ) → (is_team_char c ≡ true) ↔ (IsCapital c ⊎ IsDigit c)
unfolding is_team_char
is_team_char_iff c = ground arith

module _ (p : ℕ → Bool) (P : ℕ → Type 0) (reads : (c : ℕ) → (p c ≡ true) ↔ P c) where
  skip_run-All : (text : Text) → (is_empty (skip_run p text) ≡ true) ↔ All P text
  unfolding skip_run
  skip_run-All [] = (λ _. tt, λ _. refl)
  skip_run-All (c ∷ rest) = elim (Bool-cases (p c)) [
    | inl fits ↦
        rw fits (λ e. ((reads c).0 fits, (skip_run-All rest).0 e), λ h. (skip_run-All rest).1 h.1)
    | inr stops ↦ rw stops (λ e. cc, λ h. cc ((reads c).1 h.0, stops))
  ]

  -- Where a run stops.
  skip_run-stop :
      (text : Text) (d : ℕ) (after : Text)
      → skip_run p text ≡ d ∷ after
      → (front : Text) × (text ≡ front ++ d ∷ after) × All P front
  unfolding skip_run
  skip_run-stop [] d after e = cc
  skip_run-stop (c ∷ rest) d after e = elim (Bool-cases (p c)) [
    | inl fits ↦
        let (front, parts, run) = skip_run-stop rest d after (rw fits at e) in
        (c ∷ front, ap (λ r. c ∷ r) parts, ((reads c).0 fits, run))
    | inr stops ↦ ([], rw stops at e, tt)
  ]

  skip_run-append :
      (front : Text) (d : ℕ) (after : Text)
      → All P front
      → p d ≡ false
      → skip_run p (front ++ d ∷ after) ≡ d ∷ after
  unfolding skip_run
  skip_run-append [] d after run stops = rw stops refl
  skip_run-append (c ∷ front) d after run stops =
      rw ((reads c).1 run.0) (skip_run-append front d after run.1 stops)

is_upper_iff : (c : ℕ) → (is_upper c ≡ true) ↔ IsCapital c
is_upper_iff c = ground arith

-- is_valid_team_key reads team keys.
pub is_valid_team_key_iff : (key : Text) → (is_valid_team_key key ≡ true) ↔ IsTeamKey key
unfolding is_valid_team_key
is_valid_team_key_iff [] = (λ e. cc, λ h. absurd h)
is_valid_team_key_iff (c ∷ rest) =
    let run = skip_run-All is_team_char _ is_team_char_iff rest in
    let first = is_upper_iff c in
    (λ e. (first.0 (ground arith), run.0 (ground arith)), λ (h, k). rw (first.1 h, run.1 k) refl)

is_issue_number_iff : (number : Text) → (is_issue_number number ≡ true) ↔ IsNumber number
unfolding is_issue_number
is_issue_number_iff [] = (λ e. cc, λ h. absurd h)
is_issue_number_iff (c ∷ rest) =
    let run = skip_run-All is_digit _ is_digit_iff rest in
    elim (Bool-cases (c == 48)) [
      | inl zero' ↦
          let same = (==_iff c 48).0 zero' in
          elim (List-cases rest) [
            | inl none' ↦
                rw none' ((λ _. ((omega arith, omega arith), tt, λ _. refl)), λ _. rw zero' refl)
            | inr (d, more, e) ↦
                (λ h. absurd (ground (arith, e, same)), λ (_, _, alone). cc (alone same, e))
          ]
      | inr other ↦ (
        λ e.
            let first : IsDigit c = ground (arith) in
            (first, run.0 (ground (arith)), λ same. cc ((==_iff c 48).1 same, other)),
        λ (first, digits, _). rw (run.1 digits) (ground (arith, ==_iff c 48)),
      )
    ]

team_char-dash : is_team_char dash ≡ false
unfolding is_team_char
team_char-dash = refl

-- is_identifier reads identifiers.
pub is_identifier_iff : (x : Text) → (is_identifier x ≡ true) ↔ ((key : Text) × Identifies key x)
unfolding is_identifier
is_identifier_iff [] = (λ e. cc, λ (key, (number, parts, k, n)). empty key number parts k)
  where
    empty :
        (key number : Text) → [] ≡ key ++ dash ∷ number → IsTeamKey key → is_identifier [] ≡ true
    empty [] number parts k = absurd k
    empty (c ∷ key) number parts k = cc
is_identifier_iff (c ∷ rest) = (
  λ e. reads (skip_run is_team_char rest) refl e,
  λ (key, (number, parts, k, n)). written key number parts k n,
)
  where
    reads :
        (after : Text)
        → skip_run is_team_char rest ≡ after
        → (is_upper c
            && elim after [ [] ↦ false | d ∷ number ↦ d == dash && is_issue_number number ])
          ≡ true
        → (key : Text) × Identifies key (c ∷ rest)
    reads [] stop e = absurd (ground arith)
    reads (d ∷ number) stop e =
        let (front, parts, run) =
          skip_run-stop is_team_char _ is_team_char_iff rest d number stop in
        let at_dash : (d == dash) ≡ true = ground arith in
        let same = (==_iff d dash).0 at_dash in
        (
          c ∷ front,
          (
            number,
            ap (λ r. c ∷ r) (parts ∙ ap (λ x. front ++ x ∷ number) same),
            ((is_upper_iff c).0 (ground arith), run),
            (is_issue_number_iff number).0 (ground arith),
          ),
        )

    written :
        (key number : Text)
        → c ∷ rest ≡ key ++ dash ∷ number
        → IsTeamKey key
        → IsNumber number
        → is_identifier (c ∷ rest) ≡ true
    written [] number parts k n = absurd k
    written (first ∷ front) number parts k n =
        subst (λ x. is_identifier x ≡ true) (sym parts)
          (rw
            (
              (is_upper_iff first).1 k.0,
              skip_run-append is_team_char _ is_team_char_iff front dash number k.1 team_char-dash,
              (is_issue_number_iff number).1 n,
            )
            refl)

-- The text before the first dash of an identifier is its key.
pub split_dash-key : (key x : Text) → Identifies key x → (split_dash x).0 ≡ key
unfolding split_dash
split_dash-key key x (number, parts, k, n) = ap (λ y. (split_dash y).0) parts ∙ before key k
  where
    run_before :
        (front : Text)
        → All (λ d. IsCapital d ⊎ IsDigit d) front
        → (split_dash (front ++ dash ∷ number)).0 ≡ front
    run_before [] run = refl
    run_before (d ∷ front) run =
        let other : (d == dash) ≡ false = elim (Bool-cases (d == dash)) [
          | inr e ↦ e
          | inl e ↦ absurd (
              let same = (==_iff d dash).0 e in
              elim run.0 [ inl h ↦ omega arith | inr h ↦ omega arith ])
        ] in
        rw (other) (ap (λ r. d ∷ r) (run_before front run.1))

    before : (key' : Text) → IsTeamKey key' → (split_dash (key' ++ dash ∷ number)).0 ≡ key'
    before [] k' = absurd k'
    before (c ∷ rest) k' = run_before (c ∷ rest) (inl k'.0, k'.1)
