-- ===== src/Transaction/Classify.antt =====
-- _classify_destination under a schedule, of a destination that is at one of its images, and the order of a rollback.
use doc_lattice.Prelude.{
  ℕ, ◌≡◌, ◌⊎◌, inl, inr, some, List, [], ◌∷◌, Memᴰ, Memᴰ-append, if◌then◌else◌, Bool-cases, ◌==◌,
  ==_iff, nat_eq, list_eq, option_eq,
}
use mathlib.Core.List.Memᴰ
use doc_lattice.Text.{Text}
use doc_lattice.Disk.{Bytes, regular, Disk, World, is_os_error, node_at, pure}
use doc_lattice.Transaction.{Entry}
use doc_lattice.Transaction.Runs.{Calm, Ends, try-Ends}
use doc_lattice.Transaction.Calls.{Plain, Missing-is_os_error, file_sha256-Ends}
use doc_lattice.Transaction.Images.{HashesTo, HashesTo-Plain}
use doc_lattice.Transaction.Rollback.{
  DestinationState, after, before, other, classify_digest, classify_read, classify_destination,
  reversed,
}

pub reversed-mem : (entries : List Entry) (e : Entry) → Memᴰ e entries → Memᴰ e (reversed entries)
unfolding reversed
reversed-mem [] e m = absurd (Memᴰ.not-nil m)
reversed-mem (x ∷ entries) e m = elim (Memᴰ.cases_cons m) [
  | inl same ↦ (Memᴰ-append e (reversed entries) (x ∷ [])).1 (inr (Memᴰ.head same))
  | inr later ↦ (Memᴰ-append e (reversed entries) (x ∷ [])).1 (inl (reversed-mem entries e later))
]

pub mem-reversed : (entries : List Entry) (e : Entry) → Memᴰ e (reversed entries) → Memᴰ e entries
unfolding reversed
mem-reversed [] e m = m
mem-reversed (x ∷ entries) e m = elim ((Memᴰ-append e (reversed entries) (x ∷ [])).0 m) [
  | inl early ↦ Memᴰ.tail (mem-reversed entries e early)
  | inr last ↦ elim (Memᴰ.cases_cons last) [
    | inl same ↦ Memᴰ.head same
    | inr none_left ↦ absurd (Memᴰ.not-nil none_left)
  ]
]

module _ (sha256_hex : Bytes → Text) (Noisy : Type 0) where
  module _ (P : Disk → Type 0) (e : Entry) where
    -- What _classify_destination answers of a destination that is at one of its images.
    abbrev pub Classified : DestinationState → Disk → Type 0
    Classified after d = P d × HashesTo sha256_hex (node_at d e.destination) e.after_sha256
    Classified before d = P d × HashesTo sha256_hex (node_at d e.destination) e.before_sha256
    Classified other d = ⊥

    abbrev pub AtImage : Disk → Type 0
    AtImage d =
        HashesTo sha256_hex (node_at d e.destination) e.before_sha256
        ⊎ HashesTo sha256_hex (node_at d e.destination) e.after_sha256

    AtImage-Plain : (d : Disk) → AtImage d → Plain (node_at d e.destination)
    AtImage-Plain d (inl h) = HashesTo-Plain sha256_hex _ _ h
    AtImage-Plain d (inr h) = HashesTo-Plain sha256_hex _ _ h

    compared :
        (bytes : Bytes) (inode : ℕ) (w : World)
        → Calm Noisy w
        → P w.disk
        → AtImage w.disk
        → node_at w.disk e.destination ≡ some (regular inode bytes)
        → Ends Noisy Classified
            (λ failure d. P d × Noisy)
            P
            (pure (classify_digest e (sha256_hex bytes)) w)
    compared bytes inode w calm p at held = elim (Bool-cases (sha256_hex bytes == e.after_sha256)) [
      | inl is_after ↦
          rw (is_after, if◌then◌else◌)
            (record {
              calm = calm;
              holds = (p, rw held ((==_iff (sha256_hex bytes) e.after_sha256).0 is_after));
            })
      | inr not_after ↦ elim (Bool-cases (sha256_hex bytes == e.before_sha256)) [
        | inl is_before ↦
            rw (not_after, is_before, if◌then◌else◌)
              (record {
                calm = calm;
                holds = (p, rw held ((==_iff (sha256_hex bytes) e.before_sha256).0 is_before));
              })
        | inr not_before ↦ elim (rw held at at) [
          | inl h ↦ cc ((==_iff (sha256_hex bytes) e.before_sha256).1 h)
          | inr h ↦ cc ((==_iff (sha256_hex bytes) e.after_sha256).1 h)
        ]
      ]
    ]

    pub classify_destination-Ends :
        ((d : Disk) → P d → AtImage d)
        → (w : World) → Calm Noisy w
        → P w.disk
        → Ends Noisy Classified (λ failure d. P d × Noisy) P (classify_destination sha256_hex e w)
    unfolding classify_destination
    classify_destination-Ends at w calm p =
        try-Ends is_os_error _ _
          (file_sha256-Ends Noisy P w calm p sha256_hex e.destination
            (AtImage-Plain w.disk (at w.disk p)))
          (λ failure d m uncaught.
            absurd (Missing-is_os_error Noisy P e.destination failure d m uncaught))
          (λ failure w' calm' (p', why) in_clause. elim why [
            | inl (is, missing) ↦ elim (rw missing at (at w'.disk p')) [
              | inl h ↦ absurd h
              | inr h ↦ absurd h
            ]
            | inr (is, noise) ↦
                rw (is, classify_read) (record { calm = calm'; holds = (p', noise) })
          ])
          λ digest w' calm' (p', inode, bytes, held, is).
            rw (is, classify_read) (compared bytes inode w' calm' p' (at w'.disk p') held)
