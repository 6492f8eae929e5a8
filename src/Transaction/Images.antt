-- ===== src/Transaction/Images.antt =====
-- Staged images under a schedule: their authentication and their cleaning.
use doc_lattice.Prelude.{
  ℕ, ◌≡◌, inl, inr, refl, sym, ◌∙◌, Bool, true, false, Option, none, some, List, [], ◌∷◌, Memᴰ,
  ==_iff, nat_eq, list_eq, option_eq,
}
use doc_lattice.Text.{Text}
use doc_lattice.Disk.{
  Bytes, FilePath, Node, regular, irregular, Disk, World, is_os_error, remove, node_at, parent,
}
use doc_lattice.Transaction.{Artifact}
use doc_lattice.Transaction.Artifacts.{
  verify_node, verify_digest, verify_identity, authenticate_staged_artifact,
  authenticate_transaction_artifacts, cleanup_present, check_absence, cleanup_staged_artifact,
  cleanup_staged_artifacts,
}
use doc_lattice.Transaction.Runs.{Calm, Ends, resume-Ends, resume-Bool, try-Ends, relax}
use doc_lattice.Transaction.Calls.{
  Plain, Missing-is_os_error, lstat-Ends, file_sha256-Ends, sync-Ends,
}
use doc_lattice.Transaction.Removals.{Gone, durable_unlink-Ends, resync_after_unlink-Ends}

module _ (sha256_hex : Bytes → Text) where
  -- The file at the path is regular, and hashes to the digest.
  abbrev pub HashesTo : Option Node → Text → Type 0
  HashesTo none digest = ⊥
  HashesTo (some irregular) digest = ⊥
  HashesTo (some (regular inode bytes)) digest = sha256_hex bytes ≡ digest

  -- The image is the expected one, or absent.
  abbrev pub Fits : Option Node → Text → Type 0
  Fits none digest = Unit {0}
  Fits (some node) digest = HashesTo (some node) digest

  pub Fits-Plain : (o : Option Node) (digest : Text) → Fits o digest → Plain o
  Fits-Plain none digest fits = tt
  Fits-Plain (some (regular inode bytes)) digest fits = tt
  Fits-Plain (some irregular) digest fits = fits

  pub HashesTo-Fits : (o : Option Node) (digest : Text) → HashesTo o digest → Fits o digest
  HashesTo-Fits none digest hashes = tt
  HashesTo-Fits (some node) digest hashes = hashes

  pub HashesTo-Plain : (o : Option Node) (digest : Text) → HashesTo o digest → Plain o
  HashesTo-Plain none digest hashes = tt
  HashesTo-Plain (some (regular inode bytes)) digest hashes = tt
  HashesTo-Plain (some irregular) digest hashes = hashes

  module _ (Noisy : Type 0) (P : Disk → Type 0) (staged : FilePath) (expected : Text) where
    -- What authentication answers.
    abbrev pub Answer : Bool → Disk → Type 0
    Answer true d = P d × HashesTo (node_at d staged) expected
    Answer false d = P d × (node_at d staged ≡ none)

    -- The condition, with what stands at the path.
    Holding : Option Node → Disk → Type 0
    Holding o d = P d × (node_at d staged ≡ o)

    verify_identity-Ends :
        (inode : ℕ) (bytes : Bytes) (actual : Text)
        → HashesTo (some (regular inode bytes)) expected
        → actual ≡ sha256_hex bytes
        → (node : Node) (w : World) → Calm Noisy w
        → Holding (some (regular inode bytes)) w.disk
        → node_at w.disk staged ≡ some node
        → Ends Noisy Answer
            (λ failure d. P d × Noisy)
            P
            (verify_identity staged inode expected actual (inr node) w)
    unfolding Holding
    verify_identity-Ends inode bytes actual hashes e irregular w calm (p, held) seen = cc
    verify_identity-Ends inode bytes actual hashes e (regular verified found) w calm (p, held)
          seen =
        rw ((==_iff verified inode).1 cc, (==_iff actual expected).1 cc)
          (record { calm = calm; holds = (p, rw held hashes) })

    module _ (w : World) (calm : Calm Noisy w) (p : P w.disk) where
      regular-Ends :
          (inode : ℕ) (bytes : Bytes)
          → node_at w.disk staged ≡ some (regular inode bytes)
          → HashesTo (some (regular inode bytes)) expected
          → Ends Noisy Answer
              (λ failure d. P d × Noisy)
              P
              (verify_node sha256_hex staged expected (inr (regular inode bytes)) w)
      unfolding Holding
      regular-Ends inode bytes held hashes =
          try-Ends is_os_error _ _
            (relax _
              (file_sha256-Ends Noisy (Holding (some (regular inode bytes))) w calm (p, held)
                sha256_hex staged (rw held tt))
              (λ d h. h.0))
            (λ failure d m uncaught. absurd (
              Missing-is_os_error Noisy (Holding (some (regular inode bytes))) staged failure d m
                uncaught))
            (λ failure w' calm' ((p', held'), why) in_clause. elim why [
              | inl (e, missing) ↦ cc
              | inr (e, noise) ↦
                  rw (e, verify_digest) (record { calm = calm'; holds = (p', noise) })
            ])
            λ digest w' calm' ((p', held'), inode', bytes', e, d).
              try-Ends is_os_error _ _
                (relax _
                  (lstat-Ends Noisy (Holding (some (regular inode bytes))) w' calm' (p', held')
                    staged)
                  (λ d' h. h.0))
                (λ failure d' m uncaught. absurd (
                  Missing-is_os_error Noisy (Holding (some (regular inode bytes))) staged failure d'
                    m uncaught))
                (λ failure w2 calm2 ((p2, held2), why) in_clause. elim why [
                  | inl (e2, missing) ↦ cc
                  | inr (e2, noise) ↦
                      rw (e2, verify_identity) (record { calm = calm2; holds = (p2, noise) })
                ])
                λ node w2 calm2 (h2, e2).
                  verify_identity-Ends inode bytes digest hashes (cc) node w2 calm2 h2 e2

      node-Ends :
          (node : Node)
          → node_at w.disk staged ≡ some node
          → Fits (some node) expected
          → Ends Noisy Answer
              (λ failure d. P d × Noisy)
              P
              (verify_node sha256_hex staged expected (inr node) w)
      node-Ends (regular inode bytes) held fits = regular-Ends inode bytes held fits
      node-Ends irregular held fits = absurd fits

    module _ (w : World) (calm : Calm Noisy w) (p : P w.disk) where
      pub authenticate-Ends :
          Fits (node_at w.disk staged) expected
          → Ends Noisy Answer
              (λ failure d. P d × Noisy)
              P
              (authenticate_staged_artifact sha256_hex staged expected w)
      unfolding authenticate_staged_artifact Holding
      authenticate-Ends fits =
          try-Ends is_os_error _ _
            (relax _ (lstat-Ends Noisy (Holding (node_at w.disk staged)) w calm (p, refl) staged)
              (λ d h. h.0))
            (λ failure d m uncaught. absurd (
              Missing-is_os_error Noisy (Holding (node_at w.disk staged)) staged failure d m
                uncaught))
            (λ failure w' calm' ((p', held), why) in_clause. elim why [
              | inl (e, missing) ↦
                  rw (e, verify_node) (record { calm = calm'; holds = (p', missing) })
              | inr (e, noise) ↦ rw (e, verify_node) (record { calm = calm'; holds = (p', noise) })
            ])
            λ node w' calm' ((p', held), e).
              node-Ends w' calm' p' node e (rw (sym held ∙ e) at fits)

    module _ (keep : (d : Disk) → P d → P (remove staged d)) where
      cleanup_present-Ends :
          (present : Bool) (w : World)
          → Calm Noisy w
          → Answer present w.disk
          → Ends Noisy (λ _ d. P d) (λ failure d. P d × Noisy) P (cleanup_present staged present w)
      cleanup_present-Ends true w calm (p, hashes) =
          try-Ends is_os_error _ _
            (durable_unlink-Ends Noisy P staged keep w calm p
              (HashesTo-Plain (node_at w.disk staged) expected hashes))
            (λ failure d (p', noise, e) uncaught. (p', noise))
            (λ failure w' calm' (p', noise, e) in_clause.
              resume-Bool _ _ (resync_after_unlink-Ends Noisy P staged w' calm' p')
                (λ w2 calm2 v. record { calm = calm2; holds = v.0 })
                λ w2 calm2 v. record { calm = calm2; holds = (v.0, noise) })
            λ _ w' calm' gone. record { calm = calm'; holds = gone.0 }
      cleanup_present-Ends false w calm (p, missing) =
          try-Ends is_os_error _ _
            (relax _ (sync-Ends Noisy (Gone Noisy P staged) w calm (p, missing) (parent staged))
              (λ d g. g.0))
            (λ failure d (e, g, noise) uncaught. (g.0, noise))
            (λ failure w' calm' (e, g, noise) in_clause. record {
              calm = calm';
              holds = (g.0, noise);
            })
            λ _ w' calm' g.
              try-Ends is_os_error _ _
                (relax _ (lstat-Ends Noisy (Gone Noisy P staged) w' calm' g staged) (λ d g'. g'.0))
                (λ failure d m uncaught.
                  absurd
                    (Missing-is_os_error Noisy (Gone Noisy P staged) staged failure d m uncaught))
                (λ failure w2 calm2 (g2, why) in_clause. elim why [
                  | inl (e, m) ↦ rw (e, check_absence) (record { calm = calm2; holds = g2.0 })
                  | inr (e, noise) ↦
                      rw (e, check_absence) (record { calm = calm2; holds = (g2.0, noise) })
                ])
                λ node w2 calm2 ((p2, missing2), e). cc

      pub cleanup_staged_artifact-Ends :
          (w : World)
          → Calm Noisy w
          → P w.disk
          → Fits (node_at w.disk staged) expected
          → Ends Noisy
              (λ _ d. P d)
              (λ failure d. P d × Noisy)
              P
              (cleanup_staged_artifact sha256_hex staged expected w)
      unfolding cleanup_staged_artifact
      cleanup_staged_artifact-Ends w calm p fits =
          resume-Ends _ _ (authenticate-Ends w calm p fits)
            λ present w' calm' answer. cleanup_present-Ends present w' calm' answer

  -- All images of a list, by a condition under which each fits, and which removing each keeps.
  module _ (Noisy : Type 0) (P : Disk → Type 0) where
    abbrev pub FitAll : List Artifact → Type 0
    FitAll artifacts =
        (staged : FilePath) (expected : Text) (destination : FilePath)
        → Memᴰ (staged, expected, destination) artifacts
        → (d : Disk) → P d
        → Fits (node_at d staged) expected

    abbrev pub KeepAll : List Artifact → Type 0
    KeepAll artifacts =
        (staged : FilePath) (expected : Text) (destination : FilePath)
        → Memᴰ (staged, expected, destination) artifacts
        → (d : Disk) → P d
        → P (remove staged d)

    pub authenticate_all-Ends :
        (artifacts : List Artifact)
        → FitAll artifacts
        → (w : World) → Calm Noisy w
        → P w.disk
        → Ends Noisy
            (λ _ d. P d)
            (λ failure d. P d × Noisy)
            P
            (authenticate_transaction_artifacts sha256_hex artifacts w)
    unfolding authenticate_transaction_artifacts
    authenticate_all-Ends [] fits w calm p = record { calm = calm; holds = p }
    authenticate_all-Ends ((staged, expected, destination) ∷ artifacts) fits w calm p =
        resume-Bool _ _
          (authenticate-Ends Noisy P staged expected w calm p
            (fits staged expected destination (Memᴰ.head refl) w.disk p))
          (λ w' calm' answer.
            authenticate_all-Ends artifacts (λ s e t m. fits s e t (Memᴰ.tail m)) w' calm' answer.0)
          λ w' calm' answer.
            authenticate_all-Ends artifacts (λ s e t m. fits s e t (Memᴰ.tail m)) w' calm' answer.0

    pub cleanup_all-Ends :
        (artifacts : List Artifact)
        → FitAll artifacts
        → KeepAll artifacts
        → (w : World) → Calm Noisy w
        → P w.disk
        → Ends Noisy
            (λ _ d. P d)
            (λ failure d. P d × Noisy)
            P
            (cleanup_staged_artifacts sha256_hex artifacts w)
    unfolding cleanup_staged_artifacts
    cleanup_all-Ends [] fits keeps w calm p = record { calm = calm; holds = p }
    cleanup_all-Ends ((staged, expected, destination) ∷ artifacts) fits keeps w calm p =
        resume-Ends _ _
          (cleanup_staged_artifact-Ends Noisy P staged expected
            (keeps staged expected destination (Memᴰ.head refl)) w calm p
            (fits staged expected destination (Memᴰ.head refl) w.disk p))
          λ _ w' calm' p'.
            cleanup_all-Ends artifacts (λ s e t m. fits s e t (Memᴰ.tail m))
              (λ s e t m. keeps s e t (Memᴰ.tail m)) w' calm' p'
