-- ===== src/StaleShipped/Scope.antt =====
-- The trigger of build_audit_trigger: which nodes the audit looks at, and for which refs.
use doc_lattice.Prelude.{ℕ, ◌≡◌, ◌⊎◌, Memᴰ, true, none, List, nat_eq, list_eq, option_eq}
use doc_lattice.Text.{Text}
use doc_lattice.Dict.{has}
use doc_lattice.Model.{TargetId, target_eq, Lattice, file_target}
use doc_lattice.Loader.Coherence.{IsCoherent}
use doc_lattice.Impact.Reach.{AffectedAt}

module _ (sha256_hex : Text → Text) (lattice : Lattice) (coherent : IsCoherent lattice) where
  -- A node of the impact of the roots, at whatever depth, or one whose whole file is a root.
  abbrev pub InScope : List TargetId → Text → Type 0
  InScope roots id =
      (has lattice.nodes_by_id id ≡ true)
      × (((k : ℕ) × AffectedAt lattice none roots id k) ⊎ Memᴰ (file_target id) roots)
