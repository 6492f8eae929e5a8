-- ===== src/Impact/Reach.antt =====
-- What "affected at a depth" means, without a queue: chains of dependents.
use doc_lattice.Prelude.{
  ℕ, ◌+◌, ◌≤◌, ◌<◌, ◌≡◌, ◌↔◌, ◌⊎◌, refl, true, false, Option, none, some, List, Memᴰ, arith, nat_eq,
  list_eq, option_eq,
}
use doc_lattice.Text.{Text}
use doc_lattice.Dict.{get}
use doc_lattice.Model.{TargetId, target_eq, file_target, Node, Lattice}
use doc_lattice.Loader.Dependents.{sources_of}
use doc_lattice.Impact.{depth_limit_reached, can_expand_source}

-- The depth is below the bound, if there is one.
abbrev pub Within : Option ℕ → ℕ → Type 0
Within none depth = Unit
Within (some limit) depth = depth < limit

pub depth_limit_reached_iff :
    (max_depth : Option ℕ) (depth : ℕ)
    → (depth_limit_reached max_depth depth ≡ false) ↔ Within max_depth depth
unfolding depth_limit_reached
depth_limit_reached_iff none depth = (λ _. tt, λ _. refl)
depth_limit_reached_iff (some limit) depth = ground arith

pub can_expand_source_iff :
    (max_depth : Option ℕ) (depth : ℕ)
    → (can_expand_source max_depth depth ≡ true) ↔ Within max_depth depth
unfolding can_expand_source
can_expand_source_iff none depth = (λ _. tt, λ _. refl)
can_expand_source_iff (some limit) depth = ground arith

pub Within-le : (max_depth : Option ℕ) (d e : ℕ) → d ≤ e → Within max_depth e → Within max_depth d
Within-le none d e h w = tt
Within-le (some limit) d e h w = omega arith

-- The targets that an affected node puts into the walk: its file, and the anchors of its file.
abbrev pub Contributes : Lattice → Text → TargetId → Type 0
Contributes lattice s w =
    (w ≡ file_target s)
    ⊎ ((node : Node) × (anchors : List TargetId) × (get lattice.nodes_by_id s ≡ some node)
        × (get lattice.anchors_by_path node.path ≡ some anchors)
        × Memᴰ w anchors)

module _ (lattice : Lattice) (max_depth : Option ℕ) (roots : List TargetId) where
  -- A chain of `depth` hops from a root to the target, each hop within the bound.
  pub data Reaches : TargetId → ℕ → Type 0 where
    root : {t : TargetId} {depth : ℕ} → Memᴰ t roots → depth ≡ 0 → Reaches t depth
    hop :
        {t w : TargetId} {depth next : ℕ} (s : Text)
        → Reaches t depth
        → Memᴰ s (sources_of lattice.dependents t)
        → next ≡ depth + 1
        → Within max_depth next
        → Contributes lattice s w
        → Reaches w next

  -- The node derives from a target that a chain one hop shorter reaches.
  pub record AffectedAt (s : Text) (depth : ℕ) : Type 0 where
    pub target : TargetId
    pub before : ℕ
    pub chain : Reaches target before
    pub within : Within max_depth before
    pub source : Memᴰ s (sources_of lattice.dependents target)
    pub one_more : depth ≡ before + 1
