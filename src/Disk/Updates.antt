-- ===== src/Disk/Updates.antt =====
-- What stands at a path after a file was stored or removed.
use doc_lattice.Prelude.{
  ◌≡◌, ◌≢◌, none, some, [], ◌∷◌, arith, if◌then◌else◌, ◌==◌, ==_iff, ==_refl, nat_eq, list_eq,
  option_eq,
}
use doc_lattice.Dict.{Dict, get}
use doc_lattice.Dict.Laws.{get-put}
use doc_lattice.Disk.{FilePath, Node, Disk, delete, remove, store, node_at}

get-delete :
    (files : Dict FilePath Node) (p q : FilePath)
    → get (delete files p) q ≡ (if p == q then none else get files q)
unfolding get delete
get-delete [] p q = ground arith
get-delete ((j, node) ∷ rest) p q =
    ground (arith, ==_iff j p, ==_iff p q, ==_iff j q, get-delete rest p q)

pub node_at-remove :
    (d : Disk) (p q : FilePath) → node_at (remove p d) q ≡ (if p == q then none else node_at d q)
unfolding node_at remove
node_at-remove d p q = get-delete d.files p q

pub node_at-store :
    (d : Disk) (p q : FilePath) (node : Node)
    → node_at (store p node d) q ≡ (if p == q then some node else node_at d q)
unfolding node_at store
node_at-store d p q node = get-put d.files p q node

pub node_at-remove_self : (d : Disk) (p : FilePath) → node_at (remove p d) p ≡ none
node_at-remove_self d p = rw (node_at-remove d p p, ==_refl p)

pub node_at-store_self :
    (d : Disk) (p : FilePath) (node : Node) → node_at (store p node d) p ≡ some node
node_at-store_self d p node = rw (node_at-store d p p node, ==_refl p)

pub node_at-remove_other :
    (d : Disk) (p q : FilePath) → p ≢ q → node_at (remove p d) q ≡ node_at d q
node_at-remove_other d p q apart = ground (arith, node_at-remove d p q, ==_iff p q)

pub node_at-store_other :
    (d : Disk) (p q : FilePath) (node : Node) → p ≢ q → node_at (store p node d) q ≡ node_at d q
node_at-store_other d p q node apart = ground (arith, node_at-store d p q node, ==_iff p q)
