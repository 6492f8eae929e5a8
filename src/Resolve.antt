-- ===== src/Resolve.antt =====
-- resolve.py: the content that a target covers, and its hash.
use doc_lattice.Prelude.{
  none, some, [], ◌∷◌, ◌++◌, if◌then◌else◌, is_empty, nat_eq, list_eq, option_eq,
}
use doc_lattice.Text.{Text, join_lines}
use doc_lattice.Hashing.{content_hash}
use doc_lattice.Dict.{Dict, get, put, get_or}
use doc_lattice.Model.{TargetId, target_eq, LocationKind, Location, Node, Lattice}
use doc_lattice.Sections.{section_text}
use doc_lattice.Result.{ok, ◌>>=◌, or_raise}
use doc_lattice.Errors.{Outcome, unknown_id, no_owner, key_error}

-- node_for_path
unfoldable pub node_for_path : Lattice → Text → Outcome Node
node_for_path lattice path = do
  node_id ← or_raise (no_owner path) (get lattice.file_id_by_path path)
  or_raise key_error (get lattice.nodes_by_id node_id)

-- The two branches on `location.kind` of target_content.
unfoldable pub covered_text : Lattice → TargetId → Location → Node → Text
covered_text lattice target_id location node = elim location.kind [
  | LocationKind.file ↦ node.body
  | LocationKind.section ↦
      let section = section_text node.body location.span in
      let chain = get_or lattice.ancestor_context target_id [] in
      if is_empty chain then section else join_lines (chain ++ section ∷ [])
]

-- target_content
unfoldable pub target_content : Lattice → TargetId → Outcome Text
unfolding node_for_path covered_text
target_content lattice target_id = do
  location ← or_raise (unknown_id target_id) (get lattice.index target_id)
  node ← node_for_path lattice location.path
  ok (covered_text lattice target_id location node)

module _ (sha256_hex : Text → Text) where
  -- The content hash of a target, computed afresh.
  unfoldable pub target_hash : Lattice → TargetId → Outcome Text
  target_hash lattice target_id = do
    content ← target_content lattice target_id
    ok (content_hash sha256_hex content)

  -- cached_target_hash: the hash, and the cache afterwards.
  unfoldable pub cached_target_hash :
      Lattice → TargetId → Dict TargetId Text → Outcome (Text × Dict TargetId Text)
  cached_target_hash lattice target_id cache = elim (get cache target_id) [
    | some known ↦ ok (known, cache)
    | none ↦ do hash ← target_hash lattice target_id; ok (hash, put cache target_id hash)
  ]
