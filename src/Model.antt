-- ===== src/Model.antt =====
-- model.py: the domain types of the lattice graph. A path is the text of its spelling.
pub mod Refs
use doc_lattice.Prelude.{
  ℕ, ◌+◌, ◌≡◌, ◌↔◌, Bool, true, ◌&&◌, Option, none, some, List, [], ◌∷◌, ◌++◌, arith, if◌then◌else◌,
  Eq, ◌==◌, ==_iff, nat_eq, list_eq, option_eq,
}
use doc_lattice.Text.{Text}
use doc_lattice.Dict.{Dict, has}

-- constants.py: Layer, Authority, LocationKind
pub data Layer : Type 0 where
  design technical production : Layer

pub data Authority : Type 0 where
  binding derived exploratory : Authority

pub data LocationKind : Type 0 where
  file section : LocationKind

pub record TargetId : Type 0 where
  pub file_id : Text
  pub anchor : Option Text

abbrev pub hash_sign : ℕ
hash_sign = 35

-- TargetId.as_ref
unfoldable pub as_ref : TargetId → Text
as_ref t = elim t.anchor [ none ↦ t.file_id | some a ↦ t.file_id ++ (hash_sign ∷ a) ]

-- `ref.rsplit("#", 1)` where the text has a `#`, and nothing where it has none.
unfoldable pub rsplit_hash : Text → Option (Text × Text)
rsplit_hash [] = none
rsplit_hash (c ∷ rest) = elim (rsplit_hash rest) [
  | some (before, after) ↦ some (c ∷ before, after)
  | none ↦ if c == hash_sign then some ([], rest) else none
]

abbrev pub file_target : Text → TargetId
file_target file_id = record { file_id = file_id; anchor = none }

-- parse_ref
unfoldable pub parse_ref : Text → TargetId
unfolding rsplit_hash
parse_ref ref = elim (rsplit_hash ref) [
  | some (file_id, anchor) ↦ record { file_id = file_id; anchor = some anchor }
  | none ↦ file_target ref
]

unfoldable pub target_beq : TargetId → TargetId → Bool
target_beq a b = a.file_id == b.file_id && a.anchor == b.anchor

pub target_beq_iff : (a b : TargetId) → (target_beq a b ≡ true) ↔ (a ≡ b)
unfolding target_beq
target_beq_iff a b = ground (arith, ==_iff a.file_id b.file_id, ==_iff a.anchor b.anchor)

instance abbrev pub target_eq : Eq TargetId
target_eq = record { beq = target_beq; beq_iff = target_beq_iff }

pub record RawEdge : Type 0 where
  pub ref : Text
  pub seen : Option Text

pub record NodeMeta : Type 0 where
  pub id : Text
  pub title : Option Text
  pub layer : Option Layer
  pub authority : Option Authority
  pub derives_from : List RawEdge
  pub tickets : List Text

-- One derives_from edge; `target_id` is none where the ref is broken.
pub record Edge : Type 0 where
  pub target_ref : Text
  pub target_id : Option TargetId
  pub seen : Option Text

pub record Location : Type 0 where
  pub path : Text
  pub kind : LocationKind
  pub span : ℕ × ℕ

-- Edge.resolve
unfoldable pub resolve : Text → Option Text → Dict TargetId Location → Edge
resolve ref seen index =
    let target_id = parse_ref ref in
    record {
      target_ref = ref;
      target_id = if has index target_id then some target_id else none;
      seen = seen;
    }

pub record CollisionMember : Type 0 where
  pub label : Text
  pub line : ℕ

pub record SectionRecord : Type 0 where
  pub anchor : Text
  pub start : ℕ
  pub stop : ℕ
  pub collision : Option (List CollisionMember)
  pub context : List Text

pub record FileSections : Type 0 where
  pub total_lines : ℕ
  pub sections : List SectionRecord

pub record ExternalDeclaration : Type 0 where
  pub manifest_path : Text
  pub record_index : ℕ
  pub declared_path : Text

pub record ExternalIdentity : Type 0 where
  pub declared_path : Text
  pub resolved_target : Text
  pub resolved_manifest : Text

pub record DocumentOrigin : Type 0 where
  pub markdown_path : Text
  pub declaration : Option ExternalDeclaration
  pub identity : Option ExternalIdentity

pub record Node : Type 0 where
  pub id : Text
  pub title : Option Text
  pub layer : Option Layer
  pub authority : Option Authority
  pub path : Text
  pub body : Text
  pub derives_from : List Edge
  pub tickets : List Text
  pub origin : Option DocumentOrigin

pub record ParsedDoc : Type 0 where
  pub path : Text
  pub meta : NodeMeta
  pub body : Text
  pub sections : Option FileSections
  pub origin : Option DocumentOrigin

-- A frozenset is the list of its members, each once, in some order.
pub record Lattice : Type 0 where
  pub nodes_by_id : Dict Text Node
  pub index : Dict TargetId Location
  pub dependents : Dict TargetId (List Text)
  pub ancestors : Dict TargetId (List TargetId)
  pub file_id_by_path : Dict Text Text
  pub anchors_by_path : Dict Text (List TargetId)
  pub collisions : Dict TargetId (List CollisionMember)
  pub ancestor_context : Dict TargetId (List Text)
