-- ===== src/Loader.antt =====
-- loader.py: parsed documents become the lattice. The derivation of the sections of a document
-- that carries none is a parameter.
pub mod Ancestors
pub mod Registration
pub mod Build
pub mod Nodes
pub mod Paths
pub mod Dependents
pub mod Documents
pub mod Coherence
use doc_lattice.Prelude.{
  ℕ, ◌+◌, Option, none, some, List, [], ◌∷◌, ◌++◌, ltb, if◌then◌else◌, is_empty, nat_eq, list_eq,
  option_eq,
}
use doc_lattice.Text.{Text}
use doc_lattice.Sets.{add}
use doc_lattice.Dict.{Dict, values, get, has, put, get_or}
use doc_lattice.Model.{
  TargetId, target_eq, file_target, parse_ref, RawEdge, Edge, resolve, LocationKind, Location,
  CollisionMember, SectionRecord, FileSections, DocumentOrigin, Node, ParsedDoc, Lattice,
}
use doc_lattice.Result.{ok, err, ◌>>=◌, or_raise}
use doc_lattice.Errors.{Site, file_site, anchor_site, Outcome, duplicate_id, key_error}

-- The dictionaries that the first loop of build_lattice fills.
pub record Registry : Type 0 where
  pub index : Dict TargetId Location
  pub sources : Dict TargetId Site
  pub ancestors : Dict TargetId (List TargetId)
  pub collisions : Dict TargetId (List CollisionMember)
  pub ancestor_context : Dict TargetId (List Text)
  pub origins : Dict Text DocumentOrigin

abbrev pub empty : Registry
empty = record {
  index = [];
  sources = [];
  ancestors = [];
  collisions = [];
  ancestor_context = [];
  origins = [];
}

-- _register
unfoldable pub register : TargetId → Location → Site → Registry → Outcome Registry
register id location place r =
    if has r.index id
    then (do first ← or_raise key_error (get r.sources id); err (duplicate_id id first place))
    else ok (record r { index = put r.index id location; sources = put r.sources id place })

-- `while stack and stack[-1][0] < current_end: stack.pop()`, the top of the stack first.
unfoldable pub pop_below : ℕ → List (ℕ × TargetId) → List (ℕ × TargetId)
pop_below current_end [] = []
pop_below current_end ((stop, id) ∷ stack) =
    let popped = pop_below current_end stack in
    if ltb stop current_end then popped else (stop, id) ∷ stack

-- `tuple(ancestor_id for _, ancestor_id in stack)`, the bottom of the stack first.
unfoldable pub stack_ids : List (ℕ × TargetId) → List TargetId
stack_ids [] = []
stack_ids ((stop, id) ∷ stack) = stack_ids stack ++ id ∷ []

-- The loop of _record_ancestors.
unfoldable pub record_ancestors :
    List TargetId
    → Dict TargetId (ℕ × ℕ)
    → List (ℕ × TargetId)
    → Dict TargetId (List TargetId)
    → Outcome (Dict TargetId (List TargetId))
unfolding pop_below stack_ids
record_ancestors [] spans stack ancestors = ok ancestors
record_ancestors (anchor ∷ anchored) spans stack ancestors = do
  span ← or_raise key_error (get spans anchor)
  let enclosing = pop_below span.1 stack
  record_ancestors anchored spans ((span.1, anchor) ∷ enclosing)
      (put ancestors anchor (stack_ids enclosing))

-- The two locals of the first loop, `anchored` and `spans`, beside the registry.
pub record Sectioned : Type 0 where
  pub registry : Registry
  pub anchored : List TargetId
  pub spans : Dict TargetId (ℕ × ℕ)

abbrev pub section_target : Text → SectionRecord → TargetId
section_target file_id section = record { file_id = file_id; anchor = some section.anchor }

abbrev note_collision :
    TargetId
    → Option (List CollisionMember)
    → Dict TargetId (List CollisionMember)
    → Dict TargetId (List CollisionMember)
note_collision tid none d = d
note_collision tid (some members) d = put d tid members

-- The writes to `collisions` and `ancestor_context` for one section.
unfoldable pub note_section : TargetId → SectionRecord → Registry → Registry
note_section tid section r = record r {
  collisions = note_collision tid section.collision r.collisions;
  ancestor_context =
      if is_empty section.context
      then r.ancestor_context
      else put r.ancestor_context tid section.context;
}

-- The body of the loop over `file_sections.sections`.
unfoldable pub register_section :
    Text → Text → DocumentOrigin → SectionRecord → Sectioned → Outcome Sectioned
register_section path file_id origin section s = do
  let tid = section_target file_id section
  r ←
      register tid
        (record { path = path; kind = LocationKind.section; span = (section.start, section.stop) })
        (anchor_site tid origin) (note_section tid section s.registry)
  ok (record {
    registry = r;
    anchored = s.anchored ++ tid ∷ [];
    spans = put s.spans tid (section.start, section.stop);
  })

unfoldable pub register_sections :
    Text → Text → DocumentOrigin → List SectionRecord → Sectioned → Outcome Sectioned
register_sections path file_id origin [] s = ok s
register_sections path file_id origin (section ∷ rest) s =
    register_section path file_id origin section s >>= register_sections path file_id origin rest

-- `doc.origin or DocumentOrigin(doc.path)`
abbrev pub origin_of : ParsedDoc → DocumentOrigin
origin_of doc = elim doc.origin [
  | some origin ↦ origin
  | none ↦ record { markdown_path = doc.path; declaration = none; identity = none }
]

module _ (derive_file_sections : Text → FileSections) where
  abbrev pub sections_of : ParsedDoc → FileSections
  sections_of doc = elim doc.sections [
    | some sections ↦ sections
    | none ↦ derive_file_sections doc.body
  ]

  -- The body of the first loop of build_lattice.
  unfoldable pub register_doc : ParsedDoc → Registry → Outcome Registry
  register_doc doc r = do
    let origin = origin_of doc
    let file_id = doc.meta.id
    let file_sections = sections_of doc
    r1 ←
        register (file_target file_id)
          (record {
            path = doc.path;
            kind = LocationKind.file;
            span = (1, file_sections.total_lines);
          })
          (file_site origin) r
    s ← register_sections doc.path file_id origin file_sections.sections (record {
      registry = record r1 { origins = put r1.origins file_id origin };
      anchored = [];
      spans = [];
    })
    ancestors ← record_ancestors s.anchored s.spans [] s.registry.ancestors
    ok (record s.registry { ancestors = ancestors })

  unfoldable pub register_docs : List ParsedDoc → Registry → Outcome Registry
  register_docs [] r = ok r
  register_docs (doc ∷ docs) r = register_doc doc r >>= register_docs docs

-- The loop of _resolve_edges: the deduplicated edges, and the targets that it warned of.
unfoldable pub dedupe_edges :
    Dict TargetId Location
    → List RawEdge
    → Dict TargetId Edge
    → List TargetId
    → Dict TargetId Edge × List TargetId
unfolding resolve
dedupe_edges index [] deduped warned = (deduped, warned)
dedupe_edges index (raw ∷ rest) deduped warned =
    let target_id = parse_ref raw.ref in
    dedupe_edges index rest (put deduped target_id (resolve raw.ref raw.seen index))
      (if has deduped target_id then warned ++ target_id ∷ [] else warned)

-- _resolve_edges
unfoldable pub resolve_edges : ParsedDoc → Dict TargetId Location → List Edge
unfolding dedupe_edges
resolve_edges doc index = values (dedupe_edges index doc.meta.derives_from [] []).0

-- `if edge.target_id is not None: dependents[edge.target_id].add(doc.meta.id)`, for each edge.
unfoldable pub add_dependents :
    Text → List Edge → Dict TargetId (List Text) → Dict TargetId (List Text)
add_dependents id [] d = d
add_dependents id (edge ∷ edges) d =
    add_dependents id edges
      (elim edge.target_id [ none ↦ d | some t ↦ put d t (add id (get_or d t [])) ])

abbrev pub node_of : ParsedDoc → List Edge → Option DocumentOrigin → Node
node_of doc edges origin = record {
  id = doc.meta.id;
  title = doc.meta.title;
  layer = doc.meta.layer;
  authority = doc.meta.authority;
  path = doc.path;
  body = doc.body;
  derives_from = edges;
  tickets = doc.meta.tickets;
  origin = origin;
}

-- The second loop of build_lattice: `nodes` and `dependents`.
unfoldable pub build_nodes :
    Registry
    → List ParsedDoc
    → Dict Text Node
    → Dict TargetId (List Text)
    → Outcome (Dict Text Node × Dict TargetId (List Text))
unfolding resolve_edges add_dependents
build_nodes r [] nodes dependents = ok (nodes, dependents)
build_nodes r (doc ∷ docs) nodes dependents = do
  let edges = resolve_edges doc r.index
  origin ← or_raise key_error (get r.origins doc.meta.id)
  build_nodes r docs (put nodes doc.meta.id (node_of doc edges (some origin)))
      (add_dependents doc.meta.id edges dependents)

-- `{node.path: node_id for node_id, node in nodes.items()}`
unfoldable pub index_paths : Dict Text Node → Dict Text Text → Dict Text Text
index_paths [] d = d
index_paths ((node_id, node) ∷ nodes) d = index_paths nodes (put d node.path node_id)

-- `for tid, loc in index.items(): if loc.kind == "section": section_ids_by_path[loc.path].append(tid)`
unfoldable pub group_sections :
    Dict TargetId Location → Dict Text (List TargetId) → Dict Text (List TargetId)
group_sections [] d = d
group_sections ((tid, loc) ∷ index) d = group_sections index (elim loc.kind [
  | LocationKind.section ↦ put d loc.path (get_or d loc.path [] ++ tid ∷ [])
  | LocationKind.file ↦ d
])

-- `{path: frozenset(section_ids_by_path[path]) for path in file_id_by_path}`
unfoldable pub anchor_sets : Dict Text (List TargetId) → Dict Text Text → Dict Text (List TargetId)
anchor_sets grouped [] = []
anchor_sets grouped ((path, id) ∷ paths) =
    (path, get_or grouped path []) ∷ anchor_sets grouped paths

unfoldable pub assemble : Registry → Dict Text Node → Dict TargetId (List Text) → Lattice
unfolding index_paths group_sections anchor_sets
assemble r nodes dependents =
    let file_id_by_path = index_paths nodes [] in
    record {
      nodes_by_id = nodes;
      index = r.index;
      dependents = dependents;
      ancestors = r.ancestors;
      file_id_by_path = file_id_by_path;
      anchors_by_path = anchor_sets (group_sections r.index []) file_id_by_path;
      collisions = r.collisions;
      ancestor_context = r.ancestor_context;
    }

-- build_lattice
unfoldable pub build_lattice : (Text → FileSections) → List ParsedDoc → Outcome Lattice
unfolding register_docs build_nodes assemble
build_lattice derive_file_sections docs = do
  r ← register_docs derive_file_sections docs empty
  built ← build_nodes r docs [] []
  ok (assemble r built.0 built.1)
