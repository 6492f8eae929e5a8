-- ===== src/Lib.antt =====
-- Verification of doc-lattice, which checks that Markdown documents still agree with the documents
-- they derive from.
--
-- A document declares a file id and, by its headings, section ids; its frontmatter lists the ids that
-- it derives from, each with the hash of the content it last agreed with. `doc-lattice check` reports
-- where that hash is not the current one, `impact` walks the edges backwards, `lint` compares the
-- authority of the two ends of an edge, and `linear` grades the tickets of drifted nodes. `reconcile`
-- rewrites several files as one transaction, under a journal that a later run recovers from.
--
-- Files, with the code of the package src/doc_lattice/ that each is about:
--   Text           text_utils.py, and the operations of `str`; a text is the list of its code points
--   Hashing        hashing.py; the digest function is the parameter `sha256_hex`
--   Model, Origins model.py: ids, edges, nodes, the lattice, the origins of external documents
--   Fields         the field validators of model.py
--   Loader         loader.py: registration, ancestors, edges, the maps of the lattice
--   Sections       section_text and split_body_lines of sections.py, strip_heading_anchor of
--                  markdown_compat.py
--   Headings       section_spans and ancestor_chains of sections.py
--   Slugs          the slugger, the addressable inventory and the anchor ids of markdown_compat.py
--   Resolve        resolve.py: the content and the hash of a target
--   Check          check.py: classification, the ambiguous edges, the gate, the summary
--   Impact         impact.py: expansion of a token and the reverse walk
--   Lint           lint.py: the authority ladder
--   Tickets, StaleShipped   tickets.py and stale_shipped.py: the triggers of the audit, the grading
--   LinearQuery    linear_query.py: refused identifiers, teams, batches
--   Disk           the file system as the code sees it, with a schedule of failures and kills
--   Persistence    persistence.py: staging, replacing, creating and unlinking files
--   Transaction    reconcile_transaction.py: the journal and its checks; in child modules the cleaning of
--                  images (Artifacts), rollback (Rollback), recovery (Recover), commit (Commit), the lock (Lock),
--                  and the conditions on the disk and the proofs that they are kept (all others)
--   LinkSelectors  link_selectors.py: the grammar of selectors, matching and pruning paths, escaping
--   Dict, Sets, Sorting     Python's dict, set and sorted
--   Result, Errors          outcomes of code that may raise; a message is kept as the values it names
--   Prelude        names of the library, Boolean tests, lists, decidable equality
--   Examples       the theorems at a lattice of two documents; Examples/Texts, those on texts;
--                  Examples/Commits, those on a transaction of one file; Examples/Selectors, those on
--                  selectors
--
-- Loader builds the Lattice that Check, Impact, Lint and StaleShipped read. StaleShipped calls Check
-- and Impact. A path is the text of its spelling. A Python dict is the list of its entries in
-- insertion order; a set is the list of its members, in some order. A dict that a function mutates is
-- passed on explicitly.
--
-- In Disk an action takes a world, the files and a schedule, to a result and a world, also when it raises.
-- Each call of the operating system takes one item of the schedule: it goes through, raises OSError
-- without an effect, or is never made since the process was killed; past the schedule all go through. A
-- rename whose directory then fails to sync is a rename that goes through and a sync that raises. No other
-- process writes below the root in between, and what a call has changed is there after a kill.
--
-- Parameters: `sha256_hex`, any function from texts to texts, and in Loader the derivation of the
-- sections of a document that carries none, any function from texts to sections. In Slugs the base slug
-- of a text, which reads generated Unicode tables, is any function from texts to texts. In LinkSelectors
-- `segment_matches` (fnmatchcase) is any test of two texts. In Transaction the
-- wire models of the journal are any functions from bytes; the theorems on recovery ask (Readable) that
-- they read the prepared and the committed journal back with the entries of the transaction, that the
-- path checks accept those entries, that each rewrite changes its digest, and that helper stages of the journal get names that are not in use.
--
-- Loops: `walk` runs on fuel, given the number of the roots and of the targets that each node can
-- still add; impact_exact shows that this is enough. `probe_from` has a round more than there are seen
-- slugs, and github_ids_for_texts-AllDistinct shows that it ends; `closure_loop` has a round for each position,
-- each segment and the end, which selector_matches_path_exact shows to be enough; `slices` has a round for each number,
-- `digits` one for each number up to its own. All other functions recurse on their arguments.
--
-- Not modelled: the command line, configuration, discovery, the load cache, the planning of reconciliation,
-- the staging of a transaction, sidecar manifests, the link check, the Linear transport, YAML and Markdown parsing, base
-- slugs and collision components, and the JSON and text renderings. Most of these are file system
-- access, third-party code or output.
pub mod Persistence
pub mod Prelude
pub mod Text
pub mod Transaction
pub mod Hashing
pub mod Dict
pub mod Sets
pub mod Model
pub mod Result
pub mod Disk
pub mod Errors
pub mod Fields
pub mod Loader
pub mod Sorting
pub mod Sections
pub mod Resolve
pub mod Origins
pub mod Check
pub mod Impact
pub mod Lint
pub mod Tickets
pub mod StaleShipped
pub mod Headings
pub mod Slugs
pub mod LinearQuery
pub mod LinkSelectors
pub mod Examples
