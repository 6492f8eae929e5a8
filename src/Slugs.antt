-- ===== src/Slugs.antt =====
-- _Slugger of markdown_compat.py, and the inventories and ids that it allocates. The base slug of a
-- text reads generated Unicode tables and is a parameter; the memo of it changes no result.
pub mod Decimal
pub mod Allocation
use doc_lattice.Prelude.{
  ◌/◌, ◌%◌, ℕ, zero, suc, ◌+◌, none, some, List, [], ◌∷◌, ◌++◌, length, ltb, if◌then◌else◌, nat_eq,
  list_eq, option_eq,
}
use doc_lattice.Text.{Text}
use doc_lattice.Dict.{Dict, keys, get, has, put}
use doc_lattice.Headings.{Heading, SluggedHeading}
use doc_lattice.Result.{ok, err, ◌>>=◌, or_raise}
use doc_lattice.Errors.{Outcome, key_error, out_of_fuel}

-- `str(n)`, on one round for each digit.
unfoldable pub digits : ℕ → ℕ → Text
digits zero n = []
digits (suc rounds) n =
    let front = digits rounds (n / 10) in
    if ltb n 10 then (48 + n) ∷ [] else front ++ (48 + n % 10) ∷ []

unfoldable pub decimal : ℕ → Text
unfolding digits
decimal n = digits (suc n) n

-- `f"{base}-{n}"`
unfoldable pub suffixed : Text → ℕ → Text
unfolding decimal
suffixed base n = base ++ 45 ∷ decimal n

-- A slug, the candidates that were examined for it, and `_seen` afterwards.
pub record Slugged : Type 0 where
  pub slug : Text
  pub probes : List Text
  pub seen : Dict Text ℕ

-- The `while result in self._seen` loop.
unfoldable pub probe_from : ℕ → Text → Text → Dict Text ℕ → List Text → Outcome Slugged
unfolding suffixed
probe_from zero base result seen probes = err out_of_fuel
probe_from (suc rounds) base result seen probes =
    let taken = (do
      count ← or_raise key_error (get seen base)
      probe_from rounds base (suffixed base (count + 1)) (put seen base (count + 1))
          (probes ++ suffixed base (count + 1) ∷ [])) in
    if has seen result
    then taken
    else ok (record { slug = result; probes = probes; seen = put seen result 0 })

module _ (github_slug : Text → Text) where
  -- slug_with_probes
  unfoldable pub slug_with_probes : Dict Text ℕ → Text → Outcome Slugged
  unfolding probe_from
  slug_with_probes seen text =
      let base = github_slug text in
      probe_from (suc (length (keys seen))) base base seen (base ∷ [])

  -- `[slugger.slug(text) for text in texts]`
  unfoldable pub slug_all : Dict Text ℕ → List Text → Outcome (List Text)
  unfolding slug_with_probes
  slug_all seen [] = ok []
  slug_all seen (text ∷ texts) = do
    s ← slug_with_probes seen text
    rest ← slug_all s.seen texts
    ok (s.slug ∷ rest)

  -- github_ids_for_texts
  unfoldable pub github_ids_for_texts : List Text → Outcome (List Text)
  unfolding slug_all
  github_ids_for_texts texts = slug_all [] texts

  unfoldable pub heading_texts : List Heading → List Text
  heading_texts [] = []
  heading_texts (h ∷ headings) = h.text ∷ heading_texts headings

  -- github_heading_ids
  unfoldable pub github_heading_ids : List Heading → Outcome (List Text)
  unfolding github_ids_for_texts heading_texts
  github_heading_ids headings = github_ids_for_texts (heading_texts headings)

  unfoldable pub inventory_from : Dict Text ℕ → List Heading → Outcome (List SluggedHeading)
  inventory_from seen [] = ok []
  inventory_from seen (h ∷ headings) = do
    s ← slug_with_probes seen h.text
    rest ← inventory_from s.seen headings
    ok (
        record {
          text = h.text;
          level = h.level;
          line = h.line;
          github_id = s.slug;
          probes = s.probes;
        }
        ∷ rest)

  -- addressable_heading_inventory
  unfoldable pub addressable_heading_inventory : List Heading → Outcome (List SluggedHeading)
  unfolding inventory_from
  addressable_heading_inventory headings = inventory_from [] headings

  -- `heading.anchor if heading.anchor is not None else generated`, pair by pair.
  unfoldable pub zip_anchors : List Heading → List Text → List Text
  zip_anchors [] ids = []
  zip_anchors (h ∷ headings) [] = []
  zip_anchors (h ∷ headings) (generated ∷ ids) =
      elim h.anchor [ some anchor ↦ anchor | none ↦ generated ] ∷ zip_anchors headings ids

  -- anchor_ids
  unfoldable pub anchor_ids : List Heading → Outcome (List Text)
  unfolding github_heading_ids zip_anchors
  anchor_ids headings = do ids ← github_heading_ids headings; ok (zip_anchors headings ids)
