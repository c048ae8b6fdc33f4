-- ===== src/Indexer/Store.antt =====
-- The types that all index stores share, and what they check:
-- packages/syntrix/internal/indexer/store/store.go. Texts of errors are left out.
use syntrix.Common.{
  ℕ, ◌≡◌, ◌↔◌, Bool, true, false, not, ◌&&◌, ◌||◌, Option, none, some, List, [], ◌∷◌, Bytes,
  bytes_eq, bytes_eq_iff, bytes_compare, at_most, any, if◌then◌else◌, Result, ok, err, ◌>>=◌, ◌>>◌,
  require, arith,
}

-- QueryIndexRef
pub record QueryIndexRef : Type 0 where
  pub database : Bytes
  pub collection : Bytes
  pub template_fingerprint : Bytes
  pub generation : Bytes

-- `==` of two of them
unfoldable pub ref_eq : QueryIndexRef → QueryIndexRef → Bool
ref_eq a b =
    bytes_eq a.database b.database
    && (bytes_eq a.collection b.collection
        && (bytes_eq a.template_fingerprint b.template_fingerprint
            && bytes_eq a.generation b.generation))

pub ref_eq_iff : (a b : QueryIndexRef) → (ref_eq a b ≡ true) ↔ (a ≡ b)
unfolding ref_eq
ref_eq_iff a b = ground (
  arith,
  bytes_eq_iff a.database b.database,
  bytes_eq_iff a.collection b.collection,
  bytes_eq_iff a.template_fingerprint b.template_fingerprint,
  bytes_eq_iff a.generation b.generation,
)

-- Projection
pub record Projection : Type 0 where
  pub index : QueryIndexRef
  pub document_id : Bytes
  pub posting_keys : List Bytes

-- Generation
pub record Generation : Type 0 where
  pub id : Bytes
  pub ready : Bool
  pub bootstrap_progress : Bytes
  pub failure : Bytes

-- BootstrapCatalog
pub record BootstrapCatalog : Type 0 where
  pub database : Bytes
  pub generation : Bytes
  pub template_fingerprints : List Bytes
  pub bootstrap_progress : Bytes

-- The errors of this file and of the stores.
pub data StoreError : Type 0 where
  incomplete_identity duplicate_projection empty_posting_key empty_fingerprint empty_inventory
        mixed_inventory duplicate_database no_templates plural_required other_catalog :
      StoreError

-- `x == ""`, `len(x) == 0`
abbrev pub is_nil : {A : Type 0} → List A → Bool
is_nil [] = true
is_nil (x ∷ xs) = false

-- A reference with an empty part.
unfoldable pub is_incomplete : QueryIndexRef → Bool
is_incomplete ref =
    is_nil ref.database
    || (is_nil ref.collection || (is_nil ref.template_fingerprint || is_nil ref.generation))

-- slices.Contains, or a key of a set
unfoldable pub contains : Bytes → List Bytes → Bool
unfolding any
contains x xs = any (λ y. bytes_eq y x) xs

-- slices.Sort of strings
unfoldable insert_text : Bytes → List Bytes → List Bytes
insert_text x [] = x ∷ []
insert_text x (y ∷ ys) =
    let rest = insert_text x ys in if at_most (bytes_compare x y) then x ∷ y ∷ ys else y ∷ rest

unfoldable sort_texts : List Bytes → List Bytes
unfolding insert_text
sort_texts [] = []
sort_texts (x ∷ xs) = insert_text x (sort_texts xs)

-- slices.Compact: of equal neighbours the first
unfoldable compact_behind : Bytes → List Bytes → List Bytes
compact_behind x [] = []
compact_behind x (y ∷ ys) =
    let same = compact_behind x ys in
    let next = compact_behind y ys in if bytes_eq y x then same else y ∷ next

unfoldable compact : List Bytes → List Bytes
unfolding compact_behind
compact [] = []
compact (x ∷ xs) = x ∷ compact_behind x xs

-- OwnBootstrapCatalog
unfoldable pub own_bootstrap_catalog : BootstrapCatalog → Result StoreError BootstrapCatalog
unfolding sort_texts compact any
own_bootstrap_catalog catalog =
    if is_nil catalog.database || is_nil catalog.generation
    then err incomplete_identity
    else if any is_nil catalog.template_fingerprints
    then err empty_fingerprint
    else ok (record catalog {
      template_fingerprints = compact (sort_texts catalog.template_fingerprints);
    })

-- The loop of OwnBootstrapCatalogs behind a first catalog of `generation`, with the databases it has seen.
unfoldable pub own_catalogs :
    Bytes → Bytes → List Bytes → List BootstrapCatalog → Result StoreError (List BootstrapCatalog)
unfolding own_bootstrap_catalog contains
own_catalogs generation progress seen [] = ok []
own_catalogs generation progress seen (c ∷ cs) =
    let rest = own_catalogs generation progress (c.database ∷ seen) cs in
    own_bootstrap_catalog c >>= λ owned.
    if not (bytes_eq c.generation generation) || not (bytes_eq c.bootstrap_progress progress)
    then err mixed_inventory
    else if contains c.database seen
    then err duplicate_database
    else rest >>= λ others. ok (owned ∷ others)

abbrev has_templates : BootstrapCatalog → Bool
has_templates c = not (is_nil c.template_fingerprints)

-- OwnBootstrapCatalogs
unfoldable pub own_bootstrap_catalogs :
    List BootstrapCatalog → Bytes → Result StoreError (List BootstrapCatalog)
unfolding own_catalogs any
own_bootstrap_catalogs [] progress = err empty_inventory
own_bootstrap_catalogs (c ∷ cs) progress =
    own_catalogs c.generation progress [] (c ∷ cs) >>= λ owned.
    require (any has_templates (c ∷ cs)) no_templates >> ok owned

-- The failure of the same generation, if it has one.
abbrev with_failure : Option Generation → Generation → Generation
with_failure none g = g
with_failure (some local) g =
    if bytes_eq local.id g.id && not (is_nil local.failure)
    then record g { ready = false; failure = local.failure }
    else g

-- ResolveGeneration; `none` is a generation that does not exist
unfoldable pub resolve_generation :
    Option BootstrapCatalog → Bytes → Option Generation → Option Generation
unfolding contains
resolve_generation none fingerprint local = local
resolve_generation (some catalog) fingerprint local =
    if not (contains fingerprint catalog.template_fingerprints)
    then none
    else some (
        with_failure local (record {
          id = catalog.generation;
          ready = true;
          bootstrap_progress = catalog.bootstrap_progress;
          failure = [];
        }))

-- The inner loop of OwnProjections, with the keys it has seen.
unfoldable pub own_keys : List Bytes → List Bytes → Result StoreError (List Bytes)
unfolding contains
own_keys seen [] = ok []
own_keys seen (k ∷ ks) =
    let skipped = own_keys seen ks in
    let rest = own_keys (k ∷ seen) ks in
    if is_nil k
    then err empty_posting_key
    else if contains k seen
    then skipped
    else rest >>= λ others. ok (k ∷ others)

abbrev pub same_identity : Projection → Projection → Bool
same_identity p q = ref_eq q.index p.index && bytes_eq q.document_id p.document_id

-- The outer loop, with the projections it has seen.
unfoldable pub own_loop : List Projection → List Projection → Result StoreError (List Projection)
unfolding own_keys is_incomplete any
own_loop seen [] = ok []
own_loop seen (p ∷ ps) =
    let rest = own_loop (p ∷ seen) ps in
    if is_incomplete p.index || is_nil p.document_id
    then err incomplete_identity
    else if any (same_identity p) seen
    then err duplicate_projection
    else own_keys [] p.posting_keys >>= λ keys.
        rest >>= λ others. ok (record p { posting_keys = keys } ∷ others)

-- OwnProjections
unfoldable pub own_projections : List Projection → Result StoreError (List Projection)
unfolding own_loop
own_projections replacements = own_loop [] replacements

-- IndexState; `index_other` is any other string
pub data IndexState : Type 0 where
  index_healthy index_rebuilding index_failed index_other : IndexState

-- IndexInfo
pub record IndexInfo : Type 0 where
  pub pattern : Bytes
  pub template_id : Bytes
  pub raw_pattern : Bytes
  pub state : IndexState
  pub doc_count : ℕ
