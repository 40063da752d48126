-- ===== src/Metadata.antt =====
-- Metadata of filters: `with_meta` and its companions in josh-filter/src/filter.rs, `flatten_chain`
-- and `propagate_meta` of josh-core/src/filter/mod.rs.
pub mod Lookup
pub mod Steps
use josh.Base.{
  Bool, true, false, not, any, retain, Option, none, some, List, [], ◌∷◌, ◌++◌, Text, text_eq,
  if◌then◌else◌,
}
use josh.Filter.Op.{Filter, Filters, Meta, meta, chain, nil, cons}
use josh.Opt.PrefixSort.{text_le}

-- `BTreeMap::get`
unfoldable pub meta_get : Text → Meta → Option Text
meta_get k [] = none
meta_get k ((k', v) ∷ m) = let rest = meta_get k m in if text_eq k k' then some v else rest

-- `BTreeMap::insert`
unfoldable pub meta_put : Text → Text → Meta → Meta
unfolding text_le
meta_put k v [] = (k, v) ∷ []
meta_put k v ((k', v') ∷ m) =
    let later = (k', v') ∷ meta_put k v m in
    if text_eq k k' then (k, v) ∷ m else (if text_le k k' then (k, v) ∷ (k', v') ∷ m else later)

unfoldable pub with_meta : Text → Text → Filter → Filter
unfolding meta_put
with_meta k v (meta m f) = meta (meta_put k v m) f
with_meta k v f = meta ((k, v) ∷ []) f

unfoldable pub get_meta : Text → Filter → Option Text
unfolding meta_get
get_meta k (meta m f) = meta_get k m
get_meta k f = none

unfoldable pub into_meta : Filter → Meta
into_meta (meta m f) = m
into_meta f = []

unfoldable pub peel : Filter → Filter
peel (meta m f) = peel f
peel f = f

abbrev wrap_rest : Meta → Filter → Filter
wrap_rest [] f = f
wrap_rest (e ∷ m) f = meta (e ∷ m) f

unfoldable pub without_meta_keys : List Text → Filter → Filter
without_meta_keys keys (meta m f) = wrap_rest (retain (λ e. not (any (text_eq e.0) keys)) m) f
without_meta_keys keys f = f

-- `meta.entry(k).or_insert(v)` for each entry of the outer metadata.
unfoldable pub merge : Meta → Meta → Meta
unfolding meta_get meta_put
merge own [] = own
merge own ((k, v) ∷ outer) =
    merge (elim (meta_get k own) [ some _ ↦ own | none ↦ meta_put k v own ]) outer

unfoldable pub propagate_meta : Filter → Meta → Filter
unfolding with_meta
propagate_meta f [] = f
propagate_meta f ((k, v) ∷ m) = propagate_meta (with_meta k v f) m

-- The body of `expand`, with the merged metadata; it peels the filter.
unfoldable mutual
  unfolding propagate_meta into_meta merge

  pub steps_of : Meta → Filter → List Filter
  steps_of merged (meta m f) = steps_of merged f
  steps_of merged (chain fs) = steps_each merged fs
  steps_of merged f = propagate_meta f merged ∷ []

  pub steps_each : Meta → Filters → List Filter
  steps_each merged nil = []
  steps_each merged (cons f fs) = steps_of (merge (into_meta f) merged) f ++ steps_each merged fs

unfoldable pub flatten_chain : Filter → List Filter
unfolding steps_of
flatten_chain f = steps_of (merge (into_meta f) []) f
