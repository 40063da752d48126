-- ===== src/Persist/Read.antt =====
-- `from_tree2` of josh-filter/src/persist.rs: the filter that a tree stands for.
pub mod Params
pub mod Keys
use josh.Base.{
  ℕ, zero, suc, ◌==◌, not, ◌&&◌, Bool, true, false, Option, none, some, List, [], ◌∷◌, ◌++◌, Text,
  text_eq, if◌then◌else◌,
}
use josh.FilePath.{FilePath}
use josh.Filter.Op.{
  Filter, Filters, Arms, RefMap, LazyRef, RevMatch, Meta, ancestor_strict, ancestor_inclusive,
  equal, default, meta, nop, empty, fold, paths, unlink, export, squash_none, squash_some, rev,
  prune, index, invert, starlark, tree_id, unapply, compose, chain, subtract, exclude, select, pin,
  nil, cons, no_arms, arm, no_refs, resolved, of_list,
}
use josh.Tree.Object.{Mode, Obj, Entries, tree, tree_mode, is_tree}
use josh.Tree.Object as Git
use josh.Apply.Run.{Run, ok, failed, out_of_fuel, lift, ◌>>=◌}
use josh.Persist.Utf8.{bytes, from_utf8}
use josh.Persist.PathText.{path_of}
use josh.Persist.RefText.{Codec, parse_lazy_ref}
use josh.Persist.Entries.{
  count, by_position, by_name, get_first, get_name, read_blob, read_persisted, param,
}
use josh.Persist.Read.Params.{params_op}
use josh.Persist.Read.Keys.{of_arms, put_refs, read_meta, read_rev_key}

-- The operations that are written as a blob.
unfoldable pub plain_op : Text → Option Filter
unfolding text_eq
plain_op name =
    if text_eq name (bytes "nop")
    then some nop
    else if text_eq name (bytes "empty")
    then some empty
    else if text_eq name (bytes "paths")
    then some paths
    else if text_eq name (bytes "export")
    then some export
    else if text_eq name (bytes "unlink")
    then some unlink
    else if text_eq name (bytes "invert")
    then some invert
    else if text_eq name (bytes "index")
    then some index
    else if text_eq name (bytes "fold")
    then some fold
    else none

-- `get(i)` of `len` entries, or `get_name`, and the reader of each entry: an error of either is an
-- error of the loop.
unfoldable pub read_each {ℓ} : {A : Type ℓ} → (Obj → Run A) → List Obj → Run (List A)
read_each f [] = ok []
read_each f (o ∷ os) = do x ← f o; xs ← read_each f os; ok (x ∷ xs)

module _ (c : Codec) (again : Obj → Run Filter) where
  -- A child's tree is read, and then read as a filter.
  unfoldable pub subfilter : Obj → Run Filter
  unfolding read_persisted
  subfilter o = do es ← lift (read_persisted o); again o

  unfoldable pub named_subfilter : Entries → Text → Run Filter
  unfolding get_name subfilter
  named_subfilter es k = do o ← lift (get_name es k); subfilter o

  unfoldable pub read_single : (Filter → Filter) → Entries → Run Filter
  unfolding named_subfilter
  read_single op es =
      if count es == 1 then (do f ← named_subfilter es (bytes "0"); ok (op f)) else failed

  unfoldable pub read_subtract : Entries → Run Filter
  unfolding named_subfilter
  read_subtract es =
      if count es == 2
      then (do
        a ← named_subfilter es (bytes "0")
        b ← named_subfilter es (bytes "1")
        ok (subtract a b))
      else failed

  unfoldable pub read_compose : Entries → Run Filter
  read_compose es = do fs ← read_each subfilter (by_position es); ok (compose (of_list fs))

  unfoldable pub read_chain : Entries → Run Filter
  unfolding by_name
  read_chain es = if count es == 0 then failed else (do
    os ← lift (by_name es 0 (count es))
    fs ← read_each subfilter os
    ok (chain (of_list fs)))

  unfoldable pub read_starlark : (FilePath → Filter → Filter) → Entries → Run Filter
  unfolding named_subfilter param path_of get_name read_persisted
  read_starlark op es = do
    path_tree ← lift (get_name es (bytes "0"))
    path_entries ← lift (read_persisted path_tree)
    s ← lift (param path_entries (bytes "0"))
    f ← named_subfilter es (bytes "1")
    ok (op (path_of s) f)

  -- A key, read by `parse`, and a filter.
  unfoldable pub read_keyed {ℓ} : {K : Type ℓ} → (Text → Option K) → Obj → Run (K × Filter)
  unfolding named_subfilter param read_persisted
  read_keyed parse o = do
    es ← lift (read_persisted o)
    s ← lift (param es (bytes "o"))
    k ← lift (parse s)
    f ← named_subfilter es (bytes "f")
    ok (k, f)

  unfoldable pub read_rev : Entries → Run Filter
  unfolding by_name of_arms
  read_rev es = do
    os ← lift (by_name es 0 (count es))
    arms ← read_each (read_keyed (read_rev_key c)) os
    ok (rev (of_arms arms))

  unfoldable pub read_unapply : Entries → Run Filter
  unfolding get_first
  read_unapply es = do
    o ← lift (get_first es)
    (r, f) ← read_keyed (parse_lazy_ref c) o
    ok (unapply r f)

  unfoldable pub read_squash : Entries → Run Filter
  unfolding put_refs
  read_squash es = do
    pairs ← read_each (read_keyed (parse_lazy_ref c)) (by_position es)
    ok (squash_some (put_refs no_refs pairs))

  unfoldable pub read_meta_op : Entries → Run Filter
  unfolding get_name read_persisted read_meta
  read_meta_op es = do
    o ← lift (get_name es (bytes "0"))
    child ← lift (read_persisted o)
    m ← lift (read_meta [] es)
    f ← again o
    ok (meta m f)

  -- The reader of an operation that has filters in it.
  unfoldable pub nested_op : Text → Option (Entries → Run Filter)
  unfolding text_eq read_single read_subtract read_compose read_chain read_starlark read_rev
      read_unapply read_squash read_meta_op
  nested_op name =
      if text_eq name (bytes "starlark")
      then some (read_starlark starlark)
      else if text_eq name (bytes "treeid")
      then some (read_starlark tree_id)
      else if text_eq name (bytes "compose")
      then some read_compose
      else if text_eq name (bytes "subtract")
      then some read_subtract
      else if text_eq name (bytes "chain")
      then some read_chain
      else if text_eq name (bytes "exclude")
      then some (read_single exclude)
      else if text_eq name (bytes "select")
      then some (read_single select)
      else if text_eq name (bytes "pin")
      then some (read_single pin)
      else if text_eq name (bytes "rev")
      then some read_rev
      else if text_eq name (bytes "unapply")
      then some read_unapply
      else if text_eq name (bytes "squash")
      then some read_squash
      else if text_eq name (bytes "meta")
      then some read_meta_op
      else none

  unfoldable pub read_nested : Option (Entries → Run Filter) → Obj → Run Filter
  unfolding read_persisted
  read_nested none o = failed
  read_nested (some read) o = do es ← lift (read_persisted o); read es

  unfoldable pub read_params : Option (Entries → Option Filter) → Text → Obj → Run Filter
  unfolding read_persisted read_nested nested_op
  read_params none name o = read_nested (nested_op name) o
  read_params (some read) name o = do es ← lift (read_persisted o); lift (read es)

  unfoldable pub read_plain : Option Filter → Text → Obj → Run Filter
  unfolding read_blob read_params params_op
  read_plain none name o = read_params (params_op c name) name o
  read_plain (some f) name o = do s ← lift (read_blob o); ok f

  unfoldable pub read_prune : Obj → Run Filter
  unfolding read_blob from_utf8 text_eq
  read_prune o = do
    b ← lift (read_blob o)
    s ← lift (from_utf8 b)
    if text_eq s (bytes "trivial-merge") then ok prune else failed

  -- The arms by the name of an entry; that of `squash` depends on the kind of the entry.
  unfoldable pub read_entry : Mode → Text → Obj → Run Filter
  unfolding read_plain plain_op read_prune text_eq read_blob
  read_entry m name o =
      if text_eq name (bytes "prune")
      then read_prune o
      else if text_eq name (bytes "squash") && not (is_tree m)
      then (do s ← lift (read_blob o); ok squash_none)
      else read_plain (plain_op name) name o

  -- The first entry says which operation a tree stands for.
  unfoldable pub read_op : Obj → Run Filter
  unfolding read_entry
  read_op (tree (Git.entry m name o es)) = read_entry m name o
  read_op _ = failed

-- `from_tree2`, which recurses into the trees of the children.
unfoldable pub from_tree : Codec → ℕ → Obj → Run Filter
unfolding read_op
from_tree c zero o = out_of_fuel
from_tree c (suc fuel) o = read_op c (from_tree c fuel) o
