-- ===== src/Persist/Write.antt =====
-- `build_op` of josh-filter/src/persist.rs: the tree that stands for a filter. With an object source,
-- as `as_tree` has one, an inserted object is an entry of the tree; without one, as in
-- `Filter::id`, its id is a text. An id is the object that it names, so the id of a child is its
-- tree.
use josh.Base.{
  Bool, true, false, Option, none, some, any, if◌then◌else◌, List, ◌≡◌, ◌≢◌, inl, inr, sym, ◌∙◌,
  some_inj, Bool-cases, if-true, if-false, [], ◌∷◌, ◌++◌, map, Text, ◌>>=◌,
}
use josh.FilePath.{FilePath}
use josh.Filter.Op.{
  Filter, Filters, Arms, RefMap, LinkMode, LazyRef, RevMatch, InsertContent, Meta, inline, oid,
  ancestor_strict, ancestor_inclusive, equal, default, meta, nop, empty, fold, paths, adapt, link,
  unlink, export, embed, squash_none, squash_some, author, committer, rev, prune, regex_replace,
  hook, index, invert, insert, file, prefix, subdir, workspace, stored, starlark, tree_id,
  object_deref, object_ref, pattern, message, unapply, compose, chain, subtract, exclude, select,
  pin, downstack, nil, cons, no_arms, arm, no_refs, ref,
}
use josh.Tree.Object.{Mode, Obj, Entries, blob, tree, absent, tree_mode, blob_mode}
use josh.Tree.Object as Git
use josh.Tree.Insert.{has_nul}
use josh.Persist.Utf8.{bytes, to_string_lossy}
use josh.Persist.PathText.{path_text}
use josh.Persist.RefText.{Codec, lazy_ref_text, link_mode_text}
use josh.Persist.Entries.{write_tree, index_entries, blob_entry, tree_entry}

unfoldable pub str_params : List Text → Obj
unfolding write_tree index_entries
str_params ps = write_tree (index_entries blob_mode 0 (map blob ps))

unfoldable pub filter_params : List Obj → Obj
unfolding write_tree index_entries
filter_params os = write_tree (index_entries tree_mode 0 os)

-- `path.to_string_lossy()`
unfoldable pub lossy_path : FilePath → Text
unfolding path_text to_string_lossy
lossy_path p = to_string_lossy (path_text p)

unfoldable pub path_params : FilePath → Obj
unfolding str_params lossy_path
path_params p = str_params (lossy_path p ∷ [])

unfoldable pub starlark_params : FilePath → Obj → Obj
unfolding write_tree path_params filter_params
starlark_params p o = write_tree (
    tree_entry (bytes "0") (path_params p)
      (tree_entry (bytes "1") (filter_params (o ∷ [])) Git.nil))

unfoldable pub regex_pair : Text × Text → Obj
unfolding write_tree
regex_pair (re, text) = write_tree (blob_entry (bytes "p") re (blob_entry (bytes "r") text Git.nil))

-- A text and a filter, as the arms of `Rev`, the entries of `Squash` and `Unapply` are written.
unfoldable pub keyed : Text → Obj → Obj
unfolding write_tree
keyed key o = write_tree (blob_entry (bytes "o") key (tree_entry (bytes "f") o Git.nil))

unfoldable pub meta_entries : Meta → Obj → Entries
meta_entries [] o = tree_entry (bytes "0") o Git.nil
meta_entries ((k, v) ∷ m) o = blob_entry k v (meta_entries m o)

-- The tree of an operation with parameters, and of one without.
unfoldable pub tree_op : Text → Obj → Obj
unfolding write_tree
tree_op name o = write_tree (tree_entry name o Git.nil)

unfoldable pub blob_op : Text → Text → Obj
unfolding write_tree
blob_op name s = write_tree (blob_entry name s Git.nil)

unfoldable pub link_text : Option LinkMode → Text
unfolding link_mode_text
link_text none = []
link_text (some m) = link_mode_text m

-- The mode of an entry for an inserted object.
unfoldable pub insert_mode : Obj → Option Mode
insert_mode (blob s) = some blob_mode
insert_mode (tree es) = some tree_mode
insert_mode (absent i) = none

unfoldable pub object_params : Text → Obj → Mode → Obj
unfolding write_tree
object_params p o m = write_tree (blob_entry (bytes "0") p (Git.entry m (bytes "o") o Git.nil))

-- A key is the name of an entry, and `StagingOdb::write_tree` panics on a name with a NUL.
unfoldable pub write_meta : Meta → Obj → Option Obj
unfolding write_tree meta_entries tree_op has_nul
write_meta m o =
    if any (λ kv. has_nul kv.0) m
    then none
    else some (tree_op (bytes "meta") (write_tree (meta_entries m o)))

pub write_meta-some :
    (m : Meta) (o r : Obj)
    → write_meta m o ≡ some r
    → (any (λ kv. has_nul kv.0) m ≡ false)
      × (tree_op (bytes "meta") (write_tree (meta_entries m o)) ≡ r)
unfolding write_meta
write_meta-some m o r e = elim (Bool-cases (any (λ kv. has_nul kv.0) m)) [
  | inl q ↦ let wrong = sym (if-true _ _ _ q) ∙ e in absurd (cc)
  | inr q ↦ (q, some_inj (sym (if-false _ _ _ q) ∙ e))
]

pub write_meta-ne-none :
    (m : Meta) (o : Obj) → any (λ kv. has_nul kv.0) m ≡ false → write_meta m o ≢ none
unfolding write_meta
write_meta-ne-none m o q e = let wrong = sym (if-false _ _ _ q) ∙ e in absurd (cc)

module _ (c : Codec) where
  unfoldable pub rev_key : RevMatch → LazyRef → Text
  unfolding lazy_ref_text
  rev_key ancestor_strict r = bytes "<" ++ lazy_ref_text c r
  rev_key ancestor_inclusive r = bytes "<=" ++ lazy_ref_text c r
  rev_key equal r = bytes "==" ++ lazy_ref_text c r
  rev_key default r = bytes "_"

module _ (c : Codec) (source : Bool) where
  unfoldable pub insert_params : Text → InsertContent → Option Obj
  unfolding str_params object_params insert_mode
  insert_params p (inline s) = some (str_params (p ∷ bytes "inline" ∷ s ∷ []))
  insert_params p (oid i) = elim source [
    | true ↦ do m ← insert_mode (c.object i); some (object_params p (c.object i) m)
    | false ↦ some (str_params (p ∷ bytes "oid" ∷ c.hex i ∷ []))
  ]

  unfoldable mutual
    unfolding str_params filter_params path_params lossy_path starlark_params regex_pair keyed
        tree_op blob_op link_text insert_params rev_key write_meta

    pub build_op : Filter → Option Obj
    build_op (message fmt re) = some (tree_op (bytes "message") (str_params (fmt ∷ re ∷ [])))
    build_op (author name email) = some (tree_op (bytes "author") (str_params (name ∷ email ∷ [])))
    build_op (committer name email) =
        some (tree_op (bytes "committer") (str_params (name ∷ email ∷ [])))
    build_op (compose fs) = do
      os ← build_all fs
      some (tree_op (bytes "compose") (filter_params os))
    build_op (subtract a b) = do
      x ← build_op a
      y ← build_op b
      some (tree_op (bytes "subtract") (filter_params (x ∷ y ∷ [])))
    build_op (chain fs) = do os ← build_all fs; some (tree_op (bytes "chain") (filter_params os))
    build_op (exclude f) = do
      o ← build_op f
      some (tree_op (bytes "exclude") (filter_params (o ∷ [])))
    build_op (select f) = do
      o ← build_op f
      some (tree_op (bytes "select") (filter_params (o ∷ [])))
    build_op (pin f) = do o ← build_op f; some (tree_op (bytes "pin") (filter_params (o ∷ [])))
    build_op (subdir p) = some (tree_op (bytes "subdir") (path_params p))
    build_op (prefix p) = some (tree_op (bytes "prefix") (path_params p))
    build_op (insert p content) = do
      o ← insert_params (lossy_path p) content
      some (tree_op (bytes "insert") o)
    build_op (file dest src) =
        some (tree_op (bytes "file") (str_params (lossy_path dest ∷ lossy_path src ∷ [])))
    build_op (embed p) = some (tree_op (bytes "embed") (path_params p))
    build_op (pattern glob) = some (tree_op (bytes "pattern") (str_params (glob ∷ [])))
    build_op (workspace p) = some (tree_op (bytes "workspace") (path_params p))
    build_op (stored p) = some (tree_op (bytes "stored") (path_params p))
    build_op (starlark p f) = do
      o ← build_op f
      some (tree_op (bytes "starlark") (starlark_params p o))
    build_op (tree_id p f) = do
      o ← build_op f
      some (tree_op (bytes "treeid") (starlark_params p o))
    build_op (object_deref p) = some (tree_op (bytes "treederef") (path_params p))
    build_op (object_ref p) = some (tree_op (bytes "treeref") (path_params p))
    build_op nop = some (blob_op (bytes "nop") [])
    build_op empty = some (blob_op (bytes "empty") [])
    build_op export = some (blob_op (bytes "export") [])
    build_op paths = some (blob_op (bytes "paths") [])
    build_op (link mode) = some (tree_op (bytes "link") (str_params (link_text mode ∷ [])))
    build_op (adapt mode) = some (tree_op (bytes "adapt") (str_params (mode ∷ [])))
    build_op unlink = some (blob_op (bytes "unlink") [])
    build_op invert = some (blob_op (bytes "invert") [])
    build_op index = some (blob_op (bytes "index") [])
    build_op fold = some (blob_op (bytes "fold") [])
    build_op squash_none = some (blob_op (bytes "squash") [])
    build_op prune = some (blob_op (bytes "prune") (bytes "trivial-merge"))
    build_op (rev arms) = do os ← build_arms arms; some (tree_op (bytes "rev") (filter_params os))
    build_op (unapply r f) = do
      o ← build_op f
      some (tree_op (bytes "unapply") (filter_params (keyed (lazy_ref_text c r) o ∷ [])))
    build_op (squash_some refs) = do
      os ← build_refs refs
      some (tree_op (bytes "squash") (filter_params os))
    build_op (regex_replace pairs) =
        some (tree_op (bytes "regex_replace") (filter_params (map regex_pair pairs)))
    build_op (hook name) = some (tree_op (bytes "hook") (str_params (name ∷ [])))
    build_op (downstack r) =
        some (tree_op (bytes "downstack") (str_params (lazy_ref_text c r ∷ [])))
    build_op (meta m f) = do o ← build_op f; write_meta m o

    pub build_all : Filters → Option (List Obj)
    build_all nil = some []
    build_all (cons f fs) = do o ← build_op f; os ← build_all fs; some (o ∷ os)

    pub build_arms : Arms → Option (List Obj)
    build_arms no_arms = some []
    build_arms (arm m r f arms) = do
      o ← build_op f
      os ← build_arms arms
      some (keyed (rev_key c m r) o ∷ os)

    pub build_refs : RefMap → Option (List Obj)
    build_refs no_refs = some []
    build_refs (ref r f refs) = do
      o ← build_op f
      os ← build_refs refs
      some (keyed (lazy_ref_text c r) o ∷ os)
