-- ===== src/Tree/Diff.antt =====
-- `diff_paths` of josh-core/src/filter/tree.rs: the paths at which two trees have other files. A
-- missing object is no error here, as `kind_of` and `read_tree_into` fold it to `None`.
pub mod Changes
pub mod Loops
pub mod Trees
pub mod Exact
use josh.Base.{
  ℕ, zero, suc, Bool, true, false, Option, none, some, List, [], ◌∷◌, ◌++◌, Text, if◌then◌else◌,
}
use josh.Tree.Object.{Mode, Obj, Entries, blob, tree, absent, nil, entry, obj_eq, zero_id}
use josh.Tree.Order.{Bisect, lookup_entry}
use josh.Persist.Utf8.{from_utf8}
use josh.Pattern.Walk.{push_name}
use josh.Apply.Run.{Run, ok, failed, out_of_fuel, lift, ◌>>=◌}

-- `i32`, of which the code uses 0, 1 and -1.
pub data ℤ : Type 0 where
  pos negsuc : ℕ → ℤ

-- `(String, i32)`
abbrev pub Change : Type 0
Change = Text × ℤ

-- The object of a name that one tree has, or the zero id.
abbrev pub entry_id : Option (Mode × Obj) → Obj
entry_id none = zero_id
entry_id (some e) = e.1

-- One of the loops over the entries of a tree, with the call in its body.
unfoldable pub for_entries :
    (Text → Obj → Text → Run (List Change)) → Text → Entries → Run (List Change)
unfolding from_utf8
for_entries body root nil = ok []
for_entries body root (entry m k o es) = do
  name ← lift (from_utf8 k)
  r ← body k o (push_name root name)
  rest ← for_entries body root es
  ok (r ++ rest)

-- The comparison of two ids at a path, which the loops call.
abbrev pub Differ : Type 0
Differ = Obj → Obj → Text → Run (List Change)

abbrev pub if_missing : Differ → Obj → Text → Option (Mode × Obj) → Run (List Change)
if_missing differ o path none = differ o zero_id path
if_missing differ o path (some e) = ok []

module _ (bisect : Bisect) where
  -- The loop over the second tree: the first tree may have the name too.
  abbrev pub changed_entry : Differ → Entries → Text → Obj → Text → Run (List Change)
  changed_entry differ es1 k o path = differ (entry_id (lookup_entry bisect es1 k)) o path

  -- The loop over the first tree, which skips the names that the second tree has.
  abbrev pub removed_entry : Differ → Entries → Text → Obj → Text → Run (List Change)
  removed_entry differ es2 k o path = if_missing differ o path (lookup_entry bisect es2 k)

  -- What is done with two different ids, by the kinds of their objects.
  unfoldable pub diff_kinds : Differ → Obj → Obj → Text → Run (List Change)
  unfolding for_entries
  diff_kinds differ (blob s) (blob t) root = ok ((root, pos 0) ∷ [])
  diff_kinds differ (blob s) _ root = ok ((root, negsuc 0) ∷ [])
  diff_kinds differ _ (blob t) root = ok ((root, pos 1) ∷ [])
  diff_kinds differ (tree es1) (tree es2) root = do
    r ← for_entries (changed_entry differ es1) root es2
    rest ← for_entries (removed_entry differ es2) root es1
    ok (r ++ rest)
  diff_kinds differ _ (tree es2) root = for_entries (λ k o path. differ zero_id o path) root es2
  diff_kinds differ (tree es1) _ root = for_entries (λ k o path. differ o zero_id path) root es1
  diff_kinds differ _ _ root = ok []

  unfoldable pub diff_paths : ℕ → Differ
  unfolding diff_kinds
  diff_paths zero a b root = out_of_fuel
  diff_paths (suc fuel) a b root =
      if obj_eq a b then ok [] else diff_kinds (diff_paths fuel) a b root
