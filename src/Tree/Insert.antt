-- ===== src/Tree/Insert.antt =====
-- `tree::insert_oid`: a tree with an object put at a path.
use josh.Base.{
  Bool, not, ◌&&◌, ◌==◌, any, Option, none, some, [], ◌∷◌, reverse, Text, text_eq, if◌then◌else◌,
  ◌>>=◌,
}
use josh.FilePath.{FilePath, Component, root_dir, cur_dir, parent_dir, normal}
use josh.Tree.Object.{
  Mode, Obj, Entries, tree, nil, entry, tree_mode, empty_id, is_gone, tree_entries, find,
}
use josh.Tree.Order.{Bisect, lookup_entry, insert_in_order}

-- `component_bytes` of a component's text.
abbrev pub component_bytes : Component → Text
component_bytes root_dir = b'/' ∷ []
component_bytes cur_dir = b'.' ∷ []
component_bytes parent_dir = b'.' ∷ b'.' ∷ []
component_bytes (normal s) = s

unfoldable pub drop_name : Entries → Text → Entries
drop_name nil n = nil
drop_name (entry m k o es) n =
    let rest = drop_name es n in if text_eq k n then rest else entry m k o rest

-- The first entry of the name is replaced, and the later ones removed.
unfoldable pub put_first : Entries → Text → Mode → Obj → Entries
unfolding drop_name
put_first nil n m' o' = nil
put_first (entry m k o es) n m' o' =
    let later = entry m k o (put_first es n m' o') in
    if text_eq k n then entry m' n o' (drop_name es n) else later

abbrev pub seed : Option Entries → Entries
seed none = nil
seed (some es) = es

-- `replace_child_inner`, on the entries that it seeds from.
unfoldable pub replace_in : Entries → Text → Obj → Mode → Entries
unfolding drop_name put_first insert_in_order find
replace_in es n o m =
    if is_gone o
    then drop_name es n
    else elim (find es n) [ some _ ↦ put_first es n m o | none ↦ insert_in_order es m n o ]

-- An object that is no tree, or is not there, is taken for a tree with no entries.
unfoldable pub replace_child : Text → Obj → Mode → Obj → Obj
unfolding replace_in tree_entries
replace_child n o m t = tree (replace_in (seed (tree_entries t)) n o m)

-- `write_tree_now` refuses a name with a NUL. Names that were read from a tree have none, as a NUL
-- ends them there.
unfoldable pub has_nul : Text → Bool
has_nul s = any (λ c. c == 0) s

-- `replace_child_inner` with the write of its tree.
unfoldable pub write_child : Text → Obj → Mode → Obj → Option Obj
unfolding replace_child has_nul
write_child n o m t = if not (is_gone o) && has_nul n then none else some (replace_child n o m t)

module _ (bisect : Bisect) where
  -- One component of the way to the subtree at the parent.
  unfoldable pub subtree_step : Obj → Component → Obj
  unfolding tree_entries lookup_entry
  subtree_step t c = elim (tree_entries t) [
    | none ↦ empty_id
    | some es ↦ elim (lookup_entry bisect es (component_bytes c)) [ none ↦ empty_id | some e ↦ e.1 ]
  ]

  unfoldable pub subtree_at : Obj → FilePath → Obj
  unfolding subtree_step
  subtree_at t [] = t
  subtree_at t (c ∷ p) = subtree_at (subtree_step t c) p

  -- The recursion goes from a path to its parent, so it is on the components from the last one. A
  -- last component that is no name is an error, unless it is the only one.
  unfoldable pub insert_reversed : Obj → FilePath → Obj → Mode → Option Obj
  unfolding subtree_at write_child
  insert_reversed full [] o m = none
  insert_reversed full (c ∷ []) o m = write_child (component_bytes c) o m full
  insert_reversed full (normal n ∷ d ∷ p) o m = do
    sub ← write_child n o m (subtree_at full (reverse (d ∷ p)))
    insert_reversed full (d ∷ p) sub tree_mode
  insert_reversed full (_ ∷ d ∷ p) o m = none

  unfoldable pub insert_oid : Obj → FilePath → Obj → Mode → Option Obj
  unfolding insert_reversed
  insert_oid full p o m = insert_reversed full (reverse p) o m
