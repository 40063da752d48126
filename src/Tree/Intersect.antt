-- ===== src/Tree/Intersect.antt =====
-- `tree::intersect`: the first tree at the paths of the second.
use josh.Base.{Option, none, some, if◌then◌else◌, ◌||◌, ◌>>=◌}
use josh.Tree.Object.{
  Obj, Entries, blob, tree, absent, nil, entry, obj_eq, empty_id, is_empty, is_gone, read_tree,
}
use josh.Tree.Order.{Bisect, lookup_entry, insert_in_order}

module _ (bisect : Bisect) where
  -- `none` is the error of reading an absent object.
  unfoldable mutual
    unfolding lookup_entry insert_in_order read_tree

    pub intersect : Obj → Obj → Option Obj
    intersect a (tree es2) =
        let both : Option Obj = elim (read_tree a) [
          | some (some es1) ↦ do out ← intersect_into es1 nil es2; some (tree out)
          | some none ↦ some a
          | none ↦ none
        ] in
        if obj_eq a (tree es2)
        then some a
        else (if is_empty a || is_empty (tree es2) then some empty_id else both)
    intersect a (blob b) =
        let both : Option Obj = elim (read_tree a) [
          | some (some es1) ↦ some a
          | some none ↦ some a
          | none ↦ none
        ] in
        if obj_eq a (blob b) then some a else (if is_empty a then some empty_id else both)
    intersect a (absent i) =
        if obj_eq a (absent i) then some a else (if is_empty a then some empty_id else none)

    -- The loop over the entries of the second tree, with the entries kept so far.
    pub intersect_into : Entries → Entries → Entries → Option Entries
    intersect_into es1 out nil = some out
    intersect_into es1 out (entry m2 n o2 es2) = elim (lookup_entry bisect es1 n) [
      | none ↦ intersect_into es1 out es2
      | some e1 ↦ do
        child ← intersect e1.1 o2
        intersect_into es1 (if is_gone child then out else insert_in_order out e1.0 n child) es2
    ]
