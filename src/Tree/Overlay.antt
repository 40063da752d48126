-- ===== src/Tree/Overlay.antt =====
-- `tree::overlay`: the union of two trees, in which the first one wins.
use josh.Base.{Option, none, some, List, [], ◌∷◌, Text, text_eq, if◌then◌else◌, ◌>>=◌}
use josh.Tree.Object.{Obj, Entries, blob, tree, absent, nil, entry, obj_eq, is_empty, read_tree}
use josh.Tree.Order.{Bisect, lookup_entry, insert_in_order}

-- `mods`: the new objects of the names that both trees have; the last insertion wins.
abbrev pub Ids : Type 0
Ids = List (Text × Obj)

unfoldable pub id_of : Ids → Text → Option Obj
id_of [] n = none
id_of ((k, o) ∷ ids) n = let rest = id_of ids n in if text_eq k n then some o else rest

abbrev pub put_id : Option Obj → Obj → Obj
put_id none o = o
put_id (some s) o = s

unfoldable pub apply_ids : Ids → Entries → Entries
unfolding id_of
apply_ids ids nil = nil
apply_ids ids (entry m k o es) = entry m k (put_id (id_of ids k) o) (apply_ids ids es)

-- The new entries are inserted in their order.
unfoldable pub insert_all : Entries → Entries → Entries
unfolding insert_in_order
insert_all out nil = out
insert_all out (entry m k o es) = insert_all (insert_in_order out m k o) es

module _ (bisect : Bisect) where
  -- `none` is the error of reading an absent object.
  unfoldable mutual
    unfolding apply_ids insert_all lookup_entry read_tree

    pub overlay : Obj → Obj → Option Obj
    overlay a (tree es2) =
        let both : Option Obj = elim (read_tree a) [
          | some (some es1) ↦ do
            r ← overlay_mods es1 [] es2
            some (tree (insert_all (apply_ids r.0 es1) r.1))
          | some none ↦ some a
          | none ↦ none
        ] in
        if obj_eq a (tree es2)
        then some a
        else (if is_empty a
            then some (tree es2)
            else (if is_empty (tree es2) then some a else both))
    overlay a (blob b) =
        let both : Option Obj = elim (read_tree a) [
          | some (some es1) ↦ some a
          | some none ↦ some a
          | none ↦ none
        ] in
        if obj_eq a (blob b) then some a else (if is_empty a then some (blob b) else both)
    overlay a (absent i) =
        if obj_eq a (absent i) then some a else (if is_empty a then some (absent i) else none)

    -- The loop over the entries of the second tree: the names that both have, and the new entries.
    pub overlay_mods : Entries → Ids → Entries → Option (Ids × Entries)
    overlay_mods es1 ids nil = some (ids, nil)
    overlay_mods es1 ids (entry m2 n o2 es2) = elim (lookup_entry bisect es1 n) [
      | none ↦ do r ← overlay_mods es1 ids es2; some (r.0, entry m2 n o2 r.1)
      | some e1 ↦ do id ← overlay e1.1 o2; overlay_mods es1 ((n, id) ∷ ids) es2
    ]
