-- ===== src/Tree/Subtract.antt =====
-- `tree::subtract`: the first tree without the paths of the second.
use josh.Base.{Option, none, some, List, [], ◌∷◌, Text, text_eq, if◌then◌else◌, ◌>>=◌}
use josh.Tree.Object.{
  Mode, Obj, Entries, blob, tree, absent, nil, entry, obj_eq, empty_id, is_empty, is_gone,
  read_tree,
}
use josh.Tree.Order.{Bisect, lookup_entry}

-- `mods`: what becomes of the entries of a name. `none` removes them; the last insertion wins.
abbrev pub Mods : Type 0
Mods = List (Text × Option Obj)

unfoldable pub mod_of : Mods → Text → Option (Option Obj)
mod_of [] n = none
mod_of ((k, o) ∷ mods) n = let rest = mod_of mods n in if text_eq k n then some o else rest

abbrev pub mod_for : Obj → Option Obj
mod_for s = if is_gone s then none else some s

abbrev pub put_mod : Option (Option Obj) → Mode → Text → Obj → Entries → Entries
put_mod none m k o rest = entry m k o rest
put_mod (some none) m k o rest = rest
put_mod (some (some s)) m k o rest = entry m k s rest

unfoldable pub apply_mods : Mods → Entries → Entries
unfolding mod_of
apply_mods mods nil = nil
apply_mods mods (entry m k o es) = put_mod (mod_of mods k) m k o (apply_mods mods es)

module _ (bisect : Bisect) where
  -- `none` is the error of reading an absent object.
  unfoldable mutual
    unfolding apply_mods lookup_entry read_tree

    pub subtract : Obj → Obj → Option Obj
    subtract a (tree es2) =
        let both : Option Obj = elim (read_tree a) [
          | some (some es1) ↦
              if is_empty (tree es2)
              then some a
              else do mods ← subtract_mods es1 [] es2; some (tree (apply_mods mods es1))
          | some none ↦ some empty_id
          | none ↦ none
        ] in
        if obj_eq a (tree es2) then some empty_id else (if is_empty a then some empty_id else both)
    subtract a (blob b) =
        let both : Option Obj = elim (read_tree a) [
          | some (some es1) ↦ some empty_id
          | some none ↦ some empty_id
          | none ↦ none
        ] in
        if obj_eq a (blob b) then some empty_id else (if is_empty a then some empty_id else both)
    subtract a (absent i) =
        if obj_eq a (absent i) then some empty_id else (if is_empty a then some empty_id else none)

    pub subtract_mods : Entries → Mods → Entries → Option Mods
    subtract_mods es1 mods nil = some mods
    subtract_mods es1 mods (entry m2 n o2 es2) = elim (lookup_entry bisect es1 n) [
      | none ↦ subtract_mods es1 mods es2
      | some e1 ↦ do s ← subtract e1.1 o2; subtract_mods es1 ((n, mod_for s) ∷ mods) es2
    ]
