-- ===== src/Tree/NoZero.antt =====
-- No operation writes the zero id into a tree.
pub mod Unions
pub mod Places
use josh.Base.{
  ℕ, zero, suc, Bool, true, false, Option, none, some, some_inj, Option-cases, List, [], ◌∷◌, ◌≡◌,
  refl, subst, Text, text_eq, Bool-cases, inl, inr, arith, All?, All?-bind, All?-elim, All?-if,
  if◌then◌else◌,
}
use josh.Tree.Object.{
  Mode, Obj, Entries, blob, tree, absent, nil, entry, find, find_kind, is_tree, is_gone, is_empty,
  obj_eq, tree_entries, empty_id, read_tree,
}
use josh.Tree.Order.{
  or_else, Bisect, IsBisect, lookup_entry, insert_in_order, all_after, canonically_sorted,
}
use josh.Tree.Subtract as Subtract
use josh.Tree.Subtract.{Mods, mod_of, apply_mods}

abbrev mutual
  pub NoZero : Obj → Type 0
  NoZero (blob b) = Unit
  NoZero (tree es) = NoZeros es
  NoZero (absent zero) = ⊥
  NoZero (absent (suc i)) = Unit

  pub NoZeros : Entries → Type 0
  NoZeros nil = Unit
  NoZeros (entry m k o es) = NoZero o × NoZeros es

-- What a lookup gives has no zero id in it.
abbrev pub NoZeroAt : Mode × Obj → Type 0
NoZeroAt e = NoZero e.1

pub find-NoZero : (es : Entries) (n : Text) → NoZeros es → All? NoZeroAt (find es n)
unfolding find
find-NoZero nil n h = tt
find-NoZero (entry m k o es) n h =
    All?-if NoZeroAt (text_eq k n) (some (m, o)) (find es n) h.0 (find-NoZero es n h.1)

find_kind-NoZero :
    (es : Entries) (n : Text) (dir : Bool) → NoZeros es → All? NoZeroAt (find_kind es n dir)
unfolding find_kind
find_kind-NoZero nil n dir h = tt
find_kind-NoZero (entry m k o es) n dir h =
    let rest = find_kind-NoZero es n dir h.1 in
    let here : All? NoZeroAt (some (m, o)) = h.0 in
    All?-if NoZeroAt (text_eq k n) _ _
      (All?-if NoZeroAt (is_tree m) _ _ (All?-if NoZeroAt dir _ _ here rest)
        (All?-if NoZeroAt dir _ _ rest here))
      rest

or_else-NoZero :
    (a b : Option (Mode × Obj)) → All? NoZeroAt a → All? NoZeroAt b → All? NoZeroAt (or_else a b)
or_else-NoZero (some e) b h k = h
or_else-NoZero none b h k = k

module _ (bisect : Bisect) (is_bisect : IsBisect bisect) where
  pub lookup_entry-NoZero :
      (es : Entries) (n : Text) → NoZeros es → All? NoZeroAt (lookup_entry bisect es n)
  unfolding lookup_entry
  lookup_entry-NoZero es n h = elim (Bool-cases (canonically_sorted es)) [
    | inl sorted ↦
        rw (sorted, is_bisect es n false sorted, is_bisect es n true sorted)
          (or_else-NoZero (find_kind es n false) (find_kind es n true)
            (find_kind-NoZero es n false h) (find_kind-NoZero es n true h))
    | inr other ↦ rw other (find-NoZero es n h)
  ]
