-- ===== src/Examples/Tree.antt =====
-- The operations on concrete trees.
use josh.Base.{
  ℕ_discrete, text_eq, none, some, List, [], ◌∷◌, ◌≡◌, ◌↔◌, refl, Text, arith, if◌then◌else◌,
}
use josh.Tree.Object.{
  Obj, Obj-discrete, blob, tree, nil, entry, tree_mode, blob_mode, empty_id, find, find_kind,
}
use josh.Tree.Order.{lookup_entry}
use josh.Tree.Subtract.{subtract}
use josh.Tree.Intersect.{intersect}
use josh.Tree.Overlay.{overlay}
use josh.Tree.Leaves.{leaf, hit, covers, Distinct}
use josh.Tree.Leaves.Joint.{leaf-subtract, leaf-intersect, leaf-overlay}
use josh.Filter.Op.{subdir, prefix, chain, select, exclude, of_list}
use josh.Filter.Height.{height}
use josh.Tree.Insert.{insert_oid}
use josh.Apply.Run.{ok}
use josh.Apply.Eval.{apply}
use josh.Apply.Meaning.{run}
use josh.Apply.Partition.{select-exclude}
use mathlib.Core.List.{Memᴰ}
use josh.Tree.Diff.{Change, pos, negsuc, diff_paths}
use josh.Tree.Diff.Changes.{depth, IsChange}
use josh.Tree.Diff.Exact.{diff_paths-IsChange}
use josh.Persist.Utf8.{utf8_run}
use josh.Examples.World.{env, path_a, env-IsBisect, a, b, inner, sample}

-- `a/b` alone, with another content.
abbrev other : Obj
other = tree (entry tree_mode a (tree (entry blob_mode b (blob (3 ∷ [])) nil)) nil)

sample_names : Distinct sample
unfolding find text_eq
sample_names = (refl, (refl, tt, tt), (refl, tt, tt))

other_names : Distinct other
unfolding find text_eq
other_names = (refl, (refl, tt, tt), tt)

abbrev rest : Obj
rest = tree (entry blob_mode b (blob (2 ∷ [])) nil)

sample_subtracted : subtract find_kind sample other ≡ some rest
unfolding subtract Obj-discrete ℕ_discrete text_eq find_kind
sample_subtracted = refl

sample_intersected : intersect find_kind sample other ≡ some (tree (entry tree_mode a inner nil))
unfolding intersect Obj-discrete ℕ_discrete text_eq find_kind
sample_intersected = refl

sample_overlaid :
    overlay find_kind other sample
    ≡ some (
        tree (
          entry tree_mode a
            (tree (entry blob_mode b (blob (3 ∷ [])) nil))
            (entry blob_mode b (blob (2 ∷ [])) nil)))
unfolding overlay Obj-discrete ℕ_discrete text_eq find_kind
sample_overlaid = refl

leaf-subtract_example :
    (r : Obj) × (subtract find_kind sample other ≡ some r)
    × ((ns : List Text) → leaf r ns ≡ (if hit other ns then none else leaf sample ns))
leaf-subtract_example =
    leaf-subtract find_kind sample other env-IsBisect sample_names other_names ((tt, tt), (tt, tt))
      ((tt, tt), tt)

leaf-intersect_example :
    (r : Obj) × (intersect find_kind sample other ≡ some r)
    × ((ns : List Text) → leaf r ns ≡ (if covers other ns then leaf sample ns else none))
leaf-intersect_example =
    leaf-intersect find_kind sample other env-IsBisect sample_names other_names ((tt, tt), (tt, tt))
      ((tt, tt), tt)

leaf-overlay_example :
    (r : Obj) × (overlay find_kind other sample ≡ some r)
    × ((ns : List Text) → leaf r ns ≡ (if covers other ns then leaf other ns else leaf sample ns))
leaf-overlay_example =
    leaf-overlay find_kind other sample env-IsBisect other_names sample_names ((tt, tt), tt)
      ((tt, tt), (tt, tt))

-- A file where the second tree has an empty tree: `intersect` drops it, two subtractions keep it.
abbrev hollow : Obj
hollow = tree (entry tree_mode b empty_id nil)

hollow_intersected : intersect find_kind rest hollow ≡ some empty_id
unfolding intersect Obj-discrete ℕ_discrete text_eq find_kind
hollow_intersected = refl

hollow_subtracted : subtract find_kind rest hollow ≡ some empty_id
unfolding subtract Obj-discrete ℕ_discrete text_eq find_kind
hollow_subtracted = refl

hollow_subtracted_again : subtract find_kind rest empty_id ≡ some rest
unfolding subtract Obj-discrete ℕ_discrete text_eq find_kind
hollow_subtracted_again = refl

chosen :
    run env (chain (of_list (subdir path_a ∷ prefix path_a ∷ []))) sample
    ≡ ok (tree (entry tree_mode a inner nil))
unfolding run apply height text_eq insert_oid find_kind of_list
chosen = refl

chosen_names : Distinct (tree (entry tree_mode a inner nil))
unfolding find text_eq
chosen_names = (refl, (refl, tt, tt), tt)

select-exclude_example :
    (s x : Obj) × (run env (select (chain (of_list (subdir path_a ∷ prefix path_a ∷ [])))) sample
      ≡ ok s)
    × (run env (exclude (chain (of_list (subdir path_a ∷ prefix path_a ∷ [])))) sample ≡ ok x)
    × ((ns : List Text)
        → leaf s ns
          ≡ (if covers (tree (entry tree_mode a inner nil)) ns then leaf sample ns else none))
    × ((ns : List Text)
        → leaf x ns
          ≡ (if hit (tree (entry tree_mode a inner nil)) ns then none else leaf sample ns))
select-exclude_example =
    select-exclude env (chain (of_list (subdir path_a ∷ prefix path_a ∷ []))) sample
      (tree (entry tree_mode a inner nil)) env-IsBisect sample_names chosen_names
      ((tt, tt), (tt, tt)) ((tt, tt), tt) chosen

-- `a/b` with another content, and no `b`.
diff_paths-found :
    diff_paths find_kind 3 sample other []
    ≡ ok ((b'a' ∷ b'/' ∷ b'b' ∷ [], pos 0) ∷ (b, negsuc 0) ∷ [])
unfolding diff_paths Obj-discrete ℕ_discrete text_eq find_kind lookup_entry
diff_paths-found = refl

-- A file in place of the tree `a`, and then the tree again.
abbrev file_a : Obj
file_a = tree (entry blob_mode a (blob []) (entry blob_mode b (blob (2 ∷ [])) nil))

diff_paths-replaced : diff_paths find_kind 3 sample file_a [] ≡ ok ((a, pos 1) ∷ [])
unfolding diff_paths Obj-discrete ℕ_discrete text_eq find_kind lookup_entry
diff_paths-replaced = refl

diff_paths-restored : diff_paths find_kind 3 file_a sample [] ≡ ok ((a, negsuc 0) ∷ [])
unfolding diff_paths Obj-discrete ℕ_discrete text_eq find_kind lookup_entry
diff_paths-restored = refl

diff_paths-IsChange_example :
    (r : List Change) × (diff_paths find_kind 3 sample other [] ≡ ok r)
    × ((c : Change) → Memᴰ c r ↔ IsChange sample other [] c)
unfolding depth utf8_run
diff_paths-IsChange_example =
    diff_paths-IsChange find_kind 3 sample other [] env-IsBisect sample_names other_names
      (refl, (refl, tt, tt), (refl, tt, tt)) (refl, (refl, tt, tt), tt) (omega arith) (omega arith)
