-- ===== src/Sound/Moves.antt =====
-- `Prefix` puts a tree below a path, `Subdir` takes it out again.
use josh.Base.{none, some, List, [], ◌∷◌, ◌≡◌, refl, sym, ap, ◌∙◌, Text, map}
use josh.FilePath.{FilePath, Component, normal, root_dir, cur_dir, parent_dir}
use josh.Filter.Op.{subdir}
use josh.Opt.Step.{subdirs, split_subdir}
use josh.Tree.Object.{Mode, Obj, tree_mode, commit_mode, file_mode, empty_id, find, read_tree}
use josh.Tree.Lookup.{
  Found, look, found_then, descend, get_path_entry, path_components, component_names,
}
use josh.Tree.Insert.{component_bytes, replace_child}
use josh.Apply.Run.{ok}
use josh.Apply.Eval.{Env, found_tree, apply_op, apply_subdir}
use josh.Apply.Meaning.{run, run-eq}
use josh.Sound.Plain.{IsNormal}
use josh.Sound.Sequence.{seq, run-chain-of_list}

abbrev pub names : FilePath → List Text
names p = map component_bytes p

-- A tree below one name.
unfoldable pub below : Text → Obj → Obj
unfolding replace_child
below n t = replace_child n t tree_mode empty_id

-- A tree below the names of a path.
unfoldable pub nest : FilePath → Obj → Obj
nest [] t = t
nest (c ∷ p) t = below (component_bytes c) (nest p t)

-- The tree at some names below a tree.
unfoldable pub at : Env → List Text → Obj → Obj
unfolding descend
at env ns o = found_tree env (descend (tree_mode, o) ns)

pub IsNormal-tail : (c : Component) (p : FilePath) → IsNormal (c ∷ p) → IsNormal p
IsNormal-tail (normal s) p h = h
IsNormal-tail root_dir p h = elim h [ ]
IsNormal-tail cur_dir p h = elim h [ ]
IsNormal-tail parent_dir p h = elim h [ ]

pub IsNormal-head : (c : Component) (p : FilePath) → IsNormal (c ∷ p) → IsNormal (c ∷ [])
IsNormal-head (normal s) p h = tt
IsNormal-head root_dir p h = elim h [ ]
IsNormal-head cur_dir p h = elim h [ ]
IsNormal-head parent_dir p h = elim h [ ]

module _ (env : Env) where
  pub at-empty : (ns : List Text) → at env ns empty_id ≡ empty_id
  unfolding at descend read_tree find
  at-empty [] = refl
  at-empty (n ∷ ns) = refl

  tree_found :
      (e : Mode × Obj) (ns : List Text)
      → found_tree env (descend e ns) ≡ at env ns (found_tree env (some (some e)))
  unfolding at descend
  tree_found (tree_mode, o) ns = refl
  tree_found (commit_mode, o) [] = refl
  tree_found (commit_mode, o) (n ∷ ns) = sym (at-empty (n ∷ ns))
  tree_found (file_mode k, o) [] = refl
  tree_found (file_mode k, o) (n ∷ ns) = sym (at-empty (n ∷ ns))

  found_then-at :
      (e : Found) (ns : List Text)
      → found_tree env (found_then e (λ x. descend x ns)) ≡ at env ns (found_tree env e)
  found_then-at (some (some e)) ns = tree_found e ns
  found_then-at (some none) ns = sym (at-empty ns)
  found_then-at none ns = sym (at-empty ns)

  pub at-nil : (o : Obj) → at env [] o ≡ o
  unfolding at descend
  at-nil o = refl

  at_step :
      (n : Text) (ns : List Text) (o : Obj)
      → at env (n ∷ ns) o ≡ found_tree env (found_then (look (read_tree o) n) (λ x. descend x ns))
  unfolding at descend
  at_step n ns o = refl

  pub at-look :
      (n : Text) (ns : List Text) (o : Obj)
      → at env (n ∷ ns) o ≡ at env ns (found_tree env (look (read_tree o) n))
  at-look n ns o = at_step n ns o ∙ found_then-at (look (read_tree o) n) ns

  -- The descent goes one name at a time.
  at-cons :
      (n : Text) (ns : List Text) (o : Obj) → at env (n ∷ ns) o ≡ at env ns (at env (n ∷ []) o)
  at-cons n ns o = at-look n ns o ∙ ap (at env ns) (sym (at-look n [] o ∙ at-nil _))

  component_names-names : (p : FilePath) → IsNormal p → component_names p ≡ some (names p)
  unfolding component_names
  component_names-names [] h = refl
  component_names-names (normal s ∷ p) h = rw (component_names-names p h)
  component_names-names (root_dir ∷ p) h = elim h [ ]
  component_names-names (cur_dir ∷ p) h = elim h [ ]
  component_names-names (parent_dir ∷ p) h = elim h [ ]

  pub apply_subdir-at :
      (c : Component) (p : FilePath) (o : Obj)
      → IsNormal (c ∷ p)
      → apply_subdir env (c ∷ p) o ≡ at env (names (c ∷ p)) o
  unfolding apply_subdir get_path_entry path_components at descend
  apply_subdir-at c p o h = rw (component_names-names (c ∷ p) h)

  pub run-subdir : (p : FilePath) (o : Obj) → run env (subdir p) o ≡ ok (apply_subdir env p o)
  unfolding apply_op
  run-subdir p o = run-eq env (subdir p) o

  seq-subdirs :
      (p : FilePath) (o : Obj) → IsNormal p → seq env (subdirs p) o ≡ ok (at env (names p) o)
  unfolding seq subdirs
  seq-subdirs [] o h = ap ok (sym (at-nil o))
  seq-subdirs (c ∷ p) o h =
      rw (run-subdir (c ∷ []) o, apply_subdir-at c [] o (IsNormal-head c p h))
        (seq-subdirs p _ (IsNormal-tail c p h)
          ∙ ap ok (sym (at-cons (component_bytes c) (names p) o)))

  -- The chain into which step splits a Subdir of one or more names has the same result as the
  -- Subdir on every tree.
  pub run-split_subdir :
      (c : Component) (p : FilePath) (o : Obj)
      → IsNormal (c ∷ p)
      → run env (split_subdir (c ∷ p)) o ≡ run env (subdir (c ∷ p)) o
  unfolding split_subdir
  run-split_subdir c [] o h = refl
  run-split_subdir c (d ∷ p) o h =
      run-chain-of_list env (subdirs (c ∷ d ∷ p)) o
      ∙ seq-subdirs (c ∷ d ∷ p) o h
      ∙ sym (run-subdir (c ∷ d ∷ p) o ∙ ap ok (apply_subdir-at c (d ∷ p) o h))
