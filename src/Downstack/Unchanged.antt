-- ===== src/Downstack/Unchanged.antt =====
-- A stack in which every commit is needed is left as it is.
use josh.Base.{
  Bool, true, some, List, [], ◌∷◌, ◌≡◌, refl, ap, ap₂, sym, ◌∙◌, is_yes-true, if-true, Text,
}
use josh.Tree.Object.{Obj, Obj-discrete, obj_eq}
use josh.RevWalk.{Commit, Commits, commit, nil, cons, to_list}
use josh.Apply.Run.{ok, ◌>>=◌}
use josh.Downstack.{
  Git, DownstackDep, tree_id, of_list, downstack_commit_deps, cached_merge_trees, rebase_one,
  rebase, restack,
}
use josh.Downstack.Needed.{IsNeeded, AreMarked, Reads, select_needed-IsLinked}

-- Each commit has the one before as its only parent and is written as it was read; `top` is the
-- last one.
abbrev pub IsLinear : Git → Commit → List Commit → Commit → Type 0
IsLinear git base [] top = top ≡ base
IsLinear git base (c ∷ cs) top =
    (t : Obj) × (b : Text) × (git.rewrite b ≡ some b)
    × (c ≡ commit t (cons base nil) b)
    × IsLinear git c cs top

-- Every commit below the change shares a dependency with what is above it.
abbrev pub AreNeeded : List DownstackDep → List (List DownstackDep) → Type 0
AreNeeded change [] = Unit
AreNeeded change (d ∷ ds) = IsNeeded change d ds × AreNeeded change ds

marks : List Commit → List Bool
marks [] = []
marks (c ∷ cs) = true ∷ marks cs

of_list-to_list : (ps : Commits) → of_list (to_list ps) ≡ ps
of_list-to_list nil = refl
of_list-to_list (cons c cs) = ap (cons c) (of_list-to_list cs)

module _ (git : Git) where
  all_marked :
      (change : List DownstackDep) (cs : List Commit) (ds : List (List DownstackDep))
      (ns : List Bool)
      → Reads git cs ds
      → AreNeeded change ds
      → AreMarked change ds ns
      → ns ≡ marks cs
  unfolding marks
  all_marked change [] [] [] r h m = refl
  all_marked change (c ∷ cs) (d ∷ ds) (n ∷ ns) (e, r) (h, hs) (m, ms) =
      ap₂ (λ x xs. x ∷ xs) (m.1 h) (all_marked change cs ds ns r hs ms)
  all_marked change [] (d ∷ ds) ns r h m = absurd r
  all_marked change (c ∷ cs) [] ns r h m = absurd r
  all_marked change [] [] (n ∷ ns) r h m = absurd m
  all_marked change (c ∷ cs) (d ∷ ds) [] r h m = absurd m

  merge-same : (a c : Obj) → cached_merge_trees git a a c ≡ ok c
  unfolding cached_merge_trees
  merge-same a c = if-true (obj_eq a a) _ _ (is_yes-true (Obj-discrete a a) refl)

  -- A commit on its own parent is itself.
  rebase_one-same :
      (base c : Commit) (t t' : Obj) (b : Text)
      → tree_id base ≡ ok t
      → git.rewrite b ≡ some b
      → c ≡ commit t' (cons base nil) b
      → rebase_one git c (base, t) ≡ ok (c, t')
  rebase_one-same base c t t' b e w q = rw q (rw e (rw (merge-same t t') (rw w refl)))

  rebase-same :
      (cs : List Commit) (base top : Commit) (t : Obj)
      → tree_id base ≡ ok t
      → IsLinear git base cs top
      → (t' : Obj) × (tree_id top ≡ ok t') × (rebase git cs (marks cs) (base, t) ≡ ok (top, t'))
  unfolding rebase marks
  rebase-same [] base top t e q = (t, rw q e, ap (λ x. ok (x, t)) (sym q))
  rebase-same (c ∷ cs) base top t e (t', b, w, q, l) =
      let (u, e', r) = rebase-same cs c top t' (rw q refl) l in
      (u, e', ap (λ x. x >>= rebase git cs (marks cs)) (rebase_one-same base c t t' b e w q) ∙ r)

  -- If a stack is linear below the change, whose first parent is its last commit, each of its
  -- commits and the change can be parsed and is written as it was read, and every commit below the
  -- change shares a dependency with the change or, through others above it, with a commit that
  -- does, then restack returns the change itself.
  pub restack-IsLinear :
      (cs : List Commit) (ds : List (List DownstackDep)) (change : List DownstackDep)
      (base top : Commit) (t : Obj) (ps : Commits) (b : Text) (base_tree : Obj)
      → tree_id base ≡ ok base_tree
      → IsLinear git base cs top
      → git.rewrite b ≡ some b
      → Reads git cs ds
      → downstack_commit_deps git (commit t (cons top ps) b) ≡ ok change
      → AreNeeded change ds
      → restack git cs (commit t (cons top ps) b) base ≡ ok (commit t (cons top ps) b)
  unfolding restack
  restack-IsLinear cs ds change base top t ps b base_tree e l w r d n =
      let (s, found, marked, linked) = select_needed-IsLinked git change cs ds r in
      let (u, top_tree, rebased) = rebase-same cs base top base_tree e l in
      let same = all_marked change cs ds s.0 r n marked in
      rw d (
        rw found (
          rw e (
            rw same (
              rw rebased (
                rw top_tree (
                  rw (merge-same u t)
                    (rw w (ap (λ x. ok (commit t (cons top x) b)) (of_list-to_list ps)))))))))
