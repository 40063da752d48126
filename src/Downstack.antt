-- ===== src/Downstack.antt =====
-- `downstack` of josh-core/src/filter/mod.rs: a change is put on the commits below it that it
-- depends on.
pub mod Needed
pub mod Unchanged
use Prim.Native.Nat.{max}
use josh.Base.{
  ℕ, Bool, true, false, not, ◌||◌, Option, none, some, List, [], ◌∷◌, ◌++◌, map, reverse, Text,
  Text-discrete, is_yes, any, if◌then◌else◌,
}
use josh.Tree.Object.{Obj, Obj-discrete, obj_eq, zero_id}
use josh.Tree.Order.{Bisect}
use josh.Tree.Diff.{diff_paths}
use josh.Tree.Diff.Changes.{depth}
use josh.Persist.Utf8.{from_utf8}
use josh.Trailers.{parse_change_meta}
use josh.RevWalk.{
  Commit, Commits, Commit-discrete, commit, missing, nil, cons, to_list, is_commit, mem, walk_tips,
}
use josh.Apply.Run.{Run, ok, failed, lift, ◌>>=◌}

-- The gix library: lookup in a tree, the message in the bytes of a commit, these bytes as they are
-- read and written again, the best common ancestors of two commits, and the merge of trees by a
-- common ancestor.
pub record Git : Type 0 where
  pub bisect : Bisect
  pub message : Text → Option Text
  pub rewrite : Text → Option Text
  pub merge_bases : Commit → Commit → Option (List Commit)
  pub merge_trees : Obj → Obj → Obj → Option Obj

pub data DownstackDep : Type 0 where
  path series : Text → DownstackDep

unfoldable pub DownstackDep-discrete : Discrete DownstackDep
DownstackDep-discrete = hlevel Text-discrete

abbrev pub tree_id : Commit → Run Obj
tree_id (commit t ps b) = ok t
tree_id (missing i) = failed

-- `first_parent_id().ok_or_else(…)`
abbrev pub first_parent : Commit → Run Commit
first_parent (commit t (cons p ps) b) = ok p
first_parent _ = failed

-- The tree to compare with: that of the first parent, or none.
abbrev pub parent_tree_id : Commits → Run Obj
parent_tree_id nil = ok zero_id
parent_tree_id (cons p ps) = tree_id p

-- An unreadable message and one that is not UTF-8 read as empty.
abbrev pub text_or_empty : Option Text → Text
text_or_empty none = []
text_or_empty (some s) = elim (from_utf8 s) [ none ↦ [] | some t ↦ t ]

unfoldable pub is_disjoint : List DownstackDep → List DownstackDep → Bool
unfolding DownstackDep-discrete
is_disjoint deps affected =
    not (any (λ d. any (λ e. is_yes (DownstackDep-discrete d e)) affected) deps)

abbrev pub of_list : List Commit → Commits
of_list [] = nil
of_list (c ∷ cs) = cons c (of_list cs)

abbrev pub later_parents : Commit → List Commit
later_parents (commit t (cons p ps) b) = to_list ps
later_parents _ = []

-- What one round of the loop over the intermediates does, which goes from the last to the first.
abbrev pub select_one :
    List DownstackDep → List Bool × List DownstackDep → List Bool × List DownstackDep
select_one deps (needed, affected) =
    if is_disjoint deps affected
    then (false ∷ needed, affected)
    else (true ∷ needed, affected ++ deps)

module _ (git : Git) where
  -- `rewrite_commit` with another tree and other parents, and nothing else: the commit is parsed
  -- and written again.
  abbrev pub rewrite_commit : Commit → List Commit → Obj → Run Commit
  rewrite_commit (missing i) parents t' = failed
  rewrite_commit (commit t ps b) parents t' = do
    b' ← lift (git.rewrite b)
    ok (commit t' (of_list parents) b')

  unfoldable pub downstack_commit_deps : Commit → Run (List DownstackDep)
  unfolding diff_paths depth from_utf8 parse_change_meta
  downstack_commit_deps (missing i) = failed
  downstack_commit_deps (commit t ps b) = do
    parent ← parent_tree_id ps
    r ← diff_paths git.bisect (max (depth parent) (depth t)) parent t []
    ok (map (λ c. path c.0) r ++ map series (parse_change_meta (text_or_empty (git.message b))).1)

  unfoldable pub cached_merge_trees : Obj → Obj → Obj → Run Obj
  cached_merge_trees a b c =
      if obj_eq a b then ok c else if obj_eq a c then ok b else lift (git.merge_trees a b c)

  unfoldable pub select_needed :
      List DownstackDep → List Commit → Run (List Bool × List DownstackDep)
  unfolding is_disjoint
  select_needed affected [] = ok ([], affected)
  select_needed affected (c ∷ cs) = do
    s ← select_needed affected cs
    deps ← downstack_commit_deps c
    ok (select_one deps s)

  -- The current base, and its tree.
  abbrev pub rebase_one : Commit → Commit × Obj → Run (Commit × Obj)
  rebase_one c (base, base_tree) = do
    parent ← first_parent c
    parent_tree ← tree_id parent
    t ← tree_id c
    merged ← cached_merge_trees parent_tree base_tree t
    new ← rewrite_commit c (base ∷ []) merged
    ok (new, merged)

  unfoldable pub rebase : List Commit → List Bool → Commit × Obj → Run (Commit × Obj)
  unfolding cached_merge_trees
  rebase (c ∷ cs) (true ∷ ns) base = do next ← rebase_one c base; rebase cs ns next
  rebase (c ∷ cs) (false ∷ ns) base = rebase cs ns base
  rebase _ _ base = ok base

  -- The commits below the change, from the oldest on, are known.
  unfoldable pub restack : List Commit → Commit → Commit → Run Commit
  unfolding select_needed rebase
  restack intermediates change base = do
    affected ← downstack_commit_deps change
    selected ← select_needed affected intermediates
    base_tree ← tree_id base
    current ← rebase intermediates selected.0 (base, base_tree)
    parent ← first_parent change
    parent_tree ← tree_id parent
    t ← tree_id change
    merged ← cached_merge_trees parent_tree current.1 t
    rewrite_commit change (current.0 ∷ later_parents change) merged

  -- `is_descendant_of` of josh-gix-ext/src/graph.rs
  unfoldable pub is_descendant_of : Commit → Commit → Run Bool
  unfolding Commit-discrete
  is_descendant_of c ancestor =
      if is_yes (Commit-discrete c ancestor)
      then ok false
      else if is_commit c
      then (if is_commit ancestor
          then (do bases ← lift (git.merge_bases c ancestor); ok (mem ancestor bases))
          else failed)
      else failed

  -- The last commit of the walk is the change, which is split off.
  abbrev pub restack_walked : Commit → Commit → List Commit → Run Commit
  restack_walked change base [] = ok change
  restack_walked change base (c ∷ cs) = restack (reverse cs) c base

  unfoldable pub downstack : ℕ → Commit → Commit → Run Commit
  unfolding restack is_descendant_of walk_tips
  downstack fuel change base = do
    below ← is_descendant_of change base
    s ←
        if below
        then walk_tips (λ c. is_yes (Commit-discrete c base)) true fuel (change ∷ [])
        else failed
    if mem base s.0 then restack_walked change base s.1 else failed
