-- ===== src/RevWalk.antt =====
-- `RevWalk` of josh-gix-ext/src/revwalk.rs: the walk of everything that is reachable from the
-- tips, with pruning. A commit id is the commit that it names, so a node is its commit.
pub mod Recursive
pub mod Loop
pub mod Visits
pub mod Walked
pub mod Topological
use josh.Base.{
  ℕ, zero, suc, ℕ_discrete, Bool, true, false, Option, none, some, List, [], ◌∷◌, ◌++◌, map, Text,
  is_yes, any, if◌then◌else◌,
}
use josh.Tree.Object.{Obj, Obj-discrete}
use josh.Apply.Run.{Run, ok, failed, out_of_fuel, lift, ◌>>=◌}

-- A commit with its tree, its parents and the rest of its bytes, or an id that is the id of no
-- commit.
mutual
  pub data Commit : Type 0 where
    commit : Obj → Commits → Text → Commit
    missing : ℕ → Commit

  pub data Commits : Type 0 where
    nil : Commits
    cons : Commit → Commits → Commits

unfoldable pub Commit-discrete : Discrete Commit
Commit-discrete = hlevel (Obj-discrete, ℕ_discrete)

abbrev pub to_list : Commits → List Commit
to_list nil = []
to_list (cons c cs) = c ∷ to_list cs

-- `read_parent_oids`: an error unless there is a commit.
abbrev pub read_parent_oids : Commit → Option (List Commit)
read_parent_oids (commit t ps rest) = some (to_list ps)
read_parent_oids (missing i) = none

-- `ensure_commit`
abbrev pub is_commit : Commit → Bool
is_commit (commit t ps rest) = true
is_commit (missing i) = false

-- `push`
abbrev pub push_tip : List Commit → Commit → Run (List Commit)
push_tip tips c = if is_commit c then ok (tips ++ c ∷ []) else failed

abbrev pub push_tips : List Commit → List Commit → Run (List Commit)
push_tips tips [] = ok tips
push_tips tips (c ∷ cs) = do more ← push_tip tips c; push_tips more cs

unfoldable pub mem : Commit → List Commit → Bool
unfolding Commit-discrete
mem c cs = any (λ d. is_yes (Commit-discrete c d)) cs

pub data Frame : Type 0 where
  explore emit : Commit → Frame

-- The state of the loop in `dfs`: the stack from its top, the visited nodes, and what was emitted,
-- the last first.
pub record Walk : Type 0 where
  pub stack : List Frame
  pub visited : List Commit
  pub post : List Commit

-- The parents that are explored, all or the first.
abbrev pub explored : Bool → List Commit → List Commit
explored true [] = []
explored true (c ∷ cs) = c ∷ []
explored false cs = cs

module _ (prune : Commit → Bool) (first_parent : Bool) where
  -- What the loop does with a node that was not visited before.
  unfoldable pub visit : Commit → List Frame → List Commit → List Commit → Run Walk
  visit c rest seen post =
      if prune c then ok (record { stack = rest; visited = c ∷ seen; post = post }) else (do
        parents ← lift (read_parent_oids c)
        ok (record {
          stack = map explore (explored first_parent parents) ++ emit c ∷ rest;
          visited = c ∷ seen;
          post = post;
        }))

  unfoldable pub dfs_step : Frame → List Frame → List Commit → List Commit → Run Walk
  unfolding mem visit
  dfs_step (explore c) rest seen post =
      if mem c seen
      then ok (record { stack = rest; visited = seen; post = post })
      else visit c rest seen post
  dfs_step (emit c) rest seen post = ok (record { stack = rest; visited = seen; post = c ∷ post })

  -- The loop of `dfs`: the visited nodes, for each of which `prune` was asked, and what was emitted.
  unfoldable pub dfs : ℕ → List Frame → List Commit → List Commit → Run (List Commit × List Commit)
  unfolding dfs_step
  dfs zero stack seen post = out_of_fuel
  dfs (suc fuel) [] seen post = ok (seen, post)
  dfs (suc fuel) (frame ∷ rest) seen post = do
    w ← dfs_step frame rest seen post
    dfs fuel w.stack w.visited w.post

  -- `push` for one tip after the other, and the walk.
  unfoldable pub walk_tips : ℕ → List Commit → Run (List Commit × List Commit)
  unfolding dfs
  walk_tips fuel cs = do tips ← push_tips [] cs; dfs fuel (map explore tips) [] []

  -- `into_topo_vec`. What was emitted last comes first.
  unfoldable pub into_topo_vec : ℕ → List Commit → Run (List Commit)
  unfolding walk_tips
  into_topo_vec fuel cs = do s ← walk_tips fuel cs; ok s.1
