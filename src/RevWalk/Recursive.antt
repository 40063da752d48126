-- ===== src/RevWalk/Recursive.antt =====
-- The walk as a recursion over the commits.
use josh.Base.{
  ℕ, suc, ◌+◌, Bool, true, false, List, [], ◌∷◌, ◌≡◌, ◌∙◌, Text, if◌then◌else◌, if-true, if-false,
}
use josh.Tree.Object.{Obj}
use josh.RevWalk.{Commit, Commits, commit, missing, nil, cons, mem}

-- Every commit is there.
abbrev mutual
  pub IsPresent : Commit → Type 0
  IsPresent (commit t ps rest) = ArePresent ps
  IsPresent (missing i) = ⊥

  pub ArePresent : Commits → Type 0
  ArePresent nil = Unit
  ArePresent (cons c cs) = IsPresent c × ArePresent cs

-- The visited nodes and what was emitted, the last first.
abbrev pub Seen : Type 0
Seen = List Commit × List Commit

abbrev pub emitted : Commit → Seen → Seen
emitted c (seen, post) = (seen, c ∷ post)

-- How many steps a commit takes at most.
unfoldable mutual
  pub weight : Commit → ℕ
  weight (commit t ps rest) = suc (suc (weight_all ps))
  weight (missing i) = 1

  pub weight_all : Commits → ℕ
  weight_all nil = 0
  weight_all (cons c cs) = weight c + weight_all cs

module _ (prune : Commit → Bool) (first_parent : Bool) where
  -- The recursive walk.
  unfoldable mutual
    unfolding mem

    pub walk : Commit → Seen → Seen
    walk (missing i) s = s
    walk (commit t ps rest) (seen, post) =
        let c = commit t ps rest in
        let below = walk_parents first_parent ps (c ∷ seen, post) in
        if mem c seen then (seen, post) else if prune c then (c ∷ seen, post) else emitted c below

    pub walk_parents : Bool → Commits → Seen → Seen
    walk_parents first nil s = s
    walk_parents true (cons c cs) s = walk c s
    walk_parents false (cons c cs) s = walk_parents false cs (walk c s)

  pub walk-visited :
      (t : Obj) (ps : Commits) (b : Text) (seen post : List Commit)
      → mem (commit t ps b) seen ≡ true
      → walk (commit t ps b) (seen, post) ≡ (seen, post)
  unfolding walk
  walk-visited t ps b seen post h = if-true (mem (commit t ps b) seen) _ _ h

  pub walk-pruned :
      (t : Obj) (ps : Commits) (b : Text) (seen post : List Commit)
      → mem (commit t ps b) seen ≡ false
      → prune (commit t ps b) ≡ true
      → walk (commit t ps b) (seen, post) ≡ (commit t ps b ∷ seen, post)
  unfolding walk
  walk-pruned t ps b seen post h k =
      if-false (mem (commit t ps b) seen) _ _ h ∙ if-true (prune (commit t ps b)) _ _ k

  pub walk-open :
      (t : Obj) (ps : Commits) (b : Text) (seen post : List Commit)
      → mem (commit t ps b) seen ≡ false
      → prune (commit t ps b) ≡ false
      → walk (commit t ps b) (seen, post)
        ≡ emitted (commit t ps b) (walk_parents first_parent ps (commit t ps b ∷ seen, post))
  unfolding walk
  walk-open t ps b seen post h k =
      if-false (mem (commit t ps b) seen) _ _ h ∙ if-false (prune (commit t ps b)) _ _ k

-- One tip after the other.
unfoldable pub walk_all : (Commit → Bool) → Bool → List Commit → Seen → Seen
unfolding walk
walk_all prune first_parent [] s = s
walk_all prune first_parent (c ∷ cs) s =
    walk_all prune first_parent cs (walk prune first_parent c s)

abbrev pub AllPresent : List Commit → Type 0
AllPresent [] = Unit
AllPresent (c ∷ cs) = IsPresent c × AllPresent cs

unfoldable pub weight_tips : List Commit → ℕ
unfolding weight
weight_tips [] = 0
weight_tips (c ∷ cs) = weight c + weight_tips cs
