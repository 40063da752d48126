-- ===== src/Examples/RevWalk.antt =====
-- The walk on a diamond of commits.
use mathlib.Core.List.{Memᴰ}
use josh.Base.{ℕ_discrete, Bool, true, false, List, [], ◌∷◌, ◌≡◌, ◌↔◌, refl, is_yes, arith}
use josh.Tree.Object.{Obj-discrete, empty_id}
use josh.Apply.Run.{ok}
use josh.RevWalk.{Commit, Commit-discrete, commit, nil, cons, into_topo_vec}
use josh.RevWalk.Recursive.{weight_tips}
use josh.RevWalk.Visits.{IsTopological}
use josh.RevWalk.Topological.{IsReached, into_topo_vec-IsTopological}

abbrev root : Commit
root = commit empty_id nil (0 ∷ [])

abbrev left : Commit
left = commit empty_id (cons root nil) (1 ∷ [])

abbrev right : Commit
right = commit empty_id (cons root nil) (2 ∷ [])

abbrev top : Commit
top = commit empty_id (cons left (cons right nil)) (3 ∷ [])

abbrev keep_all : Commit → Bool
keep_all c = false

abbrev is_left : Commit → Bool
is_left c = is_yes (Commit-discrete c left)

diamond_walked : into_topo_vec keep_all false 20 (top ∷ []) ≡ ok (top ∷ right ∷ left ∷ root ∷ [])
unfolding into_topo_vec Commit-discrete Obj-discrete ℕ_discrete
diamond_walked = refl

-- The root is reached by the other side.
diamond_pruned : into_topo_vec is_left false 20 (top ∷ []) ≡ ok (top ∷ right ∷ root ∷ [])
unfolding into_topo_vec Commit-discrete Obj-discrete ℕ_discrete
diamond_pruned = refl

-- The walk of first parents stops at the pruned commit.
spine_pruned : into_topo_vec is_left true 20 (top ∷ []) ≡ ok (top ∷ [])
unfolding into_topo_vec Commit-discrete Obj-discrete ℕ_discrete
spine_pruned = refl

into_topo_vec-IsTopological_example :
    (r : List Commit) × (into_topo_vec is_left false 20 (top ∷ []) ≡ ok r)
    × IsTopological is_left false r
    × ((c : Commit) → Memᴰ c r ↔ IsReached is_left false (top ∷ []) c)
unfolding weight_tips
into_topo_vec-IsTopological_example =
    into_topo_vec-IsTopological is_left false 20 (top ∷ []) (((tt, tt), ((tt, tt), tt)), tt)
      (omega arith)
