-- ===== src/Apply/Partition.antt =====
-- `Select` and `Exclude` of a filter, in the blobs at paths.
use josh.Base.{none, List, ◌≡◌, ap, ◌∙◌, Text, if◌then◌else◌}
use josh.Filter.Op.{Filter, exclude, select}
use josh.Tree.Object.{Obj}
use josh.Tree.Order.{IsBisect}
use josh.Tree.Leaves.{leaf, hit, covers, Distinct}
use josh.Tree.Leaves.Total.{Present}
use josh.Tree.Leaves.Joint.{leaf-subtract, leaf-intersect}
use josh.Apply.Run.{ok, lift}
use josh.Apply.Eval.{Env, apply_op}
use josh.Apply.Meaning.{run, run-eq}

-- If lookup is right, a filter makes of one tree another, and in both trees the names differ and
-- every object is there, then Select and Exclude of the filter have results on the first tree:
-- Select keeps the blobs at the paths where the filtered tree has something, there or as a blob on
-- the way, an empty tree counting as nothing, and Exclude keeps the blobs at the paths where it
-- has nothing, neither there nor as a blob on the way.
pub select-exclude :
    (env : Env) (f : Filter) (t u : Obj)
    → IsBisect env.bisect
    → Distinct t
    → Distinct u
    → Present t
    → Present u
    → run env f t ≡ ok u
    → (s x : Obj) × (run env (select f) t ≡ ok s)
      × (run env (exclude f) t ≡ ok x)
      × ((ns : List Text) → leaf s ns ≡ (if covers u ns then leaf t ns else none))
      × ((ns : List Text) → leaf x ns ≡ (if hit u ns then none else leaf t ns))
unfolding apply_op
select-exclude env f t u h dt du pt pu e =
    let i = leaf-intersect env.bisect t u h dt du pt pu in
    let m = leaf-subtract env.bisect t u h dt du pt pu in
    (
      i.0,
      m.0,
      run-eq env (select f) t ∙ rw e (ap lift i.1),
      run-eq env (exclude f) t ∙ rw e (ap lift m.1),
      i.2,
      m.2,
    )
