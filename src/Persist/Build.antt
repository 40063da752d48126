-- ===== src/Persist/Build.antt =====
-- `build_persist` of josh-filter/src/persist.rs: children first, and only what may differ from
-- `Filter::id` is built. The map of the ids found so far only holds results of this function.
use josh.Base.{Bool, true, false, not, ◌||◌, Option, some, ◌>>=◌, if◌then◌else◌}
use josh.Filter.Op.{
  Filter, Filters, Arms, RefMap, oid, meta, squash_some, rev, insert, starlark, tree_id, unapply,
  compose, chain, subtract, exclude, select, pin, nil, cons, no_arms, arm, no_refs, ref,
}
use josh.Tree.Object.{Obj, obj_eq}
use josh.Persist.RefText.{Codec}
use josh.Persist.Write.{build_op}

-- Whether the persisted id of a child is not its id.
abbrev pub differs : Option Obj → Option Obj → Option Bool
differs persisted id = do o ← persisted; i ← id; some (not (obj_eq o i))

abbrev pub dirty_or : Option Bool → Option Bool → Option Bool
dirty_or d e = do x ← d; y ← e; some (x || y)

-- `exists` is that of the repository that is written to.
module _ (c : Codec) (exists : Obj → Bool) where
  -- What is done with a filter when its children are.
  abbrev pub settle : Option Bool → Filter → Option Obj
  settle d f = do
    dirty ← d
    elim dirty [
      | true ↦ build_op c true f
      | false ↦ do
        i ← build_op c false f
        built ← if exists i then some i else build_op c true f
        some i
    ]

  abbrev pub dirty : Filter → Option Obj → Option Bool
  dirty f persisted = differs persisted (build_op c false f)

  unfoldable mutual
    unfolding build_op

    pub build_persist : Filter → Option Obj
    build_persist (insert p (oid i)) = settle (some true) (insert p (oid i))
    build_persist (meta m f) = settle (dirty f (build_persist f)) (meta m f)
    build_persist (exclude f) = settle (dirty f (build_persist f)) (exclude f)
    build_persist (select f) = settle (dirty f (build_persist f)) (select f)
    build_persist (pin f) = settle (dirty f (build_persist f)) (pin f)
    build_persist (starlark p f) = settle (dirty f (build_persist f)) (starlark p f)
    build_persist (tree_id p f) = settle (dirty f (build_persist f)) (tree_id p f)
    build_persist (unapply r f) = settle (dirty f (build_persist f)) (unapply r f)
    build_persist (subtract f g) =
        settle (dirty_or (dirty f (build_persist f)) (dirty g (build_persist g))) (subtract f g)
    build_persist (compose fs) = settle (any_dirty fs) (compose fs)
    build_persist (chain fs) = settle (any_dirty fs) (chain fs)
    build_persist (rev arms) = settle (any_dirty_arm arms) (rev arms)
    build_persist (squash_some refs) = settle (any_dirty_ref refs) (squash_some refs)
    build_persist f = settle (some false) f

    pub any_dirty : Filters → Option Bool
    any_dirty nil = some false
    any_dirty (cons f fs) = dirty_or (dirty f (build_persist f)) (any_dirty fs)

    pub any_dirty_arm : Arms → Option Bool
    any_dirty_arm no_arms = some false
    any_dirty_arm (arm m r f arms) = dirty_or (dirty f (build_persist f)) (any_dirty_arm arms)

    pub any_dirty_ref : RefMap → Option Bool
    any_dirty_ref no_refs = some false
    any_dirty_ref (ref r f refs) = dirty_or (dirty f (build_persist f)) (any_dirty_ref refs)
