-- ===== src/Tree/Leaves/Joint.antt =====
-- `subtract`, `intersect` and `overlay` of josh-core/src/filter/tree.rs as operations on the blobs at
-- paths.
use josh.Base.{none, some, List, ◌≡◌, Text, if◌then◌else◌}
use josh.Tree.Object.{Obj}
use josh.Tree.Order.{Bisect, IsBisect}
use josh.Tree.Subtract.{subtract}
use josh.Tree.Intersect.{intersect}
use josh.Tree.Overlay.{overlay}
use josh.Tree.Leaves.{leaf, hit, covers, Distinct}
use josh.Tree.Leaves.Minus.{subtract-leaves}
use josh.Tree.Leaves.Common.{intersect-leaves}
use josh.Tree.Leaves.Over.{overlay-leaves}
use josh.Tree.Leaves.Total.{Present, Has-value, subtract-Has, intersect-Has, overlay-Has}

-- If lookup is right, the names in each tree differ and every object is there, then subtract has a
-- result, whose blobs by path are those of the first tree at the paths where the second has
-- nothing, neither there nor as a blob on the way.
pub leaf-subtract :
    (bisect : Bisect) (a b : Obj)
    → IsBisect bisect
    → Distinct a
    → Distinct b
    → Present a
    → Present b
    → (r : Obj) × (subtract bisect a b ≡ some r)
      × ((ns : List Text) → leaf r ns ≡ (if hit b ns then none else leaf a ns))
leaf-subtract bisect a b h da db pa pb =
    let w = Has-value (subtract bisect a b) (subtract-Has bisect h a b da pa pb) in
    (w.0, w.1, λ ns. subtract-leaves bisect h a b w.0 da db w.1 ns)

-- If lookup is right, the names in each tree differ and every object is there, then intersect has
-- a result, whose blobs by path are those of the first tree at the paths where the second has
-- something, there or as a blob on the way, an empty tree counting as nothing.
pub leaf-intersect :
    (bisect : Bisect) (a b : Obj)
    → IsBisect bisect
    → Distinct a
    → Distinct b
    → Present a
    → Present b
    → (r : Obj) × (intersect bisect a b ≡ some r)
      × ((ns : List Text) → leaf r ns ≡ (if covers b ns then leaf a ns else none))
leaf-intersect bisect a b h da db pa pb =
    let w = Has-value (intersect bisect a b) (intersect-Has bisect h a b da pa pb) in
    (w.0, w.1, λ ns. intersect-leaves bisect h a b w.0 da db w.1 ns)

-- If lookup is right, the names in each tree differ and every object is there, then overlay has a
-- result, whose blobs by path are those of the first tree, and those of the second at the paths
-- where the first has nothing, an empty tree counting as nothing.
pub leaf-overlay :
    (bisect : Bisect) (a b : Obj)
    → IsBisect bisect
    → Distinct a
    → Distinct b
    → Present a
    → Present b
    → (r : Obj) × (overlay bisect a b ≡ some r)
      × ((ns : List Text) → leaf r ns ≡ (if covers a ns then leaf a ns else leaf b ns))
leaf-overlay bisect a b h da db pa pb =
    let w = Has-value (overlay bisect a b) (overlay-Has bisect h a b da pa pb) in
    (w.0, w.1, λ ns. overlay-leaves bisect h a b w.0 da db w.1 ns)
