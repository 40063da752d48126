-- ===== src/Pattern/Filtered.antt =====
-- The Pattern filter in the abstract view, whichever walk it takes.
use josh.Base.{some, none, List, [], Text, ◌≡◌, ◌∙◌, if◌then◌else◌}
use josh.Tree.Object.{Obj}
use josh.Tree.Leaves.{leaf, Distinct}
use josh.Pattern.Compile.{Glob, CompiledPattern, compile}
use josh.Pattern.Walk.{apply_pattern}
use josh.Pattern.Equivalence.{IsTree, full_path}
use josh.Pattern.Arm.{Factorizes, apply_pattern-remove_pred}
use josh.Pattern.Leaves.{IsKinded, leaf-remove_pred}

-- If the glob library matches a whole path as the components of the pattern match its names one by
-- one, then on a tree of different names in UTF-8 that are not empty and without a slash, whose
-- modes fit its objects, the Pattern filter has a result, whose blobs by path are those of the
-- tree at the full paths that the pattern matches.
pub leaf-apply_pattern :
    (g : Glob) (pattern : Text) (cp : CompiledPattern) (o : Obj)
    → compile g pattern ≡ some cp
    → Factorizes g cp
    → IsTree o
    → IsKinded o
    → Distinct o
    → (r : Obj) × (apply_pattern g cp o ≡ some r)
      × ((ns : List Text)
          → leaf r ns ≡ (if g.full_matches cp.full (full_path [] ns) then leaf o ns else none))
leaf-apply_pattern g pattern cp o e f t h d =
    let (r, e', leaves) = leaf-remove_pred (g.full_matches cp.full) o h d in
    (r, apply_pattern-remove_pred g pattern cp o e f t ∙ e', leaves)
