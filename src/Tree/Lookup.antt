-- ===== src/Tree/Lookup.antt =====
-- `tree::get_path_entry`: the entry at a path.
use josh.Base.{Option, none, some, List, [], ◌∷◌, Text, ◌>>=◌, if◌then◌else◌}
use josh.FilePath.{FilePath, root_dir, cur_dir, parent_dir, normal}
use josh.Tree.Object.{Mode, Obj, Entries, is_tree, find, read_tree}

-- `path_components` without its last test: `none` for a path that is absolute or has a `..`.
unfoldable pub component_names : FilePath → Option (List Text)
component_names [] = some []
component_names (normal s ∷ p) = do rest ← component_names p; some (s ∷ rest)
component_names (cur_dir ∷ p) = component_names p
component_names (root_dir ∷ p) = none
component_names (parent_dir ∷ p) = none

-- An empty path has no components either.
unfoldable pub path_components : FilePath → Option (List Text)
unfolding component_names
path_components p = do names ← component_names p; elim names [ [] ↦ none | n ∷ ns ↦ some (n ∷ ns) ]

-- What a lookup finds: nothing, or an entry; `none` is the error of reading an absent object.
abbrev pub Found : Type 0
Found = Option (Option (Mode × Obj))

-- The entry of a name among entries that have been read.
abbrev pub look : Option (Option Entries) → Text → Found
look none n = none
look (some none) n = some none
look (some (some es)) n = some (find es n)

abbrev pub found_then : Found → (Mode × Obj → Found) → Found
found_then (some (some e)) f = f e
found_then (some none) f = some none
found_then none f = none

-- The descent along the names that are left, from an entry.
unfoldable pub descend : Mode × Obj → List Text → Found
unfolding read_tree find
descend e [] = some (some e)
descend e (n ∷ ns) =
    if is_tree e.0 then found_then (look (read_tree e.1) n) (λ e'. descend e' ns) else some none

-- The root is read before the path is looked at.
abbrev pub descend_from : Option (Option Entries) → Option (List Text) → Found
descend_from root (some (n ∷ ns)) = found_then (look root n) (λ e. descend e ns)
descend_from none _ = none
descend_from (some _) _ = some none

unfoldable pub get_path_entry : Obj → FilePath → Found
unfolding path_components descend read_tree find
get_path_entry root p = descend_from (read_tree root) (path_components p)
