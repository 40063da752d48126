-- ===== src/Opt/Step/Leaves.antt =====
-- The rules of `step` that split paths into single components.
use josh.Base.{Option, some, Bool, true, false, List, [], ◌∷◌, ◌++◌, ◌||◌, Text, if◌then◌else◌}
use josh.FilePath.{FilePath, normal, parent, file_name}
use josh.Filter.Op.{
  Filter, InsertContent, nop, insert, file, prefix, subdir, chain, nil, cons, of_list,
}

-- `path.components().count() > 1`
unfoldable pub is_long : FilePath → Bool
is_long (c ∷ d ∷ p) = true
is_long _ = false

unfoldable pub subdirs : FilePath → List Filter
subdirs [] = []
subdirs (c ∷ p) = subdir (c ∷ []) ∷ subdirs p

-- The last component comes first.
unfoldable pub prefixes : FilePath → List Filter
prefixes [] = []
prefixes (c ∷ p) = prefixes p ++ prefix (c ∷ []) ∷ []

unfoldable pub split_subdir : FilePath → Filter
unfolding subdirs of_list
split_subdir [] = nop
split_subdir (c ∷ []) = subdir (c ∷ [])
split_subdir (c ∷ d ∷ p) = chain (of_list (subdirs (c ∷ d ∷ p)))

unfoldable pub split_prefix : FilePath → Filter
unfolding prefixes of_list
split_prefix [] = nop
split_prefix (c ∷ []) = prefix (c ∷ [])
split_prefix (c ∷ d ∷ p) = chain (of_list (prefixes (c ∷ d ∷ p)))

abbrev insert_parts : FilePath → InsertContent → Option FilePath → Option Text → Filter
insert_parts dest content (some dir) (some name) =
    chain (cons (insert (normal name ∷ []) content) (cons (prefix dir) nil))
insert_parts dest content _ _ = insert dest content

unfoldable pub split_insert : FilePath → InsertContent → Filter
unfolding is_long parent file_name
split_insert dest content =
    if is_long dest
    then insert_parts dest content (parent dest) (file_name dest)
    else insert dest content

abbrev file_parts :
    FilePath → FilePath → Option FilePath → Option Text → Option FilePath → Option Text → Filter
file_parts dest source (some src_dir) (some src_name) (some dst_dir) (some dst_name) = chain (
    cons (subdir src_dir)
      (cons (file (normal dst_name ∷ []) (normal src_name ∷ [])) (cons (prefix dst_dir) nil)))
file_parts dest source _ _ _ _ = file dest source

unfoldable pub split_file : FilePath → FilePath → Filter
unfolding is_long parent file_name
split_file dest source =
    if is_long source || is_long dest
    then file_parts dest source (parent source) (file_name source) (parent dest) (file_name dest)
    else file dest source
