-- ===== src/Opt/Paths.antt =====
-- josh-filter/src/opt/paths.rs: the path that a filter reads and the path that it writes.
use josh.Base.{[], ◌∷◌}
use josh.FilePath.{FilePath, root_dir, cur_dir, parent_dir, normal, join, pop}
use josh.Filter.Op.{Filter, Filters, meta, subdir, prefix, file, chain, nil, cons}

-- The loop of `normalize_path`, over the components not yet read.
unfoldable pub normalize_onto : FilePath → FilePath → FilePath
unfolding join pop
normalize_onto ret [] = ret
normalize_onto ret (root_dir ∷ cs) = normalize_onto (join ret (root_dir ∷ [])) cs
normalize_onto ret (cur_dir ∷ cs) = normalize_onto ret cs
normalize_onto ret (parent_dir ∷ cs) = normalize_onto (pop ret) cs
normalize_onto ret (normal s ∷ cs) = normalize_onto (join ret (normal s ∷ [])) cs

unfoldable pub normalize_path : FilePath → FilePath
unfolding normalize_onto
normalize_path p = normalize_onto [] p

-- A `Meta` wrapper is peeled off first.
unfoldable mutual
  unfolding normalize_path join

  pub src_path : Filter → FilePath
  src_path (meta m f) = src_path f
  src_path (subdir p) = normalize_path p
  src_path (file dest source) = normalize_path source
  src_path (chain fs) = normalize_path (src_fold [] fs)
  src_path _ = normalize_path []

  pub src_fold : FilePath → Filters → FilePath
  src_fold acc nil = acc
  src_fold acc (cons f fs) = src_fold (join acc (src_path f)) fs

-- The fold of `dst_path` runs from the last filter to the first.
unfoldable mutual
  unfolding normalize_path join

  pub dst_path : Filter → FilePath
  dst_path (meta m f) = dst_path f
  dst_path (prefix p) = normalize_path p
  dst_path (file dest source) = normalize_path dest
  dst_path (chain fs) = normalize_path (dst_fold fs)
  dst_path _ = normalize_path []

  pub dst_fold : Filters → FilePath
  dst_fold nil = []
  dst_fold (cons f fs) = join (dst_fold fs) (dst_path f)
