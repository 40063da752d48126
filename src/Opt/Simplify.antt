-- ===== src/Opt/Simplify.antt =====
-- josh-filter/src/opt/simplify.rs: an equivalent filter with fewer nodes.
pub mod Size
pub mod Total
use josh.Base.{ℕ, zero, suc, Option, none, some, List, [], ◌∷◌, ◌++◌, traverse, ◌>>=◌}
use josh.FilePath.{join}
use josh.Filter.Op.{
  Filter, prefix, subdir, starlark, tree_id, compose, chain, subtract, exclude, select, pin,
  Filter-discrete, to_list, of_list,
}

-- The elements of a `Compose` among the filters take its place.
unfoldable pub splice_composes : List Filter → List Filter
unfolding to_list
splice_composes [] = []
splice_composes (compose gs ∷ fs) = to_list gs ++ splice_composes fs
splice_composes (f ∷ fs) = f ∷ splice_composes fs

unfoldable pub splice_chains : List Filter → List Filter
unfolding to_list
splice_chains [] = []
splice_chains (chain gs ∷ fs) = to_list gs ++ splice_chains fs
splice_chains (f ∷ fs) = f ∷ splice_chains fs

-- Two neighbours that are both `Prefix` or both `Subdir` become one.
unfoldable pub join_paths : List Filter → List Filter
unfolding join
join_paths [] = []
join_paths (prefix x ∷ prefix y ∷ fs) = prefix (join y x) ∷ join_paths fs
join_paths (subdir x ∷ subdir y ∷ fs) = subdir (join x y) ∷ join_paths fs
join_paths (f ∷ fs) = f ∷ join_paths fs

-- A chain of one filter is that filter.
unfoldable pub unwrap_chain : List Filter → Filter
unfolding of_list
unwrap_chain (f ∷ []) = f
unwrap_chain fs = chain (of_list fs)

-- One pass, with the recursive calls as an argument. `none` says that a call ran out of fuel.
unfoldable pub simplify_pass : (Filter → Option Filter) → Filter → Option Filter
unfolding splice_composes splice_chains join_paths unwrap_chain to_list of_list
simplify_pass rec (compose fs) = do
  gs ← traverse rec (splice_composes (to_list fs))
  some (compose (of_list gs))
simplify_pass rec (chain fs) = do
  gs ← traverse rec (splice_chains (to_list fs))
  some (unwrap_chain (join_paths gs))
simplify_pass rec (subtract a b) = do some (subtract (← rec a) (← rec b))
simplify_pass rec (exclude b) = do some (exclude (← rec b))
simplify_pass rec (select b) = do some (select (← rec b))
simplify_pass rec (pin b) = do some (pin (← rec b))
simplify_pass rec (starlark p sub) = do some (starlark p (← rec sub))
simplify_pass rec (tree_id p sub) = do some (tree_id p (← rec sub))
simplify_pass rec f = some f

-- Passes are made until one changes nothing. The memo table only holds results of this function.
unfoldable pub simplify : ℕ → Filter → Option Filter
unfolding simplify_pass
simplify zero f = none
simplify (suc n) f = do
  r ← simplify_pass (simplify n) f
  elim (Filter-discrete r f) [ yes _ ↦ some r | no _ ↦ simplify n r ]
