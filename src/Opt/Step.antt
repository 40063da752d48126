-- ===== src/Opt/Step.antt =====
-- josh-filter/src/opt/step.rs: one application of a rewriting rule. The rules stand in the
-- children; `none` says that a call ran out of fuel.
mod Leaves
mod Sequence
mod Difference
unfoldable pub use Leaves.{
  is_long, subdirs, prefixes, split_subdir, split_prefix, split_insert, split_file,
}
unfoldable pub use Sequence.{
  dedup, step_many, step_compose, pair_kind, scan_pairs, after_empty, is_dead, step_flat,
  step_chain,
}
pub use Sequence.{Pair, cancels, empties, plain, Scan, collapsed, kept, push, finish}
unfoldable pub use Difference.{
  is_prefix, prefix_of, is_message, select_exclude, chain_chain, post_pair, subtract_unit,
  subtract_post, subtract_shape, contains, as_compose, subtract_parts, step_subtract,
}
use josh.Base.{ℕ, zero, suc, Option, none, some, Bool, true, false, ◌||◌, if◌then◌else◌, ◌>>=◌}
use josh.Filter.Op.{
  Filter, Arms, nop, empty, rev, insert, file, prefix, subdir, starlark, tree_id, compose, chain,
  subtract, exclude, select, pin, no_arms, arm, filter_eq, to_list,
}

unfoldable pub step_arms : (Filter → Option Filter) → Arms → Option Arms
step_arms rec no_arms = some no_arms
step_arms rec (arm m r f rest) = do g ← rec f; gs ← step_arms rec rest; some (arm m r g gs)

-- The rules, with the recursive calls as an argument.
unfoldable pub step_rules : (Filter → Option Filter) → Filter → Option Filter
unfolding split_subdir split_prefix split_insert split_file step_arms step_compose step_chain
    step_subtract filter_eq to_list
step_rules rec (subdir p) = some (split_subdir p)
step_rules rec (prefix p) = some (split_prefix p)
step_rules rec (insert dest content) = some (split_insert dest content)
step_rules rec (file dest source) = some (split_file dest source)
step_rules rec (rev arms) = do stepped ← step_arms rec arms; some (rev stepped)
step_rules rec (compose fs) = step_compose rec (to_list fs)
step_rules rec (chain fs) = step_chain rec (to_list fs)
step_rules rec (exclude b) =
    if filter_eq b nop
    then some empty
    else (if filter_eq b empty then some nop else do some (exclude (← rec b)))
step_rules rec (pin b) = if filter_eq b empty then some nop else do some (pin (← rec b))
step_rules rec (select b) =
    if filter_eq b empty || filter_eq b nop then some b else do some (select (← rec b))
step_rules rec (starlark p sub) = do some (starlark p (← rec sub))
step_rules rec (tree_id p sub) = do some (tree_id p (← rec sub))
step_rules rec (subtract a b) = step_subtract rec a b
step_rules rec f = some f

-- `memo` is the table `OPTIMIZED` at the time of the call: it holds results of `step` and of
-- `optimize`. A call only adds its own results, which it would compute again to the same filters.
unfoldable pub step : (Filter → Option Filter) → ℕ → Filter → Option Filter
unfolding step_rules
step memo zero f = none
step memo (suc n) f = elim (memo f) [ some g ↦ some g | none ↦ step_rules (step memo n) f ]
