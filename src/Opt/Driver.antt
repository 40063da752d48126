-- ===== src/Opt/Driver.antt =====
-- josh-filter/src/opt/mod.rs: the loops that apply the rules until nothing changes.
use josh.Base.{ℕ, zero, suc, Bool, Option, none, some, ◌>>=◌}
use josh.Filter.Op.{Filter, Filter-discrete}
use josh.Opt.Simplify.{simplify}
use josh.Opt.Flatten.{flatten}
use josh.Opt.Step.{step}

-- The loop of `iterate`, on the rounds left: the filter as it is when they are used up.
unfoldable pub iterate_rounds : (Filter → Option Filter) → ℕ → Filter → Option Filter
iterate_rounds stepped zero f = some f
iterate_rounds stepped (suc rounds) f = do
  g ← stepped f
  elim (Filter-discrete f g) [ yes _ ↦ some f | no _ ↦ iterate_rounds stepped rounds g ]

module _ (memo : Filter → Option Filter) (fuel : ℕ) where
  unfoldable pub iterate : Filter → Option Filter
  unfolding iterate_rounds step
  iterate f = iterate_rounds (step memo fuel) 1000 f

  -- The loop of `optimize_impl`, on fuel.
  unfoldable pub optimize_loop : ℕ → Filter → Option Filter
  unfolding iterate simplify
  optimize_loop zero f = none
  optimize_loop (suc n) f = do
    pretty ← simplify fuel f
    optimized ← iterate f
    g ← simplify fuel optimized
    elim (Filter-discrete g pretty) [ yes _ ↦ iterate g | no _ ↦ optimize_loop n g ]

  -- `full` chooses between `optimize` and `minimize`; a hit in the memo table of the one that is
  -- called (`OPTIMIZED` or `MINIMIZED`) is taken as it is.
  unfoldable pub optimize_impl : (Filter → Option Filter) → Bool → Filter → Option Filter
  unfolding optimize_loop flatten
  optimize_impl results full f = elim (results f) [
    | some g ↦ some g
    | none ↦ do flat ← flatten full fuel f; optimize_loop fuel flat
  ]
