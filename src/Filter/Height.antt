-- ===== src/Filter/Height.antt =====
-- How deep the operations of a filter are nested.
use Prim.Native.Nat.{max}
use josh.Base.{ℕ, suc, ◌<◌, arith}
use josh.Filter.Op.{
  Filter, Filters, nop, meta, starlark, tree_id, compose, chain, subtract, exclude, select, pin,
  nil, cons,
}

unfoldable mutual
  pub height : Filter → ℕ
  height (meta m f) = suc (height f)
  height (starlark p f) = suc (height f)
  height (tree_id p f) = suc (height f)
  height (compose fs) = suc (height_all fs)
  height (chain fs) = suc (height_all fs)
  height (subtract a b) = suc (max (height a) (height b))
  height (exclude f) = suc (height f)
  height (select f) = suc (height f)
  height (pin f) = suc (height f)
  height _ = 1

  pub height_all : Filters → ℕ
  height_all nil = 0
  height_all (cons f fs) = max (height f) (height_all fs)

pub height_pos : (f : Filter) → 0 < height f
unfolding height
height_pos nop = omega arith
height_pos _ = omega arith
