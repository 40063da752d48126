-- ===== src/Persist/RoundTrip.antt =====
-- A filter is read back from the tree that it is written as.
mod Lists
mod Texts
mod Keys
mod Nested
mod Meta
mod Step
use josh.Base.{ℕ, zero, suc, ◌≤◌, ◌<◌, Bool, true, Option, none, some, Text, ◌≡◌, refl, arith}
use josh.Filter.Op.{Filter, nop}
use josh.Tree.Object.{Obj, Entries, blob, tree, absent}
use josh.Apply.Run.{Run, ok, lift}
use josh.Persist.RefText.{Codec, IsCodec}
use josh.Persist.Entries.{read_persisted}
use josh.Persist.Write.{build_op}
use josh.Persist.Read.{from_tree, read_op, subfilter}
use josh.Persist.Storable.{IsStorable, levels}
use josh.Persist.RoundTrip.Step.{IsGood, read_op-build_op}

levels_pos : (f : Filter) → 0 < levels f
unfolding levels
levels_pos nop = omega arith
levels_pos _ = omega arith

-- What is read is the tree of the child.
subfilter-from_tree :
    (c : Codec) (fuel : ℕ) (o : Obj) (f : Filter)
    → from_tree c fuel o ≡ ok f
    → subfilter c (from_tree c fuel) o ≡ ok f
unfolding subfilter from_tree
subfilter-from_tree c zero o f h = cc
subfilter-from_tree c (suc fuel) (tree es) f h = h
subfilter-from_tree c (suc fuel) (blob s) f h = cc
subfilter-from_tree c (suc fuel) (absent i) f h = cc

module _ (c : Codec) (laws : IsCodec c) where
  every_level : (fuel : ℕ) → IsGood c laws (from_tree c fuel) fuel
  unfolding from_tree
  every_level zero f o h e le = absurd (omega (arith, levels_pos f))
  every_level (suc fuel) f o h e le =
      subfilter-from_tree c (suc fuel) o f
        (read_op-build_op c laws (from_tree c fuel) fuel (every_level fuel) f o h e le)

  -- Let the codec have the documented behaviour, and let a filter be storable: its texts are
  -- UTF-8, its paths have a root or a dot at most in front, names of refs are printed as they are,
  -- globs and regular expressions compile, the maps are sorted, no metadata key is 0, no Chain is
  -- empty, a default arm of Rev has the zero id, Compose, RegexReplace and Squash have at most ten
  -- elements, and there is no Starlark and no TreeId. Then the tree that build_op makes of the
  -- filter with an object source, if it makes one, is read as the filter, with fuel from the
  -- nesting of the filter on.
  pub from_tree-build_op :
      (f : Filter) (o : Obj) (fuel : ℕ)
      → IsStorable c f
      → build_op c true f ≡ some o
      → levels f ≤ fuel
      → from_tree c fuel o ≡ ok f
  unfolding from_tree
  from_tree-build_op f o zero h e le = absurd (omega (arith, levels_pos f))
  from_tree-build_op f o (suc fuel) h e le =
      read_op-build_op c laws (from_tree c fuel) fuel (every_level fuel) f o h e le
