-- ===== src/Persist/Writable.antt =====
-- The filters that can be written as trees: the objects that they insert by id are there, and no
-- metadata key has a NUL, which ends a name in a tree.
use josh.Base.{false, any, ◌≡◌}
use josh.Filter.Op.{
  Filter, Filters, Arms, RefMap, oid, meta, squash_some, rev, insert, starlark, tree_id, unapply,
  compose, chain, subtract, exclude, select, pin, nil, cons, no_arms, arm, no_refs, ref,
}
use josh.Tree.Object.{Obj, blob, tree, absent}
use josh.Tree.Insert.{has_nul}
use josh.Persist.RefText.{Codec}

abbrev pub IsThere : Obj → Type 0
IsThere (blob s) = Unit
IsThere (tree es) = Unit
IsThere (absent i) = ⊥

abbrev mutual
  pub IsWritable : Codec → Filter → Type 0
  IsWritable c (insert p (oid i)) = IsThere (c.object i)
  IsWritable c (meta m f) = (any (λ kv. has_nul kv.0) m ≡ false) × IsWritable c f
  IsWritable c (squash_some refs) = RefsWritable c refs
  IsWritable c (rev arms) = ArmsWritable c arms
  IsWritable c (starlark p f) = IsWritable c f
  IsWritable c (tree_id p f) = IsWritable c f
  IsWritable c (unapply r f) = IsWritable c f
  IsWritable c (compose fs) = AreWritable c fs
  IsWritable c (chain fs) = AreWritable c fs
  IsWritable c (subtract f g) = IsWritable c f × IsWritable c g
  IsWritable c (exclude f) = IsWritable c f
  IsWritable c (select f) = IsWritable c f
  IsWritable c (pin f) = IsWritable c f
  IsWritable c _ = Unit

  pub AreWritable : Codec → Filters → Type 0
  AreWritable c nil = Unit
  AreWritable c (cons f fs) = IsWritable c f × AreWritable c fs

  pub ArmsWritable : Codec → Arms → Type 0
  ArmsWritable c no_arms = Unit
  ArmsWritable c (arm m r f arms) = IsWritable c f × ArmsWritable c arms

  pub RefsWritable : Codec → RefMap → Type 0
  RefsWritable c no_refs = Unit
  RefsWritable c (ref r f refs) = IsWritable c f × RefsWritable c refs
