-- ===== src/Filter/Op.antt =====
-- josh-filter/src/op.rs: the operations of the filter language. A `Filter` of the source is a
-- handle to an interned `Op`; two handles are equal exactly if their operations are, so here a
-- filter is its operation.
use josh.Base.{ℕ, List, [], ◌∷◌, Option, Bool, is_yes, Text, ℕ_discrete}
use josh.FilePath.{FilePath}

pub data LinkMode : Type 0 where
  embedded snapshot pointer : LinkMode

pub data LazyRef : Type 0 where
  resolved : ℕ → LazyRef
  lazy : Text → LazyRef

pub data InsertContent : Type 0 where
  inline : Text → InsertContent
  oid : ℕ → InsertContent

pub data RevMatch : Type 0 where
  ancestor_strict ancestor_inclusive equal default : RevMatch

-- `BTreeMap<String, String>`: pairs in increasing order of their keys.
abbrev pub Meta : Type 0
Meta = List (Text × Text)

-- `Vec<Filter>`, the arms of `Rev` and the map of `Squash` are the other types of the block.
mutual
  pub data Filter : Type 0 where
    meta : Meta → Filter → Filter
    nop empty fold paths : Filter
    adapt : Text → Filter
    link : Option LinkMode → Filter
    unlink export : Filter
    embed : FilePath → Filter
    squash_none : Filter
    squash_some : RefMap → Filter
    author committer : Text → Text → Filter
    rev : Arms → Filter
    prune : Filter
    regex_replace : List (Text × Text) → Filter
    hook : Text → Filter
    index invert : Filter
    insert : FilePath → InsertContent → Filter
    file : FilePath → FilePath → Filter
    prefix subdir workspace stored : FilePath → Filter
    starlark tree_id : FilePath → Filter → Filter
    object_deref object_ref : FilePath → Filter
    pattern : Text → Filter
    message : Text → Text → Filter
    unapply : LazyRef → Filter → Filter
    compose chain : Filters → Filter
    subtract : Filter → Filter → Filter
    exclude select pin : Filter → Filter
    downstack : LazyRef → Filter

  pub data Filters : Type 0 where
    nil : Filters
    cons : Filter → Filters → Filters

  pub data Arms : Type 0 where
    no_arms : Arms
    arm : RevMatch → LazyRef → Filter → Arms → Arms

  pub data RefMap : Type 0 where
    no_refs : RefMap
    ref : LazyRef → Filter → RefMap → RefMap

unfoldable pub Filter-discrete : Discrete Filter
Filter-discrete = hlevel ℕ_discrete

-- `==` on filters: identity of interned nodes, which is equality of their operations.
unfoldable pub filter_eq : Filter → Filter → Bool
filter_eq f g = is_yes (Filter-discrete f g)

-- A `Vec<Filter>` as a list, and back.
unfoldable pub to_list : Filters → List Filter
to_list nil = []
to_list (cons f fs) = f ∷ to_list fs

unfoldable pub of_list : List Filter → Filters
of_list [] = nil
of_list (f ∷ fs) = cons f (of_list fs)
