-- ===== src/Opt/Invert.antt =====
-- josh-filter/src/opt/invert.rs: the filter that maps filtered content back. `none` is the error
-- "no invert". The memo table only holds results of this function.
pub mod Height
use josh.Base.{Option, none, some, ◌>>=◌}
use josh.Filter.Op.{
  Filter, Filters, meta, nop, empty, link, unlink, export, squash_none, prune, regex_replace,
  insert, file, prefix, subdir, tree_id, object_deref, object_ref, pattern, message, compose, chain,
  exclude, select, pin, nil, cons,
}

unfoldable pub append_filters : Filters → Filters → Filters
append_filters nil gs = gs
append_filters (cons f fs) gs = cons f (append_filters fs gs)

-- `Chain` inverts its elements from the last to the first, `Compose` in place.
unfoldable mutual
  unfolding append_filters

  pub invert : Filter → Option Filter
  invert nop = some nop
  invert (message m r) = some nop
  invert squash_none = some nop
  invert prune = some prune
  invert export = some export
  invert empty = some empty
  invert (link mode) = some unlink
  invert (subdir p) = some (prefix p)
  invert (file dest source) = some (file source dest)
  invert (prefix p) = some (subdir p)
  invert (pattern g) = some (pattern g)
  invert (regex_replace r) = some nop
  invert (pin f) = some nop
  invert (insert p c) = some empty
  invert (tree_id p f) = some empty
  invert (object_deref p) = some (object_ref p)
  invert (object_ref p) = some (object_deref p)
  invert (meta m f) = do g ← invert f; some (meta m g)
  invert (chain fs) = do gs ← invert_rev fs; some (chain gs)
  invert (compose fs) = do gs ← invert_each fs; some (compose gs)
  invert (exclude f) = do g ← invert f; some (exclude g)
  invert (select f) = do g ← invert f; some (select g)
  invert _ = none

  pub invert_rev : Filters → Option Filters
  invert_rev nil = some nil
  invert_rev (cons f fs) = do
    gs ← invert_rev fs
    g ← invert f
    some (append_filters gs (cons g nil))

  pub invert_each : Filters → Option Filters
  invert_each nil = some nil
  invert_each (cons f fs) = do g ← invert f; gs ← invert_each fs; some (cons g gs)
