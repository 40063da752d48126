-- ===== src/Persist/Read/Params.antt =====
-- The arms of `from_tree2` in josh-filter/src/persist.rs that read texts only.
use josh.Base.{Option, none, some, [], ◌∷◌, Text, text_eq, traverse, ◌>>=◌, if◌then◌else◌}
use josh.FilePath.{FilePath}
use josh.Filter.Op.{
  Filter, LinkMode, oid, inline, adapt, link, embed, author, committer, regex_replace, hook, insert,
  file, prefix, subdir, workspace, stored, object_deref, object_ref, pattern, message, downstack,
}
use josh.Tree.Object.{Obj, Entries}
use josh.Persist.Utf8.{bytes, from_utf8}
use josh.Persist.PathText.{path_of}
use josh.Persist.RefText.{Codec, parse_lazy_ref, parse_link_mode}
use josh.Persist.Entries.{by_position, get_name, read_blob, read_persisted, param}

unfoldable pub read_path : (FilePath → Filter) → Entries → Option Filter
unfolding param path_of
read_path op es = do s ← param es (bytes "0"); some (op (path_of s))

unfoldable pub read_one : (Text → Filter) → Entries → Option Filter
unfolding param
read_one op es = do s ← param es (bytes "0"); some (op s)

unfoldable pub read_two : (Text → Text → Filter) → Entries → Option Filter
unfolding param
read_two op es = do s ← param es (bytes "0"); t ← param es (bytes "1"); some (op s t)

unfoldable pub parse_mode : Text → Option (Option LinkMode)
unfolding parse_link_mode
parse_mode [] = some none
parse_mode (c ∷ s) = do m ← parse_link_mode (c ∷ s); some (some m)

unfoldable pub read_link : Entries → Option Filter
unfolding param parse_mode
read_link es = do s ← param es (bytes "0"); m ← parse_mode s; some (link m)

unfoldable pub read_inline : FilePath → Entries → Option Filter
unfolding param
read_inline p es = do
  k ← get_name es (bytes "1")
  kind_blob ← read_blob k
  v ← get_name es (bytes "2")
  value_blob ← read_blob v
  kind ← from_utf8 kind_blob
  value ← from_utf8 value_blob
  if text_eq kind (bytes "inline") then some (insert p (inline value)) else none

module _ (c : Codec) where
  -- `Regex::new`
  abbrev pub compile_regex : Text → Option Text
  compile_regex s = if c.is_regex s then some s else none

  unfoldable pub read_message : Entries → Option Filter
  unfolding param
  read_message es = do
    fmt ← param es (bytes "0")
    re ← param es (bytes "1")
    re' ← compile_regex re
    some (message fmt re')

  -- `Op::pattern`
  unfoldable pub read_pattern : Entries → Option Filter
  unfolding param
  read_pattern es = do
    glob ← param es (bytes "0")
    if c.is_glob glob then some (pattern glob) else none

  unfoldable pub read_downstack : Entries → Option Filter
  unfolding param parse_lazy_ref
  read_downstack es = do s ← param es (bytes "0"); r ← parse_lazy_ref c s; some (downstack r)

  unfoldable pub read_object : FilePath → Entries → Option Obj → Option Filter
  unfolding read_inline
  read_object p es (some o) = some (insert p (oid (c.id_of o)))
  read_object p es none = read_inline p es

  unfoldable pub read_insert : Entries → Option Filter
  unfolding param path_of read_object get_name
  read_insert es = do s ← param es (bytes "0"); read_object (path_of s) es (get_name es (bytes "o"))

  unfoldable pub read_regex_pair : Obj → Option (Text × Text)
  unfolding param read_persisted
  read_regex_pair o = do
    es ← read_persisted o
    re ← param es (bytes "p")
    text ← param es (bytes "r")
    re' ← compile_regex re
    some (re', text)

  unfoldable pub read_regex_replace : Entries → Option Filter
  unfolding read_regex_pair
  read_regex_replace es = do
    pairs ← traverse read_regex_pair (by_position es)
    some (regex_replace pairs)

  -- The reader of the parameters of an operation.
  unfoldable pub params_op : Text → Option (Entries → Option Filter)
  unfolding text_eq read_path read_one read_two read_link read_message read_pattern read_downstack
      read_insert read_regex_replace
  params_op name =
      if text_eq name (bytes "link")
      then some read_link
      else if text_eq name (bytes "adapt")
      then some (read_one adapt)
      else if text_eq name (bytes "hook")
      then some (read_one hook)
      else if text_eq name (bytes "author")
      then some (read_two author)
      else if text_eq name (bytes "committer")
      then some (read_two committer)
      else if text_eq name (bytes "message")
      then some read_message
      else if text_eq name (bytes "subdir")
      then some (read_path subdir)
      else if text_eq name (bytes "prefix")
      then some (read_path prefix)
      else if text_eq name (bytes "insert")
      then some read_insert
      else if text_eq name (bytes "file")
      then some (read_two (λ dest src. file (path_of dest) (path_of src)))
      else if text_eq name (bytes "embed")
      then some (read_path embed)
      else if text_eq name (bytes "pattern")
      then some read_pattern
      else if text_eq name (bytes "workspace")
      then some (read_path workspace)
      else if text_eq name (bytes "stored")
      then some (read_path stored)
      else if text_eq name (bytes "treederef")
      then some (read_path object_deref)
      else if text_eq name (bytes "treeref")
      then some (read_path object_ref)
      else if text_eq name (bytes "regex_replace")
      then some read_regex_replace
      else if text_eq name (bytes "downstack")
      then some read_downstack
      else none
