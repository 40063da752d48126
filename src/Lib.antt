-- ===== src/Lib.antt =====
-- Verification of josh: the filter language, its rewriting, its storage, and its evaluation on git
-- trees.
--
-- A filter is a term of a small language (josh-filter/src/op.rs). Before use it is rewritten
-- to an equivalent term by `optimize` (josh-filter/src/opt/), and `apply` evaluates it on a git
-- tree (josh-core/src/filter/mod.rs) with the operations of josh-core/src/filter/tree.rs. A filter is
-- named by the id of a tree that describes it, and is persisted as such a tree
-- (josh-filter/src/persist.rs). Walks over commits take an order from josh-gix-ext/src/revwalk.rs.
--
-- Files and what they model:
--   Base: shared names, tests into Bool, lists and options. FilePath: the components of a
--     `std::path::Path` with `join`, `parent`, `pop` and `file_name`.
--   Filter: the enum `Op`; a `Filter`, a handle to an interned `Op`, is the `Op` itself.
--   Opt: josh-filter/src/opt/, one module for each file. Opt/Paths: `src_path`, `dst_path`.
--     Opt/Invert: `invert`. Opt/Structure: `group`, `last_chain`, `common_pre`, `common_post`,
--     `resurrects_from_empty`. Opt/Simplify, Opt/Flatten, Opt/PrefixSort: the functions of these
--     names. Opt/Step: `step`, its rules in Leaves, Sequence and Difference. Opt/Driver:
--     `iterate`, `optimize` and `minimize`.
--   Tree: josh-core/src/filter/tree.rs. Tree/Object: git objects and the readers. Tree/Order: the
--     canonical order of entries. Tree/Lookup: `get_path_entry`. Tree/Insert: `insert_oid`.
--     Tree/Subtract, Tree/Intersect, Tree/Overlay: the set operations. Tree/NoZero: what they do to
--     the zero id. Tree/Leaves: the blob at each path, as the abstract view of a tree, and the set
--     operations in it. Tree/Diff: `diff_paths`, its abstract view in Tree/Diff/Changes.
--   Pattern: josh-filter/src/pattern.rs and the walks of josh-core/src/filter/tree.rs that a Pattern
--     filter takes. Pattern/Mask: the `u64` that is a state. Pattern/Compile: `CompiledPattern`, over
--     a record `Glob` for the glob library. Pattern/Walk: `TreeRebuild`, `remove_pred`,
--     `remove_pattern` and the arm of `apply` that chooses between them. Pattern/Matches: what it
--     is to match component by component; Pattern/Closure, Pattern/Loops and Pattern/Accepts: the
--     states as sets of positions; Pattern/Equivalence: the two walks; Pattern/Leaves and
--     Pattern/Filtered: the abstract view.
--   Persist: josh-filter/src/persist.rs. Persist/Utf8, Persist/Decimal and Persist/PathText: the
--     strings, numbers and paths of the standard library that it uses. Persist/RefText: the record
--     `Codec` for the other libraries. Persist/Entries: sorting. Persist/Write: `build_op`.
--     Persist/Build: `build_persist`, compared with `build_op` in Persist/Ids.
--     Persist/Read: `from_tree2`. Persist/Storable: which filters can be read back.
--     Persist/Writable: which filters can be written.
--   RevWalk: josh-gix-ext/src/revwalk.rs, the walk `RevWalk`. RevWalk/Recursive: the walk
--     as a recursion; RevWalk/Loop: the loop does the same; RevWalk/Visits, RevWalk/Walked: the
--     invariant.
--   Downstack: `downstack` of josh-core/src/filter/mod.rs, over a record `Git` for the gix library.
--     Downstack/Needed: which commits it keeps. Trailers: josh-core/src/trailers.rs.
--   Apply: `apply_impl` and `tree::compose` for a tree without a commit (Apply/Eval), its fuel
--     (Apply/Fuel, Apply/Meaning), what it does to the zero id (Apply/NoZero), the two parts that
--     `Select` and `Exclude` make of a tree (Apply/Partition), and the filters whose evaluation is
--     modelled (Apply/Modelled).
--   Metadata: `with_meta`, `get_meta`, `peel` of josh-filter/src/filter.rs, and `flatten_chain` of
--     josh-core/src/filter/mod.rs.
--   Pins: `legalize_pin` and `needs_legalization` of josh-core/src/filter/mod.rs.
--   Refs: `lazy_refs` and `resolve_refs` of josh-core/src/filter/mod.rs.
--   Sound: the rewriting against the evaluation. Sound/Empty: the empty tree. Sound/Moves, Sound/Nest
--     and Sound/Splits: Subdir and Prefix. Sound/Chain: the rules of `step` for a chain. Sound/Step:
--     `step` on the filters of Sound/Plain. Sound/Undo: `invert`.
--   Examples: the code on concrete inputs.
--
-- Choices of the model:
--   An object id is the object that it names; an id of no object in the repository is `absent`,
--     with the zero id as `absent 0`. So ids are equal if and only if the objects are. The same
--     holds of commits, so that commits have no cycle.
--   A number of type `u8` or `usize` is a natural number: no operation of the modelled code
--     computes with one beyond comparing bytes and counting list elements. A `u64` of positions is
--     a natural number below 2 ^ 64.
--   Strings are lists of bytes, checked for UTF-8 where the source does. Error messages are not told
--     apart.
--   `apply` recurses on fuel, and so do `step`, `simplify`, `flatten`, the loop of `optimize_impl`,
--     `from_tree2`, `diff_paths` and the loop of `RevWalk`; running out is a result of its own.
--     Filters that `apply` visits get smaller in nesting, and the fuel that `run` gives is that
--     nesting; reading needs the nesting of the filter that was written, `diff_paths` that of the
--     trees, and the walk two steps for each path from a tip to a commit.
--   A name in a tree has no NUL where a tree is read, as a NUL ends it there. Where a new name is
--     written, `write_tree_now` fails on a NUL and the `write_tree` of the persistence panics, which
--     is `none` in the model as an error is.
--   In the tree of a filter the id of a child is the child's tree, so that `build_op` with an object
--     source has the persisted trees of all parts in it, which `build_persist` has found before.
--     `as_tree` is `optimize` and then `build_persist`.
--   A commit is its tree, its parents and the rest of its bytes. How the gix library reads and writes
--     these bytes again in `rewrite_commit`, which may fail, is the field `rewrite` of `Git`.
--   The memo tables of the rewriting hold results of the functions that fill them; the table of
--     `step`, which `optimize` also fills, is an argument. Results of the tree operations do not
--     depend on their caches, which are left out.
--   Maps with an order (`BTreeMap`) are association lists; the map of a trie's children
--     (`HashMap`) is an association list in the order of insertion.
--   What the source pushes at the end of a vector and reads from there, the stack of a walk and the
--     entries that it emits, is a list with the last element first.
--
-- Not modelled: the text format of filters with its parser and printer, the interning of filters and
--   the writing of persisted trees into a repository, history rewriting
--   (`apply_to_commit`) but for `downstack`, the streaming walk `discover` and `RangeWalk`, the
--   caches, the object database, the servers and the command line, which
--   are I/O around the core or depend on a repository. The gix library's `bisect_entry` is a
--   field of the record `Env` that the evaluation takes, and so is, as `other`, the evaluation of
--   Paths, Adapt, Link, Unlink, RegexReplace, Index, Invert, Workspace, Stored, Starlark, Pattern and
--   Unapply, which needs the parser, a regular expression, an interpreter or another tree walk
--   (Pattern is modelled apart, in Pattern/Walk). Nothing is assumed of `other`: a theorem either
--   holds whatever it does or is about filters that do not use it.
pub mod Base
pub mod FilePath
pub mod Filter
pub mod Opt
pub mod Tree
pub mod Apply
pub mod Metadata
pub mod Pins
pub mod Refs
pub mod RevWalk
pub mod Trailers
pub mod Downstack
pub mod Pattern
pub mod Persist
pub mod Sound
pub mod Examples
