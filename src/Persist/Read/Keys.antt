-- ===== src/Persist/Read/Keys.antt =====
-- The keys of `Rev`, `Squash` and `Meta` in `from_tree2` of josh-filter/src/persist.rs.
use josh.Base.{◌==◌, Option, none, some, List, [], ◌∷◌, Text, text_eq, ◌>>=◌, if◌then◌else◌}
use josh.Filter.Op.{
  Filter, Arms, RefMap, LazyRef, RevMatch, Meta, ancestor_strict, ancestor_inclusive, equal,
  default, no_arms, arm, resolved,
}
use josh.Tree.Object.{Obj, Entries}
use josh.Tree.Object as Git
use josh.Metadata.{meta_put}
use josh.Refs.{put_ref}
use josh.Persist.Utf8.{bytes, from_utf8}
use josh.Persist.RefText.{Codec, parse_lazy_ref}
use josh.Persist.Entries.{read_blob}

-- `str::strip_prefix`
unfoldable pub strip_prefix : Text → Text → Option Text
unfolding text_eq
strip_prefix [] s = some s
strip_prefix (p ∷ ps) [] = none
strip_prefix (p ∷ ps) (c ∷ s) = if p == c then strip_prefix ps s else none

unfoldable pub of_arms : List ((RevMatch × LazyRef) × Filter) → Arms
of_arms [] = no_arms
of_arms (((m, r), f) ∷ arms) = arm m r f (of_arms arms)

-- `filters.insert` for each pair, in order.
unfoldable pub put_refs : RefMap → List (LazyRef × Filter) → RefMap
unfolding put_ref
put_refs done [] = done
put_refs done ((r, f) ∷ pairs) = put_refs (put_ref r f done) pairs

-- The entries of a `Meta` but its filter, in order: the names and texts of blobs.
unfoldable pub read_meta : Meta → Entries → Option Meta
unfolding from_utf8 read_blob meta_put
read_meta done Git.nil = some done
read_meta done (Git.entry m k o es) =
    let skipped = read_meta done es in
    let put = read_blob o >>= λ b. from_utf8 b >>= λ value. read_meta (meta_put k value done) es in
    from_utf8 k >>= λ key. if text_eq key (bytes "0") then skipped else put

module _ (c : Codec) where
  unfoldable pub read_with : RevMatch → Text → Option (RevMatch × LazyRef)
  unfolding parse_lazy_ref
  read_with m s = do r ← parse_lazy_ref c s; some (m, r)

  -- The match operator in front of the key of an arm.
  unfoldable pub read_rev_key : Text → Option (RevMatch × LazyRef)
  unfolding text_eq strip_prefix read_with
  read_rev_key key =
      if text_eq key (bytes "_")
      then some (default, resolved 0)
      else elim (strip_prefix (bytes "<=") key) [
        | some s ↦ read_with ancestor_inclusive s
        | none ↦ elim (strip_prefix (bytes "<") key) [
          | some s ↦ read_with ancestor_strict s
          | none ↦ elim (strip_prefix (bytes "==") key) [ some s ↦ read_with equal s | none ↦ none ]
        ]
      ]
