-- ===== src/Persist/Entries.antt =====
-- The trees of josh-filter/src/persist.rs: their order, `write_tree` and `PersistedTree`.
pub mod Order
use josh.Base.{
  ℕ, zero, suc, ◌+◌, Bool, true, false, Option, none, some, List, [], ◌∷◌, Text, text_eq, ◌>>=◌,
  if◌then◌else◌,
}
use josh.Tree.Object.{Mode, Obj, Entries, blob, tree, nil, entry, find, tree_mode, blob_mode}
use josh.Opt.PrefixSort.{text_le}
use josh.Persist.Decimal.{decimal}
use josh.Persist.Utf8.{from_utf8}

-- A stable sort by the bytes of the names.
unfoldable pub insert_entry : Mode → Text → Obj → Entries → Entries
unfolding text_le
insert_entry m k o nil = entry m k o nil
insert_entry m k o (entry m' k' o' es) =
    let later = entry m' k' o' (insert_entry m k o es) in
    if text_le k k' then entry m k o (entry m' k' o' es) else later

unfoldable pub sort_entries : Entries → Entries
unfolding insert_entry
sort_entries nil = nil
sort_entries (entry m k o es) = insert_entry m k o (sort_entries es)

unfoldable pub write_tree : Entries → Obj
unfolding sort_entries
write_tree es = tree (sort_entries es)

-- An entry for each object, named by its index.
unfoldable pub index_entries : Mode → ℕ → List Obj → Entries
unfolding decimal
index_entries m i [] = nil
index_entries m i (o ∷ os) = entry m (decimal i) o (index_entries m (suc i) os)

-- `push_blob_entries` and `push_tree_entries` of one item.
abbrev pub blob_entry : Text → Text → Entries → Entries
blob_entry k s = entry blob_mode k (blob s)

abbrev pub tree_entry : Text → Obj → Entries → Entries
tree_entry k o = entry tree_mode k o

-- `PersistedTree::len`
abbrev pub count : Entries → ℕ
count nil = 0
count (entry m k o es) = suc (count es)

-- The ids of `get(0)`, `get(1)` and so on.
abbrev pub by_position : Entries → List Obj
by_position nil = []
by_position (entry m k o es) = o ∷ by_position es

-- The id of `get(0)`.
unfoldable pub get_first : Entries → Option Obj
get_first nil = none
get_first (entry m k o es) = some o

-- The id of `get_name`.
unfoldable pub get_name : Entries → Text → Option Obj
unfolding text_eq
get_name nil n = none
get_name (entry m k o es) n = let rest = get_name es n in if text_eq k n then some o else rest

-- The ids of `get_name(&i.to_string())` for the `n` indices from `i` on.
unfoldable pub by_name : Entries → ℕ → ℕ → Option (List Obj)
unfolding get_name decimal
by_name es i zero = some []
by_name es i (suc n) = do o ← get_name es (decimal i); os ← by_name es (suc i) n; some (o ∷ os)

-- `Blob::read`
unfoldable pub read_blob : Obj → Option Text
read_blob (blob s) = some s
read_blob _ = none

-- `PersistedTree::read`
unfoldable pub read_persisted : Obj → Option Entries
read_persisted (tree es) = some es
read_persisted _ = none

-- The text of the blob that an entry names.
unfoldable pub param : Entries → Text → Option Text
unfolding get_name read_blob from_utf8
param es n = do o ← get_name es n; s ← read_blob o; from_utf8 s
