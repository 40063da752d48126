-- ===== src/Tree/Object.antt =====
-- Git objects. An object id is the hash of a content, so an id is modelled by the content that it
-- names; an id that names no object of the repository keeps its number.
use josh.Base.{
  ℕ, zero, Bool, true, false, Option, none, some, Text, is_yes, ℕ_discrete, text_eq, if◌then◌else◌,
}

-- `EntryMode`: what the code asks of a mode is whether it is a tree or a commit (gitlink); the
-- other raw values, of blobs and symlinks, are kept as they are.
pub data Mode : Type 0 where
  tree_mode commit_mode : Mode
  file_mode : ℕ → Mode

mutual
  pub data Obj : Type 0 where
    blob : Text → Obj
    tree : Entries → Obj
    absent : ℕ → Obj

  -- The entries of a tree, in their order.
  pub data Entries : Type 0 where
    nil : Entries
    entry : Mode → Text → Obj → Entries → Entries

unfoldable pub Obj-discrete : Discrete Obj
Obj-discrete = hlevel ℕ_discrete

abbrev pub obj_eq : Obj → Obj → Bool
obj_eq a b = is_yes (Obj-discrete a b)

-- `git2::FileMode::Blob`
abbrev pub blob_mode : Mode
blob_mode = file_mode 0o100644

-- `empty_id()`: the id of the empty tree.
abbrev pub empty_id : Obj
empty_id = tree nil

-- `ZERO_SHA1`
abbrev pub zero_id : Obj
zero_id = absent 0

abbrev pub is_tree : Mode → Bool
is_tree tree_mode = true
is_tree _ = false

abbrev pub is_empty : Obj → Bool
is_empty (tree nil) = true
is_empty _ = false

-- The empty tree or the zero id: what is written there is removed instead.
abbrev pub is_gone : Obj → Bool
is_gone (tree nil) = true
is_gone (absent zero) = true
is_gone _ = false

-- The first entry of that name, of any kind.
unfoldable pub find : Entries → Text → Option (Mode × Obj)
find nil n = none
find (entry m k o es) n = let rest = find es n in if text_eq k n then some (m, o) else rest

-- The first entry of that name that is, or is not, a tree.
unfoldable pub find_kind : Entries → Text → Bool → Option (Mode × Obj)
find_kind nil n dir = none
find_kind (entry m k o es) n dir =
    let rest = find_kind es n dir in
    if text_eq k n
    then (if is_tree m
        then (if dir then some (m, o) else rest)
        else (if dir then rest else some (m, o)))
    else rest

-- `read_tree_bytes`: reading an absent object is an error, and any other object than a tree has no
-- entries.
unfoldable pub read_tree : Obj → Option (Option Entries)
read_tree (tree es) = some (some es)
read_tree (blob b) = some none
read_tree (absent i) = none

-- `tree_bytes`: no entries in either case.
unfoldable pub tree_entries : Obj → Option Entries
tree_entries (tree es) = some es
tree_entries _ = none
