-- ===== src/Tree/Order.antt =====
-- The canonical order of the entries of a tree, and lookup and insertion by it.
use Prim.Native.Nat.{compare, Ordering}
use josh.Base.{ℕ, Bool, true, false, ◌&&◌, Option, none, some, [], ◌∷◌, ◌≡◌, Text, if◌then◌else◌}
use josh.Tree.Object.{Mode, Obj, Entries, nil, entry, is_tree, find, find_kind}

-- The byte that is read past the end of a name.
abbrev end_byte : Bool → ℕ
end_byte true = b'/'
end_byte false = 0

-- `git_tree_entry_cmp`: byte-wise, a tree's name as if it ended in a slash.
unfoldable pub git_tree_entry_cmp : Text → Bool → Text → Bool → Ordering
git_tree_entry_cmp [] a_dir [] b_dir = compare (end_byte a_dir) (end_byte b_dir)
git_tree_entry_cmp [] a_dir (y ∷ ys) b_dir = compare (end_byte a_dir) y
git_tree_entry_cmp (x ∷ xs) a_dir [] b_dir = compare x (end_byte b_dir)
git_tree_entry_cmp (x ∷ xs) a_dir (y ∷ ys) b_dir =
    let rest = git_tree_entry_cmp xs a_dir ys b_dir in
    elim (compare x y) [
      | Ordering.eq ↦ rest
      | Ordering.lt ↦ Ordering.lt
      | Ordering.gt ↦ Ordering.gt
    ]

abbrev pub is_less : Ordering → Bool
is_less Ordering.lt = true
is_less _ = false

abbrev pub is_greater : Ordering → Bool
is_greater Ordering.gt = true
is_greater _ = false

-- An entry with the mode `m` and the name `k` comes strictly before one with `m'` and `k'`.
unfoldable pub before : Mode → Text → Mode → Text → Bool
unfolding git_tree_entry_cmp
before m k m' k' = is_less (git_tree_entry_cmp k (is_tree m) k' (is_tree m'))

unfoldable pub after : Mode → Text → Mode → Text → Bool
unfolding git_tree_entry_cmp
after m k m' k' = is_greater (git_tree_entry_cmp k (is_tree m) k' (is_tree m'))

-- `entries_canonically_sorted`: each entry comes strictly before the next one.
unfoldable pub canonically_sorted : Entries → Bool
unfolding before
canonically_sorted nil = true
canonically_sorted (entry m k o nil) = true
canonically_sorted (entry m k o (entry m' k' o' es)) =
    before m k m' k' && canonically_sorted (entry m' k' o' es)

-- Every entry comes strictly after one with the mode `m` and the name `k`.
unfoldable pub all_after : Entries → Mode → Text → Bool
unfolding after
all_after nil m k = true
all_after (entry m' k' o' es) m k = after m' k' m k && all_after es m k

-- `insert_in_order`: behind the last entry that does not come after the new one.
unfoldable pub insert_in_order : Entries → Mode → Text → Obj → Entries
unfolding all_after
insert_in_order nil m k o = entry m k o nil
insert_in_order (entry m' k' o' es) m k o =
    let rest = entry m' k' o' (insert_in_order es m k o) in
    if all_after (entry m' k' o' es) m k then entry m k o (entry m' k' o' es) else rest

-- `TreeRef::bisect_entry` of the gix library, a parameter of what looks entries up.
abbrev pub Bisect : Type 0
Bisect = Entries → Text → Bool → Option (Mode × Obj)

-- Its documented behaviour: on a sorted tree it finds the entry of that name and kind.
abbrev pub IsBisect : Bisect → Type 0
IsBisect bisect =
    (es : Entries) (n : Text) (dir : Bool)
    → canonically_sorted es ≡ true
    → bisect es n dir ≡ find_kind es n dir

abbrev pub or_else {ℓ} : {A : Type ℓ} → Option A → Option A → Option A
or_else (some a) b = some a
or_else none b = b

-- `lookup_entry`, with the test whether the tree is sorted that its callers make.
unfoldable pub lookup_entry : Bisect → Entries → Text → Option (Mode × Obj)
unfolding canonically_sorted find
lookup_entry bisect es n =
    if canonically_sorted es then or_else (bisect es n false) (bisect es n true) else find es n
