-- ===== src/Persist/RoundTrip/Lists.antt =====
-- The parameters that are lists, as their readers see them.
use josh.Base.{suc, some, List, [], ◌∷◌, ◌≡◌, refl, ap, ◌∙◌, map, length, ◌≤◌}
use josh.Tree.Object.{Obj, Entries, tree_mode}
use josh.Persist.Entries.{sort_entries, index_entries, read_persisted, count, by_position, by_name}
use josh.Persist.Entries.Order.{
  count-sort_entries, count-index_entries, by_name-sort_entries, by_position-sort_entries,
}
use josh.Persist.Write.{filter_params}

pub length-map {ℓ κ} :
    {A : Type ℓ} {B : Type κ} (f : A → B) (xs : List A) → length (map f xs) ≡ length xs
length-map f [] = refl
length-map f (x ∷ xs) = ap suc (length-map f xs)

-- A list that is read by position.
pub read_positions :
    (os : List Obj)
    → length os ≤ 10
    → (es : Entries) × (read_persisted (filter_params os) ≡ some es) × (by_position es ≡ os)
unfolding filter_params read_persisted
read_positions os h =
    (sort_entries (index_entries tree_mode 0 os), refl, by_position-sort_entries tree_mode os h)

pub count-filter_params :
    (os : List Obj) → count (sort_entries (index_entries tree_mode 0 os)) ≡ length os
count-filter_params os =
    count-sort_entries (index_entries tree_mode 0 os) ∙ count-index_entries tree_mode 0 os

-- A list that is read by name.
pub read_names :
    (os : List Obj)
    → (es : Entries) × (read_persisted (filter_params os) ≡ some es)
      × (count es ≡ length os)
      × (by_name es 0 (count es) ≡ some os)
unfolding filter_params read_persisted
read_names os =
    let es = sort_entries (index_entries tree_mode 0 os) in
    (
      es,
      refl,
      count-filter_params os,
      ap (by_name es 0) (count-filter_params os) ∙ by_name-sort_entries tree_mode os,
    )
