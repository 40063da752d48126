-- ===== src/Tree/NoZero/Places.antt =====
-- Lookups and insertions by path meet and write no zero id.
use josh.Base.{
  Bool, true, false, not, ◌&&◌, Option, none, some, Option-cases, Bool-cases, inl, inr, List, [],
  ◌∷◌, ◌≡◌, Text, text_eq, All?, All?-elim, All?-if, All?-bind, reverse, if◌then◌else◌,
}
use josh.FilePath.{FilePath, Component, normal, root_dir, cur_dir, parent_dir}
use josh.Tree.Object.{
  Mode, Obj, Entries, blob, tree, absent, nil, entry, find, is_gone, is_tree, zero_id, read_tree,
  tree_entries, tree_mode,
}
use josh.Tree.Order.{Bisect, IsBisect, lookup_entry}
use josh.Tree.Lookup.{
  Found, look, found_then, descend, descend_from, get_path_entry, path_components,
}
use josh.Tree.Insert.{
  component_bytes, drop_name, put_first, replace_in, replace_child, subtree_step, subtree_at,
  insert_reversed, insert_oid, write_child, has_nul,
}
use josh.Tree.NoZero.{NoZero, NoZeros, NoZeroAt, find-NoZero, lookup_entry-NoZero}
use josh.Tree.NoZero.Unions.{insert_in_order-NoZero}

-- An entry that is found.
abbrev pub NoZeroFound : Found → Type 0
NoZeroFound (some (some e)) = NoZero e.1
NoZeroFound _ = Unit

look-NoZero : (o : Obj) (n : Text) → NoZero o → NoZeroFound (look (read_tree o) n)
unfolding read_tree
look-NoZero (blob b) n h = tt
look-NoZero (absent i) n h = tt
look-NoZero (tree es) n h = elim (Option-cases (find es n)) [
  | inl e ↦ rw (e, NoZeroFound) tt
  | inr (e, q) ↦ rw (q, NoZeroFound) (All?-elim NoZeroAt (find es n) (find-NoZero es n h) q)
]

found_then-NoZero :
    (e : Found) (f : Mode × Obj → Found)
    → NoZeroFound e
    → ((x : Mode × Obj) → NoZero x.1 → NoZeroFound (f x))
    → NoZeroFound (found_then e f)
found_then-NoZero (some (some e)) f h k = k e h
found_then-NoZero (some none) f h k = tt
found_then-NoZero none f h k = tt

if-NoZeroFound :
    (b : Bool) (x y : Found) → NoZeroFound x → NoZeroFound y → NoZeroFound (if b then x else y)
if-NoZeroFound true x y p q = p
if-NoZeroFound false x y p q = q

descend-NoZero : (e : Mode × Obj) (ns : List Text) → NoZero e.1 → NoZeroFound (descend e ns)
unfolding descend
descend-NoZero e [] h = h
descend-NoZero e (n ∷ ns) h =
    if-NoZeroFound (is_tree e.0) _ _
      (found_then-NoZero (look (read_tree e.1) n) _ (look-NoZero e.1 n h)
        (λ x hx. descend-NoZero x ns hx))
      tt

descend_from-NoZero :
    (t : Obj) (ns : Option (List Text)) → NoZero t → NoZeroFound (descend_from (read_tree t) ns)
unfolding read_tree
descend_from-NoZero t (some (n ∷ ns)) h =
    found_then-NoZero (look (read_tree t) n) _ (look-NoZero t n h) (λ x hx. descend-NoZero x ns hx)
descend_from-NoZero (blob b) _ h = tt
descend_from-NoZero (tree es) _ h = tt
descend_from-NoZero (absent i) _ h = tt

pub get_path_entry-NoZero : (t : Obj) (p : FilePath) → NoZero t → NoZeroFound (get_path_entry t p)
unfolding get_path_entry
get_path_entry-NoZero t p h = descend_from-NoZero t (path_components p) h

-- What is put in place is no zero id, or is removed.
abbrev pub Fits : Obj → Type 0
Fits o = is_gone o ≡ false → NoZero o

pub NoZero-Fits : (o : Obj) → NoZero o → Fits o
NoZero-Fits o h _ = h

pub zero-Fits : Fits zero_id
zero-Fits h = absurd (cc)

if-NoZeros : (b : Bool) (x y : Entries) → NoZeros x → NoZeros y → NoZeros (if b then x else y)
if-NoZeros true x y p q = p
if-NoZeros false x y p q = q

drop_name-NoZero : (es : Entries) (n : Text) → NoZeros es → NoZeros (drop_name es n)
unfolding drop_name
drop_name-NoZero nil n h = tt
drop_name-NoZero (entry m k o es) n h =
    if-NoZeros (text_eq k n) _ _ (drop_name-NoZero es n h.1) (h.0, drop_name-NoZero es n h.1)

put_first-NoZero :
    (es : Entries) (n : Text) (m : Mode) (o : Obj)
    → NoZeros es
    → NoZero o
    → NoZeros (put_first es n m o)
unfolding put_first
put_first-NoZero nil n m o h z = tt
put_first-NoZero (entry m' k' o' es) n m o h z =
    if-NoZeros (text_eq k' n) _ _ (z, drop_name-NoZero es n h.1)
      (h.0, put_first-NoZero es n m o h.1 z)

replace_in-NoZero :
    (es : Entries) (n : Text) (o : Obj) (m : Mode)
    → NoZeros es
    → Fits o
    → NoZeros (replace_in es n o m)
unfolding replace_in
replace_in-NoZero es n o m h z = elim (Bool-cases (is_gone o)) [
  | inl gone ↦ rw (gone, NoZeros) (drop_name-NoZero es n h)
  | inr stays ↦ elim (Option-cases (find es n)) [
    | inl e ↦ rw (stays, e) (insert_in_order-NoZero es m n o h (z stays))
    | inr (_, e) ↦ rw (stays, e) (put_first-NoZero es n m o h (z stays))
  ]
]

pub replace_child-NoZero :
    (n : Text) (o : Obj) (m : Mode) (t : Obj) → NoZero t → Fits o → NoZero (replace_child n o m t)
unfolding replace_child tree_entries
replace_child-NoZero n o m (tree es) h z = replace_in-NoZero es n o m h z
replace_child-NoZero n o m (blob b) h z = replace_in-NoZero nil n o m tt z
replace_child-NoZero n o m (absent i) h z = replace_in-NoZero nil n o m tt z

write_child-NoZero :
    (n : Text) (o : Obj) (m : Mode) (t : Obj)
    → NoZero t
    → Fits o
    → All? NoZero (write_child n o m t)
unfolding write_child
write_child-NoZero n o m t h z =
    All?-if NoZero (not (is_gone o) && has_nul n) _ _ tt (replace_child-NoZero n o m t h z)

module _ (bisect : Bisect) (is_bisect : IsBisect bisect) where
  subtree_step-NoZero : (t : Obj) (c : Component) → NoZero t → NoZero (subtree_step bisect t c)
  unfolding subtree_step tree_entries
  subtree_step-NoZero (blob b) c h = tt
  subtree_step-NoZero (absent i) c h = tt
  subtree_step-NoZero (tree es) c h =
      let n = component_bytes c in
      elim (Option-cases (lookup_entry bisect es n)) [
        | inl e ↦ rw (e, subtree_step, NoZero) tt
        | inr (_, e) ↦
            rw (e, subtree_step, NoZero)
              (All?-elim NoZeroAt (lookup_entry bisect es n)
                (lookup_entry-NoZero bisect is_bisect es n h) e)
      ]

  subtree_at-NoZero : (t : Obj) (p : FilePath) → NoZero t → NoZero (subtree_at bisect t p)
  unfolding subtree_at
  subtree_at-NoZero t [] h = h
  subtree_at-NoZero t (c ∷ p) h =
      subtree_at-NoZero (subtree_step bisect t c) p (subtree_step-NoZero t c h)

  inserted-NoZero :
      (p : FilePath) (full o : Obj) (m : Mode)
      → NoZero full
      → Fits o
      → All? NoZero (insert_reversed bisect full p o m)
  unfolding insert_reversed
  inserted-NoZero [] full o m h z = tt
  inserted-NoZero (c ∷ []) full o m h z = write_child-NoZero (component_bytes c) o m full h z
  inserted-NoZero (normal n ∷ d ∷ p) full o m h z =
      All?-bind NoZero NoZero (write_child n o m (subtree_at bisect full (reverse (d ∷ p)))) _
        (write_child-NoZero n o m _ (subtree_at-NoZero full (reverse (d ∷ p)) h) z)
        (λ sub hs. inserted-NoZero (d ∷ p) full sub tree_mode h (NoZero-Fits sub hs))
  inserted-NoZero (root_dir ∷ d ∷ p) full o m h z = tt
  inserted-NoZero (cur_dir ∷ d ∷ p) full o m h z = tt
  inserted-NoZero (parent_dir ∷ d ∷ p) full o m h z = tt

  pub insert_oid-NoZero :
      (full : Obj) (p : FilePath) (o : Obj) (m : Mode)
      → NoZero full
      → Fits o
      → All? NoZero (insert_oid bisect full p o m)
  unfolding insert_oid
  insert_oid-NoZero full p o m h z = inserted-NoZero (reverse p) full o m h z
