-- ===== src/Tree/Leaves.antt =====
-- The abstract view of a tree: which blob, if any, lies at a path. It forgets modes, order, and trees
-- without blobs. The children state the operations of josh-core/src/filter/tree.rs in it.
pub mod Minus
pub mod Common
pub mod Over
pub mod Total
pub mod Joint
use josh.Base.{
  Bool, true, false, Bool-cases, inl, inr, Option, none, some, some_inj, List, [], ◌∷◌, ◌≡◌, refl,
  sym, ap, ap₂, ◌∙◌, subst, Text, text_eq, text_eq→eq, if◌then◌else◌, if-true, if-false,
  Option-cases, arith,
}
use josh.Tree.Object.{Mode, Obj, Entries, blob, tree, absent, nil, entry, is_tree, find, find_kind}
use josh.Tree.Order.{Bisect, IsBisect, or_else, lookup_entry, canonically_sorted}

abbrev pub entry_object : Option (Mode × Obj) → Option Obj
entry_object none = none
entry_object (some e) = some e.1

-- The object of a name in a tree.
unfoldable pub child : Obj → Text → Option Obj
unfolding find
child (tree es) n = entry_object (find es n)
child _ n = none

abbrev blob_text : Obj → Option Text
blob_text (blob b) = some b
blob_text _ = none

abbrev pub leaf_of : Option Obj → (Obj → Option Text) → Option Text
leaf_of none f = none
leaf_of (some c) f = f c

unfoldable pub leaf : Obj → List Text → Option Text
unfolding child
leaf o [] = blob_text o
leaf o (n ∷ ns) = leaf_of (child o n) (λ c. leaf c ns)

abbrev hit_here : Obj → Bool
hit_here (blob b) = true
hit_here (tree es) = true
hit_here (absent i) = false

abbrev pub hit_of : Option Obj → (Obj → Bool) → Bool
hit_of none f = false
hit_of (some c) f = f c

-- There is something at the path, or a blob on the way to it.
unfoldable pub hit : Obj → List Text → Bool
unfolding child
hit o [] = hit_here o
hit (blob b) (n ∷ ns) = true
hit o (n ∷ ns) = hit_of (child o n) (λ c. hit c ns)

abbrev covers_here : Obj → Bool
covers_here (blob b) = true
covers_here (tree nil) = false
covers_here (tree (entry m k o es)) = true
covers_here (absent i) = false

-- The same, but an empty tree is nothing.
unfoldable pub covers : Obj → List Text → Bool
unfolding child
covers o [] = covers_here o
covers (blob b) (n ∷ ns) = true
covers o (n ∷ ns) = hit_of (child o n) (λ c. covers c ns)

-- The names in each tree differ.
abbrev mutual
  pub Distinct : Obj → Type 0
  Distinct (tree es) = Distincts es
  Distinct _ = Unit

  pub Distincts : Entries → Type 0
  Distincts nil = Unit
  Distincts (entry m k o es) = (find es k ≡ none) × Distinct o × Distincts es

pub hit-leaf : (o : Obj) (ns : List Text) → hit o ns ≡ false → leaf o ns ≡ none
unfolding hit leaf
hit-leaf (blob b) [] h = absurd (cc)
hit-leaf (tree es) [] h = refl
hit-leaf (absent i) [] h = refl
hit-leaf (blob b) (n ∷ ns) h = absurd (cc)
hit-leaf (absent i) (n ∷ ns) h = refl
hit-leaf (tree es) (n ∷ ns) h = under (child (tree es) n) (λ d k. hit-leaf d ns k) h
  where
    under :
        (c : Option Obj)
        → ((d : Obj) → hit d ns ≡ false → leaf d ns ≡ none)
        → hit_of c (λ d. hit d ns) ≡ false
        → leaf_of c (λ d. leaf d ns) ≡ none
    under none ih k = refl
    under (some d) ih k = ih d k

pub covers-leaf : (o : Obj) (ns : List Text) → covers o ns ≡ false → leaf o ns ≡ none
unfolding covers leaf
covers-leaf (blob b) [] h = absurd (cc)
covers-leaf (tree es) [] h = refl
covers-leaf (absent i) [] h = refl
covers-leaf (blob b) (n ∷ ns) h = absurd (cc)
covers-leaf (absent i) (n ∷ ns) h = refl
covers-leaf (tree es) (n ∷ ns) h = under (child (tree es) n) (λ d k. covers-leaf d ns k) h
  where
    under :
        (c : Option Obj)
        → ((d : Obj) → covers d ns ≡ false → leaf d ns ≡ none)
        → hit_of c (λ d. covers d ns) ≡ false
        → leaf_of c (λ d. leaf d ns) ≡ none
    under none ih k = refl
    under (some d) ih k = ih d k

pub find-Distinct :
    (es : Entries) (n : Text) {e : Mode × Obj} → Distincts es → find es n ≡ some e → Distinct e.1
unfolding find
find-Distinct nil n d h = absurd (cc)
find-Distinct (entry m k o es) n d h = elim (Bool-cases (text_eq k n)) [
  | inl e ↦ subst (λ x. Distinct x.1) (some_inj (sym (if-true (text_eq k n) _ _ e) ∙ h)) d.1
  | inr e ↦ find-Distinct es n d.2 (sym (if-false (text_eq k n) _ _ e) ∙ h)
]

-- Behind an entry, its name does not come again.
find_kind-none :
    (es : Entries) (n : Text) (dir : Bool) → find es n ≡ none → find_kind es n dir ≡ none
unfolding find find_kind
find_kind-none nil n dir h = refl
find_kind-none (entry m k o es) n dir h = elim (Bool-cases (text_eq k n)) [
  | inl e ↦ absurd (none_some (sym h ∙ if-true (text_eq k n) _ _ e))
  | inr e ↦
      if-false (text_eq k n) _ _ e
      ∙ find_kind-none es n dir (sym (if-false (text_eq k n) _ _ e) ∙ h)
]
  where
    none_some : {x : Mode × Obj} → none ≡ some x → ⊥
    none_some q = cc

find_kind-find :
    (es : Entries) (n : Text)
    → Distincts es
    → or_else (find_kind es n false) (find_kind es n true) ≡ find es n
unfolding find find_kind
find_kind-find nil n d = refl
find_kind-find (entry m k o es) n d = elim (Bool-cases (text_eq k n)) [
  | inl e ↦
      let gone : find es n ≡ none = ap (find es) (sym (text_eq→eq k n e)) ∙ d.0 in
      ap₂ or_else (if-true (text_eq k n) _ _ e) (if-true (text_eq k n) _ _ e)
      ∙ here (is_tree m) (find_kind-none es n false gone)
      ∙ sym (if-true (text_eq k n) _ _ e)
  | inr e ↦
      ap₂ or_else (if-false (text_eq k n) _ _ e) (if-false (text_eq k n) _ _ e)
      ∙ find_kind-find es n d.2
      ∙ sym (if-false (text_eq k n) _ _ e)
]
  where
    here :
        (t : Bool)
        → find_kind es n false ≡ none
        → or_else
            (if t
              then (if false then some (m, o) else find_kind es n false)
              else (if false then find_kind es n false else some (m, o)))
            (if t
              then (if true then some (m, o) else find_kind es n true)
              else (if true then find_kind es n true else some (m, o)))
          ≡ some (m, o)
    here true q = rw q refl
    here false q = refl

-- Where the names differ, the search of a sorted tree finds what a scan finds.
pub lookup_entry-find :
    (bisect : Bisect) (es : Entries) (n : Text)
    → IsBisect bisect
    → Distincts es
    → lookup_entry bisect es n ≡ find es n
unfolding lookup_entry
lookup_entry-find bisect es n h d = elim (Bool-cases (canonically_sorted es)) [
  | inl e ↦ rw (e, h es n false e, h es n true e) (find_kind-find es n d)
  | inr e ↦ rw e refl
]
