-- ===== src/Tree/Diff/Changes.antt =====
-- The abstract view of `diff_paths`: what happens to the blob at a path from one tree to the other.
use Prim.Native.Nat.{max}
use josh.Base.{
  ℕ, suc, Bool, true, false, Option, none, some, List, [], ◌∷◌, ◌≡◌, refl, ap, sym, ◌∙◌, subst,
  some_inj, inl, inr, Bool-cases, ◌≤◌, ◌<◌, arith, Text, text_eq, if◌then◌else◌, if-true, if-false,
}
use josh.Tree.Object.{Mode, Obj, Entries, blob, tree, absent, nil, entry, zero_id, find}
use josh.Tree.Leaves.{leaf, leaf_of, child, entry_object}
use josh.Persist.Utf8.{IsUtf8}
use josh.Pattern.Equivalence.{full_path}
use josh.Tree.Diff.{ℤ, pos, negsuc, Change, entry_id}

abbrev bit_of : Option Obj → (Obj → Bool) → Bool
bit_of none f = false
bit_of (some c) f = f c

-- There is a blob at the path or on the way to it.
unfoldable pub has_blob : Obj → List Text → Bool
unfolding child
has_blob (blob s) ns = true
has_blob o [] = false
has_blob o (n ∷ ns) = bit_of (child o n) (λ c. has_blob c ns)

-- The change by the blobs at a path, and whether the other side has a blob there or on the way.
abbrev pub change_of : Option Text → Option Text → Bool → Bool → Option ℤ
change_of (some s) (some t) u v = if text_eq s t then none else some (pos 0)
change_of (some s) none u v = if v then none else some (negsuc 0)
change_of none (some t) u v = if u then none else some (pos 1)
change_of none none u v = none

-- 0 for a blob in both trees with another content, -1 for a blob in the first tree alone and 1 for
-- one in the second tree alone; what lies below a blob of the other tree does not count.
unfoldable pub change_at : Obj → Obj → List Text → Option ℤ
unfolding leaf has_blob
change_at a b ns = change_of (leaf a ns) (leaf b ns) (has_blob a ns) (has_blob b ns)

-- A path behind `root`, with what `change_at` says of it.
abbrev pub IsChange : Obj → Obj → Text → Change → Type 0
IsChange a b root c = (ns : List Text) × (c.0 ≡ full_path root ns) × (change_at a b ns ≡ some c.1)

-- The objects of a name, with the zero id where there is none.
abbrev pub entry_at : Entries → Text → Obj
entry_at es n = entry_id (find es n)

abbrev pub entries_of : Obj → Entries
entries_of (tree es) = es
entries_of _ = nil

-- Names in UTF-8.
abbrev mutual
  pub IsNamed : Obj → Type 0
  IsNamed (tree es) = AreNamed es
  IsNamed _ = Unit

  pub AreNamed : Entries → Type 0
  AreNamed nil = Unit
  AreNamed (entry m k o es) = IsUtf8 k × IsNamed o × AreNamed es

-- How deep trees are nested.
unfoldable mutual
  pub depth : Obj → ℕ
  depth (tree es) = suc (depth_all es)
  depth _ = 1

  pub depth_all : Entries → ℕ
  depth_all nil = 0
  depth_all (entry m k o es) = max (depth o) (depth_all es)

pub depth_pos : (o : Obj) → 0 < depth o
unfolding depth
depth_pos (tree es) = omega arith
depth_pos (blob s) = omega arith
depth_pos (absent i) = omega arith

pub find-depth :
    (es : Entries) (n : Text) {e : Mode × Obj} → find es n ≡ some e → depth e.1 ≤ depth_all es
unfolding find depth
find-depth nil n h = absurd (cc)
find-depth (entry m k o es) n h = elim (Bool-cases (text_eq k n)) [
  | inl q ↦
      let e = ap (λ x. depth x.1) (some_inj (sym (if-true (text_eq k n) _ _ q) ∙ h)) in
      omega (arith, e)
  | inr q ↦ omega (arith, find-depth es n (sym (if-false (text_eq k n) _ _ q) ∙ h))
]

pub find-IsNamed :
    (es : Entries) (n : Text) {e : Mode × Obj} → AreNamed es → find es n ≡ some e → IsNamed e.1
unfolding find
find-IsNamed nil n d h = absurd (cc)
find-IsNamed (entry m k o es) n (u, d, ds) h = elim (Bool-cases (text_eq k n)) [
  | inl q ↦ subst (λ x. IsNamed x.1) (some_inj (sym (if-true (text_eq k n) _ _ q) ∙ h)) d
  | inr q ↦ find-IsNamed es n ds (sym (if-false (text_eq k n) _ _ q) ∙ h)
]

leaf_zero : (ns : List Text) → leaf zero_id ns ≡ none
unfolding leaf child
leaf_zero [] = refl
leaf_zero (n ∷ ns) = refl

has_blob_zero : (ns : List Text) → has_blob zero_id ns ≡ false
unfolding has_blob child
has_blob_zero [] = refl
has_blob_zero (n ∷ ns) = refl

leaf-find :
    (x : Option (Mode × Obj)) (ns : List Text)
    → leaf_of (entry_object x) (λ c. leaf c ns) ≡ leaf (entry_id x) ns
leaf-find none ns = sym (leaf_zero ns)
leaf-find (some e) ns = refl

has_blob-find :
    (x : Option (Mode × Obj)) (ns : List Text)
    → bit_of (entry_object x) (λ c. has_blob c ns) ≡ has_blob (entry_id x) ns
has_blob-find none ns = sym (has_blob_zero ns)
has_blob-find (some e) ns = refl

change_of-cong :
    {s s' t t' : Option Text} {u u' v v' : Bool}
    → s ≡ s'
    → t ≡ t'
    → u ≡ u'
    → v ≡ v'
    → change_of s t u v ≡ change_of s' t' u' v'
change_of-cong p q r s = cc

-- Below two trees, a change is one of the objects of the first name.
pub change_at-tree :
    (es1 es2 : Entries) (n : Text) (ns : List Text)
    → change_at (tree es1) (tree es2) (n ∷ ns) ≡ change_at (entry_at es1 n) (entry_at es2 n) ns
unfolding change_at leaf child has_blob
change_at-tree es1 es2 n ns =
    change_of-cong (leaf-find (find es1 n) ns) (leaf-find (find es2 n) ns)
      (has_blob-find (find es1 n) ns) (has_blob-find (find es2 n) ns)
