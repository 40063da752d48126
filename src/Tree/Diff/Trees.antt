-- ===== src/Tree/Diff/Trees.antt =====
-- `diff_paths` where one of the objects is a tree: the results of the loops are the changes.
use mathlib.Core.List.{Memᴰ}
use mathlib.Core.List.Memᴰ
use josh.Base.{
  ℕ, Option, none, some, List, [], ◌∷◌, ◌++◌, ◌≡◌, refl, ap, ap₂, sym, ◌∙◌, some_inj, ◌↔◌, ◌⊎◌, inl,
  inr, Option-cases, Text, text_eq_refl,
}
use josh.Tree.Object.{Mode, Obj, Entries, tree, absent, nil, zero_id, find}
use josh.Tree.Order.{Bisect, IsBisect}
use josh.Tree.Leaves.{leaf, child, Distincts, lookup_entry-find}
use josh.Pattern.Walk.{push_name}
use josh.Apply.Run.{ok}
use josh.Tree.Diff.{
  ℤ, Change, Differ, entry_id, for_entries, changed_entry, removed_entry, if_missing, diff_kinds,
}
use josh.Tree.Diff.Changes.{change_at, change_at-tree, has_blob, IsChange, entry_at, AreNamed}
use josh.Tree.Diff.Loops.{Returns, Among, Returns-iff, Memᴰ-append, for_entries-Returns}

-- What `diff_paths` is to do with two objects.
abbrev pub Exact : Differ → Obj → Obj → Type 0
Exact differ a b = (root : Text) → Returns (differ a b root) (IsChange a b root)

-- No blob, no change.
pub change_at-same : (a : Obj) (ns : List Text) → change_at a a ns ≡ none
unfolding change_at
change_at-same a ns = elim (Option-cases (leaf a ns)) [
  | inl e ↦ rw e refl
  | inr (s, e) ↦ rw (e, text_eq_refl s) refl
]

none-some : {x : ℤ} → none ≡ some x → ⊥
none-some q = cc

pair_eq : {c d : Change} → c.0 ≡ d.0 → c.1 ≡ d.1 → c ≡ d
pair_eq p q = ap₂ (λ x y. (x, y)) p q

leaf_absent : (i : ℕ) (ns : List Text) → leaf (absent i) ns ≡ leaf (tree nil) ns
unfolding leaf child find
leaf_absent i [] = refl
leaf_absent i (n ∷ ns) = refl

has_blob_absent : (i : ℕ) (ns : List Text) → has_blob (absent i) ns ≡ has_blob (tree nil) ns
unfolding has_blob child find
has_blob_absent i [] = refl
has_blob_absent i (n ∷ ns) = refl

pub change_at-absent-first :
    (i : ℕ) (b : Obj) (ns : List Text) → change_at (absent i) b ns ≡ change_at (tree nil) b ns
unfolding change_at
change_at-absent-first i b ns = rw (leaf_absent i ns, has_blob_absent i ns) refl

pub change_at-absent-second :
    (a : Obj) (i : ℕ) (ns : List Text) → change_at a (absent i) ns ≡ change_at a (tree nil) ns
unfolding change_at
change_at-absent-second a i ns = rw (leaf_absent i ns, has_blob_absent i ns) refl

abbrev NoChange : Obj → Obj → Type 0
NoChange a b = (ns : List Text) → change_at a b ns ≡ none

pub Returns-nothing : (a b : Obj) (root : Text) → NoChange a b → Returns (ok []) (IsChange a b root)
Returns-nothing a b root h = (
  [],
  refl,
  λ c. (λ m. absurd (Memᴰ.not-nil m), λ (ns, p, q). absurd (none-some (sym (h ns) ∙ q))),
)

-- A change at the root alone.
pub Returns-root :
    (a b : Obj) (root : Text) (z : ℤ)
    → change_at a b [] ≡ some z
    → ((n : Text) (ns : List Text) → change_at a b (n ∷ ns) ≡ none)
    → Returns (ok ((root, z) ∷ [])) (IsChange a b root)
Returns-root a b root z h k =
    ((root, z) ∷ [], refl, λ c. (λ m. to c (Memᴰ.cases_cons m), λ p. Memᴰ.head (from c p)))
  where
    to : (c : Change) → (c ≡ (root, z)) ⊎ Memᴰ c [] → IsChange a b root c
    to c (inl e) = ([], ap (λ x. x.0) e, h ∙ ap some (sym (ap (λ x. x.1) e)))
    to c (inr m) = absurd (Memᴰ.not-nil m)

    from : (c : Change) → IsChange a b root c → c ≡ (root, z)
    from c ([], p, q) = pair_eq p (some_inj (sym q ∙ h))
    from c (n ∷ ns, p, q) = absurd (none-some (sym (k n ns) ∙ q))

module _ (es1 es2 : Entries) where
  change_at-found :
      (n : Text) (ns : List Text) {x y : Option (Mode × Obj)}
      → find es1 n ≡ x
      → find es2 n ≡ y
      → change_at (tree es1) (tree es2) (n ∷ ns) ≡ change_at (entry_id x) (entry_id y) ns
  change_at-found n ns f g =
      change_at-tree es1 es2 n ns ∙ ap₂ (λ x y. change_at (entry_id x) (entry_id y) ns) f g

  -- What the loop over the second tree finds, and what the loop over the first tree finds.
  abbrev InSecond : Text → Text → Obj → Change → Type 0
  InSecond root n o c = IsChange (entry_at es1 n) o (push_name root n) c

  abbrev InFirst : Text → Text → Obj → Change → Type 0
  InFirst root n o c = (find es2 n ≡ none) × IsChange o zero_id (push_name root n) c

  change_at-root : change_at (tree es1) (tree es2) [] ≡ none
  unfolding change_at leaf
  change_at-root = refl

  IsChange-trees :
      (root : Text) (c : Change)
      → (Among (InSecond root) es2 c ⊎ Among (InFirst root) es1 c)
        ↔ IsChange (tree es1) (tree es2) root c
  IsChange-trees root c = (to, from)
    where
      to :
          Among (InSecond root) es2 c ⊎ Among (InFirst root) es1 c
          → IsChange (tree es1) (tree es2) root c
      to (inl (n, e, f, (ns, p, q))) = (n ∷ ns, p, change_at-found n ns refl f ∙ q)
      to (inr (n, e, f, (g, (ns, p, q)))) = (n ∷ ns, p, change_at-found n ns f g ∙ q)

      from :
          IsChange (tree es1) (tree es2) root c
          → Among (InSecond root) es2 c ⊎ Among (InFirst root) es1 c
      from ([], p, q) = absurd (none-some (sym change_at-root ∙ q))
      from (n ∷ ns, p, q) = elim (Option-cases (find es2 n)) [
        | inr (e, f) ↦ inl (n, e, f, (ns, p, sym (change_at-found n ns refl f) ∙ q))
        | inl g ↦ elim (Option-cases (find es1 n)) [
          | inr (e, f) ↦ inr (n, e, f, (g, (ns, p, sym (change_at-found n ns f g) ∙ q)))
          | inl f ↦
              absurd
                (none-some (sym (change_at-same zero_id ns) ∙ sym (change_at-found n ns f g) ∙ q))
        ]
      ]

module _ (bisect : Bisect) (is_bisect : IsBisect bisect) (differ : Differ) where
  second-Returns :
      (es1 es2 : Entries) (root : Text)
      → Distincts es1
      → Distincts es2
      → AreNamed es2
      → ((n : Text) (e : Mode × Obj) → find es2 n ≡ some e → Exact differ (entry_at es1 n) e.1)
      → Returns
          (for_entries (changed_entry bisect differ es1) root es2)
          (Among (InSecond es1 es2 root) es2)
  second-Returns es1 es2 root d1 d2 u2 h =
      for_entries-Returns (changed_entry bisect differ es1) (InSecond es1 es2 root) root es2 u2 d2
        (λ n e f. rw (lookup_entry-find bisect es1 n is_bisect d1) (h n e f (push_name root n)))

  first-Returns :
      (es1 es2 : Entries) (root : Text)
      → Distincts es1
      → Distincts es2
      → AreNamed es1
      → ((n : Text) (e : Mode × Obj) → find es1 n ≡ some e → Exact differ e.1 zero_id)
      → Returns
          (for_entries (removed_entry bisect differ es2) root es1)
          (Among (InFirst es1 es2 root) es1)
  first-Returns es1 es2 root d1 d2 u1 h =
      for_entries-Returns (removed_entry bisect differ es2) (InFirst es1 es2 root) root es1 u1 d1
        (λ n e f. by_lookup n e f (find es2 n) refl)
    where
      missing :
          (n : Text) (e : Mode × Obj) {x : Option (Mode × Obj)}
          → find es2 n ≡ x
          → removed_entry bisect differ es2 n e.1 (push_name root n)
            ≡ if_missing differ e.1 (push_name root n) x
      missing n e g =
          ap (if_missing differ e.1 (push_name root n))
            (lookup_entry-find bisect es2 n is_bisect d2 ∙ g)

      by_lookup :
          (n : Text) (e : Mode × Obj)
          → find es1 n ≡ some e
          → (x : Option (Mode × Obj)) → find es2 n ≡ x
          → Returns
              (removed_entry bisect differ es2 n e.1 (push_name root n))
              (InFirst es1 es2 root n e.1)
      by_lookup n e f none g =
          let (r, q, k) = h n e f (push_name root n) in
          (r, missing n e g ∙ q, λ c. (λ m. (g, (k c).0 m), λ (g', p). (k c).1 p))
      by_lookup n e f (some x) g =
          ([], missing n e g, λ c. (λ m. absurd (Memᴰ.not-nil m), λ (g', p). absurd (cc)))

  -- The four cases in which there is a tree.
  pub trees-Returns :
      (es1 es2 : Entries) (root : Text)
      → Distincts es1
      → Distincts es2
      → AreNamed es1
      → AreNamed es2
      → ((n : Text) (e : Mode × Obj) → find es2 n ≡ some e → Exact differ (entry_at es1 n) e.1)
      → ((n : Text) (e : Mode × Obj) → find es1 n ≡ some e → Exact differ e.1 zero_id)
      → Returns
          (diff_kinds bisect differ (tree es1) (tree es2) root)
          (IsChange (tree es1) (tree es2) root)
  unfolding diff_kinds
  trees-Returns es1 es2 root d1 d2 u1 u2 h k =
      let (r, e, here) = second-Returns es1 es2 root d1 d2 u2 h in
      let (s, e', later) = first-Returns es1 es2 root d1 d2 u1 k in
      (
        r ++ s,
        rw (e, e') refl,
        λ c.
            let (to, from) = Memᴰ-append c (here c) (later c) in
            let (to', from') = IsChange-trees es1 es2 root c in
            (λ m. to' (to m), λ p. from (from' p)),
      )

  -- No object is like an empty tree.
  pub added-Returns :
      (i : ℕ) (es : Entries) (root : Text)
      → Distincts es
      → AreNamed es
      → ((n : Text) (e : Mode × Obj) → find es n ≡ some e → Exact differ zero_id e.1)
      → Returns
          (diff_kinds bisect differ (absent i) (tree es) root)
          (IsChange (absent i) (tree es) root)
  unfolding diff_kinds find
  added-Returns i es root d u h =
      Returns-iff (Among (InSecond nil es root) es) _
        (for_entries-Returns (λ k o path. differ zero_id o path) (InSecond nil es root) root es u d
          (λ n e f. h n e f (push_name root n)))
        (λ c. (λ x. to c ((IsChange-trees nil es root c).0 (inl x)), λ p. from c p))
    where
      to :
          (c : Change) → IsChange (tree nil) (tree es) root c → IsChange (absent i) (tree es) root c
      to c (ns, p, q) = (ns, p, change_at-absent-first i (tree es) ns ∙ q)

      from : (c : Change) → IsChange (absent i) (tree es) root c → Among (InSecond nil es root) es c
      from c (ns, p, q) =
          elim ((IsChange-trees nil es root c).1
            (ns, p, sym (change_at-absent-first i (tree es) ns) ∙ q)) [
              | inl x ↦ x
              | inr (n, e, f, y) ↦ absurd (cc)
            ]

  pub removed-Returns :
      (i : ℕ) (es : Entries) (root : Text)
      → Distincts es
      → AreNamed es
      → ((n : Text) (e : Mode × Obj) → find es n ≡ some e → Exact differ e.1 zero_id)
      → Returns
          (diff_kinds bisect differ (tree es) (absent i) root)
          (IsChange (tree es) (absent i) root)
  unfolding diff_kinds find
  removed-Returns i es root d u h =
      Returns-iff (Among (InFirst es nil root) es) _
        (for_entries-Returns (λ k o path. differ o zero_id path) (InFirst es nil root) root es u d
          (λ n e f.
            let (r, q, k) = h n e f (push_name root n) in
            (r, q, λ c. (λ m. (refl, (k c).0 m), λ (g, p). (k c).1 p))))
        (λ c. (λ x. to c ((IsChange-trees es nil root c).0 (inr x)), λ p. from c p))
    where
      to :
          (c : Change) → IsChange (tree es) (tree nil) root c → IsChange (tree es) (absent i) root c
      to c (ns, p, q) = (ns, p, change_at-absent-second (tree es) i ns ∙ q)

      from : (c : Change) → IsChange (tree es) (absent i) root c → Among (InFirst es nil root) es c
      from c (ns, p, q) =
          elim ((IsChange-trees es nil root c).1
            (ns, p, sym (change_at-absent-second (tree es) i ns) ∙ q)) [
              | inl (n, e, f, y) ↦ absurd (cc)
              | inr x ↦ x
            ]
