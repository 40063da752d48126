-- ===== src/Pattern/Leaves.antt =====
-- `remove_pred` in the abstract view: which blob lies at a path.
use josh.Base.{
  ℕ, Bool, true, false, not, ◌||◌, Option, none, some, List, [], ◌∷◌, Text, ◌≡◌, refl, sym, ap,
  subst, ◌∙◌, inl, inr, Bool-cases, if◌then◌else◌, if-true, if-false, is_yes→eq, text_eq,
  text_eq→eq,
}
use josh.Tree.Object.{
  Mode, tree_mode, commit_mode, file_mode, Obj, Obj-discrete, Entries, blob, tree, absent, nil,
  entry, obj_eq, empty_id, find,
}
use josh.Tree.Leaves.{leaf, child, Distinct, Distincts}
use josh.Persist.Utf8.{IsUtf8}
use josh.Pattern.Walk.{
  TreeRebuild, finish_tree, put_tree, put_blob, drop_entry, push_name, remove_pred, pred_entries,
}
use josh.Pattern.Equivalence.{full_path, or-middle}

-- Names in UTF-8, and objects of the kinds that the modes say.
abbrev mutual
  pub IsKinded : Obj → Type 0
  IsKinded (tree es) = AreKinded es
  IsKinded (blob s) = ⊥
  IsKinded (absent i) = ⊥

  pub AreKinded : Entries → Type 0
  AreKinded nil = Unit
  AreKinded (entry tree_mode k o es) = IsUtf8 k × IsKinded o × AreKinded es
  AreKinded (entry commit_mode k (absent i) es) = IsUtf8 k × AreKinded es
  AreKinded (entry commit_mode k _ es) = ⊥
  AreKinded (entry (file_mode m) k (blob s) es) = IsUtf8 k × AreKinded es
  AreKinded (entry (file_mode m) k _ es) = ⊥

-- What is kept where the first entry has another name, and where it has this name.
leaf-entry-other :
    (m : Mode) (k : Text) (o : Obj) (es : Entries) (n : Text) (ns : List Text)
    → text_eq k n ≡ false
    → leaf (tree (entry m k o es)) (n ∷ ns) ≡ leaf (tree es) (n ∷ ns)
unfolding leaf child find
leaf-entry-other m k o es n ns e = rw e refl

leaf-entry-same :
    (m : Mode) (k : Text) (o : Obj) (es : Entries) (n : Text) (ns : List Text)
    → text_eq k n ≡ true
    → leaf (tree (entry m k o es)) (n ∷ ns) ≡ leaf o ns
unfolding leaf child find
leaf-entry-same m k o es n ns e = rw e refl

leaf-none :
    (es : Entries) (n : Text) (ns : List Text) → find es n ≡ none → leaf (tree es) (n ∷ ns) ≡ none
unfolding leaf child
leaf-none es n ns e = rw e refl

leaf-empty : (s : Obj) (ns : List Text) → s ≡ empty_id → leaf s ns ≡ none
unfolding leaf child find
leaf-empty s [] e = rw e refl
leaf-empty s (n ∷ ns) e = rw e refl

leaf-absent : (i : ℕ) (ns : List Text) → leaf (absent i) ns ≡ none
unfolding leaf child
leaf-absent i [] = refl
leaf-absent i (n ∷ ns) = refl

both_false : (a b : Bool) → (not a || false || b) ≡ false → (a ≡ true) × (b ≡ false)
both_false true b h = (refl, h)
both_false false b h = absurd (cc)

if-same : (b : Bool) → ◌≡◌ {A = Option Text} (if b then none else none) none
if-same true = refl
if-same false = refl

module _ (pred : Text → Bool) where
  abbrev kept : Text → List Text → Option Text → Option Text
  kept path ns l = if pred (full_path path ns) then l else none

  -- The blobs that are kept.
  abbrev Keeps : Text → Entries → Entries → Type 0
  Keeps path es out =
      (n : Text) (ns : List Text)
      → leaf (tree out) (n ∷ ns) ≡ kept path (n ∷ ns) (leaf (tree es) (n ∷ ns))

  -- An entry before the others, of which `s`, if anything, is left.
  entry-Keeps :
      (path : Text) (m : Mode) (k : Text) (o : Obj) (es out : Entries) (s : Obj)
      → find es k ≡ none
      → Keeps path es out
      → ((ns : List Text) → leaf s ns ≡ kept path (k ∷ ns) (leaf o ns))
      → Keeps path (entry m k o es) (entry m k s out)
  entry-Keeps path m k o es out s fresh keeps here n ns = elim (Bool-cases (text_eq k n)) [
    | inl e ↦
        leaf-entry-same m k s out n ns e
        ∙ here ns
        ∙ subst (λ n. kept path (k ∷ ns) (leaf o ns) ≡ kept path (n ∷ ns) (leaf o ns))
            (text_eq→eq k n e) refl
        ∙ ap (kept path (n ∷ ns)) (sym (leaf-entry-same m k o es n ns e))
    | inr e ↦
        leaf-entry-other m k s out n ns e
        ∙ keeps n ns
        ∙ ap (kept path (n ∷ ns)) (sym (leaf-entry-other m k o es n ns e))
  ]

  -- An entry of which nothing is left.
  drop-Keeps :
      (path : Text) (m : Mode) (k : Text) (o : Obj) (es out : Entries)
      → find es k ≡ none
      → Keeps path es out
      → ((ns : List Text) → kept path (k ∷ ns) (leaf o ns) ≡ none)
      → Keeps path (entry m k o es) out
  drop-Keeps path m k o es out fresh keeps gone n ns = elim (Bool-cases (text_eq k n)) [
    | inl e ↦
        keeps n ns
        ∙ ap (kept path (n ∷ ns))
            (leaf-none es n ns (subst (λ n. find es n ≡ none) (text_eq→eq k n e) fresh))
        ∙ if-same (pred (full_path path (n ∷ ns)))
        ∙ sym (gone ns)
        ∙ subst (λ n. kept path (k ∷ ns) (leaf o ns) ≡ kept path (n ∷ ns) (leaf o ns))
            (text_eq→eq k n e) refl
        ∙ ap (kept path (n ∷ ns)) (sym (leaf-entry-same m k o es n ns e))
    | inr e ↦ keeps n ns ∙ ap (kept path (n ∷ ns)) (sym (leaf-entry-other m k o es n ns e))
  ]

  finish_tree-out :
      (es : Entries) (r : TreeRebuild)
      → (r.changed ≡ false → r.out ≡ es)
      → finish_tree (tree es) r ≡ tree r.out
  unfolding finish_tree
  finish_tree-out es r same = elim (Bool-cases r.changed) [
    | inl e ↦ if-true _ _ _ e
    | inr e ↦ if-false _ _ _ e ∙ ap tree (sym (same e))
  ]

  abbrev Rebuilt : Text → Entries → TreeRebuild → Type 0
  Rebuilt path es r = Keeps path es r.out × (r.changed ≡ false → r.out ≡ es)

  put_tree-Rebuilt :
      (path k : Text) (o s : Obj) (es : Entries) (r : TreeRebuild)
      → find es k ≡ none
      → Rebuilt path es r
      → ((ns : List Text) → leaf s ns ≡ kept path (k ∷ ns) (leaf o ns))
      → Rebuilt path (entry tree_mode k o es) (put_tree k o s r)
  unfolding put_tree
  put_tree-Rebuilt path k o s es r fresh (keeps, same) here =
      elim (Bool-cases (obj_eq s empty_id)) [
        | inl gone ↦ rw gone (
          drop-Keeps path tree_mode k o es r.out fresh keeps
              (λ ns. sym (here ns) ∙ leaf-empty s ns (is_yes→eq (Obj-discrete s empty_id) gone)),
          λ unchanged. cc (or-middle (not (obj_eq s o)) r.changed),
        )
        | inr there ↦ rw there (
          entry-Keeps path tree_mode k o es r.out s fresh keeps here,
          λ unchanged.
              let (equal, rest) = both_false (obj_eq s o) r.changed unchanged in
              cc (is_yes→eq (Obj-discrete s o) equal, same rest),
        )
      ]

  blob_kept :
      (path k t : Text)
      → pred (push_name path k) ≡ true
      → (ns : List Text) → leaf (blob t) ns ≡ kept path (k ∷ ns) (leaf (blob t) ns)
  unfolding leaf child
  blob_kept path k t e [] = rw e
  blob_kept path k t e (n ∷ ns) = sym (if-same _)

  blob_dropped :
      (path k t : Text)
      → pred (push_name path k) ≡ false
      → (ns : List Text) → kept path (k ∷ ns) (leaf (blob t) ns) ≡ none
  unfolding leaf child
  blob_dropped path k t e [] = rw e
  blob_dropped path k t e (n ∷ ns) = if-same _

  put_blob-Rebuilt :
      (path : Text) (m : Mode) (k t : Text) (es : Entries) (r : TreeRebuild)
      → find es k ≡ none
      → Rebuilt path es r
      → Rebuilt path (entry m k (blob t) es) (put_blob (pred (push_name path k)) m k (blob t) r)
  unfolding put_blob
  put_blob-Rebuilt path m k t es r fresh rebuilt = by_test (pred (push_name path k)) refl rebuilt
    where
      by_test :
          (b : Bool)
          → pred (push_name path k) ≡ b
          → Rebuilt path es r
          → Rebuilt path (entry m k (blob t) es) (put_blob b m k (blob t) r)
      by_test true e (keeps, same) = (
        entry-Keeps path m k (blob t) es r.out (blob t) fresh keeps (blob_kept path k t e),
        λ unchanged. ap (entry m k (blob t)) (same unchanged),
      )
      by_test false e (keeps, same) =
          (drop-Keeps path m k (blob t) es r.out fresh keeps (blob_dropped path k t e), λ h. cc)

  empty_kept : (path : Text) → Keeps path nil nil
  unfolding leaf child find
  empty_kept path n ns = sym (if-same _)

  leaves :
      (es out : Entries) (path : Text)
      → Keeps path es out
      → (ns : List Text) → leaf (tree out) ns ≡ kept path ns (leaf (tree es) ns)
  unfolding leaf
  leaves es out path keeps [] = sym (if-same _)
  leaves es out path keeps (n ∷ ns) = keeps n ns

  mutual
    unfolding remove_pred

    kept_tree :
        (o : Obj) (path : Text)
        → IsKinded o
        → Distinct o
        → (s : Obj) × (remove_pred pred path o ≡ some s)
          × ((ns : List Text) → leaf s ns ≡ kept path ns (leaf o ns))
    kept_tree (tree es) path h d =
        let (r, e, keeps, same) = kept_entries es path h d in
        (tree r.out, rw e (ap some (finish_tree-out es r same)), leaves es r.out path keeps)
    kept_tree (blob s) path h d = absurd h
    kept_tree (absent i) path h d = absurd h

    kept_entries :
        (es : Entries) (path : Text)
        → AreKinded es
        → Distincts es
        → (r : TreeRebuild) × (pred_entries pred path es ≡ some r)
          × Keeps path es r.out
          × (r.changed ≡ false → r.out ≡ es)
    kept_entries nil path h d =
        (record { out = nil; changed = false }, refl, empty_kept path, λ e. refl)
    kept_entries (entry tree_mode k o es) path (u, t, h) (fresh, d, ds) =
        let (s, e, here) = kept_tree o (push_name path k) t d in
        let (r, e', keeps, same) = kept_entries es path h ds in
        let (keeps', same') = put_tree-Rebuilt path k o s es r fresh (keeps, same) here in
        (put_tree k o s r, rw u (rw e (rw e' refl)), keeps', same')
    kept_entries (entry commit_mode k (absent i) es) path (u, h) (fresh, d, ds) =
        let (r, e, keeps, same) = kept_entries es path h ds in
        (
          drop_entry r,
          rw u (rw e refl),
          drop-Keeps path commit_mode k (absent i) es r.out fresh keeps
              (λ ns. ap (kept path (k ∷ ns)) (leaf-absent i ns) ∙ if-same _),
          λ e. absurd (cc),
        )
    kept_entries (entry (file_mode m) k (blob t) es) path (u, h) (fresh, d, ds) =
        let (r, e, keeps, same) = kept_entries es path h ds in
        let (keeps', same') = put_blob-Rebuilt path (file_mode m) k t es r fresh (keeps, same) in
        (
          put_blob (pred (push_name path k)) (file_mode m) k (blob t) r,
          rw u (rw e refl),
          keeps',
          same',
        )
    kept_entries (entry commit_mode k (blob s) es) path h d = absurd h
    kept_entries (entry commit_mode k (tree s) es) path h d = absurd h
    kept_entries (entry (file_mode m) k (tree s) es) path h d = absurd h
    kept_entries (entry (file_mode m) k (absent s) es) path h d = absurd h

-- On a tree of different names in UTF-8 whose modes fit its objects, remove_pred has a result,
-- whose blobs by path are those of the tree at the paths that the predicate accepts.
pub leaf-remove_pred :
    (pred : Text → Bool) (o : Obj)
    → IsKinded o
    → Distinct o
    → (r : Obj) × (remove_pred pred [] o ≡ some r)
      × ((ns : List Text) → leaf r ns ≡ (if pred (full_path [] ns) then leaf o ns else none))
leaf-remove_pred pred o h d = kept_tree pred o [] h d
