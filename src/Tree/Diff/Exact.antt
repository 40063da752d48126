-- ===== src/Tree/Diff/Exact.antt =====
-- `diff_paths` returns the changed paths.
use mathlib.Core.List.{Memᴰ}
use josh.Base.{
  ℕ, zero, suc, Bool, true, false, Option, none, some, List, ◌≡◌, refl, ap, sym, ◌∙◌, subst, ◌↔◌,
  inl, inr, Bool-cases, ◌≤◌, arith, Text, text_eq, text_eq→eq, is_yes-true, if-true, if-false,
  is_yes→eq,
}
use josh.Tree.Object.{
  Mode, Obj, Obj-discrete, Entries, blob, tree, absent, nil, obj_eq, zero_id, find,
}
use josh.Tree.Order.{Bisect, IsBisect}
use josh.Tree.Leaves.{leaf, child, Distinct, find-Distinct}
use josh.Apply.Run.{ok}
use josh.Tree.Diff.{pos, negsuc, Change, Differ, entry_id, diff_kinds, diff_paths}
use josh.Tree.Diff.Changes.{
  change_of, change_at, has_blob, IsChange, entry_at, IsNamed, depth, depth_pos, find-depth,
  find-IsNamed,
}
use josh.Tree.Diff.Loops.{Returns}
use josh.Tree.Diff.Trees.{
  Exact, change_at-same, change_at-absent-first, change_at-absent-second, Returns-nothing,
  Returns-root, trees-Returns, added-Returns, removed-Returns,
}

-- Nothing counts below a blob.
change_of-under-first : (t : Option Text) (v : Bool) → change_of none t true v ≡ none
change_of-under-first none v = refl
change_of-under-first (some t) v = refl

change_of-under-second : (s : Option Text) (u : Bool) → change_of s none u true ≡ none
change_of-under-second none u = refl
change_of-under-second (some s) u = refl

other_text : (s t : Text) → obj_eq (blob s) (blob t) ≡ false → text_eq s t ≡ false
other_text s t ne = elim (Bool-cases (text_eq s t)) [
  | inl q ↦ absurd (
      true_false
        (sym (is_yes-true (Obj-discrete (blob s) (blob t)) (ap blob (text_eq→eq s t q))) ∙ ne))
  | inr q ↦ q
]
  where
    true_false : true ≡ false → ⊥
    true_false q = cc

-- What `diff_paths` relies on, and how much fuel the object takes.
abbrev Fits : ℕ → Obj → Type 0
Fits m o = Distinct o × IsNamed o × (depth o ≤ m)

find-Fits :
    (m : ℕ) (es : Entries) (n : Text) {e : Mode × Obj}
    → Fits (suc m) (tree es)
    → find es n ≡ some e
    → Fits m e.1
unfolding depth
find-Fits m es n (d, u, l) f =
    (find-Distinct es n d f, find-IsNamed es n u f, omega (arith, find-depth es n f))

zero-Fits : (m : ℕ) (o : Obj) → Fits m o → Fits m zero_id
unfolding depth
zero-Fits m o (d, u, l) = (tt, tt, omega (arith, depth_pos o))

entry_at-Fits :
    (m : ℕ) (es : Entries) (n : Text) (o : Obj)
    → Fits (suc m) (tree es)
    → Fits m o
    → Fits m (entry_at es n)
entry_at-Fits m es n o h k = by_find (find es n) refl
  where
    by_find : (x : Option (Mode × Obj)) → find es n ≡ x → Fits m (entry_id x)
    by_find none f = zero-Fits m o k
    by_find (some e) f = find-Fits m es n h f

module _ (bisect : Bisect) (is_bisect : IsBisect bisect) (differ : Differ) where
  -- Any two objects, if the calls for smaller ones are right.
  diff_kinds-Returns :
      (m : ℕ) (a b : Obj) (root : Text)
      → Fits (suc m) a
      → Fits (suc m) b
      → obj_eq a b ≡ false
      → ((x y : Obj) → Fits m x → Fits m y → Exact differ x y)
      → Returns (diff_kinds bisect differ a b root) (IsChange a b root)
  unfolding diff_kinds change_at leaf has_blob child depth
  diff_kinds-Returns m (blob s) (blob t) root fa fb ne h =
      Returns-root (blob s) (blob t) root (pos 0) (if-false (text_eq s t) _ _ (other_text s t ne))
        (λ n ns. refl)
  diff_kinds-Returns m (blob s) (tree es) root fa fb ne h =
      Returns-root (blob s) (tree es) root (negsuc 0) refl (λ n ns. change_of-under-first _ _)
  diff_kinds-Returns m (blob s) (absent i) root fa fb ne h =
      Returns-root (blob s) (absent i) root (negsuc 0) refl (λ n ns. refl)
  diff_kinds-Returns m (tree es) (blob t) root fa fb ne h =
      Returns-root (tree es) (blob t) root (pos 1) refl (λ n ns. change_of-under-second _ _)
  diff_kinds-Returns m (absent i) (blob t) root fa fb ne h =
      Returns-root (absent i) (blob t) root (pos 1) refl (λ n ns. refl)
  diff_kinds-Returns m (tree es1) (tree es2) root fa fb ne h =
      trees-Returns bisect is_bisect differ es1 es2 root fa.0 fb.0 fa.1 fb.1
        (λ n e f.
          let fe = find-Fits m es2 n fb f in
          h (entry_at es1 n) e.1 (entry_at-Fits m es1 n e.1 fa fe) fe)
        (λ n e f. let fe = find-Fits m es1 n fa f in h e.1 zero_id fe (zero-Fits m e.1 fe))
  diff_kinds-Returns m (absent i) (tree es) root fa fb ne h =
      added-Returns bisect is_bisect differ i es root fb.0 fb.1
        (λ n e f. let fe = find-Fits m es n fb f in h zero_id e.1 (zero-Fits m e.1 fe) fe)
  diff_kinds-Returns m (tree es) (absent i) root fa fb ne h =
      removed-Returns bisect is_bisect differ i es root fa.0 fa.1
        (λ n e f. let fe = find-Fits m es n fa f in h e.1 zero_id fe (zero-Fits m e.1 fe))
  diff_kinds-Returns m (absent i) (absent j) root fa fb ne h =
      Returns-nothing (absent i) (absent j) root (λ ns.
        change_at-absent-first i (absent j) ns
        ∙ change_at-absent-second (tree nil) j ns
        ∙ change_at-same (tree nil) ns)

-- If lookup is right, the names in each tree differ and are in UTF-8, and the trees are not nested
-- deeper than the fuel, then diff_paths has a result, which has a path with 0, -1 or 1 if and only
-- if it is the root path followed by names at which both trees have a blob with another content,
-- or only the first has one, or only the second, and no blob of the other tree is on the way.
pub diff_paths-IsChange :
    (bisect : Bisect) (fuel : ℕ) (a b : Obj) (root : Text)
    → IsBisect bisect
    → Distinct a
    → Distinct b
    → IsNamed a
    → IsNamed b
    → depth a ≤ fuel
    → depth b ≤ fuel
    → (r : List Change) × (diff_paths bisect fuel a b root ≡ ok r)
      × ((c : Change) → Memᴰ c r ↔ IsChange a b root c)
unfolding diff_paths
diff_paths-IsChange bisect zero a b root h da db ua ub la lb = absurd (omega (arith, depth_pos a))
diff_paths-IsChange bisect (suc m) a b root h da db ua ub la lb = elim (Bool-cases (obj_eq a b)) [
  | inl q ↦
      subst (λ x. Returns x (IsChange a b root)) (sym (if-true (obj_eq a b) _ _ q))
        (Returns-nothing a b root (λ ns.
          ap (λ x. change_at a x ns) (sym (is_yes→eq (Obj-discrete a b) q)) ∙ change_at-same a ns))
  | inr q ↦
      subst (λ x. Returns x (IsChange a b root)) (sym (if-false (obj_eq a b) _ _ q))
        (diff_kinds-Returns bisect h (diff_paths bisect m) m a b root (da, ua, la) (db, ub, lb) q
          (λ x y (dx, ux, lx) (dy, uy, ly) path.
            diff_paths-IsChange bisect m x y path h dx dy ux uy lx ly))
]
