-- ===== src/Sound/Empty.antt =====
-- What filters make of an empty tree.
use josh.Base.{
  Bool, true, false, not, ◌&&◌, ◌||◌, Option, none, some, List, [], ◌∷◌, ◌≡◌, refl, ap, ◌∙◌, Text,
  reverse, All?, All?-if, is_yes-true, if◌then◌else◌, subst, sym, ◌>>=◌,
}
use josh.FilePath.{FilePath, normal, root_dir, cur_dir, parent_dir}
use josh.Filter.Op.{
  Filter, Filters, nop, empty, fold, squash_none, squash_some, author, committer, message, prune,
  pin, rev, hook, embed, downstack, meta, insert, file, prefix, subdir, tree_id, object_deref,
  object_ref, export, compose, chain, subtract, exclude, select, nil, cons, unapply,
}
use josh.Opt.Invert.{invert}
use josh.Opt.Structure.{resurrects_from_empty, any_resurrects}
use josh.Tree.Object.{
  Mode, Obj, blob, tree, absent, nil as no_entries, is_gone, empty_id, zero_id, blob_mode,
  tree_mode, obj_eq, Obj-discrete, tree_entries, read_tree, find, find_kind,
}
use josh.Tree.Order.{Bisect, IsBisect, lookup_entry, canonically_sorted}
use josh.Tree.Lookup.{get_path_entry, descend_from, path_components}
use josh.Tree.Insert.{
  insert_oid, insert_reversed, replace_child, replace_in, drop_name, subtree_at, subtree_step,
  component_bytes, write_child, has_nul,
}
use josh.Tree.Subtract as Subtract
use josh.Tree.Intersect as Intersect
use josh.Tree.Overlay as Overlay
use josh.Apply.Run.{ok, lift}
use josh.Apply.Eval.{
  Env, link_file, apply_op, apply_seq, apply_each, compose_trees, apply_subdir, apply_file,
  apply_insert, apply_ref, apply_deref,
}
use josh.Apply.Meaning.{run, run-eq}
use josh.Apply.NoZero.{Always, Always-bind, Always-then, Always-elim, Always-lift}
use josh.Apply.Modelled.{IsKnown, AreKnown}

abbrev IsEmpty : Obj → Type 0
IsEmpty r = r ≡ empty_id

-- An empty tree has no entry at any path.
get_path_entry-empty : (p : FilePath) → get_path_entry empty_id p ≡ some none
unfolding get_path_entry read_tree find
get_path_entry-empty p = nothing (path_components p)
  where
    nothing : (ns : Option (List Text)) → descend_from (some (some no_entries)) ns ≡ some none
    nothing none = refl
    nothing (some []) = refl
    nothing (some (n ∷ ns)) = refl

lookup_entry-nil :
    (bisect : Bisect) → IsBisect bisect → (n : Text) → lookup_entry bisect no_entries n ≡ none
unfolding lookup_entry canonically_sorted find_kind
lookup_entry-nil bisect h n = rw (h no_entries n false refl, h no_entries n true refl)

module _ (bisect : Bisect) (is_bisect : IsBisect bisect) where
  pub subtree_at-empty : (p : FilePath) → subtree_at bisect empty_id p ≡ empty_id
  unfolding subtree_at subtree_step tree_entries
  subtree_at-empty [] = refl
  subtree_at-empty (c ∷ p) =
      rw (lookup_entry-nil bisect is_bisect (component_bytes c), subtree_step) (subtree_at-empty p)

  replace_child-gone :
      (n : Text) (o : Obj) (m : Mode) → is_gone o ≡ true → replace_child n o m empty_id ≡ empty_id
  unfolding replace_child tree_entries replace_in drop_name
  replace_child-gone n o m h = rw h

  write_child-gone :
      (n : Text) (o : Obj) (m : Mode)
      → is_gone o ≡ true
      → write_child n o m empty_id ≡ some empty_id
  unfolding write_child
  write_child-gone n o m h =
      ap (λ g. if not g && has_nul n then none else some (replace_child n o m empty_id)) h
      ∙ ap some (replace_child-gone n o m h)

  inserted-gone :
      (p : FilePath) (o : Obj) (m : Mode)
      → is_gone o ≡ true
      → All? IsEmpty (insert_reversed bisect empty_id p o m)
  unfolding insert_reversed
  inserted-gone [] o m h = tt
  inserted-gone (c ∷ []) o m h = rw (write_child-gone (component_bytes c) o m h) refl
  inserted-gone (normal n ∷ d ∷ p) o m h =
      subst (λ x. All? IsEmpty (x >>= λ sub. insert_reversed bisect empty_id (d ∷ p) sub tree_mode))
        (sym
          (ap (write_child n o m) (subtree_at-empty (reverse (d ∷ p))) ∙ write_child-gone n o m h))
        (inserted-gone (d ∷ p) empty_id tree_mode refl)
  inserted-gone (root_dir ∷ d ∷ p) o m h = tt
  inserted-gone (cur_dir ∷ d ∷ p) o m h = tt
  inserted-gone (parent_dir ∷ d ∷ p) o m h = tt

  insert_oid-gone :
      (p : FilePath) (o : Obj) (m : Mode)
      → is_gone o ≡ true
      → All? IsEmpty (insert_oid bisect empty_id p o m)
  unfolding insert_oid
  insert_oid-gone p o m h = inserted-gone (reverse p) o m h

  subtract-IsEmpty : (b : Obj) → All? IsEmpty (Subtract.subtract bisect empty_id b)
  unfolding Subtract.subtract
  subtract-IsEmpty (tree es) = All?-if IsEmpty (obj_eq empty_id (tree es)) _ _ refl refl
  subtract-IsEmpty (blob b) = All?-if IsEmpty (obj_eq empty_id (blob b)) _ _ refl refl
  subtract-IsEmpty (absent i) = All?-if IsEmpty (obj_eq empty_id (absent i)) _ _ refl refl

  intersect-IsEmpty : (b : Obj) → All? IsEmpty (Intersect.intersect bisect empty_id b)
  unfolding Intersect.intersect
  intersect-IsEmpty (tree es) = All?-if IsEmpty (obj_eq empty_id (tree es)) _ _ refl refl
  intersect-IsEmpty (blob b) = All?-if IsEmpty (obj_eq empty_id (blob b)) _ _ refl refl
  intersect-IsEmpty (absent i) = All?-if IsEmpty (obj_eq empty_id (absent i)) _ _ refl refl

  overlay-empty : Overlay.overlay bisect empty_id empty_id ≡ some empty_id
  unfolding Overlay.overlay
  overlay-empty = rw (is_yes-true (Obj-discrete empty_id empty_id) refl)

pub or-false : (a b : Bool) → (a || b) ≡ false → (a ≡ false) × (b ≡ false)
or-false false b h = (refl, h)
or-false true b h = absurd (cc)

false-true : false ≡ true → ⊥
false-true q = cc

-- Results that are all empty.
abbrev AllEmpty : List Obj → Type 0
AllEmpty [] = Unit
AllEmpty (u ∷ us) = IsEmpty u × AllEmpty us

module _ (env : Env) (is_bisect : IsBisect env.bisect) where
  gone-Empty :
      (p : FilePath) (o : Obj) (m : Mode)
      → is_gone o ≡ true
      → Always IsEmpty (apply_insert env p o m)
  unfolding apply_insert
  gone-Empty p o m h =
      Always-lift IsEmpty (insert_oid env.bisect empty_id p o m)
        (insert_oid-gone env.bisect is_bisect p o m h)

  each-Empty :
      (fs : Filters) (taken result : Obj) (us : List Obj)
      → IsEmpty result
      → AllEmpty us
      → Always IsEmpty (compose_trees env (run env) result taken fs us)
  unfolding compose_trees
  each-Empty nil taken result us e h = e
  each-Empty (cons f fs) taken result [] e h = e
  each-Empty (cons f fs) taken result (u ∷ us) e h = Always-then IsEmpty (lift (invert f)) _ λ i.
      Always-then IsEmpty (lift (invert i)) _ λ g. Always-then IsEmpty (run env g taken) _ λ x.
        Always-bind IsEmpty IsEmpty (lift (Subtract.subtract env.bisect u x)) _
          (Always-lift IsEmpty (Subtract.subtract env.bisect u x)
            (rw h.0 (subtract-IsEmpty env.bisect is_bisect x)))
          λ y hy. Always-then IsEmpty (lift (invert g)) _ λ b.
            Always-then IsEmpty (run env b u) _ λ z.
              Always-then IsEmpty (lift (Overlay.overlay env.bisect taken z)) _ λ v.
                Always-bind IsEmpty IsEmpty (lift (Overlay.overlay env.bisect y result)) _
                  (Always-lift IsEmpty (Overlay.overlay env.bisect y result)
                    (rw (hy, e, overlay-empty env.bisect is_bisect) refl))
                  λ w hw. each-Empty fs v w us hw h.1

  subtracted-Empty :
      (a b : Obj) → IsEmpty a → Always IsEmpty (lift (Subtract.subtract env.bisect a b))
  subtracted-Empty a b h = rw h (
      Always-lift IsEmpty (Subtract.subtract env.bisect empty_id b)
        (subtract-IsEmpty env.bisect is_bisect b))

  step-Empty :
      (f : Filter)
      → Always IsEmpty (apply_op env (run env) f empty_id)
      → Always IsEmpty (run env f empty_id)
  step-Empty f h = rw (run-eq env f empty_id) h

  file-Empty : (dest source : FilePath) → Always IsEmpty (apply_file env dest source empty_id)
  unfolding apply_file
  file-Empty dest source = rw (get_path_entry-empty source) (gone-Empty dest zero_id blob_mode refl)

  subdir-Empty : (p : FilePath) → IsEmpty (apply_subdir env p empty_id)
  unfolding apply_subdir
  subdir-Empty p = rw (get_path_entry-empty p)

  ref-Empty : (p : FilePath) → Always IsEmpty (apply_ref env p empty_id)
  unfolding apply_ref
  ref-Empty p = rw (get_path_entry-empty p) refl

  deref-Empty : (p : FilePath) → Always IsEmpty (apply_deref env p empty_id)
  unfolding apply_deref
  deref-Empty p = rw (get_path_entry-empty p) refl

  mutual
    unfolding resurrects_from_empty apply_op

    IsEmpty-Always :
        (f : Filter)
        → IsKnown false f
        → resurrects_from_empty f ≡ false
        → Always IsEmpty (run env f empty_id)
    IsEmpty-Always nop p h = step-Empty nop refl
    IsEmpty-Always empty p h = step-Empty empty refl
    IsEmpty-Always fold p h = step-Empty fold refl
    IsEmpty-Always squash_none p h = step-Empty squash_none refl
    IsEmpty-Always (author n e) p h = step-Empty (author n e) refl
    IsEmpty-Always (committer n e) p h = step-Empty (committer n e) refl
    IsEmpty-Always (squash_some refs) p h = step-Empty (squash_some refs) tt
    IsEmpty-Always (message m r) p h = step-Empty (message m r) refl
    IsEmpty-Always prune p h = step-Empty prune refl
    IsEmpty-Always export p h = step-Empty export (
        Always-lift IsEmpty (insert_oid env.bisect empty_id link_file zero_id blob_mode)
          (insert_oid-gone env.bisect is_bisect link_file zero_id blob_mode refl))
    IsEmpty-Always (rev arms) p h = step-Empty (rev arms) tt
    IsEmpty-Always (insert d c) p h = absurd (cc)
    IsEmpty-Always (file dest source) p h = step-Empty (file dest source) (file-Empty dest source)
    IsEmpty-Always (subdir d) p h = step-Empty (subdir d) (subdir-Empty d)
    IsEmpty-Always (prefix d) p h = step-Empty (prefix d) (gone-Empty d empty_id tree_mode refl)
    IsEmpty-Always (subtract a b) p h = step-Empty (subtract a b) (
        Always-bind IsEmpty IsEmpty (run env a empty_id) _ (IsEmpty-Always a p.0 h) λ af ha.
          Always-then IsEmpty (run env b empty_id) _ λ bf.
            Always-then IsEmpty (lift (invert b)) _ λ i.
              Always-then IsEmpty (run env i bf) _
                λ bu. Always-then IsEmpty (run env a bu) _ λ ba. subtracted-Empty af ba ha)
    IsEmpty-Always (exclude b) p h =
        step-Empty (exclude b)
          (Always-then IsEmpty (run env b empty_id) _ λ bf. subtracted-Empty empty_id bf refl)
    IsEmpty-Always (select b) p h = step-Empty (select b) (
        Always-then IsEmpty (run env b empty_id) _ λ bf.
          Always-lift IsEmpty (Intersect.intersect env.bisect empty_id bf)
            (intersect-IsEmpty env.bisect is_bisect bf))
    IsEmpty-Always (tree_id d f) p h = absurd (cc)
    IsEmpty-Always (object_ref d) p h = step-Empty (object_ref d) (ref-Empty d)
    IsEmpty-Always (object_deref d) p h = step-Empty (object_deref d) (deref-Empty d)
    IsEmpty-Always (compose fs) p h = step-Empty (compose fs) (
        Always-bind AllEmpty IsEmpty (apply_each env (run env) fs empty_id) _ (all-Empty fs p h)
          λ us hus. each-Empty fs empty_id empty_id us refl hus)
    IsEmpty-Always (chain fs) p h = step-Empty (chain fs) (chain-Empty fs p h)
    IsEmpty-Always (hook x) p h = step-Empty (hook x) tt
    IsEmpty-Always (embed d) p h = step-Empty (embed d) tt
    IsEmpty-Always (pin f) p h = step-Empty (pin f) refl
    IsEmpty-Always (downstack x) p h = step-Empty (downstack x) tt
    IsEmpty-Always (meta m f) p h = absurd (false-true p.0)
    IsEmpty-Always (unapply x f) p h = absurd p
    IsEmpty-Always _ p h = absurd p

    all-Empty :
        (fs : Filters)
        → AreKnown false fs
        → any_resurrects fs ≡ false
        → Always AllEmpty (apply_each env (run env) fs empty_id)
    all-Empty nil p h = tt
    all-Empty (cons f fs) p h =
        let alive = or-false (resurrects_from_empty f) (any_resurrects fs) h in
        Always-bind IsEmpty AllEmpty (run env f empty_id) _ (IsEmpty-Always f p.0 alive.0) λ u hu.
          Always-bind AllEmpty AllEmpty (apply_each env (run env) fs empty_id) _
            (all-Empty fs p.1 alive.1) λ us hus. (hu, hus)

    chain-Empty :
        (fs : Filters)
        → AreKnown false fs
        → any_resurrects fs ≡ false
        → Always IsEmpty (apply_seq env (run env) fs empty_id)
    chain-Empty nil p h = refl
    chain-Empty (cons f fs) p h =
        let alive = or-false (resurrects_from_empty f) (any_resurrects fs) h in
        Always-bind IsEmpty IsEmpty (run env f empty_id) _ (IsEmpty-Always f p.0 alive.0)
          λ u hu. rw hu (chain-Empty fs p.1 alive.1)

  -- If lookup is right, a filter of which resurrects_from_empty is false has, on the empty tree,
  -- the empty tree as its only result, if neither the filter nor any that it applies is a Meta or
  -- of a kind whose evaluation is not modelled: Paths, Adapt, Link, Unlink, RegexReplace, Index,
  -- Invert, Workspace, Stored, Starlark, Pattern and Unapply.
  pub run-Empty :
      (f : Filter) (r : Obj)
      → IsKnown false f
      → resurrects_from_empty f ≡ false
      → run env f empty_id ≡ ok r
      → r ≡ empty_id
  run-Empty f r p h e = Always-elim IsEmpty (run env f empty_id) (IsEmpty-Always f p h) e
