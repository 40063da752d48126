-- ===== src/Persist/Ids.antt =====
-- The persisted id of a filter, as `build_persist` finds it, and its persisted tree.
use josh.Base.{
  Bool, true, false, not, Option, none, some, Option-cases, ◌>>=◌, if◌then◌else◌, ◌≡◌, refl, sym,
  ap, ◌∙◌, inl, inr, some_inj, is_yes→eq,
}
use josh.Filter.Op.{
  Filter, Filters, Arms, RefMap, oid, inline, meta, squash_some, rev, insert, starlark, tree_id,
  unapply, compose, chain, subtract, exclude, select, pin, nil, cons, no_arms, arm, no_refs, ref,
}
use josh.Tree.Object.{Obj, Obj-discrete, obj_eq}
use josh.Persist.RefText.{Codec}
use josh.Persist.Write.{build_op, build_all, build_arms, build_refs}
use josh.Persist.Build.{
  dirty_or, settle, dirty, build_persist, any_dirty, any_dirty_arm, any_dirty_ref,
}
use josh.Persist.Errors.{built, has}

-- The test fails only where the first fails, and says no only where both are the same.
abbrev Tracks : {A : Type 0} → Option Bool → Option A → Option A → Type 0
Tracks d x y = (d ≡ none → x ≡ none) × (d ≡ some false → x ≡ y)

Tracks-then :
    {A B : Type 0} (d : Option Bool) (x y : Option A) (k : A → Option B)
    → Tracks d x y
    → Tracks d (x >>= k) (y >>= k)
Tracks-then d x y k (h, same) = (λ e. rw (h e) refl, λ e. rw (same e) refl)

Tracks-both :
    {A B C : Type 0} (d e : Option Bool) (x y : Option A) (x' y' : Option B) (k : A → B → Option C)
    → Tracks d x y
    → Tracks e x' y'
    → Tracks (dirty_or d e) (x >>= λ a. x' >>= λ b. k a b) (y >>= λ a. y' >>= λ b. k a b)
Tracks-both none e x y x' y' k (h, s) t = (λ q. rw (h refl) refl, λ q. absurd (cc))
Tracks-both (some d) none x y x' y' k s (h, t) =
    (λ q. rw (h refl) (nothing x refl), λ q. absurd (cc))
  where
    nothing : {A B : Type 0} (o : Option A) {n : Option B} → n ≡ none → (o >>= λ a. n) ≡ none
    nothing none e = refl
    nothing (some a) e = e
Tracks-both (some false) (some false) x y x' y' k (h, s) (h', s') =
    (λ q. absurd (cc), λ q. rw (s refl) (rw (s' refl) refl))
Tracks-both (some true) (some e) x y x' y' k s t = (λ q. absurd (cc), λ q. absurd (cc))
Tracks-both (some false) (some true) x y x' y' k s t = (λ q. absurd (cc), λ q. absurd (cc))

not-false : (b : Bool) → not b ≡ false → b ≡ true
not-false true h = refl
not-false false h = absurd (cc)

module _ (c : Codec) (exists : Obj → Bool) where
  -- A filter that has a persisted tree has an id.
  differs-Tracks :
      (f : Filter)
      → Tracks (dirty c exists f (build_op c true f)) (build_op c true f) (build_op c false f)
  differs-Tracks f = elim (Option-cases (build_op c true f)) [
    | inl e ↦ (λ q. e, λ q. absurd (let wrong = ap (λ o. dirty c exists f o) (sym e) ∙ q in cc))
    | inr (o, e) ↦ elim (Option-cases (build_op c false f)) [
      | inl e' ↦ absurd (built c false f (has c f o e) e')
      | inr (i, e') ↦ (
        λ q. absurd (let wrong = sym (both f o i e e') ∙ q in cc),
        λ q.
            e
            ∙ ap some
                (is_yes→eq (Obj-discrete o i) (not-false _ (some_inj (sym (both f o i e e') ∙ q))))
            ∙ sym e',
      )
    ]
  ]
    where
      both :
          (f : Filter) (o i : Obj)
          → build_op c true f ≡ some o
          → build_op c false f ≡ some i
          → dirty c exists f (build_op c true f) ≡ some (not (obj_eq o i))
      both f o i e e' = rw e (rw e' refl)

  dirty-Tracks :
      (f : Filter)
      → build_persist c exists f ≡ build_op c true f
      → Tracks
          (dirty c exists f (build_persist c exists f))
          (build_op c true f)
          (build_op c false f)
  dirty-Tracks f e = rw e (differs-Tracks f)

  settled :
      (d : Option Bool) (f : Filter)
      → Tracks d (build_op c true f) (build_op c false f)
      → settle c exists d f ≡ build_op c true f
  settled none f (h, same) = sym (h refl)
  settled (some true) f h = refl
  settled (some false) f (h, same) = rw (same refl) (clean (build_op c false f))
    where
      clean : (o : Option Obj) → (o >>= λ i. (if exists i then some i else o) >>= λ b. some i) ≡ o
      clean none = refl
      clean (some i) = chosen i (exists i)
        where
          chosen : (i : Obj) (b : Bool) → ((if b then some i else some i) >>= λ b. some i) ≡ some i
          chosen i true = refl
          chosen i false = refl

  settled_over :
      {A : Type 0} (d : Option Bool) (f : Filter) (x y : Option A) (k : A → Option Obj)
      → build_op c true f ≡ (x >>= k)
      → build_op c false f ≡ (y >>= k)
      → Tracks d x y
      → settle c exists d f ≡ build_op c true f
  settled_over d f x y k e e' h = settled d f (rw (e, e') (Tracks-then d x y k h))

  mutual
    unfolding build_persist any_dirty any_dirty_arm any_dirty_ref build_op build_all build_arms
        build_refs

    persisted : (f : Filter) → build_persist c exists f ≡ build_op c true f
    persisted (insert p (oid i)) = refl
    persisted (insert p (inline s)) =
        settled (some false) (insert p (inline s)) (λ q. absurd (cc), λ q. refl)
    persisted (meta m f) = settled_over _ (meta m f) _ _ _ refl refl (dirty-Tracks f (persisted f))
    persisted (exclude f) =
        settled_over _ (exclude f) _ _ _ refl refl (dirty-Tracks f (persisted f))
    persisted (select f) = settled_over _ (select f) _ _ _ refl refl (dirty-Tracks f (persisted f))
    persisted (pin f) = settled_over _ (pin f) _ _ _ refl refl (dirty-Tracks f (persisted f))
    persisted (starlark p f) =
        settled_over _ (starlark p f) _ _ _ refl refl (dirty-Tracks f (persisted f))
    persisted (tree_id p f) =
        settled_over _ (tree_id p f) _ _ _ refl refl (dirty-Tracks f (persisted f))
    persisted (unapply r f) =
        settled_over _ (unapply r f) _ _ _ refl refl (dirty-Tracks f (persisted f))
    persisted (subtract f g) =
        settled _ (subtract f g)
          (Tracks-both _ _ _ _ _ _ _ (dirty-Tracks f (persisted f)) (dirty-Tracks g (persisted g)))
    persisted (compose fs) = settled_over _ (compose fs) _ _ _ refl refl (persisted_all fs)
    persisted (chain fs) = settled_over _ (chain fs) _ _ _ refl refl (persisted_all fs)
    persisted (rev arms) = settled_over _ (rev arms) _ _ _ refl refl (persisted_arms arms)
    persisted (squash_some refs) =
        settled_over _ (squash_some refs) _ _ _ refl refl (persisted_refs refs)
    persisted f = settled (some false) f (λ q. absurd (cc), λ q. refl)

    persisted_all :
        (fs : Filters) → Tracks (any_dirty c exists fs) (build_all c true fs) (build_all c false fs)
    persisted_all nil = (λ q. absurd (cc), λ q. refl)
    persisted_all (cons f fs) =
        Tracks-both _ _ _ _ _ _ _ (dirty-Tracks f (persisted f)) (persisted_all fs)

    persisted_arms :
        (arms : Arms)
        → Tracks (any_dirty_arm c exists arms) (build_arms c true arms) (build_arms c false arms)
    persisted_arms no_arms = (λ q. absurd (cc), λ q. refl)
    persisted_arms (arm m r f arms) =
        Tracks-both _ _ _ _ _ _ _ (dirty-Tracks f (persisted f)) (persisted_arms arms)

    persisted_refs :
        (refs : RefMap)
        → Tracks (any_dirty_ref c exists refs) (build_refs c true refs) (build_refs c false refs)
    persisted_refs no_refs = (λ q. absurd (cc), λ q. refl)
    persisted_refs (ref r f refs) =
        Tracks-both _ _ _ _ _ _ _ (dirty-Tracks f (persisted f)) (persisted_refs refs)

  -- For every filter, whichever objects the repository has, build_persist, which takes the tree of
  -- Filter::id wherever it finds that no child is persisted as another tree, has the result of
  -- build_op with an object source for the filter and all its parts, errors included.
  pub build_persist-build_op : (f : Filter) → build_persist c exists f ≡ build_op c true f
  build_persist-build_op f = persisted f
