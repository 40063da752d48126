-- ===== src/Refs/Resolved.antt =====
-- Resolving takes away the names that the map has, and only those.
use josh.Base.{
  ℕ, Bool, true, false, ◌&&◌, ◌||◌, Bool-cases, inl, inr, Option, none, some, List, [], ◌∷◌, ◌++◌,
  ◌≡◌, refl, sym, ap, ap₂, ◌∙◌, Text, text_eq, text_eq→eq,
}
use josh.Filter.Op.{
  Filter, Filters, Arms, RefMap, LazyRef, resolved, lazy, meta, compose, chain, subtract, exclude,
  select, pin, rev, squash_some, downstack, nil, cons, no_arms, arm, no_refs, ref,
}
use josh.Refs.{
  tidy, name_of, arm_names, key_names, lazy_refs, lazy_refs_each, lazy_refs_arms, chosen,
  resolve_ref, resolve_keys, resolve_refs, resolve_refs_each, resolve_refs_arms, put_ref,
}
use josh.Refs.Names.{has, has-tidy, has-append, has-put_ref}

-- No `Meta` around the filter or around one that `resolve_refs` reaches in it.
abbrev mutual
  IsBare : Filter → Type 0
  IsBare (meta m f) = ⊥
  IsBare (compose fs) = AreBare fs
  IsBare (chain fs) = AreBare fs
  IsBare (exclude f) = IsBare f
  IsBare (select f) = IsBare f
  IsBare (pin f) = IsBare f
  IsBare (subtract a b) = IsBare a × IsBare b
  IsBare (rev arms) = AllBare arms
  IsBare _ = Unit

  AreBare : Filters → Type 0
  AreBare nil = Unit
  AreBare (cons f fs) = IsBare f × AreBare fs

  AllBare : Arms → Type 0
  AllBare no_arms = Unit
  AllBare (arm m r f rest) = IsBare f × AllBare rest

abbrev pub is_missing : Option ℕ → Bool
is_missing none = true
is_missing (some i) = false

and_or : (a b m : Bool) → ((a && m) || (b && m)) ≡ ((a || b) && m)
and_or true b true = refl
and_or true true false = refl
and_or true false false = refl
and_or false b m = refl

or_false : (b : Bool) → b ≡ (b || false)
or_false true = refl
or_false false = refl

or_rotate : (a b c : Bool) → ((a || b) || c) ≡ (b || (a || c))
or_rotate true true c = refl
or_rotate true false c = refl
or_rotate false b c = refl

module _ (refs : Text → Option ℕ) (s : Text) where
  abbrev kept : List Text → Bool
  kept ts = has s ts && is_missing (refs s)

  kept-both : (us vs : List Text) → (kept us || kept vs) ≡ kept (us ++ vs)
  kept-both us vs =
      and_or (has s us) (has s vs) (is_missing (refs s))
      ∙ ap (λ b. b && is_missing (refs s)) (sym (has-append s us vs))

  kept-append :
      (xs ys us vs : List Text)
      → has s xs ≡ kept us
      → has s ys ≡ kept vs
      → has s (xs ++ ys) ≡ kept (us ++ vs)
  kept-append xs ys us vs h k = has-append s xs ys ∙ ap₂ (λ a b. a || b) h k ∙ kept-both us vs

  kept-tidy : (xs us : List Text) → has s xs ≡ kept us → has s (tidy xs) ≡ kept (tidy us)
  kept-tidy xs us h = has-tidy s xs ∙ h ∙ ap (λ b. b && is_missing (refs s)) (sym (has-tidy s us))

  kept-chosen :
      (t : Text) (o : Option ℕ) → refs t ≡ o → has s (name_of (chosen t o)) ≡ kept (t ∷ [])
  unfolding has
  kept-chosen t (some i) e = elim (Bool-cases (text_eq s t)) [
    | inl same ↦ rw (same, ap refs (text_eq→eq s t same) ∙ e) refl
    | inr other ↦ rw other refl
  ]
  kept-chosen t none e = elim (Bool-cases (text_eq s t)) [
    | inl same ↦ rw (same, ap refs (text_eq→eq s t same) ∙ e) refl
    | inr other ↦ rw other refl
  ]

  kept-name : (r : LazyRef) → has s (name_of (resolve_ref refs r)) ≡ kept (name_of r)
  unfolding has
  kept-name (resolved i) = refl
  kept-name (lazy t) = kept-chosen t (refs t) refl

  kept-arms :
      (arms : Arms) → has s (arm_names (resolve_refs_arms refs arms)) ≡ kept (arm_names arms)
  unfolding arm_names resolve_refs has
  kept-arms no_arms = refl
  kept-arms (arm m r f rest) =
      kept-append (name_of (resolve_ref refs r)) (arm_names (resolve_refs_arms refs rest))
        (name_of r) (arm_names rest) (kept-name r) (kept-arms rest)

  kept-keys :
      (done todo : RefMap)
      → has s (key_names (resolve_keys refs done todo))
        ≡ (has s (key_names done) || kept (key_names todo))
  unfolding key_names resolve_keys has
  kept-keys done no_refs = or_false (has s (key_names done))
  kept-keys done (ref r f rest) =
      kept-keys (put_ref (resolve_ref refs r) f done) rest
      ∙ ap (λ b. b || kept (key_names rest))
          (has-put_ref s (resolve_ref refs r) f done
            ∙ ap (λ b. b || has s (key_names done)) (kept-name r))
      ∙ or_rotate (kept (name_of r)) (has s (key_names done)) (kept (key_names rest))
      ∙ ap (λ b. has s (key_names done) || b) (kept-both (name_of r) (key_names rest))

  mutual
    unfolding lazy_refs resolve_refs has

    filter_kept :
        (f : Filter) → IsBare f → has s (lazy_refs (resolve_refs refs f)) ≡ kept (lazy_refs f)
    filter_kept (meta m f) h = elim h [ ]
    filter_kept (compose fs) h = kept-tidy _ _ (each_kept fs h)
    filter_kept (chain fs) h = kept-tidy _ _ (each_kept fs h)
    filter_kept (exclude f) h = kept-tidy _ _ (filter_kept f h)
    filter_kept (select f) h = kept-tidy _ _ (filter_kept f h)
    filter_kept (pin f) h = kept-tidy _ _ (filter_kept f h)
    filter_kept (subtract a b) h =
        kept-tidy _ _ (kept-append _ _ _ _ (filter_kept a h.0) (filter_kept b h.1))
    filter_kept (rev arms) h =
        kept-tidy _ _
          (kept-tidy _ _ (kept-append _ _ _ _ (kept-tidy _ _ (arms_kept arms h)) (kept-arms arms)))
    filter_kept (squash_some m) h = kept-tidy _ _ (kept-keys no_refs m)
    filter_kept (downstack r) h = kept-tidy _ _ (kept-name r)
    filter_kept _ h = refl

    each_kept :
        (fs : Filters)
        → AreBare fs
        → has s (lazy_refs_each (resolve_refs_each refs fs)) ≡ kept (lazy_refs_each fs)
    each_kept nil h = refl
    each_kept (cons f fs) h = kept-append _ _ _ _ (filter_kept f h.0) (each_kept fs h.1)

    arms_kept :
        (arms : Arms)
        → AllBare arms
        → has s (lazy_refs_arms (resolve_refs_arms refs arms)) ≡ kept (lazy_refs_arms arms)
    arms_kept no_arms h = refl
    arms_kept (arm m r f rest) h = kept-append _ _ _ _ (filter_kept f h.0) (arms_kept rest h.1)

  -- For a filter in which resolve_refs reaches no Meta, a name is among the lazy refs of the
  -- resolved filter if and only if it is among those of the filter and the map has no object for
  -- it.
  pub lazy_refs-resolve_refs :
      (f : Filter)
      → IsBare f
      → has s (lazy_refs (resolve_refs refs f)) ≡ (has s (lazy_refs f) && is_missing (refs s))
  lazy_refs-resolve_refs f h = filter_kept f h
