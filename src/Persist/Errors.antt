-- ===== src/Persist/Errors.antt =====
-- Where the persisted form has no filter, and where a filter has no persisted form.
use josh.Base.{
  ℕ, suc, Bool, true, false, Option, none, some, List, ◌≡◌, ◌≢◌, ◌⊎◌, ◌↔◌, inl, inr, refl, some_inj,
  ◌>>=◌, >>=-eq-some, Option-cases,
}
use josh.FilePath.{FilePath}
use josh.Filter.Op.{
  Filter, Filters, Arms, RefMap, inline, oid, meta, squash_some, rev, insert, starlark, tree_id,
  unapply, compose, chain, subtract, exclude, select, pin, nil, cons, no_arms, arm, no_refs, ref,
}
use josh.Tree.Object.{Obj, blob, tree, absent}
use josh.Apply.Run as Run
use josh.Apply.Run.{Run, ok, failed, lift}
use josh.Persist.Utf8.{bytes, from_utf8}
use josh.Persist.Writable.{IsThere, IsWritable, AreWritable, ArmsWritable, RefsWritable}
use josh.Persist.RefText.{Codec}
use josh.Persist.Write.{
  build_op, build_all, build_arms, build_refs, tree_op, starlark_params, insert_mode, lossy_path,
  write_meta-some, write_meta-ne-none,
}
use josh.Persist.Read.{from_tree}

lift-failed :
    {A : Type 0} (o : Option A) (rest : A → Run Filter)
    → ((a : A) → rest a ≡ failed)
    → Run.◌>>=◌ (lift o) rest ≡ failed
lift-failed none rest h = refl
lift-failed (some a) rest h = h a

>>=-ne-none :
    {A B : Type 0} (o : Option A) (rest : A → Option B)
    → o ≢ none
    → ((a : A) → rest a ≢ none)
    → (o >>= rest) ≢ none
>>=-ne-none none rest h k = absurd (h refl)
>>=-ne-none (some a) rest h k = k a

insert_mode-IsThere : (o : Obj) → IsThere o ↔ (insert_mode o ≢ none)
unfolding insert_mode
insert_mode-IsThere (blob s) = (λ h e. cc, λ h. tt)
insert_mode-IsThere (tree es) = (λ h e. cc, λ h. tt)
insert_mode-IsThere (absent i) = (λ h. absurd h, λ h. h refl)

module _ (c : Codec) where
  starlark_fails :
      (fuel : ℕ) (p : FilePath) (child : Obj)
      → (from_tree c (suc (suc fuel)) (tree_op (bytes "starlark") (starlark_params p child))
          ≡ failed)
        × (from_tree c (suc (suc fuel)) (tree_op (bytes "treeid") (starlark_params p child))
            ≡ failed)
  unfolding from_tree tree_op starlark_params
  starlark_fails fuel p child = (
    lift-failed (from_utf8 (lossy_path p)) _ (λ s. refl),
    lift-failed (from_utf8 (lossy_path p)) _ (λ s. refl),
  )

  -- The tree that a Starlark or a TreeId is written as, persisted or for its id, is refused when
  -- it is read.
  pub from_tree-starlark :
      (source : Bool) (fuel : ℕ) (p : FilePath) (f : Filter) (o : Obj)
      → (build_op c source (starlark p f) ≡ some o) ⊎ (build_op c source (tree_id p f) ≡ some o)
      → from_tree c (suc (suc fuel)) o ≡ failed
  unfolding build_op
  from_tree-starlark source fuel p f o (inl e) =
      let (child, built, e') = >>=-eq-some (build_op c source f) _ e in
      rw (← some_inj e') (starlark_fails fuel p child).0
  from_tree-starlark source fuel p f o (inr e) =
      let (child, built, e') = >>=-eq-some (build_op c source f) _ e in
      rw (← some_inj e') (starlark_fails fuel p child).1

  mutual
    unfolding build_op build_all build_arms build_refs

    pub built : (source : Bool) (f : Filter) → IsWritable c f → build_op c source f ≢ none
    built false (insert p (oid i)) h = λ e. cc
    built true (insert p (oid i)) h =
        >>=-ne-none _ _
          (>>=-ne-none (insert_mode (c.object i)) _ ((insert_mode-IsThere (c.object i)).0 h)
            (λ m e. cc))
          (λ o e. cc)
    built source (meta m f) (q, h) =
        >>=-ne-none (build_op c source f) _ (built source f h) (λ o. write_meta-ne-none m o q)
    built source (squash_some refs) h =
        >>=-ne-none (build_refs c source refs) _ (built_refs source refs h) (λ o e. cc)
    built source (rev arms) h =
        >>=-ne-none (build_arms c source arms) _ (built_arms source arms h) (λ o e. cc)
    built source (starlark p f) h =
        >>=-ne-none (build_op c source f) _ (built source f h) (λ o e. cc)
    built source (tree_id p f) h =
        >>=-ne-none (build_op c source f) _ (built source f h) (λ o e. cc)
    built source (unapply r f) h =
        >>=-ne-none (build_op c source f) _ (built source f h) (λ o e. cc)
    built source (compose fs) h =
        >>=-ne-none (build_all c source fs) _ (built_all source fs h) (λ o e. cc)
    built source (chain fs) h =
        >>=-ne-none (build_all c source fs) _ (built_all source fs h) (λ o e. cc)
    built source (subtract f g) (h, k) =
        >>=-ne-none (build_op c source f) _ (built source f h)
          (λ o. >>=-ne-none (build_op c source g) _ (built source g k) (λ o' e. cc))
    built source (exclude f) h = >>=-ne-none (build_op c source f) _ (built source f h) (λ o e. cc)
    built source (select f) h = >>=-ne-none (build_op c source f) _ (built source f h) (λ o e. cc)
    built source (pin f) h = >>=-ne-none (build_op c source f) _ (built source f h) (λ o e. cc)
    built source (insert p (inline s)) h = λ e. cc
    built source _ h = λ e. cc

    built_all : (source : Bool) (fs : Filters) → AreWritable c fs → build_all c source fs ≢ none
    built_all source nil h = λ e. cc
    built_all source (cons f fs) (h, hs) =
        >>=-ne-none (build_op c source f) _ (built source f h)
          (λ o. >>=-ne-none (build_all c source fs) _ (built_all source fs hs) (λ os e. cc))

    built_arms :
        (source : Bool) (arms : Arms) → ArmsWritable c arms → build_arms c source arms ≢ none
    built_arms source no_arms h = λ e. cc
    built_arms source (arm m r f arms) (h, hs) =
        >>=-ne-none (build_op c source f) _ (built source f h)
          (λ o. >>=-ne-none (build_arms c source arms) _ (built_arms source arms hs) (λ os e. cc))

    built_refs :
        (source : Bool) (refs : RefMap) → RefsWritable c refs → build_refs c source refs ≢ none
    built_refs source no_refs h = λ e. cc
    built_refs source (ref r f refs) (h, hs) =
        >>=-ne-none (build_op c source f) _ (built source f h)
          (λ o. >>=-ne-none (build_refs c source refs) _ (built_refs source refs hs) (λ os e. cc))

  mutual
    unfolding build_op build_all build_arms build_refs

    pub has : (f : Filter) (o : Obj) → build_op c true f ≡ some o → IsWritable c f
    has (insert p (oid i)) o e = (insert_mode-IsThere (c.object i)).1 (λ gone. cc)
    has (meta m f) o e =
        let (x, b, e') = >>=-eq-some (build_op c true f) _ e in
        ((write_meta-some m x o e').0, has f x b)
    has (squash_some refs) o e =
        let (x, b, e') = >>=-eq-some (build_refs c true refs) _ e in has_refs refs x b
    has (rev arms) o e =
        let (x, b, e') = >>=-eq-some (build_arms c true arms) _ e in has_arms arms x b
    has (starlark p f) o e = let (x, b, e') = >>=-eq-some (build_op c true f) _ e in has f x b
    has (tree_id p f) o e = let (x, b, e') = >>=-eq-some (build_op c true f) _ e in has f x b
    has (unapply r f) o e = let (x, b, e') = >>=-eq-some (build_op c true f) _ e in has f x b
    has (compose fs) o e = let (x, b, e') = >>=-eq-some (build_all c true fs) _ e in has_all fs x b
    has (chain fs) o e = let (x, b, e') = >>=-eq-some (build_all c true fs) _ e in has_all fs x b
    has (subtract f g) o e =
        let (x, b, e1) = >>=-eq-some (build_op c true f) _ e in
        let (y, b', e2) = >>=-eq-some (build_op c true g) _ e1 in (has f x b, has g y b')
    has (exclude f) o e = let (x, b, e') = >>=-eq-some (build_op c true f) _ e in has f x b
    has (select f) o e = let (x, b, e') = >>=-eq-some (build_op c true f) _ e in has f x b
    has (pin f) o e = let (x, b, e') = >>=-eq-some (build_op c true f) _ e in has f x b
    has (insert p (inline s)) o e = tt
    has _ o e = tt

    has_all : (fs : Filters) (os : List Obj) → build_all c true fs ≡ some os → AreWritable c fs
    has_all nil os e = tt
    has_all (cons f fs) os e =
        let (x, b, e1) = >>=-eq-some (build_op c true f) _ e in
        let (xs, bs, e2) = >>=-eq-some (build_all c true fs) _ e1 in (has f x b, has_all fs xs bs)

    has_arms :
        (arms : Arms) (os : List Obj) → build_arms c true arms ≡ some os → ArmsWritable c arms
    has_arms no_arms os e = tt
    has_arms (arm m r f arms) os e =
        let (x, b, e1) = >>=-eq-some (build_op c true f) _ e in
        let (xs, bs, e2) = >>=-eq-some (build_arms c true arms) _ e1 in
        (has f x b, has_arms arms xs bs)

    has_refs :
        (refs : RefMap) (os : List Obj) → build_refs c true refs ≡ some os → RefsWritable c refs
    has_refs no_refs os e = tt
    has_refs (ref r f refs) os e =
        let (x, b, e1) = >>=-eq-some (build_op c true f) _ e in
        let (xs, bs, e2) = >>=-eq-some (build_refs c true refs) _ e1 in
        (has f x b, has_refs refs xs bs)

  -- With an object source, build_op has a result if and only if every object that the Inserts of
  -- the filter name by id is a blob or a tree of the repository and no metadata key has a NUL.
  pub build_op-IsWritable :
      (f : Filter) → ((o : Obj) × (build_op c true f ≡ some o)) ↔ IsWritable c f
  build_op-IsWritable f = (
    λ (o, e). has f o e,
    λ h. elim (Option-cases (build_op c true f)) [
      | inl e ↦ absurd (built true f h e)
      | inr (o, e) ↦ (o, e)
    ],
  )
