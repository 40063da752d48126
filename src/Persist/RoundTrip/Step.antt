-- ===== src/Persist/RoundTrip/Step.antt =====
-- One level of the reader: an operation is read back if its filters are.
use josh.Base.{
  ℕ, suc, ◌≤◌, true, some, List, [], ◌∷◌, Text, ◌≡◌, refl, ap, ◌∙◌, length, some_inj, ◌>>=◌,
  >>=-eq-some, arith,
}
use josh.Filter.Op.{
  Filter, Filters, Arms, RefMap, LazyRef, RevMatch, meta, nop, empty, fold, paths, adapt, link,
  unlink, export, embed, squash_none, squash_some, author, committer, rev, prune, regex_replace,
  hook, index, invert, insert, file, prefix, subdir, workspace, stored, starlark, tree_id,
  object_deref, object_ref, pattern, message, unapply, compose, chain, subtract, exclude, select,
  pin, downstack, nil, cons, no_arms, arm, no_refs, ref, to_list, of_list,
}
use josh.Tree.Object.{Obj}
use josh.Apply.Run.{Run, ok}
use josh.Persist.Utf8.{bytes}
use josh.Persist.RefText.{
  Codec, IsCodec, lazy_ref_text, parse_lazy_ref, parse_lazy_ref-lazy_ref_text, lazy_ref_text-IsUtf8,
}
use josh.Persist.Write.{
  build_op, build_all, build_arms, build_refs, write_meta-some, keyed, rev_key, tree_op,
  filter_params, insert_params, lossy_path,
}
use josh.Persist.Read.{read_op, read_entry, read_each, read_keyed, read_single, subfilter}
use josh.Persist.Read.Keys.{of_arms, read_rev_key}
use josh.Persist.Storable.{
  IsStorable, AreStorable, AreStorableArms, AreStorableRefs, levels, levels_all, levels_arms,
  levels_refs, length_all, length_refs,
}
use josh.Persist.RoundTrip.Keys.{
  read_rev_key-rev_key, rev_key-IsUtf8, ref_pairs, put_refs-ref_pairs,
}
use josh.Persist.RoundTrip.Texts.{
  read_one-params, read_two-params, read_path-params, read_file-params, read_link-params,
  read_message-params, read_pattern-params, read_downstack-params, read_insert-params,
  read_regex_replace-params,
}
use josh.Persist.RoundTrip.Nested.{
  ReadsNested, read_single-params, read_subtract-params, read_compose-params, read_chain-params,
  read_keyed-keyed, read_rev-params, read_squash-params, read_unapply-params,
}
use josh.Persist.RoundTrip.Meta.{read_meta-params}

abbrev pub arm_list : Arms → List ((RevMatch × LazyRef) × Filter)
arm_list no_arms = []
arm_list (arm m r f arms) = ((m, r), f) ∷ arm_list arms

of_arms-arm_list : (arms : Arms) → of_arms (arm_list arms) ≡ arms
unfolding of_arms
of_arms-arm_list no_arms = refl
of_arms-arm_list (arm m r f arms) = ap (arm m r f) (of_arms-arm_list arms)

of_list-to_list : (fs : Filters) → of_list (to_list fs) ≡ fs
unfolding of_list to_list
of_list-to_list nil = refl
of_list-to_list (cons f fs) = ap (cons f) (of_list-to_list fs)

module _ (c : Codec) (laws : IsCodec c) (again : Obj → Run Filter) (depth : ℕ) where
  -- Filters that are nested at most `depth` deep are read back.
  abbrev pub IsGood : Type 0
  IsGood =
      (f : Filter) (o : Obj)
      → IsStorable c f
      → build_op c true f ≡ some o
      → levels f ≤ depth
      → subfilter c again o ≡ ok f

  module _ (good : IsGood) where
    read_each-build_all :
        (fs : Filters) (os : List Obj)
        → AreStorable c fs
        → build_all c true fs ≡ some os
        → levels_all fs ≤ depth
        → (read_each (subfilter c again) os ≡ ok (to_list fs)) × (length os ≡ length_all fs)
    unfolding build_all read_each levels_all to_list
    read_each-build_all nil os h e le = rw (← some_inj e) (refl, refl)
    read_each-build_all (cons f fs) os (h, hs) e le =
        let (o, first, e1) = >>=-eq-some (build_op c true f) _ e in
        let (os', rest, e2) = >>=-eq-some (build_all c true fs) _ e1 in
        let (each, len) = read_each-build_all fs os' hs rest (omega arith) in
        rw (← some_inj e2) (rw (good f o h first (omega arith)) (rw each), ap suc len)

    read_each-build_arms :
        (arms : Arms) (os : List Obj)
        → AreStorableArms c arms
        → build_arms c true arms ≡ some os
        → levels_arms arms ≤ depth
        → read_each (read_keyed c again (read_rev_key c)) os ≡ ok (arm_list arms)
    unfolding build_arms read_each levels_arms
    read_each-build_arms no_arms os h e le = rw (← some_inj e) refl
    read_each-build_arms (arm m r f arms) os (k, h, hs) e le =
        let (o, first, e1) = >>=-eq-some (build_op c true f) _ e in
        let (os', rest, e2) = >>=-eq-some (build_arms c true arms) _ e1 in
        let key =
          read_keyed-keyed c again (read_rev_key c) (rev_key c m r) (m, r) o f
            (rev_key-IsUtf8 c laws m r k) (read_rev_key-rev_key c laws m r k)
            (good f o h first (omega arith)) in
        rw (← some_inj e2) (rw key (rw (read_each-build_arms arms os' hs rest (omega arith))))

    read_each-build_refs :
        (refs : RefMap) (os : List Obj)
        → AreStorableRefs c refs
        → build_refs c true refs ≡ some os
        → levels_refs refs ≤ depth
        → (read_each (read_keyed c again (parse_lazy_ref c)) os ≡ ok (ref_pairs refs))
          × (length os ≡ length_refs refs)
    unfolding build_refs read_each levels_refs
    read_each-build_refs no_refs os h e le = rw (← some_inj e) (refl, refl)
    read_each-build_refs (ref r f refs) os (k, h, hs) e le =
        let (o, first, e1) = >>=-eq-some (build_op c true f) _ e in
        let (os', rest, e2) = >>=-eq-some (build_refs c true refs) _ e1 in
        let (each, len) = read_each-build_refs refs os' hs rest (omega arith) in
        let key =
          read_keyed-keyed c again (parse_lazy_ref c) (lazy_ref_text c r) r o f
            (lazy_ref_text-IsUtf8 c laws r k) (parse_lazy_ref-lazy_ref_text c laws r k)
            (good f o h first (omega arith)) in
        rw (← some_inj e2) (rw key (rw each), ap suc len)

    single :
        (name : Text) (op : Filter → Filter) (f : Filter) (o : Obj)
        → ReadsNested c again name (read_single c again op)
        → IsStorable c f
        → (build_op c true f >>= λ child. some (tree_op name (filter_params (child ∷ [])))) ≡ some o
        → levels f ≤ depth
        → read_op c again o ≡ ok (op f)
    single name op f o reads h e le =
        let (child, built, e') = >>=-eq-some (build_op c true f) _ e in
        rw (← some_inj e')
          (read_single-params c again name op child f reads (good f child h built le))

    -- One more level.
    pub read_op-build_op :
        (f : Filter) (o : Obj)
        → IsStorable c f
        → build_op c true f ≡ some o
        → levels f ≤ suc depth
        → read_op c again o ≡ ok f
    unfolding read_entry build_op levels read_op
    read_op-build_op (meta m f) o (sorted, entries, h) e le =
        let (child, built, e') = >>=-eq-some (build_op c true f) _ e in
        rw (← (write_meta-some m child o e').1)
          (read_meta-params c again m child f sorted entries (good f child h built (omega arith)))
    read_op-build_op (adapt s) o h e le =
        rw (← some_inj e) (read_one-params c again (bytes "adapt") s adapt (λ o. refl) h)
    read_op-build_op (hook s) o h e le =
        rw (← some_inj e) (read_one-params c again (bytes "hook") s hook (λ o. refl) h)
    read_op-build_op (author s t) o (h, k) e le =
        rw (← some_inj e) (read_two-params c again (bytes "author") s t author (λ o. refl) h k)
    read_op-build_op (committer s t) o (h, k) e le =
        rw (← some_inj e)
          (read_two-params c again (bytes "committer") s t committer (λ o. refl) h k)
    read_op-build_op (embed p) o h e le =
        rw (← some_inj e) (read_path-params c again (bytes "embed") p embed (λ o. refl) h)
    read_op-build_op (prefix p) o h e le =
        rw (← some_inj e) (read_path-params c again (bytes "prefix") p prefix (λ o. refl) h)
    read_op-build_op (subdir p) o h e le =
        rw (← some_inj e) (read_path-params c again (bytes "subdir") p subdir (λ o. refl) h)
    read_op-build_op (workspace p) o h e le =
        rw (← some_inj e) (read_path-params c again (bytes "workspace") p workspace (λ o. refl) h)
    read_op-build_op (stored p) o h e le =
        rw (← some_inj e) (read_path-params c again (bytes "stored") p stored (λ o. refl) h)
    read_op-build_op (object_deref p) o h e le =
        rw (← some_inj e)
          (read_path-params c again (bytes "treederef") p object_deref (λ o. refl) h)
    read_op-build_op (object_ref p) o h e le =
        rw (← some_inj e) (read_path-params c again (bytes "treeref") p object_ref (λ o. refl) h)
    read_op-build_op (file dest src) o (h, k) e le =
        rw (← some_inj e) (read_file-params c again dest src h k)
    read_op-build_op (link m) o h e le = rw (← some_inj e) (read_link-params c again m)
    read_op-build_op (message fmt re) o (h, k, r) e le =
        rw (← some_inj e) (read_message-params c again fmt re h k r)
    read_op-build_op (pattern glob) o (h, k) e le =
        rw (← some_inj e) (read_pattern-params c again glob h k)
    read_op-build_op (downstack r) o h e le =
        rw (← some_inj e) (read_downstack-params c again r laws h)
    read_op-build_op (insert p content) o (h, k) e le =
        let (params, written, e') = >>=-eq-some (insert_params c true (lossy_path p) content) _ e in
        rw (← some_inj e') (read_insert-params c again p content params laws h k written)
    read_op-build_op (regex_replace pairs) o (short, h) e le =
        rw (← some_inj e) (read_regex_replace-params c again pairs short h)
    read_op-build_op (exclude f) o h e le =
        single (bytes "exclude") exclude f o (λ o. refl) h e (omega arith)
    read_op-build_op (select f) o h e le =
        single (bytes "select") select f o (λ o. refl) h e (omega arith)
    read_op-build_op (pin f) o h e le = single (bytes "pin") pin f o (λ o. refl) h e (omega arith)
    read_op-build_op (subtract f g) o (h, k) e le =
        let (x, built, e1) = >>=-eq-some (build_op c true f) _ e in
        let (y, built', e2) = >>=-eq-some (build_op c true g) _ e1 in
        rw (← some_inj e2) (
          read_subtract-params c again x y f g (good f x h built (omega arith))
            (good g y k built' (omega arith)))
    read_op-build_op (compose fs) o (short, h) e le =
        let (os, built, e') = >>=-eq-some (build_all c true fs) _ e in
        let (each, len) = read_each-build_all fs os h built (omega arith) in
        rw (← some_inj e') (
          read_compose-params c again os (to_list fs) (omega (arith, len)) each
          ∙ ap (λ gs. ok (compose gs)) (of_list-to_list fs))
    read_op-build_op (chain nil) o h e le = absurd h
    read_op-build_op (chain (cons f fs)) o h e le =
        let (os, built, e') = >>=-eq-some (build_all c true (cons f fs)) _ e in
        let (each, len) = read_each-build_all (cons f fs) os h built (omega arith) in
        rw (← some_inj e') (
          read_chain-params c again os (to_list (cons f fs)) (λ none. cc len) each
          ∙ ap (λ gs. ok (chain gs)) (of_list-to_list (cons f fs)))
    read_op-build_op (rev arms) o h e le =
        let (os, built, e') = >>=-eq-some (build_arms c true arms) _ e in
        let each = read_each-build_arms arms os h built (omega arith) in
        rw (← some_inj e') (
          read_rev-params c again os (arm_list arms) each
          ∙ ap (λ l. ok (rev l)) (of_arms-arm_list arms))
    read_op-build_op (unapply r f) o (k, h) e le =
        let (child, built, e') = >>=-eq-some (build_op c true f) _ e in
        rw (← some_inj e') (
          read_unapply-params c again (keyed (lazy_ref_text c r) child) r f (
            read_keyed-keyed c again (parse_lazy_ref c) (lazy_ref_text c r) r child f
              (lazy_ref_text-IsUtf8 c laws r k) (parse_lazy_ref-lazy_ref_text c laws r k)
              (good f child h built (omega arith))))
    read_op-build_op (squash_some refs) o (short, sorted, h) e le =
        let (os, built, e') = >>=-eq-some (build_refs c true refs) _ e in
        let (each, len) = read_each-build_refs refs os h built (omega arith) in
        rw (← some_inj e') (
          read_squash-params c again os (ref_pairs refs) (omega (arith, len)) each
          ∙ ap (λ m. ok (squash_some m)) (put_refs-ref_pairs refs sorted))
    read_op-build_op (starlark p f) o h e le = absurd h
    read_op-build_op (tree_id p f) o h e le = absurd h
    read_op-build_op nop o h e le = rw (← some_inj e) refl
    read_op-build_op empty o h e le = rw (← some_inj e) refl
    read_op-build_op fold o h e le = rw (← some_inj e) refl
    read_op-build_op paths o h e le = rw (← some_inj e) refl
    read_op-build_op unlink o h e le = rw (← some_inj e) refl
    read_op-build_op export o h e le = rw (← some_inj e) refl
    read_op-build_op squash_none o h e le = rw (← some_inj e) refl
    read_op-build_op prune o h e le = rw (← some_inj e) refl
    read_op-build_op index o h e le = rw (← some_inj e) refl
    read_op-build_op invert o h e le = rw (← some_inj e) refl
